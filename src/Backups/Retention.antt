-- ===== src/Backups/Retention.antt =====
-- apps/server/src/modules/backups/backup-retention.ts: which backups to delete. An instant is the
-- number of milliseconds since the epoch, not negative, so the subtraction that stops at 0 selects
-- what the code's does. `Array.sort` is stable: insertion from the right, before what is not newer.
pub mod Spared
mod Tests
use docker_webmail_gui.Common.{
  ℕ, zero, suc, ◌+◌, ◌-◌, ◌*◌, ◌/◌, ◌%◌, ◌^◌, ◌≤◌, ◌<◌, String, ◌≡◌, refl, sym, ap, ◌∙◌, ◌≢◌, ◌↔◌,
  ◌⊎◌, inl, inr, Bool, true, false, not, ◌&&◌, ◌||◌, Option, none, some, List, [], ◌∷◌, ◌++◌, map,
  append-nil, append_assoc, arith, ◌==s◌, eq_iff, ltb, leb, ◌==◌, if◌then◌else◌, ltb→lt,
  ltb-false→le, lt→ltb, le→ltb-false, leb→le, ==_iff, Bool-cases, Option-cases, length, take, drop,
  get_or, concat, length-append, take-append-drop, length-drop, take-append, drop-append,
  get_or-append, take-length, drop-length, any, all, filter, find, All, All-append, update_row,
  update_where, count_where, find-update_where, find-append, find-holds, All-update_where, All-find,
  All-filter, if_same, All-update_each, All-map_each,
}

pub record RetentionCandidate : Type 0 where
  pub id : String
  pub created_at : ℕ

pub record RetentionPolicy : Type 0 where
  pub keep : ℕ
  pub max_age_days : Option ℕ

abbrev pub day_ms : ℕ
day_ms = 86_400_000

abbrev pub insert_newest : RetentionCandidate → List RetentionCandidate → List RetentionCandidate
insert_newest c [] = c ∷ []
insert_newest c (x ∷ xs) =
    let later = insert_newest c xs in
    if leb x.created_at c.created_at then c ∷ (x ∷ xs) else x ∷ later

abbrev pub newest_first : List RetentionCandidate → List RetentionCandidate
newest_first [] = []
newest_first (c ∷ cs) = insert_newest c (newest_first cs)

abbrev pub age_threshold : Option ℕ → ℕ → Option ℕ
age_threshold none now = none
age_threshold (some days) now = some (now - days * day_ms)

abbrev pub too_old : Option ℕ → RetentionCandidate → Bool
too_old none c = false
too_old (some threshold) c = ltb c.created_at threshold

abbrev pub is_protected : Option String → String → Bool
is_protected none id = false
is_protected (some p) id = id ==s p

-- The callback's tests, for the candidate at an index of the sorted list.
abbrev pub is_selected : String → Option String → ℕ → Option ℕ → ℕ → RetentionCandidate → Bool
is_selected newest protected_id keep threshold index c =
    not (c.id ==s newest)
    && not (is_protected protected_id c.id)
    && (leb keep index || too_old threshold c)

unfoldable pub select_from :
    String → Option String → ℕ → Option ℕ → ℕ → List RetentionCandidate → List String
select_from newest protected_id keep threshold index [] = []
select_from newest protected_id keep threshold index (c ∷ cs) =
    let later = select_from newest protected_id keep threshold (suc index) cs in
    if is_selected newest protected_id keep threshold index c then c.id ∷ later else later

abbrev pub select_sorted :
    List RetentionCandidate → RetentionPolicy → ℕ → Option String → List String
select_sorted [] policy now protected_id = []
select_sorted (newest ∷ rest) policy now protected_id =
    select_from newest.id protected_id policy.keep (age_threshold policy.max_age_days now) 0
      (newest ∷ rest)

unfoldable pub select_backups_for_deletion :
    List RetentionCandidate → RetentionPolicy → ℕ → Option String → List String
select_backups_for_deletion candidates policy now protected_id =
    select_sorted (newest_first candidates) policy now protected_id
