-- ===== src/Backups/Retention/Spared.antt =====
-- What the retention policy (backup-retention.ts) never selects, and what it always selects.
use docker_webmail_gui.Backups.Retention.{
  RetentionCandidate, RetentionPolicy, insert_newest, newest_first, age_threshold, too_old,
  is_protected, is_selected, select_from, select_sorted, select_backups_for_deletion,
}
use text.Mathlib.TextPositions.{eq_refl}
use docker_webmail_gui.Common.{
  ℕ, suc, ◌-◌, ◌≤◌, ◌<◌, String, ◌≡◌, refl, ap, ◌∙◌, ◌⊎◌, inl, inr, Bool, true, false, Option, none,
  List, [], ◌∷◌, arith, ◌==s◌, leb, if◌then◌else◌, leb→le, Bool-cases, length, any, All,
  All-map_each,
}

abbrev pub IsNoNewer : RetentionCandidate → RetentionCandidate → Type 0
IsNoNewer n c = c.created_at ≤ n.created_at

All-insert_newest :
    (P : RetentionCandidate → Type 0) (c : RetentionCandidate) (xs : List RetentionCandidate)
    → P c
    → All P xs
    → All P (insert_newest c xs)
All-insert_newest P c [] p h = (p, tt)
All-insert_newest P c (x ∷ xs) p h = ground (arith, All-insert_newest P c xs p h.1)

-- The other way: what holds of all that is sorted holds of all that was given.
All-newest_first :
    (P : RetentionCandidate → Type 0) (cs : List RetentionCandidate)
    → All P cs
    → All P (newest_first cs)
All-newest_first P [] h = tt
All-newest_first P (c ∷ cs) h =
    All-insert_newest P c (newest_first cs) h.0 (All-newest_first P cs h.1)

-- One of the candidates.
abbrev pub IsAmong : List RetentionCandidate → RetentionCandidate → Type 0
IsAmong [] n = ⊥
IsAmong (c ∷ cs) n = (n ≡ c) ⊎ IsAmong cs n

All-IsAmong : (cs : List RetentionCandidate) → All (IsAmong cs) cs
All-IsAmong [] = tt
All-IsAmong (c ∷ cs) =
    (inl refl, All-map_each (IsAmong cs) (IsAmong (c ∷ cs)) cs (λ n h. inr h) (All-IsAmong cs))

All-inserted :
    (P : RetentionCandidate → Type 0) (c : RetentionCandidate) (xs : List RetentionCandidate)
    → All P (insert_newest c xs)
    → P c × All P xs
All-inserted P c [] h = h
All-inserted P c (x ∷ xs) h = ground (arith, All-inserted P c xs)

All-given :
    (P : RetentionCandidate → Type 0) (cs : List RetentionCandidate)
    → All P (newest_first cs)
    → All P cs
All-given P [] h = tt
All-given P (c ∷ cs) h =
    let both = All-inserted P c (newest_first cs) h in (both.0, All-given P cs both.1)

-- The first of a sorted list is no older than the rest.
abbrev LeadsAll : List RetentionCandidate → Type 0
LeadsAll [] = Unit
LeadsAll (n ∷ cs) = All (IsNoNewer n) (n ∷ cs)

insert_newest-LeadsAll :
    (c : RetentionCandidate) (xs : List RetentionCandidate)
    → LeadsAll xs
    → LeadsAll (insert_newest c xs)
insert_newest-LeadsAll c [] h = (omega arith, tt)
insert_newest-LeadsAll c (x ∷ xs) h = elim (Bool-cases (leb x.created_at c.created_at)) [
  | inl e ↦
      let newer : x.created_at ≤ c.created_at = leb→le x.created_at c.created_at e in
      rw e
        (omega arith, (newer, All-map_each (IsNoNewer x) (IsNoNewer c) xs (λ y k. omega arith) h.1))
  | inr e ↦
      let older : c.created_at ≤ x.created_at = ground arith in
      rw e (h.0, All-insert_newest (IsNoNewer x) c xs older h.1)
]

newest_first-LeadsAll : (cs : List RetentionCandidate) → LeadsAll (newest_first cs)
newest_first-LeadsAll [] = tt
newest_first-LeadsAll (c ∷ cs) =
    insert_newest-LeadsAll c (newest_first cs) (newest_first-LeadsAll cs)

-- An id that the policy must leave: neither the newest one nor the protected one.
abbrev pub IsSpare : String → Option String → String → Type 0
IsSpare newest p id = ((id ==s newest) ≡ false) × (is_protected p id ≡ false)

select_from-IsSpare :
    (newest : String) (p : Option String) (keep : ℕ) (t : Option ℕ) (i : ℕ)
    (cs : List RetentionCandidate)
    → All (IsSpare newest p) (select_from newest p keep t i cs)
unfolding select_from
select_from-IsSpare newest p keep t i [] = tt
select_from-IsSpare newest p keep t i (c ∷ cs) =
    ground (arith, select_from-IsSpare newest p keep t (suc i) cs)

abbrev pub contains : List String → String → Bool
contains xs id = any (λ x. x ==s id) xs

-- A candidate that is too old is selected, unless it is spared.
abbrev pub IsPruned : String → Option String → Option ℕ → List String → RetentionCandidate → Type 0
IsPruned newest p t selected c =
    IsSpare newest p c.id → too_old t c ≡ true → contains selected c.id ≡ true

IsPruned-more :
    (newest : String) (p : Option String) (t : Option ℕ) (selected : List String) (id : String)
    (c : RetentionCandidate)
    → IsPruned newest p t selected c
    → IsPruned newest p t (id ∷ selected) c
IsPruned-more newest p t selected id c h spare old =
    let found : contains selected c.id ≡ true = h spare old in ground arith

IsPruned-row :
    (selected : Bool) (newest : String) (p : Option String) (keep : ℕ) (t : Option ℕ) (i : ℕ)
    (c : RetentionCandidate) (cs : List RetentionCandidate) (later : List String)
    → is_selected newest p keep t i c ≡ selected
    → All (IsPruned newest p t later) cs
    → All (IsPruned newest p t (if selected then c.id ∷ later else later)) (c ∷ cs)
IsPruned-row true newest p keep t i c cs later e rest = (
  λ spare old. ground (arith, eq_refl c.id),
  All-map_each (IsPruned newest p t later) (IsPruned newest p t (c.id ∷ later)) cs
      (λ x h. IsPruned-more newest p t later c.id x h) rest,
)
IsPruned-row false newest p keep t i c cs later e rest = (λ spare old. ground arith, rest)

select_from-IsPruned :
    (newest : String) (p : Option String) (keep : ℕ) (t : Option ℕ) (i : ℕ)
    (cs : List RetentionCandidate)
    → All (IsPruned newest p t (select_from newest p keep t i cs)) cs
unfolding select_from
select_from-IsPruned newest p keep t i [] = tt
select_from-IsPruned newest p keep t i (c ∷ cs) =
    IsPruned-row (is_selected newest p keep t i c) newest p keep t i c cs
      (select_from newest p keep t (suc i) cs) refl
      (select_from-IsPruned newest p keep t (suc i) cs)

length-select_from :
    (newest : String) (p : Option String) (keep i : ℕ) (cs : List RetentionCandidate)
    → length (select_from newest p keep none i cs) ≤ length cs - (keep - i)
unfolding select_from
length-select_from newest p keep i [] = omega arith
length-select_from newest p keep i (c ∷ cs) =
    let ih : length (select_from newest p keep none (suc i) cs) ≤ length cs - (keep - suc i) =
      length-select_from newest p keep (suc i) cs in
    elim (Bool-cases (leb keep i)) [
      | inl e ↦ let past : keep ≤ i = leb→le keep i e in ground arith
      | inr e ↦ let before : i < keep = ground arith in ground arith
    ]

length-insert_newest :
    (c : RetentionCandidate) (xs : List RetentionCandidate)
    → length (insert_newest c xs) ≡ suc (length xs)
length-insert_newest c [] = refl
length-insert_newest c (x ∷ xs) = ground (arith, length-insert_newest c xs)

length-newest_first : (cs : List RetentionCandidate) → length (newest_first cs) ≡ length cs
length-newest_first [] = refl
length-newest_first (c ∷ cs) =
    length-insert_newest c (newest_first cs) ∙ ap suc (length-newest_first cs)

-- What is promised of a selection: the newest candidate and the protected one are spared.
pub record IsSafe (candidates : List RetentionCandidate) (p : Option String) (t : Option ℕ)
    (selected : List String) : Type 0 where
  pub newest : RetentionCandidate
  pub among : IsAmong candidates newest
  pub leads : All (IsNoNewer newest) candidates
  pub spared : All (IsSpare newest.id p) selected
  pub pruned : All (IsPruned newest.id p t selected) candidates

select_sorted-IsSafe :
    (sorted candidates : List RetentionCandidate) (policy : RetentionPolicy) (now : ℕ)
    (p : Option String)
    → newest_first candidates ≡ sorted
    → (length sorted ≡ 0 → ⊥)
    → IsSafe candidates p
        (age_threshold policy.max_age_days now)
        (select_sorted sorted policy now p)
select_sorted-IsSafe [] candidates policy now p e h = absurd (h refl)
select_sorted-IsSafe (n ∷ rest) candidates policy now p e h =
    let t : Option ℕ = age_threshold policy.max_age_days now in
    let first : LeadsAll (newest_first candidates) = newest_first-LeadsAll candidates in
    let leads : All (IsNoNewer n) (n ∷ rest) = rw e at first in
    let among : All (IsAmong candidates) (n ∷ rest) =
      rw e at (All-newest_first (IsAmong candidates) candidates (All-IsAmong candidates)) in
    record {
      newest = n;
      among = among.0;
      leads = All-given (IsNoNewer n) candidates (rw e leads);
      spared = select_from-IsSpare n.id p policy.keep t 0 (n ∷ rest);
      pruned =
          All-given (IsPruned n.id p t (select_from n.id p policy.keep t 0 (n ∷ rest))) candidates
            (rw e (select_from-IsPruned n.id p policy.keep t 0 (n ∷ rest)));
    }

-- Of one or more candidates there is one that none is newer than, whose id is never selected, nor is
-- the protected id; and any other candidate that is older than the age cap is selected.
pub select_backups_for_deletion-IsSafe :
    (c : RetentionCandidate) (cs : List RetentionCandidate) (policy : RetentionPolicy) (now : ℕ)
    (p : Option String)
    → IsSafe
        (c ∷ cs)
        p
        (age_threshold policy.max_age_days now)
        (select_backups_for_deletion (c ∷ cs) policy now p)
unfolding select_backups_for_deletion
select_backups_for_deletion-IsSafe c cs policy now p =
    select_sorted-IsSafe (newest_first (c ∷ cs)) (c ∷ cs) policy now p refl
      (λ e. let n = length-newest_first (c ∷ cs) in omega arith)

length-select_sorted :
    (sorted : List RetentionCandidate) (keep now : ℕ) (p : Option String)
    → length (select_sorted sorted (record { keep = keep; max_age_days = none }) now p)
      ≤ length sorted - keep
length-select_sorted [] keep now p = omega arith
length-select_sorted (n ∷ rest) keep now p =
    let bound = length-select_from n.id p keep 0 (n ∷ rest) in omega arith

-- Without an age cap, at least `keep` of the candidates stay, or all where there are fewer.
pub length-select_backups_for_deletion :
    (candidates : List RetentionCandidate) (keep now : ℕ) (p : Option String)
    → length
        (select_backups_for_deletion candidates (record { keep = keep; max_age_days = none }) now p)
      ≤ length candidates - keep
unfolding select_backups_for_deletion
length-select_backups_for_deletion candidates keep now p =
    let n = length-newest_first candidates in
    let bound = length-select_sorted (newest_first candidates) keep now p in rw n at bound
