-- ===== src/Auth/Conflict.antt =====
-- An account that is signed in never meets the guard of the last enabled account
-- (apps/server/src/modules/auth/admins.routes.ts).
use docker_webmail_gui.Auth.Store.{
  AdminRow, Database, find_by_id, count_enabled, is_enabled, UpdateAdminPatch,
}
use docker_webmail_gui.Auth.AdminRoutes.{
  forbidden, conflict, Reply, error, assert_not_self, assert_not_last_enabled_admin, guarded,
  update_found, delete_found, asks_disabled, apply_update, update_route, apply_delete, delete_route,
}
use docker_webmail_gui.Auth.LastAdmin.{has_id}
use docker_webmail_gui.Common.{
  Bool, Bool-cases, List, Option, String, ap, arith, count_where, eq_iff, false, find, find-holds,
  if_ind, if◌then◌else◌, inl, inr, leb, lt→leb-false, none, refl, some, sym, true, ℕ, ◌==s◌, ◌∙◌,
  ◌∷◌, ◌≡◌, ◌≢◌, ◌≤◌, [],
}

module _ {A : Type 0} (e p q : A → Bool) where
  one_found : (rows : List A) (b : A) → find q rows ≡ some b → e b ≡ true → 1 ≤ count_where e rows
  one_found [] b h on = cc
  one_found (x ∷ rows) b h on = elim (Bool-cases (q x)) [
    | inl k ↦
        let same : some x ≡ some b = sym (rw (find, k) refl) ∙ h in
        let on_too : e x ≡ true = cc in ground (arith, on_too)
    | inr k ↦ ground (arith, one_found rows b)
  ]

abbrev pub OtherIds : {A : Type 0} → (A → Bool) → (A → Bool) → Type 0
OtherIds p q = (x : _) → p x ≡ true → q x ≡ false

two_found :
    {A : Type 0} (e p q : A → Bool) (rows : List A) (a b : A)
    → OtherIds p q
    → find p rows ≡ some a
    → find q rows ≡ some b
    → e a ≡ true
    → e b ≡ true
    → 2 ≤ count_where e rows
two_found e p q [] a b apart f g on on_too = cc
two_found e p q (x ∷ rows) a b apart f g on on_too = elim (Bool-cases (p x)) [
  | inl k ↦
      let same : some x ≡ some a = sym (rw (find, k) refl) ∙ f in
      let first : e x ≡ true = cc in
      let more = one_found e q q rows b in
      let apart_here = apart x k in ground (arith, first, apart_here, more)
  | inr k ↦ elim (Bool-cases (q x)) [
    | inl j ↦
        let same : some x ≡ some b = sym (rw (find, j) refl) ∙ g in
        let first : e x ≡ true = cc in
        let more = one_found e p p rows a in ground (arith, first, more)
    | inr j ↦ ground (arith, two_found e p q rows a b apart)
  ]
]

module _ (actor : AdminRow) (db : Database) (stored : find_by_id db actor.id ≡ some actor)
    (enabled : actor.disabled ≡ false) where
  apart :
      (target : AdminRow)
      → (actor.id ==s target.id) ≡ false
      → OtherIds (has_id actor.id) (has_id target.id)
  apart target differ x is_actor =
      ap (λ i. i ==s target.id) ((eq_iff x.id actor.id).0 is_actor) ∙ differ

  two_enabled :
      (target : AdminRow)
      → find_by_id db target.id ≡ some target
      → (actor.id ==s target.id) ≡ false
      → target.disabled ≡ false
      → leb (count_enabled db) 1 ≡ false
  unfolding find_by_id count_enabled
  two_enabled target found differ on = lt→leb-false 1 (count_where is_enabled db.admins) (
      two_found is_enabled (has_id actor.id) (has_id target.id) db.admins actor target
        (apart target differ) stored found (rw enabled refl) (rw on refl))

  not_last-none :
      (target : AdminRow)
      → find_by_id db target.id ≡ some target
      → (actor.id ==s target.id) ≡ false
      → assert_not_last_enabled_admin db target ≡ none
  unfolding assert_not_last_enabled_admin
  not_last-none target found differ =
      if_ind (λ g. g ≡ none) target.disabled none
        (if leb (count_enabled db) 1 then some conflict else none) (λ _. refl)
        (λ on. rw (two_enabled target found differ on) refl)

  guarded-none :
      (target : AdminRow) (change : Reply × Database)
      → find_by_id db target.id ≡ some target
      → (change.0 ≡ error conflict → ⊥)
      → (guarded
          (assert_not_self actor.id target.id)
          (assert_not_last_enabled_admin db target)
          db
          change).0
        ≡ error conflict
      → ⊥
  guarded-none target change found fine =
      if_ind
        (λ g.
          (guarded g (assert_not_last_enabled_admin db target) db change).0 ≡ error conflict → ⊥)
        (actor.id ==s target.id) (some forbidden) none (λ _ e. cc)
        (λ differ e.
          fine
            (ap (λ g. (guarded none g db change).0) (sym (not_last-none target found differ)) ∙ e))

  delete_found_fine :
      (id : String) (found : Option AdminRow)
      → find_by_id db id ≡ found
      → (delete_found actor db found).0 ≡ error conflict
      → ⊥
  unfolding apply_delete find_by_id
  delete_found_fine id none f e = cc
  delete_found_fine id (some target) f e =
      let same : target.id ≡ id =
        (eq_iff target.id id).0 (find-holds (has_id id) db.admins target f) in
      guarded-none target (apply_delete actor target db)
        (ap (λ i. find (has_id i) db.admins) same ∙ f) (λ c. cc) e

  update_found_fine :
      (id : String) (patch : UpdateAdminPatch) (now : ℕ) (found : Option AdminRow)
      → find_by_id db id ≡ found
      → (update_found actor patch now db found).0 ≡ error conflict
      → ⊥
  unfolding apply_update find_by_id
  update_found_fine id patch now none f = λ e. cc
  update_found_fine id patch now (some target) f =
      let same : target.id ≡ id =
        (eq_iff target.id id).0 (find-holds (has_id id) db.admins target f) in
      if_ind (λ r. r.0 ≡ error conflict → ⊥) (asks_disabled patch)
        (guarded (assert_not_self actor.id target.id) (assert_not_last_enabled_admin db target) db
          (apply_update actor target patch now db))
        (apply_update actor target patch now db)
        (λ _.
          guarded-none target (apply_update actor target patch now db)
            (ap (λ i. find (has_id i) db.admins) same ∙ f) (λ c. cc))
        (λ _ c. cc)

-- A request to change or delete an account, from an account that is stored and enabled, is never answered
-- with the conflict of the last enabled account: the guard against its own account, or another enabled one,
-- comes first.
pub routes_never_conflict :
    (actor : AdminRow) (id : String) (patch : UpdateAdminPatch) (now : ℕ) (db : Database)
    → find_by_id db actor.id ≡ some actor
    → actor.disabled ≡ false
    → ((update_route actor id patch now db).0 ≢ error conflict)
      × ((delete_route actor id db).0 ≢ error conflict)
unfolding update_route delete_route
routes_never_conflict actor id patch now db stored enabled = (
  update_found_fine actor db stored enabled id patch now (find_by_id db id) refl,
  delete_found_fine actor db stored enabled id (find_by_id db id) refl,
)
