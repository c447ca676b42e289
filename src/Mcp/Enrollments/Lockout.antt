-- ===== src/Mcp/Enrollments/Lockout.antt =====
-- A setup credential locks after five failed attempts (connections.repository.ts).
use docker_webmail_gui.Mcp.Enrollments.{
  SetupCredential, has_credential_id, failed_once, record_failed_attempt, reservable, reserved,
  reserve_enrollment,
}
use docker_webmail_gui.Mcp.Store.{is_null}
use docker_webmail_gui.Common.{
  ℕ, suc, String, ◌≡◌, refl, true, false, List, [], ◌∷◌, Bool, arith, ◌==s◌, update_row,
  update_where, count_where, All, All-update_each, All-map_each, ◌≤◌, Bool-cases, inl, inr,
  All-update_where,
}

-- The failures at the given times, one after the other.
abbrev pub record_failures : String → List ℕ → List SetupCredential → List SetupCredential
record_failures id [] rows = rows
record_failures id (t ∷ ts) rows = record_failures id ts (record_failed_attempt id t rows).1

-- `n` failures are counted, and five or more have locked the row.
abbrev HasFailed : ℕ → String → SetupCredential → Type 0
HasFailed n id e =
    (e.id ==s id) ≡ true
    → (n ≤ e.failed_attempts) × (5 ≤ e.failed_attempts → is_null e.locked_at ≡ false)

failed_once-locked :
    (now : ℕ) (e : SetupCredential)
    → 5 ≤ (failed_once now e).failed_attempts
    → is_null (failed_once now e).locked_at ≡ false
failed_once-locked now e h = ground arith

HasFailed-row :
    (n : ℕ) (id : String) (now : ℕ) (e : SetupCredential)
    → ((e.id ==s id) ≡ true → n ≤ e.failed_attempts)
    → HasFailed (suc n) id (update_row (has_credential_id id) (failed_once now) e)
HasFailed-row n id now e h = elim (Bool-cases (e.id ==s id)) [
  | inl k ↦ rw k (λ m. (let bound = h k in omega arith, failed_once-locked now e))
  | inr k ↦ rw k (λ m. cc)
]

abbrev counted : List ℕ → ℕ → ℕ
counted [] n = n
counted (t ∷ ts) n = counted ts (suc n)

HasFailed-record_failures :
    (ts : List ℕ) (n : ℕ) (id : String) (rows : List SetupCredential)
    → All (HasFailed n id) rows
    → All (HasFailed (counted ts n) id) (record_failures id ts rows)
unfolding record_failed_attempt
HasFailed-record_failures [] n id rows h = h
HasFailed-record_failures (t ∷ ts) n id rows h =
    HasFailed-record_failures ts (suc n) id (record_failed_attempt id t rows).1 (
      All-update_each (HasFailed n id) (HasFailed (suc n) id) (has_credential_id id) (failed_once t)
        rows (λ e k. HasFailed-row n id t e (λ m. (k m).0)) h)

HasFailed-first :
    (t : ℕ) (id : String) (rows : List SetupCredential)
    → All (HasFailed 1 id) (record_failed_attempt id t rows).1
unfolding record_failed_attempt
HasFailed-first t id rows =
    All-update_where (HasFailed 1 id) (has_credential_id id) (failed_once t) rows
      (λ e. HasFailed-row 0 id t e (λ m. omega arith))

abbrev IsShut : String → ℕ → SetupCredential → Type 0
IsShut id now e = reservable id now e ≡ false

IsShut-HasFailed :
    (id : String) (now : ℕ) (e : SetupCredential) → HasFailed 5 id e → IsShut id now e
IsShut-HasFailed id now e h = elim (Bool-cases (e.id ==s id)) [
  | inl k ↦
      let both = h k in let locked : is_null e.locked_at ≡ false = both.1 both.0 in ground arith
  | inr k ↦ ground arith
]

-- An update whose condition holds of no row changes nothing.
count_update-none :
    {A : Type 0} (p : A → Bool) (f : A → A) (rows : List A)
    → All (λ e. p e ≡ false) rows
    → (count_where p rows ≡ 0) × (update_where p f rows ≡ rows)
count_update-none p f [] h = (refl, refl)
count_update-none p f (e ∷ rows) h =
    let rest = count_update-none p f rows h.1 in
    (ground (arith, rest.0, h.0), ground (arith, rest.1, h.0))

-- After five failed attempts on a setup credential, at any times and whatever was recorded before, it
-- is not reserved for any code at any time, and the attempt to do so changes nothing.
pub reserve_enrollment-record_failures :
    (id code : String) (until now t u v w x : ℕ) (rows : List SetupCredential)
    → reserve_enrollment id code until now (record_failures id (t ∷ u ∷ v ∷ w ∷ x ∷ []) rows)
      ≡ (false, record_failures id (t ∷ u ∷ v ∷ w ∷ x ∷ []) rows)
unfolding reserve_enrollment
reserve_enrollment-record_failures id code until now t u v w x rows =
    let failed =
      HasFailed-record_failures (u ∷ v ∷ w ∷ x ∷ []) 1 id (record_failed_attempt id t rows).1
        (HasFailed-first t id rows) in
    let shut : All (IsShut id now) (record_failures id (t ∷ u ∷ v ∷ w ∷ x ∷ []) rows) =
      All-map_each (HasFailed 5 id) (IsShut id now)
        (record_failures id (t ∷ u ∷ v ∷ w ∷ x ∷ []) rows) (IsShut-HasFailed id now) failed in
    let done =
      count_update-none (reservable id now) (reserved code until)
        (record_failures id (t ∷ u ∷ v ∷ w ∷ x ∷ []) rows) shut in
    rw (done.0, done.1) refl
