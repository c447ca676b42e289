-- ===== src/Jobs/Serial.antt =====
-- Jobs run one at a time (job-runner.ts): the invariant, and every call that keeps it.
use docker_webmail_gui.Jobs.{
  Runner, mark_running, pump, Job, delete, contains, pump_from, is_queued, start, erase, has_job_id,
  started, is_running,
}
use docker_webmail_gui.Common.{
  ℕ, String, ◌≡◌, refl, Bool, true, false, Option, none, some, List, [], ◌∷◌, arith, ◌==s◌, eq_iff,
  All, update_row, All-update_each,
}

abbrev pub is_current : Option String → String → Bool
is_current none id = false
is_current (some c) id = c ==s id

-- A row is `queued` exactly if its id waits in the queue, and `running` exactly if it is current.
abbrev pub RowOk : List String → Option String → Job → Type 0
RowOk queue current j =
    (is_queued j.status ≡ contains queue j.id) × (is_running j.status ≡ is_current current j.id)

abbrev pub Distinct : List String → Type 0
Distinct [] = Unit
Distinct (x ∷ xs) = (contains xs x ≡ false) × Distinct xs

abbrev pub IsPending : List String → String → Type 0
IsPending pending id = contains pending id ≡ true

abbrev pub IsApart : Option String → String → Type 0
IsApart current id = is_current current id ≡ false

-- The invariant inside a call, before `pump`.
pub record IsConsistent (r : Runner) : Type 0 where
  pub rows_ok : All (RowOk r.queue r.current) r.rows
  pub distinct : Distinct r.queue
  pub all_pending : All (IsPending r.pending) r.queue
  pub apart : All (IsApart r.current) r.queue

-- The invariant between calls: no job waits while none runs.
pub record IsSerial (r : Runner) : Type 0 where
  pub consistent : IsConsistent r
  pub busy : r.current ≡ none → r.queue ≡ []

pub contains-delete :
    (id x : String) (xs : List String)
    → (id ==s x) ≡ false
    → contains (delete id xs) x ≡ contains xs x
contains-delete id x [] h = refl
contains-delete id x (y ∷ xs) h =
    ground (arith, eq_iff y id, eq_iff id x, eq_iff y x, contains-delete id x xs h)

pub contains-erase :
    (id x : String) (xs : List String)
    → (id ==s x) ≡ false
    → contains (erase id xs) x ≡ contains xs x
contains-erase id x [] h = refl
contains-erase id x (y ∷ xs) h =
    ground (arith, eq_iff y id, eq_iff id x, eq_iff y x, contains-erase id x xs h)

pub contains-erase_self :
    (id : String) (xs : List String) → Distinct xs → contains (erase id xs) id ≡ false
contains-erase_self id [] h = refl
contains-erase_self id (y ∷ xs) h = ground (arith, eq_iff y id, contains-erase_self id xs h.1)

pub IsApart-contains :
    (id : String) (xs : List String) → contains xs id ≡ false → All (IsApart (some id)) xs
IsApart-contains id [] h = tt
IsApart-contains id (y ∷ xs) h = ground (arith, eq_iff y id, eq_iff id y, IsApart-contains id xs)

pub contains-IsApart :
    (id : String) (xs : List String) → All (IsApart (some id)) xs → contains xs id ≡ false
contains-IsApart id [] h = refl
contains-IsApart id (y ∷ xs) h =
    ground (arith, eq_iff y id, eq_iff id y, contains-IsApart id xs h.1)

pub IsPending-delete :
    (id : String) (pending xs : List String)
    → All (IsApart (some id)) xs
    → All (IsPending pending) xs
    → All (IsPending (delete id pending)) xs
IsPending-delete id pending [] a h = tt
IsPending-delete id pending (x ∷ xs) a h =
    (rw (contains-delete id x pending a.0) h.0, IsPending-delete id pending xs a.1 h.1)

row_started :
    (id : String) (rest : List String) (now : ℕ) (j : Job)
    → contains rest id ≡ false
    → RowOk (id ∷ rest) none j
    → RowOk rest (some id) (update_row (has_job_id id) (started now) j)
row_started id rest now j absent h = ground (arith, eq_iff j.id id, eq_iff id j.id)

start-IsConsistent :
    (id : String) (rest : List String) (now : ℕ) (r : Runner)
    → r.queue ≡ id ∷ rest
    → r.current ≡ none
    → IsConsistent r
    → IsConsistent (start id now (record r { queue = rest }))
unfolding mark_running
start-IsConsistent id rest now r q c h =
    let distinct : Distinct (id ∷ rest) = rw q at h.distinct in
    let pending : All (IsPending r.pending) (id ∷ rest) = rw q at h.all_pending in
    let rows : All (RowOk (id ∷ rest) none) r.rows = rw (q, c) at h.rows_ok in
    let apart : All (IsApart (some id)) rest = IsApart-contains id rest distinct.0 in
    record {
      rows_ok =
          All-update_each (RowOk (id ∷ rest) none) (RowOk rest (some id)) (has_job_id id)
            (started now) r.rows (λ j ok. row_started id rest now j distinct.0 ok) rows;
      distinct = distinct.1;
      all_pending = IsPending-delete id r.pending rest apart pending.1;
      apart = apart;
    }

pump_from-IsSerial :
    (queue : List String) (current : Option String) (now : ℕ) (r : Runner)
    → r.queue ≡ queue
    → r.current ≡ current
    → IsConsistent r
    → IsSerial (pump_from queue current now r)
unfolding pump_from mark_running
pump_from-IsSerial queue (some id) now r q c h = record { consistent = h; busy = cc }
pump_from-IsSerial [] none now r q c h = record { consistent = h; busy = λ e. q }
pump_from-IsSerial (id ∷ rest) none now r q c h =
    let pending : All (IsPending r.pending) (id ∷ rest) = rw q at h.all_pending in
    rw pending.0 (record { consistent = start-IsConsistent id rest now r q c h; busy = cc })

pub pump-IsSerial : (now : ℕ) (r : Runner) → IsConsistent r → IsSerial (pump now r)
pump-IsSerial now r h = pump_from-IsSerial r.queue r.current now r refl refl h
