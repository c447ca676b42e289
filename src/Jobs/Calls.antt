-- ===== src/Jobs/Calls.antt =====
-- Each call of the job runner keeps the invariant (job-runner.ts).
use docker_webmail_gui.Jobs.{
  CancelResult, CancelError, resolved, rejected, drop_job, cancel_row, get_by_id, mark_cancelled,
  is_queued, is_running, JobStatus, queued, running, succeeded, failed, cancelled, append_log,
  enqueue, Runner, Ending, Job, contains, EnqueueParams, has_job_id, new_row, done_well, cancel,
  finish, is_active, mark_succeeded, erase, at_progress, set_progress, mark_failed, update_progress,
  cancelled_job, called_off, pump, finish_current, done_badly,
}
use text.Mathlib.TextPositions.{eq_refl}
use docker_webmail_gui.Jobs.Serial.{
  contains-IsApart, contains-erase, contains-erase_self, IsApart-contains, IsPending-delete,
  IsSerial, Distinct, RowOk, is_current, pump-IsSerial, IsPending, IsApart,
}
use docker_webmail_gui.Common.{
  ℕ, String, ◌≡◌, refl, sym, ap, ◌∙◌, inl, inr, true, false, ◌||◌, Option, none, some, List, [],
  ◌∷◌, ◌++◌, arith, ◌==s◌, eq_iff, Bool-cases, All, All-append, update_row, update_where,
  find-holds, All-find, All-update_each, All-map_each,
}

-- `generateId` gave an id that nothing uses.
pub record IsFresh (id : String) (r : Runner) : Type 0 where
  pub no_row : All (λ j. (j.id ==s id) ≡ false) r.rows
  pub not_waiting : contains r.queue id ≡ false
  pub not_current : is_current r.current id ≡ false

pub contains-snoc :
    (xs : List String) (id x : String) → contains (xs ++ id ∷ []) x ≡ (contains xs x || (id ==s x))
contains-snoc [] id x = ground arith
contains-snoc (y ∷ xs) id x = ground (arith, contains-snoc xs id x)

Distinct-snoc :
    (xs : List String) (id : String)
    → Distinct xs
    → contains xs id ≡ false
    → Distinct (xs ++ id ∷ [])
Distinct-snoc [] id d h = (refl, tt)
Distinct-snoc (y ∷ xs) id d h =
    ground (arith, contains-snoc xs id y, eq_iff id y, eq_iff y id, Distinct-snoc xs id d.1)

All-snoc :
    (P : String → Type 0) (xs : List String) (id : String) → All P xs → P id → All P (xs ++ id ∷ [])
All-snoc P xs id h p = All-append P xs (id ∷ []) h (p, tt)

row_added :
    (id : String) (queue : List String) (current : Option String) (j : Job)
    → (j.id ==s id) ≡ false
    → RowOk queue current j
    → RowOk (queue ++ id ∷ []) current j
row_added id queue current j other h =
    ground (arith, contains-snoc queue id j.id, eq_iff id j.id, eq_iff j.id id)

rows_added :
    (id : String) (queue : List String) (current : Option String) (rows : List Job)
    → All (λ j. (j.id ==s id) ≡ false) rows
    → All (RowOk queue current) rows
    → All (RowOk (queue ++ id ∷ []) current) rows
rows_added id queue current [] f h = tt
rows_added id queue current (j ∷ rows) f h =
    (row_added id queue current j f.0 h.0, rows_added id queue current rows f.1 h.1)

pub enqueue-IsSerial :
    (id : String) (p : EnqueueParams) (now : ℕ) (r : Runner)
    → IsFresh id r
    → IsSerial r
    → IsSerial (enqueue id p now r)
unfolding enqueue
enqueue-IsSerial id p now r f h = pump-IsSerial now _ (record {
  rows_ok =
      All-append (RowOk (r.queue ++ id ∷ []) r.current) r.rows (new_row id p now ∷ [])
        (rows_added id r.queue r.current r.rows f.no_row h.consistent.rows_ok)
        (ground (arith, contains-snoc r.queue id id, eq_refl id, f.not_current));
  distinct = Distinct-snoc r.queue id h.consistent.distinct f.not_waiting;
  all_pending =
      All-snoc (IsPending (id ∷ r.pending)) r.queue id
        (All-map_each (IsPending r.pending) (IsPending (id ∷ r.pending)) r.queue
          (λ x e. ground arith) h.consistent.all_pending)
        (ground (arith, eq_refl id));
  apart = All-snoc (IsApart r.current) r.queue id h.consistent.apart f.not_current;
})

row_settled :
    (id : String) (queue : List String) (f : Job → Job) (j : Job)
    → contains queue id ≡ false
    → (f j).id ≡ j.id
    → is_active (f j).status ≡ false
    → RowOk queue (some id) j
    → RowOk queue none (update_row (has_job_id id) f j)
row_settled id queue f j absent same ended h = ground (arith, eq_iff j.id id, eq_iff id j.id)

-- What settling does to the invariant, before the next job is taken.
settled-IsSerial :
    (id : String) (f : Job → Job) (now : ℕ) (r t : Runner)
    → r.current ≡ some id
    → ((j : Job) → (f j).id ≡ j.id)
    → ((j : Job) → is_active (f j).status ≡ false)
    → t.rows ≡ update_where (has_job_id id) f r.rows
    → t.queue ≡ r.queue
    → t.pending ≡ r.pending
    → t.current ≡ none
    → IsSerial r
    → IsSerial (pump now t)
settled-IsSerial id f now r t c same ended rows queue pending idle h =
    let apart : All (IsApart (some id)) r.queue = rw c at h.consistent.apart in
    let before : All (RowOk r.queue (some id)) r.rows = rw c at h.consistent.rows_ok in
    pump-IsSerial now t (record {
      rows_ok =
          rw (rows, queue, idle)
            (All-update_each (RowOk r.queue (some id)) (RowOk r.queue none) (has_job_id id) f r.rows
              (λ j ok.
                row_settled id r.queue f j (contains-IsApart id r.queue apart) (same j) (ended j)
                  ok)
              before);
      distinct = rw queue h.consistent.distinct;
      all_pending = rw (queue, pending) h.consistent.all_pending;
      apart =
          rw (queue, idle)
            (All-map_each (IsApart (some id)) (IsApart none) r.queue (λ x e. refl) apart);
    })

finish_current-IsSerial :
    (current : Option String) (ending : Ending) (now : ℕ) (r : Runner)
    → r.current ≡ current
    → IsSerial r
    → IsSerial (finish_current current ending now r)
unfolding mark_succeeded mark_failed
finish_current-IsSerial none ending now r c h = h
finish_current-IsSerial (some id) (resolved metadata) now r c h =
    settled-IsSerial id (done_well now metadata) now r _ c (λ j. refl) (λ j. refl) refl refl refl
      refl h
finish_current-IsSerial (some id) (rejected message) now r c h =
    settled-IsSerial id (done_badly now message) now r _ c (λ j. refl) (λ j. refl) refl refl refl
      refl h

pub finish-IsSerial :
    (ending : Ending) (now : ℕ) (r : Runner) → IsSerial r → IsSerial (finish ending now r)
unfolding finish
finish-IsSerial ending now r h = finish_current-IsSerial r.current ending now r refl h

row_cancelled :
    (id : String) (queue : List String) (current : Option String) (now : ℕ) (j : Job)
    → Distinct queue
    → is_current current id ≡ false
    → RowOk queue current j
    → RowOk (erase id queue) current (update_row (has_job_id id) (called_off now) j)
row_cancelled id queue current now j d idle h = ground (
  arith,
  eq_iff j.id id,
  eq_iff id j.id,
  contains-erase id j.id queue,
  contains-erase_self id queue d,
)

Distinct-erase : (id : String) (xs : List String) → Distinct xs → Distinct (erase id xs)
Distinct-erase id [] d = tt
Distinct-erase id (x ∷ xs) d =
    ground (arith, eq_iff id x, eq_iff x id, contains-erase id x xs, Distinct-erase id xs d.1)

All-erase : (P : String → Type 0) (id : String) (xs : List String) → All P xs → All P (erase id xs)
All-erase P id [] h = tt
All-erase P id (x ∷ xs) h = ground (arith, All-erase P id xs h.1)

queued_not_running : (s : JobStatus) → is_queued s ≡ true → is_running s ≡ false
queued_not_running queued h = refl
queued_not_running running h = sym h
queued_not_running succeeded h = refl
queued_not_running failed h = refl
queued_not_running cancelled h = refl

drop_job-IsSerial :
    (id : String) (now : ℕ) (r : Runner)
    → is_current r.current id ≡ false
    → IsSerial r
    → IsSerial (drop_job id now r)
unfolding mark_cancelled
drop_job-IsSerial id now r idle h = record {
  consistent = record {
    rows_ok =
        All-update_each (RowOk r.queue r.current) (RowOk (erase id r.queue) r.current)
          (has_job_id id) (called_off now) r.rows
          (λ j ok. row_cancelled id r.queue r.current now j h.consistent.distinct idle ok)
          h.consistent.rows_ok;
    distinct = Distinct-erase id r.queue h.consistent.distinct;
    all_pending =
        IsPending-delete id r.pending (erase id r.queue)
          (IsApart-contains id (erase id r.queue)
            (contains-erase_self id r.queue h.consistent.distinct))
          (All-erase (IsPending r.pending) id r.queue h.consistent.all_pending);
    apart = All-erase (IsApart r.current) id r.queue h.consistent.apart;
  };
  busy = λ e. ap (erase id) (h.busy e);
}

-- The row that is found is queued, so it is not the current one.
queued_apart :
    (id : String) (r : Runner) (job : Job)
    → get_by_id id r ≡ some job
    → is_queued job.status ≡ true
    → IsSerial r
    → is_current r.current id ≡ false
queued_apart id r job e q h =
    let same : job.id ≡ id = (eq_iff job.id id).0 (find-holds (has_job_id id) r.rows job e) in
    let ok : RowOk r.queue r.current job =
      All-find (RowOk r.queue r.current) (has_job_id id) r.rows job h.consistent.rows_ok e in
    let quiet : is_running job.status ≡ false = queued_not_running job.status q in
    rw same at (sym ok.1 ∙ quiet)

pub cancel_row-cancelled_job :
    (job : Job) (id : String) (now : ℕ) (r t : Runner)
    → cancel_row id now r (some job) ≡ cancelled_job t
    → (is_queued job.status ≡ true) × (drop_job id now r ≡ t)
cancel_row-cancelled_job job id now r t done = elim (Bool-cases (is_queued job.status)) [
  | inl q ↦
      let reached : CancelResult.cancelled_job (drop_job id now r) ≡ cancelled_job t =
        rw q at done in
      (q, cc)
  | inr q ↦
      let stuck : CancelResult.refused (CancelError.not_queued job.status) ≡ cancelled_job t =
        rw q at done in
      cc
]

cancel_row-IsSerial :
    (found : Option Job) (id : String) (now : ℕ) (r t : Runner)
    → get_by_id id r ≡ found
    → cancel_row id now r found ≡ cancelled_job t
    → IsSerial r
    → IsSerial t
cancel_row-IsSerial none id now r t e done h = cc
cancel_row-IsSerial (some job) id now r t e done h =
    let found = cancel_row-cancelled_job job id now r t done in
    let kept : IsSerial (drop_job id now r) =
      drop_job-IsSerial id now r (queued_apart id r job e found.0 h) h in
    rw found.1 at kept

pub cancel-IsSerial :
    (id : String) (now : ℕ) (r t : Runner)
    → cancel id now r ≡ cancelled_job t
    → IsSerial r
    → IsSerial t
unfolding cancel
cancel-IsSerial id now r t e h = cancel_row-IsSerial (get_by_id id r) id now r t refl e h

pub append_log-IsSerial :
    (id level message : String) (now : ℕ) (r : Runner)
    → IsSerial r
    → IsSerial (append_log id level message now r)
unfolding append_log
append_log-IsSerial id level message now r h = record {
  consistent = record {
    rows_ok = h.consistent.rows_ok;
    distinct = h.consistent.distinct;
    all_pending = h.consistent.all_pending;
    apart = h.consistent.apart;
  };
  busy = h.busy;
}

row_progress :
    (id : String) (p : ℕ) (queue : List String) (current : Option String) (j : Job)
    → RowOk queue current j
    → RowOk queue current (update_row (has_job_id id) (at_progress p) j)
row_progress id p queue current j h = ground arith

pub set_progress-IsSerial :
    (id : String) (p : ℕ) (r : Runner) → IsSerial r → IsSerial (set_progress id p r)
unfolding set_progress update_progress
set_progress-IsSerial id p r h = record {
  consistent = record {
    rows_ok =
        All-update_each (RowOk r.queue r.current) (RowOk r.queue r.current) (has_job_id id)
          (at_progress p) r.rows (row_progress id p r.queue r.current) h.consistent.rows_ok;
    distinct = h.consistent.distinct;
    all_pending = h.consistent.all_pending;
    apart = h.consistent.apart;
  };
  busy = h.busy;
}
