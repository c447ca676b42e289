-- ===== src/Jobs/Ended.antt =====
-- A job that has ended stays as it ended, whatever is called next (job-runner.ts).
use docker_webmail_gui.Jobs.Calls.{contains-snoc, cancel_row-cancelled_job}
use docker_webmail_gui.Jobs.Steps.{
  Step, step_enqueue, step_cancel, step_finish, step_progress, step_log,
}
use docker_webmail_gui.Jobs.{
  get_by_id, Runner, Job, JobStatus, EnqueueParams, Ending, resolved, rejected, cancelled_job,
  cancel, enqueue, finish, set_progress, append_log, started, pump_from, mark_running,
  mark_cancelled, mark_succeeded, mark_failed, done_well, done_badly, called_off, at_progress,
  update_progress, is_running, is_queued, is_active, has_job_id, contains, drop_job, cancel_row,
  finish_current, new_row, settle,
}
use docker_webmail_gui.Jobs.Serial.{IsSerial, RowOk, is_current}
use docker_webmail_gui.Common.{
  ℕ, String, ◌≡◌, refl, sym, ap, ◌∙◌, inl, inr, true, false, Option, none, some, List, [], ◌∷◌,
  ◌++◌, arith, ◌==s◌, eq_iff, Bool-cases, find, All, update_row, update_where, find-update_where,
  find-append, find-holds, All-find,
}

-- An update of another id leaves the selected row as it is.
update_apart :
    (x id : String) (f : Job → Job) (rows : List Job) (j : Job)
    → ((r : Job) → (f r).id ≡ r.id)
    → (x ==s id) ≡ false
    → find (has_job_id id) rows ≡ some j
    → find (has_job_id id) (update_where (has_job_id x) f rows) ≡ some j
update_apart x id f rows j same other e =
    let mine : j.id ≡ id = (eq_iff j.id id).0 (find-holds (has_job_id id) rows j e) in
    let kept : update_row (has_job_id x) f j ≡ j = ground (arith, eq_iff j.id x, eq_iff x id) in
    rw
      (
        find-update_where (has_job_id id) (has_job_id x) f rows (λ r. ap (λ i. i ==s id) (same r)),
        e,
        kept,
      )
      refl

ended_not_queued : (s : JobStatus) → is_active s ≡ false → is_queued s ≡ false
ended_not_queued s h = ground arith

-- The row of an ended job is neither waiting nor current.
ended_apart :
    (id : String) (r : Runner) (j : Job)
    → All (RowOk r.queue r.current) r.rows
    → get_by_id id r ≡ some j
    → is_active j.status ≡ false
    → (contains r.queue id ≡ false) × (is_current r.current id ≡ false)
ended_apart id r j ok e ended =
    let same : j.id ≡ id = (eq_iff j.id id).0 (find-holds (has_job_id id) r.rows j e) in
    let row : RowOk r.queue r.current j =
      All-find (RowOk r.queue r.current) (has_job_id id) r.rows j ok e in
    let quiet : (is_queued j.status ≡ false) × (is_running j.status ≡ false) = ground arith in
    let both : (contains r.queue j.id ≡ false) × (is_current r.current j.id ≡ false) =
      (sym row.0 ∙ quiet.0, sym row.1 ∙ quiet.1) in
    rw same at both

pump_from_ended :
    (queue : List String) (current : Option String) (id : String) (now : ℕ) (r : Runner) (j : Job)
    → contains queue id ≡ false
    → get_by_id id r ≡ some j
    → get_by_id id (pump_from queue current now r) ≡ some j
unfolding pump_from mark_running
pump_from_ended queue (some c) id now r j absent e = e
pump_from_ended [] none id now r j absent e = e
pump_from_ended (x ∷ rest) none id now r j absent e = elim (Bool-cases (contains r.pending x)) [
  | inl h ↦ rw h (update_apart x id (started now) r.rows j (λ k. refl) (ground arith) e)
  | inr h ↦ rw h e
]

settled_ended :
    (c id : String) (ending : Ending) (now : ℕ) (r : Runner) (j : Job)
    → (c ==s id) ≡ false
    → get_by_id id r ≡ some j
    → get_by_id id (settle c ending now r) ≡ some j
unfolding mark_succeeded mark_failed
settled_ended c id (resolved m) now r j other e =
    update_apart c id (done_well now m) r.rows j (λ k. refl) other e
settled_ended c id (rejected m) now r j other e =
    update_apart c id (done_badly now m) r.rows j (λ k. refl) other e

enqueue_ended :
    (x id : String) (p : EnqueueParams) (now : ℕ) (r : Runner) (j : Job)
    → (x ==s id) ≡ false
    → contains r.queue id ≡ false
    → get_by_id id r ≡ some j
    → get_by_id id (enqueue x p now r) ≡ some j
unfolding enqueue
enqueue_ended x id p now r j other absent e =
    pump_from_ended (r.queue ++ x ∷ []) r.current id now _ j
      (contains-snoc r.queue x id ∙ ground (arith, absent, other))
      (find-append (has_job_id id) r.rows (new_row x p now ∷ []) j e)

finish_ended :
    (current : Option String) (id : String) (ending : Ending) (now : ℕ) (r : Runner) (j : Job)
    → is_current current id ≡ false
    → contains r.queue id ≡ false
    → get_by_id id r ≡ some j
    → get_by_id id (finish_current current ending now r) ≡ some j
unfolding mark_succeeded mark_failed
finish_ended none id ending now r j apart absent e = e
finish_ended (some c) id (resolved m) now r j apart absent e =
    pump_from_ended r.queue none id now _ j absent (settled_ended c id (resolved m) now r j apart e)
finish_ended (some c) id (rejected m) now r j apart absent e =
    pump_from_ended r.queue none id now _ j absent (settled_ended c id (rejected m) now r j apart e)

-- The row that is called off is queued, so it is not that of an ended job.
queued_other :
    (x id : String) (r : Runner) (job j : Job)
    → get_by_id x r ≡ some job
    → get_by_id id r ≡ some j
    → is_queued job.status ≡ true
    → is_active j.status ≡ false
    → (x ==s id) ≡ false
queued_other x id r job j f e q ended = elim (Bool-cases (x ==s id)) [
  | inl h ↦
      let found : get_by_id id r ≡ some job = rw ((eq_iff x id).0 h) at f in
      let same : job ≡ j = cc in
      let quiet : is_queued j.status ≡ false = ended_not_queued j.status ended in
      let waits : is_queued j.status ≡ true = rw same at q in cc
  | inr h ↦ h
]

cancel_ended :
    (found : Option Job) (x id : String) (now : ℕ) (r t : Runner) (j : Job)
    → get_by_id x r ≡ found
    → get_by_id id r ≡ some j
    → is_active j.status ≡ false
    → cancel_row x now r found ≡ cancelled_job t
    → get_by_id id t ≡ some j
unfolding mark_cancelled
cancel_ended none x id now r t j f e ended done = cc
cancel_ended (some job) x id now r t j f e ended done =
    let queued_row : (is_queued job.status ≡ true) × (drop_job x now r ≡ t) =
      cancel_row-cancelled_job job x now r t done in
    let kept : get_by_id id (drop_job x now r) ≡ some j =
      update_apart x id (called_off now) r.rows j (λ k. refl)
        (queued_other x id r job j f e queued_row.0 ended) e in
    sym (ap (get_by_id id) queued_row.1) ∙ kept

progress_ended :
    (x id : String) (p : ℕ) (r : Runner) (j : Job)
    → get_by_id id r ≡ some j
    → get_by_id id (set_progress x p r) ≡ some (update_row (has_job_id x) (at_progress p) j)
unfolding set_progress update_progress
progress_ended x id p r j e =
    rw (find-update_where (has_job_id id) (has_job_id x) (at_progress p) r.rows (λ k. refl), e) refl

pub record IsKept (id : String) (j : Job) (t : Runner) : Type 0 where
  pub row : Job
  pub found : get_by_id id t ≡ some row
  pub status : row.status ≡ j.status
  pub finished_at : row.finished_at ≡ j.finished_at
  pub error_message : row.error_message ≡ j.error_message
  pub metadata : row.metadata ≡ j.metadata

kept : (id : String) (j : Job) (t : Runner) → get_by_id id t ≡ some j → IsKept id j t
kept id j t e = record {
  row = j;
  found = e;
  status = refl;
  finished_at = refl;
  error_message = refl;
  metadata = refl;
}

IsKept-progress :
    (x id : String) (p : ℕ) (j : Job) (t : Runner)
    → get_by_id id t ≡ some (update_row (has_job_id x) (at_progress p) j)
    → IsKept id j t
IsKept-progress x id p j t e = record {
  row = update_row (has_job_id x) (at_progress p) j;
  found = e;
  status = ground arith;
  finished_at = ground arith;
  error_message = ground arith;
  metadata = ground arith;
}

fresh_other :
    (x id : String) (rows : List Job) (j : Job)
    → All (λ k. (k.id ==s x) ≡ false) rows
    → find (has_job_id id) rows ≡ some j
    → (x ==s id) ≡ false
fresh_other x id rows j fresh e =
    let mine : j.id ≡ id = (eq_iff j.id id).0 (find-holds (has_job_id id) rows j e) in
    let other : (j.id ==s x) ≡ false =
      All-find (λ k. (k.id ==s x) ≡ false) (has_job_id id) rows j fresh e in
    ground (arith, eq_iff j.id x, eq_iff x id)

pub Step-IsKept :
    {r t : Runner} (id : String) (j : Job)
    → Step r t
    → IsSerial r
    → get_by_id id r ≡ some j
    → is_active j.status ≡ false
    → IsKept id j t
unfolding cancel finish append_log
Step-IsKept id j (step_enqueue x p now r f) h e ended =
    let apart = ended_apart id r j h.consistent.rows_ok e ended in
    kept id j _ (enqueue_ended x id p now r j (fresh_other x id r.rows j f.no_row e) apart.0 e)
Step-IsKept id j (step_cancel x now r t done) h e ended =
    kept id j t (cancel_ended (get_by_id x r) x id now r t j refl e ended done)
Step-IsKept id j (step_finish ending now r) h e ended =
    let apart = ended_apart id r j h.consistent.rows_ok e ended in
    kept id j _ (finish_ended r.current id ending now r j apart.1 apart.0 e)
Step-IsKept id j (step_progress x p r) h e ended =
    IsKept-progress x id p j _ (progress_ended x id p r j e)
Step-IsKept id j (step_log x level message now r) h e ended = kept id j _ e
