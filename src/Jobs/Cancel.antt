-- ===== src/Jobs/Cancel.antt =====
-- Which jobs can be cancelled, and what that does (job-runner.ts, `cancel`).
use docker_webmail_gui.Jobs.{
  Runner, Job, JobLogEntry, cancelled, get_by_id, cancel, CancelResult, cancelled_job, refused,
  not_queued, drop_job, is_queued, mark_cancelled, called_off, contains, delete, has_job_id,
}
use docker_webmail_gui.Jobs.Serial.{IsSerial, contains-erase_self}
use docker_webmail_gui.Jobs.History.{Reach, reachable-IsSerial}
use docker_webmail_gui.Common.{
  Bool-cases, inl, inr, List, String, ap, arith, eq_iff, false, find-holds, find-update_where, refl,
  some, true, ℕ, ◌==s◌, ◌∙◌, ◌∷◌, ◌≡◌, [],
}

contains-delete_self : (id : String) (xs : List String) → contains (delete id xs) id ≡ false
contains-delete_self id [] = refl
contains-delete_self id (x ∷ xs) = ground (arith, contains-delete_self id xs)

-- A job that is taken out: its row says so, and no list that a later job is taken from has its id.
pub record IsTakenOut (id : String) (now : ℕ) (j : Job) (r t : Runner) : Type 0 where
  pub row : Job
  pub is_row : get_by_id id t ≡ some row
  pub is_cancelled : row.status ≡ cancelled
  pub is_finished : row.finished_at ≡ some now
  pub is_unqueued : contains t.queue id ≡ false
  pub is_forgotten : contains t.pending id ≡ false
  pub is_aside : t.current ≡ r.current
  pub others :
      (other : String) (k : Job)
      → (other ==s id) ≡ false
      → get_by_id other r ≡ some k
      → get_by_id other t ≡ some k

drop_job-IsTakenOut :
    (id : String) (now : ℕ) (j : Job) (r : Runner)
    → IsSerial r
    → get_by_id id r ≡ some j
    → IsTakenOut id now j r (drop_job id now r)
unfolding mark_cancelled
drop_job-IsTakenOut id now j r h e =
    let own : (j.id ==s id) ≡ true = find-holds (has_job_id id) r.rows j e in
    record {
      row = called_off now j;
      is_row =
          find-update_where (has_job_id id) (has_job_id id) (called_off now) r.rows (λ k. refl)
          ∙ rw (e, own) refl;
      is_cancelled = refl;
      is_finished = refl;
      is_unqueued = contains-erase_self id r.queue h.consistent.distinct;
      is_forgotten = contains-delete_self id r.pending;
      is_aside = refl;
      others = λ other k differ f.
          let same : k.id ≡ other =
            (eq_iff k.id other).0 (find-holds (has_job_id other) r.rows k f) in
          let apart : (k.id ==s id) ≡ false = ap (λ i. i ==s id) same ∙ differ in
          find-update_where (has_job_id other) (has_job_id id) (called_off now) r.rows (λ x. refl)
          ∙ rw (f, apart) refl;
    }

-- What cancelling a job answers: the runner without it where its row is queued, a refusal elsewhere.
pub data Cancelling (id : String) (now : ℕ) (j : Job) (r : Runner) : CancelResult → Type 0 where
  takes_out :
      (t : Runner)
      → is_queued j.status ≡ true
      → IsTakenOut id now j r t
      → Cancelling id now j r (cancelled_job t)
  refuses : is_queued j.status ≡ false → Cancelling id now j r (refused (not_queued j.status))

-- On a runner that any calls led to, a job whose row is queued is cancelled: its row is then cancelled
-- and finished at that time, neither the queue nor the pending jobs have its id, and the job that runs and
-- the other rows are left alone. A job whose row is not queued is refused with its status, though it may run.
pub cancel-Cancelling :
    {rows : List Job} {logs : List JobLogEntry} {boot : ℕ} {r : Runner}
    → Reach rows logs boot r
    → (id : String) (now : ℕ) (j : Job) → get_by_id id r ≡ some j
    → Cancelling id now j r (cancel id now r)
unfolding cancel
cancel-Cancelling {r = r} h id now j e = elim (Bool-cases (is_queued j.status)) [
  | inl q ↦
      rw (e, q)
        (takes_out (drop_job id now r) q (drop_job-IsTakenOut id now j r (reachable-IsSerial h) e))
  | inr q ↦ rw (e, q) (refuses q)
]
