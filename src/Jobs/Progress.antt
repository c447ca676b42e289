-- ===== src/Jobs/Progress.antt =====
-- How the queue moves as the running jobs end (job-runner.ts, `pump`).
use docker_webmail_gui.Jobs.{
  Runner, Job, JobLogEntry, Ending, resolved, rejected, get_by_id, is_queued, contains, finish,
  finish_current, pump_from, mark_running, mark_succeeded, mark_failed, has_job_id,
}
use docker_webmail_gui.Jobs.Serial.{IsSerial, IsPending, RowOk}
use docker_webmail_gui.Jobs.Steps.{step_finish}
use docker_webmail_gui.Jobs.History.{Reach, called, reachable-IsSerial}
use docker_webmail_gui.Common.{
  All, All-find, Bool-cases, List, Option, String, ap, arith, eq_iff, find-holds, inl, inr, length,
  none, refl, some, suc, sym, zero, true, ℕ, ◌++◌, ◌+◌, ◌==s◌, ◌∙◌, ◌∷◌, ◌≡◌, ◌≢◌, [],
}

-- The running jobs' ends, one after another.
abbrev pub finish_all : List (Ending × ℕ) → Runner → Runner
finish_all [] r = r
finish_all ((ending, now) ∷ endings) r = finish_all endings (finish ending now r)

-- The first of them.
abbrev pub first : ℕ → (ℕ → Ending × ℕ) → List (Ending × ℕ)
first zero ends = []
first (suc n) ends = ends 0 ∷ first n (λ i. ends (suc i))

length-first : (n : ℕ) (ends : ℕ → Ending × ℕ) → length (first n ends) ≡ n
length-first zero ends = refl
length-first (suc n) ends = let rest = length-first n (λ i. ends (suc i)) in omega arith

pump_from-head :
    (id : String) (rest : List String) (now : ℕ) (r : Runner)
    → contains r.pending id ≡ true
    → ((pump_from (id ∷ rest) none now r).current ≡ some id)
      × ((pump_from (id ∷ rest) none now r).queue ≡ rest)
unfolding pump_from mark_running
pump_from-head id rest now r h = rw h (refl, refl)

finish_current-head :
    (current : Option String) (ending : Ending) (id : String) (rest : List String) (now : ℕ)
    (r : Runner)
    → current ≢ none
    → r.queue ≡ id ∷ rest
    → contains r.pending id ≡ true
    → ((finish_current current ending now r).current ≡ some id)
      × ((finish_current current ending now r).queue ≡ rest)
unfolding mark_succeeded mark_failed
finish_current-head none ending id rest now r runs q h = absurd (runs refl)
finish_current-head (some c) (resolved metadata) id rest now r runs q h =
    rw q (pump_from-head id rest now _ h)
finish_current-head (some c) (rejected message) id rest now r runs q h =
    rw q (pump_from-head id rest now _ h)

-- The end of the running job starts the queue's head.
finish-head :
    (ending : Ending) (id : String) (rest : List String) (now : ℕ) (r : Runner)
    → IsSerial r
    → r.queue ≡ id ∷ rest
    → ((finish ending now r).current ≡ some id) × ((finish ending now r).queue ≡ rest)
unfolding finish
finish-head ending id rest now r h q =
    let pending : All (IsPending r.pending) (id ∷ rest) = rw q at h.consistent.all_pending in
    finish_current-head r.current ending id rest now r
      (λ idle. let clash : [] ≡ id ∷ rest = sym (h.busy idle) ∙ q in cc) q pending.0

finish_all-reaches :
    {rows : List Job} {logs : List JobLogEntry} {boot : ℕ} {r : Runner}
    → Reach rows logs boot r
    → (id : String) (before after : List String) (endings : List (Ending × ℕ))
    → r.queue ≡ before ++ id ∷ after
    → length endings ≡ length before + 1
    → ((finish_all endings r).current ≡ some id) × ((finish_all endings r).queue ≡ after)
finish_all-reaches {r = r} h id [] after ((e, now) ∷ []) q n =
    finish-head e id after now r (reachable-IsSerial h) q
finish_all-reaches {r = r} h id (x ∷ before) after ((e, now) ∷ endings) q n =
    let next = finish-head e x (before ++ id ∷ after) now r (reachable-IsSerial h) q in
    finish_all-reaches {r = finish e now r} (called h (step_finish e now r)) id before after endings
      next.1 (omega arith)
finish_all-reaches h id [] after [] q n = absurd (omega arith)
finish_all-reaches h id [] after ((e, now) ∷ (more ∷ endings)) q n = absurd (omega arith)
finish_all-reaches h id (x ∷ before) after [] q n = absurd (omega arith)

split_at :
    (id : String) (xs : List String)
    → contains xs id ≡ true
    → (before : List String) × (after : List String) × (xs ≡ before ++ id ∷ after)
split_at id [] h = cc
split_at id (x ∷ xs) h = elim (Bool-cases (x ==s id)) [
  | inl e ↦ ([], xs, ap (λ y. y ∷ xs) ((eq_iff x id).0 e))
  | inr e ↦
      let more : contains xs id ≡ true = rw e at h in
      let rest = split_at id xs more in (x ∷ rest.0, rest.1, ap (◌∷◌ x) rest.2)
]

-- A job whose row is queued, after any calls, has a place in the queue; and if the running jobs then end, one
-- after another and however and whenever each ends, with no other call in between, it is the current one as
-- soon as one more has ended than stand before it, and those behind it are still queued in their order.
pub queued_runs :
    {rows : List Job} {logs : List JobLogEntry} {boot : ℕ} {r : Runner}
    → Reach rows logs boot r
    → (id : String) (j : Job) → get_by_id id r ≡ some j
    → is_queued j.status ≡ true
    → (ends : ℕ → Ending × ℕ)
    → (before : List String) × (after : List String) × (r.queue ≡ before ++ id ∷ after)
      × ((finish_all (first (length before + 1) ends) r).current ≡ some id)
      × ((finish_all (first (length before + 1) ends) r).queue ≡ after)
queued_runs {r = r} h id j e q ends =
    let serial : IsSerial r = reachable-IsSerial h in
    let same : j.id ≡ id = (eq_iff j.id id).0 (find-holds (has_job_id id) r.rows j e) in
    let ok : RowOk r.queue r.current j =
      All-find (RowOk r.queue r.current) (has_job_id id) r.rows j serial.consistent.rows_ok e in
    let waits : contains r.queue id ≡ true = rw same at (sym ok.0 ∙ q) in
    let place = split_at id r.queue waits in
    let n = length place.0 + 1 in
    let reached =
      finish_all-reaches h id place.0 place.1 (first n ends) place.2 (length-first n ends) in
    (place.0, place.1, place.2, reached.0, reached.1)
