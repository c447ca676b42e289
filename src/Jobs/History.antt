-- ===== src/Jobs/History.antt =====
-- Histories of the job runner (job-runner.ts): what holds after any sequence of calls.
use text.Mathlib.TextPositions.{eq_refl}
use docker_webmail_gui.Jobs.{
  idle_runner, get_by_id, Runner, Job, create_job_runner, is_running, is_active, has_job_id,
  list_active, recover_interrupted_jobs, recover_ids, mark_failed, interrupted, done_badly,
  JobLogEntry,
}
use docker_webmail_gui.Jobs.Steps.{Step, Step-IsSerial}
use docker_webmail_gui.Jobs.Ended.{IsKept, Step-IsKept}
use mathlib.Core.Path.{subst}
use docker_webmail_gui.Jobs.Serial.{IsSerial, RowOk, is_current}
use docker_webmail_gui.Common.{
  ℕ, String, ◌≡◌, refl, sym, ◌∙◌, Bool, true, false, not, ◌&&◌, Option, none, some, List, [], ◌∷◌,
  arith, ◌==s◌, eq_iff, if◌then◌else◌, any, filter, All, update_row, find-holds, All-find,
  All-update_each, All-map_each,
}

-- Calls in sequence, from the runner that is created over stored rows.
pub data Reach (rows : List Job) (logs : List JobLogEntry) (boot : ℕ) : Runner → Type 0 where
  created : Reach rows logs boot (create_job_runner rows logs boot)
  called : {r t : Runner} → Reach rows logs boot r → Step r t → Reach rows logs boot t

-- A row that is active is one of those still to be failed.
abbrev Listed : List Job → Job → Type 0
Listed js j = (is_active j.status && not (any (λ k. k.id ==s j.id) js)) ≡ false

abbrev IsIdle : Job → Type 0
IsIdle j = is_active j.status ≡ false

Listed-more : (k : Job) (js : List Job) (j : Job) → Listed js j → Listed (k ∷ js) j
Listed-more k js j h = ground arith

Listed-row :
    (a : Bool) (js : List Job) (j : Job) (rows : List Job)
    → is_active j.status ≡ a
    → All (Listed js) rows
    → All (Listed (if a then j ∷ js else js)) (j ∷ rows)
Listed-row true js j rows a h = (
  ground (arith, eq_refl j.id),
  All-map_each (Listed js) (Listed (j ∷ js)) rows (Listed-more j js) h,
)
Listed-row false js j rows a h = (ground arith, h)

filter_if :
    (j : Job) (rows : List Job)
    → filter (λ k. is_active k.status) (j ∷ rows) ≡ (
        if is_active j.status
        then j ∷ filter (λ k. is_active k.status) rows
        else filter (λ k. is_active k.status) rows)
filter_if j rows = ground arith

All-Listed : (rows : List Job) → All (Listed (filter (λ j. is_active j.status) rows)) rows
All-Listed [] = tt
All-Listed (j ∷ rows) =
    subst (λ js. All (Listed js) (j ∷ rows)) (sym (filter_if j rows))
      (Listed-row (is_active j.status) (filter (λ k. is_active k.status) rows) j rows refl
        (All-Listed rows))

row_failed :
    (k : Job) (js : List Job) (now : ℕ) (j : Job)
    → Listed (k ∷ js) j
    → Listed js (update_row (has_job_id k.id) (done_badly now interrupted) j)
row_failed k js now j h = ground (arith, eq_iff j.id k.id, eq_iff k.id j.id)

recover_ids-IsIdle :
    (js : List Job) (now : ℕ) (r : Runner)
    → All (Listed js) r.rows
    → All IsIdle (recover_ids js now r).rows
unfolding mark_failed
recover_ids-IsIdle [] now r h = All-map_each (Listed []) IsIdle r.rows (λ j l. ground arith) h
recover_ids-IsIdle (k ∷ js) now r h =
    recover_ids-IsIdle js now (mark_failed k.id interrupted now r) (
      All-update_each (Listed (k ∷ js)) (Listed js) (has_job_id k.id) (done_badly now interrupted)
        r.rows (row_failed k js now) h)

recover_ids_queue :
    (js : List Job) (now : ℕ) (r : Runner)
    → ((recover_ids js now r).queue ≡ r.queue) × ((recover_ids js now r).current ≡ r.current)
unfolding mark_failed
recover_ids_queue [] now r = (refl, refl)
recover_ids_queue (k ∷ js) now r = recover_ids_queue js now (mark_failed k.id interrupted now r)

filter-IsIdle : (js : List Job) → All IsIdle js → filter (λ j. is_active j.status) js ≡ []
filter-IsIdle [] h = refl
filter-IsIdle (j ∷ js) h = filter_if j js ∙ rw h.0 (filter-IsIdle js h.1)

-- Creation over any stored rows, those of a server that stopped in the middle of a job included,
-- leaves no row queued or running.
pub create_job_runner-IsIdle :
    (rows : List Job) (logs : List JobLogEntry) (now : ℕ)
    → list_active (create_job_runner rows logs now) ≡ []
unfolding create_job_runner recover_interrupted_jobs list_active
create_job_runner-IsIdle rows logs now = filter-IsIdle _ (
    recover_ids-IsIdle (filter (λ j. is_active j.status) rows) now (idle_runner rows logs)
      (All-Listed rows))

idle-IsSerial : (r : Runner) → All IsIdle r.rows → r.queue ≡ [] → r.current ≡ none → IsSerial r
idle-IsSerial r h q c = record {
  consistent = record {
    rows_ok = rw (q, c) (All-map_each IsIdle (RowOk [] none) r.rows (λ j i. ground arith) h);
    distinct = rw q tt;
    all_pending = rw q tt;
    apart = rw q tt;
  };
  busy = λ e. q;
}

created-IsSerial :
    (rows : List Job) (logs : List JobLogEntry) (now : ℕ)
    → IsSerial (create_job_runner rows logs now)
unfolding create_job_runner recover_interrupted_jobs list_active
created-IsSerial rows logs now =
    let js : List Job = filter (λ j. is_active j.status) rows in
    let kept = recover_ids_queue js now (idle_runner rows logs) in
    idle-IsSerial (recover_ids js now (idle_runner rows logs))
      (recover_ids-IsIdle js now (idle_runner rows logs) (All-Listed rows)) kept.0 kept.1

pub reachable-IsSerial :
    {rows : List Job} {logs : List JobLogEntry} {boot : ℕ} {r : Runner}
    → Reach rows logs boot r
    → IsSerial r
reachable-IsSerial created = created-IsSerial _ _ _
reachable-IsSerial (called h s) = Step-IsSerial s (reachable-IsSerial h)

-- A row that runs is the current one.
running_current :
    (id : String) (r : Runner) (j : Job)
    → get_by_id id r ≡ some j
    → is_running j.status ≡ true
    → IsSerial r
    → is_current r.current id ≡ true
running_current id r j e run h =
    let same : j.id ≡ id = (eq_iff j.id id).0 (find-holds (has_job_id id) r.rows j e) in
    let ok : RowOk r.queue r.current j =
      All-find (RowOk r.queue r.current) (has_job_id id) r.rows j h.consistent.rows_ok e in
    rw same at (sym ok.1 ∙ run)

current_same :
    (current : Option String) (a b : String)
    → is_current current a ≡ true
    → is_current current b ≡ true
    → a ≡ b
current_same none a b h k = cc
current_same (some c) a b h k = sym ((eq_iff c a).0 h) ∙ (eq_iff c b).0 k

-- One job at a time: after any calls on a runner created over any stored rows, two ids whose rows are
-- both running are the same id.
pub one_running :
    {rows : List Job} {logs : List JobLogEntry} {boot : ℕ} {r : Runner}
    → Reach rows logs boot r
    → (a b : String) (j k : Job) → get_by_id a r ≡ some j
    → is_running j.status ≡ true
    → get_by_id b r ≡ some k
    → is_running k.status ≡ true
    → a ≡ b
one_running {r = r} h a b j k ea ja eb kb =
    current_same r.current a b (running_current a r j ea ja (reachable-IsSerial h))
      (running_current b r k eb kb (reachable-IsSerial h))

-- A job that ended stays as it ended: on a runner that any calls led to, no further call changes the
-- status, the time of the end, the error or the metadata of a row that is neither queued nor running.
pub ended_stays :
    {rows : List Job} {logs : List JobLogEntry} {boot : ℕ} {r t : Runner}
    → Reach rows logs boot r
    → Step r t
    → (id : String) (j : Job) → get_by_id id r ≡ some j
    → is_active j.status ≡ false
    → IsKept id j t
ended_stays h s id j e ended = Step-IsKept id j s (reachable-IsSerial h) e ended
