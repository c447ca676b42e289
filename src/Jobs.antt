-- ===== src/Jobs.antt =====
-- The in-process job runner: apps/server/src/platform/jobs/ (job-runner.ts, jobs.repository.ts). The
-- event loop runs one of the calls below at a time; a job's own work is the environment, which logs,
-- reports progress and ends. A job's id, drawn at random, and the time are arguments. Subscribers are
-- left out: `published` holds every event that is offered to them.
pub mod Serial
pub mod Calls
pub mod Steps
pub mod Cancel
pub mod Ended
pub mod History
pub mod Progress
mod Tests
use docker_webmail_gui.Common.{
  ℕ, zero, suc, ◌+◌, ◌-◌, ◌*◌, ◌/◌, ◌%◌, ◌^◌, ◌≤◌, ◌<◌, String, ◌≡◌, refl, sym, ap, ◌∙◌, ◌≢◌, ◌↔◌,
  ◌⊎◌, inl, inr, Bool, true, false, not, ◌&&◌, ◌||◌, Option, none, some, List, [], ◌∷◌, ◌++◌, map,
  append-nil, append_assoc, arith, ◌==s◌, eq_iff, ltb, leb, ◌==◌, if◌then◌else◌, ltb→lt,
  ltb-false→le, lt→ltb, le→ltb-false, leb→le, ==_iff, Bool-cases, Option-cases, length, take, drop,
  get_or, concat, length-append, take-append-drop, length-drop, take-append, drop-append,
  get_or-append, take-length, drop-length, any, all, filter, find, All, All-append, update_row,
  update_where, count_where, find-update_where, find-append, find-holds, All-update_where, All-find,
  All-filter, if_same,
}

pub data JobStatus : Type 0 where
  queued running succeeded failed cancelled : JobStatus

pub record Job : Type 0 where
  pub id : String
  pub job_type : String
  pub status : JobStatus
  pub progress : ℕ
  pub created_by_label : String
  pub created_at : ℕ
  pub started_at : Option ℕ
  pub finished_at : Option ℕ
  pub error_message : Option String
  pub metadata : String

pub record JobLogEntry : Type 0 where
  pub job_id : String
  pub logged_at : ℕ
  pub level : String
  pub message : String

pub data JobStreamEvent : Type 0 where
  snapshot : Option Job → JobStreamEvent
  line : JobLogEntry → JobStreamEvent

pub record EnqueueParams : Type 0 where
  pub job_type : String
  pub created_by_label : String
  pub metadata : String

-- `pending` is the map's keys: a closure is run, never looked at.
pub record Runner : Type 0 where
  pub rows : List Job
  pub logs : List JobLogEntry
  pub queue : List String
  pub pending : List String
  pub current : Option String
  pub published : List (String × JobStreamEvent)

abbrev pub is_queued : JobStatus → Bool
is_queued queued = true
is_queued _ = false

abbrev pub is_running : JobStatus → Bool
is_running running = true
is_running _ = false

-- `JOB_ACTIVE_STATUSES`
abbrev pub is_active : JobStatus → Bool
is_active s = is_queued s || is_running s

abbrev pub has_job_id : String → Job → Bool
has_job_id id j = j.id ==s id

abbrev pub contains : List String → String → Bool
contains xs x = any (λ y. y ==s x) xs

abbrev pub get_by_id : String → Runner → Option Job
get_by_id id r = find (has_job_id id) r.rows

unfoldable pub list_active : Runner → List Job
list_active r = filter (λ j. is_active j.status) r.rows

abbrev new_row : String → EnqueueParams → ℕ → Job
new_row id p now = record {
  id = id;
  job_type = p.job_type;
  status = queued;
  progress = 0;
  created_by_label = p.created_by_label;
  created_at = now;
  started_at = none;
  finished_at = none;
  error_message = none;
  metadata = p.metadata;
}

abbrev insert : String → EnqueueParams → ℕ → Runner → Runner
insert id p now r = record r { rows = r.rows ++ new_row id p now ∷ [] }

abbrev pub update_job : String → (Job → Job) → Runner → Runner
update_job id f r = record r { rows = update_where (has_job_id id) f r.rows }

abbrev pub started : ℕ → Job → Job
started now j = record j { status = running; started_at = some now }

abbrev pub done_well : ℕ → String → Job → Job
done_well now metadata j = record j {
  status = succeeded;
  progress = 100;
  finished_at = some now;
  metadata = metadata;
}

abbrev pub done_badly : ℕ → String → Job → Job
done_badly now message j = record j {
  status = failed;
  finished_at = some now;
  error_message = some message;
}

abbrev pub called_off : ℕ → Job → Job
called_off now j = record j {
  status = cancelled;
  finished_at = some now;
  error_message = some "Cancelled.";
}

unfoldable pub mark_running : String → ℕ → Runner → Runner
mark_running id now = update_job id (started now)

unfoldable pub mark_succeeded : String → String → ℕ → Runner → Runner
mark_succeeded id metadata now = update_job id (done_well now metadata)

unfoldable pub mark_failed : String → String → ℕ → Runner → Runner
mark_failed id message now = update_job id (done_badly now message)

unfoldable pub mark_cancelled : String → ℕ → Runner → Runner
mark_cancelled id now = update_job id (called_off now)

-- `Math.max(0, Math.min(100, Math.round(progress)))`, of a report that is a whole number.
abbrev pub clamped : ℕ → ℕ
clamped p = if ltb 100 p then 100 else p

abbrev pub at_progress : ℕ → Job → Job
at_progress p j = record j { progress = clamped p }

unfoldable pub update_progress : String → ℕ → Runner → Runner
update_progress id p = update_job id (at_progress p)

abbrev pub publish : String → JobStreamEvent → Runner → Runner
publish id event r = record r { published = r.published ++ (id, event) ∷ [] }

abbrev pub publish_snapshot : String → Runner → Runner
publish_snapshot id r = publish id (snapshot (get_by_id id r)) r

-- `Map.delete` and `Array.splice` of the first occurrence.
abbrev pub delete : String → List String → List String
delete id [] = []
delete id (x ∷ xs) = if x ==s id then delete id xs else x ∷ delete id xs

abbrev pub erase : String → List String → List String
erase id [] = []
erase id (x ∷ xs) = if x ==s id then xs else x ∷ erase id xs

abbrev start : String → ℕ → Runner → Runner
start id now r =
    publish_snapshot id
      (mark_running id now (record r { current = some id; pending = delete id r.pending }))

-- The queue's head is taken off; an id that is no longer pending is passed over.
unfoldable pub pump_from : List String → Option String → ℕ → Runner → Runner
pump_from queue (some id) now r = r
pump_from [] none now r = r
pump_from (id ∷ rest) none now r =
    if contains r.pending id
    then start id now (record r { queue = rest })
    else record r { queue = rest }

abbrev pub pump : ℕ → Runner → Runner
pump now r = pump_from r.queue r.current now r

unfoldable pub enqueue : String → EnqueueParams → ℕ → Runner → Runner
enqueue id p now r =
    let added = insert id p now r in
    pump now (
      publish_snapshot id
        (record added { pending = id ∷ added.pending; queue = added.queue ++ id ∷ [] }))

pub data CancelError : Type 0 where
  unknown : CancelError
  not_queued : JobStatus → CancelError

pub data CancelResult : Type 0 where
  cancelled_job : Runner → CancelResult
  refused : CancelError → CancelResult

abbrev drop_job : String → ℕ → Runner → Runner
drop_job id now r =
    publish_snapshot id
      (mark_cancelled id now (record r { queue = erase id r.queue; pending = delete id r.pending }))

abbrev cancel_row : String → ℕ → Runner → Option Job → CancelResult
cancel_row id now r none = refused unknown
cancel_row id now r (some job) =
    if is_queued job.status
    then cancelled_job (drop_job id now r)
    else refused (not_queued job.status)

unfoldable pub cancel : String → ℕ → Runner → CancelResult
cancel id now r = cancel_row id now r (get_by_id id r)

-- `ctx.log` and `ctx.setProgress`
abbrev log_entry : String → String → String → ℕ → JobLogEntry
log_entry id level message now = record {
  job_id = id;
  logged_at = now;
  level = level;
  message = message;
}

unfoldable pub append_log : String → String → String → ℕ → Runner → Runner
append_log id level message now r =
    publish id (line (log_entry id level message now))
      (record r { logs = r.logs ++ log_entry id level message now ∷ [] })

unfoldable pub set_progress : String → ℕ → Runner → Runner
set_progress id p r = publish_snapshot id (update_progress id p r)

-- How a job's work ends: with its final metadata, or by an exception.
pub data Ending : Type 0 where
  resolved : String → Ending
  rejected : String → Ending

abbrev settle : String → Ending → ℕ → Runner → Runner
settle id (resolved metadata) now r = mark_succeeded id metadata now r
settle id (rejected message) now r = mark_failed id message now r

-- The rest of `pump` once the running job's promise settles.
abbrev finish_current : Option String → Ending → ℕ → Runner → Runner
finish_current none ending now r = r
finish_current (some id) ending now r =
    pump now (record (publish_snapshot id (settle id ending now r)) { current = none })

unfoldable pub finish : Ending → ℕ → Runner → Runner
finish ending now r = finish_current r.current ending now r

abbrev pub interrupted : String
interrupted = "Interrupted by a server restart before this job could finish."

-- `recoverInterruptedJobs`: each stale row is failed by its id.
abbrev recover_ids : List Job → ℕ → Runner → Runner
recover_ids [] now r = r
recover_ids (j ∷ js) now r = recover_ids js now (mark_failed j.id interrupted now r)

unfoldable pub recover_interrupted_jobs : ℕ → Runner → Runner
recover_interrupted_jobs now r = recover_ids (list_active r) now r

-- `createJobRunner`: recovery over the stored rows, and a runner with nothing queued.
abbrev idle_runner : List Job → List JobLogEntry → Runner
idle_runner rows logs = record {
  rows = rows;
  logs = logs;
  queue = [];
  pending = [];
  current = none;
  published = [];
}

unfoldable pub create_job_runner : List Job → List JobLogEntry → ℕ → Runner
create_job_runner rows logs now = recover_interrupted_jobs now (idle_runner rows logs)
