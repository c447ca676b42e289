-- ===== src/Jobs/Steps.antt =====
-- The calls of the job runner (job-runner.ts) as one step relation.
use docker_webmail_gui.Jobs.{
  Runner, EnqueueParams, Ending, cancelled_job, cancel, enqueue, finish, set_progress, append_log,
}
use docker_webmail_gui.Jobs.Serial.{IsSerial}
use docker_webmail_gui.Jobs.Calls.{
  IsFresh, enqueue-IsSerial, cancel-IsSerial, finish-IsSerial, set_progress-IsSerial,
  append_log-IsSerial,
}
use docker_webmail_gui.Common.{ℕ, String, ◌≡◌}

-- One call of the runner.
pub data Step : Runner → Runner → Type 0 where
  step_enqueue :
      (id : String) (p : EnqueueParams) (now : ℕ) (r : Runner)
      → IsFresh id r
      → Step r (enqueue id p now r)
  step_cancel :
      (id : String) (now : ℕ) (r t : Runner) → cancel id now r ≡ cancelled_job t → Step r t
  step_finish : (ending : Ending) (now : ℕ) (r : Runner) → Step r (finish ending now r)
  step_progress : (id : String) (p : ℕ) (r : Runner) → Step r (set_progress id p r)
  step_log :
      (id level message : String) (now : ℕ) (r : Runner)
      → Step r (append_log id level message now r)

pub Step-IsSerial : {r t : Runner} → Step r t → IsSerial r → IsSerial t
Step-IsSerial (step_enqueue id p now r f) h = enqueue-IsSerial id p now r f h
Step-IsSerial (step_cancel id now r t e) h = cancel-IsSerial id now r t e h
Step-IsSerial (step_finish ending now r) h = finish-IsSerial ending now r h
Step-IsSerial (step_progress id p r) h = set_progress-IsSerial id p r h
Step-IsSerial (step_log id level message now r) h = append_log-IsSerial id level message now r h
