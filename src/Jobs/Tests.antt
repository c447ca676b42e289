-- ===== src/Jobs/Tests.antt =====
-- Runs of the job runner (job-runner.ts) on concrete inputs.
use docker_webmail_gui.Jobs.Cancel.{Cancelling, cancel-Cancelling}
use docker_webmail_gui.Jobs.Progress.{finish_all, first, queued_runs}
use docker_webmail_gui.Jobs.{cancel, Ending}
use docker_webmail_gui.Common.{length, ◌+◌, ◌++◌, ℕ}
use docker_webmail_gui.Jobs.{
  Runner, Job, running, EnqueueParams, resolved, enqueue, finish, create_job_runner, get_by_id,
  pump_from, mark_running, mark_succeeded, mark_failed, recover_interrupted_jobs, list_active,
  is_running, is_queued, is_active, new_row,
}
use docker_webmail_gui.Jobs.Calls.{IsFresh}
use docker_webmail_gui.Jobs.Steps.{step_enqueue, step_finish}
use docker_webmail_gui.Jobs.Ended.{IsKept}
use docker_webmail_gui.Jobs.History.{
  Reach, created, called, create_job_runner-IsIdle, one_running, ended_stays,
}
use docker_webmail_gui.Common.{String, ◌≡◌, refl, true, false, none, some, List, [], ◌∷◌}

abbrev image_pull : EnqueueParams
image_pull = record { job_type = "image.pull"; created_by_label = "admin"; metadata = "{}" }

-- A row that a server left running when it stopped.
abbrev stale_rows : List Job
stale_rows = record (new_row "job0" image_pull 1) { status = running; started_at = some 2 } ∷ []

abbrev run0 : Runner
run0 = create_job_runner stale_rows [] 10

abbrev run1 : Runner
run1 = enqueue "job1" image_pull 11 run0

abbrev run2 : Runner
run2 = enqueue "job2" image_pull 12 run1

fresh1 : IsFresh "job1" run0
unfolding create_job_runner recover_interrupted_jobs list_active mark_failed
fresh1 = record { no_row = (refl, tt); not_waiting = refl; not_current = refl }

fresh2 : IsFresh "job2" run1
unfolding create_job_runner recover_interrupted_jobs list_active mark_failed enqueue pump_from
    mark_running
fresh2 = record { no_row = (refl, (refl, tt)); not_waiting = refl; not_current = refl }

reach1 : Reach stale_rows [] 10 run1
reach1 = called created (step_enqueue "job1" image_pull 11 run0 fresh1)

reach2 : Reach stale_rows [] 10 run2
reach2 = called reach1 (step_enqueue "job2" image_pull 12 run1 fresh2)

abbrev job_at : String → Runner → Job
job_at id r = elim (get_by_id id r) [ none ↦ new_row id image_pull 0 | some j ↦ j ]

found2 : get_by_id "job2" run2 ≡ some (job_at "job2" run2)
unfolding create_job_runner recover_interrupted_jobs list_active mark_failed enqueue pump_from
    mark_running
found2 = refl

waits2 : is_queued (job_at "job2" run2).status ≡ true
unfolding create_job_runner recover_interrupted_jobs list_active mark_failed enqueue pump_from
    mark_running
waits2 = refl

found1 : get_by_id "job1" run2 ≡ some (job_at "job1" run2)
unfolding create_job_runner recover_interrupted_jobs list_active mark_failed enqueue pump_from
    mark_running
found1 = refl

runs1 : is_running (job_at "job1" run2).status ≡ true
unfolding create_job_runner recover_interrupted_jobs list_active mark_failed enqueue pump_from
    mark_running
runs1 = refl

found0 : get_by_id "job0" run2 ≡ some (job_at "job0" run2)
unfolding create_job_runner recover_interrupted_jobs list_active mark_failed enqueue pump_from
    mark_running
found0 = refl

ended0 : is_active (job_at "job0" run2).status ≡ false
unfolding create_job_runner recover_interrupted_jobs list_active mark_failed enqueue pump_from
    mark_running
ended0 = refl

-- The end of the first job starts the second.
takes_over : (finish (resolved "{}") 13 run2).current ≡ some "job2"
unfolding create_job_runner recover_interrupted_jobs list_active mark_failed mark_succeeded enqueue
    finish pump_from mark_running
takes_over = refl

create_job_runner-IsIdle_example : list_active run0 ≡ []
create_job_runner-IsIdle_example = create_job_runner-IsIdle stale_rows [] 10

one_running_example : ◌≡◌ {A = String} "job1" "job1"
one_running_example =
    one_running reach2 "job1" "job1" (job_at "job1" run2) (job_at "job1" run2) found1 runs1 found1
      runs1

abbrev ends : ℕ → Ending × ℕ
ends n = (resolved "{}", 13 + n)

queued_runs_example :
    (before : List String) × (after : List String) × (run2.queue ≡ before ++ "job2" ∷ after)
    × ((finish_all (first (length before + 1) ends) run2).current ≡ some "job2")
    × ((finish_all (first (length before + 1) ends) run2).queue ≡ after)
queued_runs_example = queued_runs reach2 "job2" (job_at "job2" run2) found2 waits2 ends

ended_stays_example : IsKept "job0" (job_at "job0" run2) (finish (resolved "{}") 13 run2)
ended_stays_example =
    ended_stays reach2 (step_finish (resolved "{}") 13 run2) "job0" (job_at "job0" run2) found0
      ended0

cancel-Cancelling_example : Cancelling "job2" 14 (job_at "job2" run2) run2 (cancel "job2" 14 run2)
cancel-Cancelling_example = cancel-Cancelling reach2 "job2" 14 (job_at "job2" run2) found2
