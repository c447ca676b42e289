-- ===== src/Broker/Updater/Ends.antt =====
-- A self-update ends (apps/broker/src/self-update/updater.ts).
use Prim.Native.String
use docker_webmail_gui.Broker.Updater.{
  UpdaterTarget, UpdaterOutcome, success, aborted, void, stop_and_remove, create_and_start,
  wait_for_healthy, recreate_and_wait_healthy, write, abort, report, Captured, capture, put_back,
  roll_back_server, roll_back_both, conclude, after_broker, swap_broker, after_server, swap_server,
  replace_both, located, locate, resolve_id_by_name, resolve_from_version, inspect_old_image_config,
  version_of, id_of, server_spec, broker_spec, pull_both, pulled, run_self_update, not_found,
  server_unhealthy, broker_unhealthy,
}
use docker_webmail_gui.Broker.Updater.Swap.{RawContainerRecreateSpec, has_text}
use docker_webmail_gui.Broker.Updater.ImageRefs.{version_from_reference}
use docker_webmail_gui.Broker.Updater.Calls.{
  Verdict, rolled_back, succeeded, failed, FailedAt, pre_flight, server_health, broker_health,
  in_progress, done, Call, pull_image, inspect_image_config, list_containers, list_images,
  inspect_for_recreate, stop_container, remove_container, start_container, create_container,
  write_result_file, Docker, Outcome, ok, throw, stuck, M, continue_with, ◌>>=◌, ◌>>◌, pure, call,
  attempt, caught,
}
use docker_webmail_gui.Broker.Updater.Effects.{recreated}
use docker_webmail_gui.Broker.Updater.Planned.{captured}
use docker_webmail_gui.Broker.Updater.Health.{Ticks, is_stuck, call_ind, wait_for_healthy_settled}
use docker_webmail_gui.Common.{
  List, Option, String, false, find, if_ind, none, refl, some, suc, ℕ, ◌==s◌, ◌≡◌, ◌≤◌,
}

-- A part that never runs out of fuel.
abbrev Settles : {A : Type 0} → M A → Type 0
Settles m = (log : List Call) → is_stuck (m log).0 ≡ false

call-Settles :
    {A : Type 0} (d : Docker) (c : Call) (answer : List Call → A) → Settles (call d c answer)
call-Settles d c answer log = call_ind d c answer log (λ r. is_stuck r.0 ≡ false) (λ e. refl) refl

pure-Settles : {A : Type 0} (a : A) → Settles (pure a)
pure-Settles a log = refl

continue_settled :
    {A B : Type 0} (f : A → M B) (r : Outcome A × List Call)
    → is_stuck r.0 ≡ false
    → ((a : A) → Settles (f a))
    → is_stuck (continue_with f r).0 ≡ false
continue_settled f (ok a, log) e h = h a log
continue_settled f (throw x, log) e h = refl
continue_settled f (stuck, log) e h = e

bind-Settles :
    {A B : Type 0} (m : M A) (f : A → M B)
    → Settles m
    → ((a : A) → Settles (f a))
    → Settles (m >>= f)
bind-Settles m f h k log = continue_settled f (m log) (h log) k

caught_settles :
    {A : Type 0} (r : Outcome A × List Call) → is_stuck r.0 ≡ false → is_stuck (caught r).0 ≡ false
caught_settles (ok a, log) e = refl
caught_settles (throw x, log) e = refl
caught_settles (stuck, log) e = e

attempt-Settles : {A : Type 0} (m : M A) → Settles m → Settles (attempt m)
unfolding attempt
attempt-Settles m h log = caught_settles (m log) (h log)

stop_and_remove-Settles : (d : Docker) (id : String) → Settles (stop_and_remove d id)
unfolding stop_and_remove
stop_and_remove-Settles d id =
    bind-Settles (attempt (call d (stop_container id) void))
      (λ _. call d (remove_container id) void)
      (attempt-Settles (call d (stop_container id) void) (call-Settles d (stop_container id) void))
      (λ _. call-Settles d (remove_container id) void)

create_and_start-Settles :
    (d : Docker) (spec : RawContainerRecreateSpec) → Settles (create_and_start d spec)
unfolding create_and_start
create_and_start-Settles d spec =
    bind-Settles (call d (create_container spec) d.created_id)
      (λ id. call d (start_container id) void >> pure id)
      (call-Settles d (create_container spec) d.created_id)
      (λ id.
        bind-Settles (call d (start_container id) void) (λ _. pure id)
          (call-Settles d (start_container id) void) (λ _. pure-Settles id))

put_back-Settles :
    (d : Docker) (id : String) (plan : RawContainerRecreateSpec) → Settles (put_back d id plan)
unfolding put_back
put_back-Settles d id plan =
    bind-Settles (stop_and_remove d id) (λ _. create_and_start d plan >>= λ _. pure tt)
      (stop_and_remove-Settles d id)
      (λ _.
        bind-Settles (create_and_start d plan) (λ _. pure tt) (create_and_start-Settles d plan)
          (λ _. pure-Settles tt))

ending-Settles :
    (d : Docker) (verdict : Verdict) (from : Option String) (to : String) (at : Option FailedAt)
    (reason : Option String) (outcome : UpdaterOutcome)
    → Settles (write d (done verdict from to at reason) >> pure outcome)
ending-Settles d verdict from to at reason outcome =
    bind-Settles (write d (done verdict from to at reason)) (λ _. pure outcome)
      (call-Settles d (write_result_file (done verdict from to at reason)) void)
      (λ _. pure-Settles outcome)

abort-Settles :
    (d : Docker) (target : UpdaterTarget) (reason : String) → Settles (abort d target reason)
abort-Settles d target reason =
    ending-Settles d failed none (version_from_reference target.server_image_ref) (some pre_flight)
      (some reason) (aborted reason)

report-Settles :
    (d : Docker) (target : UpdaterTarget) (c : Captured) (at : FailedAt) (reason : String)
    → Settles (report d target c at reason)
report-Settles d target c at reason =
    ending-Settles d rolled_back c.from_version (version_from_reference target.server_image_ref)
      (some at) (some reason) (UpdaterOutcome.undone reason)

roll_back_server-Settles :
    (d : Docker) (target : UpdaterTarget) (c : Captured) (new_id : String)
    → Settles (roll_back_server d target c new_id)
unfolding roll_back_server
roll_back_server-Settles d target c new_id =
    bind-Settles (put_back d new_id c.server_plan)
      (λ _. report d target c server_health server_unhealthy)
      (put_back-Settles d new_id c.server_plan)
      (λ _. report-Settles d target c server_health server_unhealthy)

roll_back_both-Settles :
    (d : Docker) (target : UpdaterTarget) (c : Captured) (server_new broker_new : String)
    → Settles (roll_back_both d target c server_new broker_new)
unfolding roll_back_both
roll_back_both-Settles d target c server_new broker_new =
    bind-Settles (put_back d server_new c.server_plan)
      (λ _. put_back d broker_new c.broker_plan >>= λ _.
        report d target c broker_health broker_unhealthy)
      (put_back-Settles d server_new c.server_plan)
      (λ _.
        bind-Settles (put_back d broker_new c.broker_plan)
          (λ _. report d target c broker_health broker_unhealthy)
          (put_back-Settles d broker_new c.broker_plan)
          (λ _. report-Settles d target c broker_health broker_unhealthy))

conclude-Settles :
    (d : Docker) (target : UpdaterTarget) (c : Captured) → Settles (conclude d target c)
unfolding conclude
conclude-Settles d target c =
    ending-Settles d succeeded c.from_version (version_from_reference target.server_image_ref) none
      none success

resolve_id_by_name-Settles : (d : Docker) (name : String) → Settles (resolve_id_by_name d name)
unfolding resolve_id_by_name
resolve_id_by_name-Settles d name =
    bind-Settles (call d list_containers d.containers)
      (λ containers. pure (id_of (find (λ container. has_text container.names name) containers)))
      (call-Settles d list_containers d.containers) (λ containers log. refl)

resolve_from_version-Settles :
    (d : Docker) (image : String) → Settles (resolve_from_version d image)
unfolding resolve_from_version
resolve_from_version-Settles d image =
    bind-Settles (call d list_images d.images)
      (λ images. pure (version_of (find (λ i. i.id ==s image) images)))
      (call-Settles d list_images d.images) (λ images log. refl)

inspect_old_image_config-Settles :
    (d : Docker) (image : String) → Settles (inspect_old_image_config d image)
unfolding inspect_old_image_config
inspect_old_image_config-Settles d image =
    attempt-Settles (call d (inspect_image_config image) d.image_config)
      (call-Settles d (inspect_image_config image) d.image_config)

capture-Settles :
    (d : Docker) (server_id broker_id : String) → Settles (capture d server_id broker_id)
unfolding capture
capture-Settles d server_id broker_id =
    bind-Settles (call d (inspect_for_recreate server_id) d.spec)
      (λ s. call d (inspect_for_recreate broker_id) d.spec >>= λ b.
        inspect_old_image_config d s.image >>= λ so. inspect_old_image_config d b.image >>= λ bo.
        resolve_from_version d s.image >>= λ v. pure (captured s b so bo v))
      (call-Settles d (inspect_for_recreate server_id) d.spec)
      (λ s.
        bind-Settles (call d (inspect_for_recreate broker_id) d.spec)
          (λ b. inspect_old_image_config d s.image >>= λ so.
            inspect_old_image_config d b.image >>= λ bo.
            resolve_from_version d s.image >>= λ v. pure (captured s b so bo v))
          (call-Settles d (inspect_for_recreate broker_id) d.spec)
          (λ b.
            bind-Settles (inspect_old_image_config d s.image)
              (λ so. inspect_old_image_config d b.image >>= λ bo.
                resolve_from_version d s.image >>= λ v. pure (captured s b so bo v))
              (inspect_old_image_config-Settles d s.image)
              (λ so.
                bind-Settles (inspect_old_image_config d b.image)
                  (λ bo. resolve_from_version d s.image >>= λ v. pure (captured s b so bo v))
                  (inspect_old_image_config-Settles d b.image)
                  (λ bo.
                    bind-Settles (resolve_from_version d s.image) (λ v. pure (captured s b so bo v))
                      (resolve_from_version-Settles d s.image) (λ v log. refl)))))

pull_both-Settles : (d : Docker) (target : UpdaterTarget) → Settles (pull_both d target)
unfolding pull_both
pull_both-Settles d target =
    bind-Settles (call d (pull_image target.server_image_ref) void)
      (λ _. call d (pull_image target.broker_image_ref) void)
      (call-Settles d (pull_image target.server_image_ref) void)
      (λ _. call-Settles d (pull_image target.broker_image_ref) void)

module _ (d : Docker) (ticks : Ticks d) (fuel : ℕ) (enough : 45 ≤ fuel) where
  recreate_and_wait_healthy-Settles :
      (id : String) (spec : RawContainerRecreateSpec)
      → Settles (recreate_and_wait_healthy d (suc fuel) id spec)
  unfolding recreate_and_wait_healthy
  recreate_and_wait_healthy-Settles id spec =
      bind-Settles (stop_and_remove d id)
        (λ _. create_and_start d spec >>= λ new_id.
          wait_for_healthy d (suc fuel) new_id >>= λ healthy. pure (recreated new_id healthy))
        (stop_and_remove-Settles d id)
        (λ _.
          bind-Settles (create_and_start d spec)
            (λ new_id.
              wait_for_healthy d (suc fuel) new_id >>= λ healthy. pure (recreated new_id healthy))
            (create_and_start-Settles d spec)
            (λ new_id.
              bind-Settles (wait_for_healthy d (suc fuel) new_id)
                (λ healthy. pure (recreated new_id healthy))
                (λ log. wait_for_healthy_settled d fuel new_id log ticks enough)
                (λ healthy log. refl)))

  swap_broker-Settles :
      (target : UpdaterTarget) (c : Captured) (broker new_id : String)
      → Settles (swap_broker d (suc fuel) target c broker new_id)
  unfolding swap_broker
  swap_broker-Settles target c broker new_id =
      bind-Settles (recreate_and_wait_healthy d (suc fuel) broker (broker_spec target c))
        (after_broker d target c new_id)
        (recreate_and_wait_healthy-Settles broker (broker_spec target c))
        (λ r.
          if_ind Settles r.healthy (conclude d target c) (roll_back_both d target c new_id r.new_id)
            (λ _. conclude-Settles d target c)
            (λ _. roll_back_both-Settles d target c new_id r.new_id))

  swap_server-Settles :
      (target : UpdaterTarget) (c : Captured) (server broker : String)
      → Settles (swap_server d (suc fuel) target c server broker)
  unfolding swap_server
  swap_server-Settles target c server broker =
      bind-Settles (recreate_and_wait_healthy d (suc fuel) server (server_spec target c))
        (after_server d (suc fuel) target c broker)
        (recreate_and_wait_healthy-Settles server (server_spec target c))
        (λ r.
          if_ind Settles r.healthy (swap_broker d (suc fuel) target c broker r.new_id)
            (roll_back_server d target c r.new_id)
            (λ _. swap_broker-Settles target c broker r.new_id)
            (λ _. roll_back_server-Settles d target c r.new_id))

  replace_both-Settles :
      (target : UpdaterTarget) (server broker : String) (c : Captured)
      → Settles (replace_both d (suc fuel) target server broker c)
  unfolding replace_both
  replace_both-Settles target server broker c =
      let plan =
        in_progress (version_from_reference target.server_image_ref) c.server_plan c.broker_plan in
      bind-Settles (write d plan) (λ _. swap_server d (suc fuel) target c server broker)
        (call-Settles d (write_result_file plan) void)
        (λ _. swap_server-Settles target c server broker)

  located-Settles :
      (target : UpdaterTarget) (server broker : Option String)
      → Settles (located d (suc fuel) target server broker)
  located-Settles target none broker = abort-Settles d target not_found
  located-Settles target (some server) none = abort-Settles d target not_found
  located-Settles target (some server) (some broker) =
      bind-Settles (capture d server broker) (replace_both d (suc fuel) target server broker)
        (capture-Settles d server broker) (replace_both-Settles target server broker)

  locate-Settles : (target : UpdaterTarget) → Settles (locate d (suc fuel) target)
  unfolding locate
  locate-Settles target =
      bind-Settles (resolve_id_by_name d target.server_container_name)
        (λ server.
          resolve_id_by_name d target.broker_container_name >>= located d (suc fuel) target server)
        (resolve_id_by_name-Settles d target.server_container_name)
        (λ server.
          bind-Settles (resolve_id_by_name d target.broker_container_name)
            (located d (suc fuel) target server)
            (resolve_id_by_name-Settles d target.broker_container_name)
            (located-Settles target server))

  pulled_settles :
      (target : UpdaterTarget) (r : Outcome (Unit {0}) × List Call)
      → is_stuck r.0 ≡ false
      → is_stuck (pulled d (suc fuel) target r).0 ≡ false
  pulled_settles target (ok u, log) e = locate-Settles target log
  pulled_settles target (throw x, log) e =
      abort-Settles d target (String.◌++◌ "Could not pull one or both target images: " x) log
  pulled_settles target (stuck, log) e = e

-- With a clock that goes on by at least what each delay waits, and fuel for forty-six inspections, a
-- self-update ends, from any calls before: it returns an outcome or throws.
pub run_self_update_settles :
    (d : Docker) (fuel : ℕ) (target : UpdaterTarget) (log : List Call)
    → Ticks d
    → 45 ≤ fuel
    → is_stuck (run_self_update d (suc fuel) target log).0 ≡ false
unfolding run_self_update
run_self_update_settles d fuel target log ticks enough =
    pulled_settles d ticks fuel enough target (pull_both d target log)
      (pull_both-Settles d target log)
