-- ===== src/Broker/Updater.antt =====
-- The panel's self-update: apps/broker/src/self-update/updater.ts. Every call of Docker is logged, and
-- may throw. The health poll runs on fuel, one unit for each inspection.
pub mod ImageRefs
pub mod Swap
pub mod Inherited
pub mod Calls
pub mod Events
pub mod Effects
pub mod Planned
pub mod Parts
pub mod Lockstep
pub mod Health
pub mod Ends
mod Tests
use Prim.Native.String
use docker_webmail_gui.Broker.Resolver.{RawContainerListItem}
use docker_webmail_gui.Broker.StaleImages.{RawImage}
use docker_webmail_gui.Broker.Updater.ImageRefs.{
  panel_server_repository, extract_panel_version, version_from_reference,
}
use docker_webmail_gui.Broker.Updater.Swap.{
  RawContainerRecreateSpec, RawImageConfig, has_text, build_image_swap_spec,
}
use docker_webmail_gui.Broker.Updater.Calls.{
  Verdict, succeeded, rolled_back, failed, FailedAt, pre_flight, server_health, broker_health,
  SelfUpdateResultFile, in_progress, done, Call, pull_image, inspect_image_config, list_containers,
  list_images, inspect_for_recreate, inspect_container, stop_container, remove_container,
  start_container, create_container, write_result_file, delay, Docker, Outcome, ok, throw, stuck, M,
  ◌>>=◌, ◌>>◌, pure, call, attempt,
}
use docker_webmail_gui.Common.{
  Bool, List, Option, String, false, find, if◌then◌else◌, leb, none, not, some, suc, true, zero, ℕ,
  ◌++◌, ◌+◌, ◌==s◌,
}

abbrev pub health_poll_timeout_ms : ℕ
health_poll_timeout_ms = 90_000

abbrev pub health_poll_interval_ms : ℕ
health_poll_interval_ms = 2_000

pub record UpdaterTarget : Type 0 where
  pub server_container_name : String
  pub broker_container_name : String
  pub server_image_ref : String
  pub broker_image_ref : String

pub data UpdaterOutcome : Type 0 where
  success : UpdaterOutcome
  undone : String → UpdaterOutcome
  aborted : String → UpdaterOutcome

abbrev pub void : List Call → Unit {0}
void log = tt

abbrev version_of : Option RawImage → Option String
version_of none = none
version_of (some image) = extract_panel_version image.repo_tags panel_server_repository

unfoldable pub resolve_from_version : Docker → String → M (Option String)
resolve_from_version d server_image = do
  images ← call d list_images d.images
  pure (version_of (find (λ image. image.id ==s server_image) images))

unfoldable pub inspect_old_image_config : Docker → String → M (Option RawImageConfig)
inspect_old_image_config d image = attempt (call d (inspect_image_config image) d.image_config)

abbrev id_of : Option RawContainerListItem → Option String
id_of none = none
id_of (some container) = some container.id

unfoldable pub resolve_id_by_name : Docker → String → M (Option String)
resolve_id_by_name d name = do
  containers ← call d list_containers d.containers
  pure (id_of (find (λ container. has_text container.names name) containers))

unfoldable pub stop_and_remove : Docker → String → M (Unit {0})
stop_and_remove d id = do
  ignored ← attempt (call d (stop_container id) void)
  call d (remove_container id) void

unfoldable pub create_and_start : Docker → RawContainerRecreateSpec → M String
create_and_start d spec = do
  id ← call d (create_container spec) d.created_id
  call d (start_container id) void
  pure id

abbrev is_healthy : Option String → Bool
is_healthy none = false
is_healthy (some health) = health ==s "healthy"

-- The poll's loop, from its deadline.
abbrev poll_on : Docker → ℕ → Option String → M Bool → M Bool
poll_on d deadline health next log =
    if is_healthy health
    then (ok true, log)
    else if leb deadline (d.clock log)
    then (ok false, log)
    else (call d (delay health_poll_interval_ms) void >> next) log

unfoldable pub poll : Docker → String → ℕ → ℕ → M Bool
poll d id deadline zero log = (stuck, log)
poll d id deadline (suc fuel) log =
    (call d (inspect_container id) d.health >>= λ health.
    poll_on d deadline health (poll d id deadline fuel))
      log

unfoldable pub wait_for_healthy : Docker → ℕ → String → M Bool
wait_for_healthy d fuel id log = poll d id (d.clock log + health_poll_timeout_ms) fuel log

pub record Recreated : Type 0 where
  pub new_id : String
  pub healthy : Bool

unfoldable pub recreate_and_wait_healthy :
    Docker → ℕ → String → RawContainerRecreateSpec → M Recreated
recreate_and_wait_healthy d fuel id spec = do
  stop_and_remove d id
  new_id ← create_and_start d spec
  healthy ← wait_for_healthy d fuel new_id
  pure (record { new_id = new_id; healthy = healthy })

abbrev pub write : Docker → SelfUpdateResultFile → M (Unit {0})
write d file = call d (write_result_file file) void

abbrev pub abort : Docker → UpdaterTarget → String → M UpdaterOutcome
abort d target reason = do
  write d (
      done failed none (version_from_reference target.server_image_ref) (some pre_flight)
        (some reason))
  pure (aborted reason)

-- What is captured before either container is touched.
pub record Captured : Type 0 where
  pub server_plan : RawContainerRecreateSpec
  pub broker_plan : RawContainerRecreateSpec
  pub server_old_image : Option RawImageConfig
  pub broker_old_image : Option RawImageConfig
  pub from_version : Option String

unfoldable pub capture : Docker → String → String → M Captured
capture d server_id broker_id = do
  server_plan ← call d (inspect_for_recreate server_id) d.spec
  broker_plan ← call d (inspect_for_recreate broker_id) d.spec
  server_old ← inspect_old_image_config d server_plan.image
  broker_old ← inspect_old_image_config d broker_plan.image
  from_version ← resolve_from_version d server_plan.image
  pure (record {
    server_plan = server_plan;
    broker_plan = broker_plan;
    server_old_image = server_old;
    broker_old_image = broker_old;
    from_version = from_version;
  })

abbrev pub server_spec : UpdaterTarget → Captured → RawContainerRecreateSpec
server_spec target c =
    build_image_swap_spec c.server_plan c.server_old_image target.server_image_ref

abbrev pub broker_spec : UpdaterTarget → Captured → RawContainerRecreateSpec
broker_spec target c =
    build_image_swap_spec c.broker_plan c.broker_old_image target.broker_image_ref

abbrev pub server_unhealthy : String
server_unhealthy = "The recreated server container did not become healthy in time."

abbrev pub broker_unhealthy : String
broker_unhealthy = "The recreated broker container did not become healthy in time."

-- The old container again, from the captured specification as it is.
unfoldable pub put_back : Docker → String → RawContainerRecreateSpec → M (Unit {0})
put_back d new_id plan = do stop_and_remove d new_id; id ← create_and_start d plan; pure tt

abbrev report : Docker → UpdaterTarget → Captured → FailedAt → String → M UpdaterOutcome
report d target c at reason = do
  write d (
      done rolled_back c.from_version (version_from_reference target.server_image_ref) (some at)
        (some reason))
  pure (undone reason)

unfoldable pub roll_back_server : Docker → UpdaterTarget → Captured → String → M UpdaterOutcome
roll_back_server d target c server_new = do
  put_back d server_new c.server_plan
  report d target c server_health server_unhealthy

unfoldable pub roll_back_both :
    Docker → UpdaterTarget → Captured → String → String → M UpdaterOutcome
roll_back_both d target c server_new broker_new = do
  put_back d server_new c.server_plan
  put_back d broker_new c.broker_plan
  report d target c broker_health broker_unhealthy

unfoldable pub conclude : Docker → UpdaterTarget → Captured → M UpdaterOutcome
conclude d target c = do
  write d (done succeeded c.from_version (version_from_reference target.server_image_ref) none none)
  pure success

abbrev pub after_broker : Docker → UpdaterTarget → Captured → String → Recreated → M UpdaterOutcome
after_broker d target c server_new result =
    if result.healthy
    then conclude d target c
    else roll_back_both d target c server_new result.new_id

unfoldable pub swap_broker :
    Docker → ℕ → UpdaterTarget → Captured → String → String → M UpdaterOutcome
swap_broker d fuel target c broker_id server_new =
    recreate_and_wait_healthy d fuel broker_id (broker_spec target c)
    >>= after_broker d target c server_new

abbrev pub after_server :
    Docker → ℕ → UpdaterTarget → Captured → String → Recreated → M UpdaterOutcome
after_server d fuel target c broker_id result =
    if result.healthy
    then swap_broker d fuel target c broker_id result.new_id
    else roll_back_server d target c result.new_id

unfoldable pub swap_server :
    Docker → ℕ → UpdaterTarget → Captured → String → String → M UpdaterOutcome
swap_server d fuel target c server_id broker_id =
    recreate_and_wait_healthy d fuel server_id (server_spec target c)
    >>= after_server d fuel target c broker_id

-- The rollback plan is written before any teardown.
unfoldable pub replace_both :
    Docker → ℕ → UpdaterTarget → String → String → Captured → M UpdaterOutcome
replace_both d fuel target server_id broker_id c = do
  write d (in_progress (version_from_reference target.server_image_ref) c.server_plan c.broker_plan)
  swap_server d fuel target c server_id broker_id

abbrev pub not_found : String
not_found = "Could not find the panel's own containers by their configured names."

abbrev pub located : Docker → ℕ → UpdaterTarget → Option String → Option String → M UpdaterOutcome
located d fuel target none broker = abort d target not_found
located d fuel target (some server_id) none = abort d target not_found
located d fuel target (some server_id) (some broker_id) =
    capture d server_id broker_id >>= replace_both d fuel target server_id broker_id

unfoldable pub locate : Docker → ℕ → UpdaterTarget → M UpdaterOutcome
locate d fuel target = do
  server_id ← resolve_id_by_name d target.server_container_name
  broker_id ← resolve_id_by_name d target.broker_container_name
  located d fuel target server_id broker_id

unfoldable pub pull_both : Docker → UpdaterTarget → M (Unit {0})
pull_both d target = do
  call d (pull_image target.server_image_ref) void
  call d (pull_image target.broker_image_ref) void

abbrev pub pulled :
    Docker → ℕ → UpdaterTarget → Outcome (Unit {0}) × List Call → Outcome UpdaterOutcome × List Call
pulled d fuel target (ok u, log) = locate d fuel target log
pulled d fuel target (throw e, log) =
    abort d target (String.◌++◌ "Could not pull one or both target images: " e) log
pulled d fuel target (stuck, log) = (stuck, log)

unfoldable pub run_self_update : Docker → ℕ → UpdaterTarget → M UpdaterOutcome
run_self_update d fuel target log = pulled d fuel target (pull_both d target log)
