-- ===== src/Broker/Updater/Tests.antt =====
-- Self-updates (self-update/updater.ts) on a host with the panel's two containers.
use docker_webmail_gui.Broker.StaleImages.{last_colon}
use docker_webmail_gui.Broker.Resolver.{split_label}
use docker_webmail_gui.Broker.Updater.{
  UpdaterTarget, success, undone, server_unhealthy, resolve_from_version, inspect_old_image_config,
  resolve_id_by_name, stop_and_remove, create_and_start, poll, wait_for_healthy,
  recreate_and_wait_healthy, capture, put_back, roll_back_server, roll_back_both, conclude,
  swap_broker, swap_server, replace_both, locate, pull_both, run_self_update,
  health_poll_timeout_ms,
}
use docker_webmail_gui.Broker.Updater.ImageRefs.{
  version_from_reference, extract_panel_version, without_prefix,
}
use docker_webmail_gui.Broker.Updater.Swap.{
  RawContainerRecreateSpec, RawImageConfig, build_image_swap_spec, without_image_inherited_env,
  without_image_inherited_labels, without_image_inherited_cmd,
}
use docker_webmail_gui.Broker.Updater.Inherited.{
  IsImageEntry, IsProvenance, IsImageLabel, IsOwnCmd, Without, left_out, stays, at_end,
  build_image_swap_spec-own,
}
use docker_webmail_gui.Broker.Updater.Calls.{
  Call, inspect_for_recreate, delay, Docker, ok, call, attempt, effects,
}
use docker_webmail_gui.Broker.Updater.Events.{events}
use docker_webmail_gui.Broker.Updater.Planned.{PlansFirst, run_self_update-PlansFirst}
use docker_webmail_gui.Broker.Updater.Lockstep.{Transaction, run_self_update-Transaction}
use docker_webmail_gui.Broker.Updater.Health.{
  Ticks, is_stuck, PollVerdict, wait_for_healthy-PollVerdict,
}
use docker_webmail_gui.Broker.Updater.Ends.{run_self_update_settles}
use docker_webmail_gui.Common.{
  Bool, List, Option, String, any, arith, false, if◌then◌else◌, inl, inr, none, refl, some, ℕ, ◌++◌,
  ◌+◌, ◌==s◌, ◌∷◌, ◌≡◌, [],
}

abbrev target : UpdaterTarget
target = record {
  server_container_name = "dwg-server";
  broker_container_name = "dwg-broker";
  server_image_ref = "reg/panel-server:0.2.0";
  broker_image_ref = "reg/panel-broker:0.2.0";
}

abbrev plan : String → RawContainerRecreateSpec
plan name = record {
  name = name;
  image = "sha256:old";
  env = "DWG_VERSION=0.1.0" ∷ "TZ=UTC" ∷ [];
  labels = ("vendor", "x") ∷ ("mine", "y") ∷ [];
  cmd = some ("node" ∷ []);
  host_config = "";
  networking_config = "";
}

abbrev old : RawImageConfig
old = record {
  id = "sha256:old";
  env = "DWG_VERSION=0.1.0" ∷ [];
  labels = ("vendor", "x") ∷ [];
  cmd = some ("node" ∷ []);
}

abbrev asks_broker : Call → Bool
asks_broker (inspect_for_recreate id) = id ==s "b"
asks_broker _ = false

abbrev waited : List Call → ℕ
waited [] = 0
waited (delay ms ∷ log) = waited log + ms
waited (_ ∷ log) = waited log

-- A host that refuses nothing, and shows this health of every new container.
abbrev host : Option String → Docker
host health = record {
  error = λ log. none;
  containers = λ log.
      record { id = "s"; names = "dwg-server" ∷ []; labels = [] }
      ∷ record { id = "b"; names = "dwg-broker" ∷ []; labels = [] }
      ∷ [];
  images = λ log. [];
  spec = λ log. if any asks_broker log then plan "dwg-broker" else plan "dwg-server";
  image_config = λ log. old;
  created_id = λ log. "n";
  health = λ log. health;
  clock = waited;
}

run_all : Unit {0}
unfolding run_self_update pull_both locate replace_both swap_server swap_broker conclude
    roll_back_both roll_back_server put_back capture recreate_and_wait_healthy wait_for_healthy poll
    create_and_start stop_and_remove resolve_id_by_name inspect_old_image_config
    resolve_from_version version_from_reference extract_panel_version without_prefix
    build_image_swap_spec without_image_inherited_env without_image_inherited_labels
    without_image_inherited_cmd call attempt effects last_colon split_label
run_all = tt

updates : (run_self_update (host (some "healthy")) 3 target []).0 ≡ ok success
unfolding run_all
updates = refl

rolls_back : (run_self_update (host none) 46 target []).0 ≡ ok (undone server_unhealthy)
unfolding run_all
rolls_back = refl

run_self_update-PlansFirst_example :
    PlansFirst (effects (run_self_update (host none) 46 target []).1)
run_self_update-PlansFirst_example = run_self_update-PlansFirst (host none) 46 target

run_self_update-Transaction_example :
    Transaction target
      (undone server_unhealthy)
      (events (host none) (run_self_update (host none) 46 target []).1)
run_self_update-Transaction_example =
    run_self_update-Transaction (host none) 46 target (undone server_unhealthy) rolls_back

waited-snoc : (log : List Call) (c : Call) → waited (log ++ c ∷ []) ≡ waited log + waited (c ∷ [])
waited-snoc [] c = omega arith
waited-snoc (delay ms ∷ log) c = rw (waited-snoc log c) (omega arith)
waited-snoc (_ ∷ log) c = waited-snoc log c

host-Ticks : Ticks (host none)
host-Ticks = (
  λ log c. rw (waited-snoc log c) (omega arith),
  λ log ms. rw (waited-snoc log (delay ms)) (omega arith),
)

run_self_update_settles_example : is_stuck (run_self_update (host none) 46 target []).0 ≡ false
run_self_update_settles_example =
    run_self_update_settles (host none) 45 target [] host-Ticks (omega arith)

waits : (wait_for_healthy (host none) 46 "n" []).0 ≡ ok false
unfolding run_all
waits = refl

wait_for_healthy-PollVerdict_example :
    PollVerdict
      (host none)
      "n"
      (0 + health_poll_timeout_ms)
      false
      (wait_for_healthy (host none) 46 "n" []).1
wait_for_healthy-PollVerdict_example =
    wait_for_healthy-PollVerdict (host none) 46 "n" [] false waits

own_key : IsProvenance "TZ" → ⊥
own_key (inl e) = cc
own_key (inr (inl e)) = cc
own_key (inr (inr (inl e))) = cc
own_key (inr (inr (inr e))) = cc

own_entry : IsImageEntry old "TZ=UTC" → ⊥
unfolding split_label
own_entry (inl (inl e)) = cc
own_entry (inl (inr e)) = elim e [ ]
own_entry (inr h) = own_key h

own_env : Without (IsImageEntry old) (plan "dwg-server").env ("TZ=UTC" ∷ [])
unfolding split_label
own_env =
    left_out "DWG_VERSION=0.1.0" ("TZ=UTC" ∷ []) ("TZ=UTC" ∷ []) (inl (inl refl))
      (stays "TZ=UTC" [] [] own_entry at_end)

own_labels : Without (IsImageLabel old) (plan "dwg-server").labels (("mine", "y") ∷ [])
own_labels =
    left_out ("vendor", "x") (("mine", "y") ∷ []) (("mine", "y") ∷ []) (inl refl)
      (stays ("mine", "y") [] [] (λ h. ground arith) at_end)

build_image_swap_spec-own_example :
    let new = build_image_swap_spec (plan "dwg-server") (some old) "reg/panel-server:0.2.0" in
    (new ≡ record (plan "dwg-server") {
      image = "reg/panel-server:0.2.0";
      env = "TZ=UTC" ∷ [];
      labels = ("mine", "y") ∷ [];
      cmd = new.cmd;
    })
    × IsOwnCmd (some ("node" ∷ [])) (some ("node" ∷ [])) new.cmd
build_image_swap_spec-own_example =
    build_image_swap_spec-own (plan "dwg-server") old "reg/panel-server:0.2.0" ("TZ=UTC" ∷ [])
      (("mine", "y") ∷ []) own_env own_labels
