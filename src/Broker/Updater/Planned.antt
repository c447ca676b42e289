-- ===== src/Broker/Updater/Planned.antt =====
-- Nothing is removed or created before the rollback plan is on disk (apps/broker/src/self-update/updater.ts).
use Prim.Native.String
use docker_webmail_gui.Broker.Updater.{
  UpdaterTarget, aborted, void, resolve_from_version, inspect_old_image_config, resolve_id_by_name,
  write, abort, Captured, capture, swap_server, replace_both, located, locate, pull_both, pulled,
  run_self_update, version_of, id_of, not_found,
}
use docker_webmail_gui.Broker.Updater.Swap.{RawContainerRecreateSpec, RawImageConfig, has_text}
use docker_webmail_gui.Broker.Updater.ImageRefs.{version_from_reference}
use docker_webmail_gui.Broker.Updater.Calls.{
  failed, pre_flight, in_progress, Call, pull_image, inspect_image_config, list_containers,
  list_images, inspect_for_recreate, write_result_file, Docker, Outcome, ok, throw, stuck, M,
  continue_with, ◌>>=◌, pure, call, Effect, planned, effects,
}
use docker_webmail_gui.Broker.Updater.Effects.{
  IsQuiet, Appends, call-IsQuiet, call-effects, bind-IsQuiet, attempt-IsQuiet, ending-IsQuiet,
  swap_server-Appends, continue_with-Appends,
}
use docker_webmail_gui.Common.{
  List, Option, String, append-nil, append_assoc, find, inl, inr, none, refl, some, sym, ℕ, ◌++◌,
  ◌==s◌, ◌∙◌, ◌∷◌, ◌≡◌, ◌⊎◌, [],
}

-- No effect, or the rollback plan first.
abbrev pub PlansFirst : List Effect → Type 0
PlansFirst new =
    (new ≡ [])
    ⊎ ((s : RawContainerRecreateSpec) × (b : RawContainerRecreateSpec) × (rest : List Effect) × (new
          ≡ planned s b ∷ rest))

abbrev pub IsGuarded : {A : Type 0} → M A → Type 0
IsGuarded m =
    (log : List Call)
    → (new : List Effect) × (effects (m log).1 ≡ effects log ++ new) × PlansFirst new

unchanged-IsGuarded :
    (log : List Call) → (new : List Effect) × (effects log ≡ effects log ++ new) × PlansFirst new
unchanged-IsGuarded log = ([], sym (append-nil (effects log)), inl refl)

IsQuiet-IsGuarded : {A : Type 0} (m : M A) → IsQuiet m → IsGuarded m
IsQuiet-IsGuarded m q log = ([], q log ∙ sym (append-nil (effects log)), inl refl)

continue_with-IsGuarded :
    {A B : Type 0} (f : A → M B) (r : Outcome A × List Call)
    → ((a : A) → IsGuarded (f a))
    → (new : List Effect) × (effects (continue_with f r).1 ≡ effects r.1 ++ new) × PlansFirst new
continue_with-IsGuarded f (ok a, log) h = h a log
continue_with-IsGuarded f (throw e, log) h = unchanged-IsGuarded log
continue_with-IsGuarded f (stuck, log) h = unchanged-IsGuarded log

bind-IsGuarded :
    {A B : Type 0} (m : M A) (f : A → M B)
    → IsQuiet m
    → ((a : A) → IsGuarded (f a))
    → IsGuarded (m >>= f)
bind-IsGuarded m f q h log =
    let rest = continue_with-IsGuarded f (m log) h in (rest.0, rest.1 ∙ rw (q log) refl, rest.2)

resolve_id_by_name-IsQuiet : (d : Docker) (name : String) → IsQuiet (resolve_id_by_name d name)
unfolding resolve_id_by_name
resolve_id_by_name-IsQuiet d name log =
    bind-IsQuiet (call d list_containers d.containers)
      (λ containers. pure (id_of (find (λ container. has_text container.names name) containers)))
      (call-IsQuiet d list_containers d.containers refl) (λ containers later. refl) log

resolve_from_version-IsQuiet :
    (d : Docker) (image : String) → IsQuiet (resolve_from_version d image)
unfolding resolve_from_version
resolve_from_version-IsQuiet d image log =
    bind-IsQuiet (call d list_images d.images)
      (λ images. pure (version_of (find (λ i. i.id ==s image) images)))
      (call-IsQuiet d list_images d.images refl) (λ images later. refl) log

inspect_old_image_config-IsQuiet :
    (d : Docker) (image : String) → IsQuiet (inspect_old_image_config d image)
unfolding inspect_old_image_config
inspect_old_image_config-IsQuiet d image =
    attempt-IsQuiet (call d (inspect_image_config image) d.image_config)
      (call-IsQuiet d (inspect_image_config image) d.image_config refl)

abbrev pub captured :
    RawContainerRecreateSpec
    → RawContainerRecreateSpec
    → Option RawImageConfig
    → Option RawImageConfig
    → Option String
    → Captured
captured s b so bo v = record {
  server_plan = s;
  broker_plan = b;
  server_old_image = so;
  broker_old_image = bo;
  from_version = v;
}

capture-IsQuiet :
    (d : Docker) (server_id broker_id : String) → IsQuiet (capture d server_id broker_id)
unfolding capture
capture-IsQuiet d server_id broker_id log =
    bind-IsQuiet (call d (inspect_for_recreate server_id) d.spec)
      (λ s. call d (inspect_for_recreate broker_id) d.spec >>= λ b.
        inspect_old_image_config d s.image >>= λ so. inspect_old_image_config d b.image >>= λ bo.
        resolve_from_version d s.image >>= λ v. pure (captured s b so bo v))
      (call-IsQuiet d (inspect_for_recreate server_id) d.spec refl)
      (λ s.
        bind-IsQuiet (call d (inspect_for_recreate broker_id) d.spec)
          (λ b. inspect_old_image_config d s.image >>= λ so.
            inspect_old_image_config d b.image >>= λ bo.
            resolve_from_version d s.image >>= λ v. pure (captured s b so bo v))
          (call-IsQuiet d (inspect_for_recreate broker_id) d.spec refl)
          (λ b.
            bind-IsQuiet (inspect_old_image_config d s.image)
              (λ so. inspect_old_image_config d b.image >>= λ bo.
                resolve_from_version d s.image >>= λ v. pure (captured s b so bo v))
              (inspect_old_image_config-IsQuiet d s.image)
              (λ so.
                bind-IsQuiet (inspect_old_image_config d b.image)
                  (λ bo. resolve_from_version d s.image >>= λ v. pure (captured s b so bo v))
                  (inspect_old_image_config-IsQuiet d b.image)
                  (λ bo.
                    bind-IsQuiet (resolve_from_version d s.image) (λ v. pure (captured s b so bo v))
                      (resolve_from_version-IsQuiet d s.image) (λ v later. refl)))))
      log

pull_both-IsQuiet : (d : Docker) (target : UpdaterTarget) → IsQuiet (pull_both d target)
unfolding pull_both
pull_both-IsQuiet d target =
    bind-IsQuiet (call d (pull_image target.server_image_ref) void)
      (λ _. call d (pull_image target.broker_image_ref) void)
      (call-IsQuiet d (pull_image target.server_image_ref) void refl)
      (λ _. call-IsQuiet d (pull_image target.broker_image_ref) void refl)

plan-IsGuarded :
    {A B : Type 0} (m : M A) (f : A → M B) (s b : RawContainerRecreateSpec)
    → ((log : List Call) → effects (m log).1 ≡ effects log ++ planned s b ∷ [])
    → ((a : A) → Appends (f a))
    → IsGuarded (m >>= f)
plan-IsGuarded m f s b h k log =
    let rest = continue_with-Appends f (m log) k in
    let e = rest.1 ∙ rw (h log) (append_assoc (effects log) (planned s b ∷ []) rest.0) in
    (planned s b ∷ rest.0, e, inr (s, b, rest.0, refl))

replace_both-IsGuarded :
    (d : Docker) (fuel : ℕ) (target : UpdaterTarget) (server_id broker_id : String) (c : Captured)
    → IsGuarded (replace_both d fuel target server_id broker_id c)
unfolding replace_both
replace_both-IsGuarded d fuel target server_id broker_id c =
    let plan =
      in_progress (version_from_reference target.server_image_ref) c.server_plan c.broker_plan in
    plan-IsGuarded (write d plan) (λ _. swap_server d fuel target c server_id broker_id)
      c.server_plan c.broker_plan (call-effects d (write_result_file plan) void)
      (λ _. swap_server-Appends d fuel target c server_id broker_id)

abort-IsQuiet :
    (d : Docker) (target : UpdaterTarget) (reason : String) → IsQuiet (abort d target reason)
abort-IsQuiet d target reason =
    ending-IsQuiet d failed none (version_from_reference target.server_image_ref) (some pre_flight)
      (some reason) (aborted reason)

located-IsGuarded :
    (d : Docker) (fuel : ℕ) (target : UpdaterTarget) (server broker : Option String)
    → IsGuarded (located d fuel target server broker)
located-IsGuarded d fuel target none broker =
    IsQuiet-IsGuarded (abort d target not_found) (abort-IsQuiet d target not_found)
located-IsGuarded d fuel target (some server_id) none =
    IsQuiet-IsGuarded (abort d target not_found) (abort-IsQuiet d target not_found)
located-IsGuarded d fuel target (some server_id) (some broker_id) =
    bind-IsGuarded (capture d server_id broker_id) (replace_both d fuel target server_id broker_id)
      (capture-IsQuiet d server_id broker_id)
      (replace_both-IsGuarded d fuel target server_id broker_id)

locate-IsGuarded :
    (d : Docker) (fuel : ℕ) (target : UpdaterTarget) → IsGuarded (locate d fuel target)
unfolding locate
locate-IsGuarded d fuel target =
    bind-IsGuarded (resolve_id_by_name d target.server_container_name)
      (λ server_id. resolve_id_by_name d target.broker_container_name >>= λ broker_id.
        located d fuel target server_id broker_id)
      (resolve_id_by_name-IsQuiet d target.server_container_name)
      (λ server_id.
        bind-IsGuarded (resolve_id_by_name d target.broker_container_name)
          (located d fuel target server_id)
          (resolve_id_by_name-IsQuiet d target.broker_container_name)
          (located-IsGuarded d fuel target server_id))

pulled-IsGuarded :
    (d : Docker) (fuel : ℕ) (target : UpdaterTarget) (r : Outcome (Unit {0}) × List Call)
    → (new : List Effect) × (effects (pulled d fuel target r).1 ≡ effects r.1 ++ new)
      × PlansFirst new
pulled-IsGuarded d fuel target (ok u, log) = locate-IsGuarded d fuel target log
pulled-IsGuarded d fuel target (throw e, log) =
    let reason = String.◌++◌ "Could not pull one or both target images: " e in
    IsQuiet-IsGuarded (abort d target reason) (abort-IsQuiet d target reason) log
pulled-IsGuarded d fuel target (stuck, log) = unchanged-IsGuarded log

-- Whatever Docker answers, and wherever it throws, the calls of a self-update either remove and create no
-- container, or the file with the rollback plan of both containers is written before the first that does.
pub run_self_update-PlansFirst :
    (d : Docker) (fuel : ℕ) (target : UpdaterTarget)
    → PlansFirst (effects (run_self_update d fuel target []).1)
unfolding run_self_update effects
run_self_update-PlansFirst d fuel target =
    let r = pulled-IsGuarded d fuel target (pull_both d target []) in
    rw (r.1, pull_both-IsQuiet d target []) r.2
