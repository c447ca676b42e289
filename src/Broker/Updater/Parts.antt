-- ===== src/Broker/Updater/Parts.antt =====
-- The events of the parts of a self-update (apps/broker/src/self-update/updater.ts), wherever they return.
use docker_webmail_gui.Broker.Resolver.{RawContainerListItem}
use docker_webmail_gui.Broker.Updater.{
  UpdaterTarget, void, stop_and_remove, create_and_start, poll_on, poll, wait_for_healthy,
  recreate_and_wait_healthy, Recreated, Captured, capture, put_back, resolve_id_by_name,
  resolve_from_version, inspect_old_image_config, pull_both, health_poll_interval_ms,
  health_poll_timeout_ms, is_healthy, version_of, id_of,
}
use docker_webmail_gui.Broker.Updater.Swap.{RawContainerRecreateSpec, RawImageConfig, has_text}
use docker_webmail_gui.Broker.Updater.Inherited.{IsAmongTexts, among-has_text, has_text-among}
use docker_webmail_gui.Broker.Updater.Calls.{
  pull_image, inspect_image_config, list_containers, list_images, inspect_for_recreate,
  inspect_container, stop_container, remove_container, start_container, create_container, delay,
  Call, Docker, Outcome, ok, M, ◌>>=◌, ◌>>◌, pure, call, attempt,
}
use docker_webmail_gui.Broker.Updater.Effects.{recreated}
use docker_webmail_gui.Broker.Updater.Planned.{captured}
use docker_webmail_gui.Broker.Updater.Events.{
  Event, listed, inspected, imaged, removed, started, created, events, silent, Yields, Fixed,
  call-Fixed, attempt-Fixed, bind-Fixed, pure-Yields, IsQuiet, call-IsQuiet, bind-IsQuiet,
}
use docker_webmail_gui.Common.{
  Bool, Bool-cases, inl, inr, sym, ◌∙◌, List, Option, String, ap, append-nil, false, find, if_ind,
  if◌then◌else◌, leb, none, refl, some, suc, true, zero, ℕ, ◌++◌, ◌+◌, ◌==s◌, ◌∷◌, ◌≡◌, [],
}

-- What came of an image's inspection, which may fail.
abbrev pub maybe_imaged : String → Option RawImageConfig → List Event
maybe_imaged image none = []
maybe_imaged image (some config) = imaged image config ∷ []

-- What Docker told of the two containers, and of the images that they were made of.
abbrev pub told : String → String → Captured → List Event
told server broker c =
    inspected server c.server_plan
    ∷ inspected broker c.broker_plan
    ∷ (maybe_imaged c.server_plan.image c.server_old_image
        ++ maybe_imaged c.broker_plan.image c.broker_old_image)

-- The first of the containers that has this name, if one has.
abbrev pub Named : String → List RawContainerListItem → Option String → Type 0
Named name containers id = id_of (find (λ container. has_text container.names name) containers) ≡ id

-- The first of the containers that has this name has this id.
pub data FirstNamed (name : String) : List RawContainerListItem → String → Type 0 where
  is_first :
      (container : RawContainerListItem) (containers : List RawContainerListItem)
      → IsAmongTexts name container.names
      → FirstNamed name (container ∷ containers) container.id
  is_later :
      (container : RawContainerListItem) (containers : List RawContainerListItem) (id : String)
      → (IsAmongTexts name container.names → ⊥)
      → FirstNamed name containers id
      → FirstNamed name (container ∷ containers) id

pub Named-FirstNamed :
    (name : String) (containers : List RawContainerListItem) (id : String)
    → Named name containers (some id)
    → FirstNamed name containers id
Named-FirstNamed name [] id h = cc
Named-FirstNamed name (c ∷ cs) id h = elim (Bool-cases (has_text c.names name)) [
  | inl e ↦
      let same : some c.id ≡ some id = rw (find, e) at h in
      let own : c.id ≡ id = cc in rw (← own) (is_first c cs (among-has_text c.names name e))
  | inr e ↦
      is_later c cs id
        (λ among. let clash : true ≡ false = sym (has_text-among c.names name among) ∙ e in cc)
        (Named-FirstNamed name cs id (rw (find, e) at h))
]

-- The container is replaced by a new one, whose id is told.
abbrev pub replaced : String → RawContainerRecreateSpec → String → List Event
replaced id spec new_id = removed id ∷ created spec new_id ∷ started new_id ∷ []

module _ (d : Docker) where
  stop_and_remove-Fixed : (id : String) → Fixed d (stop_and_remove d id) (λ _. removed id ∷ [])
  unfolding stop_and_remove
  stop_and_remove-Fixed id =
      bind-Fixed d (attempt (call d (stop_container id) void))
        (λ _. call d (remove_container id) void) silent (λ _. λ new. new ≡ removed id ∷ [])
        (attempt-Fixed d (stop_container id) void silent (λ log. refl) refl)
        (λ _. call-Fixed d (remove_container id) void (λ _. removed id ∷ []) (λ log. refl))

  create_and_start-Fixed :
      (spec : RawContainerRecreateSpec)
      → Fixed d (create_and_start d spec) (λ id. created spec id ∷ started id ∷ [])
  unfolding create_and_start
  create_and_start-Fixed spec =
      bind-Fixed d (call d (create_container spec) d.created_id)
        (λ id. call d (start_container id) void >> pure id) (λ id. created spec id ∷ [])
        (λ id. λ new. new ≡ created spec id ∷ started id ∷ [])
        (call-Fixed d (create_container spec) d.created_id (λ id. created spec id ∷ [])
          (λ log. refl))
        (λ id.
          bind-Fixed d (call d (start_container id) void) (λ _. pure id) (λ _. started id ∷ [])
            (λ new_id. λ rest. created spec id ∷ rest ≡ created spec new_id ∷ started new_id ∷ [])
            (call-Fixed d (start_container id) void (λ _. started id ∷ []) (λ log. refl))
            (λ _.
              pure-Yields d id
                (λ new_id. λ rest.
                  created spec id ∷ started id ∷ rest ≡ created spec new_id ∷ started new_id ∷ [])
                refl))

  poll_on-Fixed :
      (deadline : ℕ) (health : Option String) (next : M Bool)
      → Fixed d next silent
      → Fixed d (poll_on d deadline health next) silent
  poll_on-Fixed deadline health next q log =
      let T : Outcome Bool × List Call → Type 0 = λ r.
        (a : Bool)
        → r.0 ≡ ok a
        → (new : List Event) × (new ≡ []) × (events d r.1 ≡ events d log ++ new) in
      let later = (call d (delay health_poll_interval_ms) void >> next) log in
      if_ind T (is_healthy health) (ok true, log)
        (if leb deadline (d.clock log) then (ok false, log) else later)
        (λ _. pure-Yields d true (λ _. λ new. new ≡ []) refl log)
        (λ _.
          if_ind T (leb deadline (d.clock log)) (ok false, log) later
            (λ _. pure-Yields d false (λ _. λ new. new ≡ []) refl log)
            (λ _.
              bind-Fixed d (call d (delay health_poll_interval_ms) void) (λ _. next) silent
                (λ _. λ new. new ≡ [])
                (call-Fixed d (delay health_poll_interval_ms) void silent (λ _. refl)) (λ _. q)
                log))

  poll-Fixed : (id : String) (deadline fuel : ℕ) → Fixed d (poll d id deadline fuel) silent
  unfolding poll
  poll-Fixed id deadline zero log = λ a e. cc
  poll-Fixed id deadline (suc fuel) log =
      bind-Fixed d (call d (inspect_container id) d.health)
        (λ health. poll_on d deadline health (poll d id deadline fuel)) silent
        (λ _. λ new. new ≡ []) (call-Fixed d (inspect_container id) d.health silent (λ _. refl))
        (λ health.
          poll_on-Fixed deadline health (poll d id deadline fuel) (poll-Fixed id deadline fuel))
        log

  wait_for_healthy-Fixed : (fuel : ℕ) (id : String) → Fixed d (wait_for_healthy d fuel id) silent
  unfolding wait_for_healthy
  wait_for_healthy-Fixed fuel id log = poll-Fixed id (d.clock log + health_poll_timeout_ms) fuel log

  pub recreate_and_wait_healthy-Fixed :
      (fuel : ℕ) (id : String) (spec : RawContainerRecreateSpec)
      → Fixed d (recreate_and_wait_healthy d fuel id spec) (λ r. replaced id spec r.new_id)
  unfolding recreate_and_wait_healthy
  recreate_and_wait_healthy-Fixed fuel id spec =
      let T : Recreated → List Event → Type 0 = λ r. λ new. new ≡ replaced id spec r.new_id in
      bind-Fixed d (stop_and_remove d id)
        (λ _. create_and_start d spec >>= λ new_id.
          wait_for_healthy d fuel new_id >>= λ healthy. pure (recreated new_id healthy))
        (λ _. removed id ∷ []) T (stop_and_remove-Fixed id)
        (λ _.
          bind-Fixed d (create_and_start d spec)
            (λ new_id.
              wait_for_healthy d fuel new_id >>= λ healthy. pure (recreated new_id healthy))
            (λ new_id. created spec new_id ∷ started new_id ∷ [])
            (λ r. λ rest. T r (removed id ∷ rest)) (create_and_start-Fixed spec)
            (λ new_id.
              bind-Fixed d (wait_for_healthy d fuel new_id)
                (λ healthy. pure (recreated new_id healthy)) silent
                (λ r. λ rest. T r (removed id ∷ created spec new_id ∷ started new_id ∷ rest))
                (wait_for_healthy-Fixed fuel new_id)
                (λ healthy.
                  pure-Yields d (recreated new_id healthy)
                    (λ r. λ rest. T r (removed id ∷ created spec new_id ∷ started new_id ∷ rest))
                    refl)))

  -- A container is put back under a new id, which nothing uses.
  pub put_back-Yields :
      (new_id : String) (plan : RawContainerRecreateSpec)
      → Yields d
          (put_back d new_id plan)
          (λ _. λ new. (id : String) × (new ≡ replaced new_id plan id))
  unfolding put_back
  put_back-Yields new_id plan =
      let T : Unit {0} → List Event → Type 0 =
        λ _. λ new. (id : String) × (new ≡ replaced new_id plan id) in
      bind-Fixed d (stop_and_remove d new_id) (λ _. create_and_start d plan >>= λ _. pure tt)
        (λ _. removed new_id ∷ []) T (stop_and_remove-Fixed new_id)
        (λ _.
          bind-Fixed d (create_and_start d plan) (λ _. pure tt)
            (λ id. created plan id ∷ started id ∷ []) (λ u. λ rest. T u (removed new_id ∷ rest))
            (create_and_start-Fixed plan)
            (λ id.
              pure-Yields d tt
                (λ u. λ rest. T u (removed new_id ∷ created plan id ∷ started id ∷ rest))
                (id, refl)))

  pub resolve_id_by_name-Yields :
      (name : String)
      → Yields d (resolve_id_by_name d name) (λ id. λ new.
        (containers : List RawContainerListItem) × (new ≡ listed containers ∷ [])
        × Named name containers id)
  unfolding resolve_id_by_name
  resolve_id_by_name-Yields name =
      let T : Option String → List Event → Type 0 = λ id. λ new.
        (containers : List RawContainerListItem) × (new ≡ listed containers ∷ [])
        × Named name containers id in
      bind-Fixed d (call d list_containers d.containers)
        (λ containers. pure (id_of (find (λ container. has_text container.names name) containers)))
        (λ containers. listed containers ∷ []) T
        (call-Fixed d list_containers d.containers (λ containers. listed containers ∷ [])
          (λ log. refl))
        (λ containers.
          pure-Yields d (id_of (find (λ container. has_text container.names name) containers))
            (λ id. λ rest. T id (listed containers ∷ rest)) (containers, refl, refl))

  inspect_old_image_config-Fixed :
      (image : String) → Fixed d (inspect_old_image_config d image) (maybe_imaged image)
  unfolding inspect_old_image_config
  inspect_old_image_config-Fixed image =
      attempt-Fixed d (inspect_image_config image) d.image_config (maybe_imaged image) (λ log. refl)
        refl

  resolve_from_version-Fixed : (image : String) → Fixed d (resolve_from_version d image) silent
  unfolding resolve_from_version
  resolve_from_version-Fixed image =
      bind-Fixed d (call d list_images d.images)
        (λ images. pure (version_of (find (λ i. i.id ==s image) images))) silent
        (λ _. λ new. new ≡ []) (call-Fixed d list_images d.images silent (λ log. refl))
        (λ images.
          pure-Yields d (version_of (find (λ i. i.id ==s image) images)) (λ _. λ new. new ≡ [])
            refl)

  pub pull_both-IsQuiet : (target : UpdaterTarget) → IsQuiet d (pull_both d target)
  unfolding pull_both
  pull_both-IsQuiet target =
      bind-IsQuiet d (call d (pull_image target.server_image_ref) void)
        (λ _. call d (pull_image target.broker_image_ref) void)
        (call-IsQuiet d (pull_image target.server_image_ref) void (λ log. refl))
        (λ _. call-IsQuiet d (pull_image target.broker_image_ref) void (λ log. refl))

  pub capture-Fixed :
      (server broker : String) → Fixed d (capture d server broker) (told server broker)
  unfolding capture
  capture-Fixed server broker =
      let T : Captured → List Event → Type 0 = λ c. λ new. new ≡ told server broker c in
      bind-Fixed d (call d (inspect_for_recreate server) d.spec)
        (λ s. call d (inspect_for_recreate broker) d.spec >>= λ b.
          inspect_old_image_config d s.image >>= λ so. inspect_old_image_config d b.image >>= λ bo.
          resolve_from_version d s.image >>= λ v. pure (captured s b so bo v))
        (λ s. inspected server s ∷ []) T
        (call-Fixed d (inspect_for_recreate server) d.spec (λ s. inspected server s ∷ [])
          (λ log. refl))
        (λ s.
          bind-Fixed d (call d (inspect_for_recreate broker) d.spec)
            (λ b. inspect_old_image_config d s.image >>= λ so.
              inspect_old_image_config d b.image >>= λ bo.
              resolve_from_version d s.image >>= λ v. pure (captured s b so bo v))
            (λ b. inspected broker b ∷ []) (λ c. λ rest. T c (inspected server s ∷ rest))
            (call-Fixed d (inspect_for_recreate broker) d.spec (λ b. inspected broker b ∷ [])
              (λ log. refl))
            (λ b.
              let first = inspected server s ∷ inspected broker b ∷ [] in
              bind-Fixed d (inspect_old_image_config d s.image)
                (λ so. inspect_old_image_config d b.image >>= λ bo.
                  resolve_from_version d s.image >>= λ v. pure (captured s b so bo v))
                (maybe_imaged s.image) (λ c. λ rest. T c (first ++ rest))
                (inspect_old_image_config-Fixed s.image)
                (λ so.
                  bind-Fixed d (inspect_old_image_config d b.image)
                    (λ bo. resolve_from_version d s.image >>= λ v. pure (captured s b so bo v))
                    (maybe_imaged b.image)
                    (λ c. λ rest. T c (first ++ (maybe_imaged s.image so ++ rest)))
                    (inspect_old_image_config-Fixed b.image)
                    (λ bo.
                      let last = maybe_imaged b.image bo in
                      bind-Fixed d (resolve_from_version d s.image)
                        (λ v. pure (captured s b so bo v)) silent
                        (λ c. λ rest. T c (first ++ (maybe_imaged s.image so ++ (last ++ rest))))
                        (resolve_from_version-Fixed s.image)
                        (λ v.
                          pure-Yields d (captured s b so bo v)
                            (λ c.
                              λ rest. T c (first ++ (maybe_imaged s.image so ++ (last ++ rest))))
                            (ap (λ rest. first ++ (maybe_imaged s.image so ++ rest))
                              (append-nil last)))))))
