-- ===== src/Broker/Updater/Effects.antt =====
-- Whatever Docker answers, nothing is removed or created before the rollback plan is written
-- (apps/broker/src/self-update/updater.ts).
use docker_webmail_gui.Broker.Updater.ImageRefs.{version_from_reference}
use docker_webmail_gui.Broker.Updater.{
  UpdaterTarget, UpdaterOutcome, void, stop_and_remove, create_and_start, poll_on, poll,
  wait_for_healthy, recreate_and_wait_healthy, Recreated, write, Captured, put_back,
  roll_back_server, roll_back_both, conclude, after_broker, swap_broker, after_server, swap_server,
  health_poll_interval_ms, health_poll_timeout_ms, server_unhealthy, broker_unhealthy, is_healthy,
  report, server_spec, broker_spec, success, undone,
}
use docker_webmail_gui.Broker.Updater.Swap.{RawContainerRecreateSpec}
use docker_webmail_gui.Broker.Updater.Calls.{
  Verdict, rolled_back, FailedAt, done, Call, inspect_container, stop_container, remove_container,
  start_container, create_container, write_result_file, delay, Docker, Outcome, ok, throw, stuck, M,
  continue_with, ◌>>=◌, ◌>>◌, pure, call, attempt, Effect, effect_of, effects, effects-snoc, caught,
  server_health, broker_health,
}
use docker_webmail_gui.Common.{
  Bool, List, Option, Option-cases, String, append-nil, append_assoc, false, if_ind, if◌then◌else◌,
  inl, inr, leb, none, refl, some, suc, sym, true, zero, ℕ, ◌++◌, ◌+◌, ◌∙◌, ◌∷◌, ◌≡◌, [],
}

-- A part of the update whose effects follow those of before, in any case.
abbrev pub Appends : {A : Type 0} → M A → Type 0
Appends m = (log : List Call) → (new : List Effect) × (effects (m log).1 ≡ effects log ++ new)

-- A part without effects.
abbrev pub IsQuiet : {A : Type 0} → M A → Type 0
IsQuiet m = (log : List Call) → effects (m log).1 ≡ effects log

pub call-effects :
    {A : Type 0} (d : Docker) (c : Call) (answer : List Call → A) (log : List Call)
    → effects (call d c answer log).1 ≡ effects log ++ effect_of c
unfolding call
call-effects d c answer log = elim (Option-cases (d.error (log ++ c ∷ []))) [
  | inl e ↦ rw e (effects-snoc log c)
  | inr (x, e) ↦ rw e (effects-snoc log c)
]

call-Appends :
    {A : Type 0} (d : Docker) (c : Call) (answer : List Call → A) → Appends (call d c answer)
call-Appends d c answer log = (effect_of c, call-effects d c answer log)

pub call-IsQuiet :
    {A : Type 0} (d : Docker) (c : Call) (answer : List Call → A)
    → effect_of c ≡ []
    → IsQuiet (call d c answer)
call-IsQuiet d c answer e log = call-effects d c answer log ∙ rw e (append-nil (effects log))

IsQuiet-Appends : {A : Type 0} (m : M A) → IsQuiet m → Appends m
IsQuiet-Appends m q log = ([], rw (q log) (sym (append-nil (effects log))))

pub continue_with-Appends :
    {A B : Type 0} (f : A → M B) (r : Outcome A × List Call)
    → ((a : A) → Appends (f a))
    → (new : List Effect) × (effects (continue_with f r).1 ≡ effects r.1 ++ new)
continue_with-Appends f (ok a, log) h = h a log
continue_with-Appends f (throw e, log) h = ([], sym (append-nil (effects log)))
continue_with-Appends f (stuck, log) h = ([], sym (append-nil (effects log)))

bind-Appends :
    {A B : Type 0} (m : M A) (f : A → M B)
    → Appends m
    → ((a : A) → Appends (f a))
    → Appends (m >>= f)
bind-Appends m f h k log =
    let first = h log in
    let second = continue_with-Appends f (m log) k in
    (first.0 ++ second.0, second.1 ∙ rw first.1 (append_assoc (effects log) first.0 second.0))

continue_with-IsQuiet :
    {A B : Type 0} (f : A → M B) (r : Outcome A × List Call)
    → ((a : A) → IsQuiet (f a))
    → effects (continue_with f r).1 ≡ effects r.1
continue_with-IsQuiet f (ok a, log) h = h a log
continue_with-IsQuiet f (throw e, log) h = refl
continue_with-IsQuiet f (stuck, log) h = refl

pub bind-IsQuiet :
    {A B : Type 0} (m : M A) (f : A → M B)
    → IsQuiet m
    → ((a : A) → IsQuiet (f a))
    → IsQuiet (m >>= f)
bind-IsQuiet m f h k log = continue_with-IsQuiet f (m log) k ∙ h log

caught_log : {A : Type 0} (r : Outcome A × List Call) → (caught r).1 ≡ r.1
caught_log (ok a, log) = refl
caught_log (throw e, log) = refl
caught_log (stuck, log) = refl

pub attempt-IsQuiet : {A : Type 0} (m : M A) → IsQuiet m → IsQuiet (attempt m)
unfolding attempt
attempt-IsQuiet m q log = rw (caught_log (m log)) (q log)

pure-IsQuiet : {A : Type 0} (a : A) → IsQuiet (pure a)
pure-IsQuiet a log = refl

stop_and_remove-Appends : (d : Docker) (id : String) → Appends (stop_and_remove d id)
unfolding stop_and_remove
stop_and_remove-Appends d id =
    bind-Appends (attempt (call d (stop_container id) void))
      (λ _. call d (remove_container id) void)
      (IsQuiet-Appends (attempt (call d (stop_container id) void)) (
        attempt-IsQuiet (call d (stop_container id) void)
          (call-IsQuiet d (stop_container id) void refl)))
      (λ _. call-Appends d (remove_container id) void)

create_and_start-Appends :
    (d : Docker) (spec : RawContainerRecreateSpec) → Appends (create_and_start d spec)
unfolding create_and_start
create_and_start-Appends d spec =
    bind-Appends (call d (create_container spec) d.created_id)
      (λ id. call d (start_container id) void >> pure id)
      (call-Appends d (create_container spec) d.created_id)
      (λ id.
        bind-Appends (call d (start_container id) void) (λ _. pure id)
          (call-Appends d (start_container id) void)
          (λ _. IsQuiet-Appends (pure id) (pure-IsQuiet id)))

poll_on-IsQuiet :
    (d : Docker) (deadline : ℕ) (health : Option String) (next : M Bool)
    → IsQuiet next
    → IsQuiet (poll_on d deadline health next)
poll_on-IsQuiet d deadline health next q log =
    let later = (call d (delay health_poll_interval_ms) void >> next) log in
    if_ind (λ r. effects r.1 ≡ effects log) (is_healthy health) (ok true, log)
      (if leb deadline (d.clock log) then (ok false, log) else later) (λ _. refl)
      (λ _.
        if_ind (λ r. effects r.1 ≡ effects log) (leb deadline (d.clock log)) (ok false, log) later
          (λ _. refl)
          (λ _.
            bind-IsQuiet (call d (delay health_poll_interval_ms) void) (λ _. next)
              (call-IsQuiet d (delay health_poll_interval_ms) void refl) (λ _. q) log))

poll-IsQuiet : (d : Docker) (id : String) (deadline fuel : ℕ) → IsQuiet (poll d id deadline fuel)
unfolding poll
poll-IsQuiet d id deadline zero log = refl
poll-IsQuiet d id deadline (suc fuel) log =
    bind-IsQuiet (call d (inspect_container id) d.health)
      (λ health. poll_on d deadline health (poll d id deadline fuel))
      (call-IsQuiet d (inspect_container id) d.health refl)
      (λ health later.
        poll_on-IsQuiet d deadline health (poll d id deadline fuel)
          (poll-IsQuiet d id deadline fuel) later)
      log

wait_for_healthy-IsQuiet :
    (d : Docker) (fuel : ℕ) (id : String) → IsQuiet (wait_for_healthy d fuel id)
unfolding wait_for_healthy
wait_for_healthy-IsQuiet d fuel id log =
    poll-IsQuiet d id (d.clock log + health_poll_timeout_ms) fuel log

abbrev pub recreated : String → Bool → Recreated
recreated new_id healthy = record { new_id = new_id; healthy = healthy }

recreate_and_wait_healthy-Appends :
    (d : Docker) (fuel : ℕ) (id : String) (spec : RawContainerRecreateSpec)
    → Appends (recreate_and_wait_healthy d fuel id spec)
unfolding recreate_and_wait_healthy
recreate_and_wait_healthy-Appends d fuel id spec =
    bind-Appends (stop_and_remove d id)
      (λ _. create_and_start d spec >>= λ new_id.
        wait_for_healthy d fuel new_id >>= λ healthy. pure (recreated new_id healthy))
      (stop_and_remove-Appends d id)
      (λ _.
        bind-Appends (create_and_start d spec)
          (λ new_id. wait_for_healthy d fuel new_id >>= λ healthy. pure (recreated new_id healthy))
          (create_and_start-Appends d spec)
          (λ new_id.
            IsQuiet-Appends
              (wait_for_healthy d fuel new_id >>= λ healthy. pure (recreated new_id healthy))
              (bind-IsQuiet (wait_for_healthy d fuel new_id)
                (λ healthy. pure (recreated new_id healthy))
                (wait_for_healthy-IsQuiet d fuel new_id)
                (λ healthy. pure-IsQuiet (recreated new_id healthy)))))

put_back-Appends :
    (d : Docker) (new_id : String) (plan : RawContainerRecreateSpec)
    → Appends (put_back d new_id plan)
unfolding put_back
put_back-Appends d new_id plan =
    bind-Appends (stop_and_remove d new_id) (λ _. create_and_start d plan >>= λ _. pure tt)
      (stop_and_remove-Appends d new_id)
      (λ _.
        bind-Appends (create_and_start d plan) (λ _. pure tt) (create_and_start-Appends d plan)
          (λ _. IsQuiet-Appends (pure tt) (pure-IsQuiet tt)))

write_done-IsQuiet :
    (d : Docker) (verdict : Verdict) (from : Option String) (to : String) (at : Option FailedAt)
    (reason : Option String)
    → IsQuiet (write d (done verdict from to at reason))
write_done-IsQuiet d verdict from to at reason =
    call-IsQuiet d (write_result_file (done verdict from to at reason)) void refl

-- What ends an update: the report is written, and the outcome returned.
pub ending-IsQuiet :
    (d : Docker) (verdict : Verdict) (from : Option String) (to : String) (at : Option FailedAt)
    (reason : Option String) (outcome : UpdaterOutcome)
    → IsQuiet (write d (done verdict from to at reason) >> pure outcome)
ending-IsQuiet d verdict from to at reason outcome =
    bind-IsQuiet (write d (done verdict from to at reason)) (λ _. pure outcome)
      (write_done-IsQuiet d verdict from to at reason) (λ _. pure-IsQuiet outcome)

roll_back_server-Appends :
    (d : Docker) (target : UpdaterTarget) (c : Captured) (server_new : String)
    → Appends (roll_back_server d target c server_new)
unfolding roll_back_server
roll_back_server-Appends d target c server_new =
    bind-Appends (put_back d server_new c.server_plan)
      (λ _. report d target c server_health server_unhealthy)
      (put_back-Appends d server_new c.server_plan)
      (λ _. IsQuiet-Appends (report d target c server_health server_unhealthy) (
        ending-IsQuiet d rolled_back c.from_version (version_from_reference target.server_image_ref)
          (some server_health) (some server_unhealthy) (undone server_unhealthy)))

roll_back_both-Appends :
    (d : Docker) (target : UpdaterTarget) (c : Captured) (server_new broker_new : String)
    → Appends (roll_back_both d target c server_new broker_new)
unfolding roll_back_both
roll_back_both-Appends d target c server_new broker_new =
    bind-Appends (put_back d server_new c.server_plan)
      (λ _. put_back d broker_new c.broker_plan >>= λ _.
        report d target c broker_health broker_unhealthy)
      (put_back-Appends d server_new c.server_plan)
      (λ _.
        bind-Appends (put_back d broker_new c.broker_plan)
          (λ _. report d target c broker_health broker_unhealthy)
          (put_back-Appends d broker_new c.broker_plan)
          (λ _. IsQuiet-Appends (report d target c broker_health broker_unhealthy) (
            ending-IsQuiet d rolled_back c.from_version
              (version_from_reference target.server_image_ref) (some broker_health)
              (some broker_unhealthy) (undone broker_unhealthy))))

conclude-IsQuiet :
    (d : Docker) (target : UpdaterTarget) (c : Captured) → IsQuiet (conclude d target c)
unfolding conclude
conclude-IsQuiet d target c =
    ending-IsQuiet d Verdict.succeeded c.from_version
      (version_from_reference target.server_image_ref) none none success

-- Either of two parts.
if-Appends :
    {A : Type 0} (b : Bool) (m n : M A) → Appends m → Appends n → Appends (if b then m else n)
if-Appends b m n h k = if_ind Appends b m n (λ _. h) (λ _. k)

swap_broker-Appends :
    (d : Docker) (fuel : ℕ) (target : UpdaterTarget) (c : Captured) (broker_id server_new : String)
    → Appends (swap_broker d fuel target c broker_id server_new)
unfolding swap_broker
swap_broker-Appends d fuel target c broker_id server_new =
    bind-Appends (recreate_and_wait_healthy d fuel broker_id (broker_spec target c))
      (after_broker d target c server_new)
      (recreate_and_wait_healthy-Appends d fuel broker_id (broker_spec target c))
      (λ r.
        if-Appends r.healthy (conclude d target c) (roll_back_both d target c server_new r.new_id)
          (IsQuiet-Appends (conclude d target c) (conclude-IsQuiet d target c))
          (roll_back_both-Appends d target c server_new r.new_id))

pub swap_server-Appends :
    (d : Docker) (fuel : ℕ) (target : UpdaterTarget) (c : Captured) (server_id broker_id : String)
    → Appends (swap_server d fuel target c server_id broker_id)
unfolding swap_server
swap_server-Appends d fuel target c server_id broker_id =
    bind-Appends (recreate_and_wait_healthy d fuel server_id (server_spec target c))
      (after_server d fuel target c broker_id)
      (recreate_and_wait_healthy-Appends d fuel server_id (server_spec target c))
      (λ r.
        if-Appends r.healthy (swap_broker d fuel target c broker_id r.new_id)
          (roll_back_server d target c r.new_id)
          (swap_broker-Appends d fuel target c broker_id r.new_id)
          (roll_back_server-Appends d target c r.new_id))
