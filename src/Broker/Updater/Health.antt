-- ===== src/Broker/Updater/Health.antt =====
-- The health poll, and the end of a self-update (apps/broker/src/self-update/updater.ts).
use docker_webmail_gui.Broker.Updater.{
  void, poll_on, poll, wait_for_healthy, health_poll_interval_ms, health_poll_timeout_ms,
  is_healthy,
}
use docker_webmail_gui.Broker.Updater.Calls.{
  Call, inspect_container, delay, Docker, Outcome, ok, throw, stuck, M, continue_with, ◌>>◌, call,
}
use docker_webmail_gui.Common.{
  Bool, List, Option, Option-cases, String, arith, false, if_ind, if◌then◌else◌, inl, inr, leb,
  leb-false→lt, leb→le, refl, suc, true, zero, ℕ, ◌*◌, ◌++◌, ◌+◌, ◌<◌, ◌∙◌, ◌∷◌, ◌≡◌, ◌≤◌, [],
}

-- A call, by whether it throws.
pub call_ind :
    {A : Type 0} (d : Docker) (c : Call) (answer : List Call → A) (log : List Call)
    (P : Outcome A × List Call → Type 0)
    → ((e : String) → P (throw e, log ++ c ∷ []))
    → P (ok (answer (log ++ c ∷ [])), log ++ c ∷ [])
    → P (call d c answer log)
unfolding call
call_ind d c answer log P h k = elim (Option-cases (d.error (log ++ c ∷ []))) [
  | inl e ↦ rw e k
  | inr (x, e) ↦ rw e (h x)
]

-- What the poll's answer says of the calls so far: an inspection was the last, and it showed a healthy
-- container; or one that was not, at or after the deadline.
abbrev pub PollVerdict : Docker → String → ℕ → Bool → List Call → Type 0
PollVerdict d id deadline healthy log =
    (before : List Call) × (log ≡ before ++ inspect_container id ∷ [])
    × (is_healthy (d.health log) ≡ healthy)
    × ((healthy ≡ false) → deadline ≤ d.clock log)

poll_on-PollVerdict :
    (d : Docker) (id : String) (deadline : ℕ) (before : List Call) (next : M Bool) (b : Bool)
    → ((log : List Call) → (next log).0 ≡ ok b → PollVerdict d id deadline b (next log).1)
    → let log = before ++ inspect_container id ∷ [] in
      let r = poll_on d deadline (d.health log) next log in
      r.0 ≡ ok b → PollVerdict d id deadline b r.1
poll_on-PollVerdict d id deadline before next b h =
    let log = before ++ inspect_container id ∷ [] in
    let later = (call d (delay health_poll_interval_ms) void >> next) log in
    if_ind (λ r. r.0 ≡ ok b → PollVerdict d id deadline b r.1) (is_healthy (d.health log))
      (ok true, log) (if leb deadline (d.clock log) then (ok false, log) else later)
      (λ healthy e. let same : true ≡ b = cc in (before, refl, healthy ∙ same, λ f. cc))
      (λ sick.
        if_ind (λ r. r.0 ≡ ok b → PollVerdict d id deadline b r.1) (leb deadline (d.clock log))
          (ok false, log) later
          (λ late e.
            let same : false ≡ b = cc in
            (before, refl, sick ∙ same, λ f. leb→le deadline (d.clock log) late))
          (λ early.
            call_ind d (delay health_poll_interval_ms) void log
              (λ r.
                (continue_with (λ _. next) r).0 ≡ ok b
                → PollVerdict d id deadline b (continue_with (λ _. next) r).1)
              (λ x e. cc) (λ e. h (log ++ delay health_poll_interval_ms ∷ []) e)))

poll-PollVerdict :
    (d : Docker) (id : String) (deadline fuel : ℕ) (log : List Call) (b : Bool)
    → (poll d id deadline fuel log).0 ≡ ok b
    → PollVerdict d id deadline b (poll d id deadline fuel log).1
unfolding poll
poll-PollVerdict d id deadline zero log b e = cc
poll-PollVerdict d id deadline (suc fuel) log b e =
    call_ind d (inspect_container id) d.health log
      (λ r.
        (continue_with (λ health. poll_on d deadline health (poll d id deadline fuel)) r).0 ≡ ok b
        → PollVerdict d id deadline b
            (continue_with (λ health. poll_on d deadline health (poll d id deadline fuel)) r).1)
      (λ x e. cc)
      (poll_on-PollVerdict d id deadline log (poll d id deadline fuel) b
        (λ later. poll-PollVerdict d id deadline fuel later b))
      e

-- Where the wait for a container's health returns an answer, the last call was an inspection of that
-- container, which showed it healthy exactly if the answer is yes; and a no came no earlier than the
-- timeout after the start.
pub wait_for_healthy-PollVerdict :
    (d : Docker) (fuel : ℕ) (id : String) (log : List Call) (healthy : Bool)
    → (wait_for_healthy d fuel id log).0 ≡ ok healthy
    → PollVerdict d id
        (d.clock log + health_poll_timeout_ms)
        healthy
        (wait_for_healthy d fuel id log).1
unfolding wait_for_healthy
wait_for_healthy-PollVerdict d fuel id log healthy e =
    poll-PollVerdict d id (d.clock log + health_poll_timeout_ms) fuel log healthy e

-- A clock that does not go back, and goes on by at least what a delay waits.
abbrev pub Ticks : Docker → Type 0
Ticks d =
    ((log : List Call) (c : Call) → d.clock log ≤ d.clock (log ++ c ∷ []))
    × ((log : List Call) (ms : ℕ) → d.clock log + ms ≤ d.clock (log ++ delay ms ∷ []))

abbrev pub is_stuck : {A : Type 0} → Outcome A → Bool
is_stuck (ok a) = false
is_stuck (throw e) = false
is_stuck stuck = true

poll_on_settled :
    (d : Docker) (deadline : ℕ) (health : Option String) (next : M Bool) (log : List Call)
    → (d.clock log < deadline
        → is_stuck (next (log ++ delay health_poll_interval_ms ∷ [])).0 ≡ false)
    → is_stuck (poll_on d deadline health next log).0 ≡ false
poll_on_settled d deadline health next log h =
    let later = (call d (delay health_poll_interval_ms) void >> next) log in
    if_ind (λ r. is_stuck r.0 ≡ false) (is_healthy health) (ok true, log)
      (if leb deadline (d.clock log) then (ok false, log) else later) (λ _. refl)
      (λ _.
        if_ind (λ r. is_stuck r.0 ≡ false) (leb deadline (d.clock log)) (ok false, log) later
          (λ _. refl)
          (λ early.
            call_ind d (delay health_poll_interval_ms) void log
              (λ r. is_stuck (continue_with (λ _. next) r).0 ≡ false) (λ x. refl)
              (h (leb-false→lt deadline (d.clock log) early))))

poll_settled :
    (d : Docker) (id : String) (deadline fuel : ℕ) (log : List Call)
    → Ticks d
    → deadline ≤ d.clock log + health_poll_interval_ms * fuel
    → is_stuck (poll d id deadline (suc fuel) log).0 ≡ false
unfolding poll
poll_settled d id deadline zero log t h =
    let later = log ++ inspect_container id ∷ [] in
    let tick = t.0 log (inspect_container id) in
    call_ind d (inspect_container id) d.health log
      (λ r.
        is_stuck (continue_with (λ health. poll_on d deadline health (poll d id deadline zero)) r).0
        ≡ false)
      (λ x. refl)
      (poll_on_settled d deadline (d.health later) (poll d id deadline zero) later
        (λ early. ground arith))
poll_settled d id deadline (suc fuel) log t h =
    let later = log ++ inspect_container id ∷ [] in
    let tick = t.0 log (inspect_container id) in
    let wait = t.1 later health_poll_interval_ms in
    call_ind d (inspect_container id) d.health log
      (λ r.
        is_stuck
          (continue_with (λ health. poll_on d deadline health (poll d id deadline (suc fuel))) r).0
        ≡ false)
      (λ x. refl)
      (poll_on_settled d deadline (d.health later) (poll d id deadline (suc fuel)) later (λ early.
        poll_settled d id deadline fuel (later ++ delay health_poll_interval_ms ∷ []) t
          (omega arith)))

pub wait_for_healthy_settled :
    (d : Docker) (fuel : ℕ) (id : String) (log : List Call)
    → Ticks d
    → 45 ≤ fuel
    → is_stuck (wait_for_healthy d (suc fuel) id log).0 ≡ false
unfolding wait_for_healthy
wait_for_healthy_settled d fuel id log t h =
    poll_settled d id (d.clock log + health_poll_timeout_ms) fuel log t (omega arith)
