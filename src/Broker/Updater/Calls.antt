-- ===== src/Broker/Updater/Calls.antt =====
-- The updater's calls of Docker and of its environment (apps/broker/src/docker-types.ts, and the
-- dependencies of apps/broker/src/self-update/updater.ts). What Docker answers, and whether a call
-- throws, is an argument: a function of all calls so far, the present one last.
use docker_webmail_gui.Broker.Resolver.{RawContainerListItem}
use docker_webmail_gui.Broker.StaleImages.{RawImage}
use docker_webmail_gui.Broker.Updater.Swap.{RawContainerRecreateSpec, RawImageConfig}
use docker_webmail_gui.Common.{
  List, Option, String, append-nil, append_assoc, none, some, ℕ, ◌++◌, ◌∷◌, ◌≡◌, [],
}

pub data Verdict : Type 0 where
  succeeded rolled_back failed : Verdict

pub data FailedAt : Type 0 where
  pre_flight server_health broker_health : FailedAt

pub data SelfUpdateResultFile : Type 0 where
  in_progress : String → RawContainerRecreateSpec → RawContainerRecreateSpec → SelfUpdateResultFile
  done : Verdict → Option String → String → Option FailedAt → Option String → SelfUpdateResultFile

pub data Call : Type 0 where
  pull_image inspect_image_config : String → Call
  list_containers list_images : Call
  inspect_for_recreate inspect_container stop_container remove_container start_container :
      String → Call
  create_container : RawContainerRecreateSpec → Call
  write_result_file : SelfUpdateResultFile → Call
  delay : ℕ → Call

pub record Docker : Type 0 where
  pub error : List Call → Option String
  pub containers : List Call → List RawContainerListItem
  pub images : List Call → List RawImage
  pub spec : List Call → RawContainerRecreateSpec
  pub image_config : List Call → RawImageConfig
  pub created_id : List Call → String
  pub health : List Call → Option String
  pub clock : List Call → ℕ

-- A result, an exception, or fuel that ran out.
pub data Outcome (A : Type 0) : Type 0 where
  ok : A → Outcome A
  throw : String → Outcome A
  stuck : Outcome A

abbrev pub M : Type 0 → Type 0
M A = List Call → Outcome A × List Call

abbrev pub continue_with :
    {A B : Type 0} → (A → M B) → Outcome A × List Call → Outcome B × List Call
continue_with f (ok a, log) = f a log
continue_with f (throw e, log) = (throw e, log)
continue_with f (stuck, log) = (stuck, log)

infixl 5 ◌>>=◌ ◌>>◌
abbrev pub ◌>>=◌ : {A B : Type 0} → M A → (A → M B) → M B
◌>>=◌ m f log = continue_with f (m log)

abbrev pub ◌>>◌ : {B : Type 0} → M (Unit {0}) → M B → M B
m >> k = m >>= λ _. k

abbrev pub pure : {A : Type 0} → A → M A
pure a log = (ok a, log)

abbrev pub answered :
    {A : Type 0} → (List Call → A) → List Call → Option String → Outcome A × List Call
answered answer log none = (ok (answer log), log)
answered answer log (some e) = (throw e, log)

unfoldable pub call : {A : Type 0} → Docker → Call → (List Call → A) → M A
call d c answer log = answered answer (log ++ c ∷ []) (d.error (log ++ c ∷ []))

-- `try { ... } catch {}`
abbrev pub caught : {A : Type 0} → Outcome A × List Call → Outcome (Option A) × List Call
caught (ok a, log) = (ok (some a), log)
caught (throw e, log) = (ok none, log)
caught (stuck, log) = (stuck, log)

unfoldable pub attempt : {A : Type 0} → M A → M (Option A)
attempt m log = caught (m log)

-- The calls that change what runs on the host, or record how to undo it.
pub data Effect : Type 0 where
  planned : RawContainerRecreateSpec → RawContainerRecreateSpec → Effect
  removed : String → Effect
  created : RawContainerRecreateSpec → Effect

abbrev pub effect_of : Call → List Effect
effect_of (remove_container id) = removed id ∷ []
effect_of (create_container spec) = created spec ∷ []
effect_of (write_result_file (in_progress v server broker)) = planned server broker ∷ []
effect_of _ = []

unfoldable pub effects : List Call → List Effect
effects [] = []
effects (c ∷ log) = effect_of c ++ effects log

pub effects-snoc :
    (log : List Call) (c : Call) → effects (log ++ c ∷ []) ≡ effects log ++ effect_of c
unfolding effects
effects-snoc [] c = append-nil (effect_of c)
effects-snoc (b ∷ log) c = rw (effects-snoc log c, append_assoc)
