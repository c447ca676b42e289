-- ===== src/Broker/Updater/Events.antt =====
-- What a self-update did and learnt, in the order of its calls (apps/broker/src/self-update/updater.ts):
-- the calls of a log that did not throw, with Docker's answers.
use docker_webmail_gui.Broker.Resolver.{RawContainerListItem}
use docker_webmail_gui.Broker.Updater.Swap.{RawContainerRecreateSpec, RawImageConfig}
use docker_webmail_gui.Broker.Updater.Calls.{
  in_progress, Call, inspect_image_config, list_containers, inspect_for_recreate, remove_container,
  start_container, create_container, write_result_file, Docker, Outcome, ok, throw, stuck, M,
  continue_with, ◌>>=◌, pure, answered, call, caught, attempt,
}
use docker_webmail_gui.Common.{
  Bool, List, Option, String, ap, append-nil, append_assoc, if_ind, if◌then◌else◌, none, refl, some,
  sym, ◌++◌, ◌∙◌, ◌∷◌, ◌≡◌, [],
}

pub data Event : Type 0 where
  listed : List RawContainerListItem → Event
  inspected : String → RawContainerRecreateSpec → Event
  imaged : String → RawImageConfig → Event
  planned : RawContainerRecreateSpec → RawContainerRecreateSpec → Event
  removed started : String → Event
  created : RawContainerRecreateSpec → String → Event

-- The event of a call that did not throw, from the calls with it.
abbrev pub event_of : Docker → List Call → Call → List Event
event_of d log list_containers = listed (d.containers log) ∷ []
event_of d log (inspect_image_config image) = imaged image (d.image_config log) ∷ []
event_of d log (inspect_for_recreate id) = inspected id (d.spec log) ∷ []
event_of d log (remove_container id) = removed id ∷ []
event_of d log (start_container id) = started id ∷ []
event_of d log (create_container spec) = created spec (d.created_id log) ∷ []
event_of d log (write_result_file (in_progress v server broker)) = planned server broker ∷ []
event_of d log _ = []

abbrev event_unless : Docker → List Call → Call → Option String → List Event
event_unless d log c none = event_of d log c
event_unless d log c (some e) = []

abbrev event_at : Docker → List Call → Call → List Event
event_at d log c = event_unless d log c (d.error log)

unfoldable pub events_from : Docker → List Call → List Call → List Event
events_from d before [] = []
events_from d before (c ∷ log) =
    event_at d (before ++ c ∷ []) c ++ events_from d (before ++ c ∷ []) log

abbrev pub events : Docker → List Call → List Event
events d log = events_from d [] log

events_from-snoc :
    (d : Docker) (before log : List Call) (c : Call)
    → events_from d before (log ++ c ∷ [])
      ≡ events_from d before log ++ event_at d ((before ++ log) ++ c ∷ []) c
unfolding events_from
events_from-snoc d before [] c =
    rw (append-nil before) (append-nil (event_at d (before ++ c ∷ []) c))
events_from-snoc d before (b ∷ log) c =
    rw (events_from-snoc d (before ++ b ∷ []) log c, append_assoc before (b ∷ []) log)
      (sym
        (append_assoc (event_at d (before ++ b ∷ []) b) (events_from d (before ++ b ∷ []) log) _))

events-snoc :
    (d : Docker) (log : List Call) (c : Call)
    → events d (log ++ c ∷ []) ≡ events d log ++ event_at d (log ++ c ∷ []) c
events-snoc d log c = events_from-snoc d [] log c

abbrev pub silent : {A : Type 0} → A → List Event
silent a = []

module _ (d : Docker) where
  -- A part whose events, wherever it returns, fit its result.
  abbrev pub Yields : {A : Type 0} → M A → (A → List Event → Type 0) → Type 0
  Yields m T =
      (log : List Call)
      → (a : _) → (m log).0 ≡ ok a
      → (new : List Event) × T a new × (events d (m log).1 ≡ events d log ++ new)

  -- A part whose events, wherever it returns, are told by its result.
  abbrev pub Fixed : {A : Type 0} → M A → (A → List Event) → Type 0
  Fixed m E = Yields m (λ a. λ new. new ≡ E a)

  answered_log :
      {A : Type 0} (answer : List Call → A) (log : List Call) (o : Option String)
      → (answered answer log o).1 ≡ log
  answered_log answer log none = refl
  answered_log answer log (some e) = refl

  answered_event :
      {A : Type 0} (c : Call) (answer : List Call → A) (E : A → List Event) (log : List Call)
      (o : Option String) (a : A)
      → event_of d log c ≡ E (answer log)
      → (answered answer log o).0 ≡ ok a
      → event_unless d log c o ≡ E a
  answered_event c answer E log none a h e = let same : answer log ≡ a = cc in h ∙ ap E same
  answered_event c answer E log (some x) a h e = cc

  pub call-Fixed :
      {A : Type 0} (c : Call) (answer : List Call → A) (E : A → List Event)
      → ((log : List Call) → event_of d log c ≡ E (answer log))
      → Fixed (call d c answer) E
  unfolding call
  call-Fixed c answer E h log a e =
      let after = log ++ c ∷ [] in
      (
        E a,
        refl,
        ap (events d) (answered_log answer after (d.error after))
            ∙ events-snoc d log c
            ∙ ap (◌++◌ (events d log))
                (answered_event c answer E after (d.error after) a (h after) e),
      )

  caught_log :
      {A : Type 0} (answer : List Call → A) (log : List Call) (o : Option String)
      → (caught (answered answer log o)).1 ≡ log
  caught_log answer log none = refl
  caught_log answer log (some e) = refl

  caught_event :
      {A : Type 0} (c : Call) (answer : List Call → A) (E : Option A → List Event) (log : List Call)
      (o : Option String) (a : Option A)
      → event_of d log c ≡ E (some (answer log))
      → E none ≡ []
      → (caught (answered answer log o)).0 ≡ ok a
      → event_unless d log c o ≡ E a
  caught_event c answer E log none a h k e = let same : some (answer log) ≡ a = cc in h ∙ ap E same
  caught_event c answer E log (some x) a h k e = let same : none ≡ a = cc in sym k ∙ ap E same

  pub attempt-Fixed :
      {A : Type 0} (c : Call) (answer : List Call → A) (E : Option A → List Event)
      → ((log : List Call) → event_of d log c ≡ E (some (answer log)))
      → E none ≡ []
      → Fixed (attempt (call d c answer)) E
  unfolding call attempt
  attempt-Fixed c answer E h k log a e =
      let after = log ++ c ∷ [] in
      (
        E a,
        refl,
        ap (events d) (caught_log answer after (d.error after))
            ∙ events-snoc d log c
            ∙ ap (◌++◌ (events d log))
                (caught_event c answer E after (d.error after) a (h after) k e),
      )

  continue_with-Yields :
      {A B : Type 0} (f : A → M B) (S : A → List Event → Type 0) (T : B → List Event → Type 0)
      (r : Outcome A × List Call) (base : List Event) (b : B)
      → ((a : A) → r.0 ≡ ok a → (new : List Event) × S a new × (events d r.1 ≡ base ++ new))
      → ((a : A) (new : List Event) → S a new → Yields (f a) (λ o. λ rest. T o (new ++ rest)))
      → (continue_with f r).0 ≡ ok b
      → (new : List Event) × T b new × (events d (continue_with f r).1 ≡ base ++ new)
  continue_with-Yields f S T (ok a, log) base b h k e =
      let x = h a refl in
      let y = k a x.0 x.1 log b e in (x.0 ++ y.0, y.1, y.2 ∙ rw x.2 (append_assoc base x.0 y.0))
  continue_with-Yields f S T (throw x, log) base b h k e = cc
  continue_with-Yields f S T (stuck, log) base b h k e = cc

  pub bind-Yields :
      {A B : Type 0} (m : M A) (f : A → M B) (S : A → List Event → Type 0)
      (T : B → List Event → Type 0)
      → Yields m S
      → ((a : A) (new : List Event) → S a new → Yields (f a) (λ o. λ rest. T o (new ++ rest)))
      → Yields (m >>= f) T
  bind-Yields m f S T h k log b e = continue_with-Yields f S T (m log) (events d log) b (h log) k e

  pub bind-Fixed :
      {A B : Type 0} (m : M A) (f : A → M B) (E : A → List Event) (T : B → List Event → Type 0)
      → Fixed m E
      → ((a : A) → Yields (f a) (λ o. λ rest. T o (E a ++ rest)))
      → Yields (m >>= f) T
  bind-Fixed m f E T h k = bind-Yields m f (λ a. λ new. new ≡ E a) T h (λ a new same. rw same (k a))

  pub pure-Yields : {A : Type 0} (o : A) (T : A → List Event → Type 0) → T o [] → Yields (pure o) T
  pure-Yields o T t log a e =
      let same : a ≡ o = cc in ([], rw same t, sym (append-nil (events d log)))

  pub if-Yields :
      {A : Type 0} (b : Bool) (m n : M A) (T : A → List Event → Type 0)
      → Yields m T
      → Yields n T
      → Yields (if b then m else n) T
  if-Yields b m n T h k = if_ind (λ part. Yields part T) b m n (λ _. h) (λ _. k)

  -- A part without events, however it ends.
  abbrev pub IsQuiet : {A : Type 0} → M A → Type 0
  IsQuiet m = (log : List Call) → events d (m log).1 ≡ events d log

  silent_event :
      (c : Call) (log : List Call) (o : Option String)
      → event_of d log c ≡ []
      → event_unless d log c o ≡ []
  silent_event c log none h = h
  silent_event c log (some e) h = refl

  pub call-IsQuiet :
      {A : Type 0} (c : Call) (answer : List Call → A)
      → ((log : List Call) → event_of d log c ≡ [])
      → IsQuiet (call d c answer)
  unfolding call
  call-IsQuiet c answer h log =
      let after = log ++ c ∷ [] in
      ap (events d) (answered_log answer after (d.error after))
      ∙ events-snoc d log c
      ∙ rw (silent_event c after (d.error after) (h after)) (append-nil (events d log))

  continue_with-IsQuiet :
      {A B : Type 0} (f : A → M B) (r : Outcome A × List Call)
      → ((a : A) → IsQuiet (f a))
      → events d (continue_with f r).1 ≡ events d r.1
  continue_with-IsQuiet f (ok a, log) h = h a log
  continue_with-IsQuiet f (throw e, log) h = refl
  continue_with-IsQuiet f (stuck, log) h = refl

  pub bind-IsQuiet :
      {A B : Type 0} (m : M A) (f : A → M B)
      → IsQuiet m
      → ((a : A) → IsQuiet (f a))
      → IsQuiet (m >>= f)
  bind-IsQuiet m f h k log = continue_with-IsQuiet f (m log) k ∙ h log
