-- ===== src/Broker/Updater/Inherited.antt =====
-- What goes from a container and its old image into the new container
-- (apps/broker/src/self-update/image-swap-spec.ts).
use mathlib.Core.Bool.{and-false}
use docker_webmail_gui.Broker.Resolver.{label_is, split_label}
use docker_webmail_gui.Broker.Updater.ImageRefs.{without_prefix}
use docker_webmail_gui.Broker.Updater.Swap.{
  RawContainerRecreateSpec, RawImageConfig, has_text, keeps_entry, keeps_label, is_some,
  image_provenance_env_keys, env_key, is_provenance_label, same_argv, cmd_without,
  without_image_inherited_env, without_image_inherited_labels, without_image_inherited_cmd,
  build_image_swap_spec,
}
use docker_webmail_gui.Common.{
  Bool, Bool-cases, List, Option, String, all, ap, arith, codes, eq_iff, false, filter,
  if◌then◌else◌, inl, inr, none, not, refl, some, starts_with, sym, true, ◌&&◌, ◌==s◌, ◌∙◌, ◌∷◌,
  ◌≡◌, ◌⊎◌, [],
}

abbrev pub IsAmongTexts : String → List String → Type 0
IsAmongTexts x [] = ⊥
IsAmongTexts x (y ∷ ys) = (x ≡ y) ⊎ IsAmongTexts x ys

-- The key that an entry of an environment has, for an image's own account of itself.
abbrev pub IsProvenance : String → Type 0
IsProvenance key =
    (key ≡ "DWG_VERSION")
    ⊎ (key ≡ "DWG_IMAGE_ORIGIN")
    ⊎ (key ≡ "NODE_VERSION")
    ⊎ (key ≡ "YARN_VERSION")

-- An entry of the environment that came from the image, or names what the image is.
abbrev pub IsImageEntry : RawImageConfig → String → Type 0
IsImageEntry image entry = IsAmongTexts entry image.env ⊎ IsProvenance (split_label entry).0

-- The value that a record of labels has for a key.
abbrev pub label_of : List (String × String) → String → Option String
label_of [] key = none
label_of ((k, v) ∷ labels) key =
    let more = label_of labels key in if k ==s key then some v else more

abbrev pub IsImageLabel : RawImageConfig → String × String → Type 0
IsImageLabel image (key, value) =
    (label_of image.labels key ≡ some value)
    ⊎ (starts_with (codes "org.opencontainers.image.") (codes key) ≡ true)

-- A list that is made of members with a property, which are left out, and of the others, in their order.
pub data Without {A : Type 0} (P : A → Type 0) : List A → List A → Type 0 where
  at_end : Without P [] []
  left_out : (x : A) (all own : List A) → P x → Without P all own → Without P (x ∷ all) own
  stays : (x : A) (all own : List A) → (P x → ⊥) → Without P all own → Without P (x ∷ all) (x ∷ own)

filter-Without :
    {A : Type 0} (P : A → Type 0) (p : A → Bool) (all own : List A)
    → ((x : A) → P x → p x ≡ false)
    → ((x : A) → (P x → ⊥) → p x ≡ true)
    → Without P all own
    → filter p all ≡ own
filter-Without P p _ _ out in_ at_end = refl
filter-Without P p _ _ out in_ (left_out x all own h w) =
    rw (filter, out x h) (filter-Without P p all own out in_ w)
filter-Without P p _ _ out in_ (stays x all own h w) =
    rw (filter, in_ x h) (ap (◌∷◌ x) (filter-Without P p all own out in_ w))

pub has_text-among : (xs : List String) (x : String) → IsAmongTexts x xs → has_text xs x ≡ true
has_text-among [] x h = elim h [ ]
has_text-among (y ∷ ys) x (inl same) = rw ((eq_iff y x).1 (sym same)) refl
has_text-among (y ∷ ys) x (inr more) = let rest = has_text-among ys x more in ground arith

pub among-has_text : (xs : List String) (x : String) → has_text xs x ≡ true → IsAmongTexts x xs
among-has_text [] x h = cc
among-has_text (y ∷ ys) x h = elim (Bool-cases (y ==s x)) [
  | inl e ↦ inl (sym ((eq_iff y x).0 e))
  | inr e ↦ inr (among-has_text ys x (rw e at h))
]

IsProvenance-has_text :
    (key : String) → IsProvenance key → has_text image_provenance_env_keys key ≡ true
IsProvenance-has_text key (inl e) = rw e refl
IsProvenance-has_text key (inr (inl e)) = rw e refl
IsProvenance-has_text key (inr (inr (inl e))) = rw e refl
IsProvenance-has_text key (inr (inr (inr e))) = rw e refl

has_text-IsProvenance :
    (key : String) → has_text image_provenance_env_keys key ≡ true → IsProvenance key
has_text-IsProvenance key h = elim (among-has_text image_provenance_env_keys key h) [
  | inl e ↦ inl e
  | inr (inl e) ↦ inr (inl e)
  | inr (inr (inl e)) ↦ inr (inr (inl e))
  | inr (inr (inr (inl e))) ↦ inr (inr (inr e))
  | inr (inr (inr (inr e))) ↦ elim e [ ]
]

image_entry :
    (image : RawImageConfig) (entry : String)
    → IsImageEntry image entry
    → keeps_entry (some image) entry ≡ false
image_entry image entry (inl h) =
    rw (has_text-among image.env entry h)
      (and-false (not (has_text image_provenance_env_keys (env_key entry))))
image_entry image entry (inr h) = rw (IsProvenance-has_text (env_key entry) h) refl

kept : (a b : Bool) → a ≡ false → b ≡ false → (not a && not b) ≡ true
kept a b h k = ground arith

refuted : (b : Bool) → (b ≡ true → ⊥) → b ≡ false
refuted true h = absurd (h refl)
refuted false h = refl

own_entry :
    (image : RawImageConfig) (entry : String)
    → (IsImageEntry image entry → ⊥)
    → keeps_entry (some image) entry ≡ true
own_entry image entry h =
    kept (has_text image_provenance_env_keys (env_key entry)) (has_text image.env entry)
      (refuted (has_text image_provenance_env_keys (env_key entry))
        (λ e. h (inr (has_text-IsProvenance (env_key entry) e))))
      (refuted (has_text image.env entry) (λ e. h (inl (among-has_text image.env entry e))))

label_is_of :
    (labels : List (String × String)) (key value : String)
    → label_of labels key ≡ some value
    → label_is labels key value ≡ true
label_is_of [] key value h = cc
label_is_of ((k, v) ∷ labels) key value h = elim (Bool-cases (k ==s key)) [
  | inl e ↦
      let found : some v ≡ some value = rw e at h in
      let same : v ≡ value = cc in rw e ((eq_iff v value).1 same)
  | inr e ↦ rw e (label_is_of labels key value (rw e at h))
]

label_of_is :
    (labels : List (String × String)) (key value : String)
    → label_is labels key value ≡ true
    → label_of labels key ≡ some value
label_of_is [] key value h = cc
label_of_is ((k, v) ∷ labels) key value h = elim (Bool-cases (k ==s key)) [
  | inl e ↦ rw e (ap some ((eq_iff v value).0 (rw e at h)))
  | inr e ↦ rw e (label_of_is labels key value (rw e at h))
]

is_some-without_prefix :
    (prefix s : String) → is_some (without_prefix prefix s) ≡ starts_with (codes prefix) (codes s)
unfolding without_prefix
is_some-without_prefix String.[] s = refl
is_some-without_prefix (String.◌∷◌ c p) String.[] = refl
is_some-without_prefix (String.◌∷◌ c p) (String.◌∷◌ d s) =
    ground (arith, is_some-without_prefix p s)

image_label :
    (image : RawImageConfig) (label : String × String)
    → IsImageLabel image label
    → keeps_label (some image) label ≡ false
image_label image (key, value) (inl h) =
    rw (label_is_of image.labels key value h) (and-false (not (is_provenance_label key)))
image_label image (key, value) (inr h) =
    rw (is_some-without_prefix "org.opencontainers.image." key ∙ h) refl

own_label :
    (image : RawImageConfig) (label : String × String)
    → (IsImageLabel image label → ⊥)
    → keeps_label (some image) label ≡ true
own_label image (key, value) h =
    kept (is_provenance_label key) (label_is image.labels key value)
      (refuted (is_provenance_label key)
        (λ e. h (inr (sym (is_some-without_prefix "org.opencontainers.image." key) ∙ e))))
      (refuted (label_is image.labels key value)
        (λ e. h (inl (label_of_is image.labels key value e))))

same_argv_same : (argv : List String) → same_argv argv argv ≡ true
same_argv_same [] = refl
same_argv_same (a ∷ argv) = rw ((eq_iff a a).1 refl) (same_argv_same argv)

same_argv-eq : (a b : List String) → same_argv a b ≡ true → a ≡ b
same_argv-eq [] [] h = refl
same_argv-eq [] (y ∷ b) h = cc
same_argv-eq (x ∷ a) [] h = cc
same_argv-eq (x ∷ a) (y ∷ b) h = ground (arith, eq_iff x y, same_argv-eq a b)

-- A command that is the image's own is left to the image, any other stays.
abbrev pub IsOwnCmd : Option (List String) → Option (List String) → Option (List String) → Type 0
IsOwnCmd captured image new =
    (captured ≡ image → new ≡ none) × ((captured ≡ image → ⊥) → new ≡ captured)

cmd-IsOwnCmd :
    (captured image : Option (List String)) → IsOwnCmd captured image (cmd_without captured image)
cmd-IsOwnCmd none image = (λ e. refl, λ e. refl)
cmd-IsOwnCmd (some argv) none = (λ e. cc, λ e. refl)
cmd-IsOwnCmd (some argv) (some other) = (
  λ e. let same : argv ≡ other = cc in rw (← same) (rw (same_argv_same argv) refl),
  λ differ.
      let apart : same_argv argv other ≡ false =
        refuted (same_argv argv other) (λ e. differ (ap some (same_argv-eq argv other e))) in
      rw apart refl,
)

-- The new container of a swap has, in their order, those entries of the captured environment that are not
-- the old image's and whose key is none of the four that name what an image is; those labels that the image
-- does not have with that value and that do not start as an image's do; no command where the captured one is
-- the image's, and the captured one elsewhere; the target image; and all else as captured.
pub build_image_swap_spec-own :
    (captured : RawContainerRecreateSpec) (image : RawImageConfig) (target : String)
    (own : List String) (own_labels : List (String × String))
    → Without (IsImageEntry image) captured.env own
    → Without (IsImageLabel image) captured.labels own_labels
    → let new = build_image_swap_spec captured (some image) target in
      (new ≡ record captured { image = target; env = own; labels = own_labels; cmd = new.cmd })
      × IsOwnCmd captured.cmd image.cmd new.cmd
unfolding build_image_swap_spec without_image_inherited_env without_image_inherited_labels
    without_image_inherited_cmd
build_image_swap_spec-own captured image target own own_labels env labels = (
  rw
      (
        filter-Without (IsImageEntry image) (keeps_entry (some image)) captured.env own
            (image_entry image) (own_entry image) env,
        filter-Without (IsImageLabel image) (keeps_label (some image)) captured.labels own_labels
            (image_label image) (own_label image) labels,
      )
      refl,
  cmd-IsOwnCmd captured.cmd image.cmd,
)
