-- ===== src/Broker/Updater/Swap.antt =====
-- The new container's specification: apps/broker/src/self-update/image-swap-spec.ts. Docker's opaque
-- objects are texts that are passed through; a record of labels is a list of pairs.
use docker_webmail_gui.Broker.Resolver.{split_label, label_is}
use docker_webmail_gui.Broker.Updater.ImageRefs.{without_prefix}
use docker_webmail_gui.Common.{
  Bool, List, Option, String, any, false, filter, if◌then◌else◌, none, not, some, true, ◌&&◌, ◌==s◌,
  ◌∷◌, [],
}

pub record RawContainerRecreateSpec : Type 0 where
  pub name : String
  pub image : String
  pub env : List String
  pub labels : List (String × String)
  pub cmd : Option (List String)
  pub host_config : String
  pub networking_config : String

pub record RawImageConfig : Type 0 where
  pub id : String
  pub env : List String
  pub labels : List (String × String)
  pub cmd : Option (List String)

abbrev pub has_text : List String → String → Bool
has_text xs x = any (λ y. y ==s x) xs

abbrev pub image_provenance_env_keys : List String
image_provenance_env_keys =
    "DWG_VERSION" ∷ "DWG_IMAGE_ORIGIN" ∷ "NODE_VERSION" ∷ "YARN_VERSION" ∷ []

abbrev pub env_key : String → String
env_key entry = (split_label entry).0

abbrev pub image_env : Option RawImageConfig → List String
image_env none = []
image_env (some image) = image.env

abbrev pub image_labels : Option RawImageConfig → List (String × String)
image_labels none = []
image_labels (some image) = image.labels

abbrev pub keeps_entry : Option RawImageConfig → String → Bool
keeps_entry old entry =
    not (has_text image_provenance_env_keys (env_key entry)) && not (has_text (image_env old) entry)

unfoldable pub without_image_inherited_env : List String → Option RawImageConfig → List String
without_image_inherited_env env old = filter (keeps_entry old) env

abbrev pub is_some : Option String → Bool
is_some none = false
is_some (some _) = true

abbrev pub is_provenance_label : String → Bool
is_provenance_label key = is_some (without_prefix "org.opencontainers.image." key)

abbrev pub keeps_label : Option RawImageConfig → String × String → Bool
keeps_label old (key, value) =
    not (is_provenance_label key) && not (label_is (image_labels old) key value)

unfoldable pub without_image_inherited_labels :
    List (String × String) → Option RawImageConfig → List (String × String)
without_image_inherited_labels labels old = filter (keeps_label old) labels

abbrev pub same_argv : List String → List String → Bool
same_argv [] [] = true
same_argv [] (b ∷ bs) = false
same_argv (a ∷ as_) [] = false
same_argv (a ∷ as_) (b ∷ bs) = (a ==s b) && same_argv as_ bs

abbrev pub cmd_without : Option (List String) → Option (List String) → Option (List String)
cmd_without none image = none
cmd_without (some argv) none = some argv
cmd_without (some argv) (some image) = if same_argv argv image then none else some argv

abbrev image_cmd : Option RawImageConfig → Option (List String)
image_cmd none = none
image_cmd (some image) = image.cmd

unfoldable pub without_image_inherited_cmd :
    Option (List String) → Option RawImageConfig → Option (List String)
without_image_inherited_cmd cmd old = cmd_without cmd (image_cmd old)

unfoldable pub build_image_swap_spec :
    RawContainerRecreateSpec → Option RawImageConfig → String → RawContainerRecreateSpec
unfolding without_image_inherited_env without_image_inherited_labels without_image_inherited_cmd
build_image_swap_spec captured old target = record captured {
  image = target;
  env = without_image_inherited_env captured.env old;
  labels = without_image_inherited_labels captured.labels old;
  cmd = without_image_inherited_cmd captured.cmd old;
}
