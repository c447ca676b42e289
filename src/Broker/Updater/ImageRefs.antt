-- ===== src/Broker/Updater/ImageRefs.antt =====
-- Image references: apps/broker/src/self-update/image-refs.ts.
use Prim.Native.Char.{code}
use Prim.Native.String
use docker_webmail_gui.Broker.StaleImages.{exact_version, last_colon, Version}
use docker_webmail_gui.Broker.Resolver.{split_label}
use docker_webmail_gui.Common.{
  Bool, List, Option, String, false, if◌then◌else◌, none, not, some, true, ◌==s◌, ◌==◌, ◌∷◌, ◌||◌,
  [],
}

abbrev pub panel_server_repository : String
panel_server_repository = "ghcr.io/arvinrahnama/docker-webmail-gui-server"

abbrev pub panel_broker_repository : String
panel_broker_repository = "ghcr.io/arvinrahnama/docker-webmail-gui-broker"

abbrev pub is_exact : Option Version → Bool
is_exact none = false
is_exact (some _) = true

-- The part behind the last slash, or `none` where there is none.
unfoldable pub after_slash : String → Option String
after_slash String.[] = none
after_slash (String.◌∷◌ c s) = elim (after_slash s) [
  | some name ↦ some name
  | none ↦ if code c == b'/' then some s else none
]

abbrev or_text : Option String → String → String
or_text none s = s
or_text (some t) s = t

unfoldable pub resolve_panel_repository : String → Option String → String
unfolding after_slash
resolve_panel_repository default none = default
resolve_panel_repository default (some registry) =
    String.◌++◌ registry (String.◌++◌ "/" (or_text (after_slash default) default))

unfoldable pub panel_image_reference : String → String → String
panel_image_reference repository version = String.◌++◌ repository (String.◌++◌ ":" version)

-- What follows a prefix.
unfoldable pub without_prefix : String → String → Option String
without_prefix String.[] s = some s
without_prefix (String.◌∷◌ c p) String.[] = none
without_prefix (String.◌∷◌ c p) (String.◌∷◌ d s) =
    let rest = without_prefix p s in if code c == code d then rest else none

abbrev version_in : Option String → Option String
version_in none = none
version_in (some version) = if is_exact (exact_version version) then some version else none

abbrev first_some : Option String → Option String → Option String
first_some none later = later
first_some (some version) later = some version

unfoldable pub extract_panel_version : List String → String → Option String
unfolding without_prefix
extract_panel_version [] repository = none
extract_panel_version (tag ∷ tags) repository =
    first_some (version_in (without_prefix (String.◌++◌ repository ":") tag))
      (extract_panel_version tags repository)

abbrev tag_part : String → Option (String × String) → String
tag_part reference none = reference
tag_part reference (some (_, tag)) = tag

unfoldable pub version_from_reference : String → String
version_from_reference reference = tag_part reference (last_colon reference)

pub data DwgImageOrigin : Type 0 where
  registry source : DwgImageOrigin

pub record BakedImageFacts : Type 0 where
  pub version : Option String
  pub origin : Option DwgImageOrigin

abbrev origin_of : String → Option DwgImageOrigin
origin_of value =
    if value ==s "registry" then some registry else if value ==s "source" then some source else none

abbrev with_origin : Option DwgImageOrigin → BakedImageFacts → BakedImageFacts
with_origin none facts = facts
with_origin (some origin) facts = record facts { origin = some origin }

abbrev has_equals : String → Bool
has_equals String.[] = false
has_equals (String.◌∷◌ c s) = code c == b'=' || has_equals s

-- One entry of the environment: a later one overrides.
abbrev read_entry : BakedImageFacts → String → String × String → BakedImageFacts
read_entry facts entry (key, value) =
    if not (has_equals entry)
    then facts
    else if key ==s "DWG_VERSION"
    then if is_exact (exact_version value) then record facts { version = some value } else facts
    else if key ==s "DWG_IMAGE_ORIGIN"
    then with_origin (origin_of value) facts
    else facts

abbrev facts_from : BakedImageFacts → List String → BakedImageFacts
facts_from facts [] = facts
facts_from facts (entry ∷ env) = facts_from (read_entry facts entry (split_label entry)) env

unfoldable pub extract_baked_image_facts : List String → BakedImageFacts
extract_baked_image_facts env = facts_from (record { version = none; origin = none }) env
