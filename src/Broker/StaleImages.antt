-- ===== src/Broker/StaleImages.antt =====
-- One sweep over the images of earlier panel versions:
-- apps/broker/src/self-update/stale-image-cleanup.ts. Docker's two lists are arguments, and so is its
-- answer to a removal, which may depend on what was removed before. A version's numbers are exact.
pub mod Facts
mod Tests
use Prim.Native.Char.{Char, code}
use Prim.Native.String
use mathlib.Core.Option
use docker_webmail_gui.Common.{
  ℕ, zero, suc, ◌+◌, ◌-◌, ◌*◌, ◌/◌, ◌%◌, ◌^◌, ◌≤◌, ◌<◌, String, ◌≡◌, refl, sym, ap, ◌∙◌, ◌≢◌, ◌↔◌,
  ◌⊎◌, inl, inr, Bool, true, false, not, ◌&&◌, ◌||◌, Option, none, some, List, [], ◌∷◌, ◌++◌, map,
  append-nil, append_assoc, arith, ◌==s◌, eq_iff, ltb, leb, ◌==◌, if◌then◌else◌, ltb→lt,
  ltb-false→le, lt→ltb, le→ltb-false, leb→le, ==_iff, Bool-cases, Option-cases, length, take, drop,
  get_or, concat, length-append, take-append-drop, length-drop, take-append, drop-append,
  get_or-append, take-length, drop-length, any, all, filter, find, All, All-append, update_row,
  update_where, count_where, find-update_where, find-append, find-holds, All-update_where, All-find,
  All-filter, if_same, All-update_each, All-map_each,
}

pub record RawImage : Type 0 where
  pub id : String
  pub repo_tags : List String

pub record Version : Type 0 where
  pub major : ℕ
  pub minor : ℕ
  pub patch : ℕ

abbrev is_digit : ℕ → Bool
is_digit c = leb b'0' c && leb c b'9'

-- The groups of digits between dots, or `none` where one is empty or has another character: what is
-- read of the present group (`seen` tells whether any digit was), and the rest.
unfoldable pub digit_groups : Bool → ℕ → String → Option (List ℕ)
digit_groups seen n String.[] = if seen then some (n ∷ []) else none
digit_groups seen n (String.◌∷◌ c s) =
    let more = digit_groups true (n * 10 + (code c - b'0')) s in
    let next = digit_groups false 0 s in
    if is_digit (code c)
    then more
    else if (code c == b'.') && seen
    then Option.map (λ ns. n ∷ ns) next
    else none

abbrev version_of : Option (List ℕ) → Option Version
version_of (some (x ∷ (y ∷ (z ∷ [])))) = some (record { major = x; minor = y; patch = z })
version_of _ = none

-- `EXACT_VERSION.exec`
abbrev pub exact_version : String → Option Version
exact_version s = version_of (digit_groups false 0 s)

-- `compareVersions(a, b) >= 0`
abbrev pub not_older : Version → Version → Bool
not_older a b =
    if a.major == b.major
    then if a.minor == b.minor then leb b.patch a.patch else ltb b.minor a.minor
    else ltb b.major a.major

abbrev cons_repository : Char → Option (String × String) → String → Option (String × String)
cons_repository c (some (repository, tag)) s = some (String.◌∷◌ c repository, tag)
cons_repository c none s = if code c == b':' then some (String.[], s) else none

-- The parts before and behind the last colon.
unfoldable pub last_colon : String → Option (String × String)
last_colon String.[] = none
last_colon (String.◌∷◌ c s) = cons_repository c (last_colon s) s

unfoldable pub has_slash : String → Bool
has_slash String.[] = false
has_slash (String.◌∷◌ c s) = code c == b'/' || has_slash s

abbrev tag_of : String → Option (String × String) → String × String
tag_of reference none = (reference, String.[])
tag_of reference (some (repository, tag)) =
    if has_slash tag then (reference, String.[]) else (repository, tag)

unfoldable pub split_tag : String → String × String
split_tag reference = tag_of reference (last_colon reference)

abbrev pub contains : List String → String → Bool
contains xs x = any (λ y. y ==s x) xs

-- The loop over an image's tags.
abbrev stale_tag : Option Version → Version → Bool → Bool → Bool
stale_tag none running with_version without = without
stale_tag (some version) running with_version without =
    not (not_older version running) && with_version

unfoldable pub stale_tags : List String → Version → List String → Bool → Bool
stale_tags repositories running [] has_version_tag = has_version_tag
stale_tags repositories running (reference ∷ references) has_version_tag =
    let with_version = stale_tags repositories running references true in
    let without = stale_tags repositories running references has_version_tag in
    contains repositories (split_tag reference).0
    && stale_tag (exact_version (split_tag reference).1) running with_version without

abbrev stale_at : RawImage → List String → Option Version → Bool
stale_at image repositories none = false
stale_at image repositories (some running) = stale_tags repositories running image.repo_tags false

unfoldable pub is_stale_panel_image : RawImage → List String → String → Bool
is_stale_panel_image image repositories running_version =
    stale_at image repositories (exact_version running_version)

abbrev pub in_use : List String → RawImage → Bool
in_use used image = contains used image.id || any (contains used) image.repo_tags

-- Whether Docker removes a tag, after those already removed.
abbrev pub Remover : Type 0
Remover = List String → String → Bool

-- Tag by tag, up to the first that Docker refuses.
unfoldable pub remove_tags : Remover → List String → List String → List String
remove_tags removes [] removed = removed
remove_tags removes (reference ∷ references) removed =
    let rest = remove_tags removes references (removed ++ reference ∷ []) in
    if removes removed reference then rest else removed

abbrev pub is_leftover : List String → List String → String → RawImage → Bool
is_leftover used repositories running_version image =
    is_stale_panel_image image repositories running_version && not (in_use used image)

unfoldable pub sweep :
    Remover → List String → List String → String → List RawImage → List String → List String
sweep removes used repositories running_version [] removed = removed
sweep removes used repositories running_version (image ∷ images) removed =
    let kept = sweep removes used repositories running_version images removed in
    let swept =
      sweep removes used repositories running_version images
        (remove_tags removes image.repo_tags removed) in
    if is_leftover used repositories running_version image then swept else kept

unfoldable pub remove_stale_panel_images :
    Remover → List RawImage → List String → List String → String → List String
remove_stale_panel_images removes images used repositories running_version =
    sweep removes used repositories running_version images []
