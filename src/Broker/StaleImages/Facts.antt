-- ===== src/Broker/StaleImages/Facts.antt =====
-- Which images a sweep (stale-image-cleanup.ts) takes for leftovers, and what it removes.
use text.Mathlib.TextPositions.{eq_refl}
use docker_webmail_gui.Broker.StaleImages.{
  RawImage, Version, exact_version, not_older, split_tag, contains, stale_tags, stale_tag, stale_at,
  is_stale_panel_image, Remover, remove_tags, is_leftover, sweep, remove_stale_panel_images,
}
use docker_webmail_gui.Common.{
  String, ◌≡◌, refl, inl, inr, Bool, true, false, not, ◌&&◌, ◌||◌, Option, none, some, List, [],
  ◌∷◌, ◌++◌, arith, if◌then◌else◌, Bool-cases, any, All, All-append, All-map_each,
}

abbrev pub is_older : Option Version → Version → Bool
is_older none running = true
is_older (some version) running = not (not_older version running)

abbrev pub is_version : Option Version → Bool
is_version none = false
is_version (some _) = true

-- A tag of one of the repositories, and no version from the running one on.
abbrev pub IsOldTag : List String → Version → String → Type 0
IsOldTag repositories running reference =
    (contains repositories (split_tag reference).0 ≡ true)
    × (is_older (exact_version (split_tag reference).1) running ≡ true)

abbrev pub has_version : List String → Bool
has_version tags = any (λ reference. is_version (exact_version (split_tag reference).1)) tags

-- What the loop finds, given the parsed tag and the results of its rest.
stale_tag-eq-true :
    (version : Option Version) (running : Version) (with_version without : Bool)
    → stale_tag version running with_version without ≡ true
    → (is_older version running ≡ true)
      × ((if is_version version then with_version else without) ≡ true)
stale_tag-eq-true none running with_version without h = (refl, h)
stale_tag-eq-true (some version) running with_version without h = ground arith

both_true : (a b : Bool) → (a && b) ≡ true → (a ≡ true) × (b ≡ true)
both_true true b h = (refl, h)
both_true false b h = cc

-- The rest of the loop saw a version tag, or this tag is one.
rest_seen :
    (v : Bool) (repositories : List String) (running : Version) (tags : List String) (seen : Bool)
    → (stale_tags repositories running tags true ≡ true
        → All (IsOldTag repositories running) tags × ((true || has_version tags) ≡ true))
    → (stale_tags repositories running tags seen ≡ true
        → All (IsOldTag repositories running) tags × ((seen || has_version tags) ≡ true))
    → (if v
        then stale_tags repositories running tags true
        else stale_tags repositories running tags seen)
      ≡ true
    → All (IsOldTag repositories running) tags × ((seen || (v || has_version tags)) ≡ true)
rest_seen true repositories running tags seen f g h = ((f h).0, ground arith)
rest_seen false repositories running tags seen f g h = g h

stale_tags-IsOldTag :
    (repositories : List String) (running : Version) (tags : List String) (seen : Bool)
    → stale_tags repositories running tags seen ≡ true
    → All (IsOldTag repositories running) tags × ((seen || has_version tags) ≡ true)
unfolding stale_tags
stale_tags-IsOldTag repositories running [] seen h = (tt, ground arith)
stale_tags-IsOldTag repositories running (reference ∷ tags) seen h =
    let version : Option Version = exact_version (split_tag reference).1 in
    let here = both_true _ _ h in
    let tag =
      stale_tag-eq-true version running (stale_tags repositories running tags true)
        (stale_tags repositories running tags seen) here.1 in
    let rest =
      rest_seen (is_version version) repositories running tags seen
        (stale_tags-IsOldTag repositories running tags true)
        (stale_tags-IsOldTag repositories running tags seen) tag.1 in
    (((here.0, tag.0), rest.0), rest.1)

-- The image is an earlier release.
pub record IsEarlier (image : RawImage) (repositories : List String) (running_version : String)
    : Type 0 where
  pub running : Version
  pub parsed : exact_version running_version ≡ some running
  pub old_tags : All (IsOldTag repositories running) image.repo_tags
  pub versioned : has_version image.repo_tags ≡ true

stale_at-IsEarlier :
    (image : RawImage) (repositories : List String) (running_version : String) (o : Option Version)
    → exact_version running_version ≡ o
    → stale_at image repositories o ≡ true
    → IsEarlier image repositories running_version
stale_at-IsEarlier image repositories running_version none e h = cc
stale_at-IsEarlier image repositories running_version (some running) e h =
    let both = stale_tags-IsOldTag repositories running image.repo_tags false h in
    record { running = running; parsed = e; old_tags = both.0; versioned = both.1 }

-- An image that counts as stale has only tags of the panel's repositories, at least one of which is
-- an exact version, and each of those is older than the running version, itself exact.
pub is_stale_panel_image-IsEarlier :
    (image : RawImage) (repositories : List String) (running_version : String)
    → is_stale_panel_image image repositories running_version ≡ true
    → IsEarlier image repositories running_version
unfolding is_stale_panel_image
is_stale_panel_image-IsEarlier image repositories running_version h =
    stale_at-IsEarlier image repositories running_version (exact_version running_version) refl h

-- A tag of an image that the predicate holds of.
abbrev pub tags_one : (RawImage → Bool) → List RawImage → String → Bool
tags_one p images t = any (λ image. p image && contains image.repo_tags t) images

abbrev Removable : (RawImage → Bool) → List RawImage → String → Type 0
Removable p images t = tags_one p images t ≡ true

remove_tags-All :
    (P : String → Type 0) (removes : Remover) (tags removed : List String)
    → All P tags
    → All P removed
    → All P (remove_tags removes tags removed)
unfolding remove_tags
remove_tags-All P removes [] removed t r = r
remove_tags-All P removes (reference ∷ tags) removed t r =
    elim (Bool-cases (removes removed reference)) [
      | inl e ↦ rw e (
          remove_tags-All P removes tags (removed ++ reference ∷ []) t.1
            (All-append P removed (reference ∷ []) r (t.0, tt)))
      | inr e ↦ rw e r
    ]

All-contained : (tags : List String) → All (λ t. contains tags t ≡ true) tags
All-contained [] = tt
All-contained (t ∷ tags) = (
  ground (arith, eq_refl t),
  All-map_each (λ y. contains tags y ≡ true) (λ y. contains (t ∷ tags) y ≡ true) tags
      (λ y h. ground arith) (All-contained tags),
)

abbrev AllRemovable : (RawImage → Bool) → List RawImage → RawImage → Type 0
AllRemovable p images image = p image ≡ true → All (Removable p images) image.repo_tags

all_removable : (p : RawImage → Bool) (images : List RawImage) → All (AllRemovable p images) images
all_removable p [] = tt
all_removable p (image ∷ images) = (
  λ h.
      All-map_each (λ y. contains image.repo_tags y ≡ true) (Removable p (image ∷ images))
        image.repo_tags (λ y k. ground arith) (All-contained image.repo_tags),
  All-map_each (AllRemovable p images) (AllRemovable p (image ∷ images)) images
      (λ other h k.
        All-map_each (Removable p images) (Removable p (image ∷ images)) other.repo_tags
          (λ y m. ground arith) (h k))
      (all_removable p images),
)

sweep-All :
    (P : String → Type 0) (removes : Remover) (used repositories : List String) (version : String)
    (images : List RawImage) (removed : List String)
    → All
        (λ image. is_leftover used repositories version image ≡ true → All P image.repo_tags)
        images
    → All P removed
    → All P (sweep removes used repositories version images removed)
unfolding sweep
sweep-All P removes used repositories version [] removed t r = r
sweep-All P removes used repositories version (image ∷ images) removed t r =
    elim (Bool-cases (is_leftover used repositories version image)) [
      | inl e ↦ rw e (
          sweep-All P removes used repositories version images
            (remove_tags removes image.repo_tags removed) t.1
            (remove_tags-All P removes image.repo_tags removed (t.0 e) r))
      | inr e ↦ rw e (sweep-All P removes used repositories version images removed t.1 r)
    ]

-- Whatever Docker answers, every tag that a sweep removes is a tag of a listed image that is stale
-- and that no listed container uses, by its id or by any of its tags.
pub remove_stale_panel_images-Leftover :
    (removes : Remover) (images : List RawImage) (used repositories : List String)
    (version : String)
    → All
        (λ t. tags_one (is_leftover used repositories version) images t ≡ true)
        (remove_stale_panel_images removes images used repositories version)
unfolding remove_stale_panel_images
remove_stale_panel_images-Leftover removes images used repositories version =
    sweep-All (Removable (is_leftover used repositories version) images) removes used repositories
      version images [] (all_removable (is_leftover used repositories version) images) tt
