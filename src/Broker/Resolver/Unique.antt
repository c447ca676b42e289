-- ===== src/Broker/Resolver/Unique.antt =====
-- The resolver (container-resolver.ts) acts on the one container that matches, or on none.
use docker_webmail_gui.Broker.Resolver.{
  ServiceIdentity, RawContainerListItem, ManagedContainerRef, not_found, ambiguous, Resolution,
  resolved, failed, matches_service_identity, ref_of, single_of, select_single_match,
}
use docker_webmail_gui.Common.{
  ℕ, ◌≤◌, ◌≡◌, refl, sym, ap, ◌∙◌, Bool, some, List, [], ◌∷◌, arith, length, filter, find,
  count_where,
}

filter-count : {A : Type 0} (p : A → Bool) (xs : List A) → length (filter p xs) ≡ count_where p xs
filter-count p [] = refl
filter-count p (x ∷ xs) = ground (arith, filter-count p xs)

filter-find :
    {A : Type 0} (p : A → Bool) (xs : List A) (x : A) → filter p xs ≡ x ∷ [] → find p xs ≡ some x
filter-find p [] x h = cc
filter-find p (y ∷ xs) x h = ground (arith, filter-find p xs x)

-- One container matches, and it is the one that is referred to.
pub record IsOnly (identity : ServiceIdentity) (candidates : List RawContainerListItem)
    (ref : ManagedContainerRef) : Type 0 where
  pub container : RawContainerListItem
  pub found : find (matches_service_identity identity) candidates ≡ some container
  pub alone : count_where (matches_service_identity identity) candidates ≡ 1
  pub refers : ref ≡ ref_of identity container

single_of-IsOnly :
    (identity : ServiceIdentity) (candidates matching : List RawContainerListItem)
    (ref : ManagedContainerRef)
    → filter (matches_service_identity identity) candidates ≡ matching
    → single_of identity matching ≡ resolved ref
    → IsOnly identity candidates ref
single_of-IsOnly identity candidates [] ref e h = cc
single_of-IsOnly identity candidates (c ∷ []) ref e h = record {
  container = c;
  found = filter-find (matches_service_identity identity) candidates c e;
  alone = sym (filter-count (matches_service_identity identity) candidates) ∙ ap length e;
  refers = cc;
}
single_of-IsOnly identity candidates (c ∷ (d ∷ rest)) ref e h = cc

-- A container is only resolved where exactly one of all listed containers matches the configured
-- identity, and then it is that one.
pub select_single_match-IsOnly :
    (candidates : List RawContainerListItem) (identity : ServiceIdentity)
    (ref : ManagedContainerRef)
    → select_single_match candidates identity ≡ resolved ref
    → IsOnly identity candidates ref
unfolding select_single_match
select_single_match-IsOnly candidates identity ref h =
    single_of-IsOnly identity candidates (filter (matches_service_identity identity) candidates) ref
      refl h

abbrev pub Verdict : ServiceIdentity → ℕ → Resolution → Type 0
Verdict identity n (failed not_found) = n ≡ 0
Verdict identity n (failed ambiguous) = 2 ≤ n
Verdict identity n (resolved ref) = n ≡ 1

single_of-Verdict :
    (identity : ServiceIdentity) (matching : List RawContainerListItem)
    → Verdict identity (length matching) (single_of identity matching)
single_of-Verdict identity [] = refl
single_of-Verdict identity (c ∷ []) = refl
single_of-Verdict identity (c ∷ (d ∷ rest)) = omega arith

-- The answer tells how many containers match: none for `not-found`, one for a reference, and two or
-- more for `ambiguous`; so it never takes the first of several.
pub select_single_match-Verdict :
    (candidates : List RawContainerListItem) (identity : ServiceIdentity)
    → Verdict identity
        (count_where (matches_service_identity identity) candidates)
        (select_single_match candidates identity)
unfolding select_single_match
select_single_match-Verdict candidates identity =
    let answer =
      single_of-Verdict identity (filter (matches_service_identity identity) candidates) in
    rw (sym (filter-count (matches_service_identity identity) candidates)) answer
