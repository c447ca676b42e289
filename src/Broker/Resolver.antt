-- ===== src/Broker/Resolver.antt =====
-- Which container the broker acts on: apps/broker/src/container-resolver.ts, with the identity test
-- of packages/shared/src/visibility.ts. The messages of errors are left out, and a record of labels
-- is a list of pairs, of which a key's first counts.
pub mod Unique
mod Tests
use Prim.Native.Char.{code}
use Prim.Native.String
use docker_webmail_gui.Common.{
  ℕ, zero, suc, ◌+◌, ◌-◌, ◌*◌, ◌/◌, ◌%◌, ◌^◌, ◌≤◌, ◌<◌, String, ◌≡◌, refl, sym, ap, ◌∙◌, ◌≢◌, ◌↔◌,
  ◌⊎◌, inl, inr, Bool, true, false, not, ◌&&◌, ◌||◌, Option, none, some, List, [], ◌∷◌, ◌++◌, map,
  append-nil, append_assoc, arith, ◌==s◌, eq_iff, ltb, leb, ◌==◌, if◌then◌else◌, ltb→lt,
  ltb-false→le, lt→ltb, le→ltb-false, leb→le, ==_iff, Bool-cases, Option-cases, length, take, drop,
  get_or, concat, length-append, take-append-drop, length-drop, take-append, drop-append,
  get_or-append, take-length, drop-length, any, all, filter, find, All, All-append, update_row,
  update_where, count_where, find-update_where, find-append, find-holds, All-update_where, All-find,
  All-filter, if_same, All-update_each, All-map_each,
}

pub record ServiceIdentity : Type 0 where
  pub container_name : String
  pub container_label : Option String

pub record RawContainerListItem : Type 0 where
  pub id : String
  pub names : List String
  pub labels : List (String × String)

pub record ManagedContainerRef : Type 0 where
  pub id : String
  pub name : String

pub data ContainerResolutionReason : Type 0 where
  not_found ambiguous : ContainerResolutionReason

pub data Resolution : Type 0 where
  resolved : ManagedContainerRef → Resolution
  failed : ContainerResolutionReason → Resolution

abbrev pub strip_leading_slash : String → String
strip_leading_slash String.[] = String.[]
strip_leading_slash (String.◌∷◌ c s) = if code c == b'/' then s else String.◌∷◌ c s

abbrev cons_key : String → String × String → String × String
cons_key c (key, value) = (String.◌++◌ c key, value)

-- The selector's parts before and behind its first `=`, the second empty where there is none.
unfoldable pub split_label : String → String × String
split_label String.[] = (String.[], String.[])
split_label (String.◌∷◌ c s) =
    let more = split_label s in
    if code c == b'=' then (String.[], s) else cons_key (String.◌∷◌ c String.[]) more

abbrev pub label_is : List (String × String) → String → String → Bool
label_is [] key value = false
label_is ((k, v) ∷ labels) key value =
    let more = label_is labels key value in if k ==s key then v ==s value else more

abbrev pub has_name : List String → String → Bool
has_name names wanted = any (λ name. strip_leading_slash name ==s wanted) names

unfoldable pub matches_service_identity : ServiceIdentity → RawContainerListItem → Bool
matches_service_identity identity container = elim identity.container_label [
  | none ↦ has_name container.names (strip_leading_slash identity.container_name)
  | some label ↦ label_is container.labels (split_label label).0 (split_label label).1
]

abbrev pub first_name : List String → String → String
first_name [] default = default
first_name (name ∷ _) default = name

abbrev pub ref_of : ServiceIdentity → RawContainerListItem → ManagedContainerRef
ref_of identity container = record {
  id = container.id;
  name = first_name container.names identity.container_name;
}

-- The answer for the list of all that match.
abbrev pub single_of : ServiceIdentity → List RawContainerListItem → Resolution
single_of identity [] = failed not_found
single_of identity (container ∷ []) = resolved (ref_of identity container)
single_of identity (_ ∷ (_ ∷ _)) = failed ambiguous

unfoldable pub select_single_match : List RawContainerListItem → ServiceIdentity → Resolution
select_single_match candidates identity =
    single_of identity (filter (matches_service_identity identity) candidates)
