-- ===== src/Broker/TarGuard/Paths.antt =====
-- Which paths an archive may name (restore-tar-guard.ts).
use docker_webmail_gui.Common.{
  Bool, Codes, List, Option, any, codes, false, filter, if◌then◌else◌, join_codes, none, not,
  same_codes, some, split_codes, starts_with, ℕ, ◌&&◌, ◌++◌, ◌==◌, ◌∷◌, [], ◌||◌,
}

abbrev pub is_part : Codes → Bool
is_part part = not (same_codes part []) && not (same_codes part (codes "."))

abbrev pub has_code_list : List Codes → Codes → Bool
has_code_list parts part = any (λ p. same_codes p part) parts

-- The path's parts, or `none` for an absolute path or any `..`.
unfoldable pub components : Codes → Option (List Codes)
components path =
    if starts_with (codes "/") path
    then none
    else let parts = filter is_part (split_codes b'/' path) in
      if has_code_list parts (codes "..") then none else some parts

abbrev pub is_under : Codes → Option (List Codes) → Bool
is_under root none = false
is_under root (some []) = false
is_under root (some (part ∷ parts)) = same_codes part root

-- Whether a symlink has the path of the first parts, all but the last one.
unfoldable pub is_beneath : List Codes → List Codes → List Codes → Bool
is_beneath symlinks above [] = false
is_beneath symlinks above (part ∷ []) = false
is_beneath symlinks above (part ∷ (next ∷ parts)) =
    has_code_list symlinks (join_codes b'/' (above ++ part ∷ []))
    || is_beneath symlinks (above ++ part ∷ []) (next ∷ parts)

pub data Problem : Type 0 where
  outside beneath_symlink link_outside : Codes → Problem

abbrev pub parts_of : Option (List Codes) → List Codes
parts_of none = []
parts_of (some parts) = parts

unfoldable pub problem_with : Codes → List Codes → ℕ → Codes → Codes → Option Problem
unfolding components is_beneath
problem_with root symlinks kind name link =
    if not (is_under root (components name))
    then some (outside name)
    else if is_beneath symlinks [] (parts_of (components name))
    then some (beneath_symlink name)
    else if kind == b'1' && not (is_under root (components link))
    then some (link_outside name)
    else none

-- `symlinks.add`, for an entry without a problem.
unfoldable pub linked : ℕ → Codes → List Codes → List Codes
unfolding components
linked kind name symlinks =
    if kind == b'2' then join_codes b'/' (parts_of (components name)) ∷ symlinks else symlinks

-- `restoreTargetFor`: where a restore extracts, and the root of its archive's entries.
pub record RestoreTarget : Type 0 where
  pub parent_path : Codes
  pub root_name : Codes

abbrev cons_above : ℕ → Codes → Option (Codes × Codes) → Option (Codes × Codes)
cons_above c cs (some (above, name)) = some (c ∷ above, name)
cons_above c cs none = if c == b'/' then some ([], cs) else none

unfoldable pub last_slash : Codes → Option (Codes × Codes)
last_slash [] = none
last_slash (c ∷ cs) = cons_above c cs (last_slash cs)

abbrev target_of : Codes → Option (Codes × Codes) → RestoreTarget
target_of path none = record { parent_path = codes "/"; root_name = path }
target_of path (some ([], name)) = record { parent_path = codes "/"; root_name = name }
target_of path (some (c ∷ above, name)) = record { parent_path = c ∷ above; root_name = name }

unfoldable pub restore_target_for : Codes → RestoreTarget
unfolding last_slash
restore_target_for path = target_of path (last_slash path)
