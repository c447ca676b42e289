-- ===== src/Common/Text.antt =====
-- Texts as lists of code units: what the program reads from bytes, cuts and compares.
use docker_webmail_gui.Common.Tests.{leb, ◌==◌, if◌then◌else◌}
use docker_webmail_gui.Common.Lists.{all}
use Prim.Native.Char.{code}
use Prim.Native.String.{String}
use Prim.Native.Nat.{ℕ, ◌+◌, ◌-◌, ◌*◌}
use mathlib.Core.Path.{◌≡◌, refl}
use mathlib.Core.Bool.{Bool, true, false, ◌&&◌, ◌||◌}
use mathlib.Core.Option.{Option, none, some}
use mathlib.Core.List.{List, [], ◌∷◌, ◌++◌}
use native.Mathlib.Omega.{arith}

abbrev pub Codes : Type 0
Codes = List ℕ

abbrev pub codes : String → Codes
codes String.[] = []
codes (String.◌∷◌ c s) = code c ∷ codes s

abbrev pub in_range : ℕ → ℕ → ℕ → Bool
in_range lo hi c = leb lo c && leb c hi

-- What `trim` removes: white space and line ends.
abbrev pub is_space : ℕ → Bool
is_space c =
    in_range 0x9 0xd c
    || c == 0x20
    || c == 0xa0
    || c == 0x1680
    || in_range 0x2000 0x200a c
    || c == 0x2028
    || c == 0x2029
    || c == 0x202f
    || c == 0x205f
    || c == 0x3000
    || c == 0xfeff

abbrev pub same_codes : Codes → Codes → Bool
same_codes [] [] = true
same_codes [] (d ∷ ds) = false
same_codes (c ∷ cs) [] = false
same_codes (c ∷ cs) (d ∷ ds) = c == d && same_codes cs ds

pub same_codes-eq : (cs ds : Codes) → same_codes cs ds ≡ true → cs ≡ ds
same_codes-eq [] [] h = refl
same_codes-eq [] (d ∷ ds) h = ground arith
same_codes-eq (c ∷ cs) [] h = ground arith
same_codes-eq (c ∷ cs) (d ∷ ds) h = ground (arith, same_codes-eq cs ds)

pub same_codes_refl : (cs : Codes) → same_codes cs cs ≡ true
same_codes_refl [] = refl
same_codes_refl (c ∷ cs) = ground (arith, same_codes_refl cs)

-- The part before the first occurrence of a code, or all.
abbrev pub before_code : ℕ → Codes → Codes
before_code c [] = []
before_code c (d ∷ ds) = let rest = before_code c ds in if d == c then [] else d ∷ rest

-- The parts around the first occurrence of a code.
abbrev cons_before : ℕ → Option (Codes × Codes) → Option (Codes × Codes)
cons_before d none = none
cons_before d (some (before, after)) = some (d ∷ before, after)

abbrev pub split_first : ℕ → Codes → Option (Codes × Codes)
split_first c [] = none
split_first c (d ∷ ds) =
    let rest = split_first c ds in if d == c then some ([], ds) else cons_before d rest

-- `split` at each occurrence of a code.
abbrev cons_head : ℕ → List Codes → List Codes
cons_head d [] = (d ∷ []) ∷ []
cons_head d (part ∷ parts) = (d ∷ part) ∷ parts

abbrev pub split_codes : ℕ → Codes → List Codes
split_codes c [] = [] ∷ []
split_codes c (d ∷ ds) =
    let rest = split_codes c ds in if d == c then [] ∷ rest else cons_head d rest

abbrev pub join_codes : ℕ → List Codes → Codes
join_codes c [] = []
join_codes c (part ∷ []) = part
join_codes c (part ∷ (next ∷ parts)) = part ++ c ∷ join_codes c (next ∷ parts)

abbrev pub trim_left : Codes → Codes
trim_left [] = []
trim_left (c ∷ cs) = let rest = trim_left cs in if is_space c then rest else c ∷ cs

abbrev cons_unless_space : ℕ → Codes → Codes
cons_unless_space c [] = if is_space c then [] else c ∷ []
cons_unless_space c (d ∷ ds) = c ∷ d ∷ ds

abbrev pub trim_right : Codes → Codes
trim_right [] = []
trim_right (c ∷ cs) = cons_unless_space c (trim_right cs)

abbrev pub trim : Codes → Codes
trim cs = trim_right (trim_left cs)

abbrev pub starts_with : Codes → Codes → Bool
starts_with [] cs = true
starts_with (p ∷ ps) [] = false
starts_with (p ∷ ps) (c ∷ cs) = p == c && starts_with ps cs

abbrev pub last_is : ℕ → Codes → Bool
last_is c [] = false
last_is c (d ∷ []) = d == c
last_is c (d ∷ (e ∷ ds)) = last_is c (e ∷ ds)

-- The number that digits of a base write, from an accumulator.
abbrev pub number_from : ℕ → ℕ → Codes → ℕ
number_from base acc [] = acc
number_from base acc (c ∷ cs) = number_from base (acc * base + (c - b'0')) cs

-- `/^[0-9]+$/` and the like: one or more of the codes in a range.
abbrev pub all_in : ℕ → ℕ → Codes → Bool
all_in lo hi [] = false
all_in lo hi (c ∷ cs) = all (in_range lo hi) (c ∷ cs)
