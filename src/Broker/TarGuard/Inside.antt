-- ===== src/Broker/TarGuard/Inside.antt =====
-- Nothing but data and headers of entries below the volume's root is pushed (restore-tar-guard.ts).
use docker_webmail_gui.Broker.TarGuard.{
  Rejection, RestoreTarGuard, reject, push_consumed, Round, stop, more, is_empty, forward, judged,
  admit_sized, admit_entry, entry_size, entry_type, entry_name, entry_link, forget_preamble, hold,
  read_pax, read_meta_header, meta_round, typed_round, sized_round, header_round, pass_data,
  smaller, running_round, walk_round, max_meta_body_bytes, is_meta, is_accepted, unless_empty,
  is_header_only,
}
use docker_webmail_gui.Broker.TarGuard.Header.{
  Decoder, PaxRecords, block_size, read_number, checksum_matches, parse_pax_records,
  round_up_to_block,
}
use docker_webmail_gui.Broker.TarGuard.Paths.{
  Problem, problem_with, linked, components, is_part, has_code_list, is_under, is_beneath, parts_of,
}
use docker_webmail_gui.Common.{
  All, Bool, Codes, List, Option, all, arith, before_code, codes, concat, drop, false, filter,
  get_or, if_ind, if◌then◌else◌, join_codes, length, ltb, none, not, refl, same_codes,
  same_codes-eq, same_codes_refl, some, split_codes, starts_with, take, true, ℕ, ◌%◌, ◌&&◌, ◌++◌,
  ◌+◌, ◌-◌, ◌<◌, ◌==◌, ◌∷◌, ◌≡◌, ◌≢◌, ◌≤◌, ◌⊎◌, [],
}

-- No part that stays in place or leads upwards.
abbrev pub IsPlain : Codes → Type 0
IsPlain part = (part ≢ []) × (part ≢ codes ".") × (part ≢ codes "..")

-- A path that leads below the root, with no step upwards.
pub record IsBelow (root path : Codes) : Type 0 where
  pub rest : List Codes
  pub parts : components path ≡ some (root ∷ rest)
  pub relative : starts_with (codes "/") path ≡ false
  pub plain : All IsPlain (root ∷ rest)

-- The parts of the path that stand above another part are no symlink of this archive.
abbrev pub NoneLinked : List Codes → List Codes → List Codes → Type 0
NoneLinked symlinks above [] = Unit
NoneLinked symlinks above (part ∷ []) = Unit
NoneLinked symlinks above (part ∷ (next ∷ parts)) =
    (has_code_list symlinks (join_codes b'/' (above ++ part ∷ [])) ≡ false)
    × NoneLinked symlinks (above ++ part ∷ []) (next ∷ parts)

pub record IsSafe (root : Codes) (symlinks : List Codes) (kind : ℕ) (name link : Codes)
    : Type 0 where
  pub below : IsBelow root name
  pub unlinked : NoneLinked symlinks [] (parts_of (components name))
  pub target : kind ≡ b'1' → IsBelow root link

same_codes-ne : (p q : Codes) → same_codes p q ≡ false → p ≢ q
same_codes-ne p q h e = let same : same_codes p q ≡ true = rw e (same_codes_refl q) in cc

has_code_list-All :
    (parts : List Codes) (part : Codes)
    → has_code_list parts part ≡ false
    → All (λ p. p ≢ part) parts
has_code_list-All [] part h = tt
has_code_list-All (p ∷ parts) part h =
    (same_codes-ne p part (ground arith), has_code_list-All parts part (ground arith))

filter-All : (p : Codes → Bool) (xs : List Codes) → All (λ x. p x ≡ true) (filter p xs)
filter-All p [] = tt
filter-All p (x ∷ xs) = ground (arith, filter-All p xs)

plain_parts :
    (parts : List Codes)
    → All (λ p. is_part p ≡ true) parts
    → All (λ p. p ≢ codes "..") parts
    → All IsPlain parts
plain_parts [] h k = tt
plain_parts (p ∷ parts) h k = (
  (same_codes-ne p [] (ground arith), same_codes-ne p (codes ".") (ground arith), k.0),
  plain_parts parts h.1 k.1,
)

abbrev ComponentsPlain : Codes → Option (List Codes) → Type 0
ComponentsPlain path none = Unit
ComponentsPlain path (some parts) = (starts_with (codes "/") path ≡ false) × All IsPlain parts

components-Plain : (path : Codes) → ComponentsPlain path (components path)
unfolding components
components-Plain path =
    if_ind (ComponentsPlain path) (starts_with (codes "/") path) _ _ (λ h. tt)
      (λ h.
        if_ind (ComponentsPlain path)
          (has_code_list (filter is_part (split_codes b'/' path)) (codes "..")) _ _ (λ k. tt)
          (λ k. (
            h,
            plain_parts (filter is_part (split_codes b'/' path))
                (filter-All is_part (split_codes b'/' path))
                (has_code_list-All (filter is_part (split_codes b'/' path)) (codes "..") k),
          )))

is_under-IsBelow :
    (root path : Codes) (o : Option (List Codes))
    → components path ≡ o
    → ComponentsPlain path o
    → is_under root o ≡ true
    → IsBelow root path
is_under-IsBelow root path none e c h = cc
is_under-IsBelow root path (some []) e c h = cc
is_under-IsBelow root path (some (part ∷ parts)) e c h =
    let same : part ≡ root = same_codes-eq part root h in
    record { rest = parts; parts = rw same at e; relative = c.0; plain = rw same at (c.1) }

is_beneath-NoneLinked :
    (symlinks above parts : List Codes)
    → is_beneath symlinks above parts ≡ false
    → NoneLinked symlinks above parts
unfolding is_beneath
is_beneath-NoneLinked symlinks above [] h = tt
is_beneath-NoneLinked symlinks above (part ∷ []) h = tt
is_beneath-NoneLinked symlinks above (part ∷ (next ∷ parts)) h = (
  ground arith,
  is_beneath-NoneLinked symlinks (above ++ part ∷ []) (next ∷ parts) (ground arith),
)

-- What an answer of `problem_with` tells.
abbrev Judgement : Codes → List Codes → ℕ → Codes → Codes → Option Problem → Type 0
Judgement root symlinks kind name link none = IsSafe root symlinks kind name link
Judgement root symlinks kind name link (some problem) = Unit

not-false : (b : Bool) → not b ≡ false → b ≡ true
not-false b h = ground arith

safe :
    (root : Codes) (symlinks : List Codes) (kind : ℕ) (name link : Codes)
    → is_under root (components name) ≡ true
    → is_beneath symlinks [] (parts_of (components name)) ≡ false
    → (kind == b'1' && not (is_under root (components link))) ≡ false
    → IsSafe root symlinks kind name link
safe root symlinks kind name link h k l = record {
  below = is_under-IsBelow root name (components name) refl (components-Plain name) h;
  unlinked = is_beneath-NoneLinked symlinks [] (parts_of (components name)) k;
  target = λ hard.
      is_under-IsBelow root link (components link) refl (components-Plain link) (ground arith);
}

-- An entry without a problem lies below the root, beneath no symlink, and so does a hard link's target.
pub problem_with-Judgement :
    (root : Codes) (symlinks : List Codes) (kind : ℕ) (name link : Codes)
    → Judgement root symlinks kind name link (problem_with root symlinks kind name link)
unfolding problem_with
problem_with-Judgement root symlinks kind name link =
    if_ind (Judgement root symlinks kind name link) (not (is_under root (components name))) _ _
      (λ h. tt)
      (λ h.
        if_ind (Judgement root symlinks kind name link)
          (is_beneath symlinks [] (parts_of (components name))) _ _ (λ k. tt)
          (λ k.
            if_ind (Judgement root symlinks kind name link)
              (kind == b'1' && not (is_under root (components link))) _ _ (λ l. tt)
              (λ l.
                safe root symlinks kind name link (not-false (is_under root (components name)) h) k
                  l)))

-- A round leaves the data that is still to come, and the symlinks, as they were.
abbrev pub IsSteady : RestoreTarGuard → RestoreTarGuard → Type 0
IsSteady g g' = (g'.data_remaining ≡ g.data_remaining) × (g'.symlinks ≡ g.symlinks)

-- The data that follows an entry: a type with a header only has none, any other its size in whole blocks.
abbrev pub HasData : ℕ → ℕ → ℕ → Type 0
HasData kind size remaining =
    (b'1' ≤ kind → kind ≤ b'6' → remaining ≡ 0)
    × (kind < b'1' ⊎ b'6' < kind
        → (size ≤ remaining) × (remaining < size + 512) × (remaining % 512 ≡ 0))

-- What a round of the loop pushes before the end of the archive: nothing, bytes of the present
-- entry's data, or the held blocks and the header of a safe entry.
pub data Forwards (utf8 : Decoder) (g g' : RestoreTarGuard) : Type 0 where
  silent : g'.pushed ≡ g.pushed → IsSteady g g' → Forwards utf8 g g'
  entry_data :
      (n : ℕ)
      → n ≤ g.data_remaining
      → g'.pushed ≡ g.pushed ++ take n g.buffered
      → g'.data_remaining ≡ g.data_remaining - n
      → g'.symlinks ≡ g.symlinks
      → Forwards utf8 g g'
  entry :
      (kind own size : ℕ)
      → g.data_remaining ≡ 0
      → kind
        ≡ entry_type
            (get_or (take block_size g.buffered) 156 0)
            (entry_name utf8 g (take block_size g.buffered))
      → IsSafe g.root_name g.symlinks kind
          (entry_name utf8 g (take block_size g.buffered))
          (entry_link utf8 g (take block_size g.buffered))
      → read_number utf8 (take block_size g.buffered) 124 12 ≡ some own
      → entry_size g own ≡ some size
      → HasData kind size g'.data_remaining
      → g'.pushed ≡ (g.pushed ++ concat g.held) ++ take block_size g.buffered
      → g'.symlinks ≡ linked kind (entry_name utf8 g (take block_size g.buffered)) g.symlinks
      → Forwards utf8 g g'

abbrev pub result : Round → RestoreTarGuard
result (stop g) = g
result (more g) = g

abbrev Sends : Decoder → RestoreTarGuard → Round → Type 0
Sends utf8 g r = Forwards utf8 g (result r)

rejected :
    (utf8 : Decoder) (reason : Rejection) (g g₀ : RestoreTarGuard)
    → g₀.pushed ≡ g.pushed
    → IsSteady g g₀
    → Forwards utf8 g (reject reason g₀)
unfolding reject
rejected utf8 reason g g₀ e same = silent e same

held_back :
    (utf8 : Decoder) (n : ℕ) (g g₀ : RestoreTarGuard)
    → g₀.pushed ≡ g.pushed
    → IsSteady g g₀
    → Forwards utf8 g (hold n g₀)
unfolding hold
held_back utf8 n g g₀ e same = silent e same

-- What `forward` leaves to come.
header_or_data :
    (kind size : ℕ) → HasData kind size (if is_header_only kind then 0 else round_up_to_block size)
unfolding round_up_to_block
header_or_data kind size = (
  λ lo hi. ground arith,
  λ out. let carries : is_header_only kind ≡ false = ground arith in rw carries (omega arith),
)

module _ (utf8 : Decoder) (g : RestoreTarGuard) where
  judged-Sends :
      (kind own size : ℕ) (o : Option Problem)
      → g.data_remaining ≡ 0
      → read_number utf8 (take block_size g.buffered) 124 12 ≡ some own
      → entry_size g own ≡ some size
      → kind
        ≡ entry_type
            (get_or (take block_size g.buffered) 156 0)
            (entry_name utf8 g (take block_size g.buffered))
      → Judgement g.root_name g.symlinks kind
          (entry_name utf8 g (take block_size g.buffered))
          (entry_link utf8 g (take block_size g.buffered))
          o
      → Sends utf8 g
          (judged kind (entry_name utf8 g (take block_size g.buffered)) size (forget_preamble g) o)
  unfolding forward push_consumed
  judged-Sends kind own size (some problem) idle read sized e h =
      rejected utf8 _ g (forget_preamble g) refl (refl, refl)
  judged-Sends kind own size none idle read sized e h =
      entry kind own size idle e h read sized (header_or_data kind size) refl refl

  admit_sized-Sends :
      (own : ℕ) (o : Option ℕ)
      → g.data_remaining ≡ 0
      → read_number utf8 (take block_size g.buffered) 124 12 ≡ some own
      → entry_size g own ≡ o
      → Sends utf8 g (
          admit_sized utf8 g
            (take block_size g.buffered)
            (get_or (take block_size g.buffered) 156 0)
            o)
  admit_sized-Sends own none idle read sized = rejected utf8 _ g g refl (refl, refl)
  admit_sized-Sends own (some size) idle read sized =
      let name : Codes = entry_name utf8 g (take block_size g.buffered) in
      let link : Codes = entry_link utf8 g (take block_size g.buffered) in
      let kind : ℕ = entry_type (get_or (take block_size g.buffered) 156 0) name in
      judged-Sends kind own size (problem_with g.root_name g.symlinks kind name link) idle read
        sized refl (problem_with-Judgement g.root_name g.symlinks kind name link)

  read_pax-Sends : (kind total : ℕ) (o : Option PaxRecords) → Sends utf8 g (read_pax kind total g o)
  read_pax-Sends kind total none = rejected utf8 _ g g refl (refl, refl)
  read_pax-Sends kind total (some records) =
      if_ind (λ g'. Forwards utf8 g (hold total g')) (kind == b'x')
        (record g { pax_records = some records }) g
        (λ h. held_back utf8 total g (record g { pax_records = some records }) refl (refl, refl))
        (λ h. held_back utf8 total g g refl (refl, refl))

  meta_round-Sends : (kind size : ℕ) → Sends utf8 g (meta_round utf8 g kind size)
  unfolding meta_round read_meta_header
  meta_round-Sends kind size =
      let n : ℕ = block_size + round_up_to_block size in
      let body : List ℕ = take size (drop block_size g.buffered) in
      if_ind (Sends utf8 g) (ltb max_meta_body_bytes size) _ _
        (λ h. rejected utf8 _ g g refl (refl, refl))
        (λ h.
          if_ind (Sends utf8 g) (ltb (length g.buffered) n) _ _ (λ k. silent refl (refl, refl))
            (λ k.
              if_ind (Sends utf8 g) (kind == b'L') _ _
                (λ l.
                  held_back utf8 n g
                    (record g { gnu_long_name = unless_empty (utf8 (before_code 0 body)) }) refl
                    (refl, refl))
                (λ l.
                  if_ind (Sends utf8 g) (kind == b'K') _ _
                    (λ m.
                      held_back utf8 n g
                        (record g { gnu_long_link = unless_empty (utf8 (before_code 0 body)) }) refl
                        (refl, refl))
                    (λ m. read_pax-Sends kind n (parse_pax_records utf8 body)))))

  sized_round-Sends :
      (o : Option ℕ)
      → g.data_remaining ≡ 0
      → read_number utf8 (take block_size g.buffered) 124 12 ≡ o
      → Sends utf8 g (sized_round utf8 g (take block_size g.buffered) o)
  unfolding typed_round admit_entry
  sized_round-Sends none idle read = rejected utf8 _ g g refl (refl, refl)
  sized_round-Sends (some size) idle read =
      let kind : ℕ = get_or (take block_size g.buffered) 156 0 in
      if_ind (Sends utf8 g) (is_meta kind) _ _ (λ k. meta_round-Sends kind size)
        (λ k.
          if_ind (Sends utf8 g) (not (is_accepted kind)) _ _
            (λ l. rejected utf8 _ g g refl (refl, refl))
            (λ l. admit_sized-Sends size (entry_size g size) idle read refl))

  header_round-Sends :
      g.data_remaining ≡ 0 → Sends utf8 g (header_round utf8 g (take block_size g.buffered))
  unfolding header_round
  header_round-Sends idle =
      let header : List ℕ = take block_size g.buffered in
      if_ind (Sends utf8 g) (all (λ byte. byte == 0) header) _ _
        (λ k.
          if_ind (Sends utf8 g) (is_empty g.held) _ _ (λ l. silent refl (refl, refl))
            (λ l. rejected utf8 _ g g refl (refl, refl)))
        (λ k.
          if_ind (Sends utf8 g) (not (checksum_matches utf8 header)) _ _
            (λ l. rejected utf8 _ g g refl (refl, refl))
            (λ l. sized_round-Sends (read_number utf8 header 124 12) idle refl))

-- Until the end of the archive, a round of the loop pushes nothing, and changes neither what is still to come
-- of the present entry nor the known symlinks; or pushes data of the present entry, no more than is to come,
-- and takes that off; or, where nothing is to come, pushes the held blocks and the header of a safe entry,
-- notes a symlink, and lets its size in whole blocks come, or nothing for a type with a header only. A safe
-- entry's path is relative and, without the empty parts and those that are `.`, begins with the root and has
-- no `..`; no part above its last is a symlink of this archive; and a hard link's target is such a path too.
pub walk_round-Forwards :
    (utf8 : Decoder) (g : RestoreTarGuard)
    → g.ended ≡ false
    → Forwards utf8 g (result (walk_round utf8 g))
unfolding walk_round running_round pass_data push_consumed
walk_round-Forwards utf8 g e =
    let n : ℕ = smaller g.data_remaining (length g.buffered) in
    if_ind (Sends utf8 g) g.ended _ _ (λ k. cc)
      (λ k.
        if_ind (Sends utf8 g) (ltb 0 g.data_remaining) _ _
          (λ d.
            if_ind (Sends utf8 g) (is_empty g.buffered) _ _ (λ l. silent refl (refl, refl))
              (λ l. entry_data n (ground arith) refl refl refl))
          (λ d.
            if_ind (Sends utf8 g) (ltb (length g.buffered) block_size) _ _
              (λ l. silent refl (refl, refl)) (λ l. header_round-Sends utf8 g (ground arith))))
