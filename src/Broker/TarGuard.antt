-- ===== src/Broker/TarGuard.antt =====
-- The guard that a restore streams through: apps/broker/src/restore-tar-guard.ts. A byte is a natural
-- number and a text a list of code units; Node's UTF-8 decoder is the argument `utf8`. `pushed` is all
-- that was pushed so far; after `push(null)` nothing more is. The loop of `walk` runs on fuel, two
-- rounds more than the buffer has bytes. The texts of rejections are constructors.
pub mod Header
pub mod Paths
pub mod PassThrough
pub mod Fuel
pub mod Inside
mod Tests
use docker_webmail_gui.Broker.TarGuard.Header.{
  Decoder, PaxRecords, block_size, read_string, read_number, checksum_matches, header_name,
  parse_pax_records, get_record, round_up_to_block,
}
use docker_webmail_gui.Broker.TarGuard.Paths.{Problem, problem_with, linked}
use docker_webmail_gui.Common.{
  Bool, Codes, List, Option, String, all, all_in, before_code, codes, concat, drop, false, get_or,
  if◌then◌else◌, last_is, leb, length, ltb, none, not, number_from, some, suc, take, true, zero, ℕ,
  ◌&&◌, ◌++◌, ◌+◌, ◌-◌, ◌==◌, ◌∷◌, [], ◌||◌,
}

pub data Rejection : Type 0 where
  partial_entry dangling_header bad_checksum bad_size oversized_header malformed_pax : Rejection
  bad_pax_size : Rejection
  unsupported_type : ℕ → Rejection
  unsafe_entry : Problem → Rejection

pub record RestoreTarGuard : Type 0 where
  pub root_name : Codes
  pub rejection : Option Rejection
  pub buffered : List ℕ
  pub data_remaining : ℕ
  pub held : List (List ℕ)
  pub pax_records : Option PaxRecords
  pub gnu_long_name : Option Codes
  pub gnu_long_link : Option Codes
  pub symlinks : List Codes
  pub ended : Bool
  pub pushed : List ℕ

abbrev pub new_guard : Codes → RestoreTarGuard
new_guard root = record {
  root_name = root;
  rejection = none;
  buffered = [];
  data_remaining = 0;
  held = [];
  pax_records = none;
  gnu_long_name = none;
  gnu_long_link = none;
  symlinks = [];
  ended = false;
  pushed = [];
}

abbrev pub max_meta_body_bytes : ℕ
max_meta_body_bytes = 1_048_576

abbrev pub is_header_only : ℕ → Bool
is_header_only t = leb b'1' t && leb t b'6'

abbrev pub is_accepted : ℕ → Bool
is_accepted t = t == b'0' || t == 0 || t == b'7' || is_header_only t

abbrev pub is_meta : ℕ → Bool
is_meta t = t == b'x' || t == b'g' || t == b'L' || t == b'K'

abbrev pub is_rejected : RestoreTarGuard → Bool
is_rejected g = elim g.rejection [ none ↦ false | some _ ↦ true ]

unfoldable pub reject : Rejection → RestoreTarGuard → RestoreTarGuard
reject reason g = record g { rejection = some reason; buffered = []; held = [] }

-- `push(consume(length))`
unfoldable pub push_consumed : ℕ → RestoreTarGuard → RestoreTarGuard
push_consumed n g = record g {
  pushed = g.pushed ++ take n g.buffered;
  buffered = drop n g.buffered;
}

-- How a round of the loop ends: by `return`, or by `continue`.
pub data Round : Type 0 where
  stop : RestoreTarGuard → Round
  more : RestoreTarGuard → Round

abbrev pub is_empty {ℓ} : {A : Type ℓ} → List A → Bool
is_empty [] = true
is_empty (_ ∷ _) = false

abbrev pub or_else : Option Codes → Codes → Codes
or_else none d = d
or_else (some t) d = t

abbrev pub record_of : Option PaxRecords → String → Option Codes
record_of none key = none
record_of (some records) key = get_record (codes key) records

-- The name and the link target that the entry of a header has.
unfoldable pub entry_name : Decoder → RestoreTarGuard → List ℕ → Codes
entry_name utf8 g header =
    or_else g.gnu_long_name (or_else (record_of g.pax_records "path") (header_name utf8 header))

unfoldable pub entry_link : Decoder → RestoreTarGuard → List ℕ → Codes
entry_link utf8 g header =
    or_else g.gnu_long_link
      (or_else (record_of g.pax_records "linkpath") (read_string utf8 header 157 100))

-- The entry's size; `none` where the PAX record of it is no safe number.
abbrev checked_size : Codes → Option ℕ
checked_size text =
    if all_in b'0' b'9' text && leb (number_from 10 0 text) 9_007_199_254_740_991
    then some (number_from 10 0 text)
    else none

abbrev size_from : ℕ → Option Codes → Option ℕ
size_from own none = some own
size_from own (some text) = checked_size text

unfoldable pub entry_size : RestoreTarGuard → ℕ → Option ℕ
entry_size g own = size_from own (record_of g.pax_records "size")

-- An old regular entry whose name ends in a slash is a directory.
unfoldable pub entry_type : ℕ → Codes → ℕ
entry_type raw name = if raw == 0 && last_is b'/' name then b'5' else raw

abbrev pub forget_preamble : RestoreTarGuard → RestoreTarGuard
forget_preamble g = record g { pax_records = none; gnu_long_name = none; gnu_long_link = none }

-- The held blocks, then the entry's header.
unfoldable pub forward : ℕ → ℕ → RestoreTarGuard → RestoreTarGuard
unfolding push_consumed
forward kind size g =
    record (push_consumed block_size (record g { pushed = g.pushed ++ concat g.held; held = [] })) {
      data_remaining = if is_header_only kind then 0 else round_up_to_block size;
    }

abbrev pub judged : ℕ → Codes → ℕ → RestoreTarGuard → Option Problem → Round
judged kind name size g (some problem) = stop (reject (unsafe_entry problem) g)
judged kind name size g none =
    more (forward kind size (record g { symlinks = linked kind name g.symlinks }))

abbrev pub admit_sized : Decoder → RestoreTarGuard → List ℕ → ℕ → Option ℕ → Round
admit_sized utf8 g header raw none = stop (reject bad_pax_size g)
admit_sized utf8 g header raw (some size) =
    let name = entry_name utf8 g header in
    judged (entry_type raw name) name size (forget_preamble g)
      (problem_with g.root_name g.symlinks (entry_type raw name) name (entry_link utf8 g header))

unfoldable pub admit_entry : Decoder → RestoreTarGuard → List ℕ → ℕ → ℕ → Round
admit_entry utf8 g header raw own = admit_sized utf8 g header raw (entry_size g own)

-- An empty long name overrides nothing.
abbrev pub unless_empty : Codes → Option Codes
unless_empty [] = none
unless_empty (c ∷ cs) = some (c ∷ cs)

-- `held.push(consume(total))`
unfoldable pub hold : ℕ → RestoreTarGuard → RestoreTarGuard
hold total g = record g {
  held = g.held ++ take total g.buffered ∷ [];
  buffered = drop total g.buffered;
}

abbrev pub read_pax : ℕ → ℕ → RestoreTarGuard → Option PaxRecords → Round
read_pax kind total g none = stop (reject malformed_pax g)
read_pax kind total g (some records) =
    more (hold total (if kind == b'x' then record g { pax_records = some records } else g))

unfoldable pub read_meta_header : Decoder → RestoreTarGuard → ℕ → ℕ → List ℕ → Round
read_meta_header utf8 g kind total body =
    if kind == b'L'
    then more (hold total (record g { gnu_long_name = unless_empty (utf8 (before_code 0 body)) }))
    else if kind == b'K'
    then more (hold total (record g { gnu_long_link = unless_empty (utf8 (before_code 0 body)) }))
    else read_pax kind total g (parse_pax_records utf8 body)

unfoldable pub meta_round : Decoder → RestoreTarGuard → ℕ → ℕ → Round
meta_round utf8 g kind size =
    if ltb max_meta_body_bytes size
    then stop (reject oversized_header g)
    else if ltb (length g.buffered) (block_size + round_up_to_block size)
    then stop g
    else read_meta_header utf8 g kind (block_size + round_up_to_block size)
        (take size (drop block_size g.buffered))

unfoldable pub typed_round : Decoder → RestoreTarGuard → List ℕ → ℕ → ℕ → Round
typed_round utf8 g header kind size =
    if is_meta kind
    then meta_round utf8 g kind size
    else if not (is_accepted kind)
    then stop (reject (unsupported_type kind) g)
    else admit_entry utf8 g header kind size

abbrev pub sized_round : Decoder → RestoreTarGuard → List ℕ → Option ℕ → Round
sized_round utf8 g header none = stop (reject bad_size g)
sized_round utf8 g header (some size) = typed_round utf8 g header (get_or header 156 0) size

unfoldable pub header_round : Decoder → RestoreTarGuard → List ℕ → Round
header_round utf8 g header =
    if all (λ byte. byte == 0) header
    then if is_empty g.held
      then more (record g { ended = true })
      else stop (reject dangling_header g)
    else if not (checksum_matches utf8 header)
    then stop (reject bad_checksum g)
    else sized_round utf8 g header (read_number utf8 header 124 12)

abbrev pub smaller : ℕ → ℕ → ℕ
smaller a b = if ltb a b then a else b

-- `dataRemaining -= length`, for what was pushed.
unfoldable pub pass_data : ℕ → RestoreTarGuard → RestoreTarGuard
pass_data n g = record (push_consumed n g) { data_remaining = g.data_remaining - n }

unfoldable pub running_round : Decoder → RestoreTarGuard → Round
running_round utf8 g =
    if ltb 0 g.data_remaining
    then if is_empty g.buffered
      then stop g
      else more (pass_data (smaller g.data_remaining (length g.buffered)) g)
    else if ltb (length g.buffered) block_size
    then stop g
    else header_round utf8 g (take block_size g.buffered)

unfoldable pub walk_round : Decoder → RestoreTarGuard → Round
walk_round utf8 g =
    if g.ended then stop (push_consumed (length g.buffered) g) else running_round utf8 g

abbrev pub walk_on : (RestoreTarGuard → RestoreTarGuard) → Round → RestoreTarGuard
walk_on next (stop g) = g
walk_on next (more g) = next g

unfoldable pub walk : Decoder → ℕ → RestoreTarGuard → RestoreTarGuard
walk utf8 zero g = g
walk utf8 (suc fuel) g =
    let rest = walk_on (walk utf8 fuel) (walk_round utf8 g) in if is_rejected g then g else rest

abbrev pub received : List ℕ → RestoreTarGuard → RestoreTarGuard
received chunk g = record g { buffered = g.buffered ++ chunk }

unfoldable pub transform : Decoder → List ℕ → RestoreTarGuard → RestoreTarGuard
transform utf8 chunk g =
    if is_rejected g
    then g
    else if g.ended
    then record g { pushed = g.pushed ++ chunk }
    else walk utf8 (length (g.buffered ++ chunk) + 2) (received chunk g)

abbrev pub unfinished : RestoreTarGuard → Bool
unfinished g = not (is_empty g.buffered) || not (is_empty g.held) || ltb 0 g.data_remaining

unfoldable pub flush : RestoreTarGuard → RestoreTarGuard
flush g =
    if not (is_rejected g) && not g.ended && unfinished g
    then record g { rejection = some partial_entry }
    else g

-- The upload, chunk by chunk, and its end.
abbrev pub feed : Decoder → List (List ℕ) → RestoreTarGuard → RestoreTarGuard
feed utf8 [] g = g
feed utf8 (chunk ∷ chunks) g = feed utf8 chunks (transform utf8 chunk g)

unfoldable pub restore : Decoder → Codes → List (List ℕ) → RestoreTarGuard
restore utf8 root chunks = flush (feed utf8 chunks (new_guard root))
