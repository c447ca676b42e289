-- ===== src/Broker/TarGuard/Header.antt =====
-- The fields of a tar header and the records of a PAX header (restore-tar-guard.ts).
use docker_webmail_gui.Common.{
  Bool, Codes, List, Option, all_in, before_code, drop, false, get_or, if◌then◌else◌, leb, length,
  ltb, none, not, number_from, same_codes, some, split_first, suc, take, trim, zero, ℕ, ◌*◌, ◌++◌,
  ◌+◌, ◌-◌, ◌/◌, ◌==◌, ◌∷◌, ◌||◌, [],
}

-- `Buffer.toString('utf8')`
abbrev pub Decoder : Type 0
Decoder = List ℕ → Codes

abbrev pub block_size : ℕ
block_size = 512

abbrev field : List ℕ → ℕ → ℕ → List ℕ
field block offset n = take n (drop offset block)

unfoldable pub read_string : Decoder → List ℕ → ℕ → ℕ → Codes
read_string utf8 block offset n = utf8 (before_code 0 (field block offset n))

abbrev base_256 : ℕ → List ℕ → ℕ
base_256 acc [] = acc
base_256 acc (b ∷ bs) = base_256 (acc * 256 + b) bs

abbrev octal : Codes → Option ℕ
octal [] = some 0
octal (c ∷ cs) = if all_in b'0' b'7' (c ∷ cs) then some (number_from 8 0 (c ∷ cs)) else none

-- `& 0x3f` of a first byte from 0x80 up to 0xbf; one with the next bit set is negative.
abbrev binary : List ℕ → Option ℕ
binary [] = none
binary (first ∷ rest) =
    if leb 0xc0 first
    then none
    else if leb (base_256 (first - 0x80) rest) 9_007_199_254_740_991
    then some (base_256 (first - 0x80) rest)
    else none

unfoldable pub read_number : Decoder → List ℕ → ℕ → ℕ → Option ℕ
unfolding read_string
read_number utf8 block offset n =
    if leb 0x80 (get_or block offset 0)
    then binary (field block offset n)
    else octal (trim (read_string utf8 block offset n))

-- The bytes' sum with the checksum's own eight bytes as blanks, and how many are above 127.
abbrev blanked : List ℕ → List ℕ
blanked block =
    take 148 block ++ (0x20 ∷ 0x20 ∷ 0x20 ∷ 0x20 ∷ 0x20 ∷ 0x20 ∷ 0x20 ∷ 0x20 ∷ [] ++ drop 156 block)

abbrev byte_sum : List ℕ → ℕ
byte_sum [] = 0
byte_sum (b ∷ bs) = b + byte_sum bs

abbrev high_bytes : List ℕ → ℕ
high_bytes [] = 0
high_bytes (b ∷ bs) = (if ltb 127 b then 1 else 0) + high_bytes bs

-- The signed sum is the unsigned one less 256 for each byte above 127.
abbrev sum_is : List ℕ → Option ℕ → Bool
sum_is block none = false
sum_is block (some recorded) =
    recorded == byte_sum (blanked block)
    || recorded + 256 * high_bytes (blanked block) == byte_sum (blanked block)

unfoldable pub checksum_matches : Decoder → List ℕ → Bool
unfolding read_number
checksum_matches utf8 block = sum_is block (read_number utf8 block 148 8)

abbrev with_prefix : Codes → Codes → Codes
with_prefix [] name = name
with_prefix (p ∷ ps) name = (p ∷ ps) ++ b'/' ∷ name

abbrev ustar : Codes
ustar = b'u' ∷ b's' ∷ b't' ∷ b'a' ∷ b'r' ∷ 0 ∷ []

abbrev star_trailer : Codes
star_trailer = b't' ∷ b'a' ∷ b'r' ∷ 0 ∷ []

abbrev prefix_length : List ℕ → ℕ
prefix_length block = if same_codes (field block 508 4) star_trailer then 131 else 155

unfoldable pub header_name : Decoder → List ℕ → Codes
unfolding read_string
header_name utf8 block =
    if same_codes (field block 257 6) ustar
    then with_prefix (read_string utf8 block 345 (prefix_length block))
        (read_string utf8 block 0 100)
    else read_string utf8 block 0 100

-- `Math.ceil(size / 512) * 512`
unfoldable pub round_up_to_block : ℕ → ℕ
round_up_to_block size = (size + 511) / 512 * 512

-- A `Map`, its newest entry first.
abbrev pub PaxRecords : Type 0
PaxRecords = List (Codes × Codes)

abbrev pub get_record : Codes → PaxRecords → Option Codes
get_record key [] = none
get_record key ((k, v) ∷ records) =
    let rest = get_record key records in if same_codes k key then some v else rest

abbrev set_record : Option (Codes × Codes) → PaxRecords → Option PaxRecords
set_record none records = none
set_record (some ([], value)) records = none
set_record (some (k ∷ key, value)) records = some ((k ∷ key, value) ∷ records)

-- The record's end, from its length; `none` where the length is none or does not fit the body.
abbrev record_length : List ℕ → Codes → Option ℕ
record_length body digits =
    let n = number_from 10 0 digits in
    if not (all_in b'0' b'9' digits)
      || leb n (length digits + 1)
      || ltb (length body) n
      || not (get_or body (n - 1) 0 == 0x0a)
    then none
    else some n

-- One record at the body's start: the records with it, and the rest of the body.
abbrev next_record : Decoder → List ℕ → PaxRecords → Codes → Option ℕ → Option (PaxRecords × List ℕ)
next_record utf8 body records digits none = none
next_record utf8 body records digits (some n) =
    let text = utf8 (take (n - 1 - (length digits + 1)) (drop (length digits + 1) body)) in
    elim (set_record (split_first b'=' text) records) [
      | none ↦ none
      | some records' ↦ some (records', drop n body)
    ]

abbrev first_record :
    Decoder → List ℕ → PaxRecords → Option (Codes × Codes) → Option (PaxRecords × List ℕ)
first_record utf8 body records none = none
first_record utf8 body records (some (digits, after)) =
    next_record utf8 body records digits (record_length body digits)

-- On fuel, one unit for each byte of the body; every record takes one at least.
unfoldable pub pax_records_from : Decoder → ℕ → List ℕ → PaxRecords → Option PaxRecords
pax_records_from utf8 zero body records = some records
pax_records_from utf8 (suc fuel) [] records = some records
pax_records_from utf8 (suc fuel) (b ∷ body) records =
    elim (first_record utf8 (b ∷ body) records (split_first 0x20 (b ∷ body))) [
      | none ↦ none
      | some (records', rest) ↦ pax_records_from utf8 fuel rest records'
    ]

unfoldable pub parse_pax_records : Decoder → List ℕ → Option PaxRecords
unfolding pax_records_from
parse_pax_records utf8 body = pax_records_from utf8 (length body) body []
