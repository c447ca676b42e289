-- ===== src/Mcp/Texts.antt =====
-- The regular expressions and text functions that the MCP server's OAuth code uses
-- (apps/mcp/src/oauth): a text is a list of characters, each with its code point.
use Prim.Native.Char.{Char, code}
use Prim.Native.String
use docker_webmail_gui.Common.{
  ℕ, suc, String, ◌≡◌, refl, Bool, true, false, ◌&&◌, ◌||◌, Option, none, some, List, [], ◌∷◌, leb,
  in_range, is_space, ◌==◌, if◌then◌else◌,
}

abbrev pub is_alnum : ℕ → Bool
is_alnum c = in_range b'A' b'Z' c || in_range b'a' b'z' c || in_range b'0' b'9' c

-- `[A-Za-z0-9\-._~]`
unfoldable pub is_unreserved : ℕ → Bool
is_unreserved c = is_alnum c || c == b'-' || c == b'.' || c == b'_' || c == b'~'

unfoldable pub all_chars : (ℕ → Bool) → String → Bool
all_chars p String.[] = true
all_chars p (String.◌∷◌ c s) = p (code c) && all_chars p s

unfoldable pub char_count : String → ℕ
char_count String.[] = 0
char_count (String.◌∷◌ c s) = suc (char_count s)

-- `/^[A-Za-z0-9\-._~]{43,128}$/`
unfoldable pub is_code_verifier : String → Bool
unfolding all_chars is_unreserved char_count
is_code_verifier v = all_chars is_unreserved v && leb 43 (char_count v) && leb (char_count v) 128

-- `s.replace(/\/$/, '')`
unfoldable pub strip_slash : String → String
strip_slash String.[] = String.[]
strip_slash (String.◌∷◌ c String.[]) = if code c == b'/' then String.[] else String.◌∷◌ c String.[]
strip_slash (String.◌∷◌ c (String.◌∷◌ d s)) = String.◌∷◌ c (strip_slash (String.◌∷◌ d s))

unfoldable pub trim_start : String → String
trim_start String.[] = String.[]
trim_start (String.◌∷◌ c s) =
    let rest = trim_start s in if is_space (code c) then rest else String.◌∷◌ c s

abbrev cons_or_trim : Char → String → String
cons_or_trim c String.[] = if is_space (code c) then String.[] else String.◌∷◌ c String.[]
cons_or_trim c (String.◌∷◌ d s) = String.◌∷◌ c (String.◌∷◌ d s)

unfoldable pub trim_end : String → String
trim_end String.[] = String.[]
trim_end (String.◌∷◌ c s) = cons_or_trim c (trim_end s)

-- The part of the text behind a prefix.
unfoldable pub after_prefix : String → String → Option String
after_prefix String.[] s = some s
after_prefix (String.◌∷◌ c p) String.[] = none
after_prefix (String.◌∷◌ c p) (String.◌∷◌ d s) = if code c == code d then after_prefix p s else none

-- `[A-Za-z0-9\-._~+/]`
unfoldable pub is_token_char : ℕ → Bool
unfolding is_unreserved
is_token_char c = is_unreserved c || c == b'+' || c == b'/'

abbrev is_equals : ℕ → Bool
is_equals c = c == b'='

-- The rest of a token behind its first character: `[...]*=*`.
unfoldable pub token_rest : String → Bool
unfolding all_chars is_token_char
token_rest String.[] = true
token_rest (String.◌∷◌ c s) =
    let more = token_rest s in
    if is_token_char (code c) then more else is_equals (code c) && all_chars is_equals s

unfoldable pub is_token : String → Bool
unfolding token_rest
is_token String.[] = false
is_token (String.◌∷◌ c s) = is_token_char (code c) && token_rest s

abbrev checked_token : Option String → Option String
checked_token none = none
checked_token (some token) = if is_token token then some token else none

-- `/^Bearer ([A-Za-z0-9\-._~+/]+=*)$/.exec(authorization.trim())`, its group.
unfoldable pub bearer_token : String → Option String
unfolding is_token after_prefix trim_start trim_end
bearer_token authorization =
    checked_token (after_prefix "Bearer " (trim_end (trim_start authorization)))

-- `/^c[0-9a-z]{26}$/`
unfoldable pub is_connection_id : String → Bool
unfolding all_chars char_count
is_connection_id String.[] = false
is_connection_id (String.◌∷◌ c s) =
    code c == b'c'
    && all_chars (λ x. in_range b'0' b'9' x || in_range b'a' b'z' x) s
    && char_count s == 26

-- `split(' ')` without the empty tokens.
abbrev push_char : String → Char → String
push_char s c = String.◌++◌ s (String.◌∷◌ c String.[])

abbrev keep_token : String → List String → List String
keep_token String.[] more = more
keep_token (String.◌∷◌ c s) more = String.◌∷◌ c s ∷ more

unfoldable pub split_tokens : String → String → List String
split_tokens cur String.[] = keep_token cur []
split_tokens cur (String.◌∷◌ c s) =
    let closed = split_tokens String.[] s in
    let longer = split_tokens (push_char cur c) s in
    if code c == b' ' then keep_token cur closed else longer

text_tests :
    (bearer_token " Bearer abc+/= " ≡ some "abc+/=")
    × (bearer_token "Bearer a=b" ≡ none)
    × (strip_slash "https://x/mcp/" ≡ "https://x/mcp")
    × (split_tokens "" "mail.read  mail.send" ≡ "mail.read" ∷ "mail.send" ∷ [])
    × (is_connection_id "c0123456789abcdefghijklmnop" ≡ true)
unfolding bearer_token strip_slash split_tokens is_connection_id
text_tests = (refl, refl, refl, refl, refl)
