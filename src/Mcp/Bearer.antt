-- ===== src/Mcp/Bearer.antt =====
-- The resource server's check of a bearer token: apps/mcp/src/oauth/bearer.ts. Of a challenge only
-- the error and the scopes are kept; the descriptions of refusals are left out.
pub mod Sound
use docker_webmail_gui.Mcp.Texts.{is_connection_id, bearer_token}
use docker_webmail_gui.Mcp.Tokens.{Digests, audited, resource_for, is_empty}
use docker_webmail_gui.Mcp.Store.{
  Store, McpScope, AccessTokenRow, McpSettings, ConnectionRow, find_access_token_by_hash, is_null,
  BindingRow, includes, GrantRow, mcp_scopes, mail_send, find_binding, touch_grant, find_connection,
  touch_used, find_grant,
}
use docker_webmail_gui.Mcp.Connections.{ConnectionStatus, is_revoked, status_of}
use docker_webmail_gui.Common.{
  ℕ, zero, suc, ◌+◌, ◌-◌, ◌*◌, ◌/◌, ◌%◌, ◌^◌, ◌≤◌, ◌<◌, String, ◌≡◌, refl, sym, ap, ◌∙◌, ◌≢◌, ◌↔◌,
  ◌⊎◌, inl, inr, Bool, true, false, not, ◌&&◌, ◌||◌, Option, none, some, List, [], ◌∷◌, ◌++◌, map,
  append-nil, append_assoc, arith, ◌==s◌, eq_iff, ltb, leb, ◌==◌, if◌then◌else◌, ltb→lt,
  ltb-false→le, lt→ltb, le→ltb-false, leb→le, ==_iff, Bool-cases, Option-cases, length, take, drop,
  get_or, concat, length-append, take-append-drop, length-drop, take-append, drop-append,
  get_or-append, take-length, drop-length, any, all, filter, find, All, All-append, update_row,
  update_where, count_where, find-update_where, find-append, find-holds, All-update_where, All-find,
  All-filter,
}

pub record McpAuthContext : Type 0 where
  pub connection_id : String
  pub binding_id : String
  pub mailbox : String
  pub grant_id : String
  pub client_id : String
  pub scopes : List McpScope
  pub sender_identities : List String

pub data ChallengeError : Type 0 where
  invalid_token insufficient_scope invalid_request : ChallengeError

pub record Challenge : Type 0 where
  pub scope : List McpScope
  pub error : Option ChallengeError

pub data BearerOutcome : Type 0 where
  granted : McpAuthContext → BearerOutcome
  refused : ℕ → Option Challenge → BearerOutcome

abbrev pub touch_interval_ms : ℕ
touch_interval_ms = 60_000

-- `availableCapabilities`
abbrev can_send : McpSettings → Bool
can_send settings = ltb 0 settings.sends_per_hour && ltb 0 settings.sends_per_day

abbrev is_capability : McpSettings → McpScope → Bool
is_capability settings mail_send = can_send settings
is_capability settings _ = true

unfoldable pub available_capabilities : McpSettings → List McpScope
available_capabilities settings = filter (is_capability settings) mcp_scopes

abbrev pub challenge_401 : ConnectionRow → Option ChallengeError → BearerOutcome
challenge_401 connection error =
    refused 401 (some (record { scope = connection.scopes; error = error }))

-- A result with the store that the check leaves.
abbrev pub Checked : Type 0 → Type 0
Checked A = A × Store

abbrev pub effective_scopes : AccessTokenRow → ConnectionRow → McpSettings → List McpScope
effective_scopes token connection settings =
    filter
      (λ scope.
        includes connection.scopes scope && includes (available_capabilities settings) scope)
      token.scopes

-- `lastUsedAt` is missing or more than a minute old.
abbrev is_stale : Option ℕ → ℕ → Bool
is_stale none now = true
is_stale (some last) now = ltb touch_interval_ms (now - last)

unfoldable pub touched : ConnectionRow → GrantRow → ℕ → Store → Store
touched connection grant now s =
    if is_stale connection.last_used_at now
    then touch_grant grant.id now (touch_used connection.id now s)
    else s

abbrev context_of : ConnectionRow → BindingRow → GrantRow → List McpScope → McpAuthContext
context_of connection binding grant scopes = record {
  connection_id = connection.id;
  binding_id = binding.id;
  mailbox = binding.mailbox;
  grant_id = grant.id;
  client_id = grant.client_id;
  scopes = scopes;
  sender_identities = connection.sender_identities;
}

abbrev is_active : ConnectionStatus → Bool
is_active ConnectionStatus.active = true
is_active _ = false

-- The end of the chain: the binding, the derived status and the scopes that are left.
unfoldable pub verify_binding :
    ConnectionRow
    → AccessTokenRow
    → GrantRow
    → ℕ
    → Store
    → Option BindingRow
    → BearerOutcome × Store
verify_binding connection token grant now s none = (refused 403 none, s)
verify_binding connection token grant now s (some binding) =
    if not (is_active (status_of connection binding now s))
    then (refused 403 none, s)
    else if is_empty (effective_scopes token connection s.settings)
    then (
      refused 403 (some (record { scope = connection.scopes; error = some insufficient_scope })),
      s,
    )
    else (
      granted (context_of connection binding grant (effective_scopes token connection s.settings)),
      touched connection grant now s,
    )

abbrev denied : ConnectionRow → Store → BearerOutcome × Store
denied connection s = (
  challenge_401 connection (some ChallengeError.invalid_token),
  audited "access.denied" false "anonymous" connection.id s,
)

unfoldable pub verify_grant :
    ConnectionRow → AccessTokenRow → ℕ → Store → Option GrantRow → BearerOutcome × Store
verify_grant connection token now s none =
    (challenge_401 connection (some ChallengeError.invalid_token), s)
verify_grant connection token now s (some grant) =
    if not (is_null grant.revoked_at) || not (grant.connection_id ==s connection.id)
    then (challenge_401 connection (some ChallengeError.invalid_token), s)
    else verify_binding connection token grant now s (find_binding connection.binding_id s)

-- The token: live, in time, issued for this connection and for its present resource URL.
unfoldable pub verify_token :
    String → ConnectionRow → ℕ → Store → Option AccessTokenRow → BearerOutcome × Store
verify_token base connection now s none =
    (challenge_401 connection (some ChallengeError.invalid_token), s)
verify_token base connection now s (some token) =
    if not (is_null token.revoked_at) || leb token.expires_at now
    then (challenge_401 connection (some ChallengeError.invalid_token), s)
    else if not (token.connection_id ==s connection.id)
    then denied connection s
    else if not (token.resource ==s resource_for base connection.id)
    then denied connection s
    else verify_grant connection token now s (find_grant token.grant_id s)

abbrev verify_header :
    Digests → String → ConnectionRow → ℕ → Store → Option String → BearerOutcome × Store
verify_header d base connection now s none =
    (challenge_401 connection (some ChallengeError.invalid_request), s)
verify_header d base connection now s (some text) =
    verify_token base connection now s (find_access_token_by_hash (d.sha256_hex text) s)

-- A header that is missing or empty asks for authorization.
abbrev verify_authorization :
    Digests → String → ConnectionRow → Option String → ℕ → Store → BearerOutcome × Store
verify_authorization d base connection none now s = (challenge_401 connection none, s)
verify_authorization d base connection (some header) now s =
    if header ==s ""
    then (challenge_401 connection none, s)
    else verify_header d base connection now s (bearer_token header)

unfoldable pub verify_connection :
    Digests → String → Option String → ℕ → Store → Option ConnectionRow → BearerOutcome × Store
verify_connection d base authorization now s none = (refused 404 none, s)
verify_connection d base authorization now s (some connection) =
    if is_revoked connection.state
    then (refused 404 none, s)
    else verify_authorization d base connection authorization now s

abbrev verify_at :
    Digests → Option String → String → Option String → ℕ → Store → BearerOutcome × Store
verify_at d none id authorization now s = (refused 503 none, s)
verify_at d (some base) id authorization now s =
    if not s.settings.is_enabled
    then (refused 503 none, s)
    else if not (is_connection_id id)
    then (refused 404 none, s)
    else verify_connection d base authorization now s (find_connection id s)

unfoldable pub verify : Digests → String → Option String → ℕ → Store → BearerOutcome × Store
verify d id authorization now s = verify_at d s.settings.public_base_url id authorization now s
