-- ===== src/Mcp/Tokens.antt =====
-- The token service: apps/mcp/src/oauth/tokens.service.ts. The two digests are Node's, and random
-- values (tokens and row ids) are drawn by the caller. A call stands between two events of the event
-- loop: none of the modelled methods waits. The descriptions of errors and the audit entries' details
-- are left out, and `scope` of an answer is the list of scopes.
pub mod Exchange
pub mod Replay
pub mod Refresh
pub mod Rotation
pub mod Revoking
use Prim.Native.String
use docker_webmail_gui.Mcp.Connections.{ConnectionStatus, status_of}
use docker_webmail_gui.Mcp.Outcome.{
  M, ok, ◌>>◌, ◌>>=◌, update, select, modify, require, invalid_request, fail, invalid_grant, pure,
  guard, invalid_scope, unauthorized_client, invalid_target, internal,
}
use docker_webmail_gui.Mcp.Texts.{is_code_verifier, strip_slash, split_tokens}
use docker_webmail_gui.Mcp.Store.{
  OAuthClientRow, RefreshTokenRow, GrantRow, Store, McpScope, AuthorizationCodeRow, McpSettings,
  ConnectionRow, revoke_grant, revoke_access_token_by_hash, includes, is_text,
  find_refresh_token_by_hash, mark_refresh_token_used, create_code, find_access_token_by_hash,
  record_audit, AccessTokenRow, mcp_scopes, find_grant, create_refresh_token, create_access_token,
  mail_read, mail_send, mail_delete, touch_grant, create_grant, redeem_code, find_connection,
  attach_grant_to_code, consume_enrollment, is_null, touch_authorized, find_binding,
  find_code_by_hash,
}
use docker_webmail_gui.Common.{
  ℕ, zero, suc, ◌+◌, ◌-◌, ◌*◌, ◌/◌, ◌%◌, ◌^◌, ◌≤◌, ◌<◌, String, ◌≡◌, refl, sym, ap, ◌∙◌, ◌≢◌, ◌↔◌,
  ◌⊎◌, inl, inr, Bool, true, false, not, ◌&&◌, ◌||◌, Option, none, some, List, [], ◌∷◌, ◌++◌, map,
  append-nil, append_assoc, arith, ◌==s◌, eq_iff, ltb, leb, ◌==◌, if◌then◌else◌, ltb→lt,
  ltb-false→le, lt→ltb, le→ltb-false, leb→le, ==_iff, Bool-cases, Option-cases, length, take, drop,
  get_or, concat, length-append, take-append-drop, length-drop, take-append, drop-append,
  get_or-append, take-length, drop-length, any, all, filter, find, All, All-append, update_row,
  update_where, count_where, find-update_where, find-append, find-holds, All-update_where, All-find,
}

-- Node's `createHash('sha256')`: the hex digest, and the base64url digest of an ASCII text.
pub record Digests : Type 0 where
  pub sha256_hex : String → String
  pub sha256_base64url : String → String

-- What the random generators return during one call.
pub record Fresh : Type 0 where
  pub access_token : String
  pub refresh_token : String
  pub grant_id : String
  pub access_id : String
  pub refresh_id : String

pub record TokenResponse : Type 0 where
  pub access_token : String
  pub expires_in : ℕ
  pub refresh_token : String
  pub scopes : List McpScope

abbrev pub authorization_code_ttl_seconds : ℕ
authorization_code_ttl_seconds = 60

abbrev pub add_seconds : ℕ → ℕ → ℕ
add_seconds now seconds = now + seconds * 1000

unfoldable pub verify_pkce_s256 : Digests → String → String → Bool
verify_pkce_s256 d verifier challenge =
    is_code_verifier verifier && (d.sha256_base64url verifier ==s challenge)

abbrev scope_name : McpScope → String
scope_name mail_read = "mail.read"
scope_name mail_send = "mail.send"
scope_name mail_delete = "mail.delete"

-- The `mail` part of `parseScopeParam`.
pub parse_scope_param : String → List McpScope
parse_scope_param raw =
    filter (λ scope. any (λ t. t ==s scope_name scope) (split_tokens "" raw)) mcp_scopes

pub record CodeRequest : Type 0 where
  pub request_id : String
  pub client_id : String
  pub redirect_uri : String
  pub code_challenge : String
  pub scopes : List McpScope
  pub resource : String
  pub connection_id : String
  pub enrollment_id : String

-- `issueCode`, given the random code and row id.
unfoldable pub issue_code : Digests → CodeRequest → String → String → ℕ → Store → Store
issue_code d i code code_id now = create_code (record {
  id = code_id;
  code_hash = d.sha256_hex code;
  request_id = i.request_id;
  client_id = i.client_id;
  redirect_uri = i.redirect_uri;
  code_challenge = i.code_challenge;
  scopes = i.scopes;
  resource = i.resource;
  connection_id = i.connection_id;
  enrollment_id = i.enrollment_id;
  created_at = now;
  expires_at = add_seconds now authorization_code_ttl_seconds;
  redeemed_at = none;
  grant_id = none;
})

abbrev access_row :
    Digests → Fresh → String → String → List McpScope → String → ℕ → McpSettings → AccessTokenRow
access_row d fresh grant connection scopes resource now settings = record {
  id = fresh.access_id;
  token_hash = d.sha256_hex fresh.access_token;
  grant_id = grant;
  connection_id = connection;
  scopes = scopes;
  resource = resource;
  created_at = now;
  expires_at = add_seconds now (settings.access_token_ttl_minutes * 60);
  revoked_at = none;
}

abbrev refresh_row : Digests → Fresh → String → Option String → ℕ → McpSettings → RefreshTokenRow
refresh_row d fresh grant parent now settings = record {
  id = fresh.refresh_id;
  token_hash = d.sha256_hex fresh.refresh_token;
  grant_id = grant;
  parent_id = parent;
  created_at = now;
  expires_at = add_seconds now (settings.refresh_token_ttl_days * 86_400);
  used_at = none;
  revoked_at = none;
}

unfoldable pub mint_pair :
    Digests → Fresh → String → String → List McpScope → String → Option String → ℕ → M TokenResponse
mint_pair d fresh grant connection scopes resource parent now s = (
  ok (record {
    access_token = fresh.access_token;
    expires_in = s.settings.access_token_ttl_minutes * 60;
    refresh_token = fresh.refresh_token;
    scopes = scopes;
  }),
  create_refresh_token (refresh_row d fresh grant parent now s.settings)
      (create_access_token (access_row d fresh grant connection scopes resource now s.settings) s),
)

abbrev pub is_usable : ConnectionStatus → Bool
is_usable ConnectionStatus.active = true
is_usable ConnectionStatus.pending = true
is_usable _ = false

-- `toSummary` fails where the binding is missing.
unfoldable pub assert_connection_usable : String → ℕ → M (Unit {0})
assert_connection_usable id now = do
  on ← select (λ s. some s.settings.is_enabled) invalid_grant
  guard on invalid_grant
  connection ← select (find_connection id) invalid_grant
  binding ← select (find_binding connection.binding_id) internal
  status ← select (λ s. some (status_of connection binding now s)) internal
  guard (is_usable status) invalid_grant

abbrev pub audited : String → Bool → String → String → Store → Store
audited event success client connection =
    record_audit
      (record { event = event; success = success; actor = client; connection_id = connection })

pub record ExchangeInput : Type 0 where
  pub client : OAuthClientRow
  pub code : Option String
  pub redirect_uri : Option String
  pub code_verifier : Option String
  pub resource : Option String

-- `if (code.grantId !== null) revokeGrant(...)`
abbrev pub revoke_if_some : Option String → String → ℕ → Store → Store
revoke_if_some none reason now s = s
revoke_if_some (some grant) reason now s = revoke_grant grant reason now s

-- A code that was redeemed before: revoke what it produced, and throw.
abbrev pub refuse_replayed : AuthorizationCodeRow → OAuthClientRow → ℕ → M (Unit {0})
refuse_replayed code client now = do
  modify (revoke_if_some code.grant_id "authorization code replayed" now)
  modify (audited "oauth.code_replay_detected" false client.client_id code.connection_id)
  fail invalid_grant

-- `input.resource` may be left out, or name the code's resource, also with one slash more.
abbrev pub names_resource : Option String → String → Bool
names_resource none resource = true
names_resource (some given) resource = (given ==s resource) || (strip_slash given ==s resource)

-- The code that a request presents, and its verifier.
unfoldable pub presented : Digests → ExchangeInput → M (AuthorizationCodeRow × String)
presented d i = do
  given ← require i.code invalid_request
  verifier ← require i.code_verifier invalid_request
  guard (any (λ t. t ==s "authorization_code") i.client.grant_types) unauthorized_client
  code ← select (find_code_by_hash (d.sha256_hex given)) invalid_grant
  pure (code, verifier)

abbrev refuse_if_replayed : Option ℕ → AuthorizationCodeRow → OAuthClientRow → ℕ → M (Unit {0})
refuse_if_replayed none code client now = pure tt
refuse_if_replayed (some _) code client now = refuse_replayed code client now

-- The other checks of `exchangeCode` before it writes.
unfoldable pub check_code :
    Digests → ExchangeInput → ℕ → AuthorizationCodeRow → String → M (Unit {0})
check_code d i now code verifier = do
  refuse_if_replayed code.redeemed_at code i.client now
  guard (code.client_id ==s i.client.client_id) invalid_grant
  guard (ltb now code.expires_at) invalid_grant
  guard (is_text i.redirect_uri code.redirect_uri) invalid_grant
  guard (verify_pkce_s256 d verifier code.code_challenge) invalid_grant
  guard (names_resource i.resource code.resource) invalid_target

-- `code.scopes.filter((scope) => connection.scopes.includes(scope))`
abbrev pub allowed : List McpScope → List McpScope → List McpScope
allowed wanted scopes = filter (includes scopes) wanted

abbrev pub is_empty {ℓ} : {A : Type ℓ} → List A → Bool
is_empty [] = true
is_empty (_ ∷ _) = false

-- Redeem the code, then consume the setup credential that its approval reserved.
unfoldable pub redeem : AuthorizationCodeRow → ℕ → M (Unit {0})
redeem code now = do
  update (redeem_code code.id now) invalid_grant
  update (consume_enrollment code.enrollment_id code.id now) invalid_grant

abbrev granted : AuthorizationCodeRow → OAuthClientRow → List McpScope → Fresh → ℕ → GrantRow
granted code client scopes fresh now = record {
  id = fresh.grant_id;
  connection_id = code.connection_id;
  client_id = client.client_id;
  client_name = client.client_name;
  redirect_uri = code.redirect_uri;
  scopes = scopes;
  resource = code.resource;
  created_at = now;
  last_used_at = none;
  revoked_at = none;
  revoked_reason = none;
}

-- The grant, its link to the code, and the first pair of tokens.
unfoldable pub issue :
    Digests → Fresh → AuthorizationCodeRow → OAuthClientRow → ℕ → List McpScope → M TokenResponse
issue d fresh code client now scopes = do
  modify (create_grant (granted code client scopes fresh now))
  modify (attach_grant_to_code code.id fresh.grant_id)
  modify (touch_authorized code.connection_id now)
  pair ← mint_pair d fresh fresh.grant_id code.connection_id scopes code.resource none now
  modify (audited "enrollment.consumed" true client.client_id code.connection_id)
  modify (audited "oauth.token_issued" true client.client_id code.connection_id)
  pure pair

-- What `exchangeCode` does behind the redemption.
unfoldable pub connect :
    Digests → Fresh → ExchangeInput → ℕ → AuthorizationCodeRow → M TokenResponse
connect d fresh i now code = do
  connection ← select (find_connection code.connection_id) invalid_grant
  guard (not (is_empty (allowed code.scopes connection.scopes))) invalid_scope
  issue d fresh code i.client now (allowed code.scopes connection.scopes)

abbrev grant_access : Digests → Fresh → ExchangeInput → ℕ → AuthorizationCodeRow → M TokenResponse
grant_access d fresh i now code = do
  assert_connection_usable code.connection_id now
  connect d fresh i now code

abbrev redeem_and_grant :
    Digests → Fresh → ExchangeInput → ℕ → AuthorizationCodeRow → M TokenResponse
redeem_and_grant d fresh i now code = do redeem code now; grant_access d fresh i now code

abbrev check_and_grant :
    Digests → Fresh → ExchangeInput → ℕ → AuthorizationCodeRow × String → M TokenResponse
check_and_grant d fresh i now (code, verifier) = do
  check_code d i now code verifier
  redeem_and_grant d fresh i now code

unfoldable pub exchange_code : Digests → Fresh → ExchangeInput → ℕ → M TokenResponse
exchange_code d fresh i now = presented d i >>= check_and_grant d fresh i now

pub record RefreshInput : Type 0 where
  pub client : OAuthClientRow
  pub refresh_token : Option String
  pub scope : Option String
  pub resource : Option String

-- A refresh token that was rotated before, or lost the race: revoke the grant, and throw.
abbrev pub refuse_reused : GrantRow → OAuthClientRow → String → ℕ → M (Unit {0})
refuse_reused grant client reason now = do
  modify (revoke_grant grant.id reason now)
  modify (audited "oauth.refresh_replay_detected" false client.client_id grant.connection_id)
  fail invalid_grant

abbrev pub names_exactly : Option String → String → Bool
names_exactly none resource = true
names_exactly (some given) resource = strip_slash given ==s resource

abbrev pub resource_for : String → String → String
resource_for base id = String.◌++◌ base (String.◌++◌ "/mcp/" id)

abbrev pub audience_holds : Option String → String → String → Bool
audience_holds none connection resource = false
audience_holds (some base) connection resource = resource_for base connection ==s resource

-- The scopes of the new pair; `none` where the request names one that the grant lacks.
abbrev narrowed : GrantRow → ConnectionRow → List McpScope → Option (List McpScope)
narrowed grant connection requested =
    if any (λ scope. not (includes grant.scopes scope)) requested
    then none
    else some (filter (includes requested) (allowed grant.scopes connection.scopes))

unfoldable pub refresh_scopes : GrantRow → ConnectionRow → Option String → Option (List McpScope)
refresh_scopes grant connection none = some (allowed grant.scopes connection.scopes)
refresh_scopes grant connection (some raw) = narrowed grant connection (parse_scope_param raw)

-- The refresh token that a request presents, and its grant, which is the client's own.
unfoldable pub presented_token : Digests → RefreshInput → M (RefreshTokenRow × GrantRow)
presented_token d i = do
  given ← require i.refresh_token invalid_request
  token ← select (find_refresh_token_by_hash (d.sha256_hex given)) invalid_grant
  grant ← select (find_grant token.grant_id) invalid_grant
  guard (grant.client_id ==s i.client.client_id) invalid_grant
  pure (token, grant)

abbrev refuse_if_reused : Option ℕ → GrantRow → OAuthClientRow → ℕ → M (Unit {0})
refuse_if_reused none grant client now = pure tt
refuse_if_reused (some _) grant client now =
    refuse_reused grant client "refresh token replay detected" now

-- A token that is unused, live and in time, for the grant's resource.
unfoldable pub check_refresh_token : RefreshInput → ℕ → RefreshTokenRow → GrantRow → M (Unit {0})
check_refresh_token i now token grant = do
  refuse_if_reused token.used_at grant i.client now
  guard (is_null token.revoked_at && is_null grant.revoked_at) invalid_grant
  guard (ltb now token.expires_at) invalid_grant
  guard (names_exactly i.resource grant.resource) invalid_target

-- The connection behind the grant, whose resource URL is still the grant's.
unfoldable pub check_audience : GrantRow → M ConnectionRow
check_audience grant = do
  connection ← select (find_connection grant.connection_id) invalid_grant
  base ← select (λ s. some s.settings.public_base_url) invalid_grant
  guard (audience_holds base connection.id grant.resource) invalid_grant
  pure connection

-- The scopes that remain, of which there is one at least.
unfoldable pub narrow : RefreshInput → GrantRow → ConnectionRow → M (List McpScope)
narrow i grant connection = do
  scopes ← require (refresh_scopes grant connection i.scope) invalid_scope
  guard (not (is_empty scopes)) invalid_scope
  pure scopes

abbrev usable_scopes : RefreshInput → GrantRow → ℕ → ConnectionRow → M (List McpScope)
usable_scopes i grant now connection = do
  assert_connection_usable grant.connection_id now
  narrow i grant connection

unfoldable pub check_refresh_scopes : RefreshInput → GrantRow → ℕ → M (List McpScope)
check_refresh_scopes i grant now = check_audience grant >>= usable_scopes i grant now

-- `markRefreshTokenUsed`, whose loser is treated as a replay.
unfoldable pub rotate : RefreshTokenRow → GrantRow → OAuthClientRow → ℕ → M (Unit {0})
rotate token grant client now s =
    let (won, s') = mark_refresh_token_used token.id now s in
    if won then (ok tt, s') else refuse_reused grant client "concurrent refresh token reuse" now s'

-- The new pair, once the presented token is marked as used.
unfoldable pub renew :
    Digests
    → Fresh
    → RefreshInput
    → ℕ
    → RefreshTokenRow
    → GrantRow
    → List McpScope
    → M TokenResponse
renew d fresh i now token grant scopes = do
  modify (touch_grant grant.id now)
  pair ← mint_pair d fresh grant.id grant.connection_id scopes grant.resource (some token.id) now
  modify (audited "oauth.token_refreshed" true i.client.client_id grant.connection_id)
  pure pair

abbrev rotate_and_renew :
    Digests
    → Fresh
    → RefreshInput
    → ℕ
    → RefreshTokenRow
    → GrantRow
    → List McpScope
    → M TokenResponse
rotate_and_renew d fresh i now token grant scopes = do
  rotate token grant i.client now
  renew d fresh i now token grant scopes

abbrev scope_and_renew :
    Digests → Fresh → RefreshInput → ℕ → RefreshTokenRow → GrantRow → M TokenResponse
scope_and_renew d fresh i now token grant = do
  scopes ← check_refresh_scopes i grant now
  rotate_and_renew d fresh i now token grant scopes

abbrev check_and_renew :
    Digests → Fresh → RefreshInput → ℕ → RefreshTokenRow × GrantRow → M TokenResponse
check_and_renew d fresh i now (token, grant) = do
  check_refresh_token i now token grant
  scope_and_renew d fresh i now token grant

unfoldable pub refresh : Digests → Fresh → RefreshInput → ℕ → M TokenResponse
refresh d fresh i now = presented_token d i >>= check_and_renew d fresh i now

-- `tryRefresh` and `tryAccess` of `revoke`: whether the token was known, and the new store.
abbrev own_grant : Option GrantRow → OAuthClientRow → Option GrantRow
own_grant none client = none
own_grant (some grant) client = if grant.client_id ==s client.client_id then some grant else none

abbrev revoke_own : Option GrantRow → OAuthClientRow → ℕ → Store → Store
revoke_own none client now s = s
revoke_own (some grant) client now s =
    audited "oauth.token_revoked" true client.client_id grant.connection_id
      (revoke_grant grant.id "revoked by client" now s)

abbrev revoke_own_access : Option GrantRow → OAuthClientRow → String → ℕ → Store → Store
revoke_own_access none client hash now s = s
revoke_own_access (some grant) client hash now s =
    audited "oauth.token_revoked" true client.client_id grant.connection_id
      (revoke_access_token_by_hash hash now s)

abbrev pub refresh_found : OAuthClientRow → ℕ → Store → Option RefreshTokenRow → Bool × Store
refresh_found client now s none = (false, s)
refresh_found client now s (some token) =
    (true, revoke_own (own_grant (find_grant token.grant_id s) client) client now s)

abbrev pub access_found : OAuthClientRow → String → ℕ → Store → Option AccessTokenRow → Bool × Store
access_found client hash now s none = (false, s)
access_found client hash now s (some token) =
    (true, revoke_own_access (own_grant (find_grant token.grant_id s) client) client hash now s)

abbrev pub try_refresh : OAuthClientRow → String → ℕ → Store → Bool × Store
try_refresh client hash now s = refresh_found client now s (find_refresh_token_by_hash hash s)

abbrev pub try_access : OAuthClientRow → String → ℕ → Store → Bool × Store
try_access client hash now s = access_found client hash now s (find_access_token_by_hash hash s)

abbrev or_else : Bool × Store → (Store → Bool × Store) → Store
or_else (known, s) next = if known then s else (next s).1

unfoldable pub revoke : Digests → OAuthClientRow → String → Option String → ℕ → Store → Store
revoke d client token hint now s =
    let hash = d.sha256_hex token in
    if is_text hint "access_token"
    then or_else (try_access client hash now s) (try_refresh client hash now)
    else or_else (try_refresh client hash now s) (try_access client hash now)
