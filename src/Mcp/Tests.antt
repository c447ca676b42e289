-- ===== src/Mcp/Tests.antt =====
-- Runs of the token service and of the bearer check (apps/mcp/src/oauth) on a concrete store.
use docker_webmail_gui.Mcp.Texts.{
  is_unreserved, all_chars, char_count, is_code_verifier, trim_start, trim_end, after_prefix,
  is_token_char, token_rest, is_token, bearer_token, is_connection_id,
}
use docker_webmail_gui.Mcp.Store.{
  Store, OAuthClientRow, AuthorizationCodeRow, GrantRow, RefreshTokenRow, ConnectionRow, mail_read,
  mail_send, ConnectionState, BindingState, redeem_code, consume_enrollment, attach_grant_to_code,
  touch_authorized, count_active_grants, mark_refresh_token_used, touch_grant, touch_used,
  revoke_grant, find_code_by_hash, find_connection, find_grant, find_refresh_token_by_hash,
}
use docker_webmail_gui.Mcp.Store.Revocation.{IsDead, revoke_grant-IsDead}
use docker_webmail_gui.Mcp.Connections.{credential_health, status_of}
use docker_webmail_gui.Mcp.Outcome.{ok, throw, invalid_grant}
use docker_webmail_gui.Mcp.Tokens.{
  Digests, Fresh, TokenResponse, ExchangeInput, RefreshInput, exchange_code, presented, check_code,
  verify_pkce_s256, redeem, connect, issue, mint_pair, assert_connection_usable, refresh,
  presented_token, check_refresh_token, check_audience, check_refresh_scopes, narrow,
  refresh_scopes, rotate, renew, revoke, is_empty, audience_holds,
}
use docker_webmail_gui.Mcp.Tokens.Exchange.{exchange_code_sound, IsFit, Within}
use docker_webmail_gui.Mcp.Tokens.Replay.{exchange_code_twice}
use docker_webmail_gui.Mcp.Tokens.Refresh.{IsCurrent}
use docker_webmail_gui.Mcp.Tokens.Rotation.{PairUnder, refresh_sound, refresh_twice}
use docker_webmail_gui.Mcp.Tokens.Revoking.{IsForeignRefresh, revoke_refresh_token, revoke_foreign}
use docker_webmail_gui.Mcp.Bearer.{
  McpAuthContext, granted, verify, verify_connection, verify_token, verify_grant, verify_binding,
  touched, available_capabilities,
}
use docker_webmail_gui.Mcp.Bearer.Sound.{verify_sound, IsAuthorized}
use docker_webmail_gui.Common.{ap, ◌∙◌, String, ◌≡◌, refl, true, false, none, some, [], ◌∷◌}

-- A digest that is easy to read.
abbrev plain : Digests
plain = record { sha256_hex = λ s. s; sha256_base64url = λ s. s }

abbrev verifier : String
verifier = "0123456789012345678901234567890123456789012"

abbrev connection_name : String
connection_name = "c0123456789abcdefghijklmnop"

abbrev mailbox_url : String
mailbox_url = "https://mail.test/mcp/c0123456789abcdefghijklmnop"

abbrev assistant : OAuthClientRow
assistant = record {
  client_id = "client";
  client_name = none;
  grant_types = "authorization_code" ∷ "refresh_token" ∷ [];
}

abbrev approved : AuthorizationCodeRow
approved = record {
  id = "code1";
  code_hash = "secret";
  request_id = "request1";
  client_id = "client";
  redirect_uri = "https://client.test/back";
  code_challenge = verifier;
  scopes = mail_read ∷ mail_send ∷ [];
  resource = mailbox_url;
  connection_id = connection_name;
  enrollment_id = "enrollment1";
  created_at = 0;
  expires_at = 60_000;
  redeemed_at = none;
  grant_id = none;
}

abbrev mailbox_connection : ConnectionRow
mailbox_connection = record {
  id = connection_name;
  binding_id = "binding1";
  mailbox = "a@mail.test";
  scopes = mail_read ∷ [];
  sender_identities = "a@mail.test" ∷ [];
  state = ConnectionState.enabled;
  expires_at = none;
  last_authorized_at = none;
  last_used_at = none;
}

abbrev store0 : Store
store0 = record {
  codes = approved ∷ [];
  grants = [];
  access_tokens = [];
  refresh_tokens = [];
  connections = mailbox_connection ∷ [];
  enrollments =
      record {
        id = "enrollment1";
        consumed_at = none;
        reserved_code_id = some "code1";
        reserved_until = some 60_000;
        revoked_at = none;
      }
      ∷ [];
  bindings = record { id = "binding1"; mailbox = "a@mail.test"; state = BindingState.active } ∷ [];
  credentials = record { binding_id = "binding1"; key_id = "key1" } ∷ [];
  settings = record {
    is_enabled = true;
    public_base_url = some "https://mail.test";
    access_token_ttl_minutes = 10;
    refresh_token_ttl_days = 30;
    sends_per_hour = 20;
    sends_per_day = 100;
  };
  vault_key_id = some "key1";
  audit = [];
}

abbrev fresh1 : Fresh
fresh1 = record {
  access_token = "access1";
  refresh_token = "refresh1";
  grant_id = "grant1";
  access_id = "a1";
  refresh_id = "r1";
}

abbrev fresh2 : Fresh
fresh2 = record {
  access_token = "access2";
  refresh_token = "refresh2";
  grant_id = "grant2";
  access_id = "a2";
  refresh_id = "r2";
}

abbrev presents_code : ExchangeInput
presents_code = record {
  client = assistant;
  code = some "secret";
  redirect_uri = some "https://client.test/back";
  code_verifier = some verifier;
  resource = none;
}

abbrev presents_token : RefreshInput
presents_token = record {
  client = assistant;
  refresh_token = some "refresh1";
  scope = none;
  resource = none;
}

abbrev pair1 : TokenResponse
pair1 = record {
  access_token = "access1";
  expires_in = 600;
  refresh_token = "refresh1";
  scopes = mail_read ∷ [];
}

abbrev pair2 : TokenResponse
pair2 = record {
  access_token = "access2";
  expires_in = 600;
  refresh_token = "refresh2";
  scopes = mail_read ∷ [];
}

abbrev store1 : Store
store1 = (exchange_code plain fresh1 presents_code 1_000 store0).1

abbrev store2 : Store
store2 = (refresh plain fresh2 presents_token 2_000 store1).1

exchanges : exchange_code plain fresh1 presents_code 1_000 store0 ≡ (ok pair1, store1)
unfolding exchange_code presented check_code verify_pkce_s256 is_code_verifier all_chars
    is_unreserved char_count redeem redeem_code consume_enrollment assert_connection_usable
    status_of credential_health count_active_grants connect issue attach_grant_to_code
    touch_authorized mint_pair
exchanges = refl

refreshes : refresh plain fresh2 presents_token 2_000 store1 ≡ (ok pair2, store2)
unfolding exchange_code presented check_code verify_pkce_s256 is_code_verifier all_chars
    is_unreserved char_count redeem redeem_code consume_enrollment assert_connection_usable
    status_of credential_health count_active_grants connect issue attach_grant_to_code
    touch_authorized mint_pair refresh presented_token check_refresh_token check_audience
    check_refresh_scopes narrow refresh_scopes rotate mark_refresh_token_used renew touch_grant
refreshes = refl

exchange_code_sound_example :
    (given : String) × (code : AuthorizationCodeRow) × (connection : ConnectionRow) × (some "secret"
      ≡ some given)
    × (find_code_by_hash given store0 ≡ some code)
    × IsFit plain presents_code 1_000 code
    × (find_connection code.connection_id store0 ≡ some connection)
    × Within code.scopes connection.scopes (mail_read ∷ [])
    × (is_empty (mail_read ∷ []) ≡ false)
exchange_code_sound_example =
    exchange_code_sound plain fresh1 presents_code 1_000 store0 store1 pair1 exchanges

exchange_code_twice_example :
    ((exchange_code plain fresh2 presents_code 3_000 store1).0 ≡ throw invalid_grant)
    × IsDead "grant1" (exchange_code plain fresh2 presents_code 3_000 store1).1
exchange_code_twice_example =
    exchange_code_twice plain fresh1 fresh2 presents_code presents_code 1_000 3_000 store0 store1
      pair1 verifier exchanges refl refl refl

refresh_sound_example :
    (given : String) × (token : RefreshTokenRow) × (grant : GrantRow) × (connection : ConnectionRow)
    × (some "refresh1" ≡ some given)
    × (find_refresh_token_by_hash given store1 ≡ some token)
    × (find_grant token.grant_id store1 ≡ some grant)
    × (grant.client_id ≡ "client")
    × IsCurrent presents_token 2_000 token grant
    × (find_connection grant.connection_id store1 ≡ some connection)
    × (audience_holds store1.settings.public_base_url connection.id grant.resource ≡ true)
    × Within grant.scopes connection.scopes (mail_read ∷ [])
    × (is_empty (mail_read ∷ []) ≡ false)
refresh_sound_example =
    refresh_sound plain fresh2 presents_token 2_000 store1 store2 pair2 refreshes

refresh_twice_example :
    (given : String) × (token : RefreshTokenRow) × (grant : GrantRow)
    × (presents_token.refresh_token ≡ some given)
    × (find_refresh_token_by_hash given store1 ≡ some token)
    × (find_grant token.grant_id store1 ≡ some grant)
    × PairUnder plain grant.id pair2 store2
    × ((refresh plain fresh1 presents_token 3_000 store2).0 ≡ throw invalid_grant)
    × IsDead grant.id (refresh plain fresh1 presents_token 3_000 store2).1
refresh_twice_example =
    refresh_twice plain fresh2 fresh1 presents_token presents_token 2_000 3_000 store1 store2 pair2
      refreshes refl refl

abbrev refresh1_row : RefreshTokenRow
refresh1_row = record {
  id = "r1";
  token_hash = "refresh1";
  grant_id = "grant1";
  parent_id = none;
  created_at = 1_000;
  expires_at = 2_592_001_000;
  used_at = none;
  revoked_at = none;
}

abbrev grant1_row : GrantRow
grant1_row = record {
  id = "grant1";
  connection_id = connection_name;
  client_id = "client";
  client_name = none;
  redirect_uri = "https://client.test/back";
  scopes = mail_read ∷ [];
  resource = mailbox_url;
  created_at = 1_000;
  last_used_at = none;
  revoked_at = none;
  revoked_reason = none;
}

abbrev issued_store : Store
issued_store = record store0 { grants = grant1_row ∷ []; refresh_tokens = refresh1_row ∷ [] }

revoke_refresh_token_example :
    IsDead "grant1" (revoke plain assistant "refresh1" none 4_000 issued_store)
revoke_refresh_token_example =
    revoke_refresh_token plain assistant "refresh1" none 4_000 issued_store refresh1_row grant1_row
      refl refl refl refl

abbrev stranger : OAuthClientRow
stranger = record { client_id = "stranger"; client_name = none; grant_types = [] }

is_foreign : IsForeignRefresh stranger issued_store "refresh1"
is_foreign t e grant f own =
    let token : refresh1_row ≡ t = cc in
    let found : some grant1_row ≡ some grant = rw (← token) at f in
    let same : grant1_row ≡ grant = cc in
    let wrong : ◌≡◌ {A = String} "client" "stranger" = ap (λ g. g.client_id) same ∙ own in cc

revoke_foreign_example : revoke plain stranger "refresh1" none 4_000 issued_store ≡ issued_store
revoke_foreign_example =
    revoke_foreign plain stranger "refresh1" none 4_000 issued_store is_foreign (λ t e. cc)

revoke_grant-IsDead_example : IsDead "grant1" (revoke_grant "grant1" "revoked" 4_000 issued_store)
revoke_grant-IsDead_example = revoke_grant-IsDead "grant1" "revoked" 4_000 issued_store

abbrev mailbox_context : McpAuthContext
mailbox_context = record {
  connection_id = connection_name;
  binding_id = "binding1";
  mailbox = "a@mail.test";
  grant_id = "grant1";
  client_id = "client";
  scopes = mail_read ∷ [];
  sender_identities = "a@mail.test" ∷ [];
}

abbrev seen_store : Store
seen_store = (verify plain connection_name (some "Bearer access1") 5_000 store1).1

verifies :
    verify plain connection_name (some "Bearer access1") 5_000 store1
    ≡ (granted mailbox_context, seen_store)
unfolding exchange_code presented check_code verify_pkce_s256 is_code_verifier all_chars
    is_unreserved char_count redeem redeem_code consume_enrollment assert_connection_usable
    status_of credential_health count_active_grants connect issue attach_grant_to_code
    touch_authorized mint_pair verify verify_connection verify_token verify_grant verify_binding
    touched touch_used touch_grant available_capabilities bearer_token is_connection_id trim_start
    trim_end after_prefix is_token_char token_rest is_token
verifies = refl

verify_sound_example :
    IsAuthorized plain connection_name (some "Bearer access1") 5_000 store1 mailbox_context
verify_sound_example =
    verify_sound plain connection_name (some "Bearer access1") 5_000 store1 seen_store
      mailbox_context verifies
