-- ===== src/Mcp/Store.antt =====
-- The tables that the token service and the bearer check read and write: apps/mcp/src/store/
-- (oauth.repository.ts, connections.repository.ts, bindings.repository.ts, settings.repository.ts).
-- An instant is the number of milliseconds since the epoch: the code compares ISO-8601 texts of one
-- fixed format, which order as the instants do. A scope list is stored as `parseScopes` reads it.
-- Columns that none of the modelled code reads are left out.
pub mod Revocation
use docker_webmail_gui.Common.{
  ℕ, zero, suc, ◌+◌, ◌-◌, ◌*◌, ◌/◌, ◌%◌, ◌^◌, ◌≤◌, ◌<◌, String, ◌≡◌, refl, sym, ap, ◌∙◌, ◌≢◌, ◌↔◌,
  ◌⊎◌, inl, inr, Bool, true, false, not, ◌&&◌, ◌||◌, Option, none, some, List, [], ◌∷◌, ◌++◌, map,
  append-nil, append_assoc, arith, ◌==s◌, eq_iff, ltb, leb, ◌==◌, if◌then◌else◌, ltb→lt,
  ltb-false→le, lt→ltb, le→ltb-false, leb→le, ==_iff, Bool-cases, Option-cases, length, take, drop,
  get_or, concat, length-append, take-append-drop, length-drop, take-append, drop-append,
  get_or-append, take-length, drop-length, any, all, filter, find, All, All-append, update_row,
  update_where, count_where, find-update_where, find-append, find-holds, All-update_where, All-find,
}

pub data McpScope : Type 0 where
  mail_read mail_send mail_delete : McpScope

abbrev pub same_scope : McpScope → McpScope → Bool
same_scope mail_read mail_read = true
same_scope mail_send mail_send = true
same_scope mail_delete mail_delete = true
same_scope _ _ = false

abbrev pub mcp_scopes : List McpScope
mcp_scopes = mail_read ∷ mail_send ∷ mail_delete ∷ []

-- `scopes.includes(scope)`
abbrev pub includes : List McpScope → McpScope → Bool
includes scopes scope = any (λ s. same_scope s scope) scopes

pub record OAuthClientRow : Type 0 where
  pub client_id : String
  pub client_name : Option String
  pub grant_types : List String

pub record AuthorizationCodeRow : Type 0 where
  pub id : String
  pub code_hash : String
  pub request_id : String
  pub client_id : String
  pub redirect_uri : String
  pub code_challenge : String
  pub scopes : List McpScope
  pub resource : String
  pub connection_id : String
  pub enrollment_id : String
  pub created_at : ℕ
  pub expires_at : ℕ
  pub redeemed_at : Option ℕ
  pub grant_id : Option String

pub record GrantRow : Type 0 where
  pub id : String
  pub connection_id : String
  pub client_id : String
  pub client_name : Option String
  pub redirect_uri : String
  pub scopes : List McpScope
  pub resource : String
  pub created_at : ℕ
  pub last_used_at : Option ℕ
  pub revoked_at : Option ℕ
  pub revoked_reason : Option String

pub record AccessTokenRow : Type 0 where
  pub id : String
  pub token_hash : String
  pub grant_id : String
  pub connection_id : String
  pub scopes : List McpScope
  pub resource : String
  pub created_at : ℕ
  pub expires_at : ℕ
  pub revoked_at : Option ℕ

pub record RefreshTokenRow : Type 0 where
  pub id : String
  pub token_hash : String
  pub grant_id : String
  pub parent_id : Option String
  pub created_at : ℕ
  pub expires_at : ℕ
  pub used_at : Option ℕ
  pub revoked_at : Option ℕ

pub data ConnectionState : Type 0 where
  enabled disabled revoked : ConnectionState

pub record ConnectionRow : Type 0 where
  pub id : String
  pub binding_id : String
  pub mailbox : String
  pub scopes : List McpScope
  pub sender_identities : List String
  pub state : ConnectionState
  pub expires_at : Option ℕ
  pub last_authorized_at : Option ℕ
  pub last_used_at : Option ℕ

pub record EnrollmentRow : Type 0 where
  pub id : String
  pub consumed_at : Option ℕ
  pub reserved_code_id : Option String
  pub reserved_until : Option ℕ
  pub revoked_at : Option ℕ

pub data BindingState : Type 0 where
  active stale invalid mailbox_missing revoked : BindingState

pub record BindingRow : Type 0 where
  pub id : String
  pub mailbox : String
  pub state : BindingState

pub record StoredCredential : Type 0 where
  pub binding_id : String
  pub key_id : String

pub record McpSettings : Type 0 where
  pub is_enabled : Bool
  pub public_base_url : Option String
  pub access_token_ttl_minutes : ℕ
  pub refresh_token_ttl_days : ℕ
  pub sends_per_hour : ℕ
  pub sends_per_day : ℕ

pub record AuditEntry : Type 0 where
  pub event : String
  pub success : Bool
  pub actor : String
  pub connection_id : String

pub record Store : Type 0 where
  pub codes : List AuthorizationCodeRow
  pub grants : List GrantRow
  pub access_tokens : List AccessTokenRow
  pub refresh_tokens : List RefreshTokenRow
  pub connections : List ConnectionRow
  pub enrollments : List EnrollmentRow
  pub bindings : List BindingRow
  pub credentials : List StoredCredential
  pub settings : McpSettings
  pub vault_key_id : Option String
  pub audit : List AuditEntry

abbrev pub is_null {ℓ} : {A : Type ℓ} → Option A → Bool
is_null none = true
is_null (some _) = false

abbrev pub is_text : Option String → String → Bool
is_text none t = false
is_text (some s) t = s ==s t

abbrev pub record_audit : AuditEntry → Store → Store
record_audit entry s = record s { audit = s.audit ++ entry ∷ [] }

-- Authorization codes.
abbrev pub create_code : AuthorizationCodeRow → Store → Store
create_code row s = record s {
  codes = s.codes ++ record row { redeemed_at = none; grant_id = none } ∷ [];
}

abbrev pub find_code_by_hash : String → Store → Option AuthorizationCodeRow
find_code_by_hash hash s = find (λ c. c.code_hash ==s hash) s.codes

abbrev pub unredeemed : String → AuthorizationCodeRow → Bool
unredeemed id c = (c.id ==s id) && is_null c.redeemed_at

abbrev pub code_redeemed : ℕ → AuthorizationCodeRow → AuthorizationCodeRow
code_redeemed now c = record c { redeemed_at = some now }

unfoldable pub redeem_code : String → ℕ → Store → Bool × Store
redeem_code id now s = (
  count_where (unredeemed id) s.codes == 1,
  record s { codes = update_where (unredeemed id) (code_redeemed now) s.codes },
)

abbrev pub has_code_id : String → AuthorizationCodeRow → Bool
has_code_id id c = c.id ==s id

abbrev pub code_attached : String → AuthorizationCodeRow → AuthorizationCodeRow
code_attached grant c = record c { grant_id = some grant }

unfoldable pub attach_grant_to_code : String → String → Store → Store
attach_grant_to_code id grant s = record s {
  codes = update_where (has_code_id id) (code_attached grant) s.codes;
}

-- Grants.
abbrev pub create_grant : GrantRow → Store → Store
create_grant g s = record s {
  grants =
      s.grants ++ record g { last_used_at = none; revoked_at = none; revoked_reason = none } ∷ [];
}

abbrev pub find_grant : String → Store → Option GrantRow
find_grant id s = find (λ g. g.id ==s id) s.grants

unfoldable pub count_active_grants : String → Store → ℕ
count_active_grants connection s =
    count_where (λ g. (g.connection_id ==s connection) && is_null g.revoked_at) s.grants

abbrev pub has_grant_id : String → GrantRow → Bool
has_grant_id id g = g.id ==s id

abbrev pub grant_touched : ℕ → GrantRow → GrantRow
grant_touched now g = record g { last_used_at = some now }

unfoldable pub touch_grant : String → ℕ → Store → Store
touch_grant id now s = record s {
  grants = update_where (has_grant_id id) (grant_touched now) s.grants;
}

abbrev live_grant : String → GrantRow → Bool
live_grant id g = (g.id ==s id) && is_null g.revoked_at

abbrev grant_revoked : ℕ → String → GrantRow → GrantRow
grant_revoked now reason g = record g { revoked_at = some now; revoked_reason = some reason }

abbrev live_access : String → AccessTokenRow → Bool
live_access grant t = (t.grant_id ==s grant) && is_null t.revoked_at

abbrev access_revoked : ℕ → AccessTokenRow → AccessTokenRow
access_revoked now t = record t { revoked_at = some now }

abbrev live_refresh : String → RefreshTokenRow → Bool
live_refresh grant t = (t.grant_id ==s grant) && is_null t.revoked_at

abbrev refresh_revoked : ℕ → RefreshTokenRow → RefreshTokenRow
refresh_revoked now t = record t { revoked_at = some now }

-- `revokeGrant`: one transaction over three tables.
unfoldable pub revoke_grant : String → String → ℕ → Store → Store
revoke_grant id reason now s = record s {
  grants = update_where (live_grant id) (grant_revoked now reason) s.grants;
  access_tokens = update_where (live_access id) (access_revoked now) s.access_tokens;
  refresh_tokens = update_where (live_refresh id) (refresh_revoked now) s.refresh_tokens;
}

-- Access and refresh tokens.
abbrev pub create_access_token : AccessTokenRow → Store → Store
create_access_token t s = record s {
  access_tokens = s.access_tokens ++ record t { revoked_at = none } ∷ [];
}

abbrev pub find_access_token_by_hash : String → Store → Option AccessTokenRow
find_access_token_by_hash hash s = find (λ t. t.token_hash ==s hash) s.access_tokens

abbrev revoke_access_row : ℕ → Store → Option AccessTokenRow → Store
revoke_access_row now s none = s
revoke_access_row now s (some token) = record s {
  access_tokens =
      update_where (λ t. (t.id ==s token.id) && is_null t.revoked_at)
        (λ t. record t { revoked_at = some now }) s.access_tokens;
}

unfoldable pub revoke_access_token_by_hash : String → ℕ → Store → Store
revoke_access_token_by_hash hash now s = revoke_access_row now s (find_access_token_by_hash hash s)

abbrev pub create_refresh_token : RefreshTokenRow → Store → Store
create_refresh_token t s = record s {
  refresh_tokens = s.refresh_tokens ++ record t { used_at = none; revoked_at = none } ∷ [];
}

abbrev pub find_refresh_token_by_hash : String → Store → Option RefreshTokenRow
find_refresh_token_by_hash hash s = find (λ t. t.token_hash ==s hash) s.refresh_tokens

abbrev pub unused : String → RefreshTokenRow → Bool
unused id t = (t.id ==s id) && is_null t.used_at && is_null t.revoked_at

abbrev pub refresh_used : ℕ → RefreshTokenRow → RefreshTokenRow
refresh_used now t = record t { used_at = some now }

unfoldable pub mark_refresh_token_used : String → ℕ → Store → Bool × Store
mark_refresh_token_used id now s = (
  count_where (unused id) s.refresh_tokens == 1,
  record s { refresh_tokens = update_where (unused id) (refresh_used now) s.refresh_tokens },
)

-- Connections and their setup credentials.
abbrev pub find_connection : String → Store → Option ConnectionRow
find_connection id s = find (λ c. c.id ==s id) s.connections

unfoldable pub touch_authorized : String → ℕ → Store → Store
touch_authorized id now s = record s {
  connections =
      update_where (λ c. c.id ==s id) (λ c. record c { last_authorized_at = some now })
        s.connections;
}

unfoldable pub touch_used : String → ℕ → Store → Store
touch_used id now s = record s {
  connections =
      update_where (λ c. c.id ==s id) (λ c. record c { last_used_at = some now }) s.connections;
}

abbrev consumable : String → String → EnrollmentRow → Bool
consumable id code e =
    (e.id ==s id)
    && is_text e.reserved_code_id code
    && is_null e.consumed_at
    && is_null e.revoked_at

unfoldable pub consume_enrollment : String → String → ℕ → Store → Bool × Store
consume_enrollment id code now s = (
  count_where (consumable id code) s.enrollments == 1,
  record s {
    enrollments =
        update_where (consumable id code)
          (λ e. record e { consumed_at = some now; reserved_until = none }) s.enrollments;
  },
)

-- Mailbox bindings and their credentials.
abbrev pub find_binding : String → Store → Option BindingRow
find_binding id s = find (λ b. b.id ==s id) s.bindings

abbrev pub get_credential : String → Store → Option StoredCredential
get_credential binding s = find (λ c. c.binding_id ==s binding) s.credentials
