-- ===== src/Mcp/Bearer/Sound.antt =====
-- What holds of a request that the bearer check lets through (bearer.ts, `verify`).
use docker_webmail_gui.Mcp.Texts.{bearer_token}
use docker_webmail_gui.Mcp.Connections.{ConnectionStatus, status_of}
use docker_webmail_gui.Mcp.Store.{
  ConnectionRow, Store, AccessTokenRow, GrantRow, find_connection, find_binding,
  find_access_token_by_hash, BindingRow, find_grant,
}
use docker_webmail_gui.Mcp.Bearer.{
  verify_connection, McpAuthContext, granted, verify_grant, verify_at, verify_binding, verify_token,
  verify_header, verify_authorization, is_active, effective_scopes, context_of, verify,
}
use docker_webmail_gui.Mcp.Tokens.{Digests, resource_for, is_empty}
use docker_webmail_gui.Common.{
  ℕ, ◌<◌, String, ◌≡◌, refl, ap, ◌∙◌, true, false, Option, none, some, arith, ◌==s◌, eq_iff,
  find-holds,
}

-- A live token, grant and binding of an active connection stand behind the context.
pub record IsAuthorized (d : Digests) (id : String) (authorization : Option String) (now : ℕ)
    (s : Store) (context : McpAuthContext) : Type 0 where
  pub header : String
  pub text : String
  pub base : String
  pub connection : ConnectionRow
  pub token : AccessTokenRow
  pub grant : GrantRow
  pub binding : BindingRow
  pub is_on : s.settings.is_enabled ≡ true
  pub based : s.settings.public_base_url ≡ some base
  pub bears : (authorization ≡ some header) × (bearer_token header ≡ some text)
  pub connected : find_connection id s ≡ some connection
  pub known : find_access_token_by_hash (d.sha256_hex text) s ≡ some token
  pub token_live : token.revoked_at ≡ none
  pub in_time : now < token.expires_at
  pub own_connection : token.connection_id ≡ id
  pub own_resource : token.resource ≡ resource_for base id
  pub granted_by : find_grant token.grant_id s ≡ some grant
  pub grant_live : grant.revoked_at ≡ none
  pub grant_connection : grant.connection_id ≡ id
  pub bound : find_binding connection.binding_id s ≡ some binding
  pub is_active : status_of connection binding now s ≡ ConnectionStatus.active
  pub mailbox : context.mailbox ≡ binding.mailbox
  pub grant_id : context.grant_id ≡ grant.id
  pub scopes : context.scopes ≡ effective_scopes token connection s.settings
  pub some_scope : is_empty context.scopes ≡ false

module _ (connection : ConnectionRow) (token : AccessTokenRow) (now : ℕ) (s s' : Store)
    (context : McpAuthContext) where
  is_active-eq :
      (status : ConnectionStatus) → is_active status ≡ true → status ≡ ConnectionStatus.active
  is_active-eq status h = ground arith

  verify_binding-granted :
      (grant : GrantRow) (o : Option BindingRow)
      → verify_binding connection token grant now s o ≡ (granted context, s')
      → (binding : BindingRow) × (o ≡ some binding)
        × (is_active (status_of connection binding now s) ≡ true)
        × (context
            ≡ context_of connection binding grant (effective_scopes token connection s.settings))
        × (is_empty (effective_scopes token connection s.settings) ≡ false)
  unfolding verify_binding
  verify_binding-granted grant none h = cc
  verify_binding-granted grant (some binding) h =
      (binding, refl, ground arith, ground arith, ground arith)

  verify_grant-granted :
      (o : Option GrantRow)
      → verify_grant connection token now s o ≡ (granted context, s')
      → (grant : GrantRow) × (o ≡ some grant)
        × (grant.revoked_at ≡ none)
        × ((grant.connection_id ==s connection.id) ≡ true)
        × (verify_binding connection token grant now s (find_binding connection.binding_id s)
            ≡ (granted context, s'))
  unfolding verify_grant
  verify_grant-granted none h = cc
  verify_grant-granted (some grant) h = (grant, refl, ground arith, ground arith, ground arith)

module _ (base : String) (connection : ConnectionRow) (now : ℕ) (s s' : Store)
    (context : McpAuthContext) where
  verify_token-granted :
      (o : Option AccessTokenRow)
      → verify_token base connection now s o ≡ (granted context, s')
      → (token : AccessTokenRow) × (o ≡ some token)
        × (token.revoked_at ≡ none)
        × (now < token.expires_at)
        × ((token.connection_id ==s connection.id) ≡ true)
        × ((token.resource ==s resource_for base connection.id) ≡ true)
        × (verify_grant connection token now s (find_grant token.grant_id s)
            ≡ (granted context, s'))
  unfolding verify_token
  verify_token-granted none h = cc
  verify_token-granted (some token) h =
      (token, refl, ground arith, ground arith, ground arith, ground arith, ground arith)

  verify_header-granted :
      (d : Digests) (o : Option String)
      → verify_header d base connection now s o ≡ (granted context, s')
      → (text : String) × (o ≡ some text)
        × (verify_token base connection now s (find_access_token_by_hash (d.sha256_hex text) s)
            ≡ (granted context, s'))
  verify_header-granted d none h = cc
  verify_header-granted d (some text) h = (text, refl, h)

  verify_authorization-granted :
      (d : Digests) (o : Option String)
      → verify_authorization d base connection o now s ≡ (granted context, s')
      → (header : String) × (o ≡ some header)
        × (verify_header d base connection now s (bearer_token header) ≡ (granted context, s'))
  verify_authorization-granted d none h = cc
  verify_authorization-granted d (some header) h = (header, refl, ground arith)

verify_connection-granted :
    (d : Digests) (base : String) (a : Option String) (now : ℕ) (s s' : Store)
    (context : McpAuthContext) (o : Option ConnectionRow)
    → verify_connection d base a now s o ≡ (granted context, s')
    → (connection : ConnectionRow) × (o ≡ some connection)
      × (verify_authorization d base connection a now s ≡ (granted context, s'))
unfolding verify_connection
verify_connection-granted d base a now s s' context none h = cc
verify_connection-granted d base a now s s' context (some connection) h =
    (connection, refl, ground arith)

verify_at-granted :
    (d : Digests) (id : String) (a : Option String) (now : ℕ) (s s' : Store)
    (context : McpAuthContext) (o : Option String)
    → verify_at d o id a now s ≡ (granted context, s')
    → (base : String) × (o ≡ some base)
      × (s.settings.is_enabled ≡ true)
      × (verify_connection d base a now s (find_connection id s) ≡ (granted context, s'))
verify_at-granted d id a now s s' context none h = cc
verify_at-granted d id a now s s' context (some base) h = (base, refl, ground arith, ground arith)

-- A request is let through only with a bearer token that is known, live, in time and issued for this
-- connection and its present resource URL, under a live grant of the connection, whose status is
-- active; the mailbox is the binding's, and the scopes are those of the token which the connection
-- and the server's capabilities still allow, one at least.
pub verify_sound :
    (d : Digests) (id : String) (authorization : Option String) (now : ℕ) (s s' : Store)
    (context : McpAuthContext)
    → verify d id authorization now s ≡ (granted context, s')
    → IsAuthorized d id authorization now s context
unfolding verify
verify_sound d id authorization now s s' context h =
    let (base, based, is_on, h₁) =
      verify_at-granted d id authorization now s s' context s.settings.public_base_url h in
    let (connection, connected, h₂) =
      verify_connection-granted d base authorization now s s' context (find_connection id s) h₁ in
    let (header, given, h₃) =
      verify_authorization-granted base connection now s s' context d authorization h₂ in
    let (text, borne, h₄) =
      verify_header-granted base connection now s s' context d (bearer_token header) h₃ in
    let (token, known, live, in_time, own, resource, h₅) =
      verify_token-granted base connection now s s' context
        (find_access_token_by_hash (d.sha256_hex text) s) h₄ in
    let (grant, granted_by, grant_live, same, h₆) =
      verify_grant-granted connection token now s s' context (find_grant token.grant_id s) h₅ in
    let (binding, bound, active, context_is, some_left) =
      verify_binding-granted connection token now s s' context grant
        (find_binding connection.binding_id s) h₆ in
    let at_id : connection.id ≡ id =
      (eq_iff _ _).0 (find-holds _ s.connections connection connected) in
    record {
      header = header;
      text = text;
      base = base;
      connection = connection;
      token = token;
      grant = grant;
      binding = binding;
      is_on = is_on;
      based = based;
      bears = (given, borne);
      connected = connected;
      known = known;
      token_live = live;
      in_time = in_time;
      own_connection = (eq_iff _ _).0 own ∙ at_id;
      own_resource = (eq_iff _ _).0 resource ∙ ap (resource_for base) at_id;
      granted_by = granted_by;
      grant_live = grant_live;
      grant_connection = (eq_iff _ _).0 same ∙ at_id;
      bound = bound;
      is_active =
          is_active-eq connection token now s s' context (status_of connection binding now s)
            active;
      mailbox = ap (λ c. c.mailbox) context_is;
      grant_id = ap (λ c. c.grant_id) context_is;
      scopes = ap (λ c. c.scopes) context_is;
      some_scope = ap (λ c. is_empty c.scopes) context_is ∙ some_left;
    }
