-- ===== src/Mcp/Tokens/Refresh.antt =====
-- What a successful refresh has checked and written (tokens.service.ts, `refresh`).
use docker_webmail_gui.Mcp.Outcome.{ok, continue_with-eq-ok}
use docker_webmail_gui.Mcp.Store.{
  GrantRow, Store, RefreshTokenRow, ConnectionRow, McpScope, find_connection,
  find_refresh_token_by_hash, find_grant, OAuthClientRow, mark_refresh_token_used, includes,
}
use docker_webmail_gui.Mcp.Tokens.{
  Digests, presented_token, check_refresh_token, RefreshInput, check_refresh_scopes, names_exactly,
  refresh_scopes, audience_holds, is_empty, narrow, allowed, check_audience, Fresh, rotate,
  TokenResponse, usable_scopes, renew, assert_connection_usable, refresh, parse_scope_param,
  check_and_renew, scope_and_renew, rotate_and_renew,
}
use docker_webmail_gui.Mcp.Tokens.Exchange.{Within, allowed-Within, assert_connection_usable-keeps}
use docker_webmail_gui.Common.{
  ℕ, ◌<◌, String, ◌≡◌, ◌∙◌, inl, inr, true, false, Option, none, some, List, arith, ◌==s◌, eq_iff,
  Option-cases, filter, All-filter,
}

presented_token-ok :
    (d : Digests) (i : RefreshInput) (s s₁ : Store) (token : RefreshTokenRow) (grant : GrantRow)
    → presented_token d i s ≡ (ok (token, grant), s₁)
    → (given : String) × (i.refresh_token ≡ some given)
      × (find_refresh_token_by_hash (d.sha256_hex given) s ≡ some token)
      × (find_grant token.grant_id s ≡ some grant)
      × ((grant.client_id ==s i.client.client_id) ≡ true)
      × (s₁ ≡ s)
unfolding presented_token
presented_token-ok d i s s₁ token grant h = elim (Option-cases i.refresh_token) [
  | inl e ↦ ground arith
  | inr (given, e) ↦ (given, e, ground arith, ground arith, ground arith, ground arith)
]

-- The token was neither used nor revoked, and its grant was live.
pub record IsCurrent (i : RefreshInput) (now : ℕ) (token : RefreshTokenRow) (grant : GrantRow)
    : Type 0 where
  pub unspent : token.used_at ≡ none
  pub token_live : token.revoked_at ≡ none
  pub grant_live : grant.revoked_at ≡ none
  pub in_time : now < token.expires_at
  pub same_resource : names_exactly i.resource grant.resource ≡ true

check_refresh_token-IsCurrent :
    (i : RefreshInput) (now : ℕ) (token : RefreshTokenRow) (grant : GrantRow) (s s₁ : Store)
    {u : Unit {0}}
    → check_refresh_token i now token grant s ≡ (ok u, s₁)
    → IsCurrent i now token grant × (s₁ ≡ s)
unfolding check_refresh_token
check_refresh_token-IsCurrent i now token grant s s₁ h = (
  record {
    unspent = ground arith;
    token_live = ground arith;
    grant_live = ground arith;
    in_time = ground arith;
    same_resource = ground arith;
  },
  ground arith,
)

-- The scopes of a refresh are in the grant and still allowed to the connection.
refresh_scopes-Within :
    (grant : GrantRow) (connection : ConnectionRow) (scope : Option String) (scopes : List McpScope)
    → refresh_scopes grant connection scope ≡ some scopes
    → Within grant.scopes connection.scopes scopes
unfolding refresh_scopes
refresh_scopes-Within grant connection none scopes h =
    let same : allowed grant.scopes connection.scopes ≡ scopes = cc in
    rw (← same) (allowed-Within grant.scopes connection.scopes)
refresh_scopes-Within grant connection (some raw) scopes h =
    let wanted = parse_scope_param raw in
    let kept = allowed grant.scopes connection.scopes in
    let same : filter (includes wanted) kept ≡ scopes = ground arith in
    rw (← same)
      (All-filter _ (includes wanted) kept (allowed-Within grant.scopes connection.scopes))

check_audience-ok :
    (grant : GrantRow) (s s₁ : Store) (connection : ConnectionRow)
    → check_audience grant s ≡ (ok connection, s₁)
    → (find_connection grant.connection_id s ≡ some connection)
      × (audience_holds s.settings.public_base_url connection.id grant.resource ≡ true)
      × (s₁ ≡ s)
unfolding check_audience
check_audience-ok grant s s₁ connection h = (ground arith, ground arith, ground arith)

narrow-ok :
    (i : RefreshInput) (grant : GrantRow) (connection : ConnectionRow) (s s₁ : Store)
    (scopes : List McpScope)
    → narrow i grant connection s ≡ (ok scopes, s₁)
    → (refresh_scopes grant connection i.scope ≡ some scopes) × (is_empty scopes ≡ false) × (s₁ ≡ s)
unfolding narrow
narrow-ok i grant connection s s₁ scopes h = (ground arith, ground arith, ground arith)

check_refresh_scopes-ok :
    (i : RefreshInput) (grant : GrantRow) (now : ℕ) (s s₁ : Store) (scopes : List McpScope)
    → check_refresh_scopes i grant now s ≡ (ok scopes, s₁)
    → (connection : ConnectionRow) × (find_connection grant.connection_id s ≡ some connection)
      × (audience_holds s.settings.public_base_url connection.id grant.resource ≡ true)
      × (refresh_scopes grant connection i.scope ≡ some scopes)
      × (is_empty scopes ≡ false)
      × (s₁ ≡ s)
unfolding check_refresh_scopes
check_refresh_scopes-ok i grant now s s₁ scopes h =
    let (connection, a, found, h₁) =
      continue_with-eq-ok (check_audience grant s) (usable_scopes i grant now) h in
    let (u, b, usable, h₂) =
      continue_with-eq-ok (assert_connection_usable grant.connection_id now a)
        (λ _. narrow i grant connection) h₁ in
    let (known, audience, same) = check_audience-ok grant s a connection found in
    let (scoped, some_left, kept) = narrow-ok i grant connection b s₁ scopes h₂ in
    (
      connection,
      known,
      audience,
      scoped,
      some_left,
      kept ∙ assert_connection_usable-keeps grant.connection_id now a b usable ∙ same,
    )

rotate-ok :
    (token : RefreshTokenRow) (grant : GrantRow) (client : OAuthClientRow) (now : ℕ) (s s₁ : Store)
    {u : Unit {0}}
    → rotate token grant client now s ≡ (ok u, s₁)
    → s₁ ≡ (mark_refresh_token_used token.id now s).1
unfolding rotate
rotate-ok token grant client now s s₁ h = ground arith

-- The parts of a successful refresh.
pub record RefreshParts (d : Digests) (fresh : Fresh) (i : RefreshInput) (now : ℕ) (s s' : Store)
    (pair : TokenResponse) : Type 0 where
  pub given : String
  pub token : RefreshTokenRow
  pub grant : GrantRow
  pub connection : ConnectionRow
  pub presents : i.refresh_token ≡ some given
  pub found : find_refresh_token_by_hash (d.sha256_hex given) s ≡ some token
  pub granted : find_grant token.grant_id s ≡ some grant
  pub own : grant.client_id ≡ i.client.client_id
  pub current : IsCurrent i now token grant
  pub connected : find_connection grant.connection_id s ≡ some connection
  pub audience : audience_holds s.settings.public_base_url connection.id grant.resource ≡ true
  pub scopes : List McpScope
  pub within : Within grant.scopes connection.scopes scopes
  pub some_left : is_empty scopes ≡ false
  pub renewed :
      renew d fresh i now token grant scopes (mark_refresh_token_used token.id now s).1
      ≡ (ok pair, s')

module _ (d : Digests) (fresh : Fresh) (i : RefreshInput) (now : ℕ) (s s' : Store)
    (pair : TokenResponse) where
  pub refresh-RefreshParts :
      refresh d fresh i now s ≡ (ok pair, s') → RefreshParts d fresh i now s s' pair
  unfolding refresh
  refresh-RefreshParts h =
      let ((token, grant), a, shown, h₁) =
        continue_with-eq-ok (presented_token d i s) (check_and_renew d fresh i now) h in
      let (given, presents, found, granted, own, same) =
        presented_token-ok d i s a token grant shown in
      let (u, b, checked, h₂) =
        continue_with-eq-ok (check_refresh_token i now token grant a)
          (λ _. scope_and_renew d fresh i now token grant) h₁ in
      let (current, same₁) = check_refresh_token-IsCurrent i now token grant a b checked in
      let (scopes, c, scoped, h₃) =
        continue_with-eq-ok (check_refresh_scopes i grant now b)
          (rotate_and_renew d fresh i now token grant) h₂ in
      let at_s : b ≡ s = same₁ ∙ same in
      let (connection, connected, audience, narrowed, some_left, same₂) =
        check_refresh_scopes-ok i grant now s c scopes (rw at_s at scoped) in
      let (v, e, rotated, h₄) =
        continue_with-eq-ok (rotate token grant i.client now c)
          (λ _. renew d fresh i now token grant scopes) h₃ in
      let marked : e ≡ (mark_refresh_token_used token.id now s).1 =
        rotate-ok token grant i.client now s e (rw same₂ at rotated) in
      record {
        given = given;
        token = token;
        grant = grant;
        connection = connection;
        presents = presents;
        found = found;
        granted = granted;
        own = (eq_iff _ _).0 own;
        current = current;
        connected = connected;
        audience = audience;
        scopes = scopes;
        within = refresh_scopes-Within grant connection i.scope scopes narrowed;
        some_left = some_left;
        renewed = rw marked at h₄;
      }
