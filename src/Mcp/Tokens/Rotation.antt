-- ===== src/Mcp/Tokens/Rotation.antt =====
-- A refresh token works once (tokens.service.ts, `refresh`): to present a rotated one again revokes
-- the whole grant.
use docker_webmail_gui.Mcp.Store.Revocation.{IsDead, revoke_grant-IsDead}
use docker_webmail_gui.Mcp.Outcome.{ok, throw, invalid_grant}
use docker_webmail_gui.Mcp.Store.{
  AccessTokenRow, RefreshTokenRow, GrantRow, mark_refresh_token_used, has_grant_id, unused,
  grant_touched, refresh_used, touch_grant, Store, McpScope, find_refresh_token_by_hash, find_grant,
  ConnectionRow, find_connection, revoke_grant,
}
use text.Mathlib.TextPositions.{eq_refl}
use docker_webmail_gui.Mcp.Tokens.{
  Digests, refresh, renew, presented_token, Fresh, mint_pair, RefreshInput, check_refresh_token,
  TokenResponse, refresh_row, access_row, audited, audience_holds, is_empty,
}
use docker_webmail_gui.Mcp.Tokens.Exchange.{Within}
use docker_webmail_gui.Mcp.Tokens.Refresh.{IsCurrent, refresh-RefreshParts}
use docker_webmail_gui.Mcp.Tokens.Replay.{IsDead-audited}
use docker_webmail_gui.Common.{
  ap, ℕ, String, ◌≡◌, refl, sym, ◌∙◌, true, false, none, some, List, [], ◌∷◌, ◌++◌, arith, ◌==s◌,
  eq_iff, find, update_where, find-update_where, find-append,
}

-- A refresh that succeeds presented a known token of a grant of the same client, neither used nor
-- revoked nor expired, whose connection still has the grant's resource URL; and every scope of the
-- new pair is in the grant and still allowed to the connection.
pub refresh_sound :
    (d : Digests) (fresh : Fresh) (i : RefreshInput) (now : ℕ) (s s' : Store) (pair : TokenResponse)
    → refresh d fresh i now s ≡ (ok pair, s')
    → (given : String) × (token : RefreshTokenRow) × (grant : GrantRow)
      × (connection : ConnectionRow) × (i.refresh_token ≡ some given)
      × (find_refresh_token_by_hash (d.sha256_hex given) s ≡ some token)
      × (find_grant token.grant_id s ≡ some grant)
      × (grant.client_id ≡ i.client.client_id)
      × IsCurrent i now token grant
      × (find_connection grant.connection_id s ≡ some connection)
      × (audience_holds s.settings.public_base_url connection.id grant.resource ≡ true)
      × Within grant.scopes connection.scopes pair.scopes
      × (is_empty pair.scopes ≡ false)
unfolding renew mint_pair
refresh_sound d fresh i now s s' pair h =
    let p = refresh-RefreshParts d fresh i now s s' pair h in
    let same : p.scopes ≡ pair.scopes = cc p.renewed in
    (
      p.given,
      p.token,
      p.grant,
      p.connection,
      p.presents,
      p.found,
      p.granted,
      p.own,
      p.current,
      p.connected,
      p.audience,
      rw (← same) p.within,
      rw (← same) p.some_left,
    )

renew-refresh_tokens :
    (d : Digests) (fresh : Fresh) (i : RefreshInput) (now : ℕ) (token : RefreshTokenRow)
    (grant : GrantRow) (scopes : List McpScope) (s s' : Store) (pair : TokenResponse)
    → renew d fresh i now token grant scopes s ≡ (ok pair, s')
    → s'.refresh_tokens
      ≡ s.refresh_tokens ++ refresh_row d fresh grant.id (some token.id) now s.settings ∷ []
unfolding renew mint_pair touch_grant
renew-refresh_tokens d fresh i now token grant scopes s s' pair h = cc

renew-grants :
    (d : Digests) (fresh : Fresh) (i : RefreshInput) (now : ℕ) (token : RefreshTokenRow)
    (grant : GrantRow) (scopes : List McpScope) (s s' : Store) (pair : TokenResponse)
    → renew d fresh i now token grant scopes s ≡ (ok pair, s')
    → s'.grants ≡ update_where (has_grant_id grant.id) (grant_touched now) s.grants
unfolding renew mint_pair touch_grant
renew-grants d fresh i now token grant scopes s s' pair h = cc

find-used :
    (hash : String) (token : RefreshTokenRow) (now : ℕ) (tokens more : List RefreshTokenRow)
    → token.used_at ≡ none
    → token.revoked_at ≡ none
    → find (λ t. t.token_hash ==s hash) tokens ≡ some token
    → find
        (λ t. t.token_hash ==s hash)
        (update_where (unused token.id) (refresh_used now) tokens ++ more)
      ≡ some (record token { used_at = some now })
find-used hash token now tokens more unspent live h =
    find-append (λ t. t.token_hash ==s hash)
      (update_where (unused token.id) (refresh_used now) tokens) more
      (record token { used_at = some now })
      (rw
        (
          find-update_where (λ t. t.token_hash ==s hash) (unused token.id) (refresh_used now) tokens
              (λ t. refl),
          h,
        )
        (ground (arith, eq_refl token.id)))

find-touched :
    (id : String) (grant : GrantRow) (now : ℕ) (grants : List GrantRow)
    → find (has_grant_id id) grants ≡ some grant
    → find (has_grant_id id) (update_where (has_grant_id grant.id) (grant_touched now) grants)
      ≡ some (grant_touched now grant)
find-touched id grant now grants h =
    rw
      (
        find-update_where (has_grant_id id) (has_grant_id grant.id) (grant_touched now) grants
            (λ g. refl),
        h,
      )
      (ground (arith, eq_refl grant.id))

-- What `refresh` does with a token that was used before, presented by its own client.
reused :
    (d : Digests) (fresh : Fresh) (j : RefreshInput) (later now : ℕ) (t : Store) (given : String)
    (token : RefreshTokenRow) (grant : GrantRow)
    → j.refresh_token ≡ some given
    → find_refresh_token_by_hash (d.sha256_hex given) t ≡ some (record token { used_at = some now })
    → find_grant token.grant_id t ≡ some grant
    → (grant.client_id ==s j.client.client_id) ≡ true
    → refresh d fresh j later t ≡ (
      throw invalid_grant,
      audited "oauth.refresh_replay_detected" false j.client.client_id grant.connection_id
          (revoke_grant grant.id "refresh token replay detected" later t),
    )
unfolding refresh presented_token check_refresh_token
reused d fresh j later now t given token grant e₁ e₂ e₃ e₄ = rw (e₁, e₂, e₃, e₄)

-- The last rows of the two tables are the pair's, under this grant.
pub record PairUnder (d : Digests) (grant : String) (pair : TokenResponse) (s : Store)
    : Type 0 where
  pub access : AccessTokenRow
  pub older_access : List AccessTokenRow
  pub is_access : s.access_tokens ≡ older_access ++ access ∷ []
  pub access_hash : access.token_hash ≡ d.sha256_hex pair.access_token
  pub access_under : access.grant_id ≡ grant
  pub refresh : RefreshTokenRow
  pub older_refresh : List RefreshTokenRow
  pub is_refresh : s.refresh_tokens ≡ older_refresh ++ refresh ∷ []
  pub refresh_hash : refresh.token_hash ≡ d.sha256_hex pair.refresh_token
  pub refresh_under : refresh.grant_id ≡ grant

renew-PairUnder :
    (d : Digests) (fresh : Fresh) (i : RefreshInput) (now : ℕ) (token : RefreshTokenRow)
    (grant : GrantRow) (scopes : List McpScope) (s s' : Store) (pair : TokenResponse)
    → renew d fresh i now token grant scopes s ≡ (ok pair, s')
    → PairUnder d grant.id pair s'
unfolding renew mint_pair touch_grant
renew-PairUnder d fresh i now token grant scopes s s' pair h =
    let first : fresh.access_token ≡ pair.access_token = cc in
    let second : fresh.refresh_token ≡ pair.refresh_token = cc in
    record {
      access = access_row d fresh grant.id grant.connection_id scopes grant.resource now s.settings;
      older_access = s.access_tokens;
      is_access = cc;
      access_hash = ap d.sha256_hex first;
      access_under = refl;
      refresh = refresh_row d fresh grant.id (some token.id) now s.settings;
      older_refresh = s.refresh_tokens;
      is_refresh = cc;
      refresh_hash = ap d.sha256_hex second;
      refresh_under = refl;
    }

-- After a refresh that succeeded, a second refresh with the same token by the same client, at any
-- time, fails with `invalid_grant`, and leaves the grant of the presented token, and every token under
-- that grant, revoked. The tokens of the first refresh's pair are under it.
pub refresh_twice :
    (d : Digests) (fresh again : Fresh) (i j : RefreshInput) (now later : ℕ) (s s' : Store)
    (pair : TokenResponse)
    → refresh d fresh i now s ≡ (ok pair, s')
    → j.refresh_token ≡ i.refresh_token
    → j.client.client_id ≡ i.client.client_id
    → (given : String) × (token : RefreshTokenRow) × (grant : GrantRow) × (i.refresh_token
        ≡ some given)
      × (find_refresh_token_by_hash (d.sha256_hex given) s ≡ some token)
      × (find_grant token.grant_id s ≡ some grant)
      × PairUnder d grant.id pair s'
      × ((refresh d again j later s').0 ≡ throw invalid_grant)
      × IsDead grant.id (refresh d again j later s').1
unfolding mark_refresh_token_used
refresh_twice d fresh again i j now later s s' pair done same client =
    let p = refresh-RefreshParts d fresh i now s s' pair done in
    let marked : Store = (mark_refresh_token_used p.token.id now s).1 in
    let found : find_refresh_token_by_hash (d.sha256_hex p.given) s'
        ≡ some (record p.token { used_at = some now }) =
      rw (renew-refresh_tokens d fresh i now p.token p.grant p.scopes marked s' pair p.renewed) (
        find-used (d.sha256_hex p.given) p.token now s.refresh_tokens
          (refresh_row d fresh p.grant.id (some p.token.id) now marked.settings ∷ [])
          p.current.unspent p.current.token_live p.found) in
    let granted : find_grant p.token.grant_id s' ≡ some (grant_touched now p.grant) =
      rw (renew-grants d fresh i now p.token p.grant p.scopes marked s' pair p.renewed)
        (find-touched p.token.grant_id p.grant now s.grants p.granted) in
    let own : (p.grant.client_id ==s j.client.client_id) ≡ true =
      (eq_iff _ _).1 (p.own ∙ sym client) in
    (
      p.given,
      p.token,
      p.grant,
      p.presents,
      p.found,
      p.granted,
      renew-PairUnder d fresh i now p.token p.grant p.scopes marked s' pair p.renewed,
      rw
          (reused d again j later now s' p.given p.token (grant_touched now p.grant)
            (same ∙ p.presents) found granted own)
          refl,
      rw
          (reused d again j later now s' p.given p.token (grant_touched now p.grant)
            (same ∙ p.presents) found granted own)
          (IsDead-audited p.grant.id "oauth.refresh_replay_detected" j.client.client_id
            p.grant.connection_id false
            (revoke_grant p.grant.id "refresh token replay detected" later s')
            (revoke_grant-IsDead p.grant.id "refresh token replay detected" later s')),
    )
