-- ===== src/Mcp/Tokens/Revoking.antt =====
-- The revocation endpoint's method (tokens.service.ts, `revoke`).
use docker_webmail_gui.Mcp.Store.{
  OAuthClientRow, Store, AccessTokenRow, RefreshTokenRow, find_refresh_token_by_hash, GrantRow,
  find_access_token_by_hash, find_grant, revoke_grant, is_text,
}
use docker_webmail_gui.Mcp.Tokens.{Digests, revoke, own_grant, audited, refresh_found, access_found}
use docker_webmail_gui.Mcp.Tokens.Replay.{IsDead-audited}
use docker_webmail_gui.Mcp.Store.Revocation.{IsDead, revoke_grant-IsDead}
use docker_webmail_gui.Common.{
  ◌≢◌, ◌==s◌, ℕ, String, ◌≡◌, refl, inl, inr, true, Option, none, some, eq_iff, Bool-cases, if_same,
}

-- Whatever the hint, a client that revokes its own refresh token leaves the grant and every token
-- under it revoked. (No access token has the same digest.)
pub revoke_refresh_token :
    (d : Digests) (client : OAuthClientRow) (text : String) (hint : Option String) (now : ℕ)
    (s : Store) (token : RefreshTokenRow) (grant : GrantRow)
    → find_refresh_token_by_hash (d.sha256_hex text) s ≡ some token
    → find_access_token_by_hash (d.sha256_hex text) s ≡ none
    → find_grant token.grant_id s ≡ some grant
    → grant.client_id ≡ client.client_id
    → IsDead grant.id (revoke d client text hint now s)
unfolding revoke
revoke_refresh_token d client text hint now s token grant e₁ e₂ e₃ own =
    elim (Bool-cases (is_text hint "access_token")) [
      | inl h ↦ rw (h, e₂, e₁, e₃, (eq_iff _ _).1 own) dead
      | inr h ↦ rw (h, e₁, e₃, (eq_iff _ _).1 own) dead
    ]
  where
    dead : IsDead grant.id (
        audited "oauth.token_revoked" true client.client_id grant.connection_id
          (revoke_grant grant.id "revoked by client" now s))
    dead =
        IsDead-audited grant.id "oauth.token_revoked" client.client_id grant.connection_id true
          (revoke_grant grant.id "revoked by client" now s)
          (revoke_grant-IsDead grant.id "revoked by client" now s)

-- No grant with this id is the client's.
abbrev pub IsForeignGrant : OAuthClientRow → Store → String → Type 0
IsForeignGrant client s id =
    (grant : GrantRow) → find_grant id s ≡ some grant → grant.client_id ≢ client.client_id

abbrev pub IsForeignRefresh : OAuthClientRow → Store → String → Type 0
IsForeignRefresh client s hash =
    (t : RefreshTokenRow)
    → find_refresh_token_by_hash hash s ≡ some t
    → IsForeignGrant client s t.grant_id

abbrev pub IsForeignAccess : OAuthClientRow → Store → String → Type 0
IsForeignAccess client s hash =
    (t : AccessTokenRow)
    → find_access_token_by_hash hash s ≡ some t
    → IsForeignGrant client s t.grant_id

own_grant-none :
    (client : OAuthClientRow) (o : Option GrantRow)
    → ((grant : GrantRow) → o ≡ some grant → grant.client_id ≢ client.client_id)
    → own_grant o client ≡ none
own_grant-none client none h = refl
own_grant-none client (some grant) h = elim (Bool-cases (grant.client_id ==s client.client_id)) [
  | inl e ↦ absurd (h grant refl ((eq_iff grant.client_id client.client_id).0 e))
  | inr e ↦ rw e refl
]

refresh_found-foreign :
    (client : OAuthClientRow) (now : ℕ) (s : Store) (o : Option RefreshTokenRow)
    → ((t : RefreshTokenRow) → o ≡ some t → IsForeignGrant client s t.grant_id)
    → (refresh_found client now s o).1 ≡ s
refresh_found-foreign client now s none h = refl
refresh_found-foreign client now s (some t) h =
    rw (own_grant-none client (find_grant t.grant_id s) (h t refl)) refl

access_found-foreign :
    (client : OAuthClientRow) (hash : String) (now : ℕ) (s : Store) (o : Option AccessTokenRow)
    → ((t : AccessTokenRow) → o ≡ some t → IsForeignGrant client s t.grant_id)
    → (access_found client hash now s o).1 ≡ s
access_found-foreign client hash now s none h = refl
access_found-foreign client hash now s (some t) h =
    rw (own_grant-none client (find_grant t.grant_id s) (h t refl)) refl

-- To revoke a token changes nothing where every refresh or access token with its digest belongs to a
-- grant that is not the client's, or to none.
pub revoke_foreign :
    (d : Digests) (client : OAuthClientRow) (text : String) (hint : Option String) (now : ℕ)
    (s : Store)
    → IsForeignRefresh client s (d.sha256_hex text)
    → IsForeignAccess client s (d.sha256_hex text)
    → revoke d client text hint now s ≡ s
unfolding revoke
revoke_foreign d client text hint now s h k =
    let r =
      refresh_found-foreign client now s (find_refresh_token_by_hash (d.sha256_hex text) s) h in
    let a =
      access_found-foreign client (d.sha256_hex text) now s
        (find_access_token_by_hash (d.sha256_hex text) s) k in
    elim (Bool-cases (is_text hint "access_token")) [
      | inl e ↦ rw (e, a, r) (if_same _ s)
      | inr e ↦ rw (e, r, a) (if_same _ s)
    ]
