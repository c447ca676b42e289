-- ===== src/Mcp/Store/Revocation.antt =====
-- What revoking a grant leaves in the tables (oauth.repository.ts, `revokeGrant`).
use docker_webmail_gui.Mcp.Store.{
  Store, revoke_grant, RefreshTokenRow, GrantRow, AccessTokenRow, live_grant, grant_revoked,
  live_access, access_revoked, live_refresh, refresh_revoked,
}
use docker_webmail_gui.Common.{ℕ, String, ◌≡◌, ◌≢◌, none, arith, eq_iff, All, All-update_where}

abbrev pub IsDeadGrant : String → GrantRow → Type 0
IsDeadGrant id g = g.id ≡ id → g.revoked_at ≢ none

abbrev pub IsDeadAccess : String → AccessTokenRow → Type 0
IsDeadAccess id t = t.grant_id ≡ id → t.revoked_at ≢ none

abbrev pub IsDeadRefresh : String → RefreshTokenRow → Type 0
IsDeadRefresh id t = t.grant_id ≡ id → t.revoked_at ≢ none

-- No grant with this id, and no token issued under it, is live.
pub record IsDead (id : String) (s : Store) : Type 0 where
  pub grants_dead : All (IsDeadGrant id) s.grants
  pub access_dead : All (IsDeadAccess id) s.access_tokens
  pub refresh_dead : All (IsDeadRefresh id) s.refresh_tokens

-- Revoking a grant leaves the grant and all its access and refresh tokens revoked.
pub revoke_grant-IsDead :
    (id reason : String) (now : ℕ) (s : Store) → IsDead id (revoke_grant id reason now s)
unfolding revoke_grant
revoke_grant-IsDead id reason now s = record {
  grants_dead =
      All-update_where (IsDeadGrant id) (live_grant id) (grant_revoked now reason) s.grants
        (λ g e. ground (arith, eq_iff g.id id));
  access_dead =
      All-update_where (IsDeadAccess id) (live_access id) (access_revoked now) s.access_tokens
        (λ t e. ground (arith, eq_iff t.grant_id id));
  refresh_dead =
      All-update_where (IsDeadRefresh id) (live_refresh id) (refresh_revoked now) s.refresh_tokens
        (λ t e. ground (arith, eq_iff t.grant_id id));
}
