-- ===== src/Mcp/Connections.antt =====
-- The derived status of a connection: apps/mcp/src/domain/connections.service.ts (`statusOf`) and
-- apps/mcp/src/store/bindings.repository.ts (`credentialHealth`).
use docker_webmail_gui.Mcp.Store.{
  StoredCredential, BindingRow, ConnectionState, ConnectionRow, BindingState, Store, get_credential,
  count_active_grants,
}
use docker_webmail_gui.Common.{
  ℕ, String, Bool, true, false, not, Option, none, some, ◌==s◌, ltb, leb, if◌then◌else◌,
}

pub data CredentialHealth : Type 0 where
  healthy missing stale invalid mailbox_missing revoked vault_unavailable : CredentialHealth

pub data ConnectionStatus : Type 0 where
  pending active disabled suspended expired revoked : ConnectionStatus

abbrev credential_opens : Option String → Option StoredCredential → CredentialHealth
credential_opens vault none = CredentialHealth.missing
credential_opens none (some credential) = CredentialHealth.vault_unavailable
credential_opens (some key) (some credential) =
    if credential.key_id ==s key
    then CredentialHealth.healthy
    else CredentialHealth.vault_unavailable

abbrev health_in : Option String → Option StoredCredential → BindingState → CredentialHealth
health_in vault credential BindingState.revoked = CredentialHealth.revoked
health_in vault credential BindingState.mailbox_missing = CredentialHealth.mailbox_missing
health_in vault credential BindingState.stale = CredentialHealth.stale
health_in vault credential BindingState.invalid = CredentialHealth.invalid
health_in vault credential BindingState.active = credential_opens vault credential

unfoldable pub credential_health : BindingRow → Store → CredentialHealth
credential_health binding s = health_in s.vault_key_id (get_credential binding.id s) binding.state

abbrev pub is_healthy : CredentialHealth → Bool
is_healthy CredentialHealth.healthy = true
is_healthy _ = false

abbrev pub is_revoked : ConnectionState → Bool
is_revoked ConnectionState.revoked = true
is_revoked _ = false

abbrev is_disabled : ConnectionState → Bool
is_disabled ConnectionState.disabled = true
is_disabled _ = false

abbrev is_revoked_binding : BindingState → Bool
is_revoked_binding BindingState.revoked = true
is_revoked_binding _ = false

-- `expiresAt !== null && expiresAt <= now`
abbrev pub has_passed : Option ℕ → ℕ → Bool
has_passed none now = false
has_passed (some t) now = leb t now

unfoldable pub status_of : ConnectionRow → BindingRow → ℕ → Store → ConnectionStatus
unfolding credential_health
status_of connection binding now s =
    if is_revoked connection.state
    then ConnectionStatus.revoked
    else if is_revoked_binding binding.state
    then ConnectionStatus.revoked
    else if has_passed connection.expires_at now
    then ConnectionStatus.expired
    else if is_disabled connection.state
    then ConnectionStatus.disabled
    else if not (is_healthy (credential_health binding s))
    then ConnectionStatus.suspended
    else if ltb 0 (count_active_grants connection.id s)
    then ConnectionStatus.active
    else ConnectionStatus.pending
