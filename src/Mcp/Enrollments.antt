-- ===== src/Mcp/Enrollments.antt =====
-- Setup credentials: the enrollment table of apps/mcp/src/store/connections.repository.ts with all
-- its columns. One row is issued to a connection, reserved by an approval and consumed by its code.
pub mod Lockout
mod Tests
use docker_webmail_gui.Mcp.Store.{is_null}
use docker_webmail_gui.Common.{
  ℕ, ◌+◌, String, Bool, true, Option, none, some, List, [], ◌∷◌, ◌++◌, ◌&&◌, ◌==s◌, leb, ltb, ◌==◌,
  update_where, count_where, find,
}

pub record SetupCredential : Type 0 where
  pub id : String
  pub connection_id : String
  pub username : String
  pub password_hash : String
  pub issued_at : ℕ
  pub expires_at : ℕ
  pub consumed_at : Option ℕ
  pub reserved_code_id : Option String
  pub reserved_until : Option ℕ
  pub failed_attempts : ℕ
  pub locked_at : Option ℕ
  pub revoked_at : Option ℕ

abbrev pub enrollment_max_failed_attempts : ℕ
enrollment_max_failed_attempts = 5

abbrev pub has_credential_id : String → SetupCredential → Bool
has_credential_id id e = e.id ==s id

unfoldable pub find_enrollment_by_id : String → List SetupCredential → Option SetupCredential
find_enrollment_by_id id rows = find (has_credential_id id) rows

unfoldable pub find_enrollment_by_username : String → List SetupCredential → Option SetupCredential
find_enrollment_by_username username rows = find (λ e. e.username ==s username) rows

abbrev live_of : String → SetupCredential → Bool
live_of connection e = (e.connection_id ==s connection) && is_null e.revoked_at

abbrev called_in : ℕ → SetupCredential → SetupCredential
called_in now e = record e { revoked_at = some now }

unfoldable pub revoke_enrollments : String → ℕ → List SetupCredential → List SetupCredential
revoke_enrollments connection now rows = update_where (live_of connection) (called_in now) rows

abbrev new_credential : String → String → String → String → ℕ → ℕ → SetupCredential
new_credential id connection username password_hash expires_at now = record {
  id = id;
  connection_id = connection;
  username = username;
  password_hash = password_hash;
  issued_at = now;
  expires_at = expires_at;
  consumed_at = none;
  reserved_code_id = none;
  reserved_until = none;
  failed_attempts = 0;
  locked_at = none;
  revoked_at = none;
}

-- One transaction, which gives the inserted row back: the connection's older credentials are revoked first.
unfoldable pub issue_enrollment :
    String → String → String → String → ℕ → ℕ → List SetupCredential → List SetupCredential
issue_enrollment id connection username password_hash expires_at now rows =
    revoke_enrollments connection now rows
    ++ new_credential id connection username password_hash expires_at now ∷ []

abbrev renewed : String → ℕ → ℕ → SetupCredential → SetupCredential
renewed password_hash expires_at now e = record e {
  password_hash = password_hash;
  issued_at = now;
  expires_at = expires_at;
  consumed_at = none;
  reserved_code_id = none;
  reserved_until = none;
  failed_attempts = 0;
  locked_at = none;
  revoked_at = none;
}

unfoldable pub reset_enrollment :
    String → String → ℕ → ℕ → List SetupCredential → List SetupCredential
reset_enrollment id password_hash expires_at now rows =
    update_where (has_credential_id id) (renewed password_hash expires_at now) rows

abbrev locked_if : Bool → ℕ → Option ℕ → Option ℕ
locked_if true now none = some now
locked_if _ now locked = locked

abbrev pub failed_once : ℕ → SetupCredential → SetupCredential
failed_once now e = record e {
  failed_attempts = e.failed_attempts + 1;
  locked_at =
      locked_if (leb enrollment_max_failed_attempts (e.failed_attempts + 1)) now e.locked_at;
}

abbrev failures_of : Option SetupCredential → ℕ
failures_of none = enrollment_max_failed_attempts
failures_of (some e) = e.failed_attempts

-- The new count, and the rows.
unfoldable pub record_failed_attempt : String → ℕ → List SetupCredential → ℕ × List SetupCredential
record_failed_attempt id now rows =
    let rows' = update_where (has_credential_id id) (failed_once now) rows in
    (failures_of (find (has_credential_id id) rows'), rows')

abbrev is_free : Option ℕ → ℕ → Bool
is_free none now = true
is_free (some until) now = leb until now

abbrev pub reservable : String → ℕ → SetupCredential → Bool
reservable id now e =
    (e.id ==s id)
    && is_null e.consumed_at
    && is_null e.revoked_at
    && is_null e.locked_at
    && ltb now e.expires_at
    && is_free e.reserved_until now

abbrev pub reserved : String → ℕ → SetupCredential → SetupCredential
reserved code until e = record e { reserved_code_id = some code; reserved_until = some until }

unfoldable pub reserve_enrollment :
    String → String → ℕ → ℕ → List SetupCredential → Bool × List SetupCredential
reserve_enrollment id code until now rows = (
  count_where (reservable id now) rows == 1,
  update_where (reservable id now) (reserved code until) rows,
)
