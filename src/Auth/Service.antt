-- ===== src/Auth/Service.antt =====
-- Logins, sessions and lockout: apps/server/src/modules/auth/auth.service.ts. Argon2, the digest and
-- random values are parameters. A login reads the clock before it waits for the password's verification,
-- and again after; no other request is in between.
use docker_webmail_gui.Auth.Store.{
  Email, normalize_email, AdminRole, AdminRow, SessionRow, LoginAttemptRow, AuditErrorCode,
  rate_limited, invalid_credentials, account_disabled, AuditAction, login_failure, login_success,
  logout, password_change_failure, password_change_success, AuditEvent, Database,
  record_audit_event, find_by_email, find_by_id, update_password, find_by_token_hash, touch, revoke,
  revoke_all_for_admin, delete_expired_before, count_failures_for_identifier_since,
  count_failures_for_ip_since, record_attempt, clear_failures_for_identifier, prune_before,
}
use docker_webmail_gui.Common.{
  Bool, Option, String, false, if◌then◌else◌, leb, none, not, some, true, ℕ, ◌*◌, ◌++◌, ◌+◌, ◌-◌,
  ◌∷◌, [], ◌||◌,
}

-- `verifyPassword(hash, password)`, `hashToken` and the hash that hides that no account is found.
pub record Crypto : Type 0 where
  pub verify_password : String → String → Bool
  pub hash_token : String → String
  pub dummy_password_hash : String

pub record Config : Type 0 where
  pub absolute_ttl_hours : ℕ
  pub idle_ttl_hours : ℕ

-- The random values of one login.
pub record Drawn : Type 0 where
  pub session_token : String
  pub csrf_token : String
  pub session_id : String
  pub attempt_id : String

abbrev pub window_minutes : ℕ
window_minutes = 15

abbrev pub max_failures_per_identifier : ℕ
max_failures_per_identifier = 10

abbrev pub max_failures_per_ip : ℕ
max_failures_per_ip = 30

pub record LoginInput : Type 0 where
  pub email : Email
  pub password : String
  pub ip_address : String
  pub user_agent : Option String

pub record AdminSummary : Type 0 where
  pub id : String
  pub email : Email
  pub role : AdminRole
  pub disabled : Bool
  pub force_password_change : Bool
  pub created_at : ℕ
  pub updated_at : ℕ

pub data LoginOutcome : Type 0 where
  success : AdminSummary → SessionRow → String → LoginOutcome
  failure : LoginOutcome

pub data InvalidReason : Type 0 where
  unknown revoked expired idle admin_unusable : InvalidReason

pub data SessionValidation : Type 0 where
  valid : SessionRow → AdminRow → SessionValidation
  invalid : InvalidReason → SessionValidation

abbrev pub to_admin_summary : AdminRow → AdminSummary
to_admin_summary row = record {
  id = row.id;
  email = row.email;
  role = row.role;
  disabled = row.disabled;
  force_password_change = row.force_password_change;
  created_at = row.created_at;
  updated_at = row.updated_at;
}

abbrev pub minutes_ago : ℕ → ℕ → ℕ
minutes_ago minutes now = now - minutes * 60_000

abbrev pub hours_from_now : ℕ → ℕ → ℕ
hours_from_now hours now = now + hours * 3_600_000

unfoldable pub is_locked_out : ℕ → Email → String → Database → Bool
is_locked_out now identifier ip db =
    leb max_failures_per_identifier
      (count_failures_for_identifier_since db identifier (minutes_ago window_minutes now))
    || leb max_failures_per_ip (count_failures_for_ip_since db ip (minutes_ago window_minutes now))

abbrev pub attempt_of : Drawn → Email → LoginInput → Bool → ℕ → LoginAttemptRow
attempt_of drawn identifier input accepted now = record {
  id = drawn.attempt_id;
  identifier = identifier;
  ip_address = input.ip_address;
  success = accepted;
  attempted_at = now;
}

abbrev pub event : Option String → Email → AuditAction → AuditEvent
event admin_id label action = record { admin_id = admin_id; label = label; action = action }

unfoldable pub record_failure :
    Drawn
    → Email
    → LoginInput
    → AuditErrorCode
    → Option String
    → ℕ
    → Database
    → LoginOutcome × Database
record_failure drawn identifier input code admin_id now db = (
  failure,
  record_audit_event (event admin_id identifier (login_failure code))
      (record_attempt (attempt_of drawn identifier input false now) db),
)

abbrev pub new_session : Crypto → Config → Drawn → AdminRow → LoginInput → ℕ → SessionRow
new_session crypto config drawn admin input now = record {
  id = drawn.session_id;
  admin_id = admin.id;
  token_hash = crypto.hash_token drawn.session_token;
  csrf_token = drawn.csrf_token;
  created_at = now;
  expires_at = hours_from_now config.absolute_ttl_hours now;
  last_seen_at = now;
  ip_address = some input.ip_address;
  user_agent = input.user_agent;
  revoked_at = none;
}

abbrev pub insert_session : SessionRow → Database → Database
insert_session session db = record db { sessions = db.sessions ++ session ∷ [] }

unfoldable pub succeed :
    Crypto → Config → Drawn → Email → LoginInput → AdminRow → ℕ → Database → LoginOutcome × Database
succeed crypto config drawn identifier input admin now db =
    let session = new_session crypto config drawn admin input now in
    (
      success (to_admin_summary admin) session drawn.session_token,
      record_audit_event (event (some admin.id) admin.email login_success) (
          insert_session session (
            clear_failures_for_identifier identifier
              (record_attempt (attempt_of drawn identifier input true now) db))),
    )

-- What follows the verification of the account's own password.
unfoldable pub verified :
    Crypto
    → Config
    → Drawn
    → Email
    → LoginInput
    → AdminRow
    → Bool
    → ℕ
    → Database
    → LoginOutcome × Database
verified crypto config drawn identifier input admin matches now db =
    if not matches
    then record_failure drawn identifier input invalid_credentials (some admin.id) now db
    else if admin.disabled
    then record_failure drawn identifier input account_disabled (some admin.id) now db
    else succeed crypto config drawn identifier input admin now db

abbrev pub with_account :
    Crypto
    → Config
    → Drawn
    → Email
    → LoginInput
    → ℕ
    → Database
    → Option AdminRow
    → LoginOutcome × Database
with_account crypto config drawn identifier input now db none =
    record_failure drawn identifier input invalid_credentials none now db
with_account crypto config drawn identifier input now db (some admin) =
    verified crypto config drawn identifier input admin
      (crypto.verify_password admin.password_hash input.password) now db

unfoldable pub login :
    Crypto → Config → Drawn → ℕ → ℕ → LoginInput → Database → LoginOutcome × Database
login crypto config drawn started now input db =
    let identifier = normalize_email input.email in
    if is_locked_out started identifier input.ip_address db
    then record_failure drawn identifier input rate_limited none now db
    else with_account crypto config drawn identifier input now db (find_by_email db identifier)

abbrev pub is_revoked : SessionRow → Bool
is_revoked session = elim session.revoked_at [ none ↦ false | some at ↦ true ]

abbrev pub idle_deadline : Config → SessionRow → ℕ
idle_deadline config session = session.last_seen_at + config.idle_ttl_hours * 3_600_000

abbrev pub with_admin : SessionRow → ℕ → Database → Option AdminRow → SessionValidation × Database
with_admin session now db none = (invalid admin_unusable, db)
with_admin session now db (some admin) =
    if admin.disabled
    then (invalid admin_unusable, db)
    else (valid session admin, touch session.id now db)

abbrev pub with_session : Config → ℕ → Database → Option SessionRow → SessionValidation × Database
with_session config now db none = (invalid unknown, db)
with_session config now db (some session) =
    if is_revoked session
    then (invalid revoked, db)
    else if leb session.expires_at now
    then (invalid expired, db)
    else if leb (idle_deadline config session) now
    then (invalid idle, db)
    else with_admin session now db (find_by_id db session.admin_id)

unfoldable pub validate_session :
    Crypto → Config → String → ℕ → Database → SessionValidation × Database
validate_session crypto config token now db =
    with_session config now db (find_by_token_hash db (crypto.hash_token token))

unfoldable pub log_out : SessionRow → AdminRow → ℕ → Database → Database
log_out session admin now db =
    record_audit_event (event (some admin.id) admin.email logout) (revoke session.id now db)

pub data PasswordChange : Type 0 where
  changed : AdminSummary → PasswordChange
  refused : PasswordChange

abbrev pub or_admin : Option AdminRow → AdminRow → AdminRow
or_admin none admin = admin
or_admin (some updated) admin = updated

-- `new_hash` is what `hashPassword` draws for the new password.
unfoldable pub change_password :
    Crypto → AdminRow → SessionRow → String → String → ℕ → Database → PasswordChange × Database
change_password crypto admin current current_password new_hash now db =
    if not (crypto.verify_password admin.password_hash current_password)
    then (
      refused,
      record_audit_event
          (event (some admin.id) admin.email (password_change_failure invalid_credentials)) db,
    )
    else let swept =
        revoke_all_for_admin admin.id now current.id (update_password admin.id new_hash now db) in
      let stored =
        record_audit_event (event (some admin.id) admin.email (password_change_success swept.0))
          swept.1 in
      (
        changed (
            to_admin_summary
              (or_admin (find_by_id stored admin.id) (record admin { password_hash = new_hash }))),
        stored,
      )

unfoldable pub prune_expired : ℕ → Database → (ℕ × ℕ) × Database
prune_expired now db =
    let sessions = delete_expired_before now db in
    let attempts = prune_before (minutes_ago (window_minutes * 4) now) sessions.1 in
    ((sessions.0, attempts.0), attempts.1)
