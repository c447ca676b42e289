-- ===== src/Auth/Store.antt =====
-- The tables of accounts, sessions and login attempts: apps/server/src/modules/auth/admins.repository.ts,
-- sessions.repository.ts and login-attempts.repository.ts. An instant is the number of milliseconds since
-- the epoch: the code compares ISO-8601 texts of one fixed format, which order as the instants do. An
-- email is a list of code units, of ASCII, which is all that the request's schema lets through. A row's
-- identifier, and the clock, are arguments of the operation that writes them.
use docker_webmail_gui.Common.{
  Bool, Codes, List, Option, String, count_where, false, filter, find, if◌then◌else◌, in_range, leb,
  ltb, none, not, same_codes, some, trim, true, update_where, ℕ, ◌&&◌, ◌++◌, ◌+◌, ◌==s◌, ◌∷◌, [],
  length,
}

abbrev pub Email : Type 0
Email = Codes

abbrev pub lower : ℕ → ℕ
lower c = if in_range b'A' b'Z' c then c + 32 else c

abbrev pub lower_all : Codes → Codes
lower_all [] = []
lower_all (c ∷ cs) = lower c ∷ lower_all cs

unfoldable pub normalize_email : Email → Email
normalize_email email = lower_all (trim email)

pub data AdminRole : Type 0 where
  administrator : AdminRole

pub record AdminRow : Type 0 where
  pub id : String
  pub email : Email
  pub password_hash : String
  pub role : AdminRole
  pub disabled : Bool
  pub force_password_change : Bool
  pub created_at : ℕ
  pub updated_at : ℕ

pub record SessionRow : Type 0 where
  pub id : String
  pub admin_id : String
  pub token_hash : String
  pub csrf_token : String
  pub created_at : ℕ
  pub expires_at : ℕ
  pub last_seen_at : ℕ
  pub ip_address : Option String
  pub user_agent : Option String
  pub revoked_at : Option ℕ

pub record LoginAttemptRow : Type 0 where
  pub id : String
  pub identifier : Email
  pub ip_address : String
  pub success : Bool
  pub attempted_at : ℕ

pub data AuditErrorCode : Type 0 where
  rate_limited invalid_credentials account_disabled : AuditErrorCode

pub data AuditAction : Type 0 where
  login_failure : AuditErrorCode → AuditAction
  login_success logout : AuditAction
  password_change_failure : AuditErrorCode → AuditAction
  password_change_success : ℕ → AuditAction
  admin_create admin_update admin_delete admin_bootstrap_created : String → AuditAction

pub record AuditEvent : Type 0 where
  pub admin_id : Option String
  pub label : Email
  pub action : AuditAction

pub record Database : Type 0 where
  pub admins : List AdminRow
  pub sessions : List SessionRow
  pub attempts : List LoginAttemptRow
  pub audit : List AuditEvent

-- The rows that a `DELETE ... WHERE` leaves.
abbrev pub delete_where : {A : Type 0} → (A → Bool) → List A → List A
delete_where p rows = filter (λ r. not (p r)) rows

abbrev pub record_audit_event : AuditEvent → Database → Database
record_audit_event event db = record db { audit = db.audit ++ event ∷ [] }

unfoldable pub find_by_email : Database → Email → Option AdminRow
find_by_email db email = find (λ a. same_codes a.email (normalize_email email)) db.admins

unfoldable pub find_by_id : Database → String → Option AdminRow
find_by_id db id = find (λ a. a.id ==s id) db.admins

abbrev pub is_enabled : AdminRow → Bool
is_enabled admin = not admin.disabled

unfoldable pub count_enabled : Database → ℕ
count_enabled db = count_where is_enabled db.admins

unfoldable pub count_admins : Database → ℕ
count_admins db = length db.admins

-- A patch of `update`: each field may be left out.
pub record UpdateAdminPatch : Type 0 where
  pub disabled : Option Bool
  pub role : Option AdminRole

abbrev pub patched_by : Option Bool → Option AdminRole → ℕ → AdminRow → AdminRow
patched_by (some d) (some r) now admin = record admin { disabled = d; role = r; updated_at = now }
patched_by (some d) none now admin = record admin { disabled = d; updated_at = now }
patched_by none (some r) now admin = record admin { role = r; updated_at = now }
patched_by none none now admin = admin

abbrev pub patched : UpdateAdminPatch → ℕ → AdminRow → AdminRow
patched patch = patched_by patch.disabled patch.role

unfoldable pub update : String → UpdateAdminPatch → ℕ → Database → Database
update id patch now db = record db {
  admins = update_where (λ a. a.id ==s id) (patched patch now) db.admins;
}

abbrev pub with_password : String → ℕ → AdminRow → AdminRow
with_password hash now admin = record admin {
  password_hash = hash;
  force_password_change = false;
  updated_at = now;
}

unfoldable pub update_password : String → String → ℕ → Database → Database
update_password id hash now db = record db {
  admins = update_where (λ a. a.id ==s id) (with_password hash now) db.admins;
}

abbrev pub new_admin : String → Email → String → AdminRole → Bool → ℕ → AdminRow
new_admin id email hash role force now = record {
  id = id;
  email = normalize_email email;
  password_hash = hash;
  role = role;
  disabled = false;
  force_password_change = force;
  created_at = now;
  updated_at = now;
}

abbrev pub insert_admin : AdminRow → Database → Database
insert_admin admin db = record db { admins = db.admins ++ admin ∷ [] }

-- The sessions go with the account: `ON DELETE CASCADE`.
unfoldable pub delete_admin : String → Database → Database
delete_admin id db = record db {
  admins = delete_where (λ a. a.id ==s id) db.admins;
  sessions = delete_where (λ s. s.admin_id ==s id) db.sessions;
}

unfoldable pub find_by_token_hash : Database → String → Option SessionRow
find_by_token_hash db hash = find (λ s. s.token_hash ==s hash) db.sessions

abbrev pub is_live : SessionRow → Bool
is_live session = elim session.revoked_at [ none ↦ true | some at ↦ false ]

abbrev pub seen : ℕ → SessionRow → SessionRow
seen at session = record session { last_seen_at = at }

unfoldable pub touch : String → ℕ → Database → Database
touch id at db = record db { sessions = update_where (λ s. s.id ==s id) (seen at) db.sessions }

abbrev pub revoked : ℕ → SessionRow → SessionRow
revoked at session = record session { revoked_at = some at }

unfoldable pub revoke : String → ℕ → Database → Database
revoke id at db = record db {
  sessions = update_where (λ s. (s.id ==s id) && is_live s) (revoked at) db.sessions;
}

abbrev pub is_other : String → String → SessionRow → Bool
is_other admin_id except session =
    (session.admin_id ==s admin_id) && is_live session && not (session.id ==s except)

-- With the number of rows changed.
unfoldable pub revoke_all_for_admin : String → ℕ → String → Database → ℕ × Database
revoke_all_for_admin admin_id at except db = (
  count_where (is_other admin_id except) db.sessions,
  record db { sessions = update_where (is_other admin_id except) (revoked at) db.sessions },
)

unfoldable pub delete_expired_before : ℕ → Database → ℕ × Database
delete_expired_before before db = (
  count_where (λ s. ltb s.expires_at before) db.sessions,
  record db { sessions = delete_where (λ s. ltb s.expires_at before) db.sessions },
)

abbrev pub is_failure_of : Email → ℕ → LoginAttemptRow → Bool
is_failure_of identifier since attempt =
    same_codes attempt.identifier identifier
    && not attempt.success
    && leb since attempt.attempted_at

abbrev pub is_failure_from : String → ℕ → LoginAttemptRow → Bool
is_failure_from ip since attempt =
    (attempt.ip_address ==s ip) && not attempt.success && leb since attempt.attempted_at

unfoldable pub count_failures_for_identifier_since : Database → Email → ℕ → ℕ
count_failures_for_identifier_since db identifier since =
    count_where (is_failure_of identifier since) db.attempts

unfoldable pub count_failures_for_ip_since : Database → String → ℕ → ℕ
count_failures_for_ip_since db ip since = count_where (is_failure_from ip since) db.attempts

unfoldable pub record_attempt : LoginAttemptRow → Database → Database
record_attempt attempt db = record db { attempts = db.attempts ++ attempt ∷ [] }

abbrev pub is_own_failure : Email → LoginAttemptRow → Bool
is_own_failure identifier attempt = same_codes attempt.identifier identifier && not attempt.success

unfoldable pub clear_failures_for_identifier : Email → Database → Database
clear_failures_for_identifier identifier db = record db {
  attempts = delete_where (is_own_failure identifier) db.attempts;
}

unfoldable pub prune_before : ℕ → Database → ℕ × Database
prune_before before db = (
  count_where (λ a. ltb a.attempted_at before) db.attempts,
  record db { attempts = delete_where (λ a. ltb a.attempted_at before) db.attempts },
)
