-- ===== src/Auth/Bootstrap.antt =====
-- The first account, at startup: apps/server/src/modules/auth/bootstrap.ts. The password policy of the
-- request schemas, and what `hashPassword` draws, are arguments; log lines are left out.
use docker_webmail_gui.Auth.Store.{
  Email, administrator, admin_bootstrap_created, Database, record_audit_event, count_admins,
  new_admin, insert_admin,
}
use docker_webmail_gui.Auth.Service.{event}
use docker_webmail_gui.Common.{Bool, Option, String, if◌then◌else◌, ltb, none, not, some, true, ℕ}

-- The transaction: the count is read again.
unfoldable pub create_if_none : Email → String → String → ℕ → Database → Database
create_if_none email id hash now db =
    if ltb 0 (count_admins db)
    then db
    else let admin = new_admin id email hash administrator true now in
      record_audit_event (event (some id) admin.email (admin_bootstrap_created id))
        (insert_admin admin db)

abbrev pub with_config :
    (String → Bool) → String → String → ℕ → Database → Option Email → Option String → Database
with_config meets_policy id hash now db none password = db
with_config meets_policy id hash now db (some email) none = db
with_config meets_policy id hash now db (some email) (some password) =
    if not (meets_policy password) then db else create_if_none email id hash now db

unfoldable pub bootstrap_first_admin :
    (String → Bool) → Option Email → Option String → String → String → ℕ → Database → Database
bootstrap_first_admin meets_policy email password id hash now db =
    if ltb 0 (count_admins db) then db else with_config meets_policy id hash now db email password
