-- ===== src/Auth/AdminRoutes.antt =====
-- The routes that change accounts: apps/server/src/modules/auth/admins.routes.ts, behind the session check.
-- A role is never changed to another, since there is one. A new account's password hash is an argument.
use docker_webmail_gui.Auth.Store.{
  Email, administrator, AdminRow, admin_create, admin_update, admin_delete, Database,
  record_audit_event, find_by_email, find_by_id, count_enabled, UpdateAdminPatch, update, new_admin,
  delete_admin, insert_admin,
}
use docker_webmail_gui.Auth.Service.{event}
use docker_webmail_gui.Common.{
  Bool, Option, String, false, if◌then◌else◌, leb, none, some, true, ℕ, ◌==s◌,
}

pub data AppError : Type 0 where
  forbidden not_found conflict : AppError

pub data Reply : Type 0 where
  sent : AdminRow → Reply
  no_content : Reply
  error : AppError → Reply

abbrev pub Guard : Type 0
Guard = Option AppError

abbrev pub assert_not_self : String → String → Guard
assert_not_self actor_id target_id = if actor_id ==s target_id then some forbidden else none

unfoldable pub assert_not_last_enabled_admin : Database → AdminRow → Guard
assert_not_last_enabled_admin db target =
    if target.disabled then none else if leb (count_enabled db) 1 then some conflict else none

-- Both guards, in order, then the change.
abbrev pub guarded : Guard → Guard → Database → Reply × Database → Reply × Database
guarded (some e) second db change = (error e, db)
guarded none (some e) db change = (error e, db)
guarded none none db change = change

abbrev pub create_unless :
    AdminRow → Email → String → String → ℕ → Database → Option AdminRow → Reply × Database
create_unless actor email id hash now db (some existing) = (error conflict, db)
create_unless actor email id hash now db none =
    let created = new_admin id email hash administrator true now in
    (
      sent created,
      record_audit_event (event (some actor.id) actor.email (admin_create id))
          (insert_admin created db),
    )

-- `POST /`
unfoldable pub create_route : AdminRow → Email → String → String → ℕ → Database → Reply × Database
create_route actor email id hash now db =
    create_unless actor email id hash now db (find_by_email db email)

abbrev or_target : Option AdminRow → AdminRow → AdminRow
or_target none target = target
or_target (some updated) target = updated

abbrev pub asks_disabled : UpdateAdminPatch → Bool
asks_disabled patch = elim patch.disabled [ none ↦ false | some d ↦ d ]

unfoldable pub apply_update :
    AdminRow → AdminRow → UpdateAdminPatch → ℕ → Database → Reply × Database
apply_update actor target patch now db =
    let stored = update target.id patch now db in
    let updated = or_target (find_by_id stored target.id) target in
    (
      sent updated,
      record_audit_event (event (some actor.id) actor.email (admin_update updated.id)) stored,
    )

abbrev pub update_found :
    AdminRow → UpdateAdminPatch → ℕ → Database → Option AdminRow → Reply × Database
update_found actor patch now db none = (error not_found, db)
update_found actor patch now db (some target) =
    if asks_disabled patch
    then guarded (assert_not_self actor.id target.id) (assert_not_last_enabled_admin db target) db
        (apply_update actor target patch now db)
    else apply_update actor target patch now db

-- `PATCH /:id`
unfoldable pub update_route : AdminRow → String → UpdateAdminPatch → ℕ → Database → Reply × Database
update_route actor id patch now db = update_found actor patch now db (find_by_id db id)

unfoldable pub apply_delete : AdminRow → AdminRow → Database → Reply × Database
apply_delete actor target db = (
  no_content,
  record_audit_event (event (some actor.id) actor.email (admin_delete target.id))
      (delete_admin target.id db),
)

abbrev pub delete_found : AdminRow → Database → Option AdminRow → Reply × Database
delete_found actor db none = (error not_found, db)
delete_found actor db (some target) =
    guarded (assert_not_self actor.id target.id) (assert_not_last_enabled_admin db target) db
      (apply_delete actor target db)

-- `DELETE /:id`
unfoldable pub delete_route : AdminRow → String → Database → Reply × Database
delete_route actor id db = delete_found actor db (find_by_id db id)
