-- ===== src/Auth/History.antt =====
-- An enabled account remains through all that changes accounts (apps/server/src/modules/auth).
use docker_webmail_gui.Auth.Store.{
  Email, AdminRow, SessionRow, Database, find_by_email, find_by_id, count_admins, is_enabled,
  UpdateAdminPatch, with_password, new_admin, administrator,
}
use docker_webmail_gui.Auth.Service.{Crypto, change_password}
use docker_webmail_gui.Auth.AdminRoutes.{create_route, update_route, delete_route}
use docker_webmail_gui.Auth.Bootstrap.{create_if_none, bootstrap_first_admin}
use docker_webmail_gui.Auth.LastAdmin.{
  has_id, IsManaged, create_unless-IsManaged, update_found-IsManaged, delete_found-IsManaged,
}
use docker_webmail_gui.Auth.Eviction.{change_password-admins}
use docker_webmail_gui.Common.{
  Bool, Bool-cases, List, Option, String, arith, count_where, count_where-same, false, inl, inr,
  length, ltb, lt→ltb, none, refl, some, true, ℕ, ◌∷◌, ◌≡◌, ◌≤◌, [],
}

-- One change: a request to the routes of accounts, a change of password, or a startup.
pub data Step (db : Database) : Database → Type 0 where
  creates :
      (actor : AdminRow) (email : Email) (id hash : String) (now : ℕ)
      → find_by_id db id ≡ none
      → Step db (create_route actor email id hash now db).1
  updates :
      (actor : AdminRow) (id : String) (patch : UpdateAdminPatch) (now : ℕ)
      → Step db (update_route actor id patch now db).1
  deletes : (actor : AdminRow) (id : String) → Step db (delete_route actor id db).1
  changes_password :
      (crypto : Crypto) (admin : AdminRow) (current : SessionRow) (password hash : String) (now : ℕ)
      → Step db (change_password crypto admin current password hash now db).1
  boots :
      (meets_policy : String → Bool) (email : Option Email) (password : Option String)
      (id hash : String) (now : ℕ)
      → Step db (bootstrap_first_admin meets_policy email password id hash now db)

pub data Steps (db : Database) : Database → Type 0 where
  none_yet : Steps db db
  then_one : (mid after : Database) → Steps db mid → Step mid after → Steps db after

count_where-length : {A : Type 0} (p : A → Bool) (rows : List A) → count_where p rows ≤ length rows
count_where-length p [] = omega arith
count_where-length p (x ∷ rows) = ground (arith, count_where-length p rows)

bootstrap_first_admin-managed :
    (meets_policy : String → Bool) (email : Option Email) (password : Option String)
    (id hash : String) (now : ℕ) (db : Database)
    → IsManaged db.admins
    → bootstrap_first_admin meets_policy email password id hash now db ≡ db
unfolding bootstrap_first_admin count_admins
bootstrap_first_admin-managed meets_policy email password id hash now db m =
    let few = count_where-length is_enabled db.admins in
    let some_left = m.1 in
    let there : ltb 0 (length db.admins) ≡ true = lt→ltb 0 (length db.admins) (omega arith) in
    rw there refl

change_password-IsManaged :
    (crypto : Crypto) (admin : AdminRow) (current : SessionRow) (password hash : String) (now : ℕ)
    (db : Database)
    → IsManaged db.admins
    → IsManaged (change_password crypto admin current password hash now db).1.admins
unfolding change_password
change_password-IsManaged crypto admin current password hash now db m =
    elim (Bool-cases (crypto.verify_password admin.password_hash password)) [
      | inl right ↦ rw (change_password-admins crypto admin current password hash now db right) (
        λ id.
            rw
              (count_where-same (has_id id) (has_id admin.id) (with_password hash now) db.admins
                (λ r. refl))
              (m.0 id),
        rw
            (count_where-same is_enabled (has_id admin.id) (with_password hash now) db.admins
              (λ r. refl))
            m.1,
      )
      | inr wrong ↦ rw wrong m
    ]

Step-IsManaged :
    (db after : Database) → Step db after → IsManaged db.admins → IsManaged after.admins
unfolding create_route update_route delete_route
Step-IsManaged db _ (creates actor email id hash now new) m =
    create_unless-IsManaged actor email id hash now db (find_by_email db email) new m
Step-IsManaged db _ (updates actor id patch now) m =
    update_found-IsManaged actor id patch now db (find_by_id db id) refl m
Step-IsManaged db _ (deletes actor id) m =
    delete_found-IsManaged actor id db (find_by_id db id) refl m
Step-IsManaged db _ (changes_password crypto admin current password hash now) m =
    change_password-IsManaged crypto admin current password hash now db m
Step-IsManaged db _ (boots meets_policy email password id hash now) m =
    rw (bootstrap_first_admin-managed meets_policy email password id hash now db m) m

-- Whoever asks for it, no sequence of creations, changes and removals of accounts, of changes of passwords
-- and of startups takes away the last enabled account: if no two accounts share an identifier and one is
-- enabled, then so it is after each of them, where each new account has an identifier that is not in use.
pub Steps-IsManaged :
    (db after : Database) → Steps db after → IsManaged db.admins → IsManaged after.admins
Steps-IsManaged db _ none_yet m = m
Steps-IsManaged db after (then_one mid _ before last) m =
    Step-IsManaged mid after last (Steps-IsManaged db mid before m)

-- A startup without accounts, with a password that meets the policy, begins such a history.
bootstrap_first_admin-begins :
    (meets_policy : String → Bool) (email : Email) (password id hash : String) (now : ℕ)
    (db : Database)
    → db.admins ≡ []
    → meets_policy password ≡ true
    → IsManaged
        (bootstrap_first_admin meets_policy (some email) (some password) id hash now db).admins
unfolding bootstrap_first_admin create_if_none count_admins
bootstrap_first_admin-begins meets_policy email password id hash now db empty meets =
    let nobody : ltb 0 (length db.admins) ≡ false = rw empty refl in
    let made : (bootstrap_first_admin meets_policy (some email) (some password) id hash now
          db).admins
        ≡ new_admin id email hash administrator true now ∷ [] =
      rw (nobody, meets, empty) refl in
    rw made (
      λ other. at_most_one (has_id other) (new_admin id email hash administrator true now),
      omega arith,
    )
  where
    at_most_one : (p : AdminRow → Bool) (admin : AdminRow) → count_where p (admin ∷ []) ≤ 1
    at_most_one p admin = ground arith
