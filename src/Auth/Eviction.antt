-- ===== src/Auth/Eviction.antt =====
-- A change of password and a logout end sessions (apps/server/src/modules/auth/auth.service.ts).
use docker_webmail_gui.Auth.Store.{
  AdminRow, SessionRow, Database, find_by_id, find_by_token_hash, revoke, revoked, is_live,
  is_other, revoke_all_for_admin, update_password, with_password,
}
use docker_webmail_gui.Auth.Service.{
  Crypto, Config, valid, validate_session, log_out, change_password,
}
use docker_webmail_gui.Auth.Sessions.{IsValid, with_session_valid}
use docker_webmail_gui.Common.{
  All, All-find, All-update_where, Bool, String, arith, false, find-update_where, if_ind, none, not,
  refl, true, update_row, update_where, ℕ, ◌&&◌, ◌==s◌, ◌∙◌, ◌≡◌,
}

pub validate_session-IsValid :
    (crypto : Crypto) (config : Config) (token : String) (now : ℕ) (db : Database) (s : SessionRow)
    (admin : AdminRow)
    → (validate_session crypto config token now db).0 ≡ valid s admin
    → IsValid crypto config token now db s admin
unfolding validate_session
validate_session-IsValid crypto config token now db s admin e =
    with_session_valid crypto config token now db (find_by_token_hash db (crypto.hash_token token))
      s admin refl e

-- What a sweep leaves usable of an account's sessions.
abbrev Spared : String → String → SessionRow → Type 0
Spared admin_id current s =
    (s.admin_id ==s admin_id) ≡ true → s.revoked_at ≡ none → (s.id ==s current) ≡ true

is_live-none : (s : SessionRow) → s.revoked_at ≡ none → is_live s ≡ true
is_live-none s h = rw h refl

update-Spared :
    (admin_id current : String) (now : ℕ) (s : SessionRow)
    → Spared admin_id current (update_row (is_other admin_id current) (revoked now) s)
update-Spared admin_id current now s =
    if_ind (Spared admin_id current) (is_other admin_id current s) (revoked now s) s
      (λ _ same live. cc) (λ kept same live. spared (is_live-none s live) same kept)
  where
    spared :
        is_live s ≡ true
        → (s.admin_id ==s admin_id) ≡ true
        → is_other admin_id current s ≡ false
        → (s.id ==s current) ≡ true
    spared live same kept = ground arith

change_password-sessions :
    (crypto : Crypto) (admin : AdminRow) (current : SessionRow) (password hash : String) (now : ℕ)
    (db : Database)
    → crypto.verify_password admin.password_hash password ≡ true
    → (change_password crypto admin current password hash now db).1.sessions
      ≡ update_where (is_other admin.id current.id) (revoked now) db.sessions
unfolding change_password revoke_all_for_admin update_password
change_password-sessions crypto admin current password hash now db h = rw h refl

-- After a change of password that was not refused, a token that is accepted, at any time, for a session of
-- that account is the token of the session that made the change.
pub change_password_evicts :
    (crypto : Crypto) (config : Config) (admin : AdminRow) (current : SessionRow)
    (password hash : String) (now : ℕ) (db : Database) (token : String) (later : ℕ) (s : SessionRow)
    (owner : AdminRow)
    → crypto.verify_password admin.password_hash password ≡ true
    → (validate_session crypto config token later
        (change_password crypto admin current password hash now db).1).0
      ≡ valid s owner
    → (s.admin_id ==s admin.id) ≡ true
    → (s.id ==s current.id) ≡ true
unfolding find_by_token_hash
change_password_evicts crypto config admin current password hash now db token later s owner h e
      same =
    let after = (change_password crypto admin current password hash now db).1 in
    let v = validate_session-IsValid crypto config token later after s owner e in
    let all : All (Spared admin.id current.id) after.sessions =
      rw (change_password-sessions crypto admin current password hash now db h) (
        All-update_where (Spared admin.id current.id) (is_other admin.id current.id) (revoked now)
          db.sessions (update-Spared admin.id current.id now)) in
    All-find (Spared admin.id current.id) (λ r. r.token_hash ==s crypto.hash_token token)
      after.sessions s all v.is_stored same v.is_unrevoked

abbrev NotOf : String → SessionRow → Type 0
NotOf id s = s.revoked_at ≡ none → (s.id ==s id) ≡ false

log_out-NotOf :
    (id : String) (now : ℕ) (s : SessionRow)
    → NotOf id (update_row (λ r. (r.id ==s id) && is_live r) (revoked now) s)
log_out-NotOf id now s =
    if_ind (NotOf id) ((s.id ==s id) && is_live s) (revoked now s) s (λ _ live. cc)
      (λ kept live. ended (is_live-none s live) kept)
  where
    ended : is_live s ≡ true → ((s.id ==s id) && is_live s) ≡ false → (s.id ==s id) ≡ false
    ended live kept = ground arith

-- After a logout, no token is accepted for the session that was logged out, at any time.
pub log_out_ends :
    (crypto : Crypto) (config : Config) (session : SessionRow) (admin : AdminRow) (now : ℕ)
    (db : Database) (token : String) (later : ℕ) (s : SessionRow) (owner : AdminRow)
    → (validate_session crypto config token later (log_out session admin now db)).0 ≡ valid s owner
    → (s.id ==s session.id) ≡ false
unfolding find_by_token_hash log_out revoke
log_out_ends crypto config session admin now db token later s owner e =
    let v =
      validate_session-IsValid crypto config token later (log_out session admin now db) s owner e in
    let all =
      All-update_where (NotOf session.id) (λ r. (r.id ==s session.id) && is_live r) (revoked now)
        db.sessions (log_out-NotOf session.id now) in
    All-find (NotOf session.id) (λ r. r.token_hash ==s crypto.hash_token token)
      (log_out session admin now db).sessions s all v.is_stored v.is_unrevoked

module _ (crypto : Crypto) (admin : AdminRow) (current : SessionRow) (password hash : String)
    (now : ℕ) (db : Database) where
  pub change_password-admins :
      crypto.verify_password admin.password_hash password ≡ true
      → (change_password crypto admin current password hash now db).1.admins
        ≡ update_where (λ a. a.id ==s admin.id) (with_password hash now) db.admins
  unfolding change_password revoke_all_for_admin update_password
  change_password-admins h = rw h refl

  abbrev pub changed_owner : AdminRow → AdminRow
  changed_owner = update_row (λ a. a.id ==s admin.id) (with_password hash now)

  spared_row :
      (s : SessionRow)
      → (s.id ==s current.id) ≡ true
      → update_row (is_other admin.id current.id) (revoked now) s ≡ s
  spared_row s same =
      let other : is_other admin.id current.id s ≡ false =
        rw same (not_other (s.admin_id ==s admin.id) (is_live s)) in
      rw other refl
    where
      not_other : (a b : Bool) → (a && b && not true) ≡ false
      not_other a b = ground arith

  owner_enabled : (a : AdminRow) → (changed_owner a).disabled ≡ a.disabled
  owner_enabled a =
      if_ind (λ r. r.disabled ≡ a.disabled) (a.id ==s admin.id) (with_password hash now a) a
        (λ _. refl) (λ _. refl)

-- The session that changes its account's password stays as valid as it was, under the changed account.
pub change_password_spares :
    (crypto : Crypto) (config : Config) (admin : AdminRow) (current : SessionRow)
    (password hash : String) (now : ℕ) (db : Database) (token : String) (later : ℕ) (s : SessionRow)
    (owner : AdminRow)
    → crypto.verify_password admin.password_hash password ≡ true
    → (s.id ==s current.id) ≡ true
    → IsValid crypto config token later db s owner
    → IsValid crypto config token later
        (change_password crypto admin current password hash now db).1
        s
        (changed_owner crypto admin current password hash now db owner)
unfolding find_by_token_hash find_by_id
change_password_spares crypto config admin current password hash now db token later s owner h same
      v =
    record {
      is_stored = rw (change_password-sessions crypto admin current password hash now db h) (
          find-update_where (λ r. r.token_hash ==s crypto.hash_token token)
            (is_other admin.id current.id) (revoked now) db.sessions (λ r. refl)
          ∙ rw (v.is_stored, spared_row crypto admin current password hash now db s same) refl);
      is_unrevoked = v.is_unrevoked;
      is_unexpired = v.is_unexpired;
      is_used = v.is_used;
      is_owned = rw (change_password-admins crypto admin current password hash now db h) (
          find-update_where (λ r. r.id ==s s.admin_id) (λ a. a.id ==s admin.id)
            (with_password hash now) db.admins (λ r. refl)
          ∙ rw (v.is_owned) refl);
      is_enabled = owner_enabled crypto admin current password hash now db owner ∙ v.is_enabled;
    }
