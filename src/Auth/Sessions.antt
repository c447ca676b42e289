-- ===== src/Auth/Sessions.antt =====
-- Which sessions are valid (apps/server/src/modules/auth/auth.service.ts).
use docker_webmail_gui.Auth.Store.{
  AdminRow, SessionRow, Database, find_by_id, find_by_token_hash, touch,
}
use docker_webmail_gui.Auth.Service.{
  Crypto, Config, valid, invalid, InvalidReason, expired, idle, is_revoked, idle_deadline,
  with_admin, with_session, validate_session,
}
use docker_webmail_gui.Common.{
  Option, String, ap, arith, false, if_ind, if◌then◌else◌, leb, leb-false→lt, lt→leb-false, none,
  refl, some, ℕ, ◌*◌, ◌+◌, ◌<◌, ◌↔◌, ◌≡◌,
}

-- What a valid session is: the row with the token's digest, not revoked, neither expired nor idle, and an
-- enabled account.
pub record IsValid (crypto : Crypto) (config : Config) (token : String) (now : ℕ) (db : Database)
    (session : SessionRow) (admin : AdminRow) : Type 0 where
  pub is_stored : find_by_token_hash db (crypto.hash_token token) ≡ some session
  pub is_unrevoked : session.revoked_at ≡ none
  pub is_unexpired : now < session.expires_at
  pub is_used : now < session.last_seen_at + config.idle_ttl_hours * 3_600_000
  pub is_owned : find_by_id db session.admin_id ≡ some admin
  pub is_enabled : admin.disabled ≡ false

is_revoked-none : (session : SessionRow) → is_revoked session ≡ false → session.revoked_at ≡ none
is_revoked-none session h = ground arith

with_admin_valid :
    (session s : SessionRow) (now : ℕ) (db : Database) (o : Option AdminRow) (admin : AdminRow)
    → (with_admin session now db o).0 ≡ valid s admin
    → (s ≡ session) × (o ≡ some admin) × (admin.disabled ≡ false)
with_admin_valid session s now db none admin h = cc
with_admin_valid session s now db (some a) admin h = ground arith

pub with_session_valid :
    (crypto : Crypto) (config : Config) (token : String) (now : ℕ) (db : Database)
    (o : Option SessionRow) (s : SessionRow) (admin : AdminRow)
    → find_by_token_hash db (crypto.hash_token token) ≡ o
    → (with_session config now db o).0 ≡ valid s admin
    → IsValid crypto config token now db s admin
with_session_valid crypto config token now db none s admin f h = cc
with_session_valid crypto config token now db (some session) s admin f h =
    if_ind (λ r. r.0 ≡ valid s admin → IsValid crypto config token now db s admin)
      (is_revoked session) (invalid InvalidReason.revoked, db)
      (if leb session.expires_at now
        then (invalid expired, db)
        else if leb (idle_deadline config session) now
        then (invalid idle, db)
        else with_admin session now db (find_by_id db session.admin_id))
      (λ _ e. cc)
      (λ live.
        if_ind (λ r. r.0 ≡ valid s admin → IsValid crypto config token now db s admin)
          (leb session.expires_at now) (invalid expired, db)
          (if leb (idle_deadline config session) now
            then (invalid idle, db)
            else with_admin session now db (find_by_id db session.admin_id))
          (λ _ e. cc)
          (λ unexpired.
            if_ind (λ r. r.0 ≡ valid s admin → IsValid crypto config token now db s admin)
              (leb (idle_deadline config session) now) (invalid idle, db)
              (with_admin session now db (find_by_id db session.admin_id)) (λ _ e. cc)
              (λ used e.
                let w =
                  with_admin_valid session s now db (find_by_id db session.admin_id) admin e in
                rw w.0 (record {
                  is_stored = f;
                  is_unrevoked = is_revoked-none session live;
                  is_unexpired = leb-false→lt session.expires_at now unexpired;
                  is_used = leb-false→lt (idle_deadline config session) now used;
                  is_owned = w.1;
                  is_enabled = w.2;
                }))))
      h

valid-with_session :
    (crypto : Crypto) (config : Config) (token : String) (now : ℕ) (db : Database) (s : SessionRow)
    (admin : AdminRow)
    → IsValid crypto config token now db s admin
    → validate_session crypto config token now db ≡ (valid s admin, touch s.id now db)
unfolding validate_session
valid-with_session crypto config token now db s admin v =
    let live : is_revoked s ≡ false = rw (v.is_unrevoked) refl in
    rw
      (
        v.is_stored,
        live,
        lt→leb-false now s.expires_at v.is_unexpired,
        lt→leb-false now (idle_deadline config s) v.is_used,
        v.is_owned,
        v.is_enabled,
      )
      refl

-- A token is accepted, for a session and an account, exactly if the session that has the token's digest is
-- stored, not revoked, not expired and not idle, and its account is there and enabled; where it is accepted,
-- the session is touched and nothing else changes.
pub validate_session_iff :
    (crypto : Crypto) (config : Config) (token : String) (now : ℕ) (db : Database) (s : SessionRow)
    (admin : AdminRow)
    → (validate_session crypto config token now db ≡ (valid s admin, touch s.id now db))
      ↔ IsValid crypto config token now db s admin
unfolding validate_session
validate_session_iff crypto config token now db s admin = (
  λ e.
      with_session_valid crypto config token now db
        (find_by_token_hash db (crypto.hash_token token)) s admin refl (ap (λ r. r.0) e),
  valid-with_session crypto config token now db s admin,
)
