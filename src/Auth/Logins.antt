-- ===== src/Auth/Logins.antt =====
-- What a login that succeeds has checked and stored (apps/server/src/modules/auth/auth.service.ts).
use docker_webmail_gui.Auth.Store.{
  Email, normalize_email, AdminRow, SessionRow, rate_limited, invalid_credentials, account_disabled,
  Database, find_by_email, find_by_id, find_by_token_hash, touch, is_own_failure, record_attempt,
  clear_failures_for_identifier, delete_where, AuditErrorCode,
}
use docker_webmail_gui.Auth.Service.{
  Crypto, Config, Drawn, LoginInput, LoginOutcome, success, AdminSummary, valid, to_admin_summary,
  is_locked_out, attempt_of, record_failure, new_session, succeed, verified, with_account, login,
  validate_session,
}
use docker_webmail_gui.Auth.Sessions.{validate_session_iff}
use docker_webmail_gui.Common.{
  Bool, List, Option, String, arith, eq_iff, false, find, if_ind, none, refl, some, sym, true, ℕ,
  ◌*◌, ◌++◌, ◌+◌, ◌<◌, ◌==s◌, ◌∷◌, ◌≡◌, [],
}

record_failure_fails :
    (drawn : Drawn) (identifier : Email) (input : LoginInput) (code : AuditErrorCode)
    (id : Option String) (now : ℕ) (db : Database) (summary : AdminSummary) (session : SessionRow)
    (token : String)
    → (record_failure drawn identifier input code id now db).0 ≡ success summary session token
    → ⊥
unfolding record_failure
record_failure_fails drawn identifier input code id now db summary session token e = cc

-- What a success has checked, and stored.
pub record IsGranted (crypto : Crypto) (config : Config) (drawn : Drawn) (started now : ℕ)
    (input : LoginInput) (db : Database) (r : LoginOutcome × Database) : Type 0 where
  pub admin : AdminRow
  pub is_known : find_by_email db (normalize_email input.email) ≡ some admin
  pub is_right : crypto.verify_password admin.password_hash input.password ≡ true
  pub is_usable : admin.disabled ≡ false
  pub is_open : is_locked_out started (normalize_email input.email) input.ip_address db ≡ false
  pub is_answer :
      r.0
      ≡ success
          (to_admin_summary admin)
          (new_session crypto config drawn admin input now)
          drawn.session_token
  pub is_stored : r.1.sessions ≡ db.sessions ++ new_session crypto config drawn admin input now ∷ []
  pub is_kept : r.1.admins ≡ db.admins
  pub is_cleared :
      r.1.attempts
      ≡ delete_where
          (is_own_failure (normalize_email input.email))
          (db.attempts ++ attempt_of drawn (normalize_email input.email) input true now ∷ [])

module _ (crypto : Crypto) (config : Config) (drawn : Drawn) (started now : ℕ) (input : LoginInput)
    (db : Database) (summary : AdminSummary) (session : SessionRow) (token : String) where
  abbrev identifier : Email
  identifier = normalize_email input.email

  abbrev Granted : LoginOutcome × Database → Type 0
  Granted r =
      r.0 ≡ success summary session token → IsGranted crypto config drawn started now input db r

  refused-Granted :
      (code : AuditErrorCode) (id : Option String)
      → Granted (record_failure drawn identifier input code id now db)
  refused-Granted code id e =
      elim (record_failure_fails drawn identifier input code id now db summary session token e) [ ]

  verified-Granted :
      (account : AdminRow) (matches : Bool)
      → find_by_email db identifier ≡ some account
      → crypto.verify_password account.password_hash input.password ≡ matches
      → is_locked_out started identifier input.ip_address db ≡ false
      → Granted (verified crypto config drawn identifier input account matches now db)
  unfolding verified succeed record_attempt clear_failures_for_identifier
  verified-Granted account false known right unlocked =
      refused-Granted invalid_credentials (some account.id)
  verified-Granted account true known right unlocked =
      if_ind Granted account.disabled
        (record_failure drawn identifier input account_disabled (some account.id) now db)
        (succeed crypto config drawn identifier input account now db)
        (λ _. refused-Granted account_disabled (some account.id))
        (λ usable _. record {
          admin = account;
          is_known = known;
          is_right = right;
          is_usable = usable;
          is_open = unlocked;
          is_answer = refl;
          is_stored = refl;
          is_kept = refl;
          is_cleared = refl;
        })

  with_account-Granted :
      (account : Option AdminRow)
      → find_by_email db identifier ≡ account
      → is_locked_out started identifier input.ip_address db ≡ false
      → Granted (with_account crypto config drawn identifier input now db account)
  with_account-Granted none known unlocked = refused-Granted invalid_credentials none
  with_account-Granted (some account) known unlocked =
      verified-Granted account (crypto.verify_password account.password_hash input.password) known
        refl unlocked

-- A login succeeds only if there is an account of the normalised address, its password is right, it is
-- enabled and neither counter locks the login out. It then answers with a new session of that account, for
-- the drawn token, adds that session to the others, leaves the accounts alone and removes the identifier's
-- failures from the attempts.
pub login-IsGranted :
    (crypto : Crypto) (config : Config) (drawn : Drawn) (started now : ℕ) (input : LoginInput)
    (db : Database) (summary : AdminSummary) (session : SessionRow) (token : String)
    → (login crypto config drawn started now input db).0 ≡ success summary session token
    → IsGranted crypto config drawn started now input db
        (login crypto config drawn started now input db)
unfolding login
login-IsGranted crypto config drawn started now input db summary session token =
    if_ind (Granted crypto config drawn started now input db summary session token)
      (is_locked_out started (normalize_email input.email) input.ip_address db)
      (record_failure drawn (normalize_email input.email) input rate_limited none now db)
      (with_account crypto config drawn (normalize_email input.email) input now db
        (find_by_email db (normalize_email input.email)))
      (λ _.
        refused-Granted crypto config drawn started now input db summary session token rate_limited
          none)
      (λ unlocked.
        with_account-Granted crypto config drawn started now input db summary session token
          (find_by_email db (normalize_email input.email)) refl unlocked)

find-snoc :
    {A : Type 0} (q : A → Bool) (rows : List A) (r : A)
    → find q rows ≡ none
    → q r ≡ true
    → find q (rows ++ r ∷ []) ≡ some r
find-snoc q [] r h k = rw k refl
find-snoc q (x ∷ rows) r h k = ground (arith, find-snoc q rows r)

-- The token of a login that succeeded is accepted, until the session expires or is idle for too long, if no
-- stored session had its digest and the account's identifier is that of the account alone: for the
-- login's session, and the account that the login's address has.
pub login-validate_session :
    (crypto : Crypto) (config : Config) (drawn : Drawn) (started now : ℕ) (input : LoginInput)
    (db : Database) (summary : AdminSummary) (session : SessionRow) (token : String)
    (admin : AdminRow) (later : ℕ)
    → (login crypto config drawn started now input db).0 ≡ success summary session token
    → find_by_email db (normalize_email input.email) ≡ some admin
    → find_by_id db admin.id ≡ some admin
    → find_by_token_hash db (crypto.hash_token drawn.session_token) ≡ none
    → later < now + config.absolute_ttl_hours * 3_600_000
    → later < now + config.idle_ttl_hours * 3_600_000
    → let after = (login crypto config drawn started now input db).1 in
      validate_session crypto config token later after
      ≡ (valid session admin, touch session.id later after)
unfolding find_by_token_hash find_by_id
login-validate_session crypto config drawn started now input db summary session token admin later e
      known own unused fresh used =
    let after = (login crypto config drawn started now input db).1 in
    let g = login-IsGranted crypto config drawn started now input db summary session token e in
    let known_admin : g.admin ≡ admin = cc in
    let made : session ≡ new_session crypto config drawn g.admin input now = cc in
    let drawn_token : token ≡ drawn.session_token = cc in
    let stored : find (λ s. s.token_hash ==s crypto.hash_token drawn.session_token) after.sessions
        ≡ some (new_session crypto config drawn g.admin input now) =
      rw (g.is_stored) (
        find-snoc (λ s. s.token_hash ==s crypto.hash_token drawn.session_token) db.sessions
          (new_session crypto config drawn g.admin input now) unused
          ((eq_iff (crypto.hash_token drawn.session_token)
              (crypto.hash_token drawn.session_token)).1
            refl)) in
    rw (made, drawn_token, sym known_admin)
      ((validate_session_iff crypto config drawn.session_token later after
          (new_session crypto config drawn g.admin input now) g.admin).1
        (record {
          is_stored = stored;
          is_unrevoked = refl;
          is_unexpired = fresh;
          is_used = used;
          is_owned = rw (g.is_kept, known_admin) own;
          is_enabled = g.is_usable;
        }))
