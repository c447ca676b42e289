-- ===== src/Auth/Lockout.antt =====
-- Failed logins and lockout (apps/server/src/modules/auth/auth.service.ts).
use docker_webmail_gui.Auth.Store.{
  Email, normalize_email, AdminRow, LoginAttemptRow, AuditErrorCode, rate_limited,
  invalid_credentials, account_disabled, login_failure, AuditEvent, Database, find_by_email,
  count_failures_for_identifier_since, count_failures_for_ip_since, is_failure_of, is_failure_from,
  record_attempt,
}
use docker_webmail_gui.Auth.Service.{
  Crypto, Config, Drawn, LoginInput, LoginOutcome, failure, window_minutes,
  max_failures_per_identifier, max_failures_per_ip, minutes_ago, is_locked_out, attempt_of, event,
  record_failure, succeed, verified, with_account, login,
}
use docker_webmail_gui.Common.{
  All, Bool, List, Option, String, arith, count_where, count_where-snoc, count_where_mono, false,
  if_ind, if◌then◌else◌, inl, inr, leb, le→leb, none, not, refl, same_codes, same_codes_refl, some,
  sym, true, ℕ, ◌&&◌, ◌*◌, ◌+◌, ◌-◌, ◌<◌, ◌∙◌, ◌∷◌, ◌≡◌, ◌≤◌, ◌⊎◌, [], ◌||◌,
}

-- A login that asks for the account's password: its failure is not that of a lockout.
abbrev pub is_guess : AuditEvent → Bool
is_guess e = elim e.action [
  | login_failure code ↦ elim code [ rate_limited ↦ false | _ ↦ true ]
  | _ ↦ false
]

abbrev pub guesses : Database → ℕ
guesses db = count_where is_guess db.audit

pub record Request : Type 0 where
  pub drawn : Drawn
  pub started : ℕ
  pub now : ℕ
  pub input : LoginInput

abbrev pub answer : Crypto → Config → Request → Database → LoginOutcome × Database
answer crypto config r db = login crypto config r.drawn r.started r.now r.input db

-- Requests, one after another.
abbrev pub answer_all : Crypto → Config → List Request → Database → Database
answer_all crypto config [] db = db
answer_all crypto config (r ∷ requests) db =
    answer_all crypto config requests (answer crypto config r db).1

abbrev pub AllFail : Crypto → Config → List Request → Database → Type 0
AllFail crypto config [] db = Unit
AllFail crypto config (r ∷ requests) db =
    ((answer crypto config r db).0 ≡ failure)
    × AllFail crypto config requests (answer crypto config r db).1

-- A request for this identifier, in the window from this instant.
abbrev pub IsIn : Email → ℕ → Request → Type 0
IsIn identifier start r =
    (normalize_email r.input.email ≡ identifier)
    × (start ≤ r.now)
    × (r.started ≤ start + window_minutes * 60_000)

-- What a failed login does to the two counts.
abbrev FailsOnce : ℕ → ℕ → ℕ → ℕ → Type 0
FailsOnce guesses_before guesses_after failures_before failures_after =
    (failures_after ≡ failures_before + 1)
    × ((guesses_after ≡ guesses_before)
        ⊎ ((guesses_after ≡ guesses_before + 1) × (failures_before < max_failures_per_identifier)))

recorded_failures :
    (drawn : Drawn) (identifier : Email) (input : LoginInput) (code : AuditErrorCode)
    (id : Option String) (now start : ℕ) (db : Database)
    → start ≤ now
    → count_failures_for_identifier_since
        (record_failure drawn identifier input code id now db).1
        identifier
        start
      ≡ count_failures_for_identifier_since db identifier start + 1
unfolding record_failure count_failures_for_identifier_since record_attempt
recorded_failures drawn identifier input code id now start db h =
    count_where-snoc (is_failure_of identifier start) db.attempts
      (attempt_of drawn identifier input false now)
    ∙ rw (same_codes_refl identifier, le→leb start now h) refl

recorded_guesses :
    (drawn : Drawn) (identifier : Email) (input : LoginInput) (code : AuditErrorCode)
    (id : Option String) (now : ℕ) (db : Database)
    → guesses (record_failure drawn identifier input code id now db).1
      ≡ guesses db + (if is_guess (event id identifier (login_failure code)) then 1 else 0)
unfolding record_failure record_attempt
recorded_guesses drawn identifier input code id now db =
    count_where-snoc is_guess db.audit (event id identifier (login_failure code))

widened :
    (identifier : Email) (since start : ℕ) (r : LoginAttemptRow)
    → since ≤ start
    → is_failure_of identifier start r ≡ true
    → is_failure_of identifier since r ≡ true
widened identifier since start r h e = wider (same_codes r.identifier identifier) (not r.success) e
  where
    wider :
        (a b : Bool)
        → (a && b && leb start r.attempted_at) ≡ true
        → (a && b && leb since r.attempted_at) ≡ true
    wider a b e = ground arith

below_limit : (n m limit other : ℕ) → (leb limit n || leb other m) ≡ false → n < limit
below_limit n m limit other h = ground arith

unlocked_failures :
    (started start : ℕ) (identifier : Email) (ip : String) (db : Database)
    → started ≤ start + window_minutes * 60_000
    → is_locked_out started identifier ip db ≡ false
    → count_failures_for_identifier_since db identifier start < max_failures_per_identifier
unfolding is_locked_out count_failures_for_identifier_since count_failures_for_ip_since
unlocked_failures started start identifier ip db h unlocked =
    let since = minutes_ago window_minutes started in
    let more =
      count_where_mono (is_failure_of identifier start) (is_failure_of identifier since) db.attempts
        (λ r e. widened identifier since start r (omega arith) e) in
    let few =
      below_limit (count_where (is_failure_of identifier since) db.attempts)
        (count_where (is_failure_from ip since) db.attempts) max_failures_per_identifier
        max_failures_per_ip unlocked in
    omega arith

record_failure-FailsOnce :
    (drawn : Drawn) (identifier : Email) (input : LoginInput) (code : AuditErrorCode)
    (id : Option String) (now start : ℕ) (db : Database)
    → start ≤ now
    → (is_guess (event id identifier (login_failure code)) ≡ false)
      ⊎ ((is_guess (event id identifier (login_failure code)) ≡ true)
          × (count_failures_for_identifier_since db identifier start < max_failures_per_identifier))
    → let after = (record_failure drawn identifier input code id now db).1 in
      FailsOnce
        (guesses db)
        (guesses after)
        (count_failures_for_identifier_since db identifier start)
        (count_failures_for_identifier_since after identifier start)
record_failure-FailsOnce drawn identifier input code id now start db h few = (
  recorded_failures drawn identifier input code id now start db h,
  elim few [
    | inl e ↦ inl (recorded_guesses drawn identifier input code id now db ∙ rw e (omega arith))
    | inr (e, fewer) ↦
        inr (recorded_guesses drawn identifier input code id now db ∙ rw e refl, fewer)
  ],
)

module _ (crypto : Crypto) (config : Config) (drawn : Drawn) (input : LoginInput) (now : ℕ)
    (db : Database) where
  abbrev identifier : Email
  identifier = normalize_email input.email

  abbrev Counted : ℕ → LoginOutcome × Database → Type 0
  Counted start r =
      r.0 ≡ failure
      → FailsOnce (guesses db) (guesses r.1)
          (count_failures_for_identifier_since db identifier start)
          (count_failures_for_identifier_since r.1 identifier start)

  verified-Counted :
      (start : ℕ) (admin : AdminRow) (matches : Bool)
      → start ≤ now
      → count_failures_for_identifier_since db identifier start < max_failures_per_identifier
      → Counted start (verified crypto config drawn identifier input admin matches now db)
  unfolding verified succeed
  verified-Counted start admin matches h few =
      if_ind (Counted start) (not matches)
        (record_failure drawn identifier input invalid_credentials (some admin.id) now db)
        (if admin.disabled
          then record_failure drawn identifier input account_disabled (some admin.id) now db
          else succeed crypto config drawn identifier input admin now db)
        (λ _ _.
          record_failure-FailsOnce drawn identifier input invalid_credentials (some admin.id) now
            start db h (inr (refl, few)))
        (λ _.
          if_ind (Counted start) admin.disabled
            (record_failure drawn identifier input account_disabled (some admin.id) now db)
            (succeed crypto config drawn identifier input admin now db)
            (λ _ _.
              record_failure-FailsOnce drawn identifier input account_disabled (some admin.id) now
                start db h (inr (refl, few)))
            (λ _ e. cc))

  with_account-Counted :
      (start : ℕ) (account : Option AdminRow)
      → start ≤ now
      → count_failures_for_identifier_since db identifier start < max_failures_per_identifier
      → Counted start (with_account crypto config drawn identifier input now db account)
  with_account-Counted start none h few = λ _.
      record_failure-FailsOnce drawn identifier input invalid_credentials none now start db h
        (inr (refl, few))
  with_account-Counted start (some admin) h few =
      verified-Counted start admin (crypto.verify_password admin.password_hash input.password) h few

  login-Counted :
      (started start : ℕ)
      → start ≤ now
      → started ≤ start + window_minutes * 60_000
      → Counted start (login crypto config drawn started now input db)
  unfolding login
  login-Counted started start h within =
      if_ind (Counted start) (is_locked_out started identifier input.ip_address db)
        (record_failure drawn identifier input rate_limited none now db)
        (with_account crypto config drawn identifier input now db (find_by_email db identifier))
        (λ _ _.
          record_failure-FailsOnce drawn identifier input rate_limited none now start db h
            (inl refl))
        (λ unlocked.
          with_account-Counted start (find_by_email db identifier) h
            (unlocked_failures started start identifier input.ip_address db within unlocked))

answer-FailsOnce :
    (crypto : Crypto) (config : Config) (identifier : Email) (start : ℕ) (r : Request)
    (db : Database)
    → IsIn identifier start r
    → (answer crypto config r db).0 ≡ failure
    → let after = (answer crypto config r db).1 in
      FailsOnce
        (guesses db)
        (guesses after)
        (count_failures_for_identifier_since db identifier start)
        (count_failures_for_identifier_since after identifier start)
answer-FailsOnce crypto config identifier start r db within e =
    rw (sym within.0)
      (login-Counted crypto config r.drawn r.input r.now db r.started start within.1 within.2 e)

next_bound :
    (g g1 g2 f f1 : ℕ)
    → FailsOnce g g1 f f1
    → g2 ≤ g1 + (max_failures_per_identifier - f1)
    → g2 ≤ g + (max_failures_per_identifier - f)
next_bound g g1 g2 f f1 once h = elim once.1 [
  | inl same ↦ omega arith
  | inr (more, few) ↦ omega arith
]

answer_all-guesses :
    (crypto : Crypto) (config : Config) (identifier : Email) (start : ℕ) (requests : List Request)
    (db : Database)
    → All (IsIn identifier start) requests
    → AllFail crypto config requests db
    → guesses (answer_all crypto config requests db)
      ≤ guesses db
        + (max_failures_per_identifier - count_failures_for_identifier_since db identifier start)
answer_all-guesses crypto config identifier start [] db within fail = omega arith
answer_all-guesses crypto config identifier start (r ∷ requests) db within fail =
    let after = (answer crypto config r db).1 in
    next_bound (guesses db) (guesses after) (guesses (answer_all crypto config requests after))
      (count_failures_for_identifier_since db identifier start)
      (count_failures_for_identifier_since after identifier start)
      (answer-FailsOnce crypto config identifier start r db within.0 fail.0)
      (answer_all-guesses crypto config identifier start requests after within.1 fail.1)

-- However many logins for one identifier fail, one after another, in a window of fifteen minutes, and from
-- whatever addresses, at most ten are refused for wrong credentials or a disabled account: the others are
-- refused as locked out.
pub answer_all_limited :
    (crypto : Crypto) (config : Config) (identifier : Email) (start : ℕ) (requests : List Request)
    (db : Database)
    → All (IsIn identifier start) requests
    → AllFail crypto config requests db
    → guesses (answer_all crypto config requests db) ≤ guesses db + max_failures_per_identifier
answer_all_limited crypto config identifier start requests db within fail =
    let bound = answer_all-guesses crypto config identifier start requests db within fail in
    omega arith
