-- ===== src/Auth/Tests.antt =====
-- Logins, sessions and accounts on a small database (modules/auth).
use docker_webmail_gui.Auth.Store.{
  Email, normalize_email, administrator, AdminRow, SessionRow, Database, find_by_email, find_by_id,
  count_enabled, UpdateAdminPatch, update, delete_admin, find_by_token_hash, touch, revoke,
  revoke_all_for_admin, update_password, count_failures_for_identifier_since,
  count_failures_for_ip_since, record_attempt, clear_failures_for_identifier,
}
use docker_webmail_gui.Auth.Service.{
  Crypto, Config, Drawn, LoginInput, success, failure, to_admin_summary, is_locked_out, new_session,
  record_failure, succeed, verified, login, valid, validate_session, log_out, change_password,
}
use docker_webmail_gui.Auth.AdminRoutes.{
  error, conflict, create_route, update_route, delete_route, apply_update, apply_delete,
  assert_not_last_enabled_admin,
}
use docker_webmail_gui.Auth.Lockout.{Request, AllFail, guesses, answer_all, answer_all_limited}
use docker_webmail_gui.Auth.Logins.{IsGranted, login-IsGranted, login-validate_session}
use docker_webmail_gui.Auth.Sessions.{IsValid, validate_session_iff}
use docker_webmail_gui.Auth.Eviction.{change_password_evicts, change_password_spares, changed_owner}
use docker_webmail_gui.Auth.Middleware.{
  AuthContext, HttpRequest, pass, guard_admins, require_session, require_csrf, require_permission,
  is_same_origin_request,
}
use docker_webmail_gui.Auth.Guards.{IsAdmitted, guard_admins-IsAdmitted}
use docker_webmail_gui.Auth.LastAdmin.{IsManaged, HasDistinctIds}
use docker_webmail_gui.Auth.History.{Steps, Step, Steps-IsManaged}
use docker_webmail_gui.Auth.Conflict.{routes_never_conflict}
use docker_webmail_gui.Common.{
  Bool-cases, Codes, Option, String, arith, codes, eq_iff, false, inl, inr, none, refl, some, sym,
  true, ◌+◌, ◌==s◌, ◌↔◌, ◌∷◌, ◌≡◌, ◌≢◌, ◌≤◌, [],
}

abbrev crypto : Crypto
crypto = record {
  verify_password = λ hash password. hash ==s password;
  hash_token = λ token. token;
  dummy_password_hash = "";
}

abbrev config : Config
config = record { absolute_ttl_hours = 12; idle_ttl_hours = 1 }

abbrev account : String → Email → AdminRow
account id email = record {
  id = id;
  email = email;
  password_hash = "right";
  role = administrator;
  disabled = false;
  force_password_change = false;
  created_at = 0;
  updated_at = 0;
}

abbrev ada : AdminRow
ada = account "a" (codes "ada@x.org")

abbrev bob : AdminRow
bob = account "b" (codes "bob@x.org")

abbrev start : Database
start = record { admins = ada ∷ bob ∷ []; sessions = []; attempts = []; audit = [] }

abbrev drawn : String → Drawn
drawn token = record {
  session_token = token;
  csrf_token = "c";
  session_id = token;
  attempt_id = "t";
}

abbrev types : String → LoginInput
types password = record {
  email = codes " Ada@x.org";
  password = password;
  ip_address = "10.0.0.1";
  user_agent = none;
}

abbrev session_of : String → SessionRow
session_of token = new_session crypto config (drawn token) ada (types "right") 2_000_000

run_all : Unit {0}
unfolding login is_locked_out record_failure succeed verified normalize_email find_by_email
    find_by_id find_by_token_hash touch revoke revoke_all_for_admin update_password
    count_failures_for_identifier_since count_failures_for_ip_since record_attempt
    clear_failures_for_identifier validate_session log_out change_password create_route update_route
    delete_route apply_update apply_delete assert_not_last_enabled_admin update delete_admin
    count_enabled
run_all = tt

signs_in :
    (login crypto config (drawn "k1") 2_000_000 2_000_000 (types "right") start).0
    ≡ success (to_admin_summary ada) (session_of "k1") "k1"
unfolding run_all
signs_in = refl

abbrev two_sessions : Database
two_sessions = record start { sessions = session_of "k1" ∷ session_of "k2" ∷ [] }

is_refused :
    (login crypto config (drawn "k1") 2_000_000 2_000_000 (types "wrong") start).0 ≡ failure
unfolding run_all
is_refused = refl

login-IsGranted_example :
    IsGranted crypto config
      (drawn "k1")
      2_000_000
      2_000_000
      (types "right")
      start
      (login crypto config (drawn "k1") 2_000_000 2_000_000 (types "right") start)
login-IsGranted_example =
    login-IsGranted crypto config (drawn "k1") 2_000_000 2_000_000 (types "right") start
      (to_admin_summary ada) (session_of "k1") "k1" signs_in

abbrev signed_in : Database
signed_in = (login crypto config (drawn "k1") 2_000_000 2_000_000 (types "right") start).1

login-validate_session_example :
    validate_session crypto config "k1" 3_000_000 signed_in
    ≡ (valid (session_of "k1") ada, touch "k1" 3_000_000 signed_in)
unfolding run_all
login-validate_session_example =
    login-validate_session crypto config (drawn "k1") 2_000_000 2_000_000 (types "right") start
      (to_admin_summary ada) (session_of "k1") "k1" ada 3_000_000 signs_in refl refl refl
      (omega arith) (omega arith)

validate_session_iff_example :
    (validate_session crypto config "k1" 3_000_000 two_sessions
      ≡ (valid (session_of "k1") ada, touch "k1" 3_000_000 two_sessions))
    ↔ IsValid crypto config "k1" 3_000_000 two_sessions (session_of "k1") ada
validate_session_iff_example =
    validate_session_iff crypto config "k1" 3_000_000 two_sessions (session_of "k1") ada

abbrev guess : Request
guess = record { drawn = drawn "k"; started = 2_000_000; now = 2_000_001; input = types "wrong" }

fails : AllFail crypto config (guess ∷ guess ∷ []) start
unfolding run_all
fails = (refl, (refl, tt))

addressed : normalize_email (codes " Ada@x.org") ≡ codes "ada@x.org"
unfolding run_all
addressed = refl

answer_all_limited_example :
    guesses (answer_all crypto config (guess ∷ guess ∷ []) start) ≤ guesses start + 10
answer_all_limited_example =
    answer_all_limited crypto config (codes "ada@x.org") 2_000_000 (guess ∷ guess ∷ []) start
      ((addressed, omega arith, omega arith), ((addressed, omega arith, omega arith), tt)) fails

stays :
    (validate_session crypto config "k1" 3_000_000
      (change_password crypto ada (session_of "k1") "right" "new" 2_500_000 two_sessions).1).0
    ≡ valid (session_of "k1") (record ada { password_hash = "new"; updated_at = 2_500_000 })
unfolding run_all
stays = refl

change_password_evicts_example : ((session_of "k1").id ==s "k1") ≡ true
change_password_evicts_example =
    change_password_evicts crypto config ada (session_of "k1") "right" "new" 2_500_000 two_sessions
      "k1" 3_000_000 (session_of "k1")
      (record ada { password_hash = "new"; updated_at = 2_500_000 }) refl stays refl

k1_session : IsValid crypto config "k1" 3_000_000 two_sessions (session_of "k1") ada
unfolding run_all
k1_session = record {
  is_stored = refl;
  is_unrevoked = refl;
  is_unexpired = omega arith;
  is_used = omega arith;
  is_owned = refl;
  is_enabled = refl;
}

change_password_spares_example :
    IsValid crypto config "k1" 3_000_000
      (change_password crypto ada (session_of "k1") "right" "new" 2_500_000 two_sessions).1
      (session_of "k1")
      (changed_owner crypto ada (session_of "k1") "right" "new" 2_500_000 two_sessions ada)
change_password_spares_example =
    change_password_spares crypto config ada (session_of "k1") "right" "new" 2_500_000 two_sessions
      "k1" 3_000_000 (session_of "k1") ada refl refl k1_session

other_stays :
    (validate_session crypto config "k2" 3_000_000
      (log_out (session_of "k1") ada 2_500_000 two_sessions)).0
    ≡ valid (session_of "k2") ada
unfolding run_all
other_stays = refl

distinct : HasDistinctIds (ada ∷ bob ∷ [])
distinct id = elim (Bool-cases ("a" ==s id)) [
  | inl e ↦ rw (sym ((eq_iff "a" id).0 e)) (omega arith)
  | inr e ↦ ground arith
]

Steps-IsManaged_example : IsManaged (delete_route ada "b" start).1.admins
Steps-IsManaged_example =
    Steps-IsManaged start (delete_route ada "b" start).1
      (Steps.then_one start (delete_route ada "b" start).1 Steps.none_yet (Step.deletes ada "b"))
      (distinct, omega arith)

found_ada : find_by_id start "a" ≡ some ada
unfolding run_all
found_ada = refl

abbrev disabling : UpdateAdminPatch
disabling = record { disabled = some true; role = none }

routes_never_conflict_example :
    ((update_route ada "b" disabling 5 start).0 ≢ error conflict)
    × ((delete_route ada "b" start).0 ≢ error conflict)
routes_never_conflict_example = routes_never_conflict ada "b" disabling 5 start found_ada refl

abbrev no_url : Codes → Option Codes
no_url origin = none

abbrev deletes_bob : HttpRequest
deletes_bob = record {
  method = "DELETE";
  session_cookie = some "k1";
  sec_fetch_site = some "same-origin";
  origin = none;
  host = none;
  csrf_header = some "c";
}

abbrev ada_context : AuthContext
ada_context = record { session = session_of "k1"; admin = ada }

admitted :
    (guard_admins crypto config no_url 3_000_000 deletes_bob two_sessions).0 ≡ pass ada_context
unfolding run_all guard_admins require_session require_csrf require_permission
    is_same_origin_request
admitted = refl

guard_admins-IsAdmitted_example :
    IsAdmitted crypto config no_url 3_000_000 deletes_bob two_sessions ada_context
guard_admins-IsAdmitted_example =
    guard_admins-IsAdmitted crypto config no_url 3_000_000 deletes_bob two_sessions ada_context
      admitted
