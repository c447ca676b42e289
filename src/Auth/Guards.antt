-- ===== src/Auth/Guards.antt =====
-- What a request that reaches the account routes has shown (apps/server/src/modules/auth/auth.middleware.ts).
use docker_webmail_gui.Auth.Store.{AdminRole, administrator, Database}
use docker_webmail_gui.Auth.Service.{
  Crypto, Config, SessionValidation, valid, invalid, validate_session,
}
use docker_webmail_gui.Auth.Sessions.{IsValid}
use docker_webmail_gui.Auth.Eviction.{validate_session-IsValid}
use docker_webmail_gui.Auth.Middleware.{
  AuthContext, HttpRequest, password_change_required, forbidden, Checked, pass, halt, Reply,
  role_has_permission, is_state_changing, is_same_origin_request, validated, with_cookie,
  require_session, check_header, require_csrf, require_permission, and_then, guard_admins,
  admins_manage,
}
use docker_webmail_gui.Common.{
  Bool, Codes, Option, String, ap, arith, false, if_ind, if◌then◌else◌, none, not, refl, some, sym,
  true, ℕ, ◌&&◌, ◌==s◌, ◌∙◌, ◌≡◌,
}

-- What the token and the origin of a request that changes state have shown.
pub record IsOurs (crypto : Crypto) (url_host : Codes → Option Codes) (request : HttpRequest)
    (auth : AuthContext) : Type 0 where
  pub header : String
  pub is_same_origin : is_same_origin_request url_host request ≡ true
  pub is_sent : request.csrf_header ≡ some header
  pub is_token : (crypto.hash_token header ==s crypto.hash_token auth.session.csrf_token) ≡ true

pub record IsAdmitted (crypto : Crypto) (config : Config) (url_host : Codes → Option Codes)
    (now : ℕ) (request : HttpRequest) (db : Database) (auth : AuthContext) : Type 0 where
  pub token : String
  pub is_cookie : request.session_cookie ≡ some token
  pub is_valid : IsValid crypto config token now db auth.session auth.admin
  pub is_settled : auth.admin.force_password_change ≡ false
  pub is_ours : is_state_changing request.method ≡ true → IsOurs crypto url_host request auth

both_absurd : {b : Bool} → b ≡ true → not b ≡ true → ⊥
both_absurd h k = cc

double_negation : {b : Bool} → not b ≡ false → b ≡ true
double_negation {b = true} h = refl
double_negation {b = false} h = cc

module _ (crypto : Crypto) (url_host : Codes → Option Codes) (request : HttpRequest)
    (auth shown : AuthContext) where
  check_header-pass :
      (o : Option String)
      → request.csrf_header ≡ o
      → is_same_origin_request url_host request ≡ true
      → check_header crypto auth o ≡ pass shown
      → (auth ≡ shown) × IsOurs crypto url_host request auth
  check_header-pass none sent same = λ e. cc
  check_header-pass (some header) sent same =
      if_ind (λ r. r ≡ pass shown → (auth ≡ shown) × IsOurs crypto url_host request auth)
        (header ==s "") (halt forbidden)
        (if crypto.hash_token header ==s crypto.hash_token auth.session.csrf_token
          then pass auth
          else halt forbidden)
        (λ _ e. cc)
        (λ _.
          if_ind (λ r. r ≡ pass shown → (auth ≡ shown) × IsOurs crypto url_host request auth)
            (crypto.hash_token header ==s crypto.hash_token auth.session.csrf_token) (pass auth)
            (halt forbidden)
            (λ token e. (
              cc,
              record { header = header; is_same_origin = same; is_sent = sent; is_token = token },
            ))
            (λ _ e. cc))

  require_csrf-pass :
      require_csrf crypto url_host request auth ≡ pass shown
      → (auth ≡ shown)
        × (is_state_changing request.method ≡ true → IsOurs crypto url_host request auth)
  unfolding require_csrf
  require_csrf-pass =
      let Shown : Checked AuthContext → Type 0 = λ r.
        r ≡ pass shown
        → (auth ≡ shown)
          × (is_state_changing request.method ≡ true → IsOurs crypto url_host request auth) in
      if_ind Shown (not (is_state_changing request.method)) (pass auth)
        (if not (is_same_origin_request url_host request)
          then halt forbidden
          else check_header crypto auth request.csrf_header)
        (λ safe e. (cc, λ changing. elim (both_absurd changing safe) [ ]))
        (λ _.
          if_ind Shown (not (is_same_origin_request url_host request)) (halt forbidden)
            (check_header crypto auth request.csrf_header) (λ _ e. cc)
            (λ same e.
              let h = check_header-pass request.csrf_header refl (double_negation same) e in
              (h.0, λ _. h.1)))

validated-pass :
    (v : SessionValidation × Database) (auth : AuthContext)
    → (validated false v).0.0 ≡ pass auth
    → (v.0 ≡ valid auth.session auth.admin) × (auth.admin.force_password_change ≡ false)
validated-pass (invalid reason, after) auth = λ e. cc
validated-pass (valid session admin, after) auth =
    let Shown : (Checked AuthContext × Reply) × Database → Type 0 = λ r.
      r.0.0 ≡ pass auth
      → (valid session admin ≡ valid auth.session auth.admin)
        × (auth.admin.force_password_change ≡ false) in
    if_ind Shown (admin.force_password_change && not false)
      ((halt password_change_required, record { clears_cookie = false }), after)
      (
        (pass (record { session = session; admin = admin }), record { clears_cookie = false }),
        after,
      )
      (λ _ e. cc) (λ settled e. shown settled e)
  where
    forced : (b : Bool) → (b && not false) ≡ false → b ≡ false
    forced b h = ground arith

    shown :
        (admin.force_password_change && not false) ≡ false
        → pass (record { session = session; admin = admin }) ≡ pass auth
        → (valid session admin ≡ valid auth.session auth.admin)
          × (auth.admin.force_password_change ≡ false)
    shown settled e =
        let same : record { session = session; admin = admin } ≡ auth = cc in
        rw (sym same) (refl, forced admin.force_password_change settled)

with_cookie-pass :
    (crypto : Crypto) (config : Config) (now : ℕ) (db : Database) (cookie : Option String)
    (auth : AuthContext)
    → (with_cookie crypto config false now db cookie).0.0 ≡ pass auth
    → (token : String) × (cookie ≡ some token)
      × IsValid crypto config token now db auth.session auth.admin
      × (auth.admin.force_password_change ≡ false)
with_cookie-pass crypto config now db none auth e = cc
with_cookie-pass crypto config now db (some token) auth e =
    let v = validated-pass (validate_session crypto config token now db) auth e in
    (
      token,
      refl,
      validate_session-IsValid crypto config token now db auth.session auth.admin v.0,
      v.1,
    )

and_then-pass :
    {A B : Type 0} (next : A → Checked B) (c : Checked A) (b : B)
    → and_then next c ≡ pass b
    → (a : A) × (c ≡ pass a) × (next a ≡ pass b)
and_then-pass next (pass a) b e = (a, refl, e)
and_then-pass next (halt x) b e = cc

permission-pass :
    (a auth : AuthContext) (role : AdminRole)
    → (if role_has_permission role admins_manage then pass a else halt forbidden) ≡ pass auth
    → a ≡ auth
permission-pass a auth administrator h = cc

-- A request that passes the guards of the account routes carries the token of a session that is valid, of an
-- account that need not change its password; and one that changes state gives evidence of its own origin
-- and sends a header whose digest is that of the session's CSRF token.
pub guard_admins-IsAdmitted :
    (crypto : Crypto) (config : Config) (url_host : Codes → Option Codes) (now : ℕ)
    (request : HttpRequest) (db : Database) (auth : AuthContext)
    → (guard_admins crypto config url_host now request db).0 ≡ pass auth
    → IsAdmitted crypto config url_host now request db auth
unfolding guard_admins require_session require_permission
guard_admins-IsAdmitted crypto config url_host now request db auth e =
    let checked = with_cookie crypto config false now db request.session_cookie in
    let last =
      and_then-pass (require_permission admins_manage)
        (and_then (require_csrf crypto url_host request) checked.0.0) auth e in
    let csrf = and_then-pass (require_csrf crypto url_host request) checked.0.0 last.0 last.1 in
    let ours = require_csrf-pass crypto url_host request csrf.0 last.0 csrf.2 in
    let permitted : last.0 ≡ auth = permission-pass last.0 auth last.0.admin.role last.2 in
    let same : csrf.0 ≡ auth = ours.0 ∙ permitted in
    let cookie =
      with_cookie-pass crypto config now db request.session_cookie auth (csrf.1 ∙ ap pass same) in
    record {
      token = cookie.0;
      is_cookie = cookie.1;
      is_valid = cookie.2;
      is_settled = cookie.3;
      is_ours = rw (sym same) ours.1;
    }
