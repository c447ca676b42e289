-- ===== src/Auth/Middleware.antt =====
-- The guards in front of a route: apps/server/src/modules/auth/auth.middleware.ts and roles.ts. The reading
-- of an origin's host is a parameter, hosts are lists of code units, and the text of a refusal is left out.
use docker_webmail_gui.Auth.Store.{
  AdminRole, administrator, AdminRow, SessionRow, Database, lower_all,
}
use docker_webmail_gui.Auth.Service.{
  Crypto, Config, SessionValidation, valid, invalid, validate_session,
}
use docker_webmail_gui.Common.{
  Bool, Codes, Option, String, codes, false, if◌then◌else◌, none, not, same_codes, some, true, ℕ,
  ◌&&◌, ◌==s◌, ◌∷◌, ◌||◌, [],
}

pub data Permission : Type 0 where
  admins_manage mail_manage security_manage docker_manage maintenance_manage mcp_manage : Permission

abbrev pub role_has_permission : AdminRole → Permission → Bool
role_has_permission administrator permission = true

pub record AuthContext : Type 0 where
  pub session : SessionRow
  pub admin : AdminRow

pub record HttpRequest : Type 0 where
  pub method : String
  pub session_cookie : Option String
  pub sec_fetch_site : Option String
  pub origin : Option Codes
  pub host : Option Codes
  pub csrf_header : Option String

pub data HttpError : Type 0 where
  unauthenticated password_change_required forbidden : HttpError

pub data Checked (A : Type 0) : Type 0 where
  pass : A → Checked A
  halt : HttpError → Checked A

-- What a reply carries back of the guards: whether it clears the session cookie.
pub record Reply : Type 0 where
  pub clears_cookie : Bool

abbrev pub is_state_changing : String → Bool
is_state_changing method =
    (method ==s "POST") || (method ==s "PUT") || (method ==s "PATCH") || (method ==s "DELETE")

-- `replace(/:(?:80|443)$/, '')`
abbrev pub without_default_port : Codes → Codes
without_default_port [] = []
without_default_port (c ∷ cs) =
    let rest = without_default_port cs in
    if same_codes (c ∷ cs) (codes ":80") || same_codes (c ∷ cs) (codes ":443") then [] else c ∷ rest

abbrev pub same_host : Codes → Codes → Bool
same_host origin_host header =
    same_codes (lower_all origin_host) (lower_all header)
    || same_codes (lower_all origin_host) (lower_all (without_default_port header))

abbrev pub is_host_of : Option Codes → Codes → Bool
is_host_of none header = false
is_host_of (some origin_host) header = same_host origin_host header

abbrev pub origin_is_host : (Codes → Option Codes) → Option Codes → Option Codes → Bool
origin_is_host url_host none host = false
origin_is_host url_host (some origin) none = false
origin_is_host url_host (some origin) (some header) = is_host_of (url_host origin) header

abbrev pub by_fetch_site : Option String → Bool → Bool
by_fetch_site none fallback = fallback
by_fetch_site (some site) fallback = site ==s "same-origin"

unfoldable pub is_same_origin_request : (Codes → Option Codes) → HttpRequest → Bool
is_same_origin_request url_host request =
    by_fetch_site request.sec_fetch_site (origin_is_host url_host request.origin request.host)

abbrev pub validated :
    Bool → SessionValidation × Database → (Checked AuthContext × Reply) × Database
validated allow_password_change_required (invalid reason, db) =
    ((halt unauthenticated, record { clears_cookie = true }), db)
validated allow_password_change_required (valid session admin, db) =
    if admin.force_password_change && not allow_password_change_required
    then ((halt password_change_required, record { clears_cookie = false }), db)
    else (
      (pass (record { session = session; admin = admin }), record { clears_cookie = false }),
      db,
    )

abbrev pub with_cookie :
    Crypto → Config → Bool → ℕ → Database → Option String → (Checked AuthContext × Reply) × Database
with_cookie crypto config allow now db none =
    ((halt unauthenticated, record { clears_cookie = false }), db)
with_cookie crypto config allow now db (some token) =
    validated allow (validate_session crypto config token now db)

unfoldable pub require_session :
    Crypto → Config → Bool → ℕ → HttpRequest → Database → (Checked AuthContext × Reply) × Database
require_session crypto config allow_password_change_required now request db =
    with_cookie crypto config allow_password_change_required now db request.session_cookie

-- Equality of the SHA-256 digests.
abbrev pub timing_safe_equal_string : Crypto → String → String → Bool
timing_safe_equal_string crypto a b = crypto.hash_token a ==s crypto.hash_token b

abbrev pub check_header : Crypto → AuthContext → Option String → Checked AuthContext
check_header crypto auth none = halt forbidden
check_header crypto auth (some header) =
    if header ==s ""
    then halt forbidden
    else if timing_safe_equal_string crypto header auth.session.csrf_token
    then pass auth
    else halt forbidden

unfoldable pub require_csrf :
    Crypto → (Codes → Option Codes) → HttpRequest → AuthContext → Checked AuthContext
require_csrf crypto url_host request auth =
    if not (is_state_changing request.method)
    then pass auth
    else if not (is_same_origin_request url_host request)
    then halt forbidden
    else check_header crypto auth request.csrf_header

unfoldable pub require_permission : Permission → AuthContext → Checked AuthContext
require_permission permission auth =
    if role_has_permission auth.admin.role permission then pass auth else halt forbidden

abbrev pub and_then : {A B : Type 0} → (A → Checked B) → Checked A → Checked B
and_then next (pass a) = next a
and_then next (halt e) = halt e

-- The chain in front of the account routes: session, CSRF token, permission.
unfoldable pub guard_admins :
    Crypto
    → Config
    → (Codes → Option Codes)
    → ℕ
    → HttpRequest
    → Database
    → Checked AuthContext × Database
guard_admins crypto config url_host now request db =
    let checked = require_session crypto config false now request db in
    (
      and_then (require_permission admins_manage)
          (and_then (require_csrf crypto url_host request) checked.0.0),
      checked.1,
    )
