-- ===== src/Mcp/Outcome.antt =====
-- State passing with errors for the MCP server: what a call has written before it throws stays
-- written, since no transaction surrounds it.
use docker_webmail_gui.Mcp.Store.{Store}
use docker_webmail_gui.Common.{◌≡◌, refl, Bool, true, false, Option, none, some, if◌then◌else◌}

pub data ErrorCode : Type 0 where
  invalid_request unauthorized_client invalid_grant invalid_target invalid_scope : ErrorCode
  internal : ErrorCode

pub data Outcome {ℓ} (A : Type ℓ) : Type ℓ where
  ok : A → Outcome A
  throw : ErrorCode → Outcome A

abbrev pub M : Type 0 → Type 0
M A = Store → Outcome A × Store

abbrev pub continue_with : {A B : Type 0} → (A → M B) → Outcome A × Store → Outcome B × Store
continue_with f (ok a, s) = f a s
continue_with f (throw e, s) = (throw e, s)

infixl 5 ◌>>=◌ ◌>>◌
abbrev pub ◌>>=◌ : {A B : Type 0} → M A → (A → M B) → M B
◌>>=◌ m f s = continue_with f (m s)

abbrev pub ◌>>◌ : {B : Type 0} → M (Unit {0}) → M B → M B
m >> k = m >>= λ _. k

abbrev pub pure : {A : Type 0} → A → M A
pure a s = (ok a, s)

abbrev pub fail : {A : Type 0} → ErrorCode → M A
fail e s = (throw e, s)

abbrev pub guard : Bool → ErrorCode → M (Unit {0})
guard true e s = (ok tt, s)
guard false e s = (throw e, s)

abbrev or_throw : {A : Type 0} → Option A → ErrorCode → Outcome A
or_throw none e = throw e
or_throw (some a) e = ok a

abbrev pub require : {A : Type 0} → Option A → ErrorCode → M A
require o e s = (or_throw o e, s)

-- A read of the store that must find something.
abbrev pub select : {A : Type 0} → (Store → Option A) → ErrorCode → M A
select q e s = (or_throw (q s) e, s)

abbrev pub modify : (Store → Store) → M (Unit {0})
modify f s = (ok tt, f s)

-- A conditional update, which tells whether it changed exactly one row.
abbrev pub update : (Store → Bool × Store) → ErrorCode → M (Unit {0})
update u e s = let (won, s') = u s in (if won then ok tt else throw e, s')

-- A sequence succeeds only if its first part does, and then the rest.
pub continue_with-eq-ok :
    {A B : Type 0} (r : Outcome A × Store) (f : A → M B) {b : B} {s' : Store}
    → continue_with f r ≡ (ok b, s')
    → (a : A) × (s₁ : Store) × (r ≡ (ok a, s₁)) × (f a s₁ ≡ (ok b, s'))
continue_with-eq-ok (ok a, s₁) f h = (a, s₁, refl, h)
continue_with-eq-ok (throw e, s₁) f h = cc

pub guard-eq-ok :
    (b : Bool) (e : ErrorCode) (s : Store) {u : Unit {0}} {s₁ : Store}
    → guard b e s ≡ (ok u, s₁)
    → (b ≡ true) × (s₁ ≡ s)
guard-eq-ok true e s h = (refl, cc)
guard-eq-ok false e s h = cc

-- `require` and `select` succeed only on a value, and leave the store.
pub or_throw-eq-ok :
    {A : Type 0} (o : Option A) (e : ErrorCode) (s : Store) {a : A} {s₁ : Store}
    → ◌≡◌ {A = Outcome A × Store} (or_throw o e, s) (ok a, s₁)
    → (o ≡ some a) × (s₁ ≡ s)
or_throw-eq-ok none e s h = cc
or_throw-eq-ok (some a) e s h = (cc, cc)
