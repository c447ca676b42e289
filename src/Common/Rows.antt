-- ===== src/Common/Rows.antt =====
-- Tables of a database as lists of rows: `SELECT` of the first match, `COUNT(*)` and
-- `UPDATE ... WHERE`.
use docker_webmail_gui.Common.Tests.{if◌then◌else◌, Bool-cases}
use docker_webmail_gui.Common.Lists.{find, filter, All}
use Prim.Native.Nat.{ℕ, suc, ◌+◌, ◌≤◌}
use mathlib.Core.Path.{◌≡◌, refl, sym, ◌∙◌}
use mathlib.Core.Logic.{inl, inr}
use mathlib.Core.Bool.{Bool, true, false, not, ◌&&◌}
use mathlib.Core.Option
use mathlib.Core.Option.{Option, none, some}
use mathlib.Core.List.{List, [], ◌∷◌, ◌++◌}
use native.Mathlib.Omega.{arith}

pub and_right : (a b : Bool) → (a && b) ≡ true → b ≡ true
and_right a b h = ground arith

module _ {ℓ} {A : Type ℓ} where
  abbrev pub update_row : (A → Bool) → (A → A) → A → A
  update_row p f r = if p r then f r else r

  abbrev pub update_where : (A → Bool) → (A → A) → List A → List A
  update_where p f [] = []
  update_where p f (r ∷ rows) = update_row p f r ∷ update_where p f rows

  abbrev pub count_where : (A → Bool) → List A → ℕ
  count_where p [] = 0
  count_where p (r ∷ rows) = elim (p r) [
    | true ↦ suc (count_where p rows)
    | false ↦ count_where p rows
  ]

  -- An update that leaves the selected column alone changes the selected row as it says.
  pub find-update_where :
      (q p : A → Bool) (f : A → A) (rows : List A)
      → ((r : A) → q (f r) ≡ q r)
      → find q (update_where p f rows) ≡ Option.map (update_row p f) (find q rows)
  find-update_where q p f [] same = refl
  find-update_where q p f (r ∷ rows) same =
      ground (arith, same r, find-update_where q p f rows same)

  -- A row that is inserted at the end hides no row that is there.
  pub find-append :
      (q : A → Bool) (rows more : List A) (r : A)
      → find q rows ≡ some r
      → find q (rows ++ more) ≡ some r
  find-append q [] more r h = ground arith
  find-append q (x ∷ rows) more r h = ground (arith, find-append q rows more r)

  pub find-holds : (q : A → Bool) (rows : List A) (r : A) → find q rows ≡ some r → q r ≡ true
  find-holds q [] r h = ground arith
  find-holds q (x ∷ rows) r h = ground (arith, find-holds q rows r)

  pub All-update_where {κ} :
      (P : A → Type κ) (p : A → Bool) (f : A → A) (rows : List A)
      → ((r : A) → P (update_row p f r))
      → All P (update_where p f rows)
  All-update_where P p f [] h = tt
  All-update_where P p f (r ∷ rows) h = (h r, All-update_where P p f rows h)

  pub All-find {κ} :
      (P : A → Type κ) (q : A → Bool) (rows : List A) (r : A)
      → All P rows
      → find q rows ≡ some r
      → P r
  All-find P q [] r a h = ground arith
  All-find P q (x ∷ rows) r a h = ground (arith, All-find P q rows r a.1)

  pub All-update_each {κ υ} :
      (P : A → Type κ) (Q : A → Type υ) (p : A → Bool) (f : A → A) (rows : List A)
      → ((r : A) → P r → Q (update_row p f r))
      → All P rows
      → All Q (update_where p f rows)
  All-update_each P Q p f [] h a = tt
  All-update_each P Q p f (r ∷ rows) h a = (h r a.0, All-update_each P Q p f rows h a.1)

  pub All-map_each {κ υ} :
      (P : A → Type κ) (Q : A → Type υ) (rows : List A)
      → ((r : A) → P r → Q r)
      → All P rows
      → All Q rows
  All-map_each P Q [] h a = tt
  All-map_each P Q (r ∷ rows) h a = (h r a.0, All-map_each P Q rows h a.1)

  pub count_where-snoc :
      (p : A → Bool) (rows : List A) (r : A)
      → count_where p (rows ++ r ∷ []) ≡ count_where p rows + (if p r then 1 else 0)
  count_where-snoc p [] r = ground arith
  count_where-snoc p (x ∷ rows) r = ground (arith, count_where-snoc p rows r)

  pub count_where_mono :
      (p q : A → Bool) (rows : List A)
      → ((r : A) → p r ≡ true → q r ≡ true)
      → count_where p rows ≤ count_where q rows
  count_where_mono p q [] h = omega arith
  count_where_mono p q (x ∷ rows) h = ground (arith, h x, count_where_mono p q rows h)

  -- What an update, or a deletion, may take from a count: the rows that it concerns.
  pub count_where-update_where :
      (q p : A → Bool) (f : A → A) (rows : List A)
      → count_where q rows
        ≤ count_where q (update_where p f rows) + count_where (λ r. q r && p r) rows
  count_where-update_where q p f [] = omega arith
  count_where-update_where q p f (x ∷ rows) = ground (arith, count_where-update_where q p f rows)

  pub count_where-delete :
      (q p : A → Bool) (rows : List A)
      → count_where q rows
        ≤ count_where q (filter (λ r. not (p r)) rows) + count_where (λ r. q r && p r) rows
  count_where-delete q p [] = omega arith
  count_where-delete q p (x ∷ rows) = ground (arith, count_where-delete q p rows)

  pub count_where-grows :
      (q p : A → Bool) (f : A → A) (rows : List A)
      → ((r : A) → q r ≡ true → q (f r) ≡ true)
      → count_where q rows ≤ count_where q (update_where p f rows)
  count_where-grows q p f [] h = omega arith
  count_where-grows q p f (x ∷ rows) h = ground (arith, h x, count_where-grows q p f rows h)

  pub count_where-same :
      (q p : A → Bool) (f : A → A) (rows : List A)
      → ((r : A) → q (f r) ≡ q r)
      → count_where q (update_where p f rows) ≡ count_where q rows
  count_where-same q p f [] h = refl
  count_where-same q p f (x ∷ rows) h = ground (arith, h x, count_where-same q p f rows h)

  pub count_where-filter :
      (q p : A → Bool) (rows : List A) → count_where q (filter p rows) ≤ count_where q rows
  count_where-filter q p [] = omega arith
  count_where-filter q p (x ∷ rows) = ground (arith, count_where-filter q p rows)

  pub count_where-find-none :
      (q : A → Bool) (rows : List A) → find q rows ≡ none → count_where q rows ≡ 0
  count_where-find-none q [] h = refl
  count_where-find-none q (x ∷ rows) h = ground (arith, count_where-find-none q rows)

  -- At most one row is selected, and that row is not counted.
  pub count_where-only :
      (q p : A → Bool) (rows : List A) (r : A)
      → find p rows ≡ some r
      → count_where p rows ≤ 1
      → q r ≡ false
      → count_where (λ x. q x && p x) rows ≡ 0
  count_where-only q p [] r h few out = refl
  count_where-only q p (x ∷ rows) r h few out = elim (Bool-cases (p x)) [
    | inl e ↦
        let same : some x ≡ some r = sym (rw (find, e) refl) ∙ h in
        let out_too : q x ≡ false = cc in
        let rest = count_where_mono (λ x. q x && p x) p rows (λ y. and_right (q y) (p y)) in
        ground (arith, rest)
    | inr e ↦ ground (arith, count_where-only q p rows r)
  ]
