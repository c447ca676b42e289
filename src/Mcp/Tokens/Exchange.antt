-- ===== src/Mcp/Tokens/Exchange.antt =====
-- What a successful code exchange has checked and written (tokens.service.ts, `exchangeCode`).
use docker_webmail_gui.Mcp.Outcome.{ok, continue_with-eq-ok}
use docker_webmail_gui.Mcp.Store.{
  is_text, Store, AuthorizationCodeRow, find_code_by_hash, ConnectionRow, find_connection,
  redeem_code, McpScope, OAuthClientRow, consume_enrollment, includes, same_scope, mail_read,
  mail_send, mail_delete,
}
use docker_webmail_gui.Mcp.Tokens.{
  Digests, ExchangeInput, verify_pkce_s256, names_resource, Fresh, assert_connection_usable,
  exchange_code, TokenResponse, redeem, is_empty, allowed, issue, presented, check_code,
  grant_access, connect, check_and_grant, redeem_and_grant, mint_pair,
}
use docker_webmail_gui.Common.{
  ℕ, ◌<◌, String, ◌≡◌, refl, ap, ◌∙◌, inl, inr, true, false, Option, none, some, List, [], ◌∷◌,
  arith, ◌==s◌, eq_iff, Option-cases, All,
}

-- The code that a request presented was fit to be redeemed.
pub record IsFit (d : Digests) (i : ExchangeInput) (now : ℕ) (code : AuthorizationCodeRow)
    : Type 0 where
  pub unredeemed : code.redeemed_at ≡ none
  pub own : code.client_id ≡ i.client.client_id
  pub in_time : now < code.expires_at
  pub same_redirect : i.redirect_uri ≡ some code.redirect_uri
  pub proven :
      (v : String) × (i.code_verifier ≡ some v) × (verify_pkce_s256 d v code.code_challenge ≡ true)
  pub same_resource : names_resource i.resource code.resource ≡ true

is_text-eq-some : (o : Option String) (t : String) → is_text o t ≡ true → o ≡ some t
is_text-eq-some none t h = cc
is_text-eq-some (some s) t h = ap some ((eq_iff s t).0 h)

presented-ok :
    (d : Digests) (i : ExchangeInput) (s s₁ : Store) (code : AuthorizationCodeRow) (v : String)
    → presented d i s ≡ (ok (code, v), s₁)
    → (given : String) × (i.code ≡ some given)
      × (i.code_verifier ≡ some v)
      × (find_code_by_hash (d.sha256_hex given) s ≡ some code)
      × (s₁ ≡ s)
unfolding presented
presented-ok d i s s₁ code v h = elim (Option-cases i.code) [
  | inl e ↦ ground arith
  | inr (given, e) ↦ (given, e, ground arith, ground arith, ground arith)
]

module _ (d : Digests) (i : ExchangeInput) (now : ℕ) (code : AuthorizationCodeRow) (v : String)
    (s s₁ : Store) {u : Unit {0}} (checked : check_code d i now code v s ≡ (ok u, s₁)) where
  check_code-keeps : s₁ ≡ s
  unfolding check_code
  check_code-keeps = ground arith

  check_code-unredeemed : code.redeemed_at ≡ none
  unfolding check_code
  check_code-unredeemed = ground arith

  check_code-own : (code.client_id ==s i.client.client_id) ≡ true
  unfolding check_code
  check_code-own = ground arith

  check_code-in_time : now < code.expires_at
  unfolding check_code
  check_code-in_time = ground arith

  check_code-redirect : is_text i.redirect_uri code.redirect_uri ≡ true
  unfolding check_code
  check_code-redirect = ground arith

  check_code-proven : verify_pkce_s256 d v code.code_challenge ≡ true
  unfolding check_code
  check_code-proven = ground arith

  check_code-resource : names_resource i.resource code.resource ≡ true
  unfolding check_code
  check_code-resource = ground arith

check_code-IsFit :
    (d : Digests) (i : ExchangeInput) (now : ℕ) (code : AuthorizationCodeRow) (v : String)
    (s s₁ : Store) {u : Unit {0}}
    → i.code_verifier ≡ some v
    → check_code d i now code v s ≡ (ok u, s₁)
    → IsFit d i now code
check_code-IsFit d i now code v s s₁ given checked = record {
  unredeemed = check_code-unredeemed d i now code v s s₁ checked;
  own = (eq_iff _ _).0 (check_code-own d i now code v s s₁ checked);
  in_time = check_code-in_time d i now code v s s₁ checked;
  same_redirect =
      is_text-eq-some i.redirect_uri code.redirect_uri
        (check_code-redirect d i now code v s s₁ checked);
  proven = (v, given, check_code-proven d i now code v s s₁ checked);
  same_resource = check_code-resource d i now code v s s₁ checked;
}

-- The parts of a successful exchange, with the store between them.
pub record Parts (d : Digests) (fresh : Fresh) (i : ExchangeInput) (now : ℕ) (s s' : Store)
    (pair : TokenResponse) : Type 0 where
  pub given : String
  pub code : AuthorizationCodeRow
  pub connection : ConnectionRow
  pub between : Store
  pub presents : i.code ≡ some given
  pub found : find_code_by_hash (d.sha256_hex given) s ≡ some code
  pub fit : IsFit d i now code
  pub redeemed : redeem code now s ≡ (ok tt, between)
  pub usable : assert_connection_usable code.connection_id now between ≡ (ok tt, between)
  pub connected : find_connection code.connection_id between ≡ some connection
  pub some_left : is_empty (allowed code.scopes connection.scopes) ≡ false
  pub issued :
      issue d fresh code i.client now (allowed code.scopes connection.scopes) between
      ≡ (ok pair, s')

pub assert_connection_usable-keeps :
    (id : String) (now : ℕ) (s s₁ : Store) {u : Unit {0}}
    → assert_connection_usable id now s ≡ (ok u, s₁)
    → s₁ ≡ s
unfolding assert_connection_usable
assert_connection_usable-keeps id now s s₁ h = ground arith

connect-ok :
    (d : Digests) (fresh : Fresh) (i : ExchangeInput) (now : ℕ) (code : AuthorizationCodeRow)
    (s s' : Store) (pair : TokenResponse)
    → connect d fresh i now code s ≡ (ok pair, s')
    → (connection : ConnectionRow) × (find_connection code.connection_id s ≡ some connection)
      × (is_empty (allowed code.scopes connection.scopes) ≡ false)
      × (issue d fresh code i.client now (allowed code.scopes connection.scopes) s ≡ (ok pair, s'))
unfolding connect
connect-ok d fresh i now code s s' pair h =
    elim (Option-cases (find_connection code.connection_id s)) [
      | inl e ↦ ground arith
      | inr (connection, e) ↦ (connection, e, ground arith, ground arith)
    ]

module _ (d : Digests) (fresh : Fresh) (i : ExchangeInput) (now : ℕ) (s s' : Store)
    (pair : TokenResponse) where
  module _ (given : String) (code : AuthorizationCodeRow) (presents : i.code ≡ some given)
      (found : find_code_by_hash (d.sha256_hex given) s ≡ some code)
      (fit : IsFit d i now code) where
    Parts-redeem :
        (between : Store)
        → redeem code now s ≡ (ok tt, between)
        → assert_connection_usable code.connection_id now between ≡ (ok tt, between)
        → connect d fresh i now code between ≡ (ok pair, s')
        → Parts d fresh i now s s' pair
    Parts-redeem between redeemed usable h =
        let (connection, connected, some_left, issued) =
          connect-ok d fresh i now code between s' pair h in
        record {
          given = given;
          code = code;
          connection = connection;
          between = between;
          presents = presents;
          found = found;
          fit = fit;
          redeemed = redeemed;
          usable = usable;
          connected = connected;
          some_left = some_left;
          issued = issued;
        }

    Parts-IsFit :
        redeem_and_grant d fresh i now code s ≡ (ok pair, s') → Parts d fresh i now s s' pair
    Parts-IsFit h =
        let (u, between, redeemed, h₁) =
          continue_with-eq-ok (redeem code now s) (λ _. grant_access d fresh i now code) h in
        let (v, after, usable, h₂) =
          continue_with-eq-ok (assert_connection_usable code.connection_id now between)
            (λ _. connect d fresh i now code) h₁ in
        let kept : after ≡ between =
          assert_connection_usable-keeps code.connection_id now between after usable in
        Parts-redeem between redeemed (rw kept at usable) (rw kept at h₂)

  -- A successful exchange has gone through all its checks, the redemption and the issue.
  pub exchange_code-Parts :
      exchange_code d fresh i now s ≡ (ok pair, s') → Parts d fresh i now s s' pair
  unfolding exchange_code
  exchange_code-Parts h =
      let ((code, v), s₁, shown, h₁) =
        continue_with-eq-ok (presented d i s) (check_and_grant d fresh i now) h in
      let (given, presents, verifier, found, kept) = presented-ok d i s s₁ code v shown in
      let (u, s₂, checked, h₂) =
        continue_with-eq-ok (check_code d i now code v s₁)
          (λ _. redeem_and_grant d fresh i now code) h₁ in
      let same : s₂ ≡ s = check_code-keeps d i now code v s₁ s₂ checked ∙ kept in
      Parts-IsFit given code presents found (check_code-IsFit d i now code v s₁ s₂ verifier checked)
        (rw same at h₂)

redeem-connections :
    (code : AuthorizationCodeRow) (now : ℕ) (s between : Store)
    → redeem code now s ≡ (ok tt, between)
    → between.connections ≡ s.connections
unfolding redeem redeem_code consume_enrollment
redeem-connections code now s between h = ground arith

issue-scopes :
    (d : Digests) (fresh : Fresh) (code : AuthorizationCodeRow) (client : OAuthClientRow) (now : ℕ)
    (scopes : List McpScope) (s s' : Store) (pair : TokenResponse)
    → issue d fresh code client now scopes s ≡ (ok pair, s')
    → pair.scopes ≡ scopes
unfolding issue mint_pair
issue-scopes d fresh code client now scopes s s' pair h = cc

-- Each scope is wanted and allowed.
abbrev pub Within : List McpScope → List McpScope → List McpScope → Type 0
Within wanted scopes = All (λ x. (includes wanted x ≡ true) × (includes scopes x ≡ true))

same_scope_refl : (x : McpScope) → same_scope x x ≡ true
same_scope_refl mail_read = refl
same_scope_refl mail_send = refl
same_scope_refl mail_delete = refl

allowed-Within_from :
    (all_wanted wanted scopes : List McpScope)
    → ((x : McpScope) → includes wanted x ≡ true → includes all_wanted x ≡ true)
    → Within all_wanted scopes (allowed wanted scopes)
allowed-Within_from all_wanted [] scopes h = tt
allowed-Within_from all_wanted (x ∷ wanted) scopes h = ground (
  arith,
  h x,
  same_scope_refl x,
  allowed-Within_from all_wanted wanted scopes (λ y e. h y (ground arith)),
)

pub allowed-Within : (wanted scopes : List McpScope) → Within wanted scopes (allowed wanted scopes)
allowed-Within wanted scopes = allowed-Within_from wanted wanted scopes (λ x e. e)

-- An exchange that succeeds presented a known code which was unredeemed, in time, issued to the same
-- client for the same redirect URI and resource, with a verifier that answers its PKCE challenge;
-- and every scope that it grants was approved with the code and is still allowed to the connection.
pub exchange_code_sound :
    (d : Digests) (fresh : Fresh) (i : ExchangeInput) (now : ℕ) (s s' : Store)
    (pair : TokenResponse)
    → exchange_code d fresh i now s ≡ (ok pair, s')
    → (given : String) × (code : AuthorizationCodeRow) × (connection : ConnectionRow) × (i.code
        ≡ some given)
      × (find_code_by_hash (d.sha256_hex given) s ≡ some code)
      × IsFit d i now code
      × (find_connection code.connection_id s ≡ some connection)
      × Within code.scopes connection.scopes pair.scopes
      × (is_empty pair.scopes ≡ false)
exchange_code_sound d fresh i now s s' pair h =
    let p = exchange_code-Parts d fresh i now s s' pair h in
    let same : pair.scopes ≡ allowed p.code.scopes p.connection.scopes =
      issue-scopes d fresh p.code i.client now (allowed p.code.scopes p.connection.scopes) p.between
        s' pair p.issued in
    (
      p.given,
      p.code,
      p.connection,
      p.presents,
      p.found,
      p.fit,
      rw (← redeem-connections p.code now s p.between p.redeemed) p.connected,
      rw same (allowed-Within p.code.scopes p.connection.scopes),
      rw same p.some_left,
    )
