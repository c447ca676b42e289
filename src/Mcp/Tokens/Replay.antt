-- ===== src/Mcp/Tokens/Replay.antt =====
-- A code works once (tokens.service.ts, `exchangeCode`): to present it again revokes what it gave.
use docker_webmail_gui.Mcp.Store.Revocation.{IsDead, revoke_grant-IsDead}
use docker_webmail_gui.Mcp.Outcome.{ok, throw, invalid_grant}
use docker_webmail_gui.Mcp.Store.{
  AuthorizationCodeRow, attach_grant_to_code, has_code_id, redeem_code, touch_authorized,
  consume_enrollment, code_attached, Store, unredeemed, code_redeemed, OAuthClientRow, McpScope,
  find_code_by_hash, revoke_grant,
}
use text.Mathlib.TextPositions.{eq_refl}
use docker_webmail_gui.Mcp.Tokens.{
  Digests, issue, redeem, mint_pair, Fresh, ExchangeInput, exchange_code, presented, TokenResponse,
  check_code, allowed, audited,
}
use docker_webmail_gui.Mcp.Tokens.Exchange.{exchange_code-Parts}
use docker_webmail_gui.Common.{
  ℕ, String, ◌≡◌, refl, ◌∙◌, Bool, true, false, none, some, List, arith, ◌==s◌, any, find,
  update_where, find-update_where,
}

redeem-codes :
    (code : AuthorizationCodeRow) (now : ℕ) (s between : Store)
    → redeem code now s ≡ (ok tt, between)
    → between.codes ≡ update_where (unredeemed code.id) (code_redeemed now) s.codes
unfolding redeem redeem_code consume_enrollment
redeem-codes code now s between h = ground arith

issue-codes :
    (d : Digests) (fresh : Fresh) (code : AuthorizationCodeRow) (client : OAuthClientRow) (now : ℕ)
    (scopes : List McpScope) (s s' : Store) (pair : TokenResponse)
    → issue d fresh code client now scopes s ≡ (ok pair, s')
    → s'.codes ≡ update_where (has_code_id code.id) (code_attached fresh.grant_id) s.codes
unfolding issue attach_grant_to_code touch_authorized mint_pair
issue-codes d fresh code client now scopes s s' pair h = cc

-- The row of a code after its redemption.
abbrev spent : AuthorizationCodeRow → ℕ → String → AuthorizationCodeRow
spent code now grant = record code { redeemed_at = some now; grant_id = some grant }

find-spent :
    (hash : String) (code : AuthorizationCodeRow) (now : ℕ) (grant : String)
    (codes : List AuthorizationCodeRow)
    → code.redeemed_at ≡ none
    → find (λ c. c.code_hash ==s hash) codes ≡ some code
    → find
        (λ c. c.code_hash ==s hash)
        (update_where
          (has_code_id code.id)
          (code_attached grant)
          (update_where (unredeemed code.id) (code_redeemed now) codes))
      ≡ some (spent code now grant)
find-spent hash code now grant codes unspent h =
    rw
      (
        find-update_where (λ c. c.code_hash ==s hash) (has_code_id code.id) (code_attached grant)
            (update_where (unredeemed code.id) (code_redeemed now) codes) (λ c. refl),
        find-update_where (λ c. c.code_hash ==s hash) (unredeemed code.id) (code_redeemed now) codes
            (λ c. refl),
        h,
      )
      (ground (arith, eq_refl code.id))

module _ (d : Digests) (fresh : Fresh) (i : ExchangeInput) (now : ℕ) (s s' : Store)
    (pair : TokenResponse) (done : exchange_code d fresh i now s ≡ (ok pair, s')) where
  exchange_code-spends :
      (given : String) × (code : AuthorizationCodeRow) × (i.code ≡ some given)
      × (find_code_by_hash (d.sha256_hex given) s' ≡ some (spent code now fresh.grant_id))
  exchange_code-spends =
      let p = exchange_code-Parts d fresh i now s s' pair done in
      (
        p.given,
        p.code,
        p.presents,
        rw
            (
              issue-codes d fresh p.code i.client now (allowed p.code.scopes p.connection.scopes)
                  p.between s' pair p.issued,
              redeem-codes p.code now s p.between p.redeemed,
            )
            (find-spent (d.sha256_hex p.given) p.code now fresh.grant_id s.codes p.fit.unredeemed
              p.found),
      )

-- What `exchangeCode` does with a code that was redeemed before and has a grant.
replayed :
    (d : Digests) (fresh : Fresh) (j : ExchangeInput) (later now : ℕ) (t : Store)
    (given v grant : String) (code : AuthorizationCodeRow)
    → j.code ≡ some given
    → j.code_verifier ≡ some v
    → any (λ g. g ==s "authorization_code") j.client.grant_types ≡ true
    → find_code_by_hash (d.sha256_hex given) t ≡ some (spent code now grant)
    → exchange_code d fresh j later t ≡ (
      throw invalid_grant,
      audited "oauth.code_replay_detected" false j.client.client_id code.connection_id
          (revoke_grant grant "authorization code replayed" later t),
    )
unfolding exchange_code presented check_code
replayed d fresh j later now t given v grant code e₁ e₂ e₃ e₄ = rw (e₁, e₂, e₃, e₄)

pub IsDead-audited :
    (id event client connection : String) (success : Bool) (s : Store)
    → IsDead id s
    → IsDead id (audited event success client connection s)
IsDead-audited id event client connection success s h = record {
  grants_dead = h.grants_dead;
  access_dead = h.access_dead;
  refresh_dead = h.refresh_dead;
}

-- After an exchange that succeeded, a second request with the same code and any verifier, by any
-- client that may use codes, at any time, fails with `invalid_grant`, and leaves the grant of the
-- first exchange and every access and refresh token under it revoked.
pub exchange_code_twice :
    (d : Digests) (fresh again : Fresh) (i j : ExchangeInput) (now later : ℕ) (s s' : Store)
    (pair : TokenResponse) (v : String)
    → exchange_code d fresh i now s ≡ (ok pair, s')
    → j.code ≡ i.code
    → j.code_verifier ≡ some v
    → any (λ g. g ==s "authorization_code") j.client.grant_types ≡ true
    → ((exchange_code d again j later s').0 ≡ throw invalid_grant)
      × IsDead fresh.grant_id (exchange_code d again j later s').1
exchange_code_twice d fresh again i j now later s s' pair v done same given may =
    let (text, code, presents, found) = exchange_code-spends d fresh i now s s' pair done in
    rw
      (replayed d again j later now s' text v fresh.grant_id code (same ∙ presents) given may found)
      (
        refl,
        IsDead-audited fresh.grant_id "oauth.code_replay_detected" j.client.client_id
            code.connection_id false
            (revoke_grant fresh.grant_id "authorization code replayed" later s')
            (revoke_grant-IsDead fresh.grant_id "authorization code replayed" later s'),
      )
