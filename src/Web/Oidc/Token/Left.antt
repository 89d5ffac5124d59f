-- ===== src/Web/Oidc/Token/Left.antt =====
-- What issuing tokens leaves of a code and of a refresh token under a value that it does not draw.
use scimtest.Prelude.{
  ℕ, ◌+◌, String, not, Option, none, some, ltb, ◌==◌, if◌then◌else◌, split_if, Result, ok, err, ◌≢◌,
  ap,
}
use scimtest.Directory.{App, AppState, User, user_by_id}
use scimtest.Web.Oidc.{
  AuthCode, RefreshToken, AccessToken, Idp, Secrets, may_sign_in, has_scope, refresh_token_lifetime,
}
use scimtest.Web.Oidc.Token.{
  TokenResponse, Times, Signer, or_else, new_access_token, store_access_token, mint_access_token,
  after_mint, after_id_token, issue_tokens, issue_refresh_token, first_refresh_token,
  after_code_tokens, code_tokens, for_user, with_state, without_code, redeem_code,
}
use scimtest.Web.Oidc.Remains.{Left, AfterLeft, add_refresh-Left}

module _ (v : String) (o : Option AuthCode) (p : Option RefreshToken) (signer : Signer)
    (app : App) where
  store_access_token-Left :
      (t : AccessToken) (value : Result String String) (s : Idp)
      → Left v o p s
      → AfterLeft v o p (store_access_token signer app t value s)
  unfolding store_access_token
  store_access_token-Left t (err e) s h = h
  store_access_token-Left t (ok value) s h = h

  pub mint_access_token-Left :
      (user_id : String) (grant : AuthCode) (now : ℕ) (secret : Result String String) (s : Idp)
      → Left v o p s
      → AfterLeft v o p (mint_access_token signer app user_id grant now secret s)
  unfolding mint_access_token
  mint_access_token-Left user_id grant now (err e) s h = h
  mint_access_token-Left user_id grant now (ok secret) s h =
      store_access_token-Left (new_access_token signer app user_id grant now)
        (if app.oidc_jwt_access_tokens
          then signer.access_token app (or_else user_id grant.client_id) grant secret now
          else ok secret)
        s h

  after_mint-Left :
      (grant : AuthCode) (id_token : Option String) (minted : Result String String × Idp)
      → AfterLeft v o p minted
      → AfterLeft v o p (after_mint signer app grant id_token minted)
  unfolding after_mint
  after_mint-Left grant id_token (err e, s) h = h
  after_mint-Left grant id_token (ok access, s) h = h

  after_id_token-Left :
      (u : User) (grant : AuthCode) (now : ℕ) (secrets : Secrets) (id : Result String String)
      (s : Idp)
      → Left v o p s
      → AfterLeft v o p (after_id_token signer app u grant now secrets id s)
  unfolding after_id_token
  after_id_token-Left u grant now secrets (err e) s h = h
  after_id_token-Left u grant now secrets (ok id) s h =
      after_mint-Left grant (some id) _ (mint_access_token-Left u.id grant now secrets.access s h)

  pub issue_tokens-Left :
      (u : User) (grant : AuthCode) (now : ℕ) (secrets : Secrets) (s : Idp)
      → Left v o p s
      → AfterLeft v o p (issue_tokens signer app u grant now secrets s)
  unfolding issue_tokens
  issue_tokens-Left u grant now secrets s h =
      after_id_token-Left u grant now secrets (signer.id_token app u grant now) s h

  pub issue_refresh_token-Left :
      (grant : RefreshToken) (now : ℕ) (value : Result String String) (r : TokenResponse) (s : Idp)
      → value ≢ ok v
      → Left v o p s
      → AfterLeft v o p (issue_refresh_token signer app grant now value r s)
  unfolding issue_refresh_token
  issue_refresh_token-Left grant now (err e) r s fresh h = h
  issue_refresh_token-Left grant now (ok w) r s fresh h =
      add_refresh-Left v o p w
        (record grant { issued_at = now; expires_at = now + refresh_token_lifetime }) s
        (λ e. fresh (ap ok e)) h

  module _ (secrets : Secrets) (fresh : secrets.refresh ≢ ok v) where
    after_code_tokens-Left :
        (c : AuthCode) (u : User) (now : ℕ) (tokens : Result String TokenResponse × Idp)
        → AfterLeft v o p tokens
        → AfterLeft v o p (after_code_tokens signer app c u now secrets tokens)
    unfolding after_code_tokens
    after_code_tokens-Left c u now (err e, s) h = h
    after_code_tokens-Left c u now (ok r, s) h =
        split_if (AfterLeft v o p) (has_scope c.scope "offline_access") _ _
          (λ _.
            issue_refresh_token-Left (first_refresh_token signer app c u) now secrets.refresh r s
              fresh h)
          (λ _. h)

    code_tokens-Left :
        (c : AuthCode) (u : User) (now : ℕ) (grant_id : Result String String) (s : Idp)
        → Left v o p s
        → AfterLeft v o p (code_tokens signer app c u now secrets grant_id s)
    unfolding code_tokens
    code_tokens-Left c u now (err e) s h = h
    code_tokens-Left c u now (ok grant_id) s h =
        let grant = record c { grant_id = grant_id } in
        after_code_tokens-Left grant u now _ (issue_tokens-Left u grant now secrets s h)

    for_user-Left :
        (c : AuthCode) (now : ℕ) (u : Option User) (s : Idp)
        → Left v o p s
        → AfterLeft v o p (for_user signer app c now secrets u s)
    unfolding for_user
    for_user-Left c now none s h = h
    for_user-Left c now (some u) s h = code_tokens-Left c u now secrets.grant_id s h

    with_state-Left :
        (c : AuthCode) (now : ℕ) (state : Result String AppState) (s : Idp)
        → Left v o p s
        → AfterLeft v o p (with_state signer app c now secrets state s)
    unfolding with_state
    with_state-Left c now (err e) s h = h
    with_state-Left c now (ok state) s h =
        for_user-Left c now (may_sign_in (user_by_id state.users c.user_id)) s h

  pub redeem_code-Left :
      (value : String) (times : Times) (secrets : Secrets) (state : Result String AppState)
      → secrets.refresh ≢ ok v
      → (found : Option AuthCode) (s : Idp) → Left v o p (without_code signer app value s)
      → AfterLeft v o p (redeem_code signer app value times secrets state found s)
  unfolding redeem_code
  redeem_code-Left value times secrets state fresh none s h = h
  redeem_code-Left value times secrets state fresh (some c) s h =
      split_if (AfterLeft v o p) (not (ltb times.checked c.expires_at)) _ _ (λ _. h)
        (λ _.
          split_if (AfterLeft v o p) (not (c.faults.token_error == "")) _ _ (λ _. h)
            (λ _.
              with_state-Left secrets fresh c times.issued state (without_code signer app value s)
                h))
