-- ===== src/Web/Oidc/Refresh/Left.antt =====
-- What a refresh and a client's own grant leave of a code and of a refresh token under a value that
-- they do not draw.
use scimtest.Prelude.{ℕ, String, Bool, not, Option, none, some, ltb, split_if, Result, ok, err, ◌≢◌}
use scimtest.Prelude.Dict.{lookup}
use scimtest.Directory.{App, AppState, User, user_by_id}
use scimtest.Web.Fault.{Texts}
use scimtest.Web.Resilience.{Action}
use scimtest.Web.Oidc.{AuthCode, RefreshToken, Idp, Secrets, prune, may_sign_in}
use scimtest.Web.Oidc.Inject.{refresh, client}
use scimtest.Web.Oidc.Inject.Left.{begin_inject-Left, end_inject-Left}
use scimtest.Web.Oidc.Token.{
  TokenRequest, TokenResponse, Reply, failed, issued, injected, gone, Times, Signer,
}
use scimtest.Web.Oidc.Token.Left.{
  mint_access_token-Left, issue_tokens-Left, issue_refresh_token-Left,
}
use scimtest.Web.Oidc.Exchange.Left.{go_on-Left, unless_failed-Left}
use scimtest.Web.Oidc.Refresh.{
  refreshed_grant, rotate, after_refresh_tokens, refresh_for_user, refresh_with_state,
  redeem_refresh, redeem_token, check_refresh, asked_scope, begin_refresh, resume_refresh,
  client_token, after_client_token, client_grant, begin_client, resume_client,
}
use scimtest.Web.Oidc.Remains.{Left, AfterLeft, prune-Left, without_refresh-Left}

module _ (v : String) (o : Option AuthCode) (p : Option RefreshToken) where
  module _ (signer : Signer) (app : App) (value scope : String) (times : Times) (secrets : Secrets)
      (state : Result String AppState) (fresh : secrets.refresh ≢ ok v) where
    rotate-Left :
        (reply : Reply × Idp)
        → AfterLeft v o p reply
        → AfterLeft v o p (rotate signer app value scope times secrets state reply)
    unfolding rotate
    rotate-Left (issued response, s) h = without_refresh-Left v o p value s h
    rotate-Left (failed _ _ _, s) h = h
    rotate-Left (injected _, s) h = h
    rotate-Left (gone, s) h = h

    after_refresh_tokens-Left :
        (t : RefreshToken) (tokens : Result String TokenResponse × Idp)
        → AfterLeft v o p tokens
        → AfterLeft v o p (after_refresh_tokens signer app value scope times secrets state t tokens)
    unfolding after_refresh_tokens
    after_refresh_tokens-Left t (err e, s) h = h
    after_refresh_tokens-Left t (ok response, s) h = rotate-Left _ (
        issue_refresh_token-Left v o p signer app t times.issued secrets.refresh response s fresh h)

    refresh_for_user-Left :
        (t : RefreshToken) (u : Option User) (s : Idp)
        → Left v o p s
        → AfterLeft v o p (refresh_for_user signer app value scope times secrets state t u s)
    unfolding refresh_for_user
    refresh_for_user-Left t none s h = without_refresh-Left v o p value s h
    refresh_for_user-Left t (some u) s h =
        after_refresh_tokens-Left t _
          (issue_tokens-Left v o p signer app u (refreshed_grant t scope) times.issued secrets s h)

    refresh_with_state-Left :
        (t : RefreshToken) (state' : Result String AppState) (s : Idp)
        → Left v o p s
        → AfterLeft v o p (refresh_with_state signer app value scope times secrets state t state' s)
    unfolding refresh_with_state
    refresh_with_state-Left t (err e) s h = h
    refresh_with_state-Left t (ok st) s h =
        refresh_for_user-Left t (may_sign_in (user_by_id st.users t.user_id)) s h

    redeem_refresh-Left :
        (found : Option RefreshToken) (s : Idp)
        → Left v o p s
        → AfterLeft v o p (redeem_refresh signer app value scope times secrets state found s)
    unfolding redeem_refresh
    redeem_refresh-Left none s h = without_refresh-Left v o p value s h
    redeem_refresh-Left (some t) s h =
        split_if (AfterLeft v o p) (not (ltb times.checked t.expires_at)) _ _
          (λ _. without_refresh-Left v o p value s h) (λ _. refresh_with_state-Left t state s h)

  module _ (signer : Signer) (texts : Texts) (rfc3339 : ℕ → String) (app : App) (r : TokenRequest)
      (times : Times) (secrets : Secrets) (state : Result String AppState) where
    redeem_token-Left :
        secrets.refresh ≢ ok v
        → (scope : String) (s : Idp) → Left v o p s
        → AfterLeft v o p (redeem_token signer texts rfc3339 app r times secrets state scope s)
    unfolding redeem_token
    redeem_token-Left fresh scope s h =
        redeem_refresh-Left signer app r.refresh_token scope times secrets state fresh
          (lookup s.refresh_tokens r.refresh_token) s h

    pub begin_refresh-Left :
        secrets.refresh ≢ ok v
        → (s : Idp) → Left v o p s
        → AfterLeft v o p (begin_refresh signer texts rfc3339 app r times secrets state s)
    unfolding begin_refresh
    begin_refresh-Left fresh s h =
        let s' = prune times.pruned s in
        let h' = prune-Left v o p times.pruned s h in
        let found = lookup s'.refresh_tokens r.refresh_token in
        unless_failed-Left v o p (check_refresh app r found) _ s'
          (go_on-Left v o p
            (redeem_token signer texts rfc3339 app r times secrets state (asked_scope r found)) _
            (redeem_token-Left fresh (asked_scope r found))
            (begin_inject-Left v o p texts rfc3339 app.slug "token (refresh_token)"
              (refresh r.refresh_token) times.injected times.delivered s' h'))
          h'

    pub resume_refresh-Left :
        secrets.refresh ≢ ok v
        → (scope : String) (action : Action) (delivered : Bool) (s : Idp) → Left v o p s
        → AfterLeft v o p
            (resume_refresh signer texts rfc3339 app r times secrets state scope action delivered s)
    unfolding resume_refresh
    resume_refresh-Left fresh scope action delivered s h =
        go_on-Left v o p (redeem_token signer texts rfc3339 app r times secrets state scope) _
          (redeem_token-Left fresh scope)
          (end_inject-Left v o p texts rfc3339 app.slug "token (refresh_token)"
            (refresh r.refresh_token) action delivered times.delivered s h)

    after_client_token-Left :
        (minted : Result String String × Idp)
        → AfterLeft v o p minted
        → AfterLeft v o p (after_client_token signer texts rfc3339 app r times secrets state minted)
    unfolding after_client_token
    after_client_token-Left (err e, s) h = h
    after_client_token-Left (ok access, s) h = h

    client_token-Left :
        (state' : Result String AppState) (s : Idp)
        → Left v o p s
        → AfterLeft v o p (client_token signer texts rfc3339 app r times secrets state state' s)
    unfolding client_token
    client_token-Left (err e) s h = h
    client_token-Left (ok st) s h = after_client_token-Left _ (
        mint_access_token-Left v o p signer app ""
          (client_grant signer texts rfc3339 app r times secrets state) times.issued secrets.access
          s h)

    pub begin_client-Left :
        (s : Idp)
        → Left v o p s
        → AfterLeft v o p (begin_client signer texts rfc3339 app r times secrets state s)
    unfolding begin_client
    begin_client-Left s h =
        split_if (AfterLeft v o p) app.oidc_public_client _ _ (λ _. h)
          (λ _.
            go_on-Left v o p (client_token signer texts rfc3339 app r times secrets state state) _
              (client_token-Left state)
              (begin_inject-Left v o p texts rfc3339 app.slug "token (client_credentials)" client
                times.injected times.delivered (prune times.pruned s)
                (prune-Left v o p times.pruned s h)))

    pub resume_client-Left :
        (action : Action) (delivered : Bool) (s : Idp)
        → Left v o p s
        → AfterLeft v o p
            (resume_client signer texts rfc3339 app r times secrets state action delivered s)
    unfolding resume_client
    resume_client-Left action delivered s h =
        go_on-Left v o p (client_token signer texts rfc3339 app r times secrets state state) _
          (client_token-Left state)
          (end_inject-Left v o p texts rfc3339 app.slug "token (client_credentials)" client action
            delivered times.delivered s h)
