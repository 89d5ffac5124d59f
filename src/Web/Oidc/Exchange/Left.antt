-- ===== src/Web/Oidc/Exchange/Left.antt =====
-- What the redemption of a code leaves of a code and of a refresh token under a value that it does not
-- draw.
use scimtest.Prelude.{ℕ, String, Bool, Option, none, some, Result, ok, ◌≢◌}
use scimtest.Prelude.Dict.{lookup}
use scimtest.Directory.{App, AppState}
use scimtest.Web.Fault.{Texts}
use scimtest.Web.Resilience.{Action}
use scimtest.Web.Oidc.{AuthCode, RefreshToken, Idp, Crypto, Secrets, prune}
use scimtest.Web.Oidc.Inject.{code, Injection, proceed, refused, held, ended}
use scimtest.Web.Oidc.Inject.Left.{begin_inject-Left, end_inject-Left}
use scimtest.Web.Oidc.Token.{TokenRequest, Reply, Progress, Times, Signer}
use scimtest.Web.Oidc.Token.Left.{redeem_code-Left}
use scimtest.Web.Oidc.Exchange.{
  go_on, unless_failed, redeem, begin_exchange, resume_exchange, check_code,
}
use scimtest.Web.Oidc.Remains.{Left, AfterLeft, prune-Left, without_code-Left}

module _ (v : String) (o : Option AuthCode) (p : Option RefreshToken) where
  pub go_on-Left :
      (rest : Idp → Reply × Idp) (i : Injection × Idp)
      → ((s : Idp) → Left v o p s → AfterLeft v o p (rest s))
      → AfterLeft v o p i
      → AfterLeft v o p (go_on rest i)
  unfolding go_on
  go_on-Left rest (proceed, s) k h = k s h
  go_on-Left rest (refused action, s) k h = h
  go_on-Left rest (held action, s) k h = h
  go_on-Left rest (ended, s) k h = h

  pub unless_failed-Left :
      (failure : Option Reply) (rest : Idp → Progress × Idp) (s : Idp)
      → AfterLeft v o p (rest s)
      → Left v o p s
      → AfterLeft v o p (unless_failed failure rest s)
  unfolding unless_failed
  unless_failed-Left (some r) rest s k h = h
  unless_failed-Left none rest s k h = k

  module _ (crypto : Crypto) (signer : Signer) (texts : Texts) (rfc3339 : ℕ → String) (app : App)
      (r : TokenRequest) (times : Times) (secrets : Secrets) (state : Result String AppState)
      (fresh : secrets.refresh ≢ ok v) where
    redeem-Left :
        (s : Idp)
        → Left v o p s
        → AfterLeft v o p (redeem crypto signer texts rfc3339 app r times secrets state s)
    unfolding redeem
    redeem-Left s h =
        redeem_code-Left v o p signer app r.code times secrets state fresh
          (lookup s.auth_codes r.code) s (without_code-Left v o p r.code s h)

    pub begin_exchange-Left :
        (s : Idp)
        → Left v o p s
        → AfterLeft v o p (begin_exchange crypto signer texts rfc3339 app r times secrets state s)
    unfolding begin_exchange
    begin_exchange-Left s h =
        let s' = prune times.pruned s in
        let h' = prune-Left v o p times.pruned s h in
        unless_failed-Left (check_code crypto app r (lookup s'.auth_codes r.code)) _ s'
          (go_on-Left (redeem crypto signer texts rfc3339 app r times secrets state) _ redeem-Left (
            begin_inject-Left v o p texts rfc3339 app.slug "token (authorization_code)"
              (code r.code) times.injected times.delivered s' h'))
          h'

    pub resume_exchange-Left :
        (action : Action) (delivered : Bool) (s : Idp)
        → Left v o p s
        → AfterLeft v o p (
            resume_exchange crypto signer texts rfc3339 app r times secrets state action delivered
              s)
    unfolding resume_exchange
    resume_exchange-Left action delivered s h =
        go_on-Left (redeem crypto signer texts rfc3339 app r times secrets state) _ redeem-Left (
          end_inject-Left v o p texts rfc3339 app.slug "token (authorization_code)" (code r.code)
            action delivered times.delivered s h)
