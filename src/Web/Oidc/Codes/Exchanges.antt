-- ===== src/Web/Oidc/Codes/Exchanges.antt =====
-- Exchanges at the token endpoint, one after another and across their waits.
use scimtest.Prelude.{ℕ, String, Bool, Option, none, some, ◌≡◌, refl, arith}
use scimtest.Prelude.Dict.{lookup}
use scimtest.Web.Fault.{Texts}
use scimtest.Web.Resilience.{Action}
use scimtest.Web.Oidc.{AuthCode, RefreshToken, Idp, Crypto}
use scimtest.Web.Oidc.Inject.{code}
use scimtest.Web.Oidc.Inject.Left.{end_inject-Left}
use scimtest.Web.Oidc.Token.{TokenResponse, Reply, issued, Progress, answered, waiting, Signer}
use scimtest.Web.Oidc.Token.Issues.{AnsweredOnlyIf, read}
use scimtest.Web.Oidc.Exchange.{unless_failed, begin_exchange, resume_exchange}
use scimtest.Web.Oidc.Exchange.Left.{begin_exchange-Left}
use scimtest.Web.Oidc.Exchange.Issues.{Accepts, Redeems}
use scimtest.Web.Oidc.Codes.{Grants, accepted, begin_exchange-Grants, go_on-Redeems, join, weaken}
use scimtest.Web.Oidc.Remains.{Left-trans, Left, Left-refl}
use scimtest.Web.Oidc.Steps.{Request, IsFresh, Steps, Steps-Left}

unless_failed-waits :
    (failure : Option Reply) (rest : Idp → Progress × Idp) (s : Idp) (action : Action)
    → (unless_failed failure rest s).0 ≡ waiting action
    → failure ≡ none
unfolding unless_failed
unless_failed-waits none rest s action e = refl
unless_failed-waits (some r) rest s action e = ground (arith, e)

module _ (crypto : Crypto) (signer : Signer) (texts : Texts) (rfc3339 : ℕ → String) where
  abbrev pub begun : Request → Idp → Progress × Idp
  begun q s = begin_exchange crypto signer texts rfc3339 q.app q.form q.times q.secrets q.state s

  abbrev pub resumed : Request → Action → Bool → Idp → Progress × Idp
  resumed q action delivered s =
      resume_exchange crypto signer texts rfc3339 q.app q.form q.times q.secrets q.state action
        delivered s

  -- An exchange and what comes of it: at once, or after a wait with the steps of others.
  pub data Exchange (q : Request) (s : Idp) : Progress × Idp → Type 0 where
    at_once : Exchange q s (begun q s)
    after_wait :
        (action : Action) (delivered : Bool) (t : Idp)
        → (begun q s).0 ≡ waiting action
        → Steps crypto signer texts rfc3339 q.form.code (begun q s).1 t
        → Exchange q s (resumed q action delivered t)

  begun-accepted :
      (q : Request) (s : Idp) (action : Action)
      → (begun q s).0 ≡ waiting action
      → (c : AuthCode) × (lookup s.auth_codes q.form.code ≡ some c)
        × Accepts crypto q.app q.form q.times.pruned c
  unfolding begin_exchange
  begun-accepted q s action e =
      accepted crypto signer texts rfc3339 q s (unless_failed-waits _ _ _ action e)

  pub resumed-Redeems :
      (q : Request) (o : Option AuthCode) (p : Option RefreshToken) (action : Action)
      (delivered : Bool) (t : Idp)
      → Left q.form.code o p t
      → AnsweredOnlyIf
          ((c : AuthCode) × (o ≡ some c) × Redeems q.times q.state c)
          (resumed q action delivered t)
  unfolding resume_exchange
  resumed-Redeems q o p action delivered t h = go_on-Redeems crypto signer texts rfc3339 q o p _ (
      end_inject-Left q.form.code o p texts rfc3339 q.app.slug "token (authorization_code)"
        (code q.form.code) action delivered q.times.delivered t h)

  resumed-Grants :
      (q : Request) (s : Idp) (action : Action) (delivered : Bool) (t : Idp)
      → IsFresh q.form.code q.secrets
      → (begun q s).0 ≡ waiting action
      → Steps crypto signer texts rfc3339 q.form.code (begun q s).1 t
      → AnsweredOnlyIf (Grants crypto signer texts rfc3339 q s) (resumed q action delivered t)
  unfolding Grants
  resumed-Grants q s action delivered t fresh waits path =
      let v = q.form.code in
      let o = lookup s.auth_codes v in
      let p = lookup s.refresh_tokens v in
      let here =
        begin_exchange-Left v o p crypto signer texts rfc3339 q.app q.form q.times q.secrets q.state
          fresh.1 s (Left-refl v s) in
      weaken _ (Grants crypto signer texts rfc3339 q s) _ (join o (begun-accepted q s action waits))
        (resumed-Redeems q o p action delivered t (
          Left-trans v o p (begun q s).1 t here
            (Steps-Left crypto signer texts rfc3339 v (begun q s).1 t path)))

  Exchange-Answers :
      (q : Request) (s : Idp) (out : Progress × Idp)
      → IsFresh q.form.code q.secrets
      → Exchange q s out
      → AnsweredOnlyIf (Grants crypto signer texts rfc3339 q s) out
  Exchange-Answers q s out fresh at_once = begin_exchange-Grants crypto signer texts rfc3339 q s
  Exchange-Answers q s out fresh (after_wait action delivered t waits path) =
      resumed-Grants q s action delivered t fresh waits path

  -- An exchange of a code that issues tokens, at once or after a wait with any steps of other requests
  -- between them, where neither it nor they draw the value of the code: at its start the code was stored,
  -- unexpired and not being redeemed, it was for this app, client and redirect URI, and the verifier
  -- answers its challenge, or there is neither. When it was redeemed, the code was still unexpired and
  -- asked for no error, and its user was in the app's state, active and not deleted.
  pub exchange-Grants :
      (q : Request) (s : Idp) (out : Progress × Idp) (x : TokenResponse)
      → IsFresh q.form.code q.secrets
      → Exchange q s out
      → out.0 ≡ answered (issued x)
      → Grants crypto signer texts rfc3339 q s
  exchange-Grants q s out x fresh run e =
      read (λ _ _. Grants crypto signer texts rfc3339 q s) out x
        (Exchange-Answers q s out fresh run) e
