-- ===== src/Web/Oidc/Codes/Once.antt =====
-- A code is redeemed once.
use scimtest.Prelude.{ℕ, String, Bool, none, some, ◌≡◌, ◌≢◌, sym, subst, ap, ◌∙◌, arith}
use scimtest.Prelude.Dict.{lookup, remove, lookup-remove_self}
use scimtest.Web.Fault.{Texts}
use scimtest.Web.Resilience.{Action}
use scimtest.Web.Oidc.{AuthCode, Idp, Crypto, prune}
use scimtest.Web.Oidc.Inject.{code, begin_inject, end_inject}
use scimtest.Web.Oidc.Token.{TokenResponse, issued, Progress, answered, Signer}
use scimtest.Web.Oidc.Token.Left.{redeem_code-Left}
use scimtest.Web.Oidc.Token.Issues.{Issues, Answers, AnsweredOnlyIf, read, Issues-of}
use scimtest.Web.Oidc.Exchange.{check_code, redeem, begin_exchange, resume_exchange}
use scimtest.Web.Oidc.Exchange.Issues.{go_on-Answers, unless_failed-Answers, check_code-Fails}
use scimtest.Web.Oidc.Codes.{Grants, begin_exchange-Grants, weaken}
use scimtest.Web.Oidc.Codes.Exchanges.{begun, resumed, resumed-Redeems}
use scimtest.Web.Oidc.Remains.{
  Remains, Remains-refl, Remains-none, unmarked_code, unmarked_refresh, Left, Left-refl,
}
use scimtest.Web.Oidc.Steps.{Request, IsFresh, Steps, Steps-Left}

-- No code under a value.
Spent : String → TokenResponse → Idp → Type 0
Spent v x s = lookup s.auth_codes v ≡ none

pub some-none : {V : Type 0} (x : V) → some x ≢ none
some-none x e = ground (arith, e)

removed_self :
    (v : String) (t : Idp)
    → Left v none (lookup t.refresh_tokens v) (record t { auth_codes = remove t.auth_codes v })
removed_self v t = (
  subst (Remains unmarked_code none) (sym (lookup-remove_self t.auth_codes v)) tt,
  Remains-refl unmarked_refresh (lookup t.refresh_tokens v),
)

module _ (crypto : Crypto) (signer : Signer) (texts : Texts) (rfc3339 : ℕ → String) where
  -- A request to redeem a code: its start, or its end after a wait that began at any earlier state.
  pub data Redemption (q : Request) (s : Idp) : Progress × Idp → Type 0 where
    begins : Redemption q s (begun crypto signer texts rfc3339 q s)
    resumes :
        (action : Action) (delivered : Bool)
        → Redemption q s (resumed crypto signer texts rfc3339 q action delivered s)

  redeem-none :
      (q : Request) (t : Idp)
      → IsFresh q.form.code q.secrets
      → lookup
          (redeem crypto signer texts rfc3339 q.app q.form q.times q.secrets q.state t).1.auth_codes
          q.form.code
        ≡ none
  unfolding redeem
  redeem-none q t fresh =
      let v = q.form.code in
      Remains-none unmarked_code _
        (redeem_code-Left v none (lookup t.refresh_tokens v) signer q.app v q.times q.secrets
          q.state fresh.1 (lookup t.auth_codes v) t (removed_self v t)).0

  redeem-Spent :
      (q : Request) (t : Idp)
      → IsFresh q.form.code q.secrets
      → Issues
          (Spent q.form.code)
          (redeem crypto signer texts rfc3339 q.app q.form q.times q.secrets q.state t)
  unfolding Spent
  redeem-Spent q t fresh =
      Issues-of (Spent q.form.code)
        (redeem crypto signer texts rfc3339 q.app q.form q.times q.secrets q.state t)
        (λ x. redeem-none q t fresh)

  Redemption-Spent :
      (q : Request) (s : Idp) (out : Progress × Idp)
      → IsFresh q.form.code q.secrets
      → Redemption q s out
      → Answers (Spent q.form.code) out
  unfolding begin_exchange resume_exchange
  Redemption-Spent q s out fresh begins =
      let found = lookup (prune q.times.pruned s).auth_codes q.form.code in
      unless_failed-Answers (Spent q.form.code) (check_code crypto q.app q.form found) _ _
        (check_code-Fails crypto q.app q.form found)
        (λ _.
          go_on-Answers (Spent q.form.code)
            (redeem crypto signer texts rfc3339 q.app q.form q.times q.secrets q.state)
            (begin_inject texts rfc3339 q.app.slug "token (authorization_code)" (code q.form.code)
              q.times.injected q.times.delivered (prune q.times.pruned s))
            (λ t _. redeem-Spent q t fresh))
  Redemption-Spent q s out fresh (resumes action delivered) =
      go_on-Answers (Spent q.form.code)
        (redeem crypto signer texts rfc3339 q.app q.form q.times q.secrets q.state)
        (end_inject texts rfc3339 q.app.slug "token (authorization_code)" (code q.form.code) action
          delivered q.times.delivered s)
        (λ t _. redeem-Spent q t fresh)

  Redemption-needs :
      (q : Request) (s : Idp) (out : Progress × Idp)
      → Redemption q s out
      → AnsweredOnlyIf ((c : AuthCode) × (lookup s.auth_codes q.form.code ≡ some c)) out
  unfolding Grants
  Redemption-needs q s out begins =
      weaken _ ((c : AuthCode) × (lookup s.auth_codes q.form.code ≡ some c)) _ (λ g. (g.0, g.1))
        (begin_exchange-Grants crypto signer texts rfc3339 q s)
  Redemption-needs q s out (resumes action delivered) =
      weaken _ ((c : AuthCode) × (lookup s.auth_codes q.form.code ≡ some c)) _ (λ g. (g.0, g.1))
        (resumed-Redeems crypto signer texts rfc3339 q (lookup s.auth_codes q.form.code)
          (lookup s.refresh_tokens q.form.code) action delivered s (Left-refl q.form.code s))

  -- Once a redemption of a code has issued tokens, no later one does, at once or at the end of a wait
  -- that began at any time, whatever steps of other requests there were since, where neither the
  -- first redemption nor they draw the value of the code.
  pub exchange-once :
      (q q' : Request) (s t : Idp) (out out' : Progress × Idp) (x y : TokenResponse)
      → q'.form.code ≡ q.form.code
      → IsFresh q.form.code q.secrets
      → Redemption q s out
      → out.0 ≡ answered (issued x)
      → Steps crypto signer texts rfc3339 q.form.code out.1 t
      → Redemption q' t out'
      → out'.0 ≢ answered (issued y)
  unfolding Spent
  exchange-once q q' s t out out' x y same fresh first e path second f =
      let v = q.form.code in
      let gone = read (Spent v) out x (Redemption-Spent q s out fresh first) e in
      let left = Steps-Left crypto signer texts rfc3339 v out.1 t path in
      let absent =
        Remains-none unmarked_code (lookup t.auth_codes v)
          (subst (λ o. Remains unmarked_code o (lookup t.auth_codes v)) gone left.0) in
      let (c, found) =
        read (λ _ _. (c : AuthCode) × (lookup t.auth_codes q'.form.code ≡ some c)) out' y
          (Redemption-needs q' t out' second) f in
      some-none c (sym found ∙ ap (lookup t.auth_codes) same ∙ absent)
