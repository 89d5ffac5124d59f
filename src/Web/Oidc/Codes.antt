-- ===== src/Web/Oidc/Codes.antt =====
-- What an authorization code is good for: the exchanges that issue tokens for it.
pub mod Exchanges
pub mod Flow
pub mod Once
use scimtest.Prelude.{
  ℕ, String, Option, none, some, ltb, Result, ◌≡◌, refl, sym, subst, ap, ◌∙◌, from_option,
}
use scimtest.Prelude.Dict.{lookup, lookup-retain}
use scimtest.Directory.{AppState}
use scimtest.Web.Fault.{Texts}
use scimtest.Web.Oidc.{AuthCode, RefreshToken, Idp, Crypto, prune}
use scimtest.Web.Oidc.Inject.{code, Injection}
use scimtest.Web.Oidc.Inject.Left.{begin_inject-Left}
use scimtest.Web.Oidc.Token.{
  failed, issued, injected, gone, Progress, answered, waiting, Times, Signer,
}
use scimtest.Web.Oidc.Token.Issues.{IssuedOnlyIf, AnsweredOnlyIf, redeem_code-issues}
use scimtest.Web.Oidc.Exchange.{check_code, go_on, redeem, begin_exchange}
use scimtest.Web.Oidc.Exchange.Issues.{
  go_on-Answers, unless_failed-Answers, check_code-Fails, Redeems, Accepts, kept-Accepts,
}
use scimtest.Web.Oidc.Remains.{Remains, unmarked_code, Left, AfterLeft, Left-refl, prune-Left}
use scimtest.Web.Oidc.Steps.{Request}

Remains-Redeems :
    (times : Times) (state : Result String AppState) (o q : Option AuthCode) (d : AuthCode)
    → Remains unmarked_code o q
    → q ≡ some d
    → Redeems times state d
    → (c : AuthCode) × (o ≡ some c) × Redeems times state c
unfolding Redeems
Remains-Redeems times state none q d h e k = elim (subst (Remains unmarked_code none) e h) [ ]
Remains-Redeems times state (some c) q d h e k =
    (c, refl, subst (Redeems times state) (sym (subst (Remains unmarked_code (some c)) e h)) k)

join :
    {V : Type 0} {A B : V → Type 0} (o : Option V)
    → (c : V) × (o ≡ some c) × A c
    → (c : V) × (o ≡ some c) × B c
    → (c : V) × (o ≡ some c) × A c × B c
join {A = A} {B = B} o (c, e, a) (d, f, b) =
    (c, e, a, subst B (ap (λ o. from_option o c) (sym f ∙ e)) b)

weaken : (B C : Type 0) (a : Progress × Idp) → (B → C) → AnsweredOnlyIf B a → AnsweredOnlyIf C a
weaken B C (answered (issued _), _) k h = k h
weaken B C (answered (failed _ _ _), _) k h = tt
weaken B C (answered (injected _), _) k h = tt
weaken B C (answered gone, _) k h = tt
weaken B C (waiting _, _) k h = tt

module _ (crypto : Crypto) (signer : Signer) (texts : Texts) (rfc3339 : ℕ → String) where
  module _ (q : Request) (o : Option AuthCode) (p : Option RefreshToken) where
    -- The code as it was, if a redemption at a later state issues tokens.
    redeem-issues :
        (t : Idp)
        → Left q.form.code o p t
        → IssuedOnlyIf
            ((c : AuthCode) × (o ≡ some c) × Redeems q.times q.state c)
            (redeem crypto signer texts rfc3339 q.app q.form q.times q.secrets q.state t)
    unfolding redeem Redeems
    redeem-issues t h =
        redeem_code-issues ((c : AuthCode) × (o ≡ some c) × Redeems q.times q.state c) signer q.app
          q.form.code q.times q.secrets q.state (lookup t.auth_codes q.form.code) t
          (λ d e live kept signs.
            Remains-Redeems q.times q.state o (lookup t.auth_codes q.form.code) d h.0 e
              (live, kept, signs))

    go_on-Redeems :
        (i : Injection × Idp)
        → AfterLeft q.form.code o p i
        → AnsweredOnlyIf
            ((c : AuthCode) × (o ≡ some c) × Redeems q.times q.state c)
            (go_on (redeem crypto signer texts rfc3339 q.app q.form q.times q.secrets q.state) i)
    go_on-Redeems i h =
        go_on-Answers (λ _ _. (c : AuthCode) × (o ≡ some c) × Redeems q.times q.state c)
          (redeem crypto signer texts rfc3339 q.app q.form q.times q.secrets q.state) i
          (λ t e. redeem-issues t (subst (AfterLeft q.form.code o p) e h))

  -- The code that an exchange finds in a state, which is what its checks ask for.
  pub Grants : Request → Idp → Type 0
  Grants q s =
      (c : AuthCode) × (lookup s.auth_codes q.form.code ≡ some c)
      × Accepts crypto q.app q.form q.times.pruned c
      × Redeems q.times q.state c

  accepted :
      (q : Request) (s : Idp)
      → check_code crypto q.app q.form (lookup (prune q.times.pruned s).auth_codes q.form.code)
        ≡ none
      → (c : AuthCode) × (lookup s.auth_codes q.form.code ≡ some c)
        × Accepts crypto q.app q.form q.times.pruned c
  unfolding prune
  accepted q s e =
      kept-Accepts crypto q.app q.form q.times.pruned (lookup s.auth_codes q.form.code) (
        subst (λ o. check_code crypto q.app q.form o ≡ none)
          (lookup-retain (λ c. ltb q.times.pruned c.expires_at) s.auth_codes q.form.code) e)

  begin_exchange-Grants :
      (q : Request) (s : Idp)
      → AnsweredOnlyIf
          (Grants q s)
          (begin_exchange crypto signer texts rfc3339 q.app q.form q.times q.secrets q.state s)
  unfolding begin_exchange Grants
  begin_exchange-Grants q s =
      let v = q.form.code in
      let o = lookup s.auth_codes v in
      let p = lookup s.refresh_tokens v in
      let s' = prune q.times.pruned s in
      let found = lookup s'.auth_codes v in
      unless_failed-Answers (λ _ _. Grants q s) (check_code crypto q.app q.form found) _ s'
        (check_code-Fails crypto q.app q.form found)
        (λ e. weaken _ (Grants q s) _ (join o (accepted q s e)) (
          go_on-Redeems q o p _ (
            begin_inject-Left v o p texts rfc3339 q.app.slug "token (authorization_code)" (code v)
              q.times.injected q.times.delivered s'
              (prune-Left v o p q.times.pruned s (Left-refl v s)))))
