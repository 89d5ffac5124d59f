-- ===== src/Web/Oidc/Rotation.antt =====
-- What a refresh token is good for: the refreshes that issue tokens for it.
pub mod Scopes
use scimtest.Prelude.{
  ℕ, String, Bool, Option, none, some, List, [], ◌∷◌, not, ◌||◌, ◌==◌, split_if, fields, ok, ◌≡◌,
  ◌≢◌, refl, sym, subst, ap, ◌∙◌,
}
use scimtest.Prelude.Dict.{lookup}
use scimtest.Directory.{App}
use scimtest.Web.Fault.{Texts}
use scimtest.Web.Resilience.{Action}
use scimtest.Web.Oidc.{AuthCode, RefreshToken, Idp, Crypto, prune, has_scope}
use scimtest.Web.Oidc.Inject.{refresh, Injection, begin_inject, end_inject}
use scimtest.Web.Oidc.Inject.Left.{begin_inject-Left, end_inject-Left}
use scimtest.Web.Oidc.Token.{
  TokenRequest, TokenResponse, issued, injected, Progress, answered, Signer,
}
use scimtest.Web.Oidc.Token.Issues.{Issues, Answers, Issues-map, read}
use scimtest.Web.Oidc.Exchange.{go_on, invalid_grant}
use scimtest.Web.Oidc.Exchange.Issues.{Fails, go_on-Answers, unless_failed-Answers}
use scimtest.Web.Oidc.Refresh.{
  refused_scope, check_refresh, asked_scope, refreshed_grant, redeem_token, begin_refresh,
  resume_refresh,
}
use scimtest.Web.Oidc.Refresh.Issues.{Refreshes, Rotates, Carries, redeem_refresh-Refreshes}
use scimtest.Web.Oidc.Codes.Once.{some-none}
use scimtest.Web.Oidc.Remains.{
  Remains, Remains-none, unmarked_refresh, Left, AfterLeft, Left-refl, prune-Left,
}
use scimtest.Web.Oidc.Steps.{Request, IsFresh, Steps, Steps-Left}

refused_scope-Fails : (t : RefreshToken) (vs : List String) → Fails (refused_scope t vs)
unfolding Fails refused_scope
refused_scope-Fails t [] = tt
refused_scope-Fails t (v ∷ vs) =
    split_if Fails (not (has_scope t.scope v)) _ _ (λ _. tt) (λ _. refused_scope-Fails t vs)

pub check_refresh-Fails :
    (app : App) (r : TokenRequest) (found : Option RefreshToken) → Fails (check_refresh app r found)
unfolding Fails check_refresh invalid_grant
check_refresh-Fails app r none = tt
check_refresh-Fails app r (some t) =
    split_if Fails
      (t.redeeming || not (t.app_slug == app.slug) || not (t.client_id == app.oidc_client_id)) _ _
      (λ _. tt)
      (λ _.
        split_if Fails (r.scope == "") _ _ (λ _. tt) (λ _. refused_scope-Fails t (fields r.scope)))

module _ (crypto : Crypto) (signer : Signer) (texts : Texts) (rfc3339 : ℕ → String) where
  -- The scope that a request asks for in a state.
  abbrev pub scope_in : Request → Idp → String
  scope_in q s =
      asked_scope q.form (lookup (prune q.times.pruned s).refresh_tokens q.form.refresh_token)

  -- A request to refresh for a scope: its start, or its end after a wait that began at any earlier
  -- state.
  pub data Refreshing (q : Request) (s : Idp) : String → Progress × Idp → Type 0 where
    begins :
        Refreshing q s
          (scope_in q s)
          (begin_refresh signer texts rfc3339 q.app q.form q.times q.secrets q.state s)
    resumes :
        (scope : String) (action : Action) (delivered : Bool)
        → Refreshing q s scope (
            resume_refresh signer texts rfc3339 q.app q.form q.times q.secrets q.state scope action
              delivered s)

  -- The token that was stored, and what the refresh does with it.
  abbrev pub Renews : Request → String → Option RefreshToken → TokenResponse → Idp → Type 0
  Renews q scope p x t =
      (token : RefreshToken) × (p ≡ some token)
      × Refreshes signer q.app q.form.refresh_token scope q.times q.state token x t

  Remains-Renews :
      (q : Request) (scope : String) (p found : Option RefreshToken) (x : TokenResponse) (t : Idp)
      → Remains unmarked_refresh p found
      → Renews q scope found x t
      → Renews q scope p x t
  unfolding Refreshes Rotates Carries refreshed_grant
  Remains-Renews q scope none found x t h (d, e, k) =
      elim (subst (Remains unmarked_refresh none) e h) [ ]
  Remains-Renews q scope (some c) found x t h (d, e, k) = (
    c,
    refl,
    subst (λ d. Refreshes signer q.app q.form.refresh_token scope q.times q.state d x t)
        (sym (subst (Remains unmarked_refresh (some c)) e h)) k,
  )

  module _ (q : Request) (scope : String) (o : Option AuthCode) (p : Option RefreshToken)
      (fresh : q.secrets.refresh ≢ ok q.form.refresh_token) where
    redeem_token-Renews :
        (t : Idp)
        → Left q.form.refresh_token o p t
        → Issues
            (Renews q scope p)
            (redeem_token signer texts rfc3339 q.app q.form q.times q.secrets q.state scope t)
    unfolding redeem_token
    redeem_token-Renews t h =
        let v = q.form.refresh_token in
        let found = lookup t.refresh_tokens v in
        Issues-map (Renews q scope found) (Renews q scope p)
          (redeem_token signer texts rfc3339 q.app q.form q.times q.secrets q.state scope t)
          (λ x u. Remains-Renews q scope p found x u h.1)
          (redeem_refresh-Refreshes signer q.app v scope q.times q.secrets fresh q.state found t)

    go_on-Renews :
        (i : Injection × Idp)
        → AfterLeft q.form.refresh_token o p i
        → Answers (Renews q scope p) (
            go_on
              (redeem_token signer texts rfc3339 q.app q.form q.times q.secrets q.state scope)
              i)
    go_on-Renews i h =
        go_on-Answers (Renews q scope p)
          (redeem_token signer texts rfc3339 q.app q.form q.times q.secrets q.state scope) i
          (λ t e. redeem_token-Renews t (subst (AfterLeft q.form.refresh_token o p) e h))

  Refreshing-Renews :
      (q : Request) (s : Idp) (scope : String) (out : Progress × Idp)
      → q.secrets.refresh ≢ ok q.form.refresh_token
      → Refreshing q s scope out
      → Answers (Renews q scope (lookup s.refresh_tokens q.form.refresh_token)) out
  unfolding begin_refresh resume_refresh
  Refreshing-Renews q s scope out fresh begins =
      let v = q.form.refresh_token in
      let o = lookup s.auth_codes v in
      let p = lookup s.refresh_tokens v in
      let s' = prune q.times.pruned s in
      let found = lookup s'.refresh_tokens v in
      unless_failed-Answers (Renews q (asked_scope q.form found) p)
        (check_refresh q.app q.form found) _ s' (check_refresh-Fails q.app q.form found)
        (λ _.
          go_on-Renews q (asked_scope q.form found) o p fresh
            (begin_inject texts rfc3339 q.app.slug "token (refresh_token)" (refresh v)
              q.times.injected q.times.delivered s')
            (begin_inject-Left v o p texts rfc3339 q.app.slug "token (refresh_token)" (refresh v)
              q.times.injected q.times.delivered s'
              (prune-Left v o p q.times.pruned s (Left-refl v s))))
  Refreshing-Renews q s _ out fresh (resumes scope action delivered) =
      let v = q.form.refresh_token in
      let o = lookup s.auth_codes v in
      let p = lookup s.refresh_tokens v in
      go_on-Renews q scope o p fresh
        (end_inject texts rfc3339 q.app.slug "token (refresh_token)" (refresh v) action delivered
          q.times.delivered s)
        (end_inject-Left v o p texts rfc3339 q.app.slug "token (refresh_token)" (refresh v) action
          delivered q.times.delivered s (Left-refl v s))

  -- A refresh that issues tokens, at its start or at the end of a wait, and that does not draw the
  -- presented value itself: the presented token was stored and unexpired, and its user active and not deleted. After
  -- it the presented value is gone. The response's refresh token is stored with all that the
  -- presented one had, its scope among it, but for its times, and expires a day later; its access
  -- token is stored for the user and the grant of the presented one, with the scope of the request.
  pub refresh-rotates :
      (q : Request) (s : Idp) (scope : String) (out : Progress × Idp) (x : TokenResponse)
      → q.secrets.refresh ≢ ok q.form.refresh_token
      → Refreshing q s scope out
      → out.0 ≡ answered (issued x)
      → Renews q scope (lookup s.refresh_tokens q.form.refresh_token) x out.1
  refresh-rotates q s scope out x fresh run e =
      read (Renews q scope (lookup s.refresh_tokens q.form.refresh_token)) out x
        (Refreshing-Renews q s scope out fresh run) e

  -- Once a refresh has issued tokens for a refresh token, no later one does, at its start or at the
  -- end of a wait, whatever steps of other requests there were since, where none of these requests
  -- draws its value.
  pub refresh-once :
      (q q' : Request) (s t : Idp) (scope scope' : String) (out out' : Progress × Idp)
      (x y : TokenResponse)
      → q'.form.refresh_token ≡ q.form.refresh_token
      → IsFresh q.form.refresh_token q.secrets
      → IsFresh q.form.refresh_token q'.secrets
      → Refreshing q s scope out
      → out.0 ≡ answered (issued x)
      → Steps crypto signer texts rfc3339 q.form.refresh_token out.1 t
      → Refreshing q' t scope' out'
      → out'.0 ≢ answered (issued y)
  unfolding Refreshes Rotates
  refresh-once q q' s t scope scope' out out' x y same fresh fresh' first e path second f =
      let v = q.form.refresh_token in
      let (token, found, (live, signs, rotates, carries)) =
        refresh-rotates q s scope out x fresh.1 first e in
      let left = Steps-Left crypto signer texts rfc3339 v out.1 t path in
      let absent =
        Remains-none unmarked_refresh (lookup t.refresh_tokens v)
          (subst (λ o. Remains unmarked_refresh o (lookup t.refresh_tokens v)) rotates.3 left.1) in
      let (again, there, rest) =
        refresh-rotates q' t scope' out' y (λ d. fresh'.1 (d ∙ ap ok same)) second f in
      some-none again (sym there ∙ ap (lookup t.refresh_tokens) same ∙ absent)
