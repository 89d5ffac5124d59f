-- ===== src/Web/Oidc/Rotation/Scopes.antt =====
-- The scopes of a refresh.
use scimtest.Prelude.{
  ℕ, ◌<◌, String, Bool, true, false, Option, none, some, List, [], ◌∷◌, any, All, ltb, ◌==◌,
  if◌then◌else◌, ◌≡◌, ◌⊎◌, inl, inr, refl, sym, ◌∙◌, subst, eq_iff, eq_refl, arith,
}
use scimtest.Prelude.Text.{fields}
use scimtest.Prelude.Dict.{lookup, keep_if, lookup-retain}
use scimtest.Directory.{App}
use scimtest.Web.Fault.{Texts}
use scimtest.Web.Resilience.{Action}
use scimtest.Web.Oidc.{RefreshToken, Idp, Crypto, has_scope, prune}
use scimtest.Web.Oidc.Token.{
  TokenRequest, TokenResponse, Reply, Progress, answered, waiting, failed, issued, injected, gone,
  Signer,
}
use scimtest.Web.Oidc.Exchange.{invalid_grant, unless_failed}
use scimtest.Web.Oidc.Exchange.Issues.{Fails}
use scimtest.Web.Oidc.Refresh.{refused_scope, check_refresh, asked_scope, begin_refresh}
use scimtest.Web.Oidc.Rotation.{check_refresh-Fails, scope_in}
use scimtest.Web.Oidc.Steps.{Request}

-- All of some scopes are among a token's.
pub HasScopes : RefreshToken → List String → Type 0
HasScopes t = All (λ v. has_scope t.scope v ≡ true)

-- What a refresh for a scope needs: the app's and the client's token, that nobody is refreshing, and
-- whose scopes the scope is of.
pub Allows : App → ℕ → String → RefreshToken → Type 0
Allows app now scope t =
    (now < t.expires_at)
    × (t.redeeming ≡ false)
    × (t.app_slug ≡ app.slug)
    × (t.client_id ≡ app.oidc_client_id)
    × HasScopes t (fields scope)

among :
    (us vs : List String)
    → ((v : String) → any (λ w. w == v) vs ≡ true → any (λ w. w == v) us ≡ true)
    → All (λ v. any (λ w. w == v) us ≡ true) vs
among us [] k = tt
among us (v ∷ vs) k =
    (k v (ground (arith, eq_refl v)), among us vs (λ u h. k u (ground (arith, h))))

own-HasScopes : (t : RefreshToken) → HasScopes t (fields t.scope)
unfolding HasScopes has_scope
own-HasScopes t = among (fields t.scope) (fields t.scope) (λ v h. h)

refused_scope-HasScopes :
    (t : RefreshToken) (vs : List String) → refused_scope t vs ≡ none → HasScopes t vs
unfolding HasScopes refused_scope
refused_scope-HasScopes t [] e = tt
refused_scope-HasScopes t (v ∷ vs) e =
    (ground (arith, e), refused_scope-HasScopes t vs (ground (arith, e)))

-- The part of the check on the scope.
scope_check-HasScopes :
    (r : TokenRequest) (t : RefreshToken) (b : Bool)
    → (if b then none else refused_scope t (fields r.scope)) ≡ none
    → HasScopes t (fields (if b then t.scope else r.scope))
scope_check-HasScopes r t true e = own-HasScopes t
scope_check-HasScopes r t false e = refused_scope-HasScopes t (fields r.scope) e

module _ (app : App) (r : TokenRequest) (now : ℕ) where
  token_Allows :
      (t : RefreshToken)
      → now < t.expires_at
      → check_refresh app r (some t) ≡ none
      → Allows app now (asked_scope r (some t)) t
  unfolding check_refresh asked_scope Allows invalid_grant
  token_Allows t live e = (
    live,
    ground (arith, e),
    ground (arith, e, eq_iff t.app_slug app.slug),
    ground (arith, e, eq_iff t.client_id app.oidc_client_id),
    scope_check-HasScopes r t (r.scope == "") (ground (arith, e)),
  )

  kept-Allows_if :
      (t : RefreshToken) (b : Bool)
      → ltb now t.expires_at ≡ b
      → check_refresh app r (if b then some t else none) ≡ none
      → Allows app now (asked_scope r (if b then some t else none)) t
  unfolding check_refresh invalid_grant
  kept-Allows_if t true live e = token_Allows t (ground (arith, live)) e
  kept-Allows_if t false live e = ground (arith, e)

  kept-Allows :
      (found : Option RefreshToken)
      → check_refresh app r (keep_if (λ t. ltb now t.expires_at) found) ≡ none
      → (t : RefreshToken) × (found ≡ some t)
        × Allows app now (asked_scope r (keep_if (λ t. ltb now t.expires_at) found)) t
  unfolding check_refresh invalid_grant
  kept-Allows none e = ground (arith, e)
  kept-Allows (some t) e = (t, refl, kept-Allows_if t (ltb now t.expires_at) refl e)

-- The description of a wait or of tokens, and that of an error.
Fine : Progress → Type 0
Fine (answered (failed _ _ _)) = ⊥
Fine (answered (issued _)) = Unit
Fine (answered (injected _)) = Unit
Fine (answered gone) = Unit
Fine (waiting _) = Unit

checked :
    (failure : Option Reply) (rest : Idp → Progress × Idp) (s : Idp)
    → Fails failure
    → Fine (unless_failed failure rest s).0
    → failure ≡ none
unfolding unless_failed Fails Fine
checked none rest s h k = refl
checked (some (failed _ _ _)) rest s h k = elim k [ ]
checked (some (issued _)) rest s h k = elim h [ ]
checked (some (injected _)) rest s h k = elim h [ ]
checked (some gone) rest s h k = elim h [ ]

module _ (crypto : Crypto) (signer : Signer) (texts : Texts) (rfc3339 : ℕ → String) where
  begin_refresh-Allows :
      (q : Request) (s : Idp)
      → Fine (begin_refresh signer texts rfc3339 q.app q.form q.times q.secrets q.state s).0
      → (t : RefreshToken) × (lookup s.refresh_tokens q.form.refresh_token ≡ some t)
        × Allows q.app q.times.pruned (scope_in crypto signer texts rfc3339 q s) t
  unfolding begin_refresh prune
  begin_refresh-Allows q s fine =
      let v = q.form.refresh_token in
      let kept = lookup-retain (λ t. ltb q.times.pruned t.expires_at) s.refresh_tokens v in
      let found = lookup (prune q.times.pruned s).refresh_tokens v in
      let passed =
        checked (check_refresh q.app q.form found) _ _ (check_refresh-Fails q.app q.form found)
          fine in
      let (t, e, allows) =
        kept-Allows q.app q.form q.times.pruned (lookup s.refresh_tokens v)
          (subst (λ o. check_refresh q.app q.form o ≡ none) kept passed) in
      (t, e, subst (λ o. Allows q.app q.times.pruned (asked_scope q.form o) t) (sym kept) allows)

  -- A refresh that waits, or that issues tokens at once, has a scope all of which the presented token
  -- has: that of the request, or the token's own if the request names none. The token was stored,
  -- unexpired and not being refreshed, and it is the app's and the client's.
  pub refresh-narrows :
      (q : Request) (s : Idp) (p : Progress)
      → (begin_refresh signer texts rfc3339 q.app q.form q.times q.secrets q.state s).0 ≡ p
      → ((x : TokenResponse) × (p ≡ answered (issued x))) ⊎ ((a : Action) × (p ≡ waiting a))
      → (t : RefreshToken) × (lookup s.refresh_tokens q.form.refresh_token ≡ some t)
        × Allows q.app q.times.pruned (scope_in crypto signer texts rfc3339 q s) t
  unfolding Fine
  refresh-narrows q s p e (inl (x, f)) = begin_refresh-Allows q s (subst Fine (sym (e ∙ f)) tt)
  refresh-narrows q s p e (inr (a, f)) = begin_refresh-Allows q s (subst Fine (sym (e ∙ f)) tt)
