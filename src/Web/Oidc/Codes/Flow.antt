-- ===== src/Web/Oidc/Codes/Flow.antt =====
-- From a sign-in to the tokens: the code that issueOIDCCode stores, and its exchange.
use scimtest.Prelude.{ℕ, ◌+◌, ◌<◌, String, Option, some, ok, ◌≡◌, sym, subst, ap, ◌∙◌}
use scimtest.Prelude.Dict.{lookup, lookup-insert_self}
use scimtest.Web.Fault.{Texts}
use scimtest.Web.Oidc.{
  AuthCode, Idp, Crypto, Secrets, code_lifetime, prune, new_code, store_code, issue_code,
}
use scimtest.Web.Oidc.Token.{TokenResponse, Progress, answered, issued, Signer}
use scimtest.Web.Oidc.Token.Issues.{SignsIn}
use scimtest.Web.Oidc.Exchange.Issues.{Verifies, Fits, Accepts, Redeems}
use scimtest.Web.Oidc.Codes.{Grants}
use scimtest.Web.Oidc.Codes.Exchanges.{Exchange, exchange-Grants}
use scimtest.Web.Oidc.Remains.{Remains, unmarked_code}
use scimtest.Web.Oidc.Steps.{Request, IsFresh, Steps, Steps-Left}

issue_code-stores :
    (now : ℕ) (c : AuthCode) (secrets : Secrets) (s : Idp) (v : String)
    → secrets.code ≡ ok v
    → lookup (issue_code now c secrets s).1.auth_codes v ≡ some (new_code now c)
unfolding issue_code store_code
issue_code-stores now c secrets s v e =
    ap (λ drawn. lookup (store_code now c drawn (prune now s)).1.auth_codes v) e
    ∙ lookup-insert_self (prune now s).auth_codes v (new_code now c)

module _ (crypto : Crypto) (signer : Signer) (texts : Texts) (rfc3339 : ℕ → String) where
  -- A code serves the request: its app, client and redirect URI, an answer to its challenge, in time,
  -- and for an active user.
  unfoldable pub Serves : Request → AuthCode → Type 0
  Serves q c =
      (c.app_slug ≡ q.app.slug)
      × (c.client_id ≡ q.app.oidc_client_id)
      × (c.redirect_uri ≡ q.form.redirect_uri)
      × Verifies crypto q.form c
      × (q.times.checked < c.expires_at)
      × SignsIn q.state c.user_id

  Grants-Serves :
      (q : Request) (s : Idp)
      → Grants crypto signer texts rfc3339 q s
      → (d : AuthCode) × (lookup s.auth_codes q.form.code ≡ some d) × Serves q d
  unfolding Grants Accepts Fits Redeems Serves
  Grants-Serves q s
        (d, found, (live, (idle, slug, client, uri, verifies)), (checked, kept, signs)) =
      (d, found, (slug, client, uri, verifies, checked, signs))

  Remains-Serves :
      (q : Request) (c : AuthCode) (found : Option AuthCode)
      → Remains unmarked_code (some c) found
      → (d : AuthCode) × (found ≡ some d) × Serves q d
      → Serves q c
  unfolding Serves Verifies
  Remains-Serves q c found h (d, e, serves) =
      subst (Serves q) (sym (subst (Remains unmarked_code (some c)) e h)) serves

  -- Tokens are issued for the code of a sign-in, whatever steps of other requests there were since,
  -- and during the wait of the exchange, only to a request for the app and the client that the user
  -- signed in to, with the redirect URI of the sign-in and an answer to its challenge, within five
  -- minutes, and while the user who signed in is active and not deleted. None of these requests draws
  -- the value of the code again.
  pub flow-Serves :
      (q : Request) (now : ℕ) (c : AuthCode) (secrets : Secrets) (start s : Idp)
      (out : Progress × Idp) (x : TokenResponse)
      → secrets.code ≡ ok q.form.code
      → IsFresh q.form.code q.secrets
      → Steps crypto signer texts rfc3339 q.form.code (issue_code now c secrets start).1 s
      → Exchange crypto signer texts rfc3339 q s out
      → out.0 ≡ answered (issued x)
      → Serves q (record c { expires_at = now + code_lifetime })
  unfolding Serves Verifies new_code
  flow-Serves q now c secrets start s out x drawn fresh path run e =
      let v = q.form.code in
      let after = (issue_code now c secrets start).1 in
      let left = Steps-Left crypto signer texts rfc3339 v after s path in
      Remains-Serves q (new_code now c) (lookup s.auth_codes v)
        (subst (λ o. Remains unmarked_code o (lookup s.auth_codes v))
          (issue_code-stores now c secrets start v drawn) left.0)
        (Grants-Serves q s (exchange-Grants crypto signer texts rfc3339 q s out x fresh run e))
