-- ===== src/Web/Oidc/Exchange/Issues.antt =====
-- When an exchange ends with tokens, and what is left of its code then.
use scimtest.Prelude.{
  ℕ, ◌<◌, String, Bool, true, false, Option, none, some, ltb, if◌then◌else◌, Result, ◌≡◌, ◌⊎◌, refl,
  eq_iff, arith,
}
use scimtest.Prelude.Dict.{keep_if}
use scimtest.Directory.{App, AppState}
use scimtest.Web.Oidc.{AuthCode, Idp, Crypto, valid_pkce_verifier}
use scimtest.Web.Oidc.Inject.{Injection, proceed, refused, held, ended}
use scimtest.Web.Oidc.Token.{
  TokenRequest, TokenResponse, Reply, failed, issued, injected, gone, Progress, Times,
}
use scimtest.Web.Oidc.Token.Issues.{Issues, Answers, SignsIn}
use scimtest.Web.Oidc.Exchange.{matches_request, invalid_grant, check_code, go_on, unless_failed}

-- The verifier of a request answers the challenge of a code, if the code has one.
unfoldable pub Verifies : Crypto → TokenRequest → AuthCode → Type 0
Verifies crypto r c =
    ((c.code_challenge ≡ "") × (r.code_verifier ≡ ""))
    ⊎ (valid_pkce_verifier crypto c.code_challenge r.code_verifier ≡ true)

-- A code that nobody is redeeming, for the app, the client and the redirect URI of the request.
unfoldable pub Fits : Crypto → App → TokenRequest → AuthCode → Type 0
Fits crypto app r c =
    (c.redeeming ≡ false)
    × (c.app_slug ≡ app.slug)
    × (c.client_id ≡ app.oidc_client_id)
    × (c.redirect_uri ≡ r.redirect_uri)
    × Verifies crypto r c

pub check_code-Fits :
    (crypto : Crypto) (app : App) (r : TokenRequest) (c : AuthCode)
    → check_code crypto app r (some c) ≡ none
    → Fits crypto app r c
unfolding check_code matches_request Fits Verifies invalid_grant
check_code-Fits crypto app r c e = (
  ground (arith, e),
  ground (arith, e, eq_iff c.app_slug app.slug),
  ground (arith, e, eq_iff c.client_id app.oidc_client_id),
  ground (arith, e, eq_iff c.redirect_uri r.redirect_uri),
  ground (arith, e, eq_iff c.code_challenge "", eq_iff r.code_verifier ""),
)

-- What the redemption of a code at a state asks of it.
unfoldable pub Redeems : Times → Result String AppState → AuthCode → Type 0
Redeems times state c =
    (times.checked < c.expires_at) × (c.faults.token_error ≡ "") × SignsIn state c.user_id

-- The code that an exchange needs at its start.
unfoldable pub Accepts : Crypto → App → TokenRequest → ℕ → AuthCode → Type 0
Accepts crypto app r now c = (now < c.expires_at) × Fits crypto app r c

unfoldable pub Fails : Option Reply → Type 0
Fails none = Unit
Fails (some (failed _ _ _)) = Unit
Fails (some (issued _)) = ⊥
Fails (some (injected _)) = ⊥
Fails (some gone) = ⊥

pub check_code-Fails :
    (crypto : Crypto) (app : App) (r : TokenRequest) (found : Option AuthCode)
    → Fails (check_code crypto app r found)
unfolding Fails check_code invalid_grant
check_code-Fails crypto app r none = tt
check_code-Fails crypto app r (some c) = ground arith

pub go_on-Answers :
    (C : TokenResponse → Idp → Type 0) (rest : Idp → Reply × Idp) (i : Injection × Idp)
    → ((t : Idp) → i ≡ (proceed, t) → Issues C (rest t))
    → Answers C (go_on rest i)
unfolding go_on
go_on-Answers C rest (proceed, t) k = k t refl
go_on-Answers C rest (refused action, t) k = tt
go_on-Answers C rest (held action, t) k = tt
go_on-Answers C rest (ended, t) k = tt

-- An answer with tokens, or a wait, comes after the checks.
pub unless_failed-Answers :
    (C : TokenResponse → Idp → Type 0) (failure : Option Reply) (rest : Idp → Progress × Idp)
    (s : Idp)
    → Fails failure
    → (failure ≡ none → Answers C (rest s))
    → Answers C (unless_failed failure rest s)
unfolding unless_failed Fails
unless_failed-Answers C none rest s h k = k refl
unless_failed-Answers C (some (failed _ _ _)) rest s h k = tt
unless_failed-Answers C (some (issued _)) rest s h k = elim h [ ]
unless_failed-Answers C (some (injected _)) rest s h k = tt
unless_failed-Answers C (some gone) rest s h k = tt

module _ (crypto : Crypto) (app : App) (r : TokenRequest) (now : ℕ) where
  -- The code, where its test came out as b.
  kept-Accepts_if :
      (c : AuthCode) (b : Bool)
      → ltb now c.expires_at ≡ b
      → check_code crypto app r (if b then some c else none) ≡ none
      → Accepts crypto app r now c
  unfolding check_code Accepts invalid_grant
  kept-Accepts_if c true live e = (ground (arith, live), check_code-Fits crypto app r c e)
  kept-Accepts_if c false live e = ground (arith, e)

  pub kept-Accepts :
      (found : Option AuthCode)
      → check_code crypto app r (keep_if (λ c. ltb now c.expires_at) found) ≡ none
      → (c : AuthCode) × (found ≡ some c) × Accepts crypto app r now c
  unfolding check_code invalid_grant
  kept-Accepts none e = ground (arith, e)
  kept-Accepts (some c) e = (c, refl, kept-Accepts_if c (ltb now c.expires_at) refl e)
