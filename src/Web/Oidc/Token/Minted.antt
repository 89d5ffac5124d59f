-- ===== src/Web/Oidc/Token/Minted.antt =====
-- What issuing an ID token and an access token stores.
use scimtest.Prelude.{ℕ, String, Option, some, Result, ok, err, ◌≡◌, refl, if◌then◌else◌}
use scimtest.Prelude.Dict.{lookup, lookup-insert_self}
use scimtest.Directory.{App, User}
use scimtest.Web.Oidc.{AuthCode, AccessToken, Idp, Secrets}
use scimtest.Web.Oidc.Token.{
  TokenResponse, Signer, or_else, new_access_token, store_access_token, mint_access_token,
  after_mint, after_id_token, issue_tokens,
}

-- The access token that was returned is stored.
abbrev Stored : AccessToken → Result String String × Idp → Type 0
Stored t (ok value, s) = lookup s.access_tokens value ≡ some t
Stored t (err _, s) = Unit

-- A response has the scope of its grant, and its access token is stored.
abbrev pub Minted : AccessToken → Result String TokenResponse × Idp → Type 0
Minted t (ok r, s) = (r.scope ≡ t.scope) × (lookup s.access_tokens r.access_token ≡ some t)
Minted t (err _, s) = Unit

module _ (signer : Signer) (app : App) where
  store_access_token-Stored :
      (t : AccessToken) (value : Result String String) (s : Idp)
      → Stored t (store_access_token signer app t value s)
  unfolding store_access_token
  store_access_token-Stored t (err e) s = tt
  store_access_token-Stored t (ok value) s = lookup-insert_self s.access_tokens value t

  mint_access_token-Stored :
      (user_id : String) (grant : AuthCode) (now : ℕ) (secret : Result String String) (s : Idp)
      → Stored
          (new_access_token signer app user_id grant now)
          (mint_access_token signer app user_id grant now secret s)
  unfolding mint_access_token
  mint_access_token-Stored user_id grant now (err e) s = tt
  mint_access_token-Stored user_id grant now (ok secret) s =
      store_access_token-Stored (new_access_token signer app user_id grant now)
        (if app.oidc_jwt_access_tokens
          then signer.access_token app (or_else user_id grant.client_id) grant secret now
          else ok secret)
        s

  after_mint-Minted :
      (user_id : String) (grant : AuthCode) (now : ℕ) (id_token : Option String)
      (minted : Result String String × Idp)
      → Stored (new_access_token signer app user_id grant now) minted
      → Minted
          (new_access_token signer app user_id grant now)
          (after_mint signer app grant id_token minted)
  unfolding after_mint new_access_token
  after_mint-Minted user_id grant now id_token (err e, s) h = tt
  after_mint-Minted user_id grant now id_token (ok access, s) h = (refl, h)

  after_id_token-Minted :
      (u : User) (grant : AuthCode) (now : ℕ) (secrets : Secrets) (id : Result String String)
      (s : Idp)
      → Minted
          (new_access_token signer app u.id grant now)
          (after_id_token signer app u grant now secrets id s)
  unfolding after_id_token
  after_id_token-Minted u grant now secrets (err e) s = tt
  after_id_token-Minted u grant now secrets (ok id) s =
      after_mint-Minted u.id grant now (some id) _
        (mint_access_token-Stored u.id grant now secrets.access s)

  pub issue_tokens-Minted :
      (u : User) (grant : AuthCode) (now : ℕ) (secrets : Secrets) (s : Idp)
      → Minted
          (new_access_token signer app u.id grant now)
          (issue_tokens signer app u grant now secrets s)
  unfolding issue_tokens
  issue_tokens-Minted u grant now secrets s =
      after_id_token-Minted u grant now secrets (signer.id_token app u grant now) s
