-- ===== src/Web/Oidc/Token.antt =====
-- The token endpoint: handleOIDCToken, refreshOIDCTokens and issueClientCredentialsToken, from the
-- lock on. What a client may present was checked before.
pub mod Left
pub mod Issues
pub mod Minted
use Prim.Native.String.{String}
use scimtest.Prelude.{
  ℕ, ◌+◌, false, not, Option, none, some, ltb, ◌==◌, if◌then◌else◌, Result, ok, err,
}
use scimtest.Prelude.Dict.{insert, remove}
use scimtest.Directory.{App, AppState, User, user_by_id}
use scimtest.Web.Resilience.{Action}
use scimtest.Web.Oidc.{
  AuthCode, RefreshToken, AccessToken, Idp, Secrets, has_scope, access_token_audience, may_sign_in,
  refresh_token_lifetime, access_token_lifetime,
}
use scimtest.Web.Oidc.Inject.{code, refresh}

-- The form of a request.
pub record TokenRequest : Type 0 where
  pub code : String
  pub redirect_uri : String
  pub code_verifier : String
  pub refresh_token : String
  pub scope : String

pub record TokenResponse : Type 0 where
  pub access_token : String
  pub id_token : Option String
  pub refresh_token : Option String
  pub scope : String

-- The answer to a request: a status with an OAuth error, tokens, an injected fault, or none, since
-- the request ended while it waited.
pub data Reply : Type 0 where
  failed : ℕ → String → String → Reply
  issued : TokenResponse → Reply
  injected : Action → Reply
  gone : Reply

-- A request that is answered, or that waits with the lock released.
pub data Progress : Type 0 where
  answered : Reply → Progress
  waiting : Action → Progress

-- The times that a request reads the clock, in order.
pub record Times : Type 0 where
  pub pruned : ℕ
  pub injected : ℕ
  pub delivered : ℕ
  pub checked : ℕ
  pub issued : ℕ

-- Claims and signatures: the ID token of a user for a grant, recorded for inspection, and the JWT
-- access token for a subject with its jti.
pub record Signer : Type 0 where
  pub id_token : App → User → AuthCode → ℕ → Result String String
  pub access_token : App → String → AuthCode → String → ℕ → Result String String

abbrev or_else : String → String → String
or_else s t = if s == "" then t else s

unfoldable pub server_error : String → Reply
server_error e = failed 500 "server_error" e

module _ (signer : Signer) (app : App) where
  unfoldable pub new_access_token : String → AuthCode → ℕ → AccessToken
  unfolding access_token_audience
  new_access_token user_id grant now = record {
    app_slug = app.slug;
    client_id = grant.client_id;
    user_id = user_id;
    grant_id = grant.grant_id;
    scope = grant.scope;
    audience = if app.oidc_jwt_access_tokens then access_token_audience app else "";
    issued_at = now;
    expires_at = now + access_token_lifetime;
    faults = grant.faults;
  }

  unfoldable pub store_access_token :
      AccessToken → Result String String → Idp → Result String String × Idp
  unfolding insert
  store_access_token t (err e) s = (err e, s)
  store_access_token t (ok value) s =
      (ok value, record s { access_tokens = insert s.access_tokens value t })

  unfoldable pub mint_access_token :
      String → AuthCode → ℕ → Result String String → Idp → Result String String × Idp
  unfolding new_access_token store_access_token
  mint_access_token user_id grant now (err e) s = (err e, s)
  mint_access_token user_id grant now (ok secret) s =
      store_access_token (new_access_token user_id grant now)
        (if app.oidc_jwt_access_tokens
          then signer.access_token app (or_else user_id grant.client_id) grant secret now
          else ok secret)
        s

  after_mint :
      AuthCode → Option String → Result String String × Idp → Result String TokenResponse × Idp
  after_mint grant id_token (err e, s) = (err e, s)
  after_mint grant id_token (ok access, s) = (
    ok (record {
      access_token = access;
      id_token = id_token;
      refresh_token = none;
      scope = grant.scope;
    }),
    s,
  )

  after_id_token :
      User → AuthCode → ℕ → Secrets → Result String String → Idp → Result String TokenResponse × Idp
  unfolding after_mint mint_access_token
  after_id_token u grant now secrets (err e) s = (err e, s)
  after_id_token u grant now secrets (ok id_token) s =
      after_mint grant (some id_token) (mint_access_token u.id grant now secrets.access s)

  unfoldable pub issue_tokens :
      User → AuthCode → ℕ → Secrets → Idp → Result String TokenResponse × Idp
  unfolding after_id_token
  issue_tokens u grant now secrets s =
      after_id_token u grant now secrets (signer.id_token app u grant now) s

  -- issueRefreshToken, and the response with it.
  unfoldable pub issue_refresh_token :
      RefreshToken → ℕ → Result String String → TokenResponse → Idp → Reply × Idp
  unfolding server_error insert
  issue_refresh_token grant now (err e) r s = (server_error e, s)
  issue_refresh_token grant now (ok value) r s = (
    issued (record r { refresh_token = some value }),
    record s {
      refresh_tokens =
          insert s.refresh_tokens value
            (record grant { issued_at = now; expires_at = now + refresh_token_lifetime });
    },
  )

  -- The refresh token of a code with offline_access.
  unfoldable pub first_refresh_token : AuthCode → User → RefreshToken
  first_refresh_token c u = record {
    app_slug = app.slug;
    client_id = c.client_id;
    user_id = u.id;
    scope = c.scope;
    redirect_uri = c.redirect_uri;
    code_challenge = c.code_challenge;
    authn = c.authn;
    grant_id = c.grant_id;
    issued_at = 0;
    session_id = c.session_id;
    expires_at = 0;
    redeeming = false;
  }

  after_code_tokens :
      AuthCode → User → ℕ → Secrets → Result String TokenResponse × Idp → Reply × Idp
  unfolding server_error has_scope first_refresh_token issue_refresh_token
  after_code_tokens c u now secrets (err e, s) = (server_error e, s)
  after_code_tokens c u now secrets (ok r, s) =
      if has_scope c.scope "offline_access"
      then issue_refresh_token (first_refresh_token c u) now secrets.refresh r s
      else (issued r, s)

  code_tokens : AuthCode → User → ℕ → Secrets → Result String String → Idp → Reply × Idp
  unfolding server_error issue_tokens after_code_tokens
  code_tokens c u now secrets (err e) s = (server_error e, s)
  code_tokens c u now secrets (ok grant_id) s =
      let grant = record c { grant_id = grant_id } in
      after_code_tokens grant u now secrets (issue_tokens u grant now secrets s)

  for_user : AuthCode → ℕ → Secrets → Option User → Idp → Reply × Idp
  unfolding code_tokens
  for_user c now secrets none s = (failed 400 "invalid_grant" "user is inactive or missing", s)
  for_user c now secrets (some u) s = code_tokens c u now secrets secrets.grant_id s

  with_state : AuthCode → ℕ → Secrets → Result String AppState → Idp → Reply × Idp
  unfolding server_error for_user may_sign_in user_by_id
  with_state c now secrets (err e) s = (server_error e, s)
  with_state c now secrets (ok state) s =
      for_user c now secrets (may_sign_in (user_by_id state.users c.user_id)) s

  abbrev without_code : String → Idp → Idp
  without_code value s = record s { auth_codes = remove s.auth_codes value }

  -- The code as it stands now, which is deleted whatever comes of it.
  unfoldable pub redeem_code :
      String → Times → Secrets → Result String AppState → Option AuthCode → Idp → Reply × Idp
  unfolding remove with_state
  redeem_code value times secrets state none s =
      (failed 400 "invalid_grant" "authorization code is invalid or expired", without_code value s)
  redeem_code value times secrets state (some c) s =
      if not (ltb times.checked c.expires_at)
      then (
        failed 400 "invalid_grant" "authorization code is invalid or expired",
        without_code value s,
      )
      else if not (c.faults.token_error == "")
      then (failed 400 c.faults.token_error "injected token error", without_code value s)
      else with_state c times.issued secrets state (without_code value s)
