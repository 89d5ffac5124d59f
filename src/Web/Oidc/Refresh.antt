-- ===== src/Web/Oidc/Refresh.antt =====
-- refreshOIDCTokens and issueClientCredentialsToken.
pub mod Left
pub mod Issues
use scimtest.Prelude.{
  ℕ, String, Bool, false, not, ◌||◌, Option, none, some, List, [], ◌∷◌, ltb, ◌==◌, if◌then◌else◌,
  concat, Result, ok, err,
}
use scimtest.Prelude.Text.{fields}
use scimtest.Prelude.Dict.{lookup, remove}
use scimtest.Directory.{App, AppState, User, user_by_id}
use scimtest.Web.Fault.{Texts}
use scimtest.Web.Resilience.{Action}
use scimtest.Web.Resilience.Presets.{no_faults}
use scimtest.Web.Oidc.{AuthCode, RefreshToken, Idp, Secrets, prune, has_scope, may_sign_in}
use scimtest.Web.Oidc.Inject.{refresh, client, begin_inject, end_inject}
use scimtest.Web.Oidc.Token.{
  TokenRequest, TokenResponse, Reply, failed, issued, Progress, answered, Times, Signer,
  server_error, issue_tokens, issue_refresh_token, mint_access_token,
}
use scimtest.Web.Oidc.Exchange.{invalid_grant, go_on, unless_failed}

-- A refresh for a request: the token's app and client, and a scope that it has.
unfoldable pub refused_scope : RefreshToken → List String → Option Reply
unfolding has_scope
refused_scope t [] = none
refused_scope t (v ∷ vs) =
    if not (has_scope t.scope v)
    then some (failed 400 "invalid_scope" (concat "scope " (concat v " was not granted")))
    else refused_scope t vs

unfoldable pub check_refresh : App → TokenRequest → Option RefreshToken → Option Reply
unfolding refused_scope invalid_grant
check_refresh app r none = invalid_grant "refresh token is invalid, expired, or revoked"
check_refresh app r (some t) =
    if t.redeeming || not (t.app_slug == app.slug) || not (t.client_id == app.oidc_client_id)
    then invalid_grant "refresh token is invalid, expired, or revoked"
    else if r.scope == ""
    then none
    else refused_scope t (fields r.scope)

-- The scope of the request, or else of the token that it found first.
unfoldable pub asked_scope : TokenRequest → Option RefreshToken → String
asked_scope r none = r.scope
asked_scope r (some t) = if r.scope == "" then t.scope else r.scope

-- The grant of a refresh: no nonce, and none of the code's faults.
unfoldable pub refreshed_grant : RefreshToken → String → AuthCode
refreshed_grant t scope = record {
  app_slug = "";
  client_id = t.client_id;
  user_id = "";
  redirect_uri = t.redirect_uri;
  nonce = "";
  scope = scope;
  code_challenge = t.code_challenge;
  authn = t.authn;
  session_id = t.session_id;
  expires_at = 0;
  faults = no_faults;
  redeeming = false;
  grant_id = t.grant_id;
}

abbrev pub without_refresh : String → Idp → Idp
without_refresh value s = record s { refresh_tokens = remove s.refresh_tokens value }

module _ (signer : Signer) (app : App) (value scope : String) (times : Times) (secrets : Secrets)
    (state : Result String AppState) where
  -- The presented token stops working once its replacement is stored.
  unfoldable pub rotate : Reply × Idp → Reply × Idp
  rotate (issued response, s) = (issued response, without_refresh value s)
  rotate (reply, s) = (reply, s)

  after_refresh_tokens : RefreshToken → Result String TokenResponse × Idp → Reply × Idp
  unfolding server_error issue_refresh_token rotate
  after_refresh_tokens t (err e, s) = (server_error e, s)
  after_refresh_tokens t (ok response, s) =
      rotate (issue_refresh_token signer app t times.issued secrets.refresh response s)

  refresh_for_user : RefreshToken → Option User → Idp → Reply × Idp
  unfolding after_refresh_tokens issue_tokens refreshed_grant
  refresh_for_user t none s =
      (failed 400 "invalid_grant" "user is inactive or missing", without_refresh value s)
  refresh_for_user t (some u) s =
      after_refresh_tokens t
        (issue_tokens signer app u (refreshed_grant t scope) times.issued secrets s)

  refresh_with_state : RefreshToken → Result String AppState → Idp → Reply × Idp
  unfolding server_error refresh_for_user may_sign_in user_by_id
  refresh_with_state t (err e) s = (server_error e, s)
  refresh_with_state t (ok st) s =
      refresh_for_user t (may_sign_in (user_by_id st.users t.user_id)) s

  -- The refresh token as it stands now.
  unfoldable pub redeem_refresh : Option RefreshToken → Idp → Reply × Idp
  unfolding refresh_with_state remove
  redeem_refresh none s = (
    failed 400 "invalid_grant" "refresh token is invalid, expired, or revoked",
    without_refresh value s,
  )
  redeem_refresh (some t) s =
      if not (ltb times.checked t.expires_at)
      then (
        failed 400 "invalid_grant" "refresh token is invalid, expired, or revoked",
        without_refresh value s,
      )
      else refresh_with_state t state s

module _ (signer : Signer) (texts : Texts) (rfc3339 : ℕ → String) (app : App) (r : TokenRequest)
    (times : Times) (secrets : Secrets) (state : Result String AppState) where
  unfoldable pub redeem_token : String → Idp → Reply × Idp
  unfolding redeem_refresh lookup
  redeem_token scope s =
      redeem_refresh signer app r.refresh_token scope times secrets state
        (lookup s.refresh_tokens r.refresh_token) s

  abbrev refresh_label : String
  refresh_label = "token (refresh_token)"

  unfoldable pub begin_refresh : Idp → Progress × Idp
  unfolding prune check_refresh asked_scope unless_failed go_on redeem_token begin_inject lookup
  begin_refresh s =
      let s' = prune times.pruned s in
      let found = lookup s'.refresh_tokens r.refresh_token in
      unless_failed (check_refresh app r found)
        (λ s''. go_on (redeem_token (asked_scope r found)) (
          begin_inject texts rfc3339 app.slug refresh_label (refresh r.refresh_token) times.injected
            times.delivered s''))
        s'

  -- After the wait, with the scope that was settled before it.
  unfoldable pub resume_refresh : String → Action → Bool → Idp → Progress × Idp
  unfolding go_on redeem_token end_inject
  resume_refresh scope action delivered s = go_on (redeem_token scope) (
      end_inject texts rfc3339 app.slug refresh_label (refresh r.refresh_token) action delivered
        times.delivered s)

  -- The grant of a client for itself.
  unfoldable pub client_grant : AuthCode
  client_grant = record {
    app_slug = "";
    client_id = app.oidc_client_id;
    user_id = "";
    redirect_uri = "";
    nonce = "";
    scope = r.scope;
    code_challenge = "";
    authn = record { time = 0; context = ""; methods = [] };
    session_id = "";
    expires_at = 0;
    faults = no_faults;
    redeeming = false;
    grant_id = "";
  }

  after_client_token : Result String String × Idp → Reply × Idp
  unfolding server_error
  after_client_token (err e, s) = (server_error e, s)
  after_client_token (ok access, s) = (
    issued
        (record { access_token = access; id_token = none; refresh_token = none; scope = r.scope }),
    s,
  )

  client_token : Result String AppState → Idp → Reply × Idp
  unfolding server_error after_client_token mint_access_token client_grant
  client_token (err e) s = (server_error e, s)
  client_token (ok st) s =
      after_client_token
        (mint_access_token signer app "" client_grant times.issued secrets.access s)

  abbrev client_label : String
  client_label = "token (client_credentials)"

  unfoldable pub begin_client : Idp → Progress × Idp
  unfolding prune unless_failed go_on client_token begin_inject
  begin_client s =
      if app.oidc_public_client
      then (
        answered
            (failed 400 "unauthorized_client" "client_credentials requires a confidential client"),
        s,
      )
      else go_on (client_token state) (
          begin_inject texts rfc3339 app.slug client_label client times.injected times.delivered
            (prune times.pruned s))

  unfoldable pub resume_client : Action → Bool → Idp → Progress × Idp
  unfolding go_on client_token end_inject
  resume_client action delivered s =
      go_on (client_token state)
        (end_inject texts rfc3339 app.slug client_label client action delivered times.delivered s)
