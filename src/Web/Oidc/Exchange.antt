-- ===== src/Web/Oidc/Exchange.antt =====
-- handleOIDCToken with grant_type=authorization_code: the redemption of a code.
pub mod Left
pub mod Issues
use scimtest.Prelude.{ℕ, String, Bool, not, ◌&&◌, Option, none, some, ◌==◌, if◌then◌else◌, Result}
use scimtest.Prelude.Dict.{lookup}
use scimtest.Directory.{App, AppState}
use scimtest.Web.Fault.{Texts}
use scimtest.Web.Resilience.{Action}
use scimtest.Web.Oidc.{AuthCode, Idp, Crypto, Secrets, prune, valid_pkce_verifier}
use scimtest.Web.Oidc.Inject.{
  code, Injection, proceed, refused, held, ended, begin_inject, end_inject,
}
use scimtest.Web.Oidc.Token.{
  TokenRequest, Reply, failed, injected, gone, Progress, answered, waiting, Times, Signer,
  redeem_code,
}

-- Whether a code was issued for the app, the client and the redirect URI of a request.
unfoldable pub matches_request : Crypto → App → TokenRequest → AuthCode → Bool
matches_request crypto app r c =
    c.app_slug == app.slug && c.client_id == app.oidc_client_id && c.redirect_uri == r.redirect_uri

unfoldable pub invalid_grant : String → Option Reply
invalid_grant description = some (failed 400 "invalid_grant" description)

-- What is wrong with the presented code, if anything is.
unfoldable pub check_code : Crypto → App → TokenRequest → Option AuthCode → Option Reply
unfolding matches_request valid_pkce_verifier invalid_grant
check_code crypto app r none = invalid_grant "authorization code is invalid or expired"
check_code crypto app r (some c) =
    if c.redeeming
    then invalid_grant "authorization code is invalid or expired"
    else if not (matches_request crypto app r c)
    then invalid_grant "authorization code does not match this request"
    else if not (c.code_challenge == "")
        && not (valid_pkce_verifier crypto c.code_challenge r.code_verifier)
    then invalid_grant "PKCE code verifier is invalid"
    else if c.code_challenge == "" && not (r.code_verifier == "")
    then invalid_grant "code_verifier provided but the authorization request used no code_challenge"
    else none

abbrev pub answer : Reply × Idp → Progress × Idp
answer (r, s) = (answered r, s)

-- The rest of a request after the injection.
unfoldable pub go_on : (Idp → Reply × Idp) → Injection × Idp → Progress × Idp
go_on rest (proceed, s) = answer (rest s)
go_on rest (refused action, s) = (answered (injected action), s)
go_on rest (held action, s) = (waiting action, s)
go_on rest (ended, s) = (answered gone, s)

-- The end of a request that failed its checks.
unfoldable pub unless_failed : Option Reply → (Idp → Progress × Idp) → Idp → Progress × Idp
unless_failed (some r) rest s = (answered r, s)
unless_failed none rest s = rest s

module _ (crypto : Crypto) (signer : Signer) (texts : Texts) (rfc3339 : ℕ → String) (app : App)
    (r : TokenRequest) (times : Times) (secrets : Secrets) (state : Result String AppState) where
  unfoldable pub redeem : Idp → Reply × Idp
  unfolding redeem_code lookup
  redeem s = redeem_code signer app r.code times secrets state (lookup s.auth_codes r.code) s

  abbrev label : String
  label = "token (authorization_code)"

  -- The request, until it is answered or waits.
  unfoldable pub begin_exchange : Idp → Progress × Idp
  unfolding prune check_code unless_failed go_on redeem begin_inject lookup
  begin_exchange s =
      let s' = prune times.pruned s in
      unless_failed (check_code crypto app r (lookup s'.auth_codes r.code))
        (λ s''. go_on redeem (
          begin_inject texts rfc3339 app.slug label (code r.code) times.injected times.delivered
            s''))
        s'

  -- The request after its wait, or after it ended in it.
  unfoldable pub resume_exchange : Action → Bool → Idp → Progress × Idp
  unfolding go_on redeem end_inject
  resume_exchange action delivered s =
      go_on redeem
        (end_inject texts rfc3339 app.slug label (code r.code) action delivered times.delivered s)
