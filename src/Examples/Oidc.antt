-- ===== src/Examples/Oidc.antt =====
-- The theorems on the OIDC endpoints at a short history: a sign-in, an exchange, a refresh and a
-- revocation.
use scimtest.Prelude.{
  ℕ, String, true, false, none, some, [], ok, err, ◌≡◌, ◌≢◌, refl, inl, eq_iff, arith,
}
use scimtest.Prelude.Text.{fields, trim_space}
use scimtest.Prelude.Int.{pos}
use scimtest.Prelude.Dict.{lookup, keep_if}
use scimtest.Directory.{App}
use scimtest.Samples.{hr, directory}
use scimtest.Web.Fault.{Texts}
use scimtest.Web.Resilience.{Action, arm_run}
use scimtest.Web.Resilience.Presets.{no_faults, no_action, resilience_presets}
use scimtest.Web.Oidc.{AuthCode, RefreshToken, Crypto, Secrets, Idp, issue_code, prune}
use scimtest.Web.Oidc.Token.{
  TokenRequest, TokenResponse, Signer, Progress, Times, answered, waiting, issued,
}
use scimtest.Web.Oidc.Exchange.{begin_exchange, resume_exchange}
use scimtest.Web.Oidc.Codes.{Grants}
use scimtest.Web.Oidc.Codes.Exchanges.{begun, resumed, at_once, after_wait, exchange-Grants}
use scimtest.Web.Oidc.Codes.Flow.{Serves, flow-Serves}
use scimtest.Web.Oidc.Codes.Once.{begins, exchange-once}
use scimtest.Web.Oidc.Refresh.{begin_refresh}
use scimtest.Web.Oidc.Rotation
use scimtest.Web.Oidc.Rotation.{Renews, scope_in, refresh-rotates, refresh-once}
use scimtest.Web.Oidc.Rotation.Scopes.{Allows, refresh-narrows}
use scimtest.Web.Oidc.Revoke.{revoke}
use scimtest.Web.Oidc.Revoke.Ends.{other_access, other_refresh, revoke-ends}
use scimtest.Web.Oidc.Steps.{Request, IsFresh, stay, then, revoking}

abbrev crypto : Crypto
crypto = record { s256 = λ s. s; byte_length = λ s. 0; query_unescape = λ s. some s }

abbrev signer : Signer
signer = record {
  id_token = λ app u c now. ok "id";
  access_token = λ app subject c jti now. ok jti;
}

abbrev texts : Texts
texts = record { duration = λ d. "1s"; itoa = λ n. "503"; after_last_colon = λ s. s }

abbrev clock : ℕ → String
clock now = "2024-01-01T00:00:00Z"

abbrev portal : App
portal = record hr { protocol = "oidc"; oidc_client_id = "web"; oidc_client_secret = "secret" }

abbrev sign_in : AuthCode
sign_in = record {
  app_slug = "hr";
  client_id = "web";
  user_id = "usr_ada";
  redirect_uri = "https://hr.example/back";
  nonce = "n";
  scope = "openid offline_access";
  code_challenge = "";
  authn = record { time = 0; context = ""; methods = [] };
  session_id = "";
  expires_at = 0;
  faults = no_faults;
  redeeming = false;
  grant_id = "";
}

abbrev drawn : String → String → Secrets
drawn access refresh = record {
  code = ok "c1";
  grant_id = ok "g1";
  access = ok access;
  refresh = ok refresh;
}

abbrev form : TokenRequest
form = record {
  code = "c1";
  redirect_uri = "https://hr.example/back";
  code_verifier = "";
  refresh_token = "r1";
  scope = "openid";
}

abbrev at : ℕ → Times
at n = record { pruned = n; injected = n; delivered = n; checked = n; issued = n }

abbrev asking : String → String → ℕ → Request
asking access refresh n = record {
  app = portal;
  form = form;
  times = at n;
  secrets = record (drawn access refresh) { code = err "none" };
  state = ok directory;
}

abbrev nothing : Idp
nothing = record { auth_codes = []; access_tokens = []; refresh_tokens = []; runs = [] }

abbrev signed_in : Idp
signed_in = (issue_code 1 sign_in (drawn "a0" "r0") nothing).1

abbrev first : Request
first = asking "a1" "r1" 2

abbrev tokens : TokenResponse
tokens = record {
  access_token = "a1";
  id_token = some "id";
  refresh_token = some "r1";
  scope = "openid offline_access";
}

exchange_issues : (begun crypto signer texts clock first signed_in).0 ≡ answered (issued tokens)
unfolding begin_exchange issue_code fields
exchange_issues = refl

-- The same with a slow token endpoint: the exchange waits, and a revocation of an unknown token runs
-- meanwhile.
abbrev slow : Idp
slow = record signed_in {
  runs = (arm_run texts clock resilience_presets "hr" "slow-token" (pos 1) (ok "run1") 0 []).1;
}

abbrev pause : Action
pause = record no_action { run_id = "run1"; delay = pos 3_000_000_000 }

exchange_waits : (begun crypto signer texts clock first slow).0 ≡ waiting pause
unfolding begin_exchange issue_code arm_run trim_space
exchange_waits = refl

abbrev meanwhile : Idp
meanwhile = revoke portal "unknown" 3 (begun crypto signer texts clock first slow).1

slow_exchange_issues :
    (resumed crypto signer texts clock first pause true meanwhile).0 ≡ answered (issued tokens)
unfolding resume_exchange begin_exchange issue_code arm_run revoke fields trim_space
slow_exchange_issues = refl

-- What a request draws is neither its code nor its refresh token.
draws_no_code : IsFresh "c1" first.secrets
draws_no_code = (ground arith, ground (arith, eq_iff "r1" "c1"))

exchange-Grants_example : Grants crypto signer texts clock first slow
exchange-Grants_example =
    exchange-Grants crypto signer texts clock first slow
      (resumed crypto signer texts clock first pause true meanwhile) tokens draws_no_code
      (after_wait pause true meanwhile exchange_waits (then stay (revoking portal "unknown" 3)))
      slow_exchange_issues

-- A revocation comes between the sign-in and the exchange.
abbrev later : Idp
later = revoke portal "unknown" 2 signed_in

later_exchange_issues : (begun crypto signer texts clock first later).0 ≡ answered (issued tokens)
unfolding begin_exchange issue_code revoke fields
later_exchange_issues = refl

flow-Serves_example :
    Serves crypto signer texts clock first (record sign_in { expires_at = 300_000_000_001 })
flow-Serves_example =
    flow-Serves crypto signer texts clock first 1 sign_in (drawn "a0" "r0") nothing later
      (begun crypto signer texts clock first later) tokens refl draws_no_code
      (then stay (revoking portal "unknown" 2)) at_once later_exchange_issues

abbrev again : Request
again = asking "a2" "r2" 4

exchange-once_example :
    (begun crypto signer texts clock again
      (revoke portal "unknown" 3 (begun crypto signer texts clock first signed_in).1)).0
    ≢ answered (issued tokens)
exchange-once_example =
    exchange-once crypto signer texts clock first again signed_in
      (revoke portal "unknown" 3 (begun crypto signer texts clock first signed_in).1)
      (begun crypto signer texts clock first signed_in)
      (begun crypto signer texts clock again
        (revoke portal "unknown" 3 (begun crypto signer texts clock first signed_in).1))
      tokens tokens refl draws_no_code begins exchange_issues
      (then stay (revoking portal "unknown" 3)) begins

-- The refresh token of the exchange is used twice.
abbrev exchanged : Idp
exchanged = (begun crypto signer texts clock first signed_in).1

abbrev renewing : Request
renewing = asking "a2" "r2" 5

abbrev renewed_tokens : TokenResponse
renewed_tokens = record {
  access_token = "a2";
  id_token = some "id";
  refresh_token = some "r2";
  scope = "openid";
}

renewal : Request → Idp → Progress × Idp
renewal q s = begin_refresh signer texts clock q.app q.form q.times q.secrets q.state s

renewal_issues : (renewal renewing exchanged).0 ≡ answered (issued renewed_tokens)
unfolding renewal begin_refresh begin_exchange issue_code fields
renewal_issues = refl

draws_no_r1 : IsFresh "r1" renewing.secrets
draws_no_r1 = (ground arith, ground (arith, eq_iff "r2" "r1"))

refresh-rotates_example :
    Renews crypto signer texts clock renewing
      (scope_in crypto signer texts clock renewing exchanged)
      (lookup exchanged.refresh_tokens "r1")
      renewed_tokens
      (renewal renewing exchanged).1
unfolding renewal
refresh-rotates_example =
    refresh-rotates crypto signer texts clock renewing exchanged
      (scope_in crypto signer texts clock renewing exchanged) (renewal renewing exchanged)
      renewed_tokens draws_no_r1.1 Rotation.begins renewal_issues

refresh-once_example :
    (renewal renewing (revoke portal "unknown" 6 (renewal renewing exchanged).1)).0
    ≢ answered (issued renewed_tokens)
unfolding renewal
refresh-once_example =
    let since = revoke portal "unknown" 6 (renewal renewing exchanged).1 in
    refresh-once crypto signer texts clock renewing renewing exchanged since
      (scope_in crypto signer texts clock renewing exchanged)
      (scope_in crypto signer texts clock renewing since) (renewal renewing exchanged)
      (renewal renewing since) renewed_tokens renewed_tokens refl draws_no_r1 draws_no_r1
      Rotation.begins renewal_issues (then stay (revoking portal "unknown" 6)) Rotation.begins

refresh-narrows_example :
    (t : RefreshToken) × (lookup exchanged.refresh_tokens "r1" ≡ some t)
    × Allows portal 5 (scope_in crypto signer texts clock renewing exchanged) t
unfolding renewal
refresh-narrows_example =
    refresh-narrows crypto signer texts clock renewing exchanged (renewal renewing exchanged).0 refl
      (inl (renewed_tokens, renewal_issues))

-- The token that the exchange stored.
abbrev stored : RefreshToken
stored = record {
  app_slug = "hr";
  client_id = "web";
  user_id = "usr_ada";
  scope = "openid offline_access";
  redirect_uri = "https://hr.example/back";
  code_challenge = "";
  authn = record { time = 0; context = ""; methods = [] };
  grant_id = "g1";
  issued_at = 2;
  session_id = "";
  expires_at = 86_400_000_000_002;
  redeeming = false;
}

r1_is_stored :
    (lookup (prune 5 exchanged).access_tokens "r1" ≡ none)
    × (lookup (prune 5 exchanged).refresh_tokens "r1" ≡ some stored)
unfolding prune begin_exchange issue_code fields
r1_is_stored = (refl, refl)

revoke-ends_example :
    (lookup (revoke portal "r1" 5 exchanged).access_tokens "a1"
      ≡ keep_if (other_access portal "g1") (lookup (prune 5 exchanged).access_tokens "a1"))
    × (lookup (revoke portal "r1" 5 exchanged).refresh_tokens "a1"
        ≡ keep_if (other_refresh portal "g1") (lookup (prune 5 exchanged).refresh_tokens "a1"))
revoke-ends_example =
    revoke-ends portal "r1" 5 exchanged stored "a1" r1_is_stored.0 r1_is_stored.1 refl refl
      (ground (arith, eq_iff "g1" ""))
