-- ===== src/Web/Oidc.antt =====
-- The credentials of the OIDC provider (internal/web/oidc.go): authorization codes, access tokens and
-- refresh tokens, each in a map by its value that a lock guards, and the checks of a client.
pub mod Inject
pub mod Token
pub mod Exchange
pub mod Refresh
pub mod Revoke
pub mod Remains
pub mod Steps
pub mod Codes
pub mod Rotation
use Prim.Native.Char.{Char, code}
use Prim.Native.String.{String}
use scimtest.Prelude.{
  ℕ, ◌+◌, Bool, true, false, not, ◌&&◌, ◌||◌, Option, none, some, List, [], ◌∷◌, any, ltb, leb, eqb,
  ◌==◌, if◌then◌else◌, from_option, trim_space, fields, Result,
}
use scimtest.Prelude.Dict.{Dict, insert, retain}
use scimtest.Directory.{App, User}
use scimtest.Web.Fault.{FaultOptions}
use scimtest.Web.Resilience.{Run}

pub record AuthnStatement : Type 0 where
  pub time : ℕ
  pub context : String
  pub methods : List String

-- authCode. A time is a number of nanoseconds.
pub record AuthCode : Type 0 where
  pub app_slug : String
  pub client_id : String
  pub user_id : String
  pub redirect_uri : String
  pub nonce : String
  pub scope : String
  pub code_challenge : String
  pub authn : AuthnStatement
  pub session_id : String
  pub expires_at : ℕ
  pub faults : FaultOptions
  pub redeeming : Bool
  pub grant_id : String

pub record RefreshToken : Type 0 where
  pub app_slug : String
  pub client_id : String
  pub user_id : String
  pub scope : String
  pub redirect_uri : String
  pub code_challenge : String
  pub authn : AuthnStatement
  pub grant_id : String
  pub issued_at : ℕ
  pub session_id : String
  pub expires_at : ℕ
  pub redeeming : Bool

pub record AccessToken : Type 0 where
  pub app_slug : String
  pub client_id : String
  pub user_id : String
  pub grant_id : String
  pub scope : String
  pub audience : String
  pub issued_at : ℕ
  pub expires_at : ℕ
  pub faults : FaultOptions

-- The part of webApp that the token endpoint changes, with the fault injection runs.
pub record Idp : Type 0 where
  pub auth_codes : Dict AuthCode
  pub access_tokens : Dict AccessToken
  pub refresh_tokens : Dict RefreshToken
  pub runs : Dict Run

-- refreshTokenLifetime, accessTokenLifetime, and that of a code, in nanoseconds
abbrev pub refresh_token_lifetime : ℕ
refresh_token_lifetime = 86_400_000_000_000

abbrev pub access_token_lifetime : ℕ
access_token_lifetime = 3_600_000_000_000

abbrev pub code_lifetime : ℕ
code_lifetime = 300_000_000_000

-- What the code takes from Go's library: base64url of SHA-256, len of a string, url.QueryUnescape.
pub record Crypto : Type 0 where
  pub s256 : String → String
  pub byte_length : String → ℕ
  pub query_unescape : String → Option String

-- pruneExpiredOIDCCredentials
unfoldable pub prune : ℕ → Idp → Idp
unfolding retain
prune now s = record s {
  auth_codes = retain (λ c. ltb now c.expires_at) s.auth_codes;
  access_tokens = retain (λ t. ltb now t.expires_at) s.access_tokens;
  refresh_tokens = retain (λ t. ltb now t.expires_at) s.refresh_tokens;
}

-- hasOIDCScope
unfoldable pub has_scope : String → String → Bool
has_scope scope target = any (λ v. v == target) (fields scope)

-- The characters that a verifier may have.
is_unreserved : Char → Bool
is_unreserved ch =
    let c = code ch in
    (leb 0x61 c && leb c 0x7a)
    || (leb 0x41 c && leb c 0x5a)
    || (leb 0x30 c && leb c 0x39)
    || eqb c 0x2d
    || eqb c 0x2e
    || eqb c 0x5f
    || eqb c 0x7e

all_unreserved : String → Bool
unfolding is_unreserved
all_unreserved String.[] = true
all_unreserved (String.◌∷◌ c s) = is_unreserved c && all_unreserved s

unfoldable pub valid_pkce_verifier : Crypto → String → String → Bool
unfolding all_unreserved
valid_pkce_verifier crypto challenge verifier =
    leb 43 (crypto.byte_length verifier)
    && leb (crypto.byte_length verifier) 128
    && all_unreserved verifier
    && crypto.s256 verifier == challenge

-- What a request says of its client: the Basic credentials, if there are any, and the form's.
pub record Credentials : Type 0 where
  pub basic : Option (String × String)
  pub client_id : String
  pub client_secret : String

abbrev unescaped : Crypto → String → String
unescaped crypto s = from_option (crypto.query_unescape s) s

presented : Crypto → Credentials → String × String
presented crypto c = elim c.basic [
  | some (id, secret) ↦ (unescaped crypto id, unescaped crypto secret)
  | none ↦ (c.client_id, c.client_secret)
]

unfoldable pub client_authenticated : Crypto → Credentials → App → Bool
unfolding presented
client_authenticated crypto c app =
    let (id, secret) = presented crypto c in
    if app.oidc_public_client
    then c.client_id == app.oidc_client_id
    else id == app.oidc_client_id && secret == app.oidc_client_secret

-- accessTokenAudience
unfoldable pub access_token_audience : App → String
access_token_audience app =
    let audience = trim_space app.oidc_access_token_audience in
    if not (audience == "") then audience else app.oidc_client_id

-- The user of a grant, if it may still sign in.
unfoldable pub may_sign_in : Option User → Option User
may_sign_in none = none
may_sign_in (some u) = if not u.active || u.deleted then none else some u

-- The values that randomSecret gives a request.
pub record Secrets : Type 0 where
  pub code : Result String String
  pub grant_id : Result String String
  pub access : Result String String
  pub refresh : Result String String

-- The code of a sign-in, as issueOIDCCode stores it.
unfoldable pub new_code : ℕ → AuthCode → AuthCode
new_code now c = record c { expires_at = now + code_lifetime; redeeming = false; grant_id = "" }

unfoldable pub store_code : ℕ → AuthCode → Result String String → Idp → Result String String × Idp
unfolding new_code insert
store_code now c (Result.err e) s = (Result.err e, s)
store_code now c (Result.ok v) s =
    (Result.ok v, record s { auth_codes = insert s.auth_codes v (new_code now c) })

-- issueOIDCCode, from its lock on, for the parameters of a sign-in.
unfoldable pub issue_code : ℕ → AuthCode → Secrets → Idp → Result String String × Idp
unfolding prune store_code
issue_code now c secrets s = store_code now c secrets.code (prune now s)
