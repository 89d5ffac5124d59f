-- ===== src/Web/Oidc/Revoke.antt =====
-- handleOIDCRevoke, revokeOIDCTokens, introspectToken and handleOIDCUserinfo: what ends a token, and
-- what asks for one.
pub mod Left
pub mod Ends
use scimtest.Prelude.{
  ℕ, ◌+◌, String, Bool, not, ◌&&◌, ◌||◌, Option, none, some, List, ◌==◌, if◌then◌else◌, count_if,
}
use scimtest.Prelude.Dict.{lookup, remove, retain}
use scimtest.Directory.{App, User, user_by_id}
use scimtest.Web.Oidc.{RefreshToken, AccessToken, Idp, prune, may_sign_in}

-- The tokens of a grant of an app.
unfoldable pub drop_grant : App → String → Idp → Idp
unfolding retain
drop_grant app grant_id s = record s {
  access_tokens =
      retain (λ t. not (t.app_slug == app.slug && t.grant_id == grant_id)) s.access_tokens;
  refresh_tokens =
      retain (λ t. not (t.app_slug == app.slug && t.grant_id == grant_id)) s.refresh_tokens;
}

unfoldable pub revoke_refresh : App → String → Option RefreshToken → Idp → Idp
unfolding drop_grant remove
revoke_refresh app value none s = s
revoke_refresh app value (some t) s =
    let s' = record s { refresh_tokens = remove s.refresh_tokens value } in
    if not (t.app_slug == app.slug) || not (t.client_id == app.oidc_client_id)
    then s
    else if t.grant_id == ""
    then s'
    else drop_grant app t.grant_id s'

unfoldable pub revoke_access : App → String → Option AccessToken → Idp → Idp
unfolding revoke_refresh lookup remove
revoke_access app value none s = revoke_refresh app value (lookup s.refresh_tokens value) s
revoke_access app value (some t) s =
    if t.app_slug == app.slug
    then record s { access_tokens = remove s.access_tokens value }
    else revoke_refresh app value (lookup s.refresh_tokens value) s

-- revokeClientToken
unfoldable pub revoke_client_token : App → String → Idp → Idp
unfolding revoke_access lookup
revoke_client_token app value s = revoke_access app value (lookup s.access_tokens value) s

-- handleOIDCRevoke, for a client that was authenticated.
unfoldable pub revoke : App → String → ℕ → Idp → Idp
unfolding prune revoke_client_token
revoke app value now s = revoke_client_token app value (prune now s)

abbrev belongs : String → String → String → String → Bool
belongs slug user_id token_slug token_user =
    token_slug == slug && (user_id == "" || token_user == user_id)

-- revokeOIDCTokens, with the number of tokens that it deletes.
unfoldable pub revoke_oidc_tokens : String → String → Idp → ℕ × Idp
unfolding retain
revoke_oidc_tokens slug user_id s = (
  count_if (λ e. belongs slug user_id e.1.app_slug e.1.user_id) s.access_tokens
      + count_if (λ e. belongs slug user_id e.1.app_slug e.1.user_id) s.refresh_tokens,
  record s {
    access_tokens = retain (λ t. not (belongs slug user_id t.app_slug t.user_id)) s.access_tokens;
    refresh_tokens = retain (λ t. not (belongs slug user_id t.app_slug t.user_id)) s.refresh_tokens;
  },
)

-- What an introspection says of a live token: its client, scope, times, audience and subject, and the
-- user's name.
pub record Introspection : Type 0 where
  pub client_id : String
  pub scope : String
  pub issued_at : ℕ
  pub expires_at : ℕ
  pub audience : String
  pub subject : String
  pub username : String

of_user : Introspection → Option User → Option Introspection
of_user i none = none
of_user i (some u) = some (record i { subject = u.id; username = u.username })

introspect_for : List User → String → Introspection → Option Introspection
unfolding of_user may_sign_in user_by_id
introspect_for users user_id i =
    if user_id == "" then some i else of_user i (may_sign_in (user_by_id users user_id))

unfoldable pub introspect_refresh : App → List User → Option RefreshToken → Option Introspection
unfolding introspect_for
introspect_refresh app users none = none
introspect_refresh app users (some t) =
    if t.app_slug == app.slug && t.client_id == app.oidc_client_id
    then introspect_for users t.user_id (record {
      client_id = t.client_id;
      scope = t.scope;
      issued_at = t.issued_at;
      expires_at = t.expires_at;
      audience = "";
      subject = "";
      username = "";
    })
    else none

unfoldable pub introspect_access :
    App → List User → Option RefreshToken → Option AccessToken → Option Introspection
unfolding introspect_for introspect_refresh
introspect_access app users refresh none = introspect_refresh app users refresh
introspect_access app users refresh (some t) =
    if t.app_slug == app.slug
    then introspect_for users t.user_id (record {
      client_id = t.client_id;
      scope = t.scope;
      issued_at = t.issued_at;
      expires_at = t.expires_at;
      audience = t.audience;
      subject = t.client_id;
      username = "";
    })
    else introspect_refresh app users refresh

-- handleOIDCIntrospect: `none` is an inactive token.
unfoldable pub introspect : App → List User → String → ℕ → Idp → Option Introspection × Idp
unfolding prune introspect_access lookup
introspect app users value now s =
    let s' = prune now s in
    (
      introspect_access app users (lookup s'.refresh_tokens value) (lookup s'.access_tokens value),
      s',
    )

user_of : App → List User → Option AccessToken → Option (User × AccessToken)
unfolding may_sign_in user_by_id
user_of app users none = none
user_of app users (some t) =
    if not (t.app_slug == app.slug) || t.user_id == ""
    then none
    else elim (may_sign_in (user_by_id users t.user_id)) [ none ↦ none | some u ↦ some (u, t) ]

-- handleOIDCUserinfo: whose claims it serves, and the token that it serves them for.
unfoldable pub userinfo : App → List User → String → ℕ → Idp → Option (User × AccessToken) × Idp
unfolding prune user_of lookup
userinfo app users value now s =
    let s' = prune now s in (user_of app users (lookup s'.access_tokens value), s')
