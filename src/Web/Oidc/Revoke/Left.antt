-- ===== src/Web/Oidc/Revoke/Left.antt =====
-- What revocations and questions about a token leave of a code and of a refresh token.
use scimtest.Prelude.{ℕ, String, not, ◌||◌, Option, none, some, List, ◌==◌, split_if}
use scimtest.Prelude.Dict.{lookup, remove}
use scimtest.Directory.{App, User}
use scimtest.Web.Oidc.{AuthCode, RefreshToken, AccessToken, Idp, prune}
use scimtest.Web.Oidc.Revoke.{
  drop_grant, revoke_refresh, revoke_access, revoke_client_token, revoke, revoke_oidc_tokens,
  introspect, userinfo,
}
use scimtest.Web.Oidc.Remains.{Left, AfterLeft, prune-Left, without_refresh-Left, keep_refresh-Left}

module _ (v : String) (o : Option AuthCode) (p : Option RefreshToken) where
  drop_grant-Left :
      (app : App) (grant_id : String) (s : Idp)
      → Left v o p s
      → Left v o p (drop_grant app grant_id s)
  unfolding drop_grant
  drop_grant-Left app grant_id s h = keep_refresh-Left v o p _ s h

  revoke_refresh-Left :
      (app : App) (value : String) (found : Option RefreshToken) (s : Idp)
      → Left v o p s
      → Left v o p (revoke_refresh app value found s)
  unfolding revoke_refresh
  revoke_refresh-Left app value none s h = h
  revoke_refresh-Left app value (some t) s h =
      let s' = record s { refresh_tokens = remove s.refresh_tokens value } in
      let h' = without_refresh-Left v o p value s h in
      split_if (Left v o p)
        (not (t.app_slug == app.slug) || not (t.client_id == app.oidc_client_id)) _ _ (λ _. h)
        (λ _.
          split_if (Left v o p) (t.grant_id == "") _ _ (λ _. h')
            (λ _. drop_grant-Left app t.grant_id s' h'))

  revoke_access-Left :
      (app : App) (value : String) (found : Option AccessToken) (s : Idp)
      → Left v o p s
      → Left v o p (revoke_access app value found s)
  unfolding revoke_access
  revoke_access-Left app value none s h =
      revoke_refresh-Left app value (lookup s.refresh_tokens value) s h
  revoke_access-Left app value (some t) s h =
      split_if (Left v o p) (t.app_slug == app.slug) _ _ (λ _. h)
        (λ _. revoke_refresh-Left app value (lookup s.refresh_tokens value) s h)

  pub revoke-Left :
      (app : App) (value : String) (now : ℕ) (s : Idp)
      → Left v o p s
      → Left v o p (revoke app value now s)
  unfolding revoke revoke_client_token
  revoke-Left app value now s h =
      let s' = prune now s in
      revoke_access-Left app value (lookup s'.access_tokens value) s' (prune-Left v o p now s h)

  pub revoke_oidc_tokens-Left :
      (slug user_id : String) (s : Idp)
      → Left v o p s
      → AfterLeft v o p (revoke_oidc_tokens slug user_id s)
  unfolding revoke_oidc_tokens
  revoke_oidc_tokens-Left slug user_id s h = keep_refresh-Left v o p _ s h

  pub introspect-Left :
      (app : App) (users : List User) (value : String) (now : ℕ) (s : Idp)
      → Left v o p s
      → AfterLeft v o p (introspect app users value now s)
  unfolding introspect
  introspect-Left app users value now s h = prune-Left v o p now s h

  pub userinfo-Left :
      (app : App) (users : List User) (value : String) (now : ℕ) (s : Idp)
      → Left v o p s
      → AfterLeft v o p (userinfo app users value now s)
  unfolding userinfo
  userinfo-Left app users value now s h = prune-Left v o p now s h
