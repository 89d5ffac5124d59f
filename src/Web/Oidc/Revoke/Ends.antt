-- ===== src/Web/Oidc/Revoke/Ends.antt =====
-- What a revocation ends.
use scimtest.Prelude.{
  ℕ, String, Bool, not, ◌&&◌, none, some, ◌==◌, ◌≡◌, ◌≢◌, ap, ◌∙◌, eq_iff, arith,
}
use scimtest.Prelude.Dict.{Dict, lookup, remove, retain, keep_if, lookup-remove, lookup-retain}
use scimtest.Directory.{App}
use scimtest.Web.Oidc.{RefreshToken, AccessToken, Idp, prune}
use scimtest.Web.Oidc.Revoke.{
  drop_grant, revoke_refresh, revoke_access, revoke_client_token, revoke,
}

-- The tokens that are not of a grant of an app.
abbrev pub other_access : App → String → AccessToken → Bool
other_access app grant_id t = not (t.app_slug == app.slug && t.grant_id == grant_id)

abbrev pub other_refresh : App → String → RefreshToken → Bool
other_refresh app grant_id t = not (t.app_slug == app.slug && t.grant_id == grant_id)

-- An entry that a test drops may be removed before.
remove-retain :
    {V : Type 0} (p : V → Bool) (m : Dict V) (value k : String)
    → keep_if p (lookup m value) ≡ none
    → lookup (retain p (remove m value)) k ≡ keep_if p (lookup m k)
remove-retain p m value k dropped =
    ground
      (arith, lookup-retain p (remove m value) k, lookup-remove m value k, eq_iff value k, dropped)

module _ (app : App) (value : String) where
  of_grant :
      (t : RefreshToken)
      → t.app_slug ≡ app.slug
      → keep_if (other_refresh app t.grant_id) (some t) ≡ none
  of_grant t slug = ground (arith, slug, eq_iff t.app_slug app.slug, eq_iff t.grant_id t.grant_id)

  revoke_refresh-grant :
      (t : RefreshToken) (s : Idp)
      → t.app_slug ≡ app.slug
      → t.client_id ≡ app.oidc_client_id
      → t.grant_id ≢ ""
      → revoke_refresh app value (some t) s
        ≡ drop_grant app t.grant_id (record s { refresh_tokens = remove s.refresh_tokens value })
  unfolding revoke_refresh
  revoke_refresh-grant t s slug client grant = ground (
    arith,
    slug,
    client,
    grant,
    eq_iff t.app_slug app.slug,
    eq_iff t.client_id app.oidc_client_id,
    eq_iff t.grant_id "",
  )

  revoke-grant :
      (now : ℕ) (s : Idp) (t : RefreshToken)
      → lookup (prune now s).access_tokens value ≡ none
      → lookup (prune now s).refresh_tokens value ≡ some t
      → t.app_slug ≡ app.slug
      → t.client_id ≡ app.oidc_client_id
      → t.grant_id ≢ ""
      → revoke app value now s
        ≡ drop_grant app t.grant_id
            (record (prune now s) { refresh_tokens = remove (prune now s).refresh_tokens value })
  unfolding revoke revoke_client_token revoke_access
  revoke-grant now s t no_access found slug client grant =
      ap (λ o. revoke_access app value o (prune now s)) no_access
      ∙ ap (λ o. revoke_refresh app value o (prune now s)) found
      ∙ revoke_refresh-grant t (prune now s) slug client grant

  -- A client that revokes a stored refresh token of its own, which has a grant ID, ends the grant: of the access and
  -- refresh tokens that were not expired, those of the app with the grant of the presented token are
  -- gone, and every other one is there as it was. The value is that of no access token.
  pub revoke-ends :
      (now : ℕ) (s : Idp) (t : RefreshToken) (k : String)
      → lookup (prune now s).access_tokens value ≡ none
      → lookup (prune now s).refresh_tokens value ≡ some t
      → t.app_slug ≡ app.slug
      → t.client_id ≡ app.oidc_client_id
      → t.grant_id ≢ ""
      → (lookup (revoke app value now s).access_tokens k
          ≡ keep_if (other_access app t.grant_id) (lookup (prune now s).access_tokens k))
        × (lookup (revoke app value now s).refresh_tokens k
            ≡ keep_if (other_refresh app t.grant_id) (lookup (prune now s).refresh_tokens k))
  unfolding drop_grant
  revoke-ends now s t k no_access found slug client grant =
      let after = revoke-grant now s t no_access found slug client grant in
      (
        ap (λ s. lookup s.access_tokens k) after
            ∙ lookup-retain (other_access app t.grant_id) (prune now s).access_tokens k,
        ap (λ s. lookup s.refresh_tokens k) after
            ∙ remove-retain (other_refresh app t.grant_id) (prune now s).refresh_tokens value k
                (ap (keep_if (other_refresh app t.grant_id)) found ∙ of_grant t slug),
      )
