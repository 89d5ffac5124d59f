-- ===== src/Web/Oidc/Refresh/Issues.antt =====
-- What a refresh that issues tokens stores and deletes.
use scimtest.Prelude.{
  ℕ, ◌+◌, ◌<◌, String, true, false, not, Option, none, some, List, [], ◌∷◌, ltb, split_if, Result,
  ok, err, ◌≡◌, ◌≢◌, refl, ap, subst, eq_iff, arith,
}
use scimtest.Prelude.Dict.{
  Dict, lookup, insert, remove, lookup-insert, lookup-remove, lookup-remove_self,
}
use scimtest.Directory.{App, AppState, User, user_by_id}
use scimtest.Web.Oidc.{RefreshToken, Idp, Secrets, may_sign_in, refresh_token_lifetime}
use scimtest.Web.Oidc.Remains.{unmarked_refresh}
use scimtest.Web.Oidc.Token.{
  TokenResponse, Times, Signer, new_access_token, issue_tokens, issue_refresh_token,
}
use scimtest.Web.Oidc.Token.Issues.{Issues, Issues-map, Issues-with, SignsIn, may_sign_in-some}
use scimtest.Web.Oidc.Token.Minted.{Minted, issue_tokens-Minted}
use scimtest.Web.Oidc.Refresh.{
  refreshed_grant, rotate, after_refresh_tokens, refresh_for_user, refresh_with_state,
  redeem_refresh,
}

-- A token for as long again, from a time on.
abbrev pub renewed : RefreshToken → ℕ → RefreshToken
renewed t now = record t { issued_at = now; expires_at = now + refresh_token_lifetime }

-- The presented value is gone, and the response's is stored, with what it was but for the times.
unfoldable pub Rotates : String → ℕ → RefreshToken → TokenResponse → Idp → Type 0
Rotates value now t x s =
    (w : String) × (t' : RefreshToken) × (x.refresh_token ≡ some w)
    × (lookup s.refresh_tokens value ≡ none)
    × (lookup s.refresh_tokens w ≡ some t')
    × (unmarked_refresh t' ≡ unmarked_refresh (renewed t now))

-- The access token of the response is stored, for the user and the grant of the refresh token and
-- the scope of the request.
unfoldable pub Carries : Signer → App → String → ℕ → RefreshToken → TokenResponse → Idp → Type 0
Carries signer app scope now t x s =
    (x.scope ≡ scope)
    × (lookup s.access_tokens x.access_token
        ≡ some (new_access_token signer app t.user_id (refreshed_grant t scope) now))

lookup-rotated :
    {V : Type 0} (m : Dict V) (w v : String) (x : V)
    → w ≢ v
    → lookup (remove (insert m w x) v) w ≡ some x
lookup-rotated m w v x h =
    ground (arith, lookup-remove (insert m w x) v w, lookup-insert m w w x, eq_iff v w, eq_iff w w)

-- An active user that is not deleted.
abbrev Active : List User → String → Type 0
Active users id =
    (u : User) × (user_by_id users id ≡ some u) × (u.active ≡ true) × (u.deleted ≡ false)

user_by_id-id :
    (users : List User) (id : String) (u : User) → user_by_id users id ≡ some u → u.id ≡ id
unfolding user_by_id
user_by_id-id [] id u e = ground (arith, e)
user_by_id-id (w ∷ users) id u e = ground (arith, e, eq_iff w.id id, user_by_id-id users id u)

-- What a refresh that issues tokens asks of the presented token, and does.
unfoldable pub Refreshes :
    Signer
    → App
    → String
    → String
    → Times
    → Result String AppState
    → RefreshToken
    → TokenResponse
    → Idp
    → Type 0
Refreshes signer app value scope times state t x s =
    (times.checked < t.expires_at)
    × SignsIn state t.user_id
    × Rotates value times.issued t x s
    × Carries signer app scope times.issued t x s

module _ (signer : Signer) (app : App) (value scope : String) (times : Times) (secrets : Secrets)
    (fresh : secrets.refresh ≢ ok value) where
  replaces :
      (t : RefreshToken) (state : Result String AppState) (new : Result String String)
      (r : TokenResponse) (s : Idp)
      → new ≢ ok value
      → Carries signer app scope times.issued t r s
      → Issues
          (λ x s'. Rotates value times.issued t x s' × Carries signer app scope times.issued t x s')
          (rotate signer app value scope times secrets state
            (issue_refresh_token signer app t times.issued new r s))
  unfolding rotate issue_refresh_token Rotates Carries
  replaces t state (err e) r s other carries = tt
  replaces t state (ok w) r s other carries =
      let new = renewed t times.issued in
      (
        (
          w,
          new,
          refl,
          lookup-remove_self (insert s.refresh_tokens w new) value,
          lookup-rotated s.refresh_tokens w value new (λ e. other (ap ok e)),
          refl,
        ),
        carries,
      )

  after_refresh_tokens-replaces :
      (t : RefreshToken) (state : Result String AppState)
      (tokens : Result String TokenResponse × Idp)
      → Minted (new_access_token signer app t.user_id (refreshed_grant t scope) times.issued) tokens
      → Issues
          (λ x s'. Rotates value times.issued t x s' × Carries signer app scope times.issued t x s')
          (after_refresh_tokens signer app value scope times secrets state t tokens)
  unfolding after_refresh_tokens
  after_refresh_tokens-replaces t state (err e, s) minted = tt
  after_refresh_tokens-replaces t state (ok r, s) minted =
      replaces t state secrets.refresh r s fresh
        (unfold Carries new_access_token refreshed_grant in minted)

  refresh_for_user-replaces :
      (t : RefreshToken) (state : Result String AppState) (users : List User) (found : Option User)
      (s : Idp)
      → may_sign_in (user_by_id users t.user_id) ≡ found
      → Issues
          (λ x s'.
            Active users t.user_id
            × (Rotates value times.issued t x s' × Carries signer app scope times.issued t x s'))
          (refresh_for_user signer app value scope times secrets state t found s)
  unfolding refresh_for_user
  refresh_for_user-replaces t state users none s e = tt
  refresh_for_user-replaces t state users (some u) s e =
      let (found, active, kept) = may_sign_in-some (user_by_id users t.user_id) u e in
      let grant = refreshed_grant t scope in
      let tokens = issue_tokens signer app u grant times.issued secrets s in
      Issues-with (Active users t.user_id)
        (λ x s'. Rotates value times.issued t x s' × Carries signer app scope times.issued t x s')
        (after_refresh_tokens signer app value scope times secrets state t tokens)
        (u, found, active, kept)
        (after_refresh_tokens-replaces t state tokens (
          subst (λ id. Minted (new_access_token signer app id grant times.issued) tokens)
            (user_by_id-id users t.user_id u found)
            (issue_tokens-Minted signer app u grant times.issued secrets s)))

  refresh_with_state-Refreshes :
      (t : RefreshToken) (state' state : Result String AppState) (s : Idp)
      → times.checked < t.expires_at
      → Issues
          (Refreshes signer app value scope times state t)
          (refresh_with_state signer app value scope times secrets state' t state s)
  unfolding refresh_with_state Refreshes SignsIn
  refresh_with_state-Refreshes t state' (err e) s live = tt
  refresh_with_state-Refreshes t state' (ok st) s live =
      Issues-map _ (Refreshes signer app value scope times (ok st) t)
        (refresh_for_user signer app value scope times secrets state' t
          (may_sign_in (user_by_id st.users t.user_id)) s)
        (λ x s' ((u, found, active, kept), (rotates, carries)).
          (live, (st, u, refl, found, active, kept), rotates, carries))
        (refresh_for_user-replaces t state' st.users (may_sign_in (user_by_id st.users t.user_id)) s
          refl)

  pub redeem_refresh-Refreshes :
      (state : Result String AppState) (found : Option RefreshToken) (s : Idp)
      → Issues
          (λ x s'.
            (t : RefreshToken) × (found ≡ some t)
            × Refreshes signer app value scope times state t x s')
          (redeem_refresh signer app value scope times secrets state found s)
  unfolding redeem_refresh
  redeem_refresh-Refreshes state none s = tt
  redeem_refresh-Refreshes state (some t) s =
      split_if
        (Issues (λ x s'.
          (t' : RefreshToken) × (some t ≡ some t')
          × Refreshes signer app value scope times state t' x s'))
        (not (ltb times.checked t.expires_at)) _ _ (λ _. tt)
        (λ b.
          Issues-map (Refreshes signer app value scope times state t) _
            (refresh_with_state signer app value scope times secrets state t state s)
            (λ x s' h. (t, refl, h))
            (refresh_with_state-Refreshes t state state s (ground (arith, b))))
