-- ===== src/Web/Oidc/Steps.antt =====
-- Sequences of requests to the OIDC endpoints, in any order and at any times. A request that waits is
-- two steps, with those of other requests between them.
use scimtest.Prelude.{ℕ, String, Bool, Option, List, Result, ok, ◌≢◌}
use scimtest.Prelude.Dict.{Dict, lookup}
use scimtest.Directory.{App, AppState, User}
use scimtest.Web.Fault.{Texts}
use scimtest.Web.Resilience.{Action, Run}
use scimtest.Web.Oidc.{AuthCode, RefreshToken, Idp, Crypto, Secrets, prune, issue_code}
use scimtest.Web.Oidc.Token.{TokenRequest, Times, Signer}
use scimtest.Web.Oidc.Exchange.{begin_exchange, resume_exchange}
use scimtest.Web.Oidc.Exchange.Left.{begin_exchange-Left, resume_exchange-Left}
use scimtest.Web.Oidc.Refresh.{begin_refresh, resume_refresh, begin_client, resume_client}
use scimtest.Web.Oidc.Refresh.Left.{
  begin_refresh-Left, resume_refresh-Left, begin_client-Left, resume_client-Left,
}
use scimtest.Web.Oidc.Revoke.{revoke, revoke_oidc_tokens, introspect, userinfo}
use scimtest.Web.Oidc.Revoke.Left.{
  revoke-Left, revoke_oidc_tokens-Left, introspect-Left, userinfo-Left,
}
use scimtest.Web.Oidc.Remains.{Left, Left-refl, prune-Left, store_code-Left}

-- What a request of the endpoints works with.
pub record Request : Type 0 where
  pub app : App
  pub form : TokenRequest
  pub times : Times
  pub secrets : Secrets
  pub state : Result String AppState

-- Draws neither a code nor a refresh token that is the value.
abbrev pub IsFresh : String → Secrets → Type 0
IsFresh v secrets = (secrets.code ≢ ok v) × (secrets.refresh ≢ ok v)

module _ (crypto : Crypto) (signer : Signer) (texts : Texts) (rfc3339 : ℕ → String) where
  -- One request, or one part of one that waits, which does not draw the value v. The runs change at
  -- other endpoints too.
  pub data Step (v : String) (s : Idp) : Idp → Type 0 where
    signing_in :
        (now : ℕ) (c : AuthCode) (secrets : Secrets)
        → IsFresh v secrets
        → Step v s (issue_code now c secrets s).1
    exchanging :
        (q : Request)
        → IsFresh v q.secrets
        → Step v s
            (begin_exchange crypto signer texts rfc3339 q.app q.form q.times q.secrets q.state s).1
    exchanged :
        (q : Request) (action : Action) (delivered : Bool)
        → IsFresh v q.secrets
        → Step v s
            (resume_exchange crypto signer texts rfc3339 q.app q.form q.times q.secrets q.state
              action delivered s).1
    refreshing :
        (q : Request)
        → IsFresh v q.secrets
        → Step v s (begin_refresh signer texts rfc3339 q.app q.form q.times q.secrets q.state s).1
    refreshed :
        (q : Request) (scope : String) (action : Action) (delivered : Bool)
        → IsFresh v q.secrets
        → Step v s
            (resume_refresh signer texts rfc3339 q.app q.form q.times q.secrets q.state scope action
              delivered s).1
    client_asking :
        (q : Request)
        → Step v s (begin_client signer texts rfc3339 q.app q.form q.times q.secrets q.state s).1
    client_answered :
        (q : Request) (action : Action) (delivered : Bool)
        → Step v s
            (resume_client signer texts rfc3339 q.app q.form q.times q.secrets q.state action
              delivered s).1
    revoking : (app : App) (value : String) (now : ℕ) → Step v s (revoke app value now s)
    signing_out : (slug user_id : String) → Step v s (revoke_oidc_tokens slug user_id s).1
    introspecting :
        (app : App) (users : List User) (value : String) (now : ℕ)
        → Step v s (introspect app users value now s).1
    asking_userinfo :
        (app : App) (users : List User) (value : String) (now : ℕ)
        → Step v s (userinfo app users value now s).1
    running : (runs : Dict Run) → Step v s (record s { runs = runs })

  pub data Steps (v : String) (s : Idp) : Idp → Type 0 where
    stay : Steps v s s
    then : {t u : Idp} → Steps v s t → Step v t u → Steps v s u

  module _ (v : String) (o : Option AuthCode) (p : Option RefreshToken) where
    Step-Left : {s t : Idp} → Step v s t → Left v o p s → Left v o p t
    unfolding issue_code
    Step-Left {s} (signing_in now c secrets fresh) h =
        store_code-Left v o p now c secrets.code (prune now s) fresh.0 (prune-Left v o p now s h)
    Step-Left {s} (exchanging q fresh) h =
        begin_exchange-Left v o p crypto signer texts rfc3339 q.app q.form q.times q.secrets q.state
          fresh.1 s h
    Step-Left {s} (exchanged q action delivered fresh) h =
        resume_exchange-Left v o p crypto signer texts rfc3339 q.app q.form q.times q.secrets
          q.state fresh.1 action delivered s h
    Step-Left {s} (refreshing q fresh) h =
        begin_refresh-Left v o p signer texts rfc3339 q.app q.form q.times q.secrets q.state fresh.1
          s h
    Step-Left {s} (refreshed q scope action delivered fresh) h =
        resume_refresh-Left v o p signer texts rfc3339 q.app q.form q.times q.secrets q.state
          fresh.1 scope action delivered s h
    Step-Left {s} (client_asking q) h =
        begin_client-Left v o p signer texts rfc3339 q.app q.form q.times q.secrets q.state s h
    Step-Left {s} (client_answered q action delivered) h =
        resume_client-Left v o p signer texts rfc3339 q.app q.form q.times q.secrets q.state action
          delivered s h
    Step-Left {s} (revoking app value now) h = revoke-Left v o p app value now s h
    Step-Left {s} (signing_out slug user_id) h = revoke_oidc_tokens-Left v o p slug user_id s h
    Step-Left {s} (introspecting app users value now) h =
        introspect-Left v o p app users value now s h
    Step-Left {s} (asking_userinfo app users value now) h =
        userinfo-Left v o p app users value now s h
    Step-Left (running runs) h = h

    Steps-keep : {s t : Idp} → Steps v s t → Left v o p s → Left v o p t
    Steps-keep stay h = h
    Steps-keep (then path step) h = Step-Left step (Steps-keep path h)

  pub Steps-Left :
      (v : String) (s t : Idp)
      → Steps v s t
      → Left v (lookup s.auth_codes v) (lookup s.refresh_tokens v) t
  Steps-Left v s t path =
      Steps-keep v (lookup s.auth_codes v) (lookup s.refresh_tokens v) path (Left-refl v s)
