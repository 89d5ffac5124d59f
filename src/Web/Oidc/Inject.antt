-- ===== src/Web/Oidc/Inject.antt =====
-- injectTokenFault: an armed fault at the token endpoint. A delay releases the lock, so the request is
-- two steps, with any steps of other requests between them.
pub mod Left
use scimtest.Prelude.{ℕ, String, Bool, true, false, not, ◌&&◌, Option, none, some, if◌then◌else◌}
use scimtest.Prelude.Int.{pos, ltb_ℤ, eqb_ℤ}
use scimtest.Prelude.Dict.{Dict, lookup, insert}
use scimtest.Web.Fault.{Texts}
use scimtest.Web.Resilience.{Action, Run, reserve, complete, cancel}
use scimtest.Web.Oidc.{AuthCode, RefreshToken, Idp}

-- What setRedeeming marks: the presented code, the presented refresh token, or nothing.
pub data Grant : Type 0 where
  code : String → Grant
  refresh : String → Grant
  client : Grant

-- What comes of the injection: the request goes on, it is answered by the fault, it waits while
-- others run, or it ended while it waited.
pub data Injection : Type 0 where
  proceed : Injection
  refused : Action → Injection
  held : Action → Injection
  ended : Injection

unfoldable pub mark_code : String → Bool → Dict AuthCode → Option AuthCode → Dict AuthCode
unfolding insert
mark_code v b codes none = codes
mark_code v b codes (some c) = insert codes v (record c { redeeming = b })

unfoldable pub mark_refresh :
    String → Bool → Dict RefreshToken → Option RefreshToken → Dict RefreshToken
unfolding insert
mark_refresh v b tokens none = tokens
mark_refresh v b tokens (some t) = insert tokens v (record t { redeeming = b })

-- setRedeeming
unfoldable pub set_redeeming : Grant → Bool → Idp → Idp
unfolding mark_code mark_refresh lookup
set_redeeming (code v) b s = record s {
  auth_codes = mark_code v b s.auth_codes (lookup s.auth_codes v);
}
set_redeeming (refresh v) b s = record s {
  refresh_tokens = mark_refresh v b s.refresh_tokens (lookup s.refresh_tokens v);
}
set_redeeming client b s = s

module _ (texts : Texts) (rfc3339 : ℕ → String) (slug label : String) where
  after_complete : Action → Bool × Dict Run → Idp → Injection × Idp
  after_complete action (completed, runs) s =
      if completed && not (eqb_ℤ action.status (pos 0))
      then (refused action, record s { runs = runs })
      else (proceed, record s { runs = runs })

  deliver : Action → ℕ → Idp → Injection × Idp
  unfolding after_complete lookup complete
  deliver action now s =
      after_complete action
        (complete texts rfc3339 slug label action now s.runs (lookup s.runs slug)) s

  after_reserve : Grant → ℕ → Option Action × Dict Run → Idp → Injection × Idp
  unfolding set_redeeming deliver
  after_reserve grant now (none, runs) s = (proceed, record s { runs = runs })
  after_reserve grant now (some action, runs) s =
      let s' = record s { runs = runs } in
      if ltb_ℤ (pos 0) action.delay
      then (held action, set_redeeming grant true s')
      else if eqb_ℤ action.delay (pos 0)
      then deliver action now s'
      else (proceed, s')

  -- Until the request is done with the fault, or waits, which it reserves now and delivers later.
  unfoldable pub begin_inject : Grant → ℕ → ℕ → Idp → Injection × Idp
  unfolding after_reserve lookup reserve
  begin_inject grant now later s =
      after_reserve grant later (reserve texts rfc3339 slug "token" now s.runs (lookup s.runs slug))
        s

  -- After the wait, with the lock again.
  unfoldable pub end_inject : Grant → Action → Bool → ℕ → Idp → Injection × Idp
  unfolding set_redeeming deliver lookup cancel
  end_inject grant action true now s = deliver action now (set_redeeming grant false s)
  end_inject grant action false now s =
      let s' = set_redeeming grant false s in
      (
        ended,
        record s' {
          runs = cancel texts rfc3339 slug label action now s'.runs (lookup s'.runs slug);
        },
      )
