-- ===== src/Web/Oidc/Inject/Left.antt =====
-- What an injected fault leaves of a code and of a refresh token.
use scimtest.Prelude.{ℕ, String, Bool, true, false, not, ◌&&◌, Option, none, some, split_if}
use scimtest.Prelude.Int.{pos, ltb_ℤ, eqb_ℤ}
use scimtest.Prelude.Dict.{Dict, lookup}
use scimtest.Web.Fault.{Texts}
use scimtest.Web.Resilience.{Action, Run, reserve, complete}
use scimtest.Web.Oidc.{AuthCode, RefreshToken, Idp}
use scimtest.Web.Oidc.Inject.{
  Grant, set_redeeming, after_complete, deliver, after_reserve, begin_inject, end_inject,
}
use scimtest.Web.Oidc.Remains.{Left, AfterLeft, set_redeeming-Left}

module _ (v : String) (o : Option AuthCode) (p : Option RefreshToken) (texts : Texts)
    (rfc3339 : ℕ → String) (slug label : String) where
  after_complete-Left :
      (action : Action) (done : Bool × Dict Run) (s : Idp)
      → Left v o p s
      → AfterLeft v o p (after_complete texts rfc3339 slug label action done s)
  unfolding after_complete
  after_complete-Left action (completed, runs) s h =
      split_if (AfterLeft v o p) (completed && not (eqb_ℤ action.status (pos 0))) _ _ (λ _. h)
        (λ _. h)

  deliver-Left :
      (action : Action) (now : ℕ) (s : Idp)
      → Left v o p s
      → AfterLeft v o p (deliver texts rfc3339 slug label action now s)
  unfolding deliver
  deliver-Left action now s h =
      after_complete-Left action
        (complete texts rfc3339 slug label action now s.runs (lookup s.runs slug)) s h

  after_reserve-Left :
      (grant : Grant) (now : ℕ) (reserved : Option Action × Dict Run) (s : Idp)
      → Left v o p s
      → AfterLeft v o p (after_reserve texts rfc3339 slug label grant now reserved s)
  unfolding after_reserve
  after_reserve-Left grant now (none, runs) s h = h
  after_reserve-Left grant now (some action, runs) s h =
      let s' = record s { runs = runs } in
      split_if (AfterLeft v o p) (ltb_ℤ (pos 0) action.delay) _ _
        (λ _. set_redeeming-Left v o p grant true s' h)
        (λ _.
          split_if (AfterLeft v o p) (eqb_ℤ action.delay (pos 0)) _ _
            (λ _. deliver-Left action now s' h) (λ _. h))

  pub begin_inject-Left :
      (grant : Grant) (now later : ℕ) (s : Idp)
      → Left v o p s
      → AfterLeft v o p (begin_inject texts rfc3339 slug label grant now later s)
  unfolding begin_inject
  begin_inject-Left grant now later s h =
      after_reserve-Left grant later
        (reserve texts rfc3339 slug "token" now s.runs (lookup s.runs slug)) s h

  pub end_inject-Left :
      (grant : Grant) (action : Action) (delivered : Bool) (now : ℕ) (s : Idp)
      → Left v o p s
      → AfterLeft v o p (end_inject texts rfc3339 slug label grant action delivered now s)
  unfolding end_inject
  end_inject-Left grant action true now s h =
      deliver-Left action now (set_redeeming grant false s)
        (set_redeeming-Left v o p grant false s h)
  end_inject-Left grant action false now s h = set_redeeming-Left v o p grant false s h
