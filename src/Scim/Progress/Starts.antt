-- ===== src/Scim/Progress/Starts.antt =====
-- The start reports of a run: those of the phase "running".
use scimtest.Prelude.{
  String, false, List, [], ◌∷◌, ◌++◌, ◌==◌, if◌then◌else◌, split_if, ◌≡◌, refl, ◌∙◌, append-nil,
  arith,
}
use scimtest.Directory.{User, Group}
use scimtest.Scim.Progress.{
  SyncProgress, Reporter, phase_of, report, start_user, report_user, start_group, report_group,
}

-- The type and the ID of a resource, and the operation.
abbrev pub Start : Type 0
Start = String × String × String

unfoldable pub started : List SyncProgress → List Start
started [] = []
started (r ∷ rs) =
    let rest = started rs in
    if r.phase == "running" then (r.resource_type, r.resource_id, r.operation) ∷ rest else rest

started-append : (rs ss : List SyncProgress) → started (rs ++ ss) ≡ started rs ++ started ss
unfolding started
started-append [] ss = refl
started-append (r ∷ rs) ss = ground (arith, started-append rs ss)

phase_of-running : (status : String) → (phase_of status == "running") ≡ false
phase_of-running status =
    split_if (λ phase. (phase == "running") ≡ false) (status == "Failed") "failed" "done"
      (λ _. refl) (λ _. refl)

module _ (r : Reporter) where
  pub started-start_user :
      (u : User) (operation : String)
      → started (start_user r u operation).reports
        ≡ started r.reports ++ ("user", u.id, operation) ∷ []
  unfolding start_user report started
  started-start_user u operation = started-append r.reports _

  pub started-start_group :
      (g : Group) (operation : String)
      → started (start_group r g operation).reports
        ≡ started r.reports ++ ("group", g.id, operation) ∷ []
  unfolding start_group report started
  started-start_group g operation = started-append r.reports _

  -- The report of a result is no start.
  pub started-report_user :
      (u : User) (operation status : String)
      → started (report_user r u operation status).reports ≡ started r.reports
  unfolding report_user report started
  started-report_user u operation status =
      started-append r.reports _ ∙ rw (phase_of-running status) (append-nil (started r.reports))

  pub started-report_group :
      (g : Group) (operation status : String)
      → started (report_group r g operation status).reports ≡ started r.reports
  unfolding report_group report started
  started-report_group g operation status =
      started-append r.reports _ ∙ rw (phase_of-running status) (append-nil (started r.reports))
