-- ===== src/Scim/Progress.antt =====
-- syncProgressReporter: the totals of a run, and the reports that its callback receives, newest
-- last. The reports of a rate-limit wait come from the transport and are not in this list.
pub mod Starts
use scimtest.Prelude.{
  false, Bool, ℕ, ◌+◌, String, ◌||◌, List, [], ◌∷◌, ◌++◌, ◌==◌, if◌then◌else◌, trim_space, concat,
  count_if,
}
use scimtest.Directory.{User, Group, AppState, user_label}

pub record SyncProgress : Type 0 where
  pub total : ℕ
  pub processed : ℕ
  pub resource_type : String
  pub resource_id : String
  pub label : String
  pub operation : String
  pub phase : String
  pub status : String
  pub detail : String
  pub rate_limited : Bool
  pub retry_after : String

pub record Reporter : Type 0 where
  pub total : ℕ
  pub processed : ℕ
  pub reports : List SyncProgress

unfoldable pub progress_user_label : User → String
progress_user_label u =
    let label = user_label u in
    let username = trim_space u.username in
    if username == "" || username == label
    then label
    else concat label (concat " (" (concat username ")"))

-- report: the callback sees the totals of the moment.
unfoldable pub report :
    Reporter → String → String → String → String → String → String → String → Reporter
report r resource_type id label operation phase status detail = record r {
  reports =
      r.reports
      ++ record {
        total = r.total;
        processed = r.processed;
        resource_type = resource_type;
        resource_id = id;
        label = label;
        operation = operation;
        phase = phase;
        status = status;
        detail = detail;
        rate_limited = false;
        retry_after = "";
      }
        ∷ [];
}

unfoldable pub new_reporter : ℕ → Reporter
new_reporter total = record { total = total; processed = 0; reports = [] }

unfoldable pub add_total : Reporter → ℕ → Reporter
add_total r delta = record r { total = r.total + delta }

abbrev phase_of : String → String
phase_of status = if status == "Failed" then "failed" else "done"

abbrev detail_of : String → String → String
detail_of status last_error = if status == "Failed" then last_error else ""

unfoldable pub start_user : Reporter → User → String → Reporter
unfolding report
start_user r u operation =
    report r "user" u.id (progress_user_label u) operation "running" "In progress" ""

unfoldable pub report_user : Reporter → User → String → String → Reporter
unfolding report
report_user r u operation status =
    report (record r { processed = r.processed + 1 }) "user" u.id (progress_user_label u) operation
      (phase_of status) status (detail_of status u.last_error)

unfoldable pub start_group : Reporter → Group → String → Reporter
unfolding report
start_group r g operation =
    report r "group" g.id g.display_name operation "running" "In progress" ""

unfoldable pub report_group : Reporter → Group → String → String → Reporter
unfolding report
report_group r g operation status =
    report (record r { processed = r.processed + 1 }) "group" g.id g.display_name operation
      (phase_of status) status (detail_of status g.last_error)

unfoldable pub count_dirty_resources : AppState → ℕ
count_dirty_resources state =
    count_if (λ u. u.dirty) state.users + count_if (λ g. g.dirty) state.groups
