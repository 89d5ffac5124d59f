-- ===== src/Sync/Plan.antt =====
-- PlanSync: what a sync of the projected state would do.
pub mod Agrees
use scimtest.Prelude.{String, Bool, ◌&&◌, List, [], ◌∷◌, ◌++◌, ◌==◌, if◌then◌else◌}
use scimtest.Directory.{User, Group, AppState, user_label}

pub record SyncPlanEntry : Type 0 where
  pub resource_type : String
  pub resource_id : String
  pub label : String
  pub operation : String

unfoldable pub plan_operation : Bool → String → String
plan_operation deleted remote_id =
    if deleted && remote_id == ""
    then "forget"
    else if deleted
    then "delete"
    else if remote_id == ""
    then "create"
    else "update"

unfoldable pub plan_users : List User → List SyncPlanEntry
unfolding plan_operation
plan_users [] = []
plan_users (u ∷ us) =
    let entry : SyncPlanEntry = record {
      resource_type = "user";
      resource_id = u.id;
      label = user_label u;
      operation = plan_operation u.deleted u.remote_id;
    } in
    if u.dirty then entry ∷ plan_users us else plan_users us

unfoldable pub plan_groups : List Group → List SyncPlanEntry
unfolding plan_operation
plan_groups [] = []
plan_groups (g ∷ gs) =
    let entry : SyncPlanEntry = record {
      resource_type = "group";
      resource_id = g.id;
      label = g.display_name;
      operation = plan_operation g.deleted g.remote_id;
    } in
    if g.dirty then entry ∷ plan_groups gs else plan_groups gs

unfoldable pub plan_sync : AppState → List SyncPlanEntry
unfolding plan_users plan_groups
plan_sync state = plan_users state.users ++ plan_groups state.groups
