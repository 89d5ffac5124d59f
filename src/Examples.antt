-- ===== src/Examples.antt =====
-- The theorems at inputs that meet their hypotheses.
mod Web
mod Import
mod Resilience
mod Oidc
use scimtest.Prelude.{
  ◌||◌, List, ◌++◌, none, ◌∷◌, All, ◌≡◌, ◌≢◌, refl, true, false, ◌&&◌, ◌==◌, if◌then◌else◌, not, [],
  filter, map, eq_iff, arith, ok, Distinct,
}
use scimtest.Prelude.Text.{trim_space}
use scimtest.Prelude.Dict.{lookup, insert, inner}
use scimtest.Directory.{AppState, app_by_id, user_by_id, has_enterprise_values}
use scimtest.Samples.{ada, bob, cid, hr, directory, counting, after_sync}
use scimtest.Scim.Resource.{
  new_user_resource, awaits_manager, new_user_directory, user_matches_remote,
}
use scimtest.Scim.Resource.Matches.{user_matches_remote-stored}
use scimtest.Sync.Project.{is_deleted_user, state_for_app, project_app}
use scimtest.Sync.Logs.{SyncTraceEntry, append_operation_logs}
use scimtest.Sync.Logs.History.{added, append_operation_logs-histories}
use scimtest.Sync.Plan.{plan_users, plan_groups, plan_sync}
use scimtest.Sync.Plan.Agrees.{planned}
use scimtest.Scim.Progress.Starts.{started}
use scimtest.Scim.Engine.Starts.{Follows, sync_dirty_state-Follows}
use scimtest.Sync.Merge.{merge_app_sync_state, merge_app_import_state}
use scimtest.Sync.Merge.Import.{has_user, has_deleted, merge_app_import_state-users}
use scimtest.Sync.Merge.Rows.{merged_user_row, merged_group_row, merge_app_sync_state-rows}
use scimtest.Sync.Merge.RoundTrip.{project-merge}
use scimtest.Sync.Mark.{row, mark_user_dirty, mark_group_dirty, initialize_app_sync}
use scimtest.Sync.Mark.Rows.{app_ids, marked, is_reached, mark_user_dirty-row, mark_group_dirty-row}
use scimtest.Sync.Mark.Initial.{
  reset_user, reset_group, reset_user_entry, reset_group_entry, initialize_app_sync-reset,
}
use scimtest.Sync.Purge.{
  purge_fully_synced_deletions, resource_deleted_everywhere, deleted_for_app, sync_deletion_settled,
  is_gone, is_gone_group,
}
use scimtest.Sync.Purge.Filter.{user_ids, group_ids}
use scimtest.Sync.Purge.Groups.{purge-filter}
use scimtest.Sync.Purge.Merged.{purge-merge}
use scimtest.Sync.Purge.Traces.{IsForgotten, purge-IsForgotten}
use scimtest.Scim.Engine.{sync_dirty_state, reconcile_state}
use scimtest.Scim.Engine.Accounting.{
  IsAccounted, sync_dirty_state-IsAccounted, reconcile_state-IsAccounted,
}
use scimtest.Scim.Engine.Live.{sync_dirty_state-live_profiles, reconcile_state-live_profiles}
use scimtest.Scim.Progress.{Reporter, new_reporter, count_dirty_resources}
use scimtest.Scim.Users.{start_users, sync_users}
use scimtest.Scim.Users.Settled.{IsSettled, sync_users-IsSettled}
use scimtest.Scim.Groups.Settled.{IsClean}
use scimtest.Scim.Engine.Silent.{IsSilent, sync_dirty_state-IsSilent}
use scimtest.Scim.Engine.Settled.{sync_dirty_state-IsClean}
use scimtest.Scim.Engine.Members.{sync_dirty_state-live_groups, reconcile_state-live_groups}
use scimtest.Scim.Groups.{sync_groups}
use scimtest.Scim.Groups.Live.{live_groups}
use scimtest.Scim.Users.Live.{live_profiles}

sync_dirty_state-IsAccounted_example : IsAccounted (sync_dirty_state counting directory 0)
sync_dirty_state-IsAccounted_example = sync_dirty_state-IsAccounted counting directory 0

reconcile_state-IsAccounted_example : IsAccounted (reconcile_state counting directory 0)
reconcile_state-IsAccounted_example = reconcile_state-IsAccounted counting directory 0

sync_dirty_state-live_profiles_example :
    live_profiles (sync_dirty_state counting directory 0).state.users
    ≡ live_profiles directory.users
sync_dirty_state-live_profiles_example = sync_dirty_state-live_profiles counting directory 0

reconcile_state-live_profiles_example :
    live_profiles (reconcile_state counting directory 0).state.users ≡ live_profiles directory.users
reconcile_state-live_profiles_example = reconcile_state-live_profiles counting directory 0

ada-ne-bob : ada.id ≢ bob.id
ada-ne-bob = ground (arith, eq_iff ada.id bob.id)

ada-ne-cid : ada.id ≢ cid.id
ada-ne-cid = ground (arith, eq_iff ada.id cid.id)

bob-ne-cid : bob.id ≢ cid.id
bob-ne-cid = ground (arith, eq_iff bob.id cid.id)

users-Distinct : Distinct (user_ids directory.users)
users-Distinct = ((ada-ne-bob, (ada-ne-cid, tt)), ((bob-ne-cid, tt), (tt, tt)))

groups-Distinct : Distinct (group_ids directory.groups)
groups-Distinct = (tt, tt)

cid-is_gone : is_gone after_sync cid ≡ true
unfolding is_gone resource_deleted_everywhere deleted_for_app sync_deletion_settled lookup
cid-is_gone = refl

purge-IsForgotten_example : IsForgotten cid.id (purge_fully_synced_deletions after_sync)
purge-IsForgotten_example = purge-IsForgotten after_sync 2 cid users-Distinct refl cid-is_gone

purge-filter_example :
    ((purge_fully_synced_deletions after_sync).users
      ≡ filter (λ u. not (is_gone after_sync u)) after_sync.users)
    × (group_ids (purge_fully_synced_deletions after_sync).groups
        ≡ group_ids (filter (λ g. not (is_gone_group after_sync g)) after_sync.groups))
purge-filter_example = purge-filter after_sync users-Distinct groups-Distinct

merge_app_sync_state-rows_example :
    let merged = merge_app_sync_state after_sync "app_hr" directory in
    (lookup (inner merged.user_sync "app_hr") "usr_cid"
      ≡ merged_user_row after_sync directory "usr_cid")
    × (lookup (inner merged.group_sync "app_hr") "usr_cid"
        ≡ merged_group_row after_sync directory "usr_cid")
    × (inner merged.user_sync "app_crm" ≡ inner after_sync.user_sync "app_crm")
    × (inner merged.group_sync "app_crm" ≡ inner after_sync.group_sync "app_crm")
merge_app_sync_state-rows_example =
    merge_app_sync_state-rows after_sync directory "app_hr" "app_crm" "usr_cid" users-Distinct
      groups-Distinct (ground (arith, eq_iff "app_hr" "app_crm"))

hr_found : state_for_app after_sync "app_hr" ≡ ok (project_app after_sync hr "app_hr")
unfolding state_for_app app_by_id
hr_found = refl

project-merge_example :
    let p = project_app after_sync hr "app_hr" in
    let merged = merge_app_sync_state after_sync "app_hr" p in
    state_for_app merged "app_hr"
    ≡ ok (record p { user_sync = merged.user_sync; group_sync = merged.group_sync })
project-merge_example =
    project-merge after_sync (project_app after_sync hr "app_hr") "app_hr" users-Distinct
      groups-Distinct hr_found

ada-trim_space : trim_space ada.id ≡ ada.id
unfolding trim_space
ada-trim_space = refl

user_matches_remote-stored_example :
    user_matches_remote
      (new_user_resource ada (record { enterprise = true; remote_ids = [] }))
      (record (new_user_resource ada (record { enterprise = true; remote_ids = [] })) {
        id = "r1";
        schemas = [];
      })
    ≡ true
user_matches_remote-stored_example =
    user_matches_remote-stored ada (record { enterprise = true; remote_ids = [] }) "r1" []
      ada-trim_space

apps-Distinct : Distinct (app_ids directory.apps)
apps-Distinct = (tt, tt)

-- The deletion of Ada reaches Bob, who reports to her.
mark_user_dirty-row_example :
    row (mark_user_dirty directory "usr_ada" true).user_sync "app_hr" "usr_bob" ≡ (
      if is_reached directory.users "usr_ada" "usr_bob"
      then marked true (true && "usr_bob" == "usr_ada") (row directory.user_sync "app_hr" "usr_bob")
      else row directory.user_sync "app_hr" "usr_bob")
mark_user_dirty-row_example =
    mark_user_dirty-row directory "usr_ada" "usr_bob" true 0 hr apps-Distinct refl

mark_group_dirty-row_example :
    row (mark_group_dirty directory "grp_staff" false).group_sync "app_hr" "grp_staff" ≡ (
      if "grp_staff" == "grp_staff"
      then marked true false (row directory.group_sync "app_hr" "grp_staff")
      else row directory.group_sync "app_hr" "grp_staff")
mark_group_dirty-row_example =
    mark_group_dirty-row directory "grp_staff" "grp_staff" false 0 hr apps-Distinct refl

initialize_app_sync-reset_example :
    let projected = project_app (initialize_app_sync after_sync "app_hr") hr "app_hr" in
    (projected.users ≡ map reset_user after_sync.users)
    × (projected.groups ≡ map (reset_group after_sync.users) after_sync.groups)
    × (plan_sync projected
        ≡ map reset_user_entry after_sync.users ++ map reset_group_entry after_sync.groups)
initialize_app_sync-reset_example =
    initialize_app_sync-reset after_sync hr "app_hr" users-Distinct groups-Distinct refl

sync_dirty_state-live_groups_example :
    live_groups
      (is_deleted_user directory.users)
      (sync_dirty_state counting directory 0).state.groups
    ≡ live_groups (is_deleted_user directory.users) directory.groups
sync_dirty_state-live_groups_example = sync_dirty_state-live_groups counting directory 0

reconcile_state-live_groups_example :
    live_groups
      (is_deleted_user directory.users)
      (reconcile_state counting directory 0).state.groups
    ≡ live_groups (is_deleted_user directory.users) directory.groups
reconcile_state-live_groups_example = reconcile_state-live_groups counting directory 0

-- Nobody is dirty.
abbrev quiet : AppState
quiet = record directory { users = ada ∷ [] }

quiet-dirty : count_dirty_resources quiet ≡ 0
unfolding count_dirty_resources
quiet-dirty = refl

sync_dirty_state-IsSilent_example : IsSilent quiet 0 (sync_dirty_state counting quiet 0)
sync_dirty_state-IsSilent_example = sync_dirty_state-IsSilent counting quiet 0 quiet-dirty

-- Creates Bob, deletes Cid, and so makes the staff dirty and sends it.
directory-stopped : (sync_dirty_state counting directory 0).stopped ≡ none
unfolding sync_dirty_state sync_users awaits_manager lookup new_user_directory insert
    has_enterprise_values sync_groups
directory-stopped = refl

sync_dirty_state-Follows_example :
    (map planned (plan_sync directory)
      ≡ map planned (plan_users directory.users) ++ map planned (plan_groups directory.groups))
    × Follows counting directory (started (sync_dirty_state counting directory 0).reporter.reports)
sync_dirty_state-Follows_example = sync_dirty_state-Follows counting directory 0 directory-stopped

directory-failed : (sync_dirty_state counting directory 0).failed ≡ false
unfolding sync_dirty_state sync_users awaits_manager lookup new_user_directory insert
    has_enterprise_values sync_groups
directory-failed = refl

sync_dirty_state-IsClean_example : All IsClean (sync_dirty_state counting directory 0).state.groups
sync_dirty_state-IsClean_example =
    sync_dirty_state-IsClean counting directory 0 directory-stopped directory-failed

abbrev one : Reporter
one = new_reporter 1

users-stopped : (sync_users counting directory.users (start_users directory one 0)).1 ≡ none
unfolding sync_users start_users awaits_manager lookup new_user_directory insert
    has_enterprise_values
users-stopped = refl

users-failed :
    (sync_users counting directory.users (start_users directory one 0)).0.counts.failed ≡ 0
unfolding sync_users start_users awaits_manager lookup new_user_directory insert
    has_enterprise_values
users-failed = refl

sync_users-IsSettled_example :
    All
      (IsSettled
        (sync_users counting directory.users (start_users directory one 0)).0.directory.remote_ids)
      (sync_users counting directory.users (start_users directory one 0)).0.next
sync_users-IsSettled_example =
    sync_users-IsSettled counting directory one 0 users-stopped users-failed

-- A create of Bob and a delete of Cid.
abbrev trace : SyncTraceEntry
trace = record {
  resource_type = "user";
  resource_id = "usr_bob";
  label = "Bob Lovelace";
  operation = "create";
  method = "POST";
  path = "/Users";
  request_body = "";
  status = "201 Created";
  response_retry_after = "";
  response_body = "";
  err = "";
  created_at = "";
}

abbrev traces : List SyncTraceEntry
traces = trace ∷ record trace { resource_id = "usr_cid"; operation = "delete" } ∷ []

append_operation_logs-histories_example :
    (inner (append_operation_logs directory "app_hr" traces).user_operations "usr_bob"
      ≡ added "app_hr" "user" "usr_bob" traces ++ inner directory.user_operations "usr_bob")
    × (inner (append_operation_logs directory "app_hr" traces).group_operations "usr_bob"
        ≡ added "app_hr" "group" "usr_bob" traces ++ inner directory.group_operations "usr_bob")
append_operation_logs-histories_example =
    append_operation_logs-histories directory "app_hr" "usr_bob" traces

-- The import brings Ada and loses Bob and Cid.
merge_app_import_state-users_example :
    (has_user (merge_app_import_state (λ m. m) (λ m. m) directory "app_hr" quiet).users "usr_bob"
      ≡ (has_user quiet.users "usr_bob" || has_user directory.users "usr_bob"))
    × (has_deleted
          (merge_app_import_state (λ m. m) (λ m. m) directory "app_hr" quiet).users
          "usr_bob"
        ≡ (has_user directory.users "usr_bob" && not (has_user quiet.users "usr_bob")))
merge_app_import_state-users_example =
    merge_app_import_state-users (λ m. m) (λ m. m) directory quiet "app_hr" "usr_bob"
      (λ m test. refl)

-- The sync returned Ada alone.
cid_lost : user_by_id quiet.users cid.id ≡ none
unfolding user_by_id
cid_lost = refl

purge-merge_example :
    IsForgotten cid.id (purge_fully_synced_deletions (merge_app_sync_state directory hr.id quiet))
purge-merge_example =
    purge-merge directory quiet hr 2 cid refl users-Distinct (tt, tt) refl refl cid_lost
