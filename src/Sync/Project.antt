-- ===== src/Sync/Project.antt =====
-- StateForApp: the global directory in the shape that the SCIM engine consumes.
use scimtest.Prelude.{
  String, Bool, true, not, ◌&&◌, ◌||◌, none, some, List, [], ◌∷◌, map, filter, any, ◌==◌,
  if◌then◌else◌, from_option, Result, ok, err,
}
use scimtest.Prelude.Dict.{Dict, lookup, inner}
use scimtest.Directory.{
  User, Group, App, AppState, Config, ResourceSyncState, zero_sync, OperationLog, app_by_id,
}

pub data StateError : Type 0 where
  app_not_found : String → StateError

-- The row of a resource; a resource without one is dirty.
unfoldable pub row_or_dirty : Dict ResourceSyncState → String → ResourceSyncState
row_or_dirty rows id = from_option (lookup rows id) (record zero_sync { dirty = true })

unfoldable pub project_user : Dict ResourceSyncState → User → User
unfolding row_or_dirty
project_user rows u =
    let row = row_or_dirty rows u.id in
    record u {
      remote_id = row.remote_id;
      dirty = row.dirty;
      deleted = u.deleted || row.deleted;
      last_error = row.last_error;
    }

-- deletedUserIDs[id]
unfoldable pub is_deleted_user : List User → String → Bool
is_deleted_user users id = any (λ u. u.deleted && u.id == id) users

unfoldable pub project_group : List User → Dict ResourceSyncState → Group → Group
unfolding row_or_dirty is_deleted_user
project_group projected_users rows g =
    let row = row_or_dirty rows g.id in
    record g {
      member_ids = filter (λ id. not (is_deleted_user projected_users id)) g.member_ids;
      remote_id = row.remote_id;
      dirty = row.dirty;
      deleted = g.deleted || row.deleted;
      last_error = row.last_error;
    }

-- The entries of one resource that the app may see: local ones, and its own.
abbrev visible_entries : String → List OperationLog → List OperationLog
visible_entries app_id = filter (λ e. e.kind == "local" || e.app_id == app_id)

abbrev keep_nonempty {ℓ} : {A : Type ℓ} → String → List A → Dict (List A) → Dict (List A)
keep_nonempty k [] m = m
keep_nonempty k (x ∷ xs) m = (k, x ∷ xs) ∷ m

unfoldable pub operation_logs_for_app : Dict (List OperationLog) → String → Dict (List OperationLog)
operation_logs_for_app [] app_id = []
operation_logs_for_app ((resource_id, entries) ∷ logs) app_id =
    keep_nonempty resource_id (visible_entries app_id entries) (operation_logs_for_app logs app_id)

unfoldable pub config_for_app : Config → App → Config
config_for_app c app = record c {
  base_url = app.scim_base_url;
  bearer_token = app.scim_bearer_token;
  auto_open_sync_trace = app.scim_auto_open_trace;
  scim_disabled = not app.scim_enabled;
  filter_supported = app.scim_filter_supported;
  patch_supported = app.scim_patch_supported;
  persona = app.persona;
}

-- What StateForApp does once it has found the app.
unfoldable pub project_app : AppState → App → String → AppState
unfolding project_user project_group
project_app state app app_id =
    let projected = record state {
      config = config_for_app state.config app;
      user_operations = operation_logs_for_app state.user_operations app_id;
      group_operations = operation_logs_for_app state.group_operations app_id;
    } in
    let users = map (project_user (inner state.user_sync app_id)) state.users in
    let groups = map (project_group users (inner state.group_sync app_id)) state.groups in
    if not app.scim_enabled then projected else record projected { users = users; groups = groups }

unfoldable pub state_for_app : AppState → String → Result StateError AppState
unfolding project_app
state_for_app state app_id = elim (app_by_id state.apps app_id) [
  | none ↦ err (app_not_found app_id)
  | some app ↦ ok (project_app state app app_id)
]
