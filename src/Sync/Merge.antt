-- ===== src/Sync/Merge.antt =====
-- MergeAppSyncState and MergeAppImportState. Go ranges over a map in any order: the order in which
-- the import meets the previous resources is a parameter.
pub mod Rows
pub mod Again
pub mod RoundTrip
pub mod Import
use scimtest.Prelude.{
  String, Bool, true, false, not, ◌&&◌, ◌||◌, none, some, List, [], ◌∷◌, ◌++◌, map, any, find, ◌==◌,
  if◌then◌else◌, is_some,
}
use scimtest.Prelude.Dict.{Dict, lookup, insert, inner}
use scimtest.Directory.{User, Group, AppState, ResourceSyncState, zero_sync, OperationLog}

-- The remote state that a resource of the engine carries.
unfoldable pub user_row : User → ResourceSyncState
user_row u = record {
  remote_id = u.remote_id;
  dirty = u.dirty;
  deleted = u.deleted;
  last_error = u.last_error;
}

unfoldable pub group_row : Group → ResourceSyncState
group_row g = record {
  remote_id = g.remote_id;
  dirty = g.dirty;
  deleted = g.deleted;
  last_error = g.last_error;
}

-- A row for each resource that the engine returned, later ones winning.
unfoldable pub synced_user_rows : List User → Dict ResourceSyncState → Dict ResourceSyncState
unfolding user_row
synced_user_rows [] rows = rows
synced_user_rows (u ∷ us) rows = synced_user_rows us (insert rows u.id (user_row u))

unfoldable pub synced_group_rows : List Group → Dict ResourceSyncState → Dict ResourceSyncState
unfolding group_row
synced_group_rows [] rows = rows
synced_group_rows (g ∷ gs) rows = synced_group_rows gs (insert rows g.id (group_row g))

abbrev pub tombstone : ResourceSyncState
tombstone = record zero_sync { deleted = true }

-- A tombstone for each deleted resource that the engine has dropped.
unfoldable pub add_user_tombstones : List User → Dict ResourceSyncState → Dict ResourceSyncState
add_user_tombstones [] rows = rows
add_user_tombstones (u ∷ us) rows =
    add_user_tombstones us
      (if not (is_some (lookup rows u.id)) && u.deleted then insert rows u.id tombstone else rows)

unfoldable pub add_group_tombstones : List Group → Dict ResourceSyncState → Dict ResourceSyncState
add_group_tombstones [] rows = rows
add_group_tombstones (g ∷ gs) rows =
    add_group_tombstones gs
      (if not (is_some (lookup rows g.id)) && g.deleted then insert rows g.id tombstone else rows)

unfoldable pub merge_app_sync_state : AppState → String → AppState → AppState
unfolding synced_user_rows synced_group_rows add_user_tombstones add_group_tombstones
merge_app_sync_state state app_id synced = record state {
  config = record state.config {
    scim_enterprise_used = state.config.scim_enterprise_used || synced.config.scim_enterprise_used;
  };
  user_sync =
      insert state.user_sync app_id
        (add_user_tombstones state.users (synced_user_rows synced.users []));
  group_sync =
      insert state.group_sync app_id
        (add_group_tombstones state.groups (synced_group_rows synced.groups []));
}

-- mergeImportOperationLog: the first import entry of the resource goes in front of its history.
unfoldable pub merge_import_operation_log :
    Dict (List OperationLog) → Dict (List OperationLog) → String → Dict (List OperationLog)
merge_import_operation_log destination imported id =
    elim (find (λ e. e.kind == "local" && e.summary == "Imported from SCIM") (inner imported id)) [
      | none ↦ destination
      | some e ↦ insert destination id (e ∷ inner destination id)
    ]

unfoldable pub merge_user_logs :
    List User → Dict (List OperationLog) → Dict (List OperationLog) → Dict (List OperationLog)
unfolding merge_import_operation_log
merge_user_logs [] logs imported = logs
merge_user_logs (u ∷ us) logs imported =
    merge_user_logs us (merge_import_operation_log logs imported u.id) imported

unfoldable pub merge_group_logs :
    List Group → Dict (List OperationLog) → Dict (List OperationLog) → Dict (List OperationLog)
unfolding merge_import_operation_log
merge_group_logs [] logs imported = logs
merge_group_logs (g ∷ gs) logs imported =
    merge_group_logs gs (merge_import_operation_log logs imported g.id) imported

unfoldable pub previous_users : List User → Dict User → Dict User
previous_users [] m = m
previous_users (u ∷ us) m = previous_users us (insert m u.id u)

previous_groups : List Group → Dict Group → Dict Group
previous_groups [] m = m
previous_groups (g ∷ gs) m = previous_groups gs (insert m g.id g)

abbrev pub clear_user : Bool → User → User
clear_user deleted u = record u {
  remote_id = "";
  dirty = false;
  deleted = deleted;
  last_error = "";
}

abbrev clear_group : Bool → Group → Group
clear_group deleted g = record g {
  remote_id = "";
  dirty = false;
  deleted = deleted;
  last_error = "";
}

-- The previous users that the import no longer contains, as tombstones.
unfoldable pub lost_users : List User → Dict User → List User
lost_users imported [] = []
lost_users imported ((id, u) ∷ m) =
    let rest = lost_users imported m in
    if any (λ v. v.id == id) imported then rest else clear_user true u ∷ rest

lost_groups : List Group → Dict Group → List Group
lost_groups imported [] = []
lost_groups imported ((id, g) ∷ m) =
    let rest = lost_groups imported m in
    if any (λ v. v.id == id) imported then rest else clear_group true g ∷ rest

module _ (user_order : Dict User → Dict User) (group_order : Dict Group → Dict Group) where
  unfoldable pub merge_app_import_state : AppState → String → AppState → AppState
  unfolding merge_app_sync_state merge_user_logs merge_group_logs previous_users previous_groups
      lost_users lost_groups
  merge_app_import_state state app_id imported =
      let merged = merge_app_sync_state state app_id imported in
      record merged {
        users =
            map (clear_user false) imported.users
            ++ lost_users imported.users (user_order (previous_users state.users []));
        groups =
            map (clear_group false) imported.groups
            ++ lost_groups imported.groups (group_order (previous_groups state.groups []));
        user_operations =
            merge_user_logs imported.users state.user_operations imported.user_operations;
        group_operations =
            merge_group_logs imported.groups state.group_operations imported.group_operations;
      }
