-- ===== src/Sync/Purge.antt =====
-- PurgeFullySyncedDeletions: soft-deleted resources go once the app has deleted them remotely.
pub mod Filter
pub mod Groups
pub mod Traces
pub mod Merged
use scimtest.Prelude.{
  String, Bool, true, false, not, ◌&&◌, Option, none, some, List, [], ◌∷◌, map, filter, ◌==◌,
  if◌then◌else◌,
}
use scimtest.Prelude.Dict.{Dict, lookup, remove, inner}
use scimtest.Directory.{User, Group, App, AppState, ResourceSyncState}

-- A tombstone with nothing left to do remotely; none is a missing row.
unfoldable pub sync_deletion_settled : Option ResourceSyncState → Bool
sync_deletion_settled none = false
sync_deletion_settled (some r) = r.deleted && not r.dirty && r.remote_id == ""

-- One app's part of resourceDeletedEverywhere.
unfoldable pub deleted_for_app : App → Option ResourceSyncState → Bool
unfolding sync_deletion_settled
deleted_for_app app none = not app.scim_enabled
deleted_for_app app (some r) = sync_deletion_settled (some r)

unfoldable pub resource_deleted_everywhere :
    List App → Dict (Dict ResourceSyncState) → String → Bool
unfolding deleted_for_app
resource_deleted_everywhere [] sync id = true
resource_deleted_everywhere (app ∷ apps) sync id =
    if deleted_for_app app (lookup (inner sync app.id) id)
    then resource_deleted_everywhere apps sync id
    else false

unfoldable pub remove_value : List String → String → List String
remove_value values value = filter (λ v. not (v == value)) values

-- delete(sync[appID], id) for every app that has rows.
unfoldable pub remove_rows : Dict (Dict ResourceSyncState) → String → Dict (Dict ResourceSyncState)
remove_rows sync id = map (λ e. (e.0, remove e.1 id)) sync

abbrev pub drop_member : String → Group → Group
drop_member id g = record g { member_ids = remove_value g.member_ids id }

-- Whether a user is purged, and whether a group is.
unfoldable pub is_gone : AppState → User → Bool
unfolding resource_deleted_everywhere
is_gone state u = u.deleted && resource_deleted_everywhere state.apps state.user_sync u.id

unfoldable pub is_gone_group : AppState → Group → Bool
unfolding resource_deleted_everywhere
is_gone_group state g = g.deleted && resource_deleted_everywhere state.apps state.group_sync g.id

unfoldable pub forget_user : AppState → String → AppState
unfolding remove_value remove_rows
forget_user state id = record state {
  user_operations = remove state.user_operations id;
  user_sync = remove_rows state.user_sync id;
  groups = map (drop_member id) state.groups;
}

unfoldable pub purge_users : List User → AppState → List User × AppState
unfolding forget_user is_gone
purge_users [] state = ([], state)
purge_users (u ∷ us) state =
    let gone = is_gone state u in
    let (kept, state') = purge_users us (if gone then forget_user state u.id else state) in
    (if gone then kept else u ∷ kept, state')

unfoldable pub forget_group : AppState → String → AppState
unfolding remove_rows
forget_group state id = record state {
  group_operations = remove state.group_operations id;
  group_sync = remove_rows state.group_sync id;
}

unfoldable pub purge_groups : List Group → AppState → List Group × AppState
unfolding forget_group is_gone_group
purge_groups [] state = ([], state)
purge_groups (g ∷ gs) state =
    let gone = is_gone_group state g in
    let (kept, state') = purge_groups gs (if gone then forget_group state g.id else state) in
    (if gone then kept else g ∷ kept, state')

unfoldable pub purge_fully_synced_deletions : AppState → AppState
unfolding purge_users purge_groups
purge_fully_synced_deletions state =
    let (users, state') = purge_users state.users state in
    let (groups, state'') = purge_groups state'.groups (record state' { users = users }) in
    record state'' { groups = groups }
