-- ===== src/Sync/Mark.antt =====
-- MarkUserDirty, MarkGroupDirty, InitializeAppSync and AppHasSyncState.
pub mod Rows
pub mod Initial
use scimtest.Prelude.{
  String, Bool, true, false, not, ◌&&◌, ◌||◌, Option, List, [], ◌∷◌, map, filter, ◌==◌,
  if◌then◌else◌, from_option, is_some,
}
use scimtest.Prelude.Dict.{Dict, lookup, insert, inner}
use scimtest.Directory.{User, Group, App, AppState, ResourceSyncState, zero_sync}

-- syncStates[appID][resourceID], and whether it is there.
unfoldable pub row : Dict (Dict ResourceSyncState) → String → String → Option ResourceSyncState
row sync app_id id = lookup (inner sync app_id) id

unfoldable pub mark_resource_dirty :
    Dict (Dict ResourceSyncState) → String → String → Bool → Dict (Dict ResourceSyncState)
unfolding row
mark_resource_dirty sync app_id id deleted =
    let old = from_option (row sync app_id id) zero_sync in
    insert sync app_id (
      insert (inner sync app_id) id
        (record old { dirty = true; deleted = deleted; last_error = "" }))

-- One resource for one app: a paused app records it only when it already remembers it.
unfoldable pub mark_for_app :
    Dict (Dict ResourceSyncState) → App → String → Bool → Dict (Dict ResourceSyncState)
unfolding mark_resource_dirty
mark_for_app sync app id deleted =
    if not app.scim_enabled && not (is_some (row sync app.id id))
    then sync
    else mark_resource_dirty sync app.id id deleted

-- The user, and the live users whose manager it is.
unfoldable pub reports_of : List User → String → List String
reports_of users user_id =
    map (λ u. u.id)
      (filter (λ u. not u.deleted && u.manager_id == user_id && not (u.id == user_id)) users)

unfoldable pub mark_users :
    Dict (Dict ResourceSyncState)
    → App
    → List String
    → String
    → Bool
    → Dict (Dict ResourceSyncState)
unfolding mark_for_app
mark_users sync app [] user_id deleted = sync
mark_users sync app (id ∷ ids) user_id deleted =
    mark_users (mark_for_app sync app id (deleted && id == user_id)) app ids user_id deleted

unfoldable pub mark_users_apps :
    Dict (Dict ResourceSyncState)
    → List App
    → List String
    → String
    → Bool
    → Dict (Dict ResourceSyncState)
unfolding mark_users
mark_users_apps sync [] ids user_id deleted = sync
mark_users_apps sync (app ∷ apps) ids user_id deleted =
    mark_users_apps (mark_users sync app ids user_id deleted) apps ids user_id deleted

unfoldable pub mark_user_dirty : AppState → String → Bool → AppState
unfolding reports_of mark_users_apps
mark_user_dirty state user_id deleted = record state {
  user_sync =
      mark_users_apps state.user_sync state.apps (user_id ∷ reports_of state.users user_id) user_id
        deleted;
}

unfoldable pub mark_group_apps :
    Dict (Dict ResourceSyncState) → List App → String → Bool → Dict (Dict ResourceSyncState)
unfolding mark_for_app
mark_group_apps sync [] group_id deleted = sync
mark_group_apps sync (app ∷ apps) group_id deleted =
    mark_group_apps (mark_for_app sync app group_id deleted) apps group_id deleted

unfoldable pub mark_group_dirty : AppState → String → Bool → AppState
unfolding mark_group_apps
mark_group_dirty state group_id deleted = record state {
  group_sync = mark_group_apps state.group_sync state.apps group_id deleted;
}

unfoldable pub initial_user_rows : List User → Dict ResourceSyncState → Dict ResourceSyncState
initial_user_rows [] rows = rows
initial_user_rows (u ∷ us) rows =
    initial_user_rows us (insert rows u.id (record zero_sync { dirty = true; deleted = u.deleted }))

unfoldable pub initial_group_rows : List Group → Dict ResourceSyncState → Dict ResourceSyncState
initial_group_rows [] rows = rows
initial_group_rows (g ∷ gs) rows =
    initial_group_rows gs
      (insert rows g.id (record zero_sync { dirty = true; deleted = g.deleted }))

unfoldable pub initialize_app_sync : AppState → String → AppState
unfolding initial_user_rows initial_group_rows
initialize_app_sync state app_id = record state {
  user_sync = insert state.user_sync app_id (initial_user_rows state.users []);
  group_sync = insert state.group_sync app_id (initial_group_rows state.groups []);
}

abbrev is_empty {ℓ} : {V : Type ℓ} → Dict V → Bool
is_empty [] = true
is_empty (e ∷ m) = false

unfoldable pub app_has_sync_state : AppState → String → Bool
app_has_sync_state state app_id =
    not (is_empty (inner state.user_sync app_id)) || not (is_empty (inner state.group_sync app_id))
