-- ===== src/Sync/Merge/RoundTrip.antt =====
-- StateForApp after MergeAppSyncState.
use scimtest.Prelude.{
  String, Bool, true, ◌||◌, some, List, [], ◌∷◌, map, ◌≡◌, sym, ap, subst, ◌∙◌, arith, All,
  Distinct, ok, Bool-cases, Option-cases, inl, inr,
}
use scimtest.Prelude.Dict.{Dict, lookup, inner}
use scimtest.Directory.{
  User, Group, App, AppState, ResourceSyncState, user_by_id, group_by_id, app_by_id,
}
use scimtest.Sync.Project.{project_user, project_group, project_app, config_for_app, state_for_app}
use scimtest.Sync.Merge.{user_row, group_row, merge_app_sync_state}
use scimtest.Sync.Merge.Rows.{user_row-merge, group_row-merge}
use scimtest.Sync.Purge.Filter.{user_ids, group_ids}
use scimtest.Sync.Merge.Again.{
  map_congr, FindsAll, finds_all, user_by_id-project, user_ids-project, project_user_again,
  FindsAllGroups, finds_all_groups, group_by_id-project, group_ids-project, project_group_again,
}

module _ (state synced : AppState) (app_id : String) where
  rows : Dict ResourceSyncState
  rows = inner state.user_sync app_id

  group_rows : Dict ResourceSyncState
  group_rows = inner state.group_sync app_id

  merged : AppState
  merged = merge_app_sync_state state app_id synced

  abbrev projected_users : List User
  projected_users = map (project_user rows) state.users

  module _ (same : synced.users ≡ projected_users) (d : Distinct (user_ids state.users)) where
    row_again :
        (u : User)
        → user_by_id state.users u.id ≡ some u
        → lookup (inner merged.user_sync app_id) u.id ≡ some (user_row (project_user rows u))
    unfolding merged
    row_again u found =
        user_row-merge state synced app_id u.id
          (subst Distinct (sym (ap user_ids same ∙ user_ids-project rows state.users)) d)
        ∙ ground
            (arith, ap (λ us. user_by_id us u.id) same, user_by_id-project rows state.users u.id)

    again :
        (us : List User)
        → FindsAll state.users us
        → All (λ u. project_user (inner merged.user_sync app_id) u ≡ project_user rows u) us
    again [] h = tt
    again (u ∷ us) h =
        (project_user_again rows (inner merged.user_sync app_id) u (row_again u h.0), again us h.1)

    users_again :
        map
          (project_user (inner (merge_app_sync_state state app_id synced).user_sync app_id))
          state.users
        ≡ map (project_user (inner state.user_sync app_id)) state.users
    unfolding merged rows
    users_again = map_congr _ _ state.users (again state.users (finds_all state.users d))

  module _ (us : List User) (same : synced.groups ≡ map (project_group us group_rows) state.groups)
      (d : Distinct (group_ids state.groups)) where
    group_row_again :
        (g : Group)
        → group_by_id state.groups g.id ≡ some g
        → lookup (inner merged.group_sync app_id) g.id
          ≡ some (group_row (project_group us group_rows g))
    unfolding merged
    group_row_again g found =
        group_row-merge state synced app_id g.id (
          subst Distinct (sym (ap group_ids same ∙ group_ids-project us group_rows state.groups)) d)
        ∙ ground (
          arith,
          ap (λ gs. group_by_id gs g.id) same,
          group_by_id-project us group_rows state.groups g.id,
        )

    groups_again_at :
        (gs : List Group)
        → FindsAllGroups state.groups gs
        → All
            (λ g.
              project_group us (inner merged.group_sync app_id) g ≡ project_group us group_rows g)
            gs
    groups_again_at [] h = tt
    groups_again_at (g ∷ gs) h = (
      project_group_again us group_rows (inner merged.group_sync app_id) g (group_row_again g h.0),
      groups_again_at gs h.1,
    )

    groups_again :
        map
          (project_group us (inner (merge_app_sync_state state app_id synced).group_sync app_id))
          state.groups
        ≡ map (project_group us (inner state.group_sync app_id)) state.groups
    unfolding merged group_rows
    groups_again =
        map_congr _ _ state.groups (groups_again_at state.groups (finds_all_groups state.groups d))

or_same : (b : Bool) → (b || b) ≡ b
or_same b = ground arith

module _ (state : AppState) (app : App) (app_id : String) (du : Distinct (user_ids state.users))
    (dg : Distinct (group_ids state.groups)) where
  projected : AppState
  projected = project_app state app app_id

  stored : AppState
  stored = merge_app_sync_state state app_id projected

  enabled_users :
      app.scim_enabled ≡ true
      → projected.users ≡ map (project_user (inner state.user_sync app_id)) state.users
  unfolding projected project_app
  enabled_users e = rw e

  enabled_groups :
      app.scim_enabled ≡ true
      → projected.groups
        ≡ map
            (project_group
              (map (project_user (inner state.user_sync app_id)) state.users)
              (inner state.group_sync app_id))
            state.groups
  unfolding projected project_app
  enabled_groups e = rw e

  project_app_again :
      project_app stored app app_id
      ≡ record projected { user_sync = stored.user_sync; group_sync = stored.group_sync }
  unfolding projected stored project_app config_for_app merge_app_sync_state rows group_rows
  project_app_again = elim (Bool-cases app.scim_enabled) [
    | inl e ↦ ground (
      arith,
      users_again state projected app_id (enabled_users e) du,
      groups_again state projected app_id
          (map (project_user (inner state.user_sync app_id)) state.users) (enabled_groups e) dg,
      or_same state.config.scim_enterprise_used,
    )
    | inr e ↦ ground (arith, or_same state.config.scim_enterprise_used)
  ]

state_for_app_found :
    (state : AppState) (app : App) (app_id : String)
    → app_by_id state.apps app_id ≡ some app
    → state_for_app state app_id ≡ ok (project_app state app app_id)
unfolding state_for_app
state_for_app_found state app app_id e = rw (e, state_for_app)

found_app :
    (state p : AppState) (app_id : String)
    → state_for_app state app_id ≡ ok p
    → (app : App) × (app_by_id state.apps app_id ≡ some app) × (project_app state app app_id ≡ p)
unfolding state_for_app
found_app state p app_id h = elim (Option-cases (app_by_id state.apps app_id)) [
  | inl e ↦ absurd (cc (rw (e, state_for_app) at h))
  | inr (app, e) ↦ (app, e, cc (rw (e, state_for_app) at h))
]

-- Where users have distinct IDs, and groups too: if the projection of a state for an app is stored
-- as the result of a sync, the projection of the stored state is again that projection, but for the
-- stored rows themselves.
pub project-merge :
    (state p : AppState) (app_id : String)
    → Distinct (user_ids state.users)
    → Distinct (group_ids state.groups)
    → state_for_app state app_id ≡ ok p
    → state_for_app (merge_app_sync_state state app_id p) app_id
      ≡ ok (record p {
        user_sync = (merge_app_sync_state state app_id p).user_sync;
        group_sync = (merge_app_sync_state state app_id p).group_sync;
      })
project-merge state p app_id du dg h =
    let (app, e, same) = found_app state p app_id h in
    subst
      (λ q.
        state_for_app (merge_app_sync_state state app_id q) app_id
        ≡ ok (record q {
          user_sync = (merge_app_sync_state state app_id q).user_sync;
          group_sync = (merge_app_sync_state state app_id q).group_sync;
        }))
      same
      (state_for_app_found (merge_app_sync_state state app_id (project_app state app app_id)) app
          app_id (unfold merge_app_sync_state in e)
        ∙ unfold projected stored in ap ok (project_app_again state app app_id du dg))
