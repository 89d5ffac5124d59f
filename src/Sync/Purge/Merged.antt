-- ===== src/Sync/Purge/Merged.antt =====
-- MergeAppSyncState and the PurgeFullySyncedDeletions after it.
use scimtest.Prelude.{
  ℕ, zero, suc, String, true, none, some, List, [], ◌∷◌, ◌≡◌, refl, ◌∙◌, Distinct, arith, eq_iff,
  get_elem?,
}
use scimtest.Prelude.Dict.{lookup, inner}
use scimtest.Directory.{User, App, AppState, user_by_id}
use scimtest.Sync.Merge.{merge_app_sync_state, tombstone}
use scimtest.Sync.Merge.Rows.{user_tombstone, user_row-merge}
use scimtest.Sync.Purge.{
  deleted_for_app, sync_deletion_settled, resource_deleted_everywhere, is_gone,
  purge_fully_synced_deletions,
}
use scimtest.Sync.Purge.Filter.{user_ids}
use scimtest.Sync.Purge.Traces.{IsForgotten, purge-IsForgotten}

user_tombstone-deleted :
    (us : List User) (i : ℕ) (u : User)
    → get_elem? us i ≡ some u
    → u.deleted ≡ true
    → user_tombstone us u.id ≡ some tombstone
user_tombstone-deleted [] i u found deleted = cc
user_tombstone-deleted (v ∷ us) zero u found deleted = ground (arith, eq_iff v.id u.id)
user_tombstone-deleted (v ∷ us) (suc i) u found deleted =
    ground (arith, user_tombstone-deleted us i u found deleted)

merged_row :
    (state synced : AppState) (app_id : String) (i : ℕ) (u : User)
    → Distinct (user_ids synced.users)
    → get_elem? state.users i ≡ some u
    → u.deleted ≡ true
    → user_by_id synced.users u.id ≡ none
    → lookup (inner (merge_app_sync_state state app_id synced).user_sync app_id) u.id
      ≡ some tombstone
merged_row state synced app_id i u d found deleted lost =
    user_row-merge state synced app_id u.id d
    ∙ rw (lost, user_tombstone-deleted state.users i u found deleted) refl

merge-is_gone :
    (state synced : AppState) (app : App) (i : ℕ) (u : User)
    → state.apps ≡ app ∷ []
    → Distinct (user_ids synced.users)
    → get_elem? state.users i ≡ some u
    → u.deleted ≡ true
    → user_by_id synced.users u.id ≡ none
    → is_gone (merge_app_sync_state state app.id synced) u ≡ true
unfolding is_gone resource_deleted_everywhere deleted_for_app sync_deletion_settled
merge-is_gone state synced app i u apps d found deleted lost =
    let row = merged_row state synced app.id i u d found deleted lost in
    unfold merge_app_sync_state in rw (deleted, apps, row) refl

-- In an environment with one app, where the users of the directory have distinct IDs, and those that
-- a sync returned too: a deleted user of the directory that the sync did not return leaves no trace
-- once the result is stored and the deletions are purged: no history, no row, no membership.
pub purge-merge :
    (state synced : AppState) (app : App) (i : ℕ) (u : User)
    → state.apps ≡ app ∷ []
    → Distinct (user_ids state.users)
    → Distinct (user_ids synced.users)
    → get_elem? state.users i ≡ some u
    → u.deleted ≡ true
    → user_by_id synced.users u.id ≡ none
    → IsForgotten u.id (purge_fully_synced_deletions (merge_app_sync_state state app.id synced))
purge-merge state synced app i u apps d ds found deleted lost =
    purge-IsForgotten (merge_app_sync_state state app.id synced) i u
      (unfold merge_app_sync_state in d) (unfold merge_app_sync_state in found)
      (merge-is_gone state synced app i u apps ds found deleted lost)
