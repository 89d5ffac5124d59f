-- ===== src/Scim/Engine/Settled.antt =====
-- What SyncDirtyStateWithContext leaves to do.
use scimtest.Prelude.{◌+◌, false, Option, none, some, ◌≡◌, All, arith, ltb}
use scimtest.Directory.{AppState}
use scimtest.Scim.Client.{ScimError, Client}
use scimtest.Scim.Pass.{UserPass, Ends}
use scimtest.Scim.Users.{sync_users}
use scimtest.Scim.Groups.{GroupPass, sync_groups}
use scimtest.Scim.Groups.Settled.{IsClean, Fine, Any, sync_groups-Fine}
use scimtest.Scim.Engine.{start_groups, finish, sync_dirty_state}

module _ {W : Type 0} (state : AppState) where
  with_groups :
      (p : UserPass W) (r : GroupPass W × Option ScimError)
      → Ends Fine Any r
      → r.1 ≡ none
      → ltb 0 (p.counts.failed + r.0.counts.failed) ≡ false
      → All IsClean r.0.next
  with_groups p (q, none) h stopped failed = h (ground arith)
  with_groups p (q, some e) h stopped failed = cc

  finish-IsClean :
      (c : Client W) (r : UserPass W × Option ScimError)
      → (finish (sync_groups c) state r).stopped ≡ none
      → (finish (sync_groups c) state r).failed ≡ false
      → All IsClean (finish (sync_groups c) state r).state.groups
  unfolding finish start_groups
  finish-IsClean c (p, some e) stopped failed = cc
  finish-IsClean c (p, none) stopped failed =
      with_groups p (sync_groups c p.next p.groups (start_groups p))
        (sync_groups-Fine c p.next p.groups (start_groups p) (λ k. tt)) stopped failed

-- A sync that no error stopped and in which nothing failed leaves every group clean: also those that
-- became dirty because the sync deleted a user from them.
pub sync_dirty_state-IsClean :
    {W : Type 0} (c : Client W) (state : AppState) (w : W)
    → (sync_dirty_state c state w).stopped ≡ none
    → (sync_dirty_state c state w).failed ≡ false
    → All IsClean (sync_dirty_state c state w).state.groups
unfolding sync_dirty_state
sync_dirty_state-IsClean c state w = finish-IsClean state c (sync_users c state.users _)
