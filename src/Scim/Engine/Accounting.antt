-- ===== src/Scim/Engine/Accounting.antt =====
-- The counts and the progress of a run, over both passes.
use scimtest.Prelude.{is_some, true, ◌⊎◌, ℕ, ◌+◌, ◌≤◌, Option, none, some, List, ◌≡◌, length, arith}
use scimtest.Directory.{User, Group, AppState}
use scimtest.Scim.Client.{ScimError, Client}
use scimtest.Scim.Progress.{new_reporter, report, count_dirty_resources}
use scimtest.Scim.Pass.{UserPass, SyncCounts, Ends, total}
use scimtest.Scim.Users.{start_users, sync_users, reconcile_users}
use scimtest.Scim.Users.Accounting.{dirty_groups}
use scimtest.Scim.Users.Accounting.Passes.{
  sync_users-Balanced, reconcile_users-Balanced, Balanced, Within,
}
use scimtest.Scim.Groups.{GroupPass, sync_groups, reconcile_groups}
use scimtest.Scim.Groups.Accounting
use scimtest.Scim.Groups.Accounting.{sync_groups-Balanced, reconcile_groups-Balanced}
use scimtest.Scim.Engine.{
  SyncResult, finish, sync_dirty_state, reconcile_state, start_groups, state_after_users, result,
}

-- All the resources that a pass's counts speak of, those in sync too.
abbrev pub counted : SyncCounts → ℕ
counted k = total k + k.in_sync

-- Every report is one count and no report passes the total; a run that is not stopped reports
-- exactly its total.
abbrev pub IsAccounted : {W : Type 0} → SyncResult W → Type 0
IsAccounted r =
    (counted r.user_counts + counted r.group_counts ≡ r.reporter.processed)
    × (r.reporter.processed ≤ r.reporter.total)
    × ((is_some r.stopped ≡ true) ⊎ (r.reporter.processed ≡ r.reporter.total))

module _ {W : Type 0} where
  module _ (left : List Group → ℕ)
      (pass : List User → List Group → GroupPass W → GroupPass W × Option ScimError)
      (groups : (base : ℕ) (us : List User) (gs : List Group) (q : GroupPass W)
        → Accounting.Balanced base (left gs) q
        → Ends (Accounting.Balanced base 0) (Accounting.Within base) (pass us gs q))
      (state : AppState) where
    with_groups :
        (p : UserPass W) (r : GroupPass W × Option ScimError)
        → Ends
            (Accounting.Balanced p.reporter.processed 0)
            (Accounting.Within p.reporter.processed)
            r
        → Balanced left 0 p
        → IsAccounted (result (record (state_after_users state p) { groups = r.0.next }) r.1 p r.0)
    unfolding result
    with_groups p (q, none) h k = ground arith
    with_groups p (q, some e) h k = ground arith

    finish-IsAccounted :
        (r : UserPass W × Option ScimError)
        → Ends (Balanced left 0) (Within left) r
        → IsAccounted (finish pass state r)
    unfolding finish total
    finish-IsAccounted (p, some e) h = ground arith
    finish-IsAccounted (p, none) h =
        with_groups p (pass p.next p.groups (start_groups p))
          (groups p.reporter.processed p.next p.groups (start_groups p) (omega arith)) h

module _ {W : Type 0} (c : Client W) (state : AppState) (w : W) where
  -- A sync of the dirty resources, whatever the server answers, counts every report once, never
  -- reports more than its total, and reports the whole total unless an error stops it.
  pub sync_dirty_state-IsAccounted : IsAccounted (sync_dirty_state c state w)
  unfolding sync_dirty_state start_users new_reporter report total count_dirty_resources
  sync_dirty_state-IsAccounted =
      finish-IsAccounted dirty_groups (sync_groups c)
        (λ base us gs q h. sync_groups-Balanced base c us gs q h) state (sync_users c state.users _)
        (sync_users-Balanced c state.users _ (omega arith))

  -- A reconcile of the directory, whatever the server answers, counts every report once, never
  -- reports more than its total, and reports the whole total unless an error stops it.
  pub reconcile_state-IsAccounted : IsAccounted (reconcile_state c state w)
  unfolding reconcile_state start_users new_reporter report total
  reconcile_state-IsAccounted =
      finish-IsAccounted length (reconcile_groups c)
        (λ base us gs q h. reconcile_groups-Balanced base c us gs q h) state
        (reconcile_users c state.users _) (reconcile_users-Balanced c state.users _ (omega arith))
