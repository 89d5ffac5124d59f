-- ===== src/Scim/Engine.antt =====
-- SyncDirtyStateWithContext and ReconcileStateWithContext, once the client has been made: first the
-- users, then, unless an error stopped them, the groups. The status text is not modelled.
pub mod Accounting
pub mod Live
pub mod Members
pub mod Silent
pub mod Settled
pub mod Starts
use scimtest.Prelude.{◌+◌, Bool, Option, none, some, List, [], length, ltb}
use scimtest.Directory.{User, Group, AppState}
use scimtest.Scim.Client.{ScimError, Client}
use scimtest.Scim.Progress.{Reporter, new_reporter, report, count_dirty_resources}
use scimtest.Scim.Pass.{UserPass, SyncCounts, zero_counts, total}
use scimtest.Scim.Users.{start_users, sync_users, reconcile_users}
use scimtest.Scim.Groups.{GroupPass, sync_groups, reconcile_groups}

-- The result of a run, with the reporter and the client that it leaves.
pub record SyncResult (W : Type 0) : Type 0 where
  pub state : AppState
  pub stopped : Option ScimError
  pub failed : Bool
  pub changed : Bool
  pub user_counts : SyncCounts
  pub group_counts : SyncCounts
  pub reporter : Reporter
  pub world : W

module _ {W : Type 0} where
  -- The state after the pass over the users.
  unfoldable pub state_after_users : AppState → UserPass W → AppState
  state_after_users state p = record state {
    config = record state.config { scim_enterprise_used = p.directory.enterprise };
    users = p.next;
    groups = p.groups;
  }

  unfoldable pub start_groups : UserPass W → GroupPass W
  start_groups p = record {
    next = [];
    counts = zero_counts;
    reporter = p.reporter;
    world = p.world;
  }

  result : AppState → Option ScimError → UserPass W → GroupPass W → SyncResult W
  result state stopped p q = record {
    state = state;
    stopped = stopped;
    failed = ltb 0 (p.counts.failed + q.counts.failed);
    changed = ltb 0 (total p.counts + total q.counts);
    user_counts = p.counts;
    group_counts = q.counts;
    reporter = q.reporter;
    world = q.world;
  }

  -- The pass over the groups runs only when no error stopped the users.
  unfoldable pub finish :
      (List User → List Group → GroupPass W → GroupPass W × Option ScimError)
      → AppState
      → UserPass W × Option ScimError
      → SyncResult W
  unfolding result start_groups state_after_users
  finish pass state (p, some e) = result (state_after_users state p) (some e) p (start_groups p)
  finish pass state (p, none) =
      let (q, stopped) = pass p.next p.groups (start_groups p) in
      result (record (state_after_users state p) { groups = q.next }) stopped p q

module _ {W : Type 0} (c : Client W) where
  unfoldable pub sync_dirty_state : AppState → W → SyncResult W
  unfolding finish start_users
  sync_dirty_state state w =
      let reporter =
        report (new_reporter (count_dirty_resources state)) "" "" "" "" "" "Starting sync" "" in
      finish (sync_groups c) state (sync_users c state.users (start_users state reporter w))

  unfoldable pub reconcile_state : AppState → W → SyncResult W
  unfolding finish start_users
  reconcile_state state w =
      let reporter =
        report (new_reporter (length state.users + length state.groups)) "" "" "" "" ""
          "Starting reconcile" "" in
      finish (reconcile_groups c) state
        (reconcile_users c state.users (start_users state reporter w))
