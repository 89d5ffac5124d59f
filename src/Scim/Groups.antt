-- ===== src/Scim/Groups.antt =====
-- syncDirtyGroups and reconcileGroups. The users are those that the pass over the users left.
pub mod Accounting
pub mod Live
pub mod Settled
pub mod Starts
use scimtest.Prelude.{
  ◌+◌, String, Bool, true, false, not, ◌&&◌, ◌||◌, Option, none, some, List, [], ◌∷◌, ◌++◌, ◌==◌,
  if◌then◌else◌, Result, ok, err,
}
use scimtest.Directory.{User, Group}
use scimtest.Scim.Resource.{ScimGroupResource, new_group_resource, group_matches_remote}
use scimtest.Scim.Client.{ScimError, not_found, other, message, is_stopping_scim_error, Client}
use scimtest.Scim.Progress.{Reporter, start_group, report_group}
use scimtest.Scim.Pass.{Step, go, halt, SyncCounts, operation_for}

pub record GroupPass (W : Type 0) : Type 0 where
  pub next : List Group
  pub counts : SyncCounts
  pub reporter : Reporter
  pub world : W

module _ {W : Type 0} where
  unfoldable pub keep_group : Group → GroupPass W → GroupPass W
  keep_group g p = record p { next = p.next ++ g ∷ [] }

  -- The closure `fail` of the two group loops; only reconcile sets the dirty flag.
  unfoldable pub fail_group : Bool → Group → String → ScimError → GroupPass W → Step (GroupPass W)
  unfolding keep_group
  fail_group sets_dirty g operation e p =
      let failed = record g { last_error = message e; dirty = sets_dirty || g.dirty } in
      let p' = keep_group failed (record p {
        counts = record p.counts { failed = p.counts.failed + 1 };
        reporter = report_group p.reporter failed operation "Failed";
      }) in
      if is_stopping_scim_error e then halt e p' else go p'

  unfoldable pub drop_group : Group → String → String → GroupPass W → GroupPass W
  drop_group g operation status p = record p {
    counts = record p.counts { deleted = p.counts.deleted + 1 };
    reporter = report_group p.reporter g operation status;
  }

  unfoldable pub after_delete_group :
      Bool → Group → String → GroupPass W → Result ScimError (Unit {0}) × W → Step (GroupPass W)
  unfolding fail_group drop_group
  after_delete_group sets_dirty g operation p (err e, w) =
      fail_group sets_dirty g operation e (record p { world = w })
  after_delete_group sets_dirty g operation p (ok _, w) =
      go (drop_group g operation "Deleted" (record p { world = w }))

  unfoldable pub after_create_group :
      Bool
      → Group
      → String
      → String
      → GroupPass W
      → Result ScimError (String × Bool) × W
      → Step (GroupPass W)
  unfolding fail_group keep_group
  after_create_group sets_dirty g operation done p (err e, w) =
      fail_group sets_dirty g operation e (record p { world = w })
  after_create_group sets_dirty g operation done p (ok (remote_id, adopted), w) =
      let created = record g { remote_id = remote_id; dirty = false } in
      let p' = keep_group created (record p { world = w }) in
      if adopted
      then go (record p' {
        counts = record p.counts { adopted = p.counts.adopted + 1 };
        reporter = report_group p.reporter created done "Adopted";
      })
      else go (record p' {
        counts = record p.counts { created = p.counts.created + 1 };
        reporter = report_group p.reporter created done "Created";
      })

  unfoldable pub after_replace_group :
      Bool
      → Group
      → String
      → String
      → GroupPass W
      → Result ScimError (Unit {0}) × W
      → Step (GroupPass W)
  unfolding fail_group keep_group
  after_replace_group sets_dirty g operation done p (err e, w) =
      fail_group sets_dirty g operation e (record p { world = w })
  after_replace_group sets_dirty g operation done p (ok _, w) =
      let replaced = record g { dirty = false } in
      let p' = keep_group replaced (record p { world = w }) in
      go (record p' {
        counts = record p.counts { updated = p.counts.updated + 1 };
        reporter = report_group p.reporter replaced done "Updated";
      })

  -- The loop over the groups: an error that stops it leaves the rest as they were.
  unfoldable pub group_loop :
      (Group → GroupPass W → Step (GroupPass W))
      → List Group
      → GroupPass W
      → GroupPass W × Option ScimError
  group_loop step [] p = (p, none)
  group_loop step (g ∷ gs) p = elim (step g p) [
    | go p' ↦ group_loop step gs p'
    | halt e p' ↦ (record p' { next = p'.next ++ gs }, some e)
  ]

module _ {W : Type 0} (c : Client W) (users : List User) where
  -- A dirty group, its last error cleared.
  unfoldable pub sync_dirty_group : Group → GroupPass W → Step (GroupPass W)
  unfolding after_delete_group after_create_group after_replace_group
  sync_dirty_group g p =
      let operation = operation_for "update" g.deleted g.remote_id in
      let p' = record p { reporter = start_group p.reporter g operation } in
      if g.deleted && g.remote_id == ""
      then go (drop_group g operation "Deleted locally" p')
      else if g.deleted
      then after_delete_group false g operation p' (c.delete_group g p'.world)
      else if g.remote_id == ""
      then after_create_group false g operation operation p' (c.create_group g users p'.world)
      else after_replace_group false g operation operation p' (c.replace_group g users p'.world)

  unfoldable pub sync_group : Group → GroupPass W → Step (GroupPass W)
  unfolding sync_dirty_group
  sync_group g p =
      if not g.dirty then go (keep_group g p) else sync_dirty_group (record g { last_error = "" }) p

  -- The remote group was read: a desired payload that cannot be built fails the group.
  unfoldable pub compare_group :
      Group
      → String
      → GroupPass W
      → ScimGroupResource
      → Result ScimError ScimGroupResource
      → Step (GroupPass W)
  unfolding after_replace_group
  compare_group g operation p remote (err e) = fail_group true g operation e p
  compare_group g operation p remote (ok desired) =
      if group_matches_remote desired remote
      then (let checked = record g { dirty = false } in
          let p' = keep_group checked p in
          go (record p' {
            counts = record p.counts { in_sync = p.counts.in_sync + 1 };
            reporter = report_group p.reporter checked operation "In sync";
          }))
      else after_replace_group true g operation "update" p (c.replace_group g users p.world)

  pub desired_group : Group → Result ScimError ScimGroupResource
  desired_group g = elim (new_group_resource g users) [
    | ok r ↦ ok r
    | err e ↦ err (other (c.describe e))
  ]

  unfoldable pub after_check_group :
      Group → String → GroupPass W → Result ScimError ScimGroupResource × W → Step (GroupPass W)
  unfolding after_create_group compare_group desired_group
  after_check_group g operation p (err (not_found s), w) =
      after_create_group true g operation "create" p (c.create_group g users w)
  after_check_group g operation p (err e, w) =
      fail_group true g operation e (record p { world = w })
  after_check_group g operation p (ok remote, w) =
      compare_group g operation (record p { world = w }) remote (desired_group g)

  -- A group, its last error cleared.
  unfoldable pub reconcile_cleared_group : Group → GroupPass W → Step (GroupPass W)
  unfolding after_delete_group after_create_group after_check_group
  reconcile_cleared_group g p =
      let operation = operation_for "check" g.deleted g.remote_id in
      let p' = record p { reporter = start_group p.reporter g operation } in
      if g.deleted && g.remote_id == ""
      then go (drop_group g operation "Deleted locally" p')
      else if g.deleted
      then after_delete_group true g operation p' (c.delete_group g p'.world)
      else if g.remote_id == ""
      then after_create_group true g operation operation p' (c.create_group g users p'.world)
      else after_check_group g operation p' (c.get_group g p'.world)

  unfoldable pub reconcile_group : Group → GroupPass W → Step (GroupPass W)
  unfolding reconcile_cleared_group
  reconcile_group g p = reconcile_cleared_group (record g { last_error = "" }) p

  unfoldable pub sync_groups : List Group → GroupPass W → GroupPass W × Option ScimError
  unfolding group_loop sync_group
  sync_groups = group_loop sync_group

  unfoldable pub reconcile_groups : List Group → GroupPass W → GroupPass W × Option ScimError
  unfolding group_loop reconcile_group
  reconcile_groups = group_loop reconcile_group
