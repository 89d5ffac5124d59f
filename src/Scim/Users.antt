-- ===== src/Scim/Users.antt =====
-- syncDirtyUsers, reconcileUsers and sendAwaitedManagers.
mod Loop
pub mod Accounting
pub mod Live
pub mod Members
pub mod Settled
pub mod Starts
use scimtest.Prelude.{
  ℕ, ◌+◌, String, true, false, not, ◌&&◌, ◌||◌, Option, none, some, List, [], ◌∷◌, ◌++◌, get_elem?,
  modify, ◌==◌, if◌then◌else◌, Result, ok, err,
}
use scimtest.Prelude.Dict.{lookup}
use scimtest.Directory.{User, AppState}
use scimtest.Scim.Resource.{
  UserDirectory, ScimUserResource, new_user_directory, new_user_resource, user_matches_remote,
}
use scimtest.Scim.Client.{ScimError, not_found, message, is_stopping_scim_error, Client}
use scimtest.Scim.Progress.{Reporter, add_total, start_user, report_user}
use scimtest.Scim.Pass.{
  UserPass, Step, go, halt, zero_counts, operation_for, mark_users_dirty, keep_user, note_awaiting,
  fail_user, drop_user, after_delete, after_create, after_replace,
}

module _ {W : Type 0} (c : Client W) where
  -- An error of the late update; `rest` are the positions that it leaves unsent when it stops.
  unfoldable pub after_awaited :
      ℕ → User → List ℕ → UserPass W → Result ScimError (Unit {0}) × W → Step (UserPass W)
  after_awaited i u rest p (ok _, w) = go (record p {
    world = w;
    counts = record p.counts { updated = p.counts.updated + 1 };
    reporter = report_user p.reporter u "update" "Updated";
  })
  after_awaited i u rest p (err e, w) =
      let failed = record u { last_error = message e; dirty = true } in
      let p' = record p {
        world = w;
        next = modify p.next i (λ _. failed);
        counts = record p.counts { failed = p.counts.failed + 1 };
        reporter = report_user p.reporter failed "update" "Failed";
      } in
      if is_stopping_scim_error e
      then halt e (record p' { next = mark_users_dirty p'.next rest })
      else go p'

  -- One round of sendAwaitedManagers for the user at a position.
  unfoldable pub send_awaited_manager :
      ℕ → User → List ℕ → UserPass W → Option String → Step (UserPass W)
  unfolding after_awaited
  send_awaited_manager i u rest p none = go p
  send_awaited_manager i u rest p (some remote_id) =
      if remote_id == ""
      then go (record p { next = modify p.next i (λ v. record v { dirty = true }) })
      else (let p' = record p { reporter = start_user (add_total p.reporter 1) u "update" } in
          after_awaited i u rest p' (c.replace_user u p'.directory p'.world))

  -- The positions are those of users that the pass has kept.
  unfoldable pub send_awaited_managers : List ℕ → UserPass W → UserPass W × Option ScimError
  unfolding send_awaited_manager
  send_awaited_managers [] p = (p, none)
  send_awaited_managers (i ∷ is) p = elim (get_elem? p.next i) [
    | none ↦ send_awaited_managers is p
    | some u ↦ elim (send_awaited_manager i u is p (lookup p.directory.remote_ids u.manager_id)) [
      | go p' ↦ send_awaited_managers is p'
      | halt e p' ↦ (p', some e)
    ]
  ]

  -- A dirty user, its last error cleared.
  unfoldable pub sync_dirty_user : User → UserPass W → Step (UserPass W)
  unfolding after_delete after_create after_replace
  sync_dirty_user u p =
      let operation = operation_for "update" u.deleted u.remote_id in
      let p' = record p { reporter = start_user p.reporter u operation } in
      if u.deleted && u.remote_id == ""
      then go (drop_user true u operation "Deleted locally" p')
      else if u.deleted
      then after_delete false true u operation p' (c.delete_user u p'.world)
      else if u.remote_id == ""
      then after_create false u operation operation p' (c.create_user u p'.directory p'.world)
      else after_replace false u operation operation p' (c.replace_user u p'.directory p'.world)

  unfoldable pub sync_user : User → UserPass W → Step (UserPass W)
  unfolding sync_dirty_user
  sync_user u p =
      if not u.dirty then go (keep_user u p) else sync_dirty_user (record u { last_error = "" }) p

  -- What reconcile does with the answer to its check of a live user with a remote ID.
  unfoldable pub after_check :
      User → String → UserPass W → Result ScimError ScimUserResource × W → Step (UserPass W)
  unfolding after_create after_replace fail_user keep_user
  after_check u operation p (err (not_found s), w) =
      after_create true u operation "create" p (c.create_user u p.directory w)
  after_check u operation p (err e, w) = fail_user true u operation e (record p { world = w })
  after_check u operation p (ok remote, w) =
      if user_matches_remote (new_user_resource u p.directory) remote
      then (let checked = record u { dirty = false } in
          let p' = keep_user checked (note_awaiting u (record p { world = w })) in
          go (record p' {
            counts = record p.counts { in_sync = p.counts.in_sync + 1 };
            reporter = report_user p.reporter checked operation "In sync";
          }))
      else after_replace true u operation "update" p (c.replace_user u p.directory w)

  -- A user, its last error cleared.
  unfoldable pub reconcile_cleared_user : User → UserPass W → Step (UserPass W)
  unfolding after_delete after_create after_check
  reconcile_cleared_user u p =
      let operation = operation_for "check" u.deleted u.remote_id in
      let p' = record p { reporter = start_user p.reporter u operation } in
      if u.deleted && u.remote_id == ""
      then go (drop_user false u operation "Deleted locally" p')
      else if u.deleted
      then after_delete true false u operation p' (c.delete_user u p'.world)
      else if u.remote_id == ""
      then after_create true u operation operation p' (c.create_user u p'.directory p'.world)
      else after_check u operation p' (c.get_user u p'.world)

  unfoldable pub reconcile_user : User → UserPass W → Step (UserPass W)
  unfolding reconcile_cleared_user
  reconcile_user u p = reconcile_cleared_user (record u { last_error = "" }) p

  -- The loop over the users: an error that stops it leaves the rest as they were, and the awaited
  -- managers are sent when it has met every user.
  unfoldable pub user_loop :
      (User → UserPass W → Step (UserPass W))
      → List User
      → UserPass W
      → UserPass W × Option ScimError
  unfolding send_awaited_managers
  user_loop step [] p = send_awaited_managers p.awaiting p
  user_loop step (u ∷ us) p = elim (step u p) [
    | go p' ↦ user_loop step us p'
    | halt e p' ↦ (record p' { next = p'.next ++ us }, some e)
  ]

  unfoldable pub sync_users : List User → UserPass W → UserPass W × Option ScimError
  unfolding user_loop sync_user
  sync_users = user_loop sync_user

  unfoldable pub reconcile_users : List User → UserPass W → UserPass W × Option ScimError
  unfolding user_loop reconcile_user
  reconcile_users = user_loop reconcile_user

-- The directory of a pass; it sends enterprise values once the environment has used any.
unfoldable pub pass_directory : AppState → UserDirectory
pass_directory state =
    let d = new_user_directory state.users in
    record d { enterprise = d.enterprise || state.config.scim_enterprise_used }

unfoldable pub start_users : {W : Type 0} → AppState → Reporter → W → UserPass W
unfolding pass_directory
start_users state reporter w = record {
  next = [];
  counts = zero_counts;
  directory = pass_directory state;
  awaiting = [];
  groups = state.groups;
  reporter = reporter;
  world = w;
}
