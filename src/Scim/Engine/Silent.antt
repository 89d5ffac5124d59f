-- ===== src/Scim/Engine/Silent.antt =====
-- SyncDirtyStateWithContext on a state without a dirty resource.
use scimtest.Prelude.{
  ◌+◌, false, not, if◌then◌else◌, none, some, List, [], ◌∷◌, ◌++◌, ◌≡◌, refl, sym, ap, ◌∙◌, subst,
  arith, count_if, ltb, append-nil, append_assoc,
}
use scimtest.Directory.{User, Group, AppState}
use scimtest.Scim.Client.{Client}
use scimtest.Scim.Pass.{UserPass, go, halt, keep_user, total}
use scimtest.Scim.Progress.{Reporter, new_reporter, report, count_dirty_resources}
use scimtest.Scim.Users.{
  start_users, sync_user, sync_dirty_user, user_loop, sync_users, send_awaited_managers,
}
use scimtest.Scim.Groups.{
  GroupPass, keep_group, sync_dirty_group, sync_group, group_loop, sync_groups,
}
use scimtest.Scim.Engine.{SyncResult, start_groups, finish, sync_dirty_state}

module _ {W : Type 0} (c : Client W) where
  sync_user-clean :
      (u : User) (p : UserPass W) → u.dirty ≡ false → sync_user c u p ≡ go (keep_user u p)
  unfolding sync_user
  sync_user-clean u p = ap (λ b.
      if not b then go (keep_user u p) else sync_dirty_user c (record u { last_error = "" }) p)

  sync_users-clean :
      (us : List User) (p : UserPass W)
      → count_if (λ u. u.dirty) us ≡ 0
      → p.awaiting ≡ []
      → sync_users c us p ≡ (record p { next = p.next ++ us }, none)
  unfolding sync_users user_loop send_awaited_managers keep_user
  sync_users-clean [] p h e =
      ap (λ is. send_awaited_managers c is p) e
      ∙ ap (λ us. (record p { next = us }, none)) (sym (append-nil p.next))
  sync_users-clean (u ∷ us) p h e =
      ap
        (λ s. elim s [
          | go p' ↦ user_loop c (sync_user c) us p'
          | halt e p' ↦ (record p' { next = p'.next ++ us }, some e)
        ])
        (sync_user-clean u p (ground arith))
      ∙ sync_users-clean us (keep_user u p) (ground arith) e
      ∙ ap (λ vs. (record p { next = vs }, none)) (append_assoc p.next (u ∷ []) us)

  sync_group-clean :
      (users : List User) (g : Group) (p : GroupPass W)
      → g.dirty ≡ false
      → sync_group c users g p ≡ go (keep_group g p)
  unfolding sync_group
  sync_group-clean users g p = ap (λ b.
      if not b
      then go (keep_group g p)
      else sync_dirty_group c users (record g { last_error = "" }) p)

  sync_groups-clean :
      (users : List User) (gs : List Group) (p : GroupPass W)
      → count_if (λ g. g.dirty) gs ≡ 0
      → sync_groups c users gs p ≡ (record p { next = p.next ++ gs }, none)
  unfolding sync_groups group_loop keep_group
  sync_groups-clean users [] p h =
      ap (λ gs. (record p { next = gs }, none)) (sym (append-nil p.next))
  sync_groups-clean users (g ∷ gs) p h =
      ap
        (λ s. elim s [
          | go p' ↦ group_loop (sync_group c users) gs p'
          | halt e p' ↦ (record p' { next = p'.next ++ gs }, some e)
        ])
        (sync_group-clean users g p (ground arith))
      ∙ sync_groups-clean users gs (keep_group g p) (ground arith)
      ∙ ap (λ hs. (record p { next = hs }, none)) (append_assoc p.next (g ∷ []) gs)

-- A result with the users, the groups and the server of before, and nothing to report.
pub record IsSilent {W : Type 0} (state : AppState) (w : W) (r : SyncResult W) : Type 0 where
  pub users : r.state.users ≡ state.users
  pub groups : r.state.groups ≡ state.groups
  pub world : r.world ≡ w
  pub stopped : r.stopped ≡ none
  pub failed : r.failed ≡ false
  pub changed : r.changed ≡ false

module _ {W : Type 0} (c : Client W) (state : AppState) (w : W) where
  finish-IsSilent :
      (reporter : Reporter)
      → count_if (λ g. g.dirty) state.groups ≡ 0
      → IsSilent state w (
          finish
            (sync_groups c)
            state
            (record (start_users state reporter w) { next = state.users }, none))
  unfolding finish start_users start_groups total
  finish-IsSilent reporter h =
      let start : GroupPass W = start_groups (start_users state reporter w) in
      let e = sync_groups-clean c state.users state.groups start h in
      record {
        users = refl;
        groups = ap (λ r. r.0.next) e;
        world = ap (λ r. r.0.world) e;
        stopped = ap (λ r. r.1) e;
        failed = ap (λ r. ltb 0 (0 + r.0.counts.failed)) e;
        changed = ap (λ r. ltb 0 (0 + total r.0.counts)) e;
      }

  -- A sync of a state without a dirty resource leaves the client and its server as they were, for
  -- any client, changes no user and no group, and ends without an error, a failure or a change to
  -- report.
  pub sync_dirty_state-IsSilent :
      count_dirty_resources state ≡ 0 → IsSilent state w (sync_dirty_state c state w)
  unfolding sync_dirty_state start_users count_dirty_resources
  sync_dirty_state-IsSilent h =
      let reporter =
        report (new_reporter (count_dirty_resources state)) "" "" "" "" "" "Starting sync" "" in
      subst (λ r. IsSilent state w (finish (sync_groups c) state r))
        (sym (sync_users-clean c state.users (start_users state reporter w) (omega arith) refl))
        (finish-IsSilent reporter (omega arith))
