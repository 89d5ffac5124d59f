-- ===== src/Scim/Engine/Starts.antt =====
-- The start reports of SyncDirtyStateWithContext beside PlanSync.
use scimtest.Prelude.{
  Option, some, none, List, [], ◌∷◌, ◌++◌, map, map-append, All, append_assoc, ◌≡◌, refl, ◌∙◌, sym,
  ap, subst, arith, Bool-cases, inl, inr,
}
use scimtest.Directory.{AppState, Group}
use scimtest.Sync.Plan.{plan_users, plan_groups, plan_sync}
use scimtest.Sync.Plan.Agrees.{planned, planned_users, planned_groups}
use scimtest.Scim.Client.{ScimError, Client}
use scimtest.Scim.Progress.{report, new_reporter, count_dirty_resources}
use scimtest.Scim.Progress.Starts.{Start, started}
use scimtest.Scim.Pass.{UserPass, Ends}
use scimtest.Scim.Users.{start_users, sync_users}
use scimtest.Scim.Users.Starts.{Within, Within-refl, group_starts}
use scimtest.Scim.Users.Starts.Late.{IsLate, Late, sync_users-Late}
use scimtest.Scim.Groups.{GroupPass, sync_groups}
use scimtest.Scim.Groups.Starts.{State, sync_groups-State}
use scimtest.Scim.Engine.{start_groups, finish, sync_dirty_state}

module _ {W : Type 0} (c : Client W) where
  abbrev pub IsGroup : Start → Type 0
  IsGroup (resource_type, id, operation) = resource_type ≡ "group"

  group_starts-IsGroup : (gs : List Group) → All IsGroup (group_starts gs)
  group_starts-IsGroup [] = tt
  group_starts-IsGroup (g ∷ gs) = elim (Bool-cases g.dirty) [
    | inl e ↦ rw e (refl, group_starts-IsGroup gs)
    | inr e ↦ rw e (group_starts-IsGroup gs)
  ]

  -- The starts of a run: those of the plan of the users, updates of users, and those of groups, among
  -- them the planned ones in their order.
  abbrev pub Follows : AppState → List Start → Type 0
  Follows state starts =
      (late : List Start) × (groups : List Start) × (starts
        ≡ map planned (plan_users state.users) ++ (late ++ groups))
      × All (IsLate c) late
      × All IsGroup groups
      × Within (map planned (plan_groups state.groups)) groups

  groups-Follows :
      (users groups : List Start) (p : UserPass W) (q : GroupPass W × Option ScimError)
      → Late c users groups p
      → Ends (State (started p.reporter.reports ++ group_starts p.groups)) (λ _. Unit) q
      → q.1 ≡ none
      → (late : List Start) × (gs : List Start) × (started q.0.reporter.reports
          ≡ users ++ (late ++ gs))
        × All (IsLate c) late
        × All IsGroup gs
        × Within groups gs
  groups-Follows users groups p (q, some e) h k stopped = ground (arith, stopped)
  groups-Follows users groups p (q, none) h k stopped = (
    h.late,
    group_starts p.groups,
    k
        ∙ ap (λ s. s ++ group_starts p.groups) h.reported
        ∙ append_assoc users h.late (group_starts p.groups),
    h.all_late,
    group_starts-IsGroup p.groups,
    h.within,
  )

  finish-Follows :
      (users groups : List Start) (state : AppState) (r : UserPass W × Option ScimError)
      → Ends (Late c users groups) (λ _. Unit) r
      → (finish (sync_groups c) state r).stopped ≡ none
      → (late : List Start) × (gs : List Start) × (started
            (finish (sync_groups c) state r).reporter.reports
          ≡ users ++ (late ++ gs))
        × All (IsLate c) late
        × All IsGroup gs
        × Within groups gs
  unfolding finish start_groups
  finish-Follows users groups state (p, some e) h stopped = ground (arith, stopped)
  finish-Follows users groups state (p, none) h stopped =
      groups-Follows users groups p (sync_groups c p.next p.groups (start_groups p)) h
        (sync_groups-State c p.next p.groups (start_groups p)) stopped

  -- The resources that a sync reports as started, in order, if no error stops it: exactly the users
  -- that PlanSync lists, each with the operation of the plan; then nothing but updates of users; then
  -- nothing but groups, among which are in order all that PlanSync lists, with the operations of the
  -- plan. For "forget", a deletion without a remote ID, the report says "delete". PlanSync lists the
  -- users and then the groups.
  pub sync_dirty_state-Follows :
      (state : AppState) (w : W)
      → (sync_dirty_state c state w).stopped ≡ none
      → (map planned (plan_sync state)
          ≡ map planned (plan_users state.users) ++ map planned (plan_groups state.groups))
        × Follows state (started (sync_dirty_state c state w).reporter.reports)
  unfolding sync_dirty_state start_users plan_sync started report new_reporter
  sync_dirty_state-Follows state w stopped =
      let users = map planned (plan_users state.users) in
      let groups = map planned (plan_groups state.groups) in
      let p =
        start_users state
          (report (new_reporter (count_dirty_resources state)) "" "" "" "" "" "Starting sync" "")
          w in
      (
        map-append planned (plan_users state.users) (plan_groups state.groups),
        finish-Follows users groups state (sync_users c state.users p)
            (subst (λ ss. Ends (Late c ss groups) (λ _. Unit) (sync_users c state.users p))
              (sym (planned_users state.users))
              (sync_users-Late c groups state.users p (
                subst (λ gs. Within gs (group_starts state.groups))
                  (sym (planned_groups state.groups)) (Within-refl (group_starts state.groups)))))
            stopped,
      )
