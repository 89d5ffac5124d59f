-- ===== src/Sync/Plan/Agrees.antt =====
-- PlanSync beside the start reports of SyncDirtyStateWithContext.
use scimtest.Prelude.{
  String, Bool, true, false, List, [], ◌∷◌, map, filter, ◌≡◌, refl, ◌==◌, if◌then◌else◌, Bool-cases,
  inl, inr,
}
use scimtest.Directory.{User, Group}
use scimtest.Sync.Plan.{SyncPlanEntry, plan_operation, plan_users, plan_groups}
use scimtest.Scim.Pass.{operation_for}
use scimtest.Scim.Progress.Starts.{Start}

-- The engine reports a deletion that needs no request as a deletion; the plan says forget.
abbrev as_reported : String → String
as_reported operation = if operation == "forget" then "delete" else operation

-- The type and the ID of an entry, and its operation as it is reported.
abbrev pub planned : SyncPlanEntry → Start
planned e = (e.resource_type, e.resource_id, as_reported e.operation)

plan_operation-as_reported :
    (d : Bool) (r : String) → as_reported (plan_operation d r) ≡ operation_for "update" d r
unfolding plan_operation
plan_operation-as_reported true r = elim (Bool-cases (r == "")) [
  | inl e ↦ rw e refl
  | inr e ↦ rw e refl
]
plan_operation-as_reported false r = elim (Bool-cases (r == "")) [
  | inl e ↦ rw e refl
  | inr e ↦ rw e refl
]

-- The plan of the users, as their starts are reported.
pub planned_users :
    (us : List User)
    → map planned (plan_users us)
      ≡ map
          (λ u. ("user", u.id, operation_for "update" u.deleted u.remote_id))
          (filter (λ u. u.dirty) us)
unfolding plan_users
planned_users [] = refl
planned_users (u ∷ us) = elim (Bool-cases u.dirty) [
  | inl e ↦ rw (e, plan_operation-as_reported u.deleted u.remote_id, planned_users us) refl
  | inr e ↦ rw e (planned_users us)
]

pub planned_groups :
    (gs : List Group)
    → map planned (plan_groups gs)
      ≡ map
          (λ g. ("group", g.id, operation_for "update" g.deleted g.remote_id))
          (filter (λ g. g.dirty) gs)
unfolding plan_groups
planned_groups [] = refl
planned_groups (g ∷ gs) = elim (Bool-cases g.dirty) [
  | inl e ↦ rw (e, plan_operation-as_reported g.deleted g.remote_id, planned_groups gs) refl
  | inr e ↦ rw e (planned_groups gs)
]
