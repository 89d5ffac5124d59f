-- ===== src/Sync/Mark/Initial.antt =====
-- What a sync finds after InitializeAppSync.
use scimtest.Prelude.{
  String, Bool, true, false, not, ◌&&◌, ◌||◌, some, List, [], ◌∷◌, ◌++◌, if◌then◌else◌, map, filter,
  ◌==◌, ◌≡◌, ◌≢◌, refl, ap, fun_ext, arith, eq_iff, All, Distinct,
}
use scimtest.Prelude.Dict.{Dict, lookup, insert, lookup-insert, inner-insert_self}
use scimtest.Directory.{
  User, Group, App, AppState, ResourceSyncState, zero_sync, user_label, full_name,
}
use scimtest.Sync.Project.{project_user, project_group, project_app, is_deleted_user, row_or_dirty}
use scimtest.Sync.Plan.{SyncPlanEntry, plan_operation, plan_users, plan_groups, plan_sync}
use scimtest.Sync.Purge.Filter.{user_ids, group_ids}
use scimtest.Sync.Mark.{initial_user_rows, initial_group_rows, initialize_app_sync}

abbrev Rows : Type 0
Rows = Dict ResourceSyncState

-- The row that a reset gives to a resource.
abbrev fresh : Bool → ResourceSyncState
fresh deleted = record zero_sync { dirty = true; deleted = deleted }

initial_user_rows-absent :
    (us : List User) (rows : Rows) (id : String)
    → All (λ j. id ≢ j) (user_ids us)
    → lookup (initial_user_rows us rows) id ≡ lookup rows id
unfolding initial_user_rows
initial_user_rows-absent [] rows id h = refl
initial_user_rows-absent (u ∷ us) rows id h = ground (
  arith,
  initial_user_rows-absent us (insert rows u.id (fresh u.deleted)) id h.1,
  lookup-insert rows u.id id (fresh u.deleted),
  eq_iff u.id id,
  h.0,
)

abbrev HasFreshRow : Rows → User → Type 0
HasFreshRow rows u = lookup rows u.id ≡ some (fresh u.deleted)

initial_user_rows-HasFreshRow :
    (us : List User) (rows : Rows)
    → Distinct (user_ids us)
    → All (HasFreshRow (initial_user_rows us rows)) us
unfolding initial_user_rows
initial_user_rows-HasFreshRow [] rows d = tt
initial_user_rows-HasFreshRow (u ∷ us) rows d =
    let rows' = insert rows u.id (fresh u.deleted) in
    (
      ground (
        arith,
        initial_user_rows-absent us rows' u.id d.0,
        lookup-insert rows u.id u.id (fresh u.deleted),
        eq_iff u.id u.id,
      ),
      initial_user_rows-HasFreshRow us rows' d.1,
    )

-- A user that the app has never sent.
abbrev pub reset_user : User → User
reset_user u = record u { remote_id = ""; dirty = true; last_error = "" }

or_idem : (b : Bool) → (b || b) ≡ b
or_idem true = refl
or_idem false = refl

project_users-reset :
    (us : List User) (rows : Rows)
    → All (HasFreshRow rows) us
    → map (project_user rows) us ≡ map reset_user us
unfolding project_user row_or_dirty
project_users-reset [] rows h = refl
project_users-reset (u ∷ us) rows h =
    rw (h.0, project_users-reset us rows h.1, or_idem u.deleted) refl

initial_group_rows-absent :
    (gs : List Group) (rows : Rows) (id : String)
    → All (λ j. id ≢ j) (group_ids gs)
    → lookup (initial_group_rows gs rows) id ≡ lookup rows id
unfolding initial_group_rows
initial_group_rows-absent [] rows id h = refl
initial_group_rows-absent (g ∷ gs) rows id h = ground (
  arith,
  initial_group_rows-absent gs (insert rows g.id (fresh g.deleted)) id h.1,
  lookup-insert rows g.id id (fresh g.deleted),
  eq_iff g.id id,
  h.0,
)

abbrev HasFreshGroupRow : Rows → Group → Type 0
HasFreshGroupRow rows g = lookup rows g.id ≡ some (fresh g.deleted)

initial_group_rows-HasFreshGroupRow :
    (gs : List Group) (rows : Rows)
    → Distinct (group_ids gs)
    → All (HasFreshGroupRow (initial_group_rows gs rows)) gs
unfolding initial_group_rows
initial_group_rows-HasFreshGroupRow [] rows d = tt
initial_group_rows-HasFreshGroupRow (g ∷ gs) rows d =
    let rows' = insert rows g.id (fresh g.deleted) in
    (
      ground (
        arith,
        initial_group_rows-absent gs rows' g.id d.0,
        lookup-insert rows g.id g.id (fresh g.deleted),
        eq_iff g.id g.id,
      ),
      initial_group_rows-HasFreshGroupRow gs rows' d.1,
    )

-- A group that the app has never sent, without its deleted members.
abbrev pub reset_group : List User → Group → Group
reset_group users g = record g {
  member_ids = filter (λ id. not (is_deleted_user users id)) g.member_ids;
  remote_id = "";
  dirty = true;
  last_error = "";
}

is_deleted_user-reset :
    (us : List User) (id : String) → is_deleted_user (map reset_user us) id ≡ is_deleted_user us id
unfolding is_deleted_user
is_deleted_user-reset [] id = refl
is_deleted_user-reset (u ∷ us) id =
    ap (λ b. (u.deleted && u.id == id) || b) (is_deleted_user-reset us id)

project_groups-reset :
    (us : List User) (gs : List Group) (rows : Rows)
    → All (HasFreshGroupRow rows) gs
    → map (project_group (map reset_user us) rows) gs ≡ map (reset_group us) gs
unfolding project_group row_or_dirty
project_groups-reset us [] rows h = refl
project_groups-reset us (g ∷ gs) rows h =
    rw (h.0, project_groups-reset us gs rows h.1, or_idem g.deleted)
      (ap
        (λ (test : String → Bool).
          record g {
            member_ids = filter (λ id. not (test id)) g.member_ids;
            remote_id = "";
            dirty = true;
            last_error = "";
          }
          ∷ map (reset_group us) gs)
        (fun_ext (is_deleted_user-reset us)))

-- What a reset plans for a resource: only a deleted one, which the server does not have, is forgotten.
abbrev pub reset_operation : Bool → String
reset_operation deleted = if deleted then "forget" else "create"

abbrev pub reset_user_entry : User → SyncPlanEntry
reset_user_entry u = record {
  resource_type = "user";
  resource_id = u.id;
  label = user_label u;
  operation = reset_operation u.deleted;
}

abbrev pub reset_group_entry : Group → SyncPlanEntry
reset_group_entry g = record {
  resource_type = "group";
  resource_id = g.id;
  label = g.display_name;
  operation = reset_operation g.deleted;
}

plan_operation-reset : (deleted : Bool) → plan_operation deleted "" ≡ reset_operation deleted
unfolding plan_operation
plan_operation-reset true = refl
plan_operation-reset false = refl

plan_users-reset : (us : List User) → plan_users (map reset_user us) ≡ map reset_user_entry us
unfolding plan_users user_label full_name
plan_users-reset [] = refl
plan_users-reset (u ∷ us) = rw (plan_operation-reset u.deleted, plan_users-reset us) refl

plan_groups-reset :
    (users : List User) (gs : List Group)
    → plan_groups (map (reset_group users) gs) ≡ map reset_group_entry gs
unfolding plan_groups
plan_groups-reset users [] = refl
plan_groups-reset users (g ∷ gs) =
    rw (plan_operation-reset g.deleted, plan_groups-reset users gs) refl

-- Where users have distinct IDs, and groups too, what the next sync of an enabled app that was reset
-- finds and plans: every user and group of the directory is dirty, without a remote ID and without an
-- error, as deleted as in the directory, and the groups are without their deleted members; PlanSync
-- lists them all in order, to create a live one and to forget a deleted one.
pub initialize_app_sync-reset :
    (state : AppState) (app : App) (app_id : String)
    → Distinct (user_ids state.users)
    → Distinct (group_ids state.groups)
    → app.scim_enabled ≡ true
    → let projected = project_app (initialize_app_sync state app_id) app app_id in
      (projected.users ≡ map reset_user state.users)
      × (projected.groups ≡ map (reset_group state.users) state.groups)
      × (plan_sync projected
          ≡ map reset_user_entry state.users ++ map reset_group_entry state.groups)
unfolding project_app initialize_app_sync plan_sync
initialize_app_sync-reset state app app_id du dg e =
    let rows = initial_user_rows state.users [] in
    let group_rows = initial_group_rows state.groups [] in
    rw
      (
        e,
        inner-insert_self state.user_sync app_id rows,
        inner-insert_self state.group_sync app_id group_rows,
        project_users-reset state.users rows (initial_user_rows-HasFreshRow state.users [] du),
        project_groups-reset state.users state.groups group_rows
            (initial_group_rows-HasFreshGroupRow state.groups [] dg),
        plan_users-reset state.users,
        plan_groups-reset state.users state.groups,
      )
      (refl, refl, refl)
