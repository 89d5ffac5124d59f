-- ===== src/Sync/Mark/Rows.antt =====
-- The rows after MarkUserDirty and MarkGroupDirty.
use scimtest.Prelude.{
  ℕ, zero, suc, String, Bool, true, false, not, ◌&&◌, ◌||◌, Option, none, some, List, [], ◌∷◌, map,
  any, ◌==◌, if◌then◌else◌, from_option, ◌≡◌, ◌≢◌, refl, ap, ◌∙◌, arith, eq_iff, All, Distinct,
  get_elem?,
}
use scimtest.Prelude.Dict.{Dict, insert, inner, lookup-insert}
use scimtest.Directory.{User, App, AppState, ResourceSyncState, zero_sync}
use scimtest.Sync.Mark.{
  row, mark_resource_dirty, mark_for_app, mark_users, mark_users_apps, reports_of, mark_user_dirty,
  mark_group_apps, mark_group_dirty,
}

-- A row after its resource was marked: a paused app keeps a missing row missing.
abbrev pub marked : Bool → Bool → Option ResourceSyncState → Option ResourceSyncState
marked enabled deleted none =
    if enabled then some (record zero_sync { dirty = true; deleted = deleted }) else none
marked enabled deleted (some r) =
    some (record r { dirty = true; deleted = deleted; last_error = "" })

marked_idem :
    (enabled deleted : Bool) (o : Option ResourceSyncState)
    → marked enabled deleted (marked enabled deleted o) ≡ marked enabled deleted o
marked_idem true deleted none = refl
marked_idem false deleted none = refl
marked_idem enabled deleted (some r) = refl

abbrev Rows : Type 0
Rows = Dict (Dict ResourceSyncState)

row-insert :
    (sync : Rows) (k id a j : String) (r : ResourceSyncState)
    → row (insert sync k (insert (inner sync k) id r)) a j
      ≡ (if k == a && id == j then some r else row sync a j)
unfolding row
row-insert sync k id a j r = ground (
  arith,
  lookup-insert sync k a (insert (inner sync k) id r),
  lookup-insert (inner sync k) id j r,
  eq_iff k a,
)

row-mark_for_app :
    (sync : Rows) (app : App) (id a j : String) (d : Bool)
    → row (mark_for_app sync app id d) a j
      ≡ (if app.id == a && id == j then marked app.scim_enabled d (row sync a j) else row sync a j)
unfolding mark_for_app mark_resource_dirty
row-mark_for_app sync app id a j d =
    let old = from_option (row sync app.id id) zero_sync in
    ground (
      arith,
      row-insert sync app.id id a j (record old { dirty = true; deleted = d; last_error = "" }),
      eq_iff app.id a,
      eq_iff id j,
    )

row-mark_users :
    (sync : Rows) (app : App) (ids : List String) (user_id a j : String) (d : Bool)
    → row (mark_users sync app ids user_id d) a j ≡ (
        if app.id == a && any (λ id. id == j) ids
        then marked app.scim_enabled (d && j == user_id) (row sync a j)
        else row sync a j)
unfolding mark_users
row-mark_users sync app [] user_id a j d = ground arith
row-mark_users sync app (id ∷ ids) user_id a j d =
    let d' = d && id == user_id in
    ground (
      arith,
      row-mark_users (mark_for_app sync app id d') app ids user_id a j d,
      row-mark_for_app sync app id a j d',
      marked_idem app.scim_enabled (d && j == user_id) (row sync a j),
      eq_iff id j,
    )

abbrev pub app_ids : List App → List String
app_ids = map (λ app. app.id)

id_ne :
    (a : String) (apps : List App) (i : ℕ) (app : App)
    → All (λ id. a ≢ id) (app_ids apps)
    → get_elem? apps i ≡ some app
    → a ≢ app.id
id_ne a [] i app h found = cc
id_ne a (b ∷ apps) zero app h found = ground (arith, h.0)
id_ne a (b ∷ apps) (suc i) app h found = id_ne a apps i app h.1 found

row-mark_users_apps_absent :
    (sync : Rows) (apps : List App) (ids : List String) (user_id a j : String) (d : Bool)
    → All (λ id. a ≢ id) (app_ids apps)
    → row (mark_users_apps sync apps ids user_id d) a j ≡ row sync a j
unfolding mark_users_apps
row-mark_users_apps_absent sync [] ids user_id a j d h = refl
row-mark_users_apps_absent sync (app ∷ apps) ids user_id a j d h = ground (
  arith,
  row-mark_users_apps_absent (mark_users sync app ids user_id d) apps ids user_id a j d h.1,
  row-mark_users sync app ids user_id a j d,
  eq_iff app.id a,
  h.0,
)

row-mark_users_apps :
    (sync : Rows) (apps : List App) (ids : List String) (user_id j : String) (d : Bool) (i : ℕ)
    (app : App)
    → Distinct (app_ids apps)
    → get_elem? apps i ≡ some app
    → row (mark_users_apps sync apps ids user_id d) app.id j ≡ (
        if any (λ id. id == j) ids
        then marked app.scim_enabled (d && j == user_id) (row sync app.id j)
        else row sync app.id j)
unfolding mark_users_apps
row-mark_users_apps sync [] ids user_id j d i app h found = cc
row-mark_users_apps sync (a ∷ apps) ids user_id j d zero app h found =
    let here : a ≡ app = ground arith in
    ground (
      arith,
      here,
      row-mark_users_apps_absent (mark_users sync a ids user_id d) apps ids user_id a.id j d h.0,
      row-mark_users sync a ids user_id a.id j d,
      eq_iff a.id a.id,
    )
row-mark_users_apps sync (a ∷ apps) ids user_id j d (suc i) app h found = ground (
  arith,
  row-mark_users_apps (mark_users sync a ids user_id d) apps ids user_id j d i app h.1 found,
  row-mark_users sync a ids user_id app.id j d,
  eq_iff a.id app.id,
  id_ne a.id apps i app h.0 found,
)

-- Whether a change of the user reaches the row of an ID: its own, and those of the live users whose
-- manager it is.
abbrev pub is_reached : List User → String → String → Bool
is_reached users user_id j =
    user_id == j || any (λ u. u.id == j && not u.deleted && u.manager_id == user_id) users

any-reports_of :
    (users : List User) (user_id j : String)
    → any (λ id. id == j) (user_id ∷ reports_of users user_id) ≡ is_reached users user_id j
unfolding reports_of
any-reports_of [] user_id j = refl
any-reports_of (u ∷ us) user_id j =
    ground
      (arith, any-reports_of us user_id j, eq_iff u.id user_id, eq_iff u.id j, eq_iff user_id j)

row-mark_group_apps_absent :
    (sync : Rows) (apps : List App) (id a j : String) (d : Bool)
    → All (λ k. a ≢ k) (app_ids apps)
    → row (mark_group_apps sync apps id d) a j ≡ row sync a j
unfolding mark_group_apps
row-mark_group_apps_absent sync [] id a j d h = refl
row-mark_group_apps_absent sync (app ∷ apps) id a j d h = ground (
  arith,
  row-mark_group_apps_absent (mark_for_app sync app id d) apps id a j d h.1,
  row-mark_for_app sync app id a j d,
  eq_iff app.id a,
  h.0,
)

row-mark_group_apps :
    (sync : Rows) (apps : List App) (id j : String) (d : Bool) (i : ℕ) (app : App)
    → Distinct (app_ids apps)
    → get_elem? apps i ≡ some app
    → row (mark_group_apps sync apps id d) app.id j
      ≡ (if id == j then marked app.scim_enabled d (row sync app.id j) else row sync app.id j)
unfolding mark_group_apps
row-mark_group_apps sync [] id j d i app h found = cc
row-mark_group_apps sync (a ∷ apps) id j d zero app h found =
    let here : a ≡ app = ground arith in
    ground (
      arith,
      here,
      row-mark_group_apps_absent (mark_for_app sync a id d) apps id a.id j d h.0,
      row-mark_for_app sync a id a.id j d,
      eq_iff a.id a.id,
    )
row-mark_group_apps sync (a ∷ apps) id j d (suc i) app h found = ground (
  arith,
  row-mark_group_apps (mark_for_app sync a id d) apps id j d i app h.1 found,
  row-mark_for_app sync a id app.id j d,
  eq_iff a.id app.id,
  id_ne a.id apps i app h.0 found,
)

-- Where the apps have distinct IDs, a change of a user marks, for each app and each ID: the rows of
-- the user and of the live users whose manager it is become dirty, lose their error and keep their
-- remote ID, or are made, unless the app is paused and has no such row; of these only the row of the
-- user itself can become one of a deletion; every other row stays as it is.
pub mark_user_dirty-row :
    (state : AppState) (user_id j : String) (deleted : Bool) (i : ℕ) (app : App)
    → Distinct (app_ids state.apps)
    → get_elem? state.apps i ≡ some app
    → row (mark_user_dirty state user_id deleted).user_sync app.id j ≡ (
        if is_reached state.users user_id j
        then marked app.scim_enabled (deleted && j == user_id) (row state.user_sync app.id j)
        else row state.user_sync app.id j)
unfolding mark_user_dirty
mark_user_dirty-row state user_id j deleted i app h found =
    row-mark_users_apps state.user_sync state.apps (user_id ∷ reports_of state.users user_id)
      user_id j deleted i app h found
    ∙ ap
        (λ b.
          if b
          then marked app.scim_enabled (deleted && j == user_id) (row state.user_sync app.id j)
          else row state.user_sync app.id j)
        (any-reports_of state.users user_id j)

-- Where the apps have distinct IDs, a change of a group marks its own row for each app: it becomes
-- dirty, loses its error, keeps its remote ID and takes the deletion, or is made, unless the app is
-- paused and has no such row; every other row stays as it is.
pub mark_group_dirty-row :
    (state : AppState) (group_id j : String) (deleted : Bool) (i : ℕ) (app : App)
    → Distinct (app_ids state.apps)
    → get_elem? state.apps i ≡ some app
    → row (mark_group_dirty state group_id deleted).group_sync app.id j ≡ (
        if group_id == j
        then marked app.scim_enabled deleted (row state.group_sync app.id j)
        else row state.group_sync app.id j)
unfolding mark_group_dirty
mark_group_dirty-row state group_id j deleted i app h found =
    row-mark_group_apps state.group_sync state.apps group_id j deleted i app h found
