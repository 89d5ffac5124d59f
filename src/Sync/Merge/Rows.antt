-- ===== src/Sync/Merge/Rows.antt =====
-- What an app remembers of each resource after a sync has been merged.
use mathlib.Core.Option
use scimtest.Prelude.{
  String, ◌&&◌, Option, none, some, List, [], ◌∷◌, any, ◌≡◌, ◌≢◌, refl, ap, subst, ◌∙◌, ◌==◌, arith,
  if◌then◌else◌, All, Distinct, eq_iff, Bool-cases, inl, inr,
}
use scimtest.Prelude.Dict.{
  Dict, lookup, insert, inner, lookup-insert, inner-insert_self, inner-insert_ne,
}
use scimtest.Directory.{User, Group, AppState, ResourceSyncState, user_by_id, group_by_id}
use scimtest.Sync.Merge.{
  user_row, group_row, tombstone, synced_user_rows, synced_group_rows, add_user_tombstones,
  add_group_tombstones, merge_app_sync_state,
}
use scimtest.Sync.Purge.Filter.{user_ids, group_ids}

abbrev pub or_else : Option ResourceSyncState → Option ResourceSyncState → Option ResourceSyncState
or_else none b = b
or_else (some a) b = some a

pub user_by_id-absent :
    (id : String) (us : List User) → All (λ j. id ≢ j) (user_ids us) → user_by_id us id ≡ none
unfolding user_by_id
user_by_id-absent id [] h = refl
user_by_id-absent id (u ∷ us) h = ground (arith, eq_iff u.id id, user_by_id-absent id us h.1, h.0)

pub group_by_id-absent :
    (id : String) (gs : List Group) → All (λ j. id ≢ j) (group_ids gs) → group_by_id gs id ≡ none
unfolding group_by_id
group_by_id-absent id [] h = refl
group_by_id-absent id (g ∷ gs) h = ground (arith, eq_iff g.id id, group_by_id-absent id gs h.1, h.0)

lookup-synced_user_rows :
    (us : List User) (rows : Dict ResourceSyncState) (id : String)
    → Distinct (user_ids us)
    → lookup (synced_user_rows us rows) id
      ≡ or_else (Option.map user_row (user_by_id us id)) (lookup rows id)
unfolding synced_user_rows user_by_id
lookup-synced_user_rows [] rows id d = refl
lookup-synced_user_rows (u ∷ us) rows id d = elim (Bool-cases (u.id == id)) [
  | inl e ↦
      let same : u.id ≡ id = (eq_iff u.id id).0 e in
      ground (
        arith,
        lookup-synced_user_rows us (insert rows u.id (user_row u)) id d.1,
        lookup-insert rows u.id id (user_row u),
        user_by_id-absent id us (subst (λ j. All (λ k. j ≢ k) (user_ids us)) same d.0),
      )
  | inr e ↦ ground (
    arith,
    lookup-synced_user_rows us (insert rows u.id (user_row u)) id d.1,
    lookup-insert rows u.id id (user_row u),
  )
]

lookup-add_user_tombstones :
    (us : List User) (rows : Dict ResourceSyncState) (id : String)
    → lookup (add_user_tombstones us rows) id
      ≡ or_else
          (lookup rows id)
          (if any (λ u. u.deleted && u.id == id) us then some tombstone else none)
unfolding add_user_tombstones
lookup-add_user_tombstones [] rows id = ground arith
lookup-add_user_tombstones (u ∷ us) rows id = ground (
  arith,
  lookup-add_user_tombstones us rows id,
  lookup-add_user_tombstones us (insert rows u.id tombstone) id,
  lookup-insert rows u.id id tombstone,
  eq_iff u.id id,
)

lookup-synced_group_rows :
    (gs : List Group) (rows : Dict ResourceSyncState) (id : String)
    → Distinct (group_ids gs)
    → lookup (synced_group_rows gs rows) id
      ≡ or_else (Option.map group_row (group_by_id gs id)) (lookup rows id)
unfolding synced_group_rows group_by_id
lookup-synced_group_rows [] rows id d = refl
lookup-synced_group_rows (g ∷ gs) rows id d = elim (Bool-cases (g.id == id)) [
  | inl e ↦
      let same : g.id ≡ id = (eq_iff g.id id).0 e in
      ground (
        arith,
        lookup-synced_group_rows gs (insert rows g.id (group_row g)) id d.1,
        lookup-insert rows g.id id (group_row g),
        group_by_id-absent id gs (subst (λ j. All (λ k. j ≢ k) (group_ids gs)) same d.0),
      )
  | inr e ↦ ground (
    arith,
    lookup-synced_group_rows gs (insert rows g.id (group_row g)) id d.1,
    lookup-insert rows g.id id (group_row g),
  )
]

lookup-add_group_tombstones :
    (gs : List Group) (rows : Dict ResourceSyncState) (id : String)
    → lookup (add_group_tombstones gs rows) id
      ≡ or_else
          (lookup rows id)
          (if any (λ g. g.deleted && g.id == id) gs then some tombstone else none)
unfolding add_group_tombstones
lookup-add_group_tombstones [] rows id = ground arith
lookup-add_group_tombstones (g ∷ gs) rows id = ground (
  arith,
  lookup-add_group_tombstones gs rows id,
  lookup-add_group_tombstones gs (insert rows g.id tombstone) id,
  lookup-insert rows g.id id tombstone,
  eq_iff g.id id,
)

abbrev pub user_tombstone : List User → String → Option ResourceSyncState
user_tombstone us id = if any (λ u. u.deleted && u.id == id) us then some tombstone else none

-- The row of a user in the merged state of the app: what the engine returned, or else a
-- tombstone, if the directory has the user as deleted.
abbrev pub merged_user_row : AppState → AppState → String → Option ResourceSyncState
merged_user_row state synced id =
    or_else (Option.map user_row (user_by_id synced.users id)) (user_tombstone state.users id)

abbrev pub group_tombstone : List Group → String → Option ResourceSyncState
group_tombstone gs id = if any (λ g. g.deleted && g.id == id) gs then some tombstone else none

abbrev pub merged_group_row : AppState → AppState → String → Option ResourceSyncState
merged_group_row state synced id =
    or_else (Option.map group_row (group_by_id synced.groups id)) (group_tombstone state.groups id)

none-or_else : (o : Option ResourceSyncState) → or_else o none ≡ o
none-or_else none = refl
none-or_else (some r) = refl

row-of-synced_user :
    (us : List User) (id : String)
    → Distinct (user_ids us)
    → lookup (synced_user_rows us []) id ≡ Option.map user_row (user_by_id us id)
unfolding lookup
row-of-synced_user us id d = lookup-synced_user_rows us [] id d ∙ none-or_else _

row-of-synced_group :
    (gs : List Group) (id : String)
    → Distinct (group_ids gs)
    → lookup (synced_group_rows gs []) id ≡ Option.map group_row (group_by_id gs id)
unfolding lookup
row-of-synced_group gs id d = lookup-synced_group_rows gs [] id d ∙ none-or_else _

module _ (state synced : AppState) (app_id id : String) where
  pub user_row-merge :
      Distinct (user_ids synced.users)
      → lookup (inner (merge_app_sync_state state app_id synced).user_sync app_id) id
        ≡ merged_user_row state synced id
  unfolding merge_app_sync_state
  user_row-merge d =
      ap (λ m. lookup m id) (inner-insert_self state.user_sync app_id _)
      ∙ lookup-add_user_tombstones state.users (synced_user_rows synced.users []) id
      ∙ ap (λ o. or_else o (user_tombstone state.users id)) (row-of-synced_user synced.users id d)

  pub group_row-merge :
      Distinct (group_ids synced.groups)
      → lookup (inner (merge_app_sync_state state app_id synced).group_sync app_id) id
        ≡ merged_group_row state synced id
  unfolding merge_app_sync_state
  group_row-merge d =
      ap (λ m. lookup m id) (inner-insert_self state.group_sync app_id _)
      ∙ lookup-add_group_tombstones state.groups (synced_group_rows synced.groups []) id
      ∙ ap (λ o. or_else o (group_tombstone state.groups id))
          (row-of-synced_group synced.groups id d)

-- Where the users that the engine returned have distinct IDs, and its groups too, a merge gives
-- each ID of the app the row that the engine returned, or else a tombstone where the directory has
-- the resource as deleted, or else no row; and it changes no row of any other app.
pub merge_app_sync_state-rows :
    (state synced : AppState) (app_id other id : String)
    → Distinct (user_ids synced.users)
    → Distinct (group_ids synced.groups)
    → app_id ≢ other
    → let merged = merge_app_sync_state state app_id synced in
      (lookup (inner merged.user_sync app_id) id ≡ merged_user_row state synced id)
      × (lookup (inner merged.group_sync app_id) id ≡ merged_group_row state synced id)
      × (inner merged.user_sync other ≡ inner state.user_sync other)
      × (inner merged.group_sync other ≡ inner state.group_sync other)
merge_app_sync_state-rows state synced app_id other id du dg ne = (
  user_row-merge state synced app_id id du,
  group_row-merge state synced app_id id dg,
  unfold merge_app_sync_state in inner-insert_ne state.user_sync app_id other _ ne,
  unfold merge_app_sync_state in inner-insert_ne state.group_sync app_id other _ ne,
)
