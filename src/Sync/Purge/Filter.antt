-- ===== src/Sync/Purge/Filter.antt =====
-- The loop over the users of PurgeFullySyncedDeletions, which edits the state while it walks over it.
use scimtest.Prelude.{
  String, not, none, List, [], ◌∷◌, map, filter, ◌≡◌, ◌≢◌, refl, ◌==◌, arith, if◌then◌else◌, All,
  Distinct, eq_iff, Option-cases, Bool-cases, inl, inr,
}
use scimtest.Prelude.Dict.{Dict, lookup, remove, inner, lookup-remove, lookup-map}
use scimtest.Directory.{User, Group, App, AppState, ResourceSyncState}
use scimtest.Sync.Purge.{
  remove_rows, resource_deleted_everywhere, forget_user, is_gone, purge_users,
}

abbrev pub Rows : Type 0
Rows = Dict (Dict ResourceSyncState)

-- The rows of every app, after an ID is removed from all of them.
pub lookup-remove_rows :
    (sync : Rows) (id app_id j : String)
    → lookup (inner (remove_rows sync id) app_id) j
      ≡ (if id == j then none else lookup (inner sync app_id) j)
unfolding remove_rows lookup
lookup-remove_rows sync id app_id j = elim (Option-cases (lookup sync app_id)) [
  | inl e ↦ rw (lookup-map (λ m. remove m id) sync app_id) (ground arith)
  | inr (m, e) ↦
      rw (lookup-map (λ m. remove m id) sync app_id) (ground (arith, lookup-remove m id j))
]

pub deleted_everywhere-remove_rows :
    (apps : List App) (sync : Rows) (id j : String)
    → id ≢ j
    → resource_deleted_everywhere apps (remove_rows sync id) j
      ≡ resource_deleted_everywhere apps sync j
unfolding resource_deleted_everywhere
deleted_everywhere-remove_rows [] sync id j h = refl
deleted_everywhere-remove_rows (app ∷ apps) sync id j h = ground (
  arith,
  deleted_everywhere-remove_rows apps sync id j h,
  lookup-remove_rows sync id app.id j,
  eq_iff id j,
)

abbrev pub user_ids : List User → List String
user_ids = map (λ u. u.id)

abbrev pub group_ids : List Group → List String
group_ids = map (λ g. g.id)

-- Two states purge the same users of a list.
abbrev pub SameUsers : AppState → AppState → List User → Type 0
SameUsers s t = All (λ u. is_gone s u ≡ is_gone t u)

pub SameUsers-forget :
    (s t : AppState) (id : String) (us : List User)
    → All (λ j. id ≢ j) (user_ids us)
    → SameUsers s t us
    → SameUsers (forget_user s id) t us
unfolding is_gone forget_user
SameUsers-forget s t id [] d h = tt
SameUsers-forget s t id (u ∷ us) d h = (
  ground (arith, deleted_everywhere-remove_rows s.apps s.user_sync id u.id d.0, h.0),
  SameUsers-forget s t id us d.1 h.1,
)

pub SameUsers-refl : (s : AppState) (us : List User) → SameUsers s s us
SameUsers-refl s [] = tt
SameUsers-refl s (u ∷ us) = (refl, SameUsers-refl s us)

pub purge_users-filter :
    (us : List User) (s t : AppState)
    → Distinct (user_ids us)
    → SameUsers s t us
    → (purge_users us s).0 ≡ filter (λ u. not (is_gone t u)) us
unfolding purge_users
purge_users-filter [] s t d h = refl
purge_users-filter (u ∷ us) s t d h = elim (Bool-cases (is_gone s u)) [
  | inl e ↦ ground (
    arith,
    purge_users-filter us (forget_user s u.id) t d.1 (SameUsers-forget s t u.id us d.0 h.1),
    h.0,
  )
  | inr e ↦ ground (arith, purge_users-filter us s t d.1 h.1, h.0)
]
