-- ===== src/Sync/Merge/Again.antt =====
-- The projection of StateForApp beside the rows that MergeAppSyncState stores for it.
use mathlib.Core.Option
use scimtest.Prelude.{
  String, some, List, [], ◌∷◌, map, ◌≡◌, ◌≢◌, refl, ap, arith, All, Distinct, eq_iff,
}
use scimtest.Prelude.Dict.{Dict, lookup}
use scimtest.Directory.{User, Group, ResourceSyncState, user_by_id, group_by_id}
use scimtest.Sync.Project.{project_user, project_group}
use scimtest.Sync.Merge.{user_row, group_row}
use scimtest.Sync.Purge.Filter.{user_ids, group_ids}

pub map_congr {ℓ κ} :
    {A : Type ℓ} {B : Type κ} (f g : A → B) (xs : List A)
    → All (λ x. f x ≡ g x) xs
    → map f xs ≡ map g xs
map_congr f g [] h = refl
map_congr f g (x ∷ xs) h = cc (h.0, map_congr f g xs h.1)

-- Each member of a list with distinct IDs is what a lookup of its ID finds.
abbrev pub FindsAll : List User → List User → Type 0
FindsAll us = All (λ u. user_by_id us u.id ≡ some u)

pub FindsAll-cons :
    (v : User) (us vs : List User)
    → All (λ j. v.id ≢ j) (user_ids vs)
    → FindsAll us vs
    → FindsAll (v ∷ us) vs
unfolding user_by_id
FindsAll-cons v us [] d h = tt
FindsAll-cons v us (u ∷ vs) d h =
    (ground (arith, eq_iff v.id u.id, h.0, d.0), FindsAll-cons v us vs d.1 h.1)

pub finds_all : (us : List User) → Distinct (user_ids us) → FindsAll us us
finds_all [] d = tt
finds_all (u ∷ us) d = (
  unfold user_by_id in ground (arith, eq_iff u.id u.id),
  FindsAll-cons u us us d.0 (finds_all us d.1),
)

pub user_by_id-project :
    (rows : Dict ResourceSyncState) (us : List User) (id : String)
    → user_by_id (map (project_user rows) us) id ≡ Option.map (project_user rows) (user_by_id us id)
unfolding user_by_id project_user
user_by_id-project rows [] id = refl
user_by_id-project rows (u ∷ us) id = ground (arith, user_by_id-project rows us id)

pub user_ids-project :
    (rows : Dict ResourceSyncState) (us : List User)
    → user_ids (map (project_user rows) us) ≡ user_ids us
unfolding project_user
user_ids-project rows [] = refl
user_ids-project rows (u ∷ us) = ap (◌∷◌ u.id) (user_ids-project rows us)

-- A row that holds what was projected projects to the same user.
pub project_user_again :
    (rows rows' : Dict ResourceSyncState) (u : User)
    → lookup rows' u.id ≡ some (user_row (project_user rows u))
    → project_user rows' u ≡ project_user rows u
unfolding project_user user_row
project_user_again rows rows' u h = ground arith

abbrev pub FindsAllGroups : List Group → List Group → Type 0
FindsAllGroups gs = All (λ g. group_by_id gs g.id ≡ some g)

pub FindsAllGroups-cons :
    (h : Group) (gs hs : List Group)
    → All (λ j. h.id ≢ j) (group_ids hs)
    → FindsAllGroups gs hs
    → FindsAllGroups (h ∷ gs) hs
unfolding group_by_id
FindsAllGroups-cons h gs [] d k = tt
FindsAllGroups-cons h gs (g ∷ hs) d k =
    (ground (arith, eq_iff h.id g.id, k.0, d.0), FindsAllGroups-cons h gs hs d.1 k.1)

pub finds_all_groups : (gs : List Group) → Distinct (group_ids gs) → FindsAllGroups gs gs
finds_all_groups [] d = tt
finds_all_groups (g ∷ gs) d = (
  unfold group_by_id in ground (arith, eq_iff g.id g.id),
  FindsAllGroups-cons g gs gs d.0 (finds_all_groups gs d.1),
)

pub group_by_id-project :
    (us : List User) (rows : Dict ResourceSyncState) (gs : List Group) (id : String)
    → group_by_id (map (project_group us rows) gs) id
      ≡ Option.map (project_group us rows) (group_by_id gs id)
unfolding group_by_id project_group
group_by_id-project us rows [] id = refl
group_by_id-project us rows (g ∷ gs) id = ground (arith, group_by_id-project us rows gs id)

pub group_ids-project :
    (us : List User) (rows : Dict ResourceSyncState) (gs : List Group)
    → group_ids (map (project_group us rows) gs) ≡ group_ids gs
unfolding project_group
group_ids-project us rows [] = refl
group_ids-project us rows (g ∷ gs) = ap (◌∷◌ g.id) (group_ids-project us rows gs)

pub project_group_again :
    (us : List User) (rows rows' : Dict ResourceSyncState) (g : Group)
    → lookup rows' g.id ≡ some (group_row (project_group us rows g))
    → project_group us rows' g ≡ project_group us rows g
unfolding project_group group_row
project_group_again us rows rows' g h = ground arith
