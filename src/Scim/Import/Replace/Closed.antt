-- ===== src/Scim/Import/Replace/Closed.antt =====
-- The managers and the groups of an import: what they refer to.
use scimtest.Prelude.{
  ℕ, ◌+◌, String, true, false, not, ◌&&◌, ◌||◌, Option, none, some, List, [], ◌∷◌, ◌++◌, map,
  map-append, ◌==◌, length, if◌then◌else◌, from_option, trim_space, All, All-append, All-map, ◌≡◌,
  refl, arith, eq_iff, split_if,
}
use scimtest.Prelude.Dict.{Dict, lookup}
use scimtest.Directory.{User, Group}
use scimtest.Scim.Resource.{ScimUserResource, ScimGroupResource, ScimMember}
use scimtest.Scim.Import.{
  ImportedGroups, with_manager, assign_managers, imported_group, add_member, import_members,
  add_imported_group,
}
use scimtest.Scim.Import.Replace.Unique.{
  has_id, IsUnique, IsUnique-snoc, Resolves, IsFresh, user_ids,
}

-- A user in sync, whose manager, if it has one, is another user of the import.
abbrev pub IsImportedUser : List String → User → Type 0
IsImportedUser ids u =
    (u.dirty ≡ false)
    × (u.deleted ≡ false)
    × (u.last_error ≡ "")
    × (((u.manager_id == "") || (has_id ids u.manager_id && not (u.manager_id == u.id))) ≡ true)

-- A group in sync, whose members are users of the import.
abbrev pub IsImportedGroup : List String → Group → Type 0
IsImportedGroup ids g =
    (g.dirty ≡ false)
    × (g.deleted ≡ false)
    × (g.last_error ≡ "")
    × All (λ id. has_id ids id ≡ true) g.member_ids

IsFresh-imported : (ids : List String) (u : User) → IsFresh u → IsImportedUser ids u
IsFresh-imported ids u h = ground (arith, h, eq_iff u.manager_id "")

managed :
    (ids : List String) (u : User) (o : Option String)
    → ((id : String) → o ≡ some id → has_id ids id ≡ true)
    → IsFresh u
    → IsImportedUser ids
        (if from_option o "" == u.id then u else record u { manager_id = from_option o "" })
managed ids u none h fresh =
    split_if (IsImportedUser ids) ("" == u.id) u (record u { manager_id = "" })
      (λ b. IsFresh-imported ids u fresh) (λ b. ground (arith, fresh))
managed ids u (some id) h fresh =
    split_if (IsImportedUser ids) (id == u.id) u (record u { manager_id = id })
      (λ b. IsFresh-imported ids u fresh) (λ b. ground (arith, fresh, h id refl, b))

pub assign_managers-users :
    (ids : List String) (m : Dict String) (us : List User) (rs : List ScimUserResource)
    → Resolves ids m
    → All IsFresh us
    → All (IsImportedUser ids) (assign_managers m us rs)
unfolding assign_managers with_manager
assign_managers-users ids m [] rs h fresh = tt
assign_managers-users ids m (u ∷ us) [] h fresh =
    (IsFresh-imported ids u fresh.0, All-map (IsFresh-imported ids) us fresh.1)
assign_managers-users ids m (u ∷ us) (r ∷ rs) h fresh =
    (managed ids u _ (h _) fresh.0, assign_managers-users ids m us rs h fresh.1)

with_manager-id :
    (m : Dict String) (u : User) (r : ScimUserResource) → (with_manager m u r).id ≡ u.id
unfolding with_manager
with_manager-id m u r = split_if (λ v. v.id ≡ u.id) _ u _ (λ _. refl) (λ _. refl)

pub assign_managers-ids :
    (m : Dict String) (us : List User) (rs : List ScimUserResource)
    → user_ids (assign_managers m us rs) ≡ user_ids us
unfolding assign_managers
assign_managers-ids m [] rs = refl
assign_managers-ids m (u ∷ us) [] = refl
assign_managers-ids m (u ∷ us) (r ∷ rs) = rw (with_manager-id m u r, assign_managers-ids m us rs)

add_member-ids :
    (ids : List String) (o : Option String) (ms : List String × ℕ)
    → ((id : String) → o ≡ some id → has_id ids id ≡ true)
    → All (λ id. has_id ids id ≡ true) ms.0
    → All (λ id. has_id ids id ≡ true) (add_member o ms).0
unfolding add_member
add_member-ids ids none ms h k = k
add_member-ids ids (some id) ms h k = (h id refl, k)

import_members-ids :
    (ids : List String) (m : Dict String) (ms : List ScimMember)
    → Resolves ids m
    → All (λ id. has_id ids id ≡ true) (import_members m ms).0
unfolding import_members
import_members-ids ids m [] h = tt
import_members-ids ids m (x ∷ xs) h =
    add_member-ids ids (lookup m (trim_space x.value)) (import_members m xs) (h _)
      (import_members-ids ids m xs h)

add_member-length :
    (o : Option String) (ms : List String × ℕ)
    → length (add_member o ms).0 + (add_member o ms).1 ≡ length ms.0 + ms.1 + 1
unfolding add_member
add_member-length none ms = omega arith
add_member-length (some id) ms = omega arith

import_members-length :
    (m : Dict String) (ms : List ScimMember)
    → length (import_members m ms).0 + (import_members m ms).1 ≡ length ms
unfolding import_members
import_members-length m [] = refl
import_members-length m (x ∷ xs) = omega (
  arith,
  add_member-length (lookup m (trim_space x.value)) (import_members m xs),
  import_members-length m xs,
)

-- The members of the groups of the server.
abbrev pub listed : List ScimGroupResource → ℕ
listed [] = 0
listed (r ∷ rs) = length r.members + listed rs

abbrev pub kept : List Group → ℕ
kept [] = 0
kept (g ∷ gs) = length g.member_ids + kept gs

kept-snoc : (gs : List Group) (g : Group) → kept (gs ++ g ∷ []) ≡ kept gs + length g.member_ids
kept-snoc [] g = omega arith
kept-snoc (h ∷ gs) g = omega (arith, kept-snoc gs g)

abbrev pub group_ids : List Group → List String
group_ids gs = map (λ g. g.id) gs

-- The groups so far; `n` members of the server are accounted for.
pub record IsClosed (ids : List String) (n : ℕ) (so_far : ImportedGroups) : Type 0 where
  pub unique : IsUnique (group_ids so_far.groups) so_far.seen
  pub members : All (IsImportedGroup ids) so_far.groups
  pub count : kept so_far.groups + so_far.skipped ≡ n

pub IsClosed-add :
    (ids : List String) (n : ℕ) (m : Dict String) (id : String) (r : ScimGroupResource)
    (so_far : ImportedGroups)
    → Resolves ids m
    → IsClosed ids n so_far
    → from_option (lookup so_far.seen id) false ≡ false
    → IsClosed ids
        (n + length r.members)
        (add_imported_group (imported_group m id r) (import_members m r.members).1 so_far)
unfolding add_imported_group imported_group
IsClosed-add ids n m id r so_far h c new =
    let g = imported_group m id r in
    let grown : group_ids (so_far.groups ++ g ∷ []) ≡ group_ids so_far.groups ++ id ∷ [] =
      map-append (λ x. x.id) so_far.groups (g ∷ []) in
    record {
      unique = rw grown (IsUnique-snoc (group_ids so_far.groups) so_far.seen id c.unique new);
      members =
          All-append (IsImportedGroup ids) so_far.groups (g ∷ []) c.members
            ((refl, refl, refl, import_members-ids ids m r.members h), tt);
      count = omega (arith, kept-snoc so_far.groups g, c.count, import_members-length m r.members);
    }
