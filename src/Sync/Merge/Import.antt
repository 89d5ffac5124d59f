-- ===== src/Sync/Merge/Import.antt =====
-- Which users the directory has after MergeAppImportState, and which of them are deleted.
use scimtest.Prelude.{
  String, Bool, false, not, ◌&&◌, ◌||◌, List, [], ◌∷◌, ◌++◌, map, any, ◌==◌, ◌≡◌, refl, ap, All,
  arith, eq_iff, Bool-cases, inl, inr,
}
use scimtest.Prelude.Dict.{Dict, insert}
use scimtest.Directory.{User, Group, AppState}
use scimtest.Sync.Merge.{previous_users, clear_user, lost_users, merge_app_import_state}

-- Whether a list has a user with the ID, and whether it has one that is deleted.
abbrev pub has_user : List User → String → Bool
has_user us id = any (λ u. u.id == id) us

abbrev pub has_deleted : List User → String → Bool
has_deleted us id = any (λ u. u.deleted && u.id == id) us

any-append {ℓ} :
    {A : Type ℓ} (f : A → Bool) (xs ys : List A) → any f (xs ++ ys) ≡ (any f xs || any f ys)
any-append f [] ys = refl
any-append f (x ∷ xs) ys = ground (arith, any-append f xs ys)

has_user-clear :
    (us : List User) (id : String) → has_user (map (clear_user false) us) id ≡ has_user us id
has_user-clear [] id = refl
has_user-clear (u ∷ us) id = ap (λ b. u.id == id || b) (has_user-clear us id)

has_deleted-clear :
    (us : List User) (id : String) → has_deleted (map (clear_user false) us) id ≡ false
has_deleted-clear [] id = refl
has_deleted-clear (u ∷ us) id = has_deleted-clear us id

-- The entries that make a lost user with the ID.
abbrev is_lost : List User → String → String × User → Bool
is_lost imported id e = e.1.id == id && not (has_user imported e.0)

has_user-lost :
    (imported : List User) (m : Dict User) (id : String)
    → has_user (lost_users imported m) id ≡ any (is_lost imported id) m
unfolding lost_users
has_user-lost imported [] id = refl
has_user-lost imported ((k, u) ∷ m) id = ground (arith, has_user-lost imported m id)

has_deleted-lost :
    (imported : List User) (m : Dict User) (id : String)
    → has_deleted (lost_users imported m) id ≡ any (is_lost imported id) m
unfolding lost_users
has_deleted-lost imported [] id = refl
has_deleted-lost imported ((k, u) ∷ m) id = ground (arith, has_deleted-lost imported m id)

abbrev HasOwnKey : String × User → Type 0
HasOwnKey e = e.0 ≡ e.1.id

insert-HasOwnKey : (m : Dict User) (u : User) → All HasOwnKey m → All HasOwnKey (insert m u.id u)
unfolding insert
insert-HasOwnKey [] u h = (refl, tt)
insert-HasOwnKey ((k, v) ∷ m) u h = elim (Bool-cases (k == u.id)) [
  | inl e ↦ rw e (refl, h.1)
  | inr e ↦ rw e (h.0, insert-HasOwnKey m u h.1)
]

any-insert :
    (imported : List User) (m : Dict User) (u : User) (id : String)
    → All HasOwnKey m
    → any (is_lost imported id) (insert m u.id u)
      ≡ ((u.id == id && not (has_user imported id)) || any (is_lost imported id) m)
unfolding insert
any-insert imported [] u id h = ground (arith, eq_iff u.id id)
any-insert imported ((k, v) ∷ m) u id h =
    ground
      (arith, any-insert imported m u id h.1, h.0, eq_iff k u.id, eq_iff u.id id, eq_iff v.id id)

any-previous :
    (imported us : List User) (m : Dict User) (id : String)
    → All HasOwnKey m
    → any (is_lost imported id) (previous_users us m)
      ≡ ((has_user us id && not (has_user imported id)) || any (is_lost imported id) m)
unfolding previous_users
any-previous imported [] m id h = refl
any-previous imported (u ∷ us) m id h = ground (
  arith,
  any-previous imported us (insert m u.id u) id (insert-HasOwnKey m u h),
  any-insert imported m u id h,
)

-- For each ID, the directory has a user with it after an import exactly if the import or the
-- directory before it has one, and has a deleted user with it exactly if the directory before it has
-- one and the import has none, whatever the order in which the previous users are met, if every
-- entry of the map is met.
pub merge_app_import_state-users :
    (user_order : Dict User → Dict User) (group_order : Dict Group → Dict Group)
    (state imported : AppState) (app_id id : String)
    → ((m : Dict User) (test : String × User → Bool) → any test (user_order m) ≡ any test m)
    → (has_user (merge_app_import_state user_order group_order state app_id imported).users id
        ≡ (has_user imported.users id || has_user state.users id))
      × (has_deleted (merge_app_import_state user_order group_order state app_id imported).users id
          ≡ (has_user state.users id && not (has_user imported.users id)))
unfolding merge_app_import_state
merge_app_import_state-users user_order group_order state imported app_id id meets =
    let us = imported.users in
    let kept = map (clear_user false) us in
    let lost = lost_users us (user_order (previous_users state.users [])) in
    let same = meets (previous_users state.users []) (is_lost us id) in
    let previous = any-previous us state.users [] id tt in
    (
      ground (
        arith,
        any-append (λ u. u.id == id) kept lost,
        has_user-clear us id,
        has_user-lost us (user_order (previous_users state.users [])) id,
        same,
        previous,
      ),
      ground (
        arith,
        any-append (λ u. u.deleted && u.id == id) kept lost,
        has_deleted-clear us id,
        has_deleted-lost us (user_order (previous_users state.users [])) id,
        same,
        previous,
      ),
    )
