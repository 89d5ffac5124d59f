-- ===== src/Scim/Import/Replace/Unique.antt =====
-- The loop over the users of an import: the IDs, and what its maps know.
use scimtest.Prelude.{
  String, Bool, true, false, ◌||◌, Option, some, List, [], ◌∷◌, ◌++◌, map, map-append, ◌==◌,
  if◌then◌else◌, from_option, any, trim_space, Result, ok, err, All, All-append, Distinct, ◌≡◌, ◌≢◌,
  refl, sym, arith, eq_iff, ◌∙◌, Bool-cases, split_if, inl, inr,
}
use scimtest.Prelude.Dict.{Dict, lookup, insert, lookup-insert}
use scimtest.Directory.{User}
use scimtest.Scim.Resource.{ScimUserResource}
use scimtest.Scim.Http.{GoLibrary}
use scimtest.Scim.Import.{Ids, ImportedUsers, imported_user, imported_user_match, add_imported_user}
use scimtest.Scim.Import.Replace.{choose_user_id, accept_user, after_user_id, import_users}

-- Whether an ID is one of a list's.
abbrev pub has_id : List String → String → Bool
has_id ids id = any (λ x. x == id) ids

has_id-append :
    (xs ys : List String) (id : String) → has_id (xs ++ ys) id ≡ has_id xs id || has_id ys id
has_id-append [] ys id = refl
has_id-append (x ∷ xs) ys id = ground (arith, has_id-append xs ys id)

Distinct-snoc :
    (xs : List String) (id : String) → Distinct xs → has_id xs id ≡ false → Distinct (xs ++ id ∷ [])
Distinct-snoc [] id d h = (tt, tt)
Distinct-snoc (x ∷ xs) id d h =
    let fresh : x ≢ id = ground (arith, h, eq_iff x id) in
    (
      All-append (λ y. x ≢ y) xs (id ∷ []) d.0 (fresh, tt),
      Distinct-snoc xs id d.1 (ground (arith, h)),
    )

-- The IDs so far, and the set of those that the loop has seen.
pub record IsUnique (ids : List String) (seen : Dict Bool) : Type 0 where
  pub unique : Distinct ids
  pub agrees : (id : String) → has_id ids id ≡ from_option (lookup seen id) false

pub IsUnique-snoc :
    (ids : List String) (seen : Dict Bool) (id : String)
    → IsUnique ids seen
    → from_option (lookup seen id) false ≡ false
    → IsUnique (ids ++ id ∷ []) (insert seen id true)
IsUnique-snoc ids seen id h fresh = record {
  unique = Distinct-snoc ids id h.unique (ground (arith, h.agrees id, fresh));
  agrees =
      λ j. ground (arith, has_id-append ids (id ∷ []) j, h.agrees j, lookup-insert seen id j true);
}

-- Remote IDs stand for users of the import.
abbrev pub Resolves : List String → Dict String → Type 0
Resolves ids m = (k id : String) → lookup m k ≡ some id → has_id ids id ≡ true

has_id-old :
    (ids : List String) (x id : String) → has_id ids id ≡ true → has_id (ids ++ x ∷ []) id ≡ true
has_id-old ids x id h = ground (arith, has_id-append ids (x ∷ []) id, h)

has_id-new : (ids : List String) (x id : String) → x ≡ id → has_id (ids ++ x ∷ []) id ≡ true
has_id-new ids x id h = ground (arith, has_id-append ids (x ∷ []) id, h, eq_iff x id)

Resolves-old :
    (ids : List String) (m : Dict String) (x : String) → Resolves ids m → Resolves (ids ++ x ∷ []) m
Resolves-old ids m x h k id e = has_id-old ids x id (h k id e)

Resolves-insert :
    (ids : List String) (m : Dict String) (r x : String)
    → Resolves ids m
    → Resolves (ids ++ x ∷ []) (insert m r x)
Resolves-insert ids m r x h k id e =
    let e' : (if r == k then some x else lookup m k) ≡ some id = sym (lookup-insert m r k x) ∙ e in
    elim (Bool-cases (r == k)) [
      | inl b ↦ let same : some x ≡ some id = cc (b, e') in has_id-new ids x id (cc same)
      | inr b ↦ let found : lookup m k ≡ some id = cc (b, e') in has_id-old ids x id (h k id found)
    ]

Resolves-add :
    (ids : List String) (m : Dict String) (r x : String)
    → Resolves ids m
    → (blank : Bool) → Resolves (ids ++ x ∷ []) (if blank then m else insert m r x)
Resolves-add ids m r x h true = Resolves-old ids m x h
Resolves-add ids m r x h false = Resolves-insert ids m r x h

-- A user as it comes out of a resource, before its manager is known.
abbrev pub IsFresh : User → Type 0
IsFresh u = (u.manager_id ≡ "") × (u.dirty ≡ false) × (u.deleted ≡ false) × (u.last_error ≡ "")

abbrev pub user_ids : List User → List String
user_ids us = map (λ u. u.id) us

pub record IsConsistent (so_far : ImportedUsers) : Type 0 where
  pub ids : IsUnique (user_ids so_far.users) so_far.seen
  pub resolves : Resolves (user_ids so_far.users) so_far.remote_to_local
  pub fresh : All IsFresh so_far.users

IsConsistent-add :
    (u : User) (so_far : ImportedUsers)
    → IsConsistent so_far
    → IsFresh u
    → from_option (lookup so_far.seen u.id) false ≡ false
    → IsConsistent (add_imported_user u so_far)
unfolding add_imported_user
IsConsistent-add u so_far h fresh new =
    let ids = user_ids so_far.users in
    let grown : user_ids (so_far.users ++ u ∷ []) ≡ ids ++ u.id ∷ [] =
      map-append (λ x. x.id) so_far.users (u ∷ []) in
    record {
      ids = rw grown (IsUnique-snoc ids so_far.seen u.id h.ids new);
      resolves =
          rw grown (
            Resolves-add ids so_far.remote_to_local u.remote_id u.id h.resolves
              (u.remote_id == ""));
      fresh = All-append IsFresh so_far.users (u ∷ []) h.fresh (fresh, tt);
    }

-- What holds of a result, if there is one.
abbrev pub Holds : {A S : Type 0} → (A → Type 0) → Result String A × S → Type 0
Holds P (ok a, s) = P a
Holds P (err e, s) = Unit

module _ (lib : GoLibrary) {S : Type 0} (ids : Ids S) where
  accept_user-Holds :
      (u : User) (so_far : ImportedUsers)
      (go_on : ImportedUsers → S → Result String ImportedUsers × S) (s : S)
      → IsConsistent so_far
      → IsFresh u
      → ((next : ImportedUsers) (s : S) → IsConsistent next → Holds IsConsistent (go_on next s))
      → Holds IsConsistent (accept_user lib ids u so_far go_on s)
  unfolding accept_user
  accept_user-Holds u so_far go_on s h fresh k =
      split_if (Holds IsConsistent) (from_option (lookup so_far.seen u.id) false) _ _ (λ _. tt)
        (λ new. k _ s (IsConsistent-add u so_far h fresh new))

  after_user_id-Holds :
      (r : ScimUserResource) (existing : Option User) (so_far : ImportedUsers)
      (go_on : ImportedUsers → S → Result String ImportedUsers × S) (id : Result String String × S)
      → IsConsistent so_far
      → ((next : ImportedUsers) (s : S) → IsConsistent next → Holds IsConsistent (go_on next s))
      → Holds IsConsistent (after_user_id lib ids r existing so_far go_on id)
  unfolding after_user_id imported_user
  after_user_id-Holds r existing so_far go_on (err e, s) h k = tt
  after_user_id-Holds r existing so_far go_on (ok id, s) h k =
      accept_user-Holds _ so_far go_on s h (refl, refl, refl, refl) k

  pub import_users-Holds :
      (users : List User) (rs : List ScimUserResource) (so_far : ImportedUsers) (s : S)
      → IsConsistent so_far
      → Holds IsConsistent (import_users lib ids users rs so_far s)
  unfolding import_users
  import_users-Holds users [] so_far s h = h
  import_users-Holds users (r ∷ rs) so_far s h =
      after_user_id-Holds r (imported_user_match users r) so_far (import_users lib ids users rs)
        (choose_user_id lib ids (imported_user_match users r) (trim_space r.external_id) s) h
        (λ next s' h'. import_users-Holds users rs next s' h')
