-- ===== src/Scim/Import/Replace/Stored.antt =====
-- importing what newSCIMUserResource sent: the loop over the users of replaceStateFromSCIM.
use scimtest.Prelude.{
  String, true, false, Option, none, some, List, [], ◌∷◌, ◌++◌, map, ◌==◌, Result, ok, ◌≡◌, ◌≢◌,
  ◌∙◌, refl, sym, ap, arith, eq_iff, All, Distinct, trim_space, append_assoc, append-nil,
}
use scimtest.Prelude.Dict.{lookup, lookup-insert}
use scimtest.Directory.{User, user_by_id}
use scimtest.Scim.Resource.{ScimUserResource, UserDirectory, new_user_resource}
use scimtest.Scim.Http.{GoLibrary}
use scimtest.Scim.Import.{
  Ids, ImportedUsers, no_users, imported_user_match, attributes_of, add_imported_user,
}
use scimtest.Scim.Import.Replace.{choose_user_id, accept_user, after_user_id, import_users}
use scimtest.Scim.Import.RoundTrip.{stored, copy_of, imported_user-stored}
use scimtest.Sync.Purge.Filter.{user_ids}
use scimtest.Sync.Merge.Again.{FindsAll, finds_all}

-- A user with an ID without white space around it, and with names, mail and username.
abbrev pub IsComplete : User → Type 0
IsComplete u =
    (trim_space u.id ≡ u.id)
    × ((u.id == "") ≡ false)
    × ((trim_space u.given_name == "") ≡ false)
    × ((trim_space u.family_name == "") ≡ false)
    × ((trim_space u.email == "") ≡ false)
    × ((trim_space u.username == "") ≡ false)

-- The user itself, with its texts trimmed, in sync, and without a manager.
abbrev pub back : User → User
back u = copy_of u u.id u.remote_id u.attributes

module _ (lib : GoLibrary) {S : Type 0} (ids : Ids S) (d : UserDirectory)
    (schemas : List String) where
  abbrev pub sent : User → ScimUserResource
  sent u = stored u d u.remote_id schemas

  match-stored :
      (users : List User) (u : User)
      → IsComplete u
      → user_by_id users u.id ≡ some u
      → imported_user_match users (sent u) ≡ some u
  unfolding imported_user_match stored new_user_resource
  match-stored users u plain found =
      let id : (trim_space u.id == "") ≡ false = ap (λ i. i == "") plain.0 ∙ plain.1 in
      let there : user_by_id users (trim_space u.id) ≡ some u =
        ap (user_by_id users) plain.0 ∙ found in
      rw (id, there) refl

  choose-stored :
      (existing : Option User) (u : User) (s : S)
      → IsComplete u
      → choose_user_id lib ids existing (trim_space (sent u).external_id) s ≡ (ok u.id, s)
  unfolding choose_user_id stored new_user_resource
  choose-stored existing u s plain = rw (plain.0, plain.1) refl

  accept-new :
      (u : User) (so_far : ImportedUsers)
      (go_on : ImportedUsers → S → Result String ImportedUsers × S) (s : S)
      → lookup so_far.seen u.id ≡ none
      → accept_user lib ids u so_far go_on s ≡ go_on (add_imported_user u so_far) s
  unfolding accept_user
  accept-new u so_far go_on s new = rw new refl

  import_user-stored :
      (users : List User) (u : User) (rs : List ScimUserResource) (so_far : ImportedUsers) (s : S)
      → d.enterprise ≡ true
      → IsComplete u
      → user_by_id users u.id ≡ some u
      → lookup so_far.seen u.id ≡ none
      → import_users lib ids users (sent u ∷ rs) so_far s
        ≡ import_users lib ids users rs (add_imported_user (back u) so_far) s
  unfolding import_users after_user_id attributes_of
  import_user-stored users u rs so_far s e plain found new =
      let go_on = import_users lib ids users rs in
      let (trimmed, id, given, family, email, username) = plain in
      ap
        (λ existing.
          after_user_id lib ids (sent u) existing so_far go_on
            (choose_user_id lib ids existing (trim_space (sent u).external_id) s))
        (match-stored users u plain found)
      ∙ ap (λ chosen. after_user_id lib ids (sent u) (some u) so_far go_on chosen)
          (choose-stored (some u) u s plain)
      ∙ ap (λ imported. accept_user lib ids imported so_far go_on s)
          (imported_user-stored u d u.remote_id schemas u.id (some u) e given family email username)
      ∙ accept-new (back u) so_far go_on s new

  -- No earlier resource gave the IDs of the users.
  abbrev AllNew : ImportedUsers → List User → Type 0
  AllNew so_far = All (λ u. lookup so_far.seen u.id ≡ none)

  AllNew-add :
      (v : User) (so_far : ImportedUsers) (us : List User)
      → All (λ j. v.id ≢ j) (user_ids us)
      → AllNew so_far us
      → AllNew (add_imported_user (back v) so_far) us
  unfolding add_imported_user
  AllNew-add v so_far [] other new = tt
  AllNew-add v so_far (u ∷ us) other new = (
    ground (arith, lookup-insert so_far.seen v.id u.id true, eq_iff v.id u.id, other.0, new.0),
    AllNew-add v so_far us other.1 new.1,
  )

  AllNew-none : (us : List User) → AllNew no_users us
  unfolding no_users lookup
  AllNew-none [] = tt
  AllNew-none (u ∷ us) = (refl, AllNew-none us)

  -- The loop gives the users, after those that it had.
  record Brings (users us : List User) (so_far : ImportedUsers) (s : S) : Type 0 where
    result : ImportedUsers
    imported : import_users lib ids users (map sent us) so_far s ≡ (ok result, s)
    same : result.users ≡ so_far.users ++ map back us

  import_all-Brings :
      (users us : List User) (so_far : ImportedUsers) (s : S)
      → d.enterprise ≡ true
      → All IsComplete us
      → FindsAll users us
      → Distinct (user_ids us)
      → AllNew so_far us
      → Brings users us so_far s
  unfolding import_users add_imported_user
  import_all-Brings users [] so_far s e plain found distinct new = record {
    result = so_far;
    imported = refl;
    same = sym (append-nil so_far.users);
  }
  import_all-Brings users (u ∷ us) so_far s e plain found distinct new =
      let next = add_imported_user (back u) so_far in
      let rest =
        import_all-Brings users us next s e plain.1 found.1 distinct.1
          (AllNew-add u so_far us distinct.0 new.1) in
      record {
        result = rest.result;
        imported =
            import_user-stored users u (map sent us) so_far s e plain.0 found.0 new.0
            ∙ rest.imported;
        same = rest.same ∙ append_assoc so_far.users (back u ∷ []) (map back us);
      }

  -- A directory whose users are imported from the payloads that they were created with, as a server
  -- stores them under their remote IDs, gets its users back, in order: each finds itself among the
  -- users, keeps its ID and its custom attributes, and is the user itself with its texts trimmed, in
  -- sync, and without a manager, which the import sets later. For users with distinct IDs without
  -- white space around them, whose names, mail and username are not blank, sent with enterprise
  -- values.
  pub import_users-stored :
      (users : List User) (s : S)
      → d.enterprise ≡ true
      → All IsComplete users
      → Distinct (user_ids users)
      → (result : ImportedUsers) × (import_users lib ids users (map sent users) no_users s
          ≡ (ok result, s))
        × (result.users ≡ map back users)
  unfolding no_users
  import_users-stored users s e plain distinct =
      let all =
        import_all-Brings users users no_users s e plain (finds_all users distinct) distinct
          (AllNew-none users) in
      (all.result, all.imported, all.same)
