-- ===== src/Scim/Import/Replace.antt =====
-- The loops of replaceStateFromSCIM, and ImportStateFromSCIM around them.
pub mod Unique
pub mod Closed
pub mod Imported
pub mod Stored
use scimtest.Prelude.{
  ℕ, String, false, not, Option, none, some, List, [], ◌∷◌, map, ◌==◌, if◌then◌else◌, from_option,
  trim_space, Result, ok, err,
}
use scimtest.Prelude.Dict.{Dict, lookup}
use scimtest.Directory.{User, Group, AppState}
use scimtest.Scim.Resource.{ScimUserResource, ScimGroupResource}
use scimtest.Scim.Http.{GoLibrary, join}
use scimtest.Scim.Import.{
  Ids, ImportedUsers, ImportedGroups, no_users, no_groups, imported_user_match, imported_user,
  add_imported_user, assign_managers, imported_group, import_members, group_id_by_remote,
  add_imported_group, log_imports,
}

-- The state with the users and the groups of the import and the entries in their histories, at the
-- times of a clock.
unfoldable pub imported_state : (String → String) → AppState → List User → List Group → AppState
unfolding log_imports
imported_state time state users groups =
    let replaced = record state { users = users; groups = groups } in
    log_imports time "group" (map (λ g. g.id) groups)
      (log_imports time "user" (map (λ u. u.id) users) replaced)

module _ (lib : GoLibrary) {S : Type 0} (ids : Ids S) where
  -- The ID of a user of the import.
  unfoldable pub choose_user_id : Option User → String → S → Result String String × S
  choose_user_id existing external_id s =
      if not (external_id == "")
      then (ok external_id, s)
      else elim existing [ some u ↦ (ok u.id, s) | none ↦ ids.new_id s ]

  unfoldable pub choose_group_id : String → String → S → Result String String × S
  choose_group_id external_id by_remote s =
      if not (external_id == "")
      then (ok external_id, s)
      else if not (by_remote == "")
      then (ok by_remote, s)
      else ids.new_id s

  -- A user twice is an error.
  unfoldable pub accept_user :
      User
      → ImportedUsers
      → (ImportedUsers → S → Result String ImportedUsers × S)
      → S
      → Result String ImportedUsers × S
  unfolding add_imported_user lookup
  accept_user u so_far go_on s =
      if from_option (lookup so_far.seen u.id) false
      then (
        err (
            join
              ("SCIM /Users returned more than one user with externalId " ∷ lib.quote u.id ∷ [])),
        s,
      )
      else go_on (add_imported_user u so_far) s

  unfoldable pub after_user_id :
      ScimUserResource
      → Option User
      → ImportedUsers
      → (ImportedUsers → S → Result String ImportedUsers × S)
      → Result String String × S
      → Result String ImportedUsers × S
  unfolding accept_user imported_user
  after_user_id r existing so_far go_on (err e, s) = (err e, s)
  after_user_id r existing so_far go_on (ok id, s) =
      accept_user (imported_user id existing r) so_far go_on s

  unfoldable pub import_users :
      List User → List ScimUserResource → ImportedUsers → S → Result String ImportedUsers × S
  unfolding after_user_id choose_user_id imported_user_match
  import_users users [] so_far s = (ok so_far, s)
  import_users users (r ∷ rs) so_far s =
      let existing = imported_user_match users r in
      after_user_id r existing so_far (import_users users rs)
        (choose_user_id existing (trim_space r.external_id) s)

  unfoldable pub accept_group :
      Group
      → ℕ
      → ImportedGroups
      → (ImportedGroups → S → Result String ImportedGroups × S)
      → S
      → Result String ImportedGroups × S
  unfolding add_imported_group lookup
  accept_group g skipped so_far go_on s =
      if from_option (lookup so_far.seen g.id) false
      then (
        err (
            join
              ("SCIM /Groups returned more than one group with externalId " ∷ lib.quote g.id ∷ [])),
        s,
      )
      else go_on (add_imported_group g skipped so_far) s

  unfoldable pub after_group_id :
      Dict String
      → ScimGroupResource
      → ImportedGroups
      → (ImportedGroups → S → Result String ImportedGroups × S)
      → Result String String × S
      → Result String ImportedGroups × S
  unfolding accept_group imported_group import_members
  after_group_id remote_to_local r so_far go_on (err e, s) = (err e, s)
  after_group_id remote_to_local r so_far go_on (ok id, s) =
      accept_group (imported_group remote_to_local id r)
        (import_members remote_to_local r.members).1 so_far go_on s

  unfoldable pub import_groups :
      List Group
      → Dict String
      → List ScimGroupResource
      → ImportedGroups
      → S
      → Result String ImportedGroups × S
  unfolding after_group_id choose_group_id group_id_by_remote
  import_groups groups remote_to_local [] so_far s = (ok so_far, s)
  import_groups groups remote_to_local (r ∷ rs) so_far s =
      after_group_id remote_to_local r so_far (import_groups groups remote_to_local rs)
        (choose_group_id (trim_space r.external_id) (group_id_by_remote groups (trim_space r.id)) s)

  unfoldable pub after_groups :
      (String → String)
      → AppState
      → List User
      → Result String ImportedGroups × S
      → Result String (AppState × ℕ) × S
  unfolding imported_state
  after_groups time state users (err e, s) = (err e, s)
  after_groups time state users (ok gs, s) =
      (ok (imported_state time state users gs.groups, gs.skipped), s)

  unfoldable pub after_users :
      (String → String)
      → AppState
      → List ScimUserResource
      → List ScimGroupResource
      → Result String ImportedUsers × S
      → Result String (AppState × ℕ) × S
  unfolding after_groups import_groups assign_managers no_groups
  after_users time state rs gs (err e, s) = (err e, s)
  after_users time state rs gs (ok us, s) =
      after_groups time state (assign_managers us.remote_to_local us.users rs)
        (import_groups state.groups us.remote_to_local gs no_groups s)

  unfoldable pub replace_state_from_scim :
      (String → String)
      → AppState
      → List ScimUserResource
      → List ScimGroupResource
      → S
      → Result String (AppState × ℕ) × S
  unfolding after_users import_users no_users
  replace_state_from_scim time state rs gs s =
      after_users time state rs gs (import_users state.users rs no_users s)
