-- ===== src/Scim/Import.antt =====
-- replaceStateFromSCIM (internal/core/scim_import.go): a directory made of what a server lists.
pub mod Replace
pub mod RoundTrip
use scimtest.Prelude.{
  ℕ, suc, ◌+◌, String, Bool, true, false, not, Option, none, some, List, [], ◌∷◌, ◌++◌, find, ◌==◌,
  if◌then◌else◌, from_option, ◌&&◌, trim_space, fields, join_with, Result,
}
use scimtest.Prelude.Dict.{Dict, lookup, insert}
use scimtest.Directory.{User, Group, AppState, user_by_id}
use scimtest.Sync.Logs.{append_local_operation_log}
use scimtest.Scim.Resource.{
  ScimUserResource, ScimGroupResource, ScimMember, ScimEnterpriseUser, first_scim_email,
  scim_manager_value, scim_name_parts, no_enterprise,
}

abbrev pub split_fields : List String → String × String
split_fields [] = ("", "")
split_fields (s ∷ []) = (s, "")
split_fields (s ∷ t ∷ ss) = (s, join_with " " (t ∷ ss))

-- SplitName
unfoldable pub split_name : String → String × String
split_name name = split_fields (fields (trim_space name))

unfoldable pub first_non_empty : List String → String
first_non_empty [] = ""
first_non_empty (s ∷ ss) =
    let value = trim_space s in if not (value == "") then value else first_non_empty ss

unfoldable pub enterprise_manager : Option ScimEnterpriseUser → Option String
enterprise_manager none = none
enterprise_manager (some e) = e.manager

user_by_remote : List User → String → Option User
user_by_remote users remote_id =
    if remote_id == "" then none else find (λ u. u.remote_id == remote_id) users

unfoldable pub imported_user_match : List User → ScimUserResource → Option User
unfolding user_by_id user_by_remote
imported_user_match users r =
    let local_id = trim_space r.external_id in
    let by_remote = user_by_remote users (trim_space r.id) in
    if local_id == ""
    then by_remote
    else elim (user_by_id users local_id) [ some u ↦ some u | none ↦ by_remote ]

unfoldable pub imported_username : ScimUserResource → String
unfolding first_non_empty
imported_username r =
    let username = trim_space r.user_name in
    if username == "" then trim_space (first_non_empty (r.display_name ∷ r.id ∷ [])) else username

unfoldable pub or_else : String → String → String
or_else s t = if s == "" then t else s

-- The given and family names of the resource, or of its display name.
unfoldable pub imported_names : ScimUserResource → String × String
unfolding split_name first_non_empty imported_username or_else scim_name_parts
imported_names r =
    let (given, family) = scim_name_parts r.name in
    let (fallback_given, fallback_family) =
      split_name (first_non_empty (r.display_name ∷ imported_username r ∷ [])) in
    (or_else given fallback_given, or_else family fallback_family)

unfoldable pub attributes_of : Option User → Dict String
attributes_of none = []
attributes_of (some u) = u.attributes

-- The user with its ID, custom attributes, names, mail and username, and the rest of the resource.
unfoldable pub build_user :
    String → Dict String → String × String → String → String → ScimUserResource → User
unfolding no_enterprise
build_user local_id attributes names email username r =
    let e = from_option r.enterprise no_enterprise in
    record {
      id = local_id;
      given_name = names.0;
      family_name = names.1;
      email = email;
      username = username;
      active = from_option r.active true;
      employee_number = trim_space e.employee_number;
      cost_center = trim_space e.cost_center;
      organization = trim_space e.organization;
      division = trim_space e.division;
      department = trim_space e.department;
      manager_id = "";
      attributes = attributes;
      remote_id = trim_space r.id;
      dirty = false;
      deleted = false;
      last_error = "";
    }

-- The user of a resource, with the ID chosen for it and the local user that it matches.
unfoldable pub imported_user : String → Option User → ScimUserResource → User
unfolding build_user first_non_empty first_scim_email imported_names imported_username attributes_of
imported_user local_id existing r =
    build_user local_id (attributes_of existing) (imported_names r)
      (first_non_empty (first_scim_email r.emails ∷ imported_username r ∷ [])) (imported_username r)
      r

-- newLocalID, over the state `S` of the source of randomness.
pub record Ids (S : Type 0) : Type 0 where
  pub new_id : S → Result String String × S

-- The users so far, with the maps that the loop fills.
pub record ImportedUsers : Type 0 where
  pub users : List User
  pub seen : Dict Bool
  pub remote_to_local : Dict String

pub record ImportedGroups : Type 0 where
  pub groups : List Group
  pub seen : Dict Bool
  pub skipped : ℕ

unfoldable pub no_users : ImportedUsers
no_users = record { users = []; seen = []; remote_to_local = [] }

unfoldable pub no_groups : ImportedGroups
no_groups = record { groups = []; seen = []; skipped = 0 }

-- A user that no earlier resource gave the ID of.
unfoldable pub add_imported_user : User → ImportedUsers → ImportedUsers
unfolding insert
add_imported_user u so_far = record {
  users = so_far.users ++ u ∷ [];
  seen = insert so_far.seen u.id true;
  remote_to_local =
      if u.remote_id == ""
      then so_far.remote_to_local
      else insert so_far.remote_to_local u.remote_id u.id;
}

unfoldable pub add_imported_group : Group → ℕ → ImportedGroups → ImportedGroups
unfolding insert
add_imported_group g skipped so_far = record {
  groups = so_far.groups ++ g ∷ [];
  seen = insert so_far.seen g.id true;
  skipped = so_far.skipped + skipped;
}

-- The manager of a user: a user of the import other than itself.
unfoldable pub with_manager : Dict String → User → ScimUserResource → User
unfolding lookup enterprise_manager scim_manager_value
with_manager remote_to_local u r =
    let manager_id =
      from_option (lookup remote_to_local (scim_manager_value (enterprise_manager r.enterprise)))
        "" in
    if manager_id == u.id then u else record u { manager_id = manager_id }

unfoldable pub assign_managers : Dict String → List User → List ScimUserResource → List User
unfolding with_manager
assign_managers remote_to_local [] rs = []
assign_managers remote_to_local (u ∷ us) [] = u ∷ us
assign_managers remote_to_local (u ∷ us) (r ∷ rs) =
    with_manager remote_to_local u r ∷ assign_managers remote_to_local us rs

unfoldable pub add_member : Option String → List String × ℕ → List String × ℕ
add_member none (ids, skipped) = (ids, suc skipped)
add_member (some id) (ids, skipped) = (id ∷ ids, skipped)

-- The members that are users of the import, and how many are not.
unfoldable pub import_members : Dict String → List ScimMember → List String × ℕ
unfolding lookup add_member
import_members remote_to_local [] = ([], 0)
import_members remote_to_local (m ∷ ms) =
    add_member (lookup remote_to_local (trim_space m.value)) (import_members remote_to_local ms)

unfoldable pub imported_group : Dict String → String → ScimGroupResource → Group
unfolding import_members
imported_group remote_to_local local_id r = record {
  id = local_id;
  display_name = trim_space r.display_name;
  member_ids = (import_members remote_to_local r.members).0;
  remote_id = trim_space r.id;
  dirty = false;
  deleted = false;
  last_error = "";
}

-- The ID of the first local group with the remote ID, if there is one.
unfoldable pub group_id_by_remote : List Group → String → String
group_id_by_remote groups remote_id =
    elim (find (λ g. not (remote_id == "") && g.remote_id == remote_id) groups) [
      | none ↦ ""
      | some g ↦ g.id
    ]

-- The log entry of every imported resource; its time is a parameter.
unfoldable pub log_imports : (String → String) → String → List String → AppState → AppState
unfolding append_local_operation_log
log_imports time resource_type [] state = state
log_imports time resource_type (id ∷ ids) state =
    log_imports time resource_type ids
      (append_local_operation_log (time id) state resource_type id "Imported from SCIM")
