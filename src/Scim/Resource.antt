-- ===== src/Scim/Resource.antt =====
-- The SCIM payloads: what the engine sends for a user or a group, and when a remote resource
-- already agrees with it.
pub mod Matches
use scimtest.Prelude.{
  String, Bool, true, false, not, ◌&&◌, ◌||◌, Option, none, some, List, [], ◌∷◌, any, all, length,
  eqb, ◌==◌, if◌then◌else◌, from_option, trim_space, Result, ok, err, ◌>>=◌,
}
use scimtest.Prelude.Dict.{Dict, lookup, insert}
use scimtest.Directory.{User, Group, user_by_id, user_label, full_name, has_enterprise_values}

pub record ScimEmail : Type 0 where
  pub value : String
  pub type : String
  pub primary : Bool

pub record ScimName : Type 0 where
  pub given_name : String
  pub family_name : String
  pub formatted : String

-- The manager of an enterprise extension is its `value`; none is a null manager.
pub record ScimEnterpriseUser : Type 0 where
  pub employee_number : String
  pub cost_center : String
  pub organization : String
  pub division : String
  pub department : String
  pub manager : Option String

pub record ScimUserResource : Type 0 where
  pub schemas : List String
  pub id : String
  pub external_id : String
  pub user_name : String
  pub display_name : String
  pub active : Option Bool
  pub name : Option ScimName
  pub emails : List ScimEmail
  pub enterprise : Option ScimEnterpriseUser

pub record ScimMember : Type 0 where
  pub value : String
  pub type : String

pub record ScimGroupResource : Type 0 where
  pub schemas : List String
  pub id : String
  pub external_id : String
  pub display_name : String
  pub members : List ScimMember

abbrev pub user_schema : String
user_schema = "urn:ietf:params:scim:schemas:core:2.0:User"

abbrev pub enterprise_user_schema : String
enterprise_user_schema = "urn:ietf:params:scim:schemas:extension:enterprise:2.0:User"

abbrev pub group_schema : String
group_schema = "urn:ietf:params:scim:schemas:core:2.0:Group"

-- scimUserDirectory: what a user payload needs from the rest of the directory during one pass.
pub record UserDirectory : Type 0 where
  pub enterprise : Bool
  pub remote_ids : Dict String

add_users : List User → UserDirectory → UserDirectory
add_users [] d = d
add_users (u ∷ us) d = add_users us (
    if u.deleted then d else record d {
      enterprise = d.enterprise || has_enterprise_values u;
      remote_ids = insert d.remote_ids u.id u.remote_id;
    })

unfoldable pub new_user_directory : List User → UserDirectory
unfolding add_users
new_user_directory users = add_users users (record { enterprise = false; remote_ids = [] })

-- A live manager that has no remote ID yet.
unfoldable pub awaits_manager : UserDirectory → User → Bool
awaits_manager d u = elim (lookup d.remote_ids u.manager_id) [
  | none ↦ false
  | some remote_id ↦ d.enterprise && not (u.manager_id == "") && remote_id == ""
]

manager_reference : UserDirectory → User → Option String
manager_reference d u =
    let remote_id = from_option (lookup d.remote_ids u.manager_id) "" in
    if not (u.manager_id == "") && not (remote_id == "") then some remote_id else none

unfoldable pub new_user_resource : User → UserDirectory → ScimUserResource
unfolding manager_reference
new_user_resource u d = record {
  schemas = if d.enterprise then user_schema ∷ enterprise_user_schema ∷ [] else user_schema ∷ [];
  id = "";
  external_id = u.id;
  user_name = trim_space u.username;
  display_name = full_name u;
  active = some u.active;
  name = some (record {
    given_name = trim_space u.given_name;
    family_name = trim_space u.family_name;
    formatted = full_name u;
  });
  emails = record { value = trim_space u.email; type = "work"; primary = true } ∷ [];
  enterprise =
      if d.enterprise
      then some (record {
        employee_number = trim_space u.employee_number;
        cost_center = trim_space u.cost_center;
        organization = trim_space u.organization;
        division = trim_space u.division;
        department = trim_space u.department;
        manager = manager_reference d u;
      })
      else none;
}

-- Why a group has no payload yet.
pub data GroupError : Type 0 where
  unknown_member : String → String → GroupError
  unsynced_member : String → String → GroupError

group_members : String → List User → List String → Result GroupError (List ScimMember)
group_members name users [] = ok []
group_members name users (id ∷ ids) =
    let rest = group_members name users ids in
    elim (user_by_id users id) [
      | none ↦ err (unknown_member name id)
      | some u ↦
          if trim_space u.remote_id == ""
          then err (unsynced_member name (user_label u))
          else rest >>= λ ms. ok (record { value = u.remote_id; type = "User" } ∷ ms)
    ]

unfoldable pub new_group_resource : Group → List User → Result GroupError ScimGroupResource
unfolding group_members
new_group_resource g users = group_members g.display_name users g.member_ids >>= λ members.
    ok (record {
      schemas = group_schema ∷ [];
      id = "";
      external_id = g.id;
      display_name = trim_space g.display_name;
      members = members;
    })

-- firstSCIMEmail: the first value that is not blank.
unfoldable pub first_scim_email : List ScimEmail → String
first_scim_email [] = ""
first_scim_email (e ∷ es) =
    let value = trim_space e.value in if not (value == "") then value else first_scim_email es

unfoldable pub scim_name_parts : Option ScimName → String × String
scim_name_parts none = ("", "")
scim_name_parts (some n) = (trim_space n.given_name, trim_space n.family_name)

unfoldable pub scim_manager_value : Option String → String
scim_manager_value none = ""
scim_manager_value (some value) = trim_space value

unfoldable pub no_enterprise : ScimEnterpriseUser
no_enterprise = record {
  employee_number = "";
  cost_center = "";
  organization = "";
  division = "";
  department = "";
  manager = none;
}

unfoldable pub enterprise_matches_remote :
    Option ScimEnterpriseUser → Option ScimEnterpriseUser → Bool
unfolding scim_manager_value no_enterprise
enterprise_matches_remote none remote = true
enterprise_matches_remote (some d) remote =
    let r = from_option remote no_enterprise in
    d.employee_number == trim_space r.employee_number
    && d.cost_center == trim_space r.cost_center
    && d.organization == trim_space r.organization
    && d.division == trim_space r.division
    && d.department == trim_space r.department
    && scim_manager_value d.manager == scim_manager_value r.manager

abbrev pub same : Bool → Bool → Bool
same true b = b
same false b = not b

-- A desired resource always says whether it is active; a remote one that does not is active.
unfoldable pub user_matches_remote : ScimUserResource → ScimUserResource → Bool
unfolding scim_name_parts first_scim_email enterprise_matches_remote
user_matches_remote d r =
    let (given, family) = scim_name_parts d.name in
    let (remote_given, remote_family) = scim_name_parts r.name in
    d.user_name == trim_space r.user_name
    && d.display_name == trim_space r.display_name
    && d.external_id == trim_space r.external_id
    && same (from_option d.active true) (from_option r.active true)
    && given == remote_given
    && family == remote_family
    && first_scim_email d.emails == first_scim_email r.emails
    && enterprise_matches_remote d.enterprise r.enterprise

unfoldable pub group_matches_remote : ScimGroupResource → ScimGroupResource → Bool
group_matches_remote d r =
    d.display_name == trim_space r.display_name
    && d.external_id == trim_space r.external_id
    && eqb (length d.members) (length r.members)
    && all (λ m. any (λ n. trim_space n.value == m.value) r.members) d.members
