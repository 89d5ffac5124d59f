-- ===== src/Scim/Http/Entra.antt =====
-- Entra ID's dialect (internal/core/scim_entra.go): the path operations for what differs.
pub mod Agrees
use scimtest.Prelude.{
  String, Bool, true, false, not, Option, none, some, List, [], ◌∷◌, ◌++◌, map, filter, any, ◌==◌,
  if◌then◌else◌, from_option, trim_space, concat,
}
use scimtest.Scim.Resource.{
  ScimUserResource, ScimGroupResource, ScimEnterpriseUser, ScimMember, enterprise_user_schema,
  first_scim_email, scim_name_parts, scim_manager_value, no_enterprise, same,
}
use scimtest.Scim.Http.{PatchValue, no_value, text, members, ScimPatchOperation}

abbrev pub operation : String → String → PatchValue → ScimPatchOperation
operation op path value = record { op = op; path = path; value = value }

-- The closure `set`: nothing if the value is there, else its removal or its replacement.
unfoldable pub set_value : String → String → String → List ScimPatchOperation
set_value path want have =
    if want == trim_space have
    then []
    else if want == ""
    then operation "Remove" path no_value ∷ []
    else operation "Replace" path (text want) ∷ []

-- entraBool
unfoldable pub entra_bool : Bool → String
entra_bool true = "True"
entra_bool false = "False"

unfoldable pub enterprise_path : String → String
enterprise_path name = concat enterprise_user_schema (concat ":" name)

unfoldable pub enterprise_operations :
    Option ScimEnterpriseUser → Option ScimEnterpriseUser → List ScimPatchOperation
unfolding set_value enterprise_path scim_manager_value no_enterprise
enterprise_operations none remote = []
enterprise_operations (some d) remote =
    let r = from_option remote no_enterprise in
    set_value (enterprise_path "employeeNumber") d.employee_number r.employee_number
    ++ (set_value (enterprise_path "costCenter") d.cost_center r.cost_center
        ++ (set_value (enterprise_path "organization") d.organization r.organization
            ++ (set_value (enterprise_path "division") d.division r.division
                ++ (set_value (enterprise_path "department") d.department r.department
                    ++ set_value (enterprise_path "manager") (scim_manager_value d.manager)
                        (scim_manager_value r.manager)))))

unfoldable pub active_operations : Bool → Bool → List ScimPatchOperation
unfolding entra_bool
active_operations desired remote =
    if same desired remote
    then []
    else operation "Replace" "active" (text (entra_bool desired)) ∷ []

-- A desired resource always says whether it is active.
unfoldable pub entra_user_operations : ScimUserResource → ScimUserResource → List ScimPatchOperation
unfolding set_value scim_name_parts first_scim_email active_operations enterprise_operations
entra_user_operations d r =
    let (given, family) = scim_name_parts d.name in
    let (remote_given, remote_family) = scim_name_parts r.name in
    set_value "userName" d.user_name r.user_name
    ++ (set_value "displayName" d.display_name r.display_name
        ++ (set_value "name.givenName" given remote_given
            ++ (set_value "name.familyName" family remote_family
                ++ (set_value "emails[type eq \"work\"].value" (first_scim_email d.emails)
                      (first_scim_email r.emails)
                    ++ (set_value "externalId" d.external_id r.external_id
                        ++ (active_operations (from_option d.active true)
                              (from_option r.active true)
                            ++ enterprise_operations d.enterprise r.enterprise))))))

abbrev pub has_member : List String → String → Bool
has_member values value = any (λ v. v == value) values

bare : String → ScimMember
bare value = record { value = value; type = "" }

unfoldable pub members_operation : String → List String → List ScimPatchOperation
unfolding bare
members_operation op [] = []
members_operation op (v ∷ vs) = operation op "members" (members (map bare (v ∷ vs))) ∷ []

-- The values that the desired group has and the remote one lacks, and the other way round.
unfoldable pub added_members : ScimGroupResource → ScimGroupResource → List String
added_members d r =
    filter (λ v. not (has_member (map (λ m. trim_space m.value) r.members) v))
      (map (λ m. m.value) d.members)

unfoldable pub removed_members : ScimGroupResource → ScimGroupResource → List String
removed_members d r =
    filter (λ v. not (has_member (map (λ m. m.value) d.members) v))
      (map (λ m. trim_space m.value) r.members)

unfoldable pub entra_group_operations :
    ScimGroupResource → ScimGroupResource → List ScimPatchOperation
unfolding added_members removed_members members_operation
entra_group_operations d r =
    let rename =
      if d.display_name == trim_space r.display_name
      then []
      else operation "Replace" "displayName" (text d.display_name) ∷ [] in
    rename
    ++ (members_operation "Add" (added_members d r)
        ++ members_operation "Remove" (removed_members d r))
