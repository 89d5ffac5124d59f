-- ===== src/Directory/Users.antt =====
-- Lookups by ID, names and labels, sync statuses, and enterprise values.
use scimtest.Prelude.{
  String, Bool, true, not, ◌&&◌, Option, none, some, List, [], ◌∷◌, find, ◌==◌, if◌then◌else◌,
  trim_space, concat, any,
}
use scimtest.Directory.Models.{User, Group, App}

-- UserByID, GroupByID, AppByID
unfoldable pub user_by_id : List User → String → Option User
user_by_id users id = find (λ u. u.id == id) users

unfoldable pub group_by_id : List Group → String → Option Group
group_by_id groups id = find (λ g. g.id == id) groups

unfoldable pub app_by_id : List App → String → Option App
app_by_id apps id = find (λ a. a.id == id) apps

unfoldable pub full_name : User → String
full_name u = trim_space (concat (trim_space u.given_name) (concat " " (trim_space u.family_name)))

unfoldable pub user_label : User → String
user_label u = let name = full_name u in if not (name == "") then name else u.username

unfoldable pub resource_sync_status : Bool → Bool → String → String → String
resource_sync_status deleted dirty last_error remote_id =
    if deleted && dirty
    then "pending delete"
    else if deleted
    then "deleted"
    else if not (last_error == "")
    then "sync error"
    else if dirty && remote_id == ""
    then "pending create"
    else if dirty
    then "pending update"
    else "synced"

unfoldable pub sync_status : User → String
unfolding resource_sync_status
sync_status u = resource_sync_status u.deleted u.dirty u.last_error u.remote_id

unfoldable pub group_sync_status : Group → String
unfolding resource_sync_status
group_sync_status g = resource_sync_status g.deleted g.dirty g.last_error g.remote_id

-- EnterpriseValues, in schema order.
unfoldable pub enterprise_values : User → List (String × String)
enterprise_values u =
    ("employeeNumber", u.employee_number)
    ∷ ("costCenter", u.cost_center)
    ∷ ("organization", u.organization)
    ∷ ("division", u.division)
    ∷ ("department", u.department)
    ∷ []

unfoldable pub has_enterprise_values : User → Bool
unfolding enterprise_values
has_enterprise_values u =
    if not (u.manager_id == "") then true else any (λ v. not (v.1 == "")) (enterprise_values u)

-- UserManager: the manager, when the ID names a user that is not deleted.
unfoldable pub user_manager : List User → User → Option User
unfolding user_by_id
user_manager users u = if u.manager_id == "" then none else elim (user_by_id users u.manager_id) [
  | none ↦ none
  | some m ↦ if m.deleted then none else some m
]
