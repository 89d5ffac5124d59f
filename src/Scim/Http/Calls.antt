-- ===== src/Scim/Http/Calls.antt =====
-- The calls of SCIMClient: the engine's interface over HTTP.
use scimtest.Prelude.{String, Option, none, some, List, [], ◌∷◌, Result, ok}
use scimtest.Directory.{User, Group, user_label}
use scimtest.Scim.Progress.{progress_user_label}
use scimtest.Scim.Resource.{UserDirectory, ScimUserResource, ScimGroupResource, new_user_resource}
use scimtest.Scim.Http.{
  ScimClient, TraceTarget, PatchValue, ScimPatchOperation, Body, patch, GoLibrary, Http, Out,
  nothing, join,
}
use scimtest.Scim.Http.Send.{Over, do_json}
use scimtest.Scim.Http.Pages.{ScimListResponse}
use scimtest.Scim.Http.Pages.Walk.{list_all}
use scimtest.Scim.Http.Find.{Kind, find_by_external_id}
use scimtest.Scim.Http.Entra.{entra_user_operations}

abbrev pub patch_schema : String
patch_schema = "urn:ietf:params:scim:api:messages:2.0:PatchOp"

-- newSCIMPatchRequest
unfoldable pub new_patch_request : PatchValue → Body
new_patch_request value =
    patch (patch_schema ∷ []) (record { op = "replace"; path = ""; value = value } ∷ [])

-- newSCIMPathPatchRequest
unfoldable pub new_path_patch_request : List ScimPatchOperation → Body
new_path_patch_request operations = patch (patch_schema ∷ []) operations

unfoldable pub trace_target_for_user : User → String → TraceTarget
unfolding progress_user_label
trace_target_for_user u operation = record {
  resource_type = "user";
  resource_id = u.id;
  label = progress_user_label u;
  operation = operation;
}

unfoldable pub trace_target_for_group : Group → String → TraceTarget
trace_target_for_group g operation = record {
  resource_type = "group";
  resource_id = g.id;
  label = g.display_name;
  operation = operation;
}

-- json.Unmarshal of the resources and of the pages of them.
pub record Decoders : Type 0 where
  pub user : String → Result String ScimUserResource
  pub group : String → Result String ScimGroupResource
  pub users : String → Result String (ScimListResponse ScimUserResource)
  pub groups : String → Result String (ScimListResponse ScimGroupResource)

unfoldable pub zero_user_resource : ScimUserResource
zero_user_resource = record {
  schemas = [];
  id = "";
  external_id = "";
  user_name = "";
  display_name = "";
  active = none;
  name = none;
  emails = [];
  enterprise = none;
}

unfoldable pub zero_group_resource : ScimGroupResource
zero_group_resource = record {
  schemas = [];
  id = "";
  external_id = "";
  display_name = "";
  members = [];
}

module _ (lib : GoLibrary) (decoders : Decoders) {W : Type 0} (http : Http W)
    (client : ScimClient) where
  unfoldable pub user_kind : Kind ScimUserResource
  user_kind = record {
    resource_type = "user";
    resource_path = "/Users";
    external_id_of = λ r. r.external_id;
    id_of = λ r. r.id;
    decode = decoders.users;
  }

  unfoldable pub group_kind : Kind ScimGroupResource
  group_kind = record {
    resource_type = "group";
    resource_path = "/Groups";
    external_id_of = λ r. r.external_id;
    id_of = λ r. r.id;
    decode = decoders.groups;
  }

  unfoldable pub user_out : Out ScimUserResource
  unfolding zero_user_resource
  user_out = record { decode = some decoders.user; zero = zero_user_resource }

  unfoldable pub group_out : Out ScimGroupResource
  unfolding zero_group_resource
  group_out = record { decode = some decoders.group; zero = zero_group_resource }

  unfoldable pub user_path : String → String
  user_path remote_id = join ("/Users/" ∷ lib.path_escape remote_id ∷ [])

  unfoldable pub group_path : String → String
  group_path remote_id = join ("/Groups/" ∷ lib.path_escape remote_id ∷ [])

  unfoldable pub find_user_by_external_id : User → Over W (Option ScimUserResource)
  unfolding user_kind find_by_external_id
  find_user_by_external_id u = find_by_external_id lib http client user_kind u.id (user_label u)

  unfoldable pub find_group_by_external_id : Group → Over W (Option ScimGroupResource)
  unfolding group_kind find_by_external_id
  find_group_by_external_id g = find_by_external_id lib http client group_kind g.id g.display_name

  -- listUsersForOperation and listGroupsForOperation; an import is the operation "import".
  unfoldable pub list_users : String → Over W (List ScimUserResource)
  unfolding list_all
  list_users operation = list_all lib http client decoders.users "user" "/Users" operation

  unfoldable pub list_groups : String → Over W (List ScimGroupResource)
  unfolding list_all
  list_groups operation = list_all lib http client decoders.groups "group" "/Groups" operation

  unfoldable pub get_user : User → Over W ScimUserResource
  unfolding user_out user_path trace_target_for_user
  get_user u =
      do_json lib http client "GET" (user_path u.remote_id) none user_out
        (trace_target_for_user u "check")

  unfoldable pub get_group : Group → Over W ScimGroupResource
  unfolding group_out group_path trace_target_for_group
  get_group g =
      do_json lib http client "GET" (group_path g.remote_id) none group_out
        (trace_target_for_group g "check")

  unfoldable pub delete_user : User → String → Over W (Unit {0})
  unfolding user_path trace_target_for_user
  delete_user u operation =
      do_json lib http client "DELETE" (user_path u.remote_id) none nothing
        (trace_target_for_user u operation)

  unfoldable pub delete_group : Group → String → Over W (Unit {0})
  unfolding group_path trace_target_for_group
  delete_group g operation =
      do_json lib http client "DELETE" (group_path g.remote_id) none nothing
        (trace_target_for_group g operation)

  unfoldable pub patch_entra_user : User → UserDirectory → ScimUserResource → Over W (Unit {0})
  unfolding new_path_patch_request user_path trace_target_for_user entra_user_operations
  patch_entra_user u directory remote conn =
      elim (entra_user_operations (new_user_resource u directory) remote) [
        | [] ↦ (ok tt, conn)
        | o ∷ os ↦
            do_json lib http client "PATCH" (user_path remote.id)
              (some (new_path_patch_request (o ∷ os))) nothing (trace_target_for_user u "update")
              conn
      ]
