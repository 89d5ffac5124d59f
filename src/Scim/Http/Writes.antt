-- ===== src/Scim/Http/Writes.antt =====
-- The calls of SCIMClient that create and replace, and the engine's interface made of all of them.
pub mod Ids
use scimtest.Prelude.{
  String, Bool, true, false, not, Option, none, some, List, [], ◌∷◌, ◌==◌, if◌then◌else◌,
  trim_space, Result, ok, err,
}
use scimtest.Directory.{User, Group}
use scimtest.Scim.Client.{ScimError, not_found, other, Client}
use scimtest.Scim.Resource.{
  GroupError, unknown_member, unsynced_member, UserDirectory, ScimUserResource, ScimGroupResource,
  new_user_resource, new_group_resource,
}
use scimtest.Scim.Http.{ScimClient, Body, PatchValue, GoLibrary, Http, Conn, nothing, join}
use scimtest.Scim.Http.Send.{Over, do_json}
use scimtest.Scim.Http.Find.{noted, set_last_trace_error}
use scimtest.Scim.Http.Entra.{entra_group_operations}
use scimtest.Scim.Http.Calls.{
  Decoders, new_patch_request, new_path_patch_request, trace_target_for_user,
  trace_target_for_group, user_out, group_out, user_path, group_path, find_user_by_external_id,
  find_group_by_external_id, get_user, get_group, delete_user, delete_group, patch_entra_user,
}

-- The text of an error of newSCIMGroupResource.
unfoldable pub group_error_text : GoLibrary → GroupError → String
group_error_text lib (unknown_member name id) =
    join ("group " ∷ lib.quote name ∷ " references unknown user " ∷ lib.quote id ∷ [])
group_error_text lib (unsynced_member name label) =
    join
      ("group " ∷ lib.quote name ∷ " member " ∷ lib.quote label ∷ " has not been synced yet" ∷ [])

module _ (lib : GoLibrary) (decoders : Decoders) {W : Type 0} (http : Http W)
    (client : ScimClient) where
  -- entraMatchError, with the mark that it leaves on the last trace.
  entra_match_error : {A : Type 0} → String → String → Over W A
  unfolding set_last_trace_error
  entra_match_error resource_type external_id conn =
      noted
        (not_found (
          join (
            "SCIM "
            ∷ resource_type
            ∷ " with externalId "
            ∷ lib.quote external_id
            ∷ ": resource not found"
            ∷ [])))
        conn

  desired_group : Group → List User → Result ScimError ScimGroupResource
  unfolding group_error_text
  desired_group g users = elim (new_group_resource g users) [
    | ok r ↦ ok r
    | err e ↦ err (other (group_error_text lib e))
  ]

  patch_group : Group → ScimGroupResource → ScimGroupResource → Over W (Unit {0})
  unfolding new_path_patch_request group_path trace_target_for_group entra_group_operations
  patch_group g desired remote conn = elim (entra_group_operations desired remote) [
    | [] ↦ (ok tt, conn)
    | o ∷ os ↦
        do_json lib http client "PATCH" (group_path lib decoders http client remote.id)
          (some (new_path_patch_request (o ∷ os))) nothing (trace_target_for_group g "update") conn
  ]

  unfoldable pub patch_entra_group : Group → List User → ScimGroupResource → Over W (Unit {0})
  unfolding desired_group patch_group
  patch_entra_group g users remote conn = elim (desired_group g users) [
    | err e ↦ (err e, conn)
    | ok desired ↦ patch_group g desired remote conn
  ]

  -- PATCH where the provider supports it, else PUT.
  unfoldable pub send_user : User → UserDirectory → Over W (Unit {0})
  unfolding new_patch_request trace_target_for_user
  send_user u directory =
      let resource = new_user_resource u directory in
      let path = user_path lib decoders http client u.remote_id in
      let target = trace_target_for_user u "update" in
      if client.patch
      then do_json lib http client "PATCH" path
          (some (new_patch_request (PatchValue.user (record resource { schemas = []; id = "" }))))
          nothing target
      else do_json lib http client "PUT" path
          (some (Body.user (record resource { id = u.remote_id }))) nothing target

  send_group_resource : Group → ScimGroupResource → Over W (Unit {0})
  unfolding new_patch_request trace_target_for_group
  send_group_resource g resource =
      let path = group_path lib decoders http client g.remote_id in
      let target = trace_target_for_group g "update" in
      if client.patch
      then do_json lib http client "PATCH" path
          (some (new_patch_request (PatchValue.group (record resource { schemas = []; id = "" }))))
          nothing target
      else do_json lib http client "PUT" path
          (some (Body.group (record resource { id = g.remote_id }))) nothing target

  unfoldable pub send_group : Group → List User → Over W (Unit {0})
  unfolding desired_group send_group_resource
  send_group g users conn = elim (desired_group g users) [
    | err e ↦ (err e, conn)
    | ok resource ↦ send_group_resource g resource conn
  ]

  unfoldable pub replace_found_user :
      User
      → UserDirectory
      → Result ScimError (Option ScimUserResource) × Conn W
      → Result ScimError (Unit {0}) × Conn W
  unfolding patch_entra_user entra_match_error
  replace_found_user u directory (err e, conn) = (err e, conn)
  replace_found_user u directory (ok none, conn) = entra_match_error "user" u.id conn
  replace_found_user u directory (ok (some remote), conn) =
      patch_entra_user lib decoders http client u directory remote conn

  unfoldable pub replace_user : User → UserDirectory → Over W (Unit {0})
  unfolding replace_found_user find_user_by_external_id send_user
  replace_user u directory conn =
      if client.entra
      then replace_found_user u directory (find_user_by_external_id lib decoders http client u conn)
      else send_user u directory conn

  unfoldable pub replace_found_group :
      Group
      → List User
      → Result ScimError (Option ScimGroupResource) × Conn W
      → Result ScimError (Unit {0}) × Conn W
  unfolding patch_entra_group entra_match_error
  replace_found_group g users (err e, conn) = (err e, conn)
  replace_found_group g users (ok none, conn) = entra_match_error "group" g.id conn
  replace_found_group g users (ok (some remote), conn) = patch_entra_group g users remote conn

  unfoldable pub replace_group : Group → List User → Over W (Unit {0})
  unfolding replace_found_group find_group_by_external_id send_group
  replace_group g users conn =
      if client.entra
      then replace_found_group g users (find_group_by_external_id lib decoders http client g conn)
      else send_group g users conn

  -- The end of an adoption: the remote ID, unless the update failed.
  unfoldable pub adopted :
      String → Result ScimError (Unit {0}) × Conn W → Result ScimError (String × Bool) × Conn W
  adopted remote_id (ok _, conn) = (ok (remote_id, true), conn)
  adopted remote_id (err e, conn) = (err e, conn)

  -- The end of a creation: the server's ID, which must be there.
  unfoldable pub created :
      String → Result ScimError String × Conn W → Result ScimError (String × Bool) × Conn W
  unfolding set_last_trace_error
  created missing (err e, conn) = (err e, conn)
  created missing (ok id, conn) =
      if trim_space id == "" then noted (other missing) conn else (ok (id, false), conn)

  abbrev mapped :
      {A B : Type 0} → (A → B) → Result ScimError A × Conn W → Result ScimError B × Conn W
  mapped f (ok a, conn) = (ok (f a), conn)
  mapped f (err e, conn) = (err e, conn)

  unfoldable pub create_found_user :
      User
      → UserDirectory
      → Result ScimError (Option ScimUserResource) × Conn W
      → Result ScimError (String × Bool) × Conn W
  unfolding adopted created send_user patch_entra_user
  create_found_user u directory (err e, conn) = (err e, conn)
  create_found_user u directory (ok (some remote), conn) =
      let u' = record u { remote_id = remote.id } in
      adopted remote.id (
        if client.entra
        then patch_entra_user lib decoders http client u' directory remote conn
        else send_user u' directory conn)
  create_found_user u directory (ok none, conn) = created "SCIM create response missing id" (
      mapped (λ (r : ScimUserResource). r.id)
        (do_json lib http client "POST" "/Users" (some (Body.user (new_user_resource u directory)))
          (user_out lib decoders http client) (trace_target_for_user u "create") conn))

  unfoldable pub create_user : User → UserDirectory → Over W (String × Bool)
  unfolding create_found_user find_user_by_external_id
  create_user u directory conn =
      create_found_user u directory (find_user_by_external_id lib decoders http client u conn)

  unfoldable pub create_found_group :
      Group
      → List User
      → ScimGroupResource
      → Result ScimError (Option ScimGroupResource) × Conn W
      → Result ScimError (String × Bool) × Conn W
  unfolding adopted created send_group patch_entra_group
  create_found_group g users resource (err e, conn) = (err e, conn)
  create_found_group g users resource (ok (some remote), conn) =
      let g' = record g { remote_id = remote.id } in
      adopted remote.id
        (if client.entra then patch_entra_group g' users remote conn else send_group g' users conn)
  create_found_group g users resource (ok none, conn) =
      created "SCIM create group response missing id" (
        mapped (λ (r : ScimGroupResource). r.id)
          (do_json lib http client "POST" "/Groups" (some (Body.group resource))
            (group_out lib decoders http client) (trace_target_for_group g "create") conn))

  -- A payload that cannot be built asks the server nothing.
  unfoldable pub create_desired_group :
      Group → List User → Result ScimError ScimGroupResource → Over W (String × Bool)
  unfolding create_found_group find_group_by_external_id
  create_desired_group g users (err e) conn = (err e, conn)
  create_desired_group g users (ok resource) conn =
      create_found_group g users resource
        (find_group_by_external_id lib decoders http client g conn)

  unfoldable pub create_group : Group → List User → Over W (String × Bool)
  unfolding create_desired_group desired_group
  create_group g users = create_desired_group g users (desired_group g users)

  -- What the engine calls.
  unfoldable pub client_over_http : Client (Conn W)
  unfolding create_user replace_user create_group replace_group group_error_text
  client_over_http = record {
    create_user = create_user;
    replace_user = replace_user;
    delete_user = λ u. delete_user lib decoders http client u "delete";
    get_user = get_user lib decoders http client;
    create_group = create_group;
    replace_group = replace_group;
    delete_group = λ g. delete_group lib decoders http client g "delete";
    get_group = get_group lib decoders http client;
    describe = group_error_text lib;
  }
