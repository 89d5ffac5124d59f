-- ===== src/Scim/Import/RoundTrip.antt =====
-- importedUserFromSCIM on what newSCIMUserResource sends.
use scimtest.Prelude.{
  String, true, false, Option, List, [], ◌∷◌, ◌≡◌, ◌∙◌, arith, ◌==◌, trim_space, trim_space_idem,
}
use scimtest.Prelude.Dict.{Dict}
use scimtest.Directory.{User}
use scimtest.Scim.Resource.{
  ScimUserResource, UserDirectory, new_user_resource, first_scim_email, scim_name_parts,
}
use scimtest.Scim.Import.{
  attributes_of, build_user, imported_user, imported_username, imported_names, first_non_empty,
  or_else,
}

-- What a server answers for a user that it stores as it was sent.
unfoldable pub stored : User → UserDirectory → String → List String → ScimUserResource
stored u d remote_id schemas = record (new_user_resource u d) { id = remote_id; schemas = schemas }

-- A user with its texts trimmed, in sync, and without a manager.
abbrev pub copy_of : User → String → String → Dict String → User
copy_of u local_id remote_id attributes = record {
  id = local_id;
  given_name = trim_space u.given_name;
  family_name = trim_space u.family_name;
  email = trim_space u.email;
  username = trim_space u.username;
  active = u.active;
  employee_number = trim_space u.employee_number;
  cost_center = trim_space u.cost_center;
  organization = trim_space u.organization;
  division = trim_space u.division;
  department = trim_space u.department;
  manager_id = "";
  attributes = attributes;
  remote_id = trim_space remote_id;
  dirty = false;
  deleted = false;
  last_error = "";
}

module _ (u : User) (d : UserDirectory) (remote_id : String) (schemas : List String) where
  username-stored :
      (trim_space u.username == "") ≡ false
      → imported_username (stored u d remote_id schemas) ≡ trim_space u.username
  unfolding imported_username stored new_user_resource
  username-stored h = ground (arith, h, trim_space_idem u.username)

  names-stored :
      (trim_space u.given_name == "") ≡ false
      → (trim_space u.family_name == "") ≡ false
      → imported_names (stored u d remote_id schemas)
        ≡ (trim_space u.given_name, trim_space u.family_name)
  unfolding imported_names stored new_user_resource scim_name_parts or_else
  names-stored h k = rw (trim_space_idem u.given_name, trim_space_idem u.family_name, h, k)

  email-stored :
      (rest : List String)
      → (trim_space u.email == "") ≡ false
      → first_non_empty (first_scim_email (stored u d remote_id schemas).emails ∷ rest)
        ≡ trim_space u.email
  unfolding first_non_empty first_scim_email stored new_user_resource
  email-stored rest h =
      ground (arith, h, trim_space_idem u.email, trim_space_idem (trim_space u.email))

  build_user-stored :
      (attributes : Dict String) (local_id : String)
      → d.enterprise ≡ true
      → build_user local_id attributes
          (trim_space u.given_name, trim_space u.family_name)
          (trim_space u.email)
          (trim_space u.username)
          (stored u d remote_id schemas)
        ≡ copy_of u local_id remote_id attributes
  unfolding build_user stored new_user_resource
  build_user-stored attributes local_id e = rw (
    e,
    trim_space_idem u.employee_number,
    trim_space_idem u.cost_center,
    trim_space_idem u.organization,
    trim_space_idem u.division,
    trim_space_idem u.department,
  )

  -- The import of the payload that a user was created with, as a server stores it, under any given
  -- local ID and matched user, is the user with that ID, in sync under the remote ID: with its texts
  -- trimmed, without its manager, which is set later, and with the custom attributes of the matched
  -- user. For a directory with enterprise values, and a user whose names, mail and username are not
  -- blank.
  pub imported_user-stored :
      (local_id : String) (existing : Option User)
      → d.enterprise ≡ true
      → (trim_space u.given_name == "") ≡ false
      → (trim_space u.family_name == "") ≡ false
      → (trim_space u.email == "") ≡ false
      → (trim_space u.username == "") ≡ false
      → imported_user local_id existing (stored u d remote_id schemas)
        ≡ copy_of u local_id remote_id (attributes_of existing)
  unfolding imported_user
  imported_user-stored local_id existing e given family email username =
      let r = stored u d remote_id schemas in
      let names = names-stored given family in
      let mail = email-stored (imported_username r ∷ []) email in
      let user = username-stored username in
      let parts : imported_user local_id existing r
          ≡ build_user local_id (attributes_of existing)
              (trim_space u.given_name, trim_space u.family_name) (trim_space u.email)
              (trim_space u.username) r =
        cc (names, mail, user) in
      parts ∙ build_user-stored (attributes_of existing) local_id e
