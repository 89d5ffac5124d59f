-- ===== src/Scim/Http/Writes/Ids.antt =====
-- The IDs that CreateUser and CreateGroup give to the engine.
use scimtest.Prelude.{
  String, Bool, true, false, if◌then◌else◌, List, Option, none, some, ◌==◌, trim_space, Result, ok,
  err, ◌≡◌, refl, subst,
}
use scimtest.Directory.{User, Group}
use scimtest.Scim.Client.{ScimError}
use scimtest.Scim.Resource.{UserDirectory, ScimUserResource, ScimGroupResource}
use scimtest.Scim.Http.{ScimClient, GoLibrary, Http, Conn}
use scimtest.Scim.Http.Calls.{
  Decoders, user_kind, group_kind, find_user_by_external_id, find_group_by_external_id,
}
use scimtest.Scim.Http.Find.Match.{find_by_external_id-IsMatch}
use scimtest.Scim.Http.Writes.{
  adopted, created, create_found_user, create_user, create_found_group, create_desired_group,
  create_group,
}

module _ {W : Type 0} where
  -- A result that, if it is an ID, has one that is not blank.
  abbrev HasId : Result ScimError (String × Bool) × Conn W → Type 0
  HasId (ok (id, adopted), conn) = (trim_space id == "") ≡ false
  HasId (err e, conn) = Unit

  HasId-if :
      (b : Bool) (r s : Result ScimError (String × Bool) × Conn W)
      → (b ≡ true → HasId r)
      → (b ≡ false → HasId s)
      → HasId (if b then r else s)
  HasId-if true r s h k = h refl
  HasId-if false r s h k = k refl

  HasId-ok :
      (s : Result ScimError (String × Bool) × Conn W) (id : String) (b : Bool)
      → HasId s
      → s.0 ≡ ok (id, b)
      → (trim_space id == "") ≡ false
  HasId-ok (ok (x, c), conn) id b h e = subst (λ y. (trim_space y == "") ≡ false) (cc e) h
  HasId-ok (err x, conn) id b h e = cc e

module _ (lib : GoLibrary) (decoders : Decoders) {W : Type 0} (http : Http W)
    (client : ScimClient) where
  adopted-HasId :
      (id : String) (r : Result ScimError (Unit {0}) × Conn W)
      → (trim_space id == "") ≡ false
      → HasId (adopted lib decoders http client id r)
  unfolding adopted
  adopted-HasId id (ok _, conn) h = h
  adopted-HasId id (err e, conn) h = tt

  created-HasId :
      (missing : String) (r : Result ScimError String × Conn W)
      → HasId (created lib decoders http client missing r)
  unfolding created
  created-HasId missing (err e, conn) = tt
  created-HasId missing (ok id, conn) = HasId-if (trim_space id == "") _ _ (λ _. tt) (λ h. h)

  create_found_user-HasId :
      (u : User) (d : UserDirectory) (r : Result ScimError (Option ScimUserResource) × Conn W)
      → ((x : ScimUserResource) → r.0 ≡ ok (some x) → (trim_space x.id == "") ≡ false)
      → HasId (create_found_user lib decoders http client u d r)
  unfolding create_found_user
  create_found_user-HasId u d (err e, conn) h = tt
  create_found_user-HasId u d (ok (some x), conn) h = adopted-HasId x.id _ (h x refl)
  create_found_user-HasId u d (ok none, conn) h = created-HasId _ _

  find_user-id :
      (u : User) (conn : Conn W) (x : ScimUserResource)
      → (find_user_by_external_id lib decoders http client u conn).0 ≡ ok (some x)
      → (trim_space x.id == "") ≡ false
  unfolding find_user_by_external_id user_kind
  find_user-id u conn x h =
      (find_by_external_id-IsMatch lib http client (user_kind lib decoders http client) u.id _ conn
        x h).1

  -- CreateUser, when it has no error, gives the engine an ID that is not blank: the server's for a
  -- new user, or that of the user that it adopts.
  pub create_user-id :
      (u : User) (d : UserDirectory) (conn : Conn W) (id : String) (b : Bool)
      → (create_user lib decoders http client u d conn).0 ≡ ok (id, b)
      → (trim_space id == "") ≡ false
  unfolding create_user
  create_user-id u d conn id b =
      HasId-ok _ id b (create_found_user-HasId u d _ (find_user-id u conn))

  create_found_group-HasId :
      (g : Group) (us : List User) (p : ScimGroupResource)
      (r : Result ScimError (Option ScimGroupResource) × Conn W)
      → ((x : ScimGroupResource) → r.0 ≡ ok (some x) → (trim_space x.id == "") ≡ false)
      → HasId (create_found_group lib decoders http client g us p r)
  unfolding create_found_group
  create_found_group-HasId g us p (err e, conn) h = tt
  create_found_group-HasId g us p (ok (some x), conn) h = adopted-HasId x.id _ (h x refl)
  create_found_group-HasId g us p (ok none, conn) h = created-HasId _ _

  find_group-id :
      (g : Group) (conn : Conn W) (x : ScimGroupResource)
      → (find_group_by_external_id lib decoders http client g conn).0 ≡ ok (some x)
      → (trim_space x.id == "") ≡ false
  unfolding find_group_by_external_id group_kind
  find_group-id g conn x h =
      (find_by_external_id-IsMatch lib http client (group_kind lib decoders http client) g.id _ conn
        x h).1

  create_desired_group-HasId :
      (g : Group) (us : List User) (r : Result ScimError ScimGroupResource) (conn : Conn W)
      → HasId (create_desired_group lib decoders http client g us r conn)
  unfolding create_desired_group
  create_desired_group-HasId g us (err e) conn = tt
  create_desired_group-HasId g us (ok p) conn =
      create_found_group-HasId g us p _ (find_group-id g conn)

  -- CreateGroup, when it has no error, gives the engine an ID that is not blank too.
  pub create_group-id :
      (g : Group) (us : List User) (conn : Conn W) (id : String) (b : Bool)
      → (create_group lib decoders http client g us conn).0 ≡ ok (id, b)
      → (trim_space id == "") ≡ false
  unfolding create_group
  create_group-id g us conn id b = HasId-ok _ id b (create_desired_group-HasId g us _ conn)
