-- ===== src/Examples/Import.antt =====
-- The theorems on the SCIM import and the attributes at inputs that meet their hypotheses.
use scimtest.Prelude.{not, is_some, leb, length, ◌&&◌, all, from_option, map}
use scimtest.Prelude.Dict.{Dict, lookup}
use scimtest.Prelude.{
  ℕ, suc, String, true, false, List, [], ◌∷◌, some, Result, ok, err, ◌==◌, ◌≡◌, refl,
}
use scimtest.Prelude.Text.{trim_space}
use scimtest.Directory.Attributes.{Strings, validate_custom_attributes}
use scimtest.Directory.Attributes.Valid.{is_valid, validate_custom_attributes-valid}
use scimtest.Directory.{AppState}
use scimtest.Samples.{ada, directory}
use scimtest.Samples.Web.{library, remote_bob, remote_staff}
use scimtest.Scim.Resource.{UserDirectory, ScimUserResource}
use scimtest.Scim.Import.{Ids, ImportedUsers, no_users}
use scimtest.Scim.Import.Replace.{import_users, replace_state_from_scim}
use scimtest.Scim.Import.Replace.Stored.{back, sent, import_users-stored}
use scimtest.Scim.Import.Replace.Imported.{IsImported, replace_state_from_scim-IsImported}

abbrev counter : Ids ℕ
counter = record { new_id = λ s. (ok "id1", suc s) }

-- Bob, and one more user who reports to him.
abbrev remote_users : List ScimUserResource
remote_users =
    remote_bob
    ∷ record remote_bob {
      id = "r1";
      external_id = "";
      enterprise = some (record {
        employee_number = "7";
        cost_center = "";
        organization = "";
        division = "";
        department = "";
        manager = some "r9";
      });
    }
    ∷ []

from_ok : Result String (AppState × ℕ) → AppState × ℕ
from_ok (ok a) = a
from_ok (err e) = (directory, 0)

abbrev result : AppState × ℕ
result =
    from_ok
      (replace_state_from_scim library counter (λ id. "now") directory remote_users
        (remote_staff ∷ []) 0).0

imported :
    (replace_state_from_scim library counter
      (λ id. "now")
      directory
      remote_users
      (remote_staff ∷ [])
      0).0
    ≡ ok result
unfolding replace_state_from_scim trim_space from_ok
imported = refl

replace_state_from_scim-IsImported_example : IsImported 2 result
replace_state_from_scim-IsImported_example =
    replace_state_from_scim-IsImported library counter (λ id. "now") directory remote_users
      (remote_staff ∷ []) 0 result imported

abbrev managing : UserDirectory
managing = record { enterprise = true; remote_ids = [] }

given : (trim_space "Ada" == "") ≡ false
unfolding trim_space
given = refl

family : (trim_space "Lovelace" == "") ≡ false
unfolding trim_space
family = refl

email : (trim_space "ada@example.com" == "") ≡ false
unfolding trim_space
email = refl

username : (trim_space "ada" == "") ≡ false
unfolding trim_space
username = refl

ada_id : (trim_space "usr_ada" ≡ "usr_ada") × (("usr_ada" == "") ≡ false)
unfolding trim_space
ada_id = (refl, refl)

import_users-stored_example :
    (found : ImportedUsers) × (import_users library counter
        (ada ∷ [])
        (sent library counter managing [] ada ∷ [])
        no_users
        0
      ≡ (ok found, 0))
    × (found.users ≡ back ada ∷ [])
import_users-stored_example =
    import_users-stored library counter managing [] (ada ∷ []) 0 refl
      ((ada_id.0, ada_id.1, given, family, email, username), tt) (tt, tt)

abbrev strings : Strings
strings = record { byte_length = λ s. 4 }

abbrev attributes : Dict String
attributes = ("team", "core") ∷ ("iss", "me") ∷ []

validate_custom_attributes-valid_example :
    not (is_some (validate_custom_attributes strings attributes))
    ≡ leb (length attributes) 50
      && all
          (λ name. is_valid strings name (from_option (lookup attributes name) ""))
          (map (λ a. a.0) attributes)
validate_custom_attributes-valid_example = validate_custom_attributes-valid strings attributes
