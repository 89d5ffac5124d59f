-- ===== src/Scim/Http/Pages/Walk.antt =====
-- listResources, which ends: its loop with fuel for every page that can be.
use scimtest.Prelude.{ℕ, String, Option, none, some, List, Result, ok, err, ◌≢◌, refl, arith}
use scimtest.Scim.Client.{ScimError}
use scimtest.Scim.Http.{ScimClient, GoLibrary, Http, Conn}
use scimtest.Scim.Http.Send.{Over}
use scimtest.Scim.Http.Pages.{ScimListResponse, list_resources}
use scimtest.Scim.Http.Pages.Ends.{list_resources-ends}

unfoldable pub ended :
    {W A : Type 0} (r : Result ScimError (Option A) × Conn W)
    → r.0 ≢ ok none
    → Result ScimError A × Conn W
ended (ok (some a), conn) h = (ok a, conn)
ended (ok none, conn) h = absurd (h refl)
ended (err e, conn) h = (err e, conn)

abbrev pub page_fuel : ℕ
page_fuel = 0x7fffffffffffffff

module _ (lib : GoLibrary) {W : Type 0} (http : Http W) (client : ScimClient) where
  unfoldable pub list_all :
      {T : Type 0}
      → (String → Result String (ScimListResponse T))
      → String
      → String
      → String
      → Over W (List T)
  unfolding ended
  list_all decode resource_type resource_path operation conn =
      ended
        (list_resources lib http client decode resource_type resource_path operation page_fuel conn)
        (list_resources-ends lib http client decode resource_type resource_path operation page_fuel
          conn (omega arith))
