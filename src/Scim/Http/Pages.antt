-- ===== src/Scim/Http/Pages.antt =====
-- listResources: the pages of a collection.
pub mod Ends
pub mod Walk
use scimtest.Prelude.{
  ℕ, zero, suc, String, Bool, not, ◌&&◌, ◌||◌, Option, none, some, List, [], ◌∷◌, ◌++◌, length, eqb,
  if◌then◌else◌, Result, ok, err,
}
use scimtest.Prelude.Int.{ℤ, pos, ltb_ℤ, leb_ℤ, eqb_ℤ, add64}
use scimtest.Scim.Client.{ScimError, other}
use scimtest.Scim.Http.{ScimClient, GoLibrary, Http, Conn, Out, join}
use scimtest.Scim.Http.Send.{Over, do_json}

pub record ScimListResponse (T : Type 0) : Type 0 where
  pub total_results : ℤ
  pub start_index : ℤ
  pub items_per_page : ℤ
  pub resources : List T

abbrev pub empty_list_response : {T : Type 0} → ScimListResponse T
empty_list_response = record {
  total_results = pos 0;
  start_index = pos 0;
  items_per_page = pos 0;
  resources = [];
}

-- How the pages of resources are decoded.
abbrev pub list_out :
    {T : Type 0} → (String → Result String (ScimListResponse T)) → Out (ScimListResponse T)
list_out decode = record { decode = some decode; zero = empty_list_response }

abbrev pub page_size : ℤ
page_size = pos 100

-- The index of the page after a response.
unfoldable pub next_index : {T : Type 0} → ℤ → ScimListResponse T → ℤ
unfolding add64
next_index start r =
    if ltb_ℤ (pos 0) r.start_index
    then add64 r.start_index (pos (length r.resources))
    else add64 start (pos (length r.resources))

-- Whether a response with resources is the last one.
unfoldable pub is_last : {T : Type 0} → ℤ → ScimListResponse T → Bool
unfolding next_index
is_last start r =
    let n = pos (length r.resources) in
    (ltb_ℤ (pos 0) r.total_results && ltb_ℤ r.total_results (next_index start r))
    || (ltb_ℤ (pos 0) r.items_per_page && ltb_ℤ n r.items_per_page)
    || (eqb_ℤ r.total_results (pos 0) && eqb_ℤ r.items_per_page (pos 0) && ltb_ℤ n page_size)

-- What a response means for the loop: it ends, it goes on at an index, or it does not advance.
pub data Page : Type 0 where
  last : Page
  more : ℤ → Page
  stuck : Page

unfoldable pub page : {T : Type 0} → ℤ → ScimListResponse T → Page
unfolding is_last
page start r =
    if eqb (length r.resources) 0
    then last
    else if is_last start r
    then last
    else if leb_ℤ (next_index start r) start
    then stuck
    else more (next_index start r)

module _ (lib : GoLibrary) {W : Type 0} (http : Http W) (client : ScimClient) where
  module _ {T : Type 0} (decode : String → Result String (ScimListResponse T))
      (resource_type resource_path operation : String) where
    list_path : ℤ → String
    list_path start =
        join (resource_path ∷ "?startIndex=" ∷ lib.itoa start ∷ "&count=" ∷ lib.itoa page_size ∷ [])

    unfoldable pub get_page : ℤ → Over W (ScimListResponse T)
    unfolding list_path
    get_page start =
        do_json lib http client "GET" (list_path start) none (list_out decode) (record {
          resource_type = resource_type;
          resource_id = "";
          label = join ("SCIM " ∷ resource_path ∷ []);
          operation = operation;
        })

    unfoldable pub turn_page :
        ℤ → List T → (ℤ → List T → Over W (Option (List T))) → Page → Over W (Option (List T))
    turn_page start resources go_on last conn = (ok (some resources), conn)
    turn_page start resources go_on (more next) conn = go_on next resources conn
    turn_page start resources go_on stuck conn = (
      err (
          other (
            join (
              "SCIM "
              ∷ resource_path
              ∷ " pagination did not advance from startIndex "
              ∷ lib.itoa start
              ∷ []))),
      conn,
    )

    unfoldable pub after_page :
        ℤ
        → List T
        → (ℤ → List T → Over W (Option (List T)))
        → Result ScimError (ScimListResponse T) × Conn W
        → Result ScimError (Option (List T)) × Conn W
    unfolding page turn_page
    after_page start resources go_on (err e, conn) = (err e, conn)
    after_page start resources go_on (ok r, conn) =
        turn_page start (resources ++ r.resources) go_on (page start r) conn

    -- `none` is a loop that has run out of fuel.
    unfoldable pub list_from : ℕ → ℤ → List T → Over W (Option (List T))
    unfolding get_page after_page
    list_from zero start resources conn = (ok none, conn)
    list_from (suc fuel) start resources conn =
        after_page start resources (list_from fuel) (get_page start conn)

    unfoldable pub list_resources : ℕ → Over W (Option (List T))
    unfolding list_from
    list_resources fuel = list_from fuel (pos 1) []
