-- ===== src/Scim/Http/Find.antt =====
-- findByExternalID and findByExternalIDWithoutFilter: the one resource with an externalId.
mod Escape
pub mod Match
use scimtest.Prelude.{
  ℕ, String, not, ◌&&◌, ◌||◌, Option, none, some, List, [], ◌∷◌, length, ltb, eqb, is_some, ◌==◌,
  if◌then◌else◌, trim_space, Result, ok, err,
}
use scimtest.Prelude.Int.{ℤ, pos, ltb_ℤ}
use scimtest.Sync.Logs.{SyncTraceEntry}
use scimtest.Scim.Client.{ScimError, other, message, is_stopping_scim_error}
use scimtest.Scim.Http.{ScimClient, GoLibrary, Http, Conn, wrap, join}
use scimtest.Scim.Http.Send.{Over, do_json}
use scimtest.Scim.Http.Pages.{ScimListResponse, list_out}
use scimtest.Scim.Http.Pages.Walk.{list_all}
use scimtest.Scim.Http.Find.Escape.{escape}

abbrev set_error : String → List SyncTraceEntry → List SyncTraceEntry
set_error m [] = []
set_error m (t ∷ []) = record t { err = m } ∷ []
set_error m (t ∷ u ∷ ts) = t ∷ set_error m (u ∷ ts)

-- setLastTraceError
unfoldable pub set_last_trace_error : {W : Type 0} → ScimError → Conn W → Conn W
set_last_trace_error e conn = record conn { traces = set_error (message e) conn.traces }

-- An error that the last trace shows too.
abbrev pub noted : {W A : Type 0} → ScimError → Conn W → Result ScimError A × Conn W
noted e conn = (err e, set_last_trace_error e conn)

unfoldable pub validate_external_id_matches : GoLibrary → ℤ → ℕ → String → Option ScimError
validate_external_id_matches lib total_results resource_count external_id =
    if ltb_ℤ (pos 1) total_results || ltb 1 resource_count
    then some (
        other (
          join (
            "SCIM filter for externalId "
            ∷ lib.quote external_id
            ∷ " returned multiple resources"
            ∷ [])))
    else if ltb_ℤ (pos 0) total_results && eqb resource_count 0
    then some (
        other (
          join (
            "SCIM filter for externalId "
            ∷ lib.quote external_id
            ∷ " reported a match without returning it"
            ∷ [])))
    else none

-- What the search needs of a kind of resource.
pub record Kind (T : Type 0) : Type 0 where
  pub resource_type : String
  pub resource_path : String
  pub external_id_of : T → String
  pub id_of : T → String
  pub decode : String → Result String (ScimListResponse T)

module _ (lib : GoLibrary) {W : Type 0} (http : Http W) (client : ScimClient) {T : Type 0}
    (kind : Kind T) (external_id : String) where
  missing_id : ScimError
  missing_id = other (
      join (
        "SCIM "
        ∷ kind.resource_type
        ∷ " matched by externalId "
        ∷ lib.quote external_id
        ∷ " is missing id"
        ∷ []))

  -- The loop over the whole collection.
  unfoldable pub find_in : Option T → List T → Over W (Option T)
  unfolding missing_id set_last_trace_error
  find_in found [] conn = (ok found, conn)
  find_in found (r ∷ rs) conn =
      let duplicate = other (
        join (
          "SCIM "
          ∷ kind.resource_type
          ∷ " list returned multiple resources for externalId "
          ∷ lib.quote external_id
          ∷ [])) in
      let skip = find_in found rs conn in
      let keep = find_in (some r) rs conn in
      if not (kind.external_id_of r == external_id)
      then skip
      else if is_some found
      then noted duplicate conn
      else if trim_space (kind.id_of r) == ""
      then noted missing_id conn
      else keep

  unfoldable pub after_list :
      ScimError → Result ScimError (List T) × Conn W → Result ScimError (Option T) × Conn W
  unfolding find_in
  after_list filter_error (err e, conn) = (
    err (
        wrap
          (λ m. join (
            "find SCIM "
            ∷ kind.resource_type
            ∷ " by externalId "
            ∷ lib.quote external_id
            ∷ " after filtered lookup failed ("
            ∷ message filter_error
            ∷ "): "
            ∷ m
            ∷ []))
          e),
    conn,
  )
  after_list filter_error (ok rs, conn) = find_in none rs conn

  unfoldable pub find_by_external_id_without_filter : ScimError → Over W (Option T)
  unfolding after_list list_all
  find_by_external_id_without_filter filter_error conn =
      after_list filter_error
        (list_all lib http client kind.decode kind.resource_type kind.resource_path "adopt" conn)

  unfoldable pub external_id_filter_path : String
  unfolding escape
  external_id_filter_path =
      let filter = join ("externalId eq \"" ∷ escape external_id ∷ "\"" ∷ []) in
      let count = if not client.entra then ("count", "2") ∷ [] else [] in
      join (kind.resource_path ∷ "?" ∷ lib.encode_query (("filter", filter) ∷ count) ∷ [])

  -- The one resource of the answer.
  unfoldable pub check_match : T → Over W (Option T)
  unfolding missing_id set_last_trace_error
  check_match r conn =
      if not (kind.external_id_of r == external_id)
      then noted
          (other (
            join (
              "SCIM "
              ∷ kind.resource_type
              ∷ " filter for externalId "
              ∷ lib.quote external_id
              ∷ " returned externalId "
              ∷ lib.quote (kind.external_id_of r)
              ∷ [])))
          conn
      else if trim_space (kind.id_of r) == ""
      then noted missing_id conn
      else (ok (some r), conn)

  unfoldable pub first_match : List T → Over W (Option T)
  unfolding check_match
  first_match [] conn = (ok none, conn)
  first_match (r ∷ rs) conn = check_match r conn

  unfoldable pub after_check : Option ScimError → List T → Over W (Option T)
  unfolding first_match set_last_trace_error
  after_check (some e) rs conn = noted e conn
  after_check none rs conn = first_match rs conn

  unfoldable pub after_filter : ScimListResponse T → Over W (Option T)
  unfolding validate_external_id_matches after_check
  after_filter r conn =
      after_check
        (validate_external_id_matches lib r.total_results (length r.resources) external_id)
        r.resources conn

  -- Providers without filters are searched, unless they were said to filter.
  unfoldable pub after_lookup :
      Result ScimError (ScimListResponse T) × Conn W → Result ScimError (Option T) × Conn W
  unfolding after_filter find_by_external_id_without_filter
  after_lookup (err e, conn) =
      if client.filter || client.entra || is_stopping_scim_error e
      then (err e, conn)
      else find_by_external_id_without_filter e conn
  after_lookup (ok r, conn) = after_filter r conn

  unfoldable pub find_by_external_id : String → Over W (Option T)
  unfolding external_id_filter_path after_lookup
  find_by_external_id label conn = after_lookup (
      do_json lib http client "GET" external_id_filter_path none (list_out kind.decode)
        (record {
          resource_type = kind.resource_type;
          resource_id = external_id;
          label = label;
          operation = "adopt";
        })
        conn)
