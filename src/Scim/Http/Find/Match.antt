-- ===== src/Scim/Http/Find/Match.antt =====
-- What the search for an externalId returns.
use scimtest.Prelude.{
  subst, String, Bool, true, false, not, ◌||◌, Option, none, some, List, [], ◌∷◌, ◌==◌,
  if◌then◌else◌, trim_space, Result, ok, err, ◌≡◌, refl, arith, eq_iff,
}
use scimtest.Scim.Client.{ScimError, is_stopping_scim_error}
use scimtest.Scim.Http.{ScimClient, GoLibrary, Http, Conn}
use scimtest.Scim.Http.Pages.{ScimListResponse}
use scimtest.Scim.Http.Find.{
  Kind, find_in, after_list, find_by_external_id_without_filter, check_match, first_match,
  after_check, after_filter, after_lookup, find_by_external_id,
}

module _ (lib : GoLibrary) {W : Type 0} (http : Http W) (client : ScimClient) {T : Type 0}
    (kind : Kind T) (external_id : String) where
  -- A resource with the externalId and an ID of its own.
  abbrev pub IsMatch : T → Type 0
  IsMatch r = (kind.external_id_of r ≡ external_id) × ((trim_space (kind.id_of r) == "") ≡ false)

  -- A result that, if it is a resource, is a match.
  abbrev Finds : Result ScimError (Option T) × Conn W → Type 0
  Finds (ok (some r), conn) = IsMatch r
  Finds (ok none, conn) = Unit
  Finds (err e, conn) = Unit

  Finds-if :
      (b : Bool) (r s : Result ScimError (Option T) × Conn W)
      → (b ≡ true → Finds r)
      → (b ≡ false → Finds s)
      → Finds (if b then r else s)
  Finds-if true r s h k = h refl
  Finds-if false r s h k = k refl

  kept-IsMatch :
      (r : T)
      → not (kind.external_id_of r == external_id) ≡ false
      → (trim_space (kind.id_of r) == "") ≡ false
      → IsMatch r
  kept-IsMatch r h k = (grind (arith, h, eq_iff), k)

  find_in-some :
      (r : T) (rs : List T) (conn : Conn W)
      → IsMatch r
      → Finds (find_in lib http client kind external_id (some r) rs conn)
  unfolding find_in
  find_in-some r [] conn h = h
  find_in-some r (x ∷ xs) conn h =
      Finds-if (not (kind.external_id_of x == external_id)) _ _ (λ _. find_in-some r xs conn h)
        (λ _. tt)

  find_in-none :
      (rs : List T) (conn : Conn W) → Finds (find_in lib http client kind external_id none rs conn)
  unfolding find_in
  find_in-none [] conn = tt
  find_in-none (x ∷ xs) conn =
      Finds-if (not (kind.external_id_of x == external_id)) _ _ (λ _. find_in-none xs conn)
        (λ h.
          Finds-if (trim_space (kind.id_of x) == "") _ _ (λ _. tt)
            (λ k. find_in-some x xs conn (kept-IsMatch x h k)))

  after_list-Finds :
      (e : ScimError) (r : Result ScimError (List T) × Conn W)
      → Finds (after_list lib http client kind external_id e r)
  unfolding after_list
  after_list-Finds e (err e', conn) = tt
  after_list-Finds e (ok rs, conn) = find_in-none rs conn

  check_match-Finds :
      (r : T) (conn : Conn W) → Finds (check_match lib http client kind external_id r conn)
  unfolding check_match
  check_match-Finds r conn =
      Finds-if (not (kind.external_id_of r == external_id)) _ _ (λ _. tt)
        (λ h. Finds-if (trim_space (kind.id_of r) == "") _ _ (λ _. tt) (λ k. kept-IsMatch r h k))

  first_match-Finds :
      (rs : List T) (conn : Conn W) → Finds (first_match lib http client kind external_id rs conn)
  unfolding first_match
  first_match-Finds [] conn = tt
  first_match-Finds (r ∷ rs) conn = check_match-Finds r conn

  after_check-Finds :
      (e : Option ScimError) (rs : List T) (conn : Conn W)
      → Finds (after_check lib http client kind external_id e rs conn)
  unfolding after_check
  after_check-Finds (some e) rs conn = tt
  after_check-Finds none rs conn = first_match-Finds rs conn

  after_filter-Finds :
      (r : ScimListResponse T) (conn : Conn W)
      → Finds (after_filter lib http client kind external_id r conn)
  unfolding after_filter
  after_filter-Finds r conn = after_check-Finds _ r.resources conn

  after_lookup-Finds :
      (r : Result ScimError (ScimListResponse T) × Conn W)
      → Finds (after_lookup lib http client kind external_id r)
  unfolding after_lookup find_by_external_id_without_filter
  after_lookup-Finds (err e, conn) =
      Finds-if (client.filter || client.entra || is_stopping_scim_error e) _ _ (λ _. tt)
        (λ _. after_list-Finds e _)
  after_lookup-Finds (ok r, conn) = after_filter-Finds r conn

  Finds-IsMatch :
      (s : Result ScimError (Option T) × Conn W) (r : T) → Finds s → s.0 ≡ ok (some r) → IsMatch r
  Finds-IsMatch (ok (some x), conn) r h e = subst IsMatch (cc e) h
  Finds-IsMatch (ok none, conn) r h e = cc e
  Finds-IsMatch (err x, conn) r h e = cc e

  -- Whatever the provider answers, and whether it filters or is searched page by page: a resource
  -- that the search returns has exactly the externalId that was asked for and an ID that is not
  -- blank.
  pub find_by_external_id-IsMatch :
      (label : String) (conn : Conn W) (r : T)
      → (find_by_external_id lib http client kind external_id label conn).0 ≡ ok (some r)
      → IsMatch r
  unfolding find_by_external_id
  find_by_external_id-IsMatch label conn r = search (Finds-IsMatch, after_lookup-Finds)
