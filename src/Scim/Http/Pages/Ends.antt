-- ===== src/Scim/Http/Pages/Ends.antt =====
-- That listResources ends.
use scimtest.Prelude.{
  ℕ, zero, suc, ◌+◌, ◌≤◌, ◌<◌, String, Bool, true, false, Option, none, List, [], ◌++◌, ◌≡◌, ◌≢◌,
  refl, sym, subst, arith, length, eqb, if◌then◌else◌, Result, ok, err,
}
use scimtest.Prelude.Int.{ℤ, pos, negsuc, pos_part, leb_ℤ, add64_range}
use scimtest.Scim.Client.{ScimError}
use scimtest.Scim.Http.{ScimClient, GoLibrary, Http, Conn}
use scimtest.Scim.Http.Send.{Over}
use scimtest.Scim.Http.Pages.{
  ScimListResponse, Page, last, more, stuck, next_index, is_last, page, turn_page, get_page,
  after_page, list_from, list_resources,
}

next_index_range :
    {T : Type 0} (start : ℤ) (r : ScimListResponse T)
    → pos_part (next_index start r) < 0x8000000000000000
unfolding next_index
next_index_range start r = ground (
  arith,
  add64_range r.start_index (pos (length r.resources)),
  add64_range start (pos (length r.resources)),
)

of_leb :
    (start : ℕ) (next : ℤ)
    → leb_ℤ next (pos start) ≡ false
    → (start < pos_part next) × (next ≡ pos (pos_part next))
of_leb start (pos n) h = ground arith
of_leb start (negsuc n) h = ground arith

more-inj :
    (a b c : Bool) (n next : ℤ)
    → (if a then last else if b then last else if c then stuck else more n) ≡ more next
    → (c ≡ false) × (n ≡ next)
more-inj true b c n next h = cc
more-inj false true c n next h = cc
more-inj false false true n next h = cc
more-inj false false false n next h = (refl, cc)

-- The index of a page that follows is larger, and one of 64 bits.
page-more :
    {T : Type 0} (start : ℕ) (r : ScimListResponse T) (next : ℤ)
    → page (pos start) r ≡ more next
    → (start < pos_part next) × (pos_part next < 0x8000000000000000) × (next ≡ pos (pos_part next))
unfolding page
page-more start r next h =
    let n = next_index (pos start) r in
    let (c, same) =
      more-inj (eqb (length r.resources) 0) (is_last (pos start) r) (leb_ℤ n (pos start)) n next
        h in
    let (lt, eq) = of_leb start n c in rw (← same) (lt, next_index_range (pos start) r, eq)

module _ (lib : GoLibrary) {W : Type 0} (http : Http W) (client : ScimClient) where
  module _ {T : Type 0} (decode : String → Result String (ScimListResponse T))
      (resource_type resource_path operation : String) where
    turn_page-ends :
        (start : ℤ) (all : List T) (go_on : ℤ → List T → Over W (Option (List T))) (p : Page)
        (conn : Conn W)
        → ((next : ℤ) → p ≡ more next → (go_on next all conn).0 ≢ ok none)
        → (turn_page lib http client decode resource_type resource_path operation start all go_on p
            conn).0
          ≢ ok none
    unfolding turn_page
    turn_page-ends start all go_on last conn h = λ e. cc
    turn_page-ends start all go_on (more next) conn h = h next refl
    turn_page-ends start all go_on stuck conn h = λ e. cc

    after_page-ends :
        (start : ℕ) (acc : List T) (go_on : ℤ → List T → Over W (Option (List T)))
        (r : Result ScimError (ScimListResponse T) × Conn W)
        → ((next : ℕ) (all : List T) (conn : Conn W)
            → start < next
            → next < 0x8000000000000000
            → (go_on (pos next) all conn).0 ≢ ok none)
        → (after_page lib http client decode resource_type resource_path operation
            (pos start)
            acc
            go_on
            r).0
          ≢ ok none
    unfolding after_page
    after_page-ends start acc go_on (err e, conn) h = λ e'. cc
    after_page-ends start acc go_on (ok r, conn) h =
        turn_page-ends (pos start) (acc ++ r.resources) go_on (page (pos start) r) conn (λ next e.
          let (lt, range, same) = page-more start r next e in
          subst (λ i. (go_on i (acc ++ r.resources) conn).0 ≢ ok none) (sym same)
            (h (pos_part next) (acc ++ r.resources) conn lt range))

    list_from-ends :
        (fuel start : ℕ) (acc : List T) (conn : Conn W)
        → start < 0x8000000000000000
        → 0x8000000000000000 ≤ start + fuel
        → (list_from lib http client decode resource_type resource_path operation fuel
            (pos start)
            acc
            conn).0
          ≢ ok none
    unfolding list_from
    list_from-ends zero start acc conn h k = absurd (omega arith)
    list_from-ends (suc fuel) start acc conn h k =
        after_page-ends start acc
          (list_from lib http client decode resource_type resource_path operation fuel)
          (get_page lib http client decode resource_type resource_path operation (pos start) conn)
          (λ next all conn' lt range. list_from-ends fuel next all conn' range (omega arith))

    -- The walk over the pages ends, whatever the server answers: with fuel for 2^63 - 1 pages it
    -- does not run out, since each page starts after the one before it, at an index of 64 bits.
    pub list_resources-ends :
        (fuel : ℕ) (conn : Conn W)
        → 0x7fffffffffffffff ≤ fuel
        → (list_resources lib http client decode resource_type resource_path operation fuel conn).0
          ≢ ok none
    unfolding list_resources
    list_resources-ends fuel conn h = list_from-ends fuel 1 [] conn (omega arith) (omega arith)
