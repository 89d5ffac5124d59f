-- ===== src/Examples/Web.antt =====
-- The theorems on the HTTP client at inputs that meet their hypotheses.
use scimtest.Prelude.{
  ℕ, suc, List, ◌*◌, true, false, [], ◌∷◌, ◌++◌, map, none, some, ok, ◌==◌, ◌≡◌, ◌≢◌, refl, arith,
  if◌then◌else◌, leb,
}
use scimtest.Prelude.Text.{trim_space}
use scimtest.Prelude.Int.{ℤ, pos}
use scimtest.Samples.{ada, bob, cid, staff}
use scimtest.Samples.Web.{library, web, scim, remote_bob, remote_staff, decoders, idle}
use scimtest.Scim.Resource.{
  ScimGroupResource, new_group_resource, new_user_directory, new_user_resource, user_matches_remote,
}
use scimtest.Scim.Http.{Http, Conn}
use scimtest.Scim.Http.Delay.{second, rate_limit_retry_delay}
use scimtest.Scim.Http.Delay.Bounds.{rate_limit_retry_delay-seconds}
use scimtest.Scim.Http.Send.{do_json}
use scimtest.Scim.Http.Send.Bounds.{delays}
use scimtest.Scim.Http.Pages.{list_resources}
use scimtest.Scim.Http.Pages.Ends.{list_resources-ends}
use scimtest.Scim.Http.Pages.Walk.{page_fuel}
use scimtest.Scim.Http.Find.{find_by_external_id}
use scimtest.Scim.Http.Find.Match.{IsMatch, find_by_external_id-IsMatch}
use scimtest.Scim.Http.Calls.{user_kind, group_out}
use scimtest.Directory.{user_by_id}
use scimtest.Scim.Http.Entra.{entra_user_operations, entra_group_operations, has_member}
use scimtest.Scim.Http.Entra.Agrees.{
  is_nil, apply, listed, entra_user_operations-matches, entra_group_operations-members,
}
use scimtest.Scim.Http.Writes.{create_user, create_group}
use scimtest.Scim.Http.Writes.Ids.{create_user-id, create_group-id}

five : library.atoi (trim_space " 5") ≡ some (pos 5)
unfolding trim_space
five = refl

rate_limit_retry_delay-seconds_example :
    rate_limit_retry_delay library web " 5" 0 7
    ≡ (if leb 5 9_223_372_036 then pos (5 * second) else pos 0)
rate_limit_retry_delay-seconds_example =
    rate_limit_retry_delay-seconds library web " 5" 0 7 5 five (omega arith)

-- The same server in a world that records its requests and the delays.
abbrev recording : Http (ℕ × List ℤ)
recording = record {
  exchange = λ r (n, delays). ((web.exchange r n).0, (suc n, delays));
  timestamp = λ w. "2024-01-01T00:00:00Z";
  until = λ s w. none;
  wait = λ d (n, delays). (none, (n, delays ++ d ∷ []));
}

abbrev fresh : Conn (ℕ × List ℤ)
fresh = record { world = (0, []); traces = []; rate_limits = [] }

list_resources-ends_example :
    (list_resources library web scim decoders.users "user" "/Users" "import" page_fuel idle).0
    ≢ ok none
list_resources-ends_example =
    list_resources-ends library web scim decoders.users "user" "/Users" "import" page_fuel idle
      (omega arith)

found :
    (find_by_external_id library web scim
      (user_kind library decoders web scim)
      "usr_bob"
      "Bob"
      idle).0
    ≡ ok (some remote_bob)
unfolding find_by_external_id do_json user_kind trim_space
found = refl

find_by_external_id-IsMatch_example :
    IsMatch library web scim (user_kind library decoders web scim) "usr_bob" remote_bob
find_by_external_id-IsMatch_example =
    find_by_external_id-IsMatch library web scim (user_kind library decoders web scim) "usr_bob"
      "Bob" idle remote_bob found

user-created :
    (create_user library decoders web scim bob (new_user_directory (ada ∷ bob ∷ [])) idle).0
    ≡ ok ("r9", true)
unfolding create_user do_json trim_space
user-created = refl

create_user-id_example : (trim_space "r9" == "") ≡ false
create_user-id_example =
    create_user-id library decoders web scim bob (new_user_directory (ada ∷ bob ∷ [])) idle "r9"
      true user-created

group-created :
    (create_group library decoders web scim staff (ada ∷ bob ∷ cid ∷ []) idle).0 ≡ ok ("g9", false)
unfolding create_group new_group_resource user_by_id trim_space do_json group_out
group-created = refl

create_group-id_example : (trim_space "g9" == "") ≡ false
create_group-id_example =
    create_group-id library decoders web scim staff (ada ∷ bob ∷ cid ∷ []) idle "g9" false
      group-created

entra_user_operations-matches_example :
    is_nil
      (entra_user_operations (new_user_resource bob (new_user_directory (bob ∷ []))) remote_bob)
    ≡ user_matches_remote (new_user_resource bob (new_user_directory (bob ∷ []))) remote_bob
entra_user_operations-matches_example =
    entra_user_operations-matches (new_user_resource bob (new_user_directory (bob ∷ []))) remote_bob

-- A group of another name, with one of the members that the server lists, and a new one.
abbrev crew : ScimGroupResource
crew = record remote_staff {
  display_name = "Crew";
  members = record { value = "r7"; type = "" } ∷ record { value = "r2"; type = "" } ∷ [];
}

entra_group_operations-members_example :
    let after = apply (entra_group_operations crew remote_staff) (listed remote_staff) in
    (after.name ≡ "Crew")
    × (has_member after.values "r1" ≡ has_member (map (λ m. m.value) crew.members) "r1")
entra_group_operations-members_example = entra_group_operations-members crew remote_staff "r1"
