-- ===== src/Scim/Resource/Matches.antt =====
-- userMatchesRemote on what newSCIMUserResource sends.
use scimtest.Prelude.{
  String, Bool, true, false, List, ◌≡◌, refl, arith, ◌==◌, eq_refl, trim_space, trim_space_idem,
  Bool-cases, inl, inr,
}
use scimtest.Directory.{User, full_name}
use scimtest.Scim.Resource.{
  UserDirectory, new_user_resource, user_matches_remote, enterprise_matches_remote,
  scim_manager_value, manager_reference, same, first_scim_email,
}

trims : (s : String) → (trim_space s == trim_space (trim_space s)) ≡ true
trims s = rw (trim_space_idem s) (eq_refl (trim_space s))

trims_name : (u : User) → (full_name u == trim_space (full_name u)) ≡ true
unfolding full_name
trims_name u = trims _

same_refl : (b : Bool) → same b b ≡ true
same_refl true = refl
same_refl false = refl

enterprise_self :
    (u : User) (d : UserDirectory)
    → enterprise_matches_remote
        (new_user_resource u d).enterprise
        (new_user_resource u d).enterprise
      ≡ true
unfolding new_user_resource enterprise_matches_remote
enterprise_self u d = elim (Bool-cases d.enterprise) [
  | inl e ↦ rw e (
      ground (
        arith,
        trims u.employee_number,
        trims u.cost_center,
        trims u.organization,
        trims u.division,
        trims u.department,
        eq_refl (scim_manager_value (manager_reference d u)),
      ))
  | inr e ↦ rw e
]

-- The user whose payload a server stores as it was sent, under any remote ID and with any schemas,
-- is found in sync by the next reconcile, whatever spaces its fields had, if the local ID has no
-- space around it.
pub user_matches_remote-stored :
    (u : User) (d : UserDirectory) (remote_id : String) (schemas : List String)
    → trim_space u.id ≡ u.id
    → user_matches_remote
        (new_user_resource u d)
        (record (new_user_resource u d) { id = remote_id; schemas = schemas })
      ≡ true
unfolding user_matches_remote
user_matches_remote-stored u d remote_id schemas h = rw (enterprise_self u d) (
    unfold new_user_resource in
    ground (
      arith,
      trims u.username,
      trims_name u,
      h,
      eq_refl u.id,
      same_refl u.active,
      eq_refl (trim_space (trim_space u.given_name)),
      eq_refl (trim_space (trim_space u.family_name)),
      eq_refl (first_scim_email (new_user_resource u d).emails),
    ))
