-- ===== src/Scim/Users/Members.antt =====
-- The groups and their members in the steps of syncDirtyUsers and reconcileUsers.
pub mod Passes
use scimtest.Prelude.{
  String, Bool, true, false, not, ◌==◌, List, [], ◌∷◌, filter, ◌≡◌, refl, ◌∙◌, ◌⊎◌, inl, inr,
  eq_iff, arith, Result, ok, err,
}
use scimtest.Directory.{User, Group}
use scimtest.Scim.Client.{ScimError, Client, not_found, is_stopping_scim_error}
use scimtest.Scim.Resource.{ScimUserResource, new_user_resource, user_matches_remote}
use scimtest.Scim.Pass.{
  UserPass, On, On-if, keep_user, note_awaiting, fail_user, drop_user, prune_user_from_groups,
  after_delete, after_create, after_replace,
}
use scimtest.Scim.Users.{after_check}
use scimtest.Scim.Groups.Live.{live_groups}

module _ (gone : String → Bool) where
  filter-remove :
      (ms : List String) (id : String)
      → gone id ≡ true
      → filter (λ m. not (gone m)) (filter (λ m. not (m == id)) ms) ≡ filter (λ m. not (gone m)) ms
  filter-remove [] id h = refl
  filter-remove (m ∷ ms) id h = ground (arith, filter-remove ms id h, eq_iff m id)

  prune-live_groups :
      (gs : List Group) (id : String)
      → gone id ≡ true
      → live_groups gone (prune_user_from_groups gs id).0 ≡ live_groups gone gs
  unfolding prune_user_from_groups
  prune-live_groups [] id h = refl
  prune-live_groups (g ∷ gs) id h =
      ground (arith, prune-live_groups gs id h, filter-remove g.member_ids id h)

  -- A user that a pass may drop is gone.
  abbrev pub IsKnown : User → Type 0
  IsKnown u = (u.deleted ≡ false) ⊎ (gone u.id ≡ true)

  pub is_gone-of-deleted : (u : User) → IsKnown u → u.deleted ≡ true → gone u.id ≡ true
  is_gone-of-deleted u (inl e) h = cc
  is_gone-of-deleted u (inr e) h = e

  module _ {W : Type 0} (all : List Group) where
    -- The live groups of the pass are those of `all`.
    abbrev pub Kept : UserPass W → Type 0
    Kept p = live_groups gone p.groups ≡ all

    fail_user-Kept :
        (d : Bool) (u : User) (operation : String) (e : ScimError) (p : UserPass W)
        → Kept p
        → On Kept Kept (fail_user d u operation e p)
    unfolding fail_user keep_user
    fail_user-Kept d u operation e p h = On-if _ _ (is_stopping_scim_error e) _ _ (λ _. h) (λ _. h)

    pub drop_user-Kept :
        (grows : Bool) (u : User) (operation status : String) (p : UserPass W)
        → gone u.id ≡ true
        → Kept p
        → Kept (drop_user grows u operation status p)
    unfolding drop_user
    drop_user-Kept grows u operation status p g h = prune-live_groups p.groups u.id g ∙ h

    pub after_delete-Kept :
        (d grows : Bool) (u : User) (operation : String) (p : UserPass W)
        (r : Result ScimError (Unit {0}) × W)
        → gone u.id ≡ true
        → Kept p
        → On Kept Kept (after_delete d grows u operation p r)
    unfolding after_delete
    after_delete-Kept d grows u operation p (err e, w) g h =
        fail_user-Kept d u operation e (record p { world = w }) h
    after_delete-Kept d grows u operation p (ok x, w) g h =
        drop_user-Kept grows u operation "Deleted" (record p { world = w }) g h

    groups-note_awaiting : (u : User) (p : UserPass W) → (note_awaiting u p).groups ≡ p.groups
    unfolding note_awaiting
    groups-note_awaiting u p = ground arith

    pub after_create-Kept :
        (d : Bool) (u : User) (operation done : String) (p : UserPass W)
        (r : Result ScimError (String × Bool) × W)
        → Kept p
        → On Kept Kept (after_create d u operation done p r)
    unfolding after_create keep_user
    after_create-Kept d u operation done p (err e, w) h =
        fail_user-Kept d u operation e (record p { world = w }) h
    after_create-Kept d u operation done p (ok (remote_id, adopted), w) h =
        ground (arith, groups-note_awaiting u (record p { world = w }))

    pub after_replace-Kept :
        (d : Bool) (u : User) (operation done : String) (p : UserPass W)
        (r : Result ScimError (Unit {0}) × W)
        → Kept p
        → On Kept Kept (after_replace d u operation done p r)
    unfolding after_replace keep_user
    after_replace-Kept d u operation done p (err e, w) h =
        fail_user-Kept d u operation e (record p { world = w }) h
    after_replace-Kept d u operation done p (ok x, w) h =
        ground (arith, groups-note_awaiting u (record p { world = w }))

    module _ (c : Client W) where
      pub after_check-Kept :
          (u : User) (operation : String) (p : UserPass W)
          (r : Result ScimError ScimUserResource × W)
          → Kept p
          → On Kept Kept (after_check c u operation p r)
      unfolding after_check keep_user
      after_check-Kept u operation p (err (not_found s), w) h =
          after_create-Kept true u operation "create" p (c.create_user u p.directory w) h
      after_check-Kept u operation p (err e, w) h =
          fail_user-Kept true u operation e (record p { world = w }) h
      after_check-Kept u operation p (ok remote, w) h =
          On-if _ _ (user_matches_remote (new_user_resource u p.directory) remote) _ _
            (λ _. ground (arith, groups-note_awaiting u (record p { world = w })))
            λ _. after_replace-Kept true u operation "update" p (c.replace_user u p.directory w) h
