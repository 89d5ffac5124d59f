-- ===== src/Scim/Groups/Live.antt =====
-- The live groups, those not deleted, in the steps of syncDirtyGroups and reconcileGroups.
pub mod Passes
use scimtest.Prelude.{
  String, Bool, true, false, not, ◌&&◌, ◌==◌, if◌then◌else◌, List, [], ◌∷◌, ◌++◌, filter, ◌≡◌, refl,
  arith, Result, ok, err, append-nil,
}
use scimtest.Directory.{User, Group}
use scimtest.Scim.Resource.{ScimGroupResource, group_matches_remote}
use scimtest.Scim.Client.{ScimError, not_found, Client, is_stopping_scim_error}
use scimtest.Scim.Progress.{start_group}
use scimtest.Scim.Pass.{On, On-if, operation_for}
use scimtest.Scim.Groups.{
  GroupPass, keep_group, fail_group, drop_group, after_delete_group, after_create_group,
  after_replace_group, sync_dirty_group, compare_group, desired_group, after_check_group,
  reconcile_cleared_group,
}

-- A group without its sync state and without the members that are gone.
abbrev pub group_profile : (String → Bool) → Group → Group
group_profile gone g = record g {
  member_ids = filter (λ id. not (gone id)) g.member_ids;
  remote_id = "";
  dirty = false;
  last_error = "";
}

abbrev pub live_groups : (String → Bool) → List Group → List Group
live_groups gone [] = []
live_groups gone (g ∷ gs) =
    if g.deleted then live_groups gone gs else group_profile gone g ∷ live_groups gone gs

module _ (gone : String → Bool) where
  pub live_groups-append :
      (gs hs : List Group)
      → live_groups gone (gs ++ hs) ≡ live_groups gone gs ++ live_groups gone hs
  live_groups-append [] hs = refl
  live_groups-append (g ∷ gs) hs = ground (arith, live_groups-append gs hs)

  module _ {W : Type 0} where
    -- What a round does to the live groups: it appends its own.
    abbrev pub Extends : Group → GroupPass W → GroupPass W → Type 0
    Extends g p q = live_groups gone q.next ≡ live_groups gone p.next ++ live_groups gone (g ∷ [])

    fail_group-Extends :
        (d : Bool) (g : Group) (operation : String) (e : ScimError) (p : GroupPass W)
        → On (Extends g p) (Extends g p) (fail_group d g operation e p)
    unfolding fail_group keep_group
    fail_group-Extends d g operation e p =
        On-if _ _ (is_stopping_scim_error e) _ _ (λ _. live_groups-append p.next _)
          λ _. live_groups-append p.next _

    drop_group-Extends :
        (g : Group) (operation status : String) (p : GroupPass W)
        → g.deleted ≡ true
        → Extends g p (drop_group g operation status p)
    unfolding drop_group
    drop_group-Extends g operation status p h = ground (arith, append-nil (live_groups gone p.next))

    after_delete_group-Extends :
        (d : Bool) (g : Group) (operation : String) (p : GroupPass W)
        (r : Result ScimError (Unit {0}) × W)
        → g.deleted ≡ true
        → On (Extends g p) (Extends g p) (after_delete_group d g operation p r)
    unfolding after_delete_group
    after_delete_group-Extends d g operation p (err e, w) h =
        fail_group-Extends d g operation e (record p { world = w })
    after_delete_group-Extends d g operation p (ok x, w) h =
        drop_group-Extends g operation "Deleted" (record p { world = w }) h

    after_create_group-Extends :
        (d : Bool) (g : Group) (operation done : String) (p : GroupPass W)
        (r : Result ScimError (String × Bool) × W)
        → On (Extends g p) (Extends g p) (after_create_group d g operation done p r)
    unfolding after_create_group keep_group
    after_create_group-Extends d g operation done p (err e, w) =
        fail_group-Extends d g operation e (record p { world = w })
    after_create_group-Extends d g operation done p (ok (remote_id, adopted), w) =
        ground (
          arith,
          live_groups-append p.next (record g { remote_id = remote_id; dirty = false } ∷ []),
        )

    after_replace_group-Extends :
        (d : Bool) (g : Group) (operation done : String) (p : GroupPass W)
        (r : Result ScimError (Unit {0}) × W)
        → On (Extends g p) (Extends g p) (after_replace_group d g operation done p r)
    unfolding after_replace_group keep_group
    after_replace_group-Extends d g operation done p (err e, w) =
        fail_group-Extends d g operation e (record p { world = w })
    after_replace_group-Extends d g operation done p (ok x, w) =
        live_groups-append p.next (record g { dirty = false } ∷ [])

  module _ {W : Type 0} (c : Client W) (users : List User) where
    compare_group-Extends :
        (g : Group) (operation : String) (p : GroupPass W) (remote : ScimGroupResource)
        (r : Result ScimError ScimGroupResource)
        → On (Extends g p) (Extends g p) (compare_group c users g operation p remote r)
    unfolding compare_group keep_group
    compare_group-Extends g operation p remote (err e) = fail_group-Extends true g operation e p
    compare_group-Extends g operation p remote (ok desired) =
        On-if _ _ (group_matches_remote desired remote) _ _
          (λ _. live_groups-append p.next (record g { dirty = false } ∷ []))
          λ _.
            after_replace_group-Extends true g operation "update" p
              (c.replace_group g users p.world)

    after_check_group-Extends :
        (g : Group) (operation : String) (p : GroupPass W)
        (r : Result ScimError ScimGroupResource × W)
        → On (Extends g p) (Extends g p) (after_check_group c users g operation p r)
    unfolding after_check_group
    after_check_group-Extends g operation p (err (not_found s), w) =
        after_create_group-Extends true g operation "create" p (c.create_group g users w)
    after_check_group-Extends g operation p (err e, w) =
        fail_group-Extends true g operation e (record p { world = w })
    after_check_group-Extends g operation p (ok remote, w) =
        compare_group-Extends g operation (record p { world = w }) remote (desired_group c users g)

    pub sync_dirty_group-Extends :
        (g : Group) (p : GroupPass W)
        → On (Extends g p) (Extends g p) (sync_dirty_group c users g p)
    unfolding sync_dirty_group
    sync_dirty_group-Extends g p =
        let operation : String = operation_for "update" g.deleted g.remote_id in
        let q : GroupPass W = record p { reporter = start_group p.reporter g operation } in
        On-if _ _ (g.deleted && g.remote_id == "") _ _
          (λ h. drop_group-Extends g operation "Deleted locally" q (ground arith))
          λ _.
            On-if _ _ g.deleted _ _
              (λ h. after_delete_group-Extends false g operation q (c.delete_group g q.world) h)
              λ _.
                On-if _ _ (g.remote_id == "") _ _
                  (λ _.
                    after_create_group-Extends false g operation operation q
                      (c.create_group g users q.world))
                  λ _.
                    after_replace_group-Extends false g operation operation q
                      (c.replace_group g users q.world)

    pub reconcile_cleared_group-Extends :
        (g : Group) (p : GroupPass W)
        → On (Extends g p) (Extends g p) (reconcile_cleared_group c users g p)
    unfolding reconcile_cleared_group
    reconcile_cleared_group-Extends g p =
        let operation : String = operation_for "check" g.deleted g.remote_id in
        let q : GroupPass W = record p { reporter = start_group p.reporter g operation } in
        On-if _ _ (g.deleted && g.remote_id == "") _ _
          (λ h. drop_group-Extends g operation "Deleted locally" q (ground arith))
          λ _.
            On-if _ _ g.deleted _ _
              (λ h. after_delete_group-Extends true g operation q (c.delete_group g q.world) h)
              λ _.
                On-if _ _ (g.remote_id == "") _ _
                  (λ _.
                    after_create_group-Extends true g operation operation q
                      (c.create_group g users q.world))
                  λ _. after_check_group-Extends g operation q (c.get_group g q.world)
