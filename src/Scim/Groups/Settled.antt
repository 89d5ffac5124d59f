-- ===== src/Scim/Groups/Settled.antt =====
-- What syncDirtyGroups leaves to do.
use scimtest.Prelude.{
  String, Bool, true, false, not, ◌&&◌, ◌==◌, some, List, [], ◌∷◌, ◌++◌, ◌≡◌, refl, All, All-append,
  arith, Result, ok, err,
}
use scimtest.Directory.{User, Group}
use scimtest.Scim.Client.{ScimError, Client, is_stopping_scim_error}
use scimtest.Scim.Progress.{start_group}
use scimtest.Scim.Pass.{Step, go, halt, On, On-if, Ends, operation_for}
use scimtest.Scim.Groups.{
  GroupPass, keep_group, fail_group, drop_group, after_delete_group, after_create_group,
  after_replace_group, group_loop, sync_dirty_group, sync_group, sync_groups,
}

abbrev pub IsClean : Group → Type 0
IsClean g = g.dirty ≡ false

module _ {W : Type 0} where
  -- Unless a group has failed, those of the pass are clean.
  abbrev pub Fine : GroupPass W → Type 0
  Fine p = p.counts.failed ≡ 0 → All IsClean p.next

  abbrev pub Any : GroupPass W → Type 0
  Any p = Unit

  fail_group-Fine :
      (g : Group) (operation : String) (e : ScimError) (p : GroupPass W)
      → On Fine Any (fail_group false g operation e p)
  unfolding fail_group keep_group
  fail_group-Fine g operation e p =
      On-if Fine Any (is_stopping_scim_error e) _ _ (λ _. tt) (λ _ k. ground arith)

  after_delete_group-Fine :
      (g : Group) (operation : String) (p : GroupPass W) (r : Result ScimError (Unit {0}) × W)
      → Fine p
      → On Fine Any (after_delete_group false g operation p r)
  unfolding after_delete_group drop_group
  after_delete_group-Fine g operation p (err e, w) h =
      fail_group-Fine g operation e (record p { world = w })
  after_delete_group-Fine g operation p (ok x, w) h = h

  after_create_group-Fine :
      (g : Group) (operation done : String) (p : GroupPass W)
      (r : Result ScimError (String × Bool) × W)
      → Fine p
      → On Fine Any (after_create_group false g operation done p r)
  unfolding after_create_group keep_group
  after_create_group-Fine g operation done p (err e, w) h =
      fail_group-Fine g operation e (record p { world = w })
  after_create_group-Fine g operation done p (ok (remote_id, true), w) h =
      λ k. All-append IsClean p.next _ (h k) (refl, tt)
  after_create_group-Fine g operation done p (ok (remote_id, false), w) h =
      λ k. All-append IsClean p.next _ (h k) (refl, tt)

  after_replace_group-Fine :
      (g : Group) (operation done : String) (p : GroupPass W) (r : Result ScimError (Unit {0}) × W)
      → Fine p
      → On Fine Any (after_replace_group false g operation done p r)
  unfolding after_replace_group keep_group
  after_replace_group-Fine g operation done p (err e, w) h =
      fail_group-Fine g operation e (record p { world = w })
  after_replace_group-Fine g operation done p (ok x, w) h =
      λ k. All-append IsClean p.next _ (h k) (refl, tt)

module _ {W : Type 0} (c : Client W) (users : List User) where
  sync_dirty_group-Fine :
      (g : Group) (p : GroupPass W) → Fine p → On Fine Any (sync_dirty_group c users g p)
  unfolding sync_dirty_group
  sync_dirty_group-Fine g p h =
      let operation : String = operation_for "update" g.deleted g.remote_id in
      let q : GroupPass W = record p { reporter = start_group p.reporter g operation } in
      On-if Fine Any (g.deleted && g.remote_id == "") _ _ (λ _. unfold drop_group in h)
        λ _.
          On-if Fine Any g.deleted _ _
            (λ _. after_delete_group-Fine g operation q (c.delete_group g q.world) h)
            λ _.
              On-if Fine Any (g.remote_id == "") _ _
                (λ _.
                  after_create_group-Fine g operation operation q (c.create_group g users q.world)
                    h)
                λ _.
                  after_replace_group-Fine g operation operation q (c.replace_group g users q.world)
                    h

  sync_group-Fine : (g : Group) (p : GroupPass W) → Fine p → On Fine Any (sync_group c users g p)
  unfolding sync_group keep_group
  sync_group-Fine g p h =
      On-if Fine Any (not g.dirty) _ _
        (λ e k. All-append IsClean p.next (g ∷ []) (h k) (ground arith, tt))
        (λ _. sync_dirty_group-Fine (record g { last_error = "" }) p h)

  after_round :
      (gs : List Group) (s : Step (GroupPass W))
      → On (Fine {W = W}) (Any {W = W}) s
      → ((p : GroupPass W)
          → Fine p
          → Ends (Fine {W = W}) (Any {W = W}) (group_loop (sync_group c users) gs p))
      → Ends (Fine {W = W}) (Any {W = W}) (elim s [
        | go p' ↦ group_loop (sync_group c users) gs p'
        | halt e p' ↦ (record p' { next = p'.next ++ gs }, some e)
      ])
  after_round gs (go p) h k = k p h
  after_round gs (halt e p) h k = tt

  pub sync_groups-Fine :
      (gs : List Group) (p : GroupPass W)
      → Fine p
      → Ends (Fine {W = W}) (Any {W = W}) (sync_groups c users gs p)
  unfolding sync_groups group_loop
  sync_groups-Fine [] p h = h
  sync_groups-Fine (g ∷ gs) p h =
      after_round gs (sync_group c users g p) (sync_group-Fine g p h)
        (λ q k. sync_groups-Fine gs q k)
