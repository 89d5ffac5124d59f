-- ===== src/Scim/Groups/Live/Passes.antt =====
-- The live groups over a whole pass over the groups.
use scimtest.Prelude.{
  String, Bool, not, some, List, [], ◌∷◌, ◌++◌, ◌≡◌, sym, ap, ◌∙◌, arith, append-nil, append_assoc,
}
use scimtest.Directory.{User, Group}
use scimtest.Scim.Client.{Client}
use scimtest.Scim.Pass.{Step, go, halt, On, On-if, Ends}
use scimtest.Scim.Groups.{
  GroupPass, keep_group, group_loop, sync_dirty_group, sync_group, sync_groups,
  reconcile_cleared_group, reconcile_group, reconcile_groups,
}
use scimtest.Scim.Groups.Live.{
  live_groups, live_groups-append, Extends, sync_dirty_group-Extends,
  reconcile_cleared_group-Extends,
}

module _ {W : Type 0} (c : Client W) (gone : String → Bool) (all : List Group) where
  -- The live groups of the pass are those of `all`.
  abbrev pub Kept : GroupPass W → Type 0
  Kept p = live_groups gone p.next ≡ all

  -- The live groups of the pass and those still to come are those of `all`.
  abbrev Holds : List Group → GroupPass W → Type 0
  Holds gs p = live_groups gone (p.next ++ gs) ≡ all

  -- How a loop with any step keeps the live groups.
  module _ (step : Group → GroupPass W → Step (GroupPass W))
      (round : (g : Group) (gs : List Group) (p : GroupPass W)
        → Holds (g ∷ gs) p
        → On (Holds gs) (Holds gs) (step g p)) where
    after_round :
        (gs : List Group) (s : Step (GroupPass W))
        → On (Holds gs) (Holds gs) s
        → ((p : GroupPass W) → Holds gs p → Ends Kept Kept (group_loop step gs p))
        → Ends Kept Kept (elim s [
          | go p' ↦ group_loop step gs p'
          | halt e p' ↦ (record p' { next = p'.next ++ gs }, some e)
        ])
    after_round gs (go p) h k = k p h
    after_round gs (halt e p) h k = h

    group_loop-Kept :
        (gs : List Group) (p : GroupPass W) → Holds gs p → Ends Kept Kept (group_loop step gs p)
    unfolding group_loop
    group_loop-Kept [] p h = ap (live_groups gone) (sym (append-nil p.next)) ∙ h
    group_loop-Kept (g ∷ gs) p h =
        after_round gs (step g p) (round g gs p h) (λ q k. group_loop-Kept gs q k)

  extended :
      (g v : Group) (gs : List Group) (p q : GroupPass W)
      → live_groups gone (v ∷ []) ≡ live_groups gone (g ∷ [])
      → Holds (g ∷ gs) p
      → Extends gone v p q
      → Holds gs q
  extended g v gs p q same h k =
      let before = live_groups gone p.next in
      let rest = live_groups gone gs in
      live_groups-append gone q.next gs
      ∙ ap (λ l. l ++ rest) (k ∙ ap (λ l. before ++ l) same)
      ∙ append_assoc before (live_groups gone (g ∷ [])) rest
      ∙ ap (λ l. before ++ l) (sym (live_groups-append gone (g ∷ []) gs))
      ∙ sym (live_groups-append gone p.next (g ∷ gs))
      ∙ h

  advance :
      (g v : Group) (gs : List Group) (p : GroupPass W) (s : Step (GroupPass W))
      → live_groups gone (v ∷ []) ≡ live_groups gone (g ∷ [])
      → Holds (g ∷ gs) p
      → On (Extends gone v p) (Extends gone v p) s
      → On (Holds gs) (Holds gs) s
  advance g v gs p (go q) same h k = extended g v gs p q same h k
  advance g v gs p (halt e q) same h k = extended g v gs p q same h k

  cleared :
      (g : Group) → live_groups gone (record g { last_error = "" } ∷ []) ≡ live_groups gone (g ∷ [])
  cleared g = ground arith

  module _ (users : List User) where
    sync_group-Holds :
        (g : Group) (gs : List Group) (p : GroupPass W)
        → Holds (g ∷ gs) p
        → On (Holds gs) (Holds gs) (sync_group c users g p)
    unfolding sync_group keep_group
    sync_group-Holds g gs p h =
        On-if _ _ (not g.dirty) _ _
          (λ _. ap (live_groups gone) (append_assoc p.next (g ∷ []) gs) ∙ h)
          λ _.
            let v : Group = record g { last_error = "" } in
            advance g v gs p (sync_dirty_group c users v p) (cleared g) h
              (sync_dirty_group-Extends gone c users v p)

    reconcile_group-Holds :
        (g : Group) (gs : List Group) (p : GroupPass W)
        → Holds (g ∷ gs) p
        → On (Holds gs) (Holds gs) (reconcile_group c users g p)
    unfolding reconcile_group
    reconcile_group-Holds g gs p h =
        let v : Group = record g { last_error = "" } in
        advance g v gs p (reconcile_cleared_group c users v p) (cleared g) h
          (reconcile_cleared_group-Extends gone c users v p)

    pub sync_groups-Kept :
        (gs : List Group) (p : GroupPass W) → Holds gs p → Ends Kept Kept (sync_groups c users gs p)
    unfolding sync_groups
    sync_groups-Kept = group_loop-Kept (sync_group c users) sync_group-Holds

    pub reconcile_groups-Kept :
        (gs : List Group) (p : GroupPass W)
        → Holds gs p
        → Ends Kept Kept (reconcile_groups c users gs p)
    unfolding reconcile_groups
    reconcile_groups-Kept = group_loop-Kept (reconcile_group c users) reconcile_group-Holds
