-- ===== src/Scim/Groups/Accounting.antt =====
-- The counts and the reports of syncDirtyGroups and reconcileGroups.
use scimtest.Prelude.{
  ℕ, suc, ◌+◌, ◌≤◌, String, Bool, true, false, not, some, List, [], ◌∷◌, ◌++◌, ◌≡◌, refl, length,
  arith, ◌&&◌, ◌==◌, Result, ok, err,
}
use scimtest.Directory.{User, Group}
use scimtest.Scim.Resource.{ScimGroupResource, group_matches_remote}
use scimtest.Scim.Client.{ScimError, not_found, Client}
use scimtest.Scim.Progress.{report_group, start_group, report}
use scimtest.Scim.Pass.{Step, go, halt, On, On-if, Ends, total, operation_for}
use scimtest.Scim.Groups.{
  GroupPass, keep_group, fail_group, drop_group, after_delete_group, after_create_group,
  after_replace_group, group_loop, sync_dirty_group, sync_group, sync_groups, compare_group,
  desired_group, after_check_group, reconcile_cleared_group, reconcile_group, reconcile_groups,
}
use scimtest.Scim.Users.Accounting.{dirty_groups}

module _ {W : Type 0} where
  abbrev pub handled : GroupPass W → ℕ
  handled p = total p.counts + p.counts.in_sync

  -- `n` more groups handled, within an unchanged total.
  abbrev Ticks : GroupPass W → GroupPass W → Type 0
  Ticks p q =
      (q.reporter.processed ≡ p.reporter.processed + 1)
      × (handled q ≡ handled p + 1)
      × (q.reporter.total ≡ p.reporter.total)

  fail_group-Ticks :
      (d : Bool) (g : Group) (operation : String) (e : ScimError) (p : GroupPass W)
      → On (Ticks p) (Ticks p) (fail_group d g operation e p)
  unfolding fail_group keep_group report_group total
  fail_group-Ticks d g operation e p = ground arith

  drop_group-Ticks :
      (g : Group) (operation status : String) (p : GroupPass W)
      → Ticks p (drop_group g operation status p)
  unfolding drop_group report_group total
  drop_group-Ticks g operation status p = ground arith

  after_delete_group-Ticks :
      (d : Bool) (g : Group) (operation : String) (p : GroupPass W)
      (r : Result ScimError (Unit {0}) × W)
      → On (Ticks p) (Ticks p) (after_delete_group d g operation p r)
  unfolding after_delete_group
  after_delete_group-Ticks d g operation p (err e, w) =
      fail_group-Ticks d g operation e (record p { world = w })
  after_delete_group-Ticks d g operation p (ok x, w) =
      drop_group-Ticks g operation "Deleted" (record p { world = w })

  after_create_group-Ticks :
      (d : Bool) (g : Group) (operation done : String) (p : GroupPass W)
      (r : Result ScimError (String × Bool) × W)
      → On (Ticks p) (Ticks p) (after_create_group d g operation done p r)
  unfolding after_create_group keep_group report_group total
  after_create_group-Ticks d g operation done p (err e, w) =
      fail_group-Ticks d g operation e (record p { world = w })
  after_create_group-Ticks d g operation done p (ok (remote_id, adopted), w) = ground arith

  after_replace_group-Ticks :
      (d : Bool) (g : Group) (operation done : String) (p : GroupPass W)
      (r : Result ScimError (Unit {0}) × W)
      → On (Ticks p) (Ticks p) (after_replace_group d g operation done p r)
  unfolding after_replace_group keep_group report_group total
  after_replace_group-Ticks d g operation done p (err e, w) =
      fail_group-Ticks d g operation e (record p { world = w })
  after_replace_group-Ticks d g operation done p (ok x, w) = ground arith

module _ {W : Type 0} (c : Client W) (users : List User) where
  compare_group-Ticks :
      (g : Group) (operation : String) (p : GroupPass W) (remote : ScimGroupResource)
      (r : Result ScimError ScimGroupResource)
      → On (Ticks p) (Ticks p) (compare_group c users g operation p remote r)
  unfolding compare_group keep_group report_group total
  compare_group-Ticks g operation p remote (err e) = fail_group-Ticks true g operation e p
  compare_group-Ticks g operation p remote (ok desired) =
      On-if _ _ (group_matches_remote desired remote) _ _ (λ _. ground arith)
        λ _. after_replace_group-Ticks true g operation "update" p (c.replace_group g users p.world)

  after_check_group-Ticks :
      (g : Group) (operation : String) (p : GroupPass W)
      (r : Result ScimError ScimGroupResource × W)
      → On (Ticks p) (Ticks p) (after_check_group c users g operation p r)
  unfolding after_check_group
  after_check_group-Ticks g operation p (err (not_found s), w) =
      after_create_group-Ticks true g operation "create" p (c.create_group g users w)
  after_check_group-Ticks g operation p (err e, w) =
      fail_group-Ticks true g operation e (record p { world = w })
  after_check_group-Ticks g operation p (ok remote, w) =
      compare_group-Ticks g operation (record p { world = w }) remote (desired_group c users g)

  sync_dirty_group-Ticks :
      (g : Group) (p : GroupPass W) → On (Ticks p) (Ticks p) (sync_dirty_group c users g p)
  unfolding sync_dirty_group start_group report
  sync_dirty_group-Ticks g p =
      let operation : String = operation_for "update" g.deleted g.remote_id in
      let q : GroupPass W = record p { reporter = start_group p.reporter g operation } in
      On-if _ _ (g.deleted && g.remote_id == "") _ _
        (λ _. drop_group-Ticks g operation "Deleted locally" q)
        λ _.
          On-if _ _ g.deleted _ _
            (λ _. after_delete_group-Ticks false g operation q (c.delete_group g q.world))
            λ _.
              On-if _ _ (g.remote_id == "") _ _
                (λ _.
                  after_create_group-Ticks false g operation operation q
                    (c.create_group g users q.world))
                λ _.
                  after_replace_group-Ticks false g operation operation q
                    (c.replace_group g users q.world)

  reconcile_cleared_group-Ticks :
      (g : Group) (p : GroupPass W) → On (Ticks p) (Ticks p) (reconcile_cleared_group c users g p)
  unfolding reconcile_cleared_group start_group report
  reconcile_cleared_group-Ticks g p =
      let operation : String = operation_for "check" g.deleted g.remote_id in
      let q : GroupPass W = record p { reporter = start_group p.reporter g operation } in
      On-if _ _ (g.deleted && g.remote_id == "") _ _
        (λ _. drop_group-Ticks g operation "Deleted locally" q)
        λ _.
          On-if _ _ g.deleted _ _
            (λ _. after_delete_group-Ticks true g operation q (c.delete_group g q.world))
            λ _.
              On-if _ _ (g.remote_id == "") _ _
                (λ _.
                  after_create_group-Ticks true g operation operation q
                    (c.create_group g users q.world))
                λ _. after_check_group-Ticks g operation q (c.get_group g q.world)

-- The total is what was processed and `n` groups; `base` was processed before the groups.
module _ {W : Type 0} (base : ℕ) where
  abbrev pub Balanced : ℕ → GroupPass W → Type 0
  Balanced n p =
      (p.reporter.processed + n ≡ p.reporter.total) × (handled p + base ≡ p.reporter.processed)

  abbrev pub Within : GroupPass W → Type 0
  Within p = (p.reporter.processed ≤ p.reporter.total) × (handled p + base ≡ p.reporter.processed)

  -- How a loop with any step keeps the balance, for what `owed` counts of the groups left.
  module _ (step : Group → GroupPass W → Step (GroupPass W)) (owed : List Group → ℕ)
      (owed_nil : owed [] ≡ 0)
      (round : (g : Group) (gs : List Group) (p : GroupPass W)
        → Balanced (owed (g ∷ gs)) p
        → On (Balanced (owed gs)) Within (step g p)) where
    after_round :
        (gs : List Group) (s : Step (GroupPass W))
        → On (Balanced (owed gs)) Within s
        → ((p : GroupPass W)
            → Balanced (owed gs) p
            → Ends (Balanced 0) Within (group_loop step gs p))
        → Ends (Balanced 0) Within (elim s [
          | go p' ↦ group_loop step gs p'
          | halt e p' ↦ (record p' { next = p'.next ++ gs }, some e)
        ])
    after_round gs (go p) h k = k p h
    after_round gs (halt e p) h k = h

    group_loop-Balanced :
        (gs : List Group) (p : GroupPass W)
        → Balanced (owed gs) p
        → Ends (Balanced 0) Within (group_loop step gs p)
    unfolding group_loop
    group_loop-Balanced [] p h = omega (arith, owed_nil)
    group_loop-Balanced (g ∷ gs) p h =
        after_round gs (step g p) (round g gs p h) (λ q k. group_loop-Balanced gs q k)

  spend :
      (n : ℕ) (p : GroupPass W) (s : Step (GroupPass W))
      → Balanced (suc n) p
      → On (Ticks p) (Ticks p) s
      → On (Balanced n) Within s
  spend n p (go q) h k = omega arith
  spend n p (halt e q) h k = omega arith

  module _ (c : Client W) (users : List User) where
    sync_group-Balanced :
        (g : Group) (gs : List Group) (p : GroupPass W)
        → Balanced (dirty_groups (g ∷ gs)) p
        → On (Balanced (dirty_groups gs)) Within (sync_group c users g p)
    unfolding sync_group keep_group
    sync_group-Balanced g gs p h =
        On-if _ _ (not g.dirty) _ _ (λ clean. ground arith)
          λ dirty.
            spend (dirty_groups gs) p (sync_dirty_group c users (record g { last_error = "" }) p)
              (ground arith) (sync_dirty_group-Ticks c users (record g { last_error = "" }) p)

    pub sync_groups-Balanced :
        (gs : List Group) (p : GroupPass W)
        → Balanced (dirty_groups gs) p
        → Ends (Balanced 0) Within (sync_groups c users gs p)
    unfolding sync_groups
    sync_groups-Balanced =
        group_loop-Balanced (sync_group c users) dirty_groups refl sync_group-Balanced

    pub reconcile_groups-Balanced :
        (gs : List Group) (p : GroupPass W)
        → Balanced (length gs) p
        → Ends (Balanced 0) Within (reconcile_groups c users gs p)
    unfolding reconcile_groups reconcile_group
    reconcile_groups-Balanced =
        group_loop-Balanced (reconcile_group c users) length refl (λ g gs p h.
          spend (length gs) p (reconcile_cleared_group c users (record g { last_error = "" }) p) h
            (reconcile_cleared_group-Ticks c users (record g { last_error = "" }) p))
