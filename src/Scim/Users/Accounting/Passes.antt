-- ===== src/Scim/Users/Accounting/Passes.antt =====
-- The accounts of a whole pass over the users, the awaited managers included.
use scimtest.Prelude.{
  ℕ, suc, ◌+◌, ◌≤◌, String, true, false, not, Option, none, some, List, [], ◌∷◌, ◌++◌, ◌≡◌, length,
  count_if, arith, ◌&&◌, ◌==◌, if◌then◌else◌, Result, ok, err, get_elem?, Bool-cases, inl, inr,
}
use scimtest.Prelude.Dict.{lookup}
use scimtest.Directory.{User, Group}
use scimtest.Scim.Client.{ScimError, Client}
use scimtest.Scim.Progress.{report_user, start_user, add_total, report}
use scimtest.Scim.Pass.{
  UserPass, Step, go, halt, On, On-if, Ends, total, prune_user_from_groups, keep_user,
  operation_for,
}
use scimtest.Scim.Users.{
  after_awaited, send_awaited_manager, send_awaited_managers, sync_dirty_user, sync_user,
  reconcile_cleared_user, reconcile_user, sync_users, reconcile_users,
}
use scimtest.Scim.Users.Loop.{user_loop_rule}
use scimtest.Scim.Users.Accounting.{
  Ticks, handled, dirty_groups, dirty_groups-prune, length-prune, drop_user-Ticks,
  after_delete-Ticks, after_create-Ticks, after_replace-Ticks, after_check-Ticks,
}

module _ {W : Type 0} (left : List Group → ℕ) where
  -- The total is what was processed, `n` users, and what the groups are still owed.
  abbrev pub Balanced : ℕ → UserPass W → Type 0
  Balanced n p =
      (p.reporter.processed + n + left p.groups ≡ p.reporter.total)
      × (handled p ≡ p.reporter.processed)

  -- An error stopped the pass with work left.
  abbrev pub Within : UserPass W → Type 0
  Within p =
      (p.reporter.processed + left p.groups ≤ p.reporter.total) × (handled p ≡ p.reporter.processed)

  module _ (c : Client W) where
    after_awaited-Balanced :
        (i : ℕ) (u : User) (rest : List ℕ) (p : UserPass W) (r : Result ScimError (Unit {0}) × W)
        → Balanced 1 p
        → On (Balanced 0) (Balanced 0) (after_awaited c i u rest p r)
    unfolding after_awaited report_user total
    after_awaited-Balanced i u rest p (ok x, w) h = ground arith
    after_awaited-Balanced i u rest p (err e, w) h = ground arith

    send_awaited_manager-Balanced :
        (i : ℕ) (u : User) (rest : List ℕ) (p : UserPass W) (o : Option String)
        → Balanced 0 p
        → On (Balanced 0) (Balanced 0) (send_awaited_manager c i u rest p o)
    unfolding send_awaited_manager start_user add_total
    send_awaited_manager-Balanced i u rest p none h = h
    send_awaited_manager-Balanced i u rest p (some remote_id) h =
        elim (Bool-cases (remote_id == "")) [
          | inl e ↦ rw e h
          | inr e ↦ rw e (
              after_awaited-Balanced i u rest
                (record p { reporter = start_user (add_total p.reporter 1) u "update" })
                (c.replace_user u p.directory p.world) (omega arith))
        ]

    after_send :
        (is : List ℕ) (s : Step (UserPass W))
        → On (Balanced 0) (Balanced 0) s
        → ((p : UserPass W)
            → Balanced 0 p
            → Ends (Balanced 0) Within (send_awaited_managers c is p))
        → Ends
            (Balanced 0)
            Within
            (elim s [ go p' ↦ send_awaited_managers c is p' | halt e p' ↦ (p', some e) ])
    after_send is (go p) h k = k p h
    after_send is (halt e p) h k = omega arith

    after_get :
        (i : ℕ) (is : List ℕ) (p : UserPass W) (o : Option User)
        → Balanced 0 p
        → ((q : UserPass W)
            → Balanced 0 q
            → Ends (Balanced 0) Within (send_awaited_managers c is q))
        → Ends (Balanced 0) Within (elim o [
          | none ↦ send_awaited_managers c is p
          | some u ↦
              elim (send_awaited_manager c i u is p (lookup p.directory.remote_ids u.manager_id)) [
                | go p' ↦ send_awaited_managers c is p'
                | halt e p' ↦ (p', some e)
              ]
        ])
    after_get i is p none h k = k p h
    after_get i is p (some u) h k =
        after_send is (send_awaited_manager c i u is p (lookup p.directory.remote_ids u.manager_id))
          (send_awaited_manager-Balanced i u is p (lookup p.directory.remote_ids u.manager_id) h) k

    send_awaited_managers-Balanced :
        (is : List ℕ) (p : UserPass W)
        → Balanced 0 p
        → Ends (Balanced 0) Within (send_awaited_managers c is p)
    unfolding send_awaited_managers
    send_awaited_managers-Balanced [] p h = h
    send_awaited_managers-Balanced (i ∷ is) p h =
        after_get i is p (get_elem? p.next i) h (λ q k. send_awaited_managers-Balanced is q k)

-- What a step did to the counters, to what is owed after it.
module _ {W : Type 0} (left : List Group → ℕ) (us : List User) (p : UserPass W) where
  spend :
      (n : ℕ) (s : Step (UserPass W))
      → Balanced left (suc n) p
      → On (Ticks left 1 p) (Ticks left 1 p) s
      → On (Balanced left n) (λ q. Within left (record q { next = q.next ++ us })) s
  spend n (go q) h k = omega arith
  spend n (halt e q) h k = omega arith

abbrev pub dirty_users : List User → ℕ
dirty_users = count_if (λ u. u.dirty)

module _ {W : Type 0} (c : Client W) where
  grown :
      (gs : List Group) (id : String)
      → dirty_groups (prune_user_from_groups gs id).0
        ≡ dirty_groups gs + (if true then (prune_user_from_groups gs id).1 else 0)
  grown gs id = dirty_groups-prune gs id

  not_grown :
      (gs : List Group) (id : String)
      → length (prune_user_from_groups gs id).0
        ≡ length gs + (if false then (prune_user_from_groups gs id).1 else 0)
  not_grown gs id = omega (arith, length-prune gs id)

  sync_dirty_user-Ticks :
      (u : User) (p : UserPass W)
      → On (Ticks dirty_groups 1 p) (Ticks dirty_groups 1 p) (sync_dirty_user c u p)
  unfolding sync_dirty_user start_user report
  sync_dirty_user-Ticks u p =
      let operation : String = operation_for "update" u.deleted u.remote_id in
      let q : UserPass W = record p { reporter = start_user p.reporter u operation } in
      On-if _ _ (u.deleted && u.remote_id == "") _ _
        (λ _. drop_user-Ticks dirty_groups true grown u operation "Deleted locally" q)
        λ _.
          On-if _ _ u.deleted _ _
            (λ _.
              after_delete-Ticks dirty_groups true grown false u operation q
                (c.delete_user u q.world))
            λ _.
              On-if _ _ (u.remote_id == "") _ _
                (λ _.
                  after_create-Ticks dirty_groups false u operation operation q
                    (c.create_user u q.directory q.world))
                λ _.
                  after_replace-Ticks dirty_groups false u operation operation q
                    (c.replace_user u q.directory q.world)

  reconcile_cleared_user-Ticks :
      (u : User) (p : UserPass W)
      → On (Ticks length 1 p) (Ticks length 1 p) (reconcile_cleared_user c u p)
  unfolding reconcile_cleared_user start_user report
  reconcile_cleared_user-Ticks u p =
      let operation : String = operation_for "check" u.deleted u.remote_id in
      let q : UserPass W = record p { reporter = start_user p.reporter u operation } in
      On-if _ _ (u.deleted && u.remote_id == "") _ _
        (λ _. drop_user-Ticks length false not_grown u operation "Deleted locally" q)
        λ _.
          On-if _ _ u.deleted _ _
            (λ _.
              after_delete-Ticks length false not_grown true u operation q
                (c.delete_user u q.world))
            λ _.
              On-if _ _ (u.remote_id == "") _ _
                (λ _.
                  after_create-Ticks length true u operation operation q
                    (c.create_user u q.directory q.world))
                λ _. after_check-Ticks length c u operation q (c.get_user u q.world)

  sync_user-Balanced :
      (u : User) (us : List User) (p : UserPass W)
      → Balanced dirty_groups (dirty_users (u ∷ us)) p
      → On
          (Balanced dirty_groups (dirty_users us))
          (λ q. Within dirty_groups (record q { next = q.next ++ us }))
          (sync_user c u p)
  unfolding sync_user keep_user
  sync_user-Balanced u us p h =
      On-if _ _ (not u.dirty) _ _ (λ clean. ground arith)
        λ dirty.
          spend dirty_groups us p (dirty_users us)
            (sync_dirty_user c (record u { last_error = "" }) p) (ground arith)
            (sync_dirty_user-Ticks (record u { last_error = "" }) p)

  -- A whole pass that syncs dirty users.
  pub sync_users-Balanced :
      (us : List User) (p : UserPass W)
      → Balanced dirty_groups (dirty_users us) p
      → Ends (Balanced dirty_groups 0) (Within dirty_groups) (sync_users c us p)
  unfolding sync_users
  sync_users-Balanced =
      user_loop_rule c (sync_user c) (λ us. Balanced dirty_groups (dirty_users us))
        (Balanced dirty_groups 0) (Within dirty_groups) sync_user-Balanced
        (λ p. send_awaited_managers-Balanced dirty_groups c p.awaiting p)

  -- A whole pass that reconciles every user.
  pub reconcile_users-Balanced :
      (us : List User) (p : UserPass W)
      → Balanced length (length us) p
      → Ends (Balanced length 0) (Within length) (reconcile_users c us p)
  unfolding reconcile_users reconcile_user
  reconcile_users-Balanced =
      user_loop_rule c (reconcile_user c) (λ us. Balanced length (length us)) (Balanced length 0)
        (Within length)
        (λ u us p h.
          spend length us p (length us) (reconcile_cleared_user c (record u { last_error = "" }) p)
            h (reconcile_cleared_user-Ticks (record u { last_error = "" }) p))
        (λ p. send_awaited_managers-Balanced length c p.awaiting p)
