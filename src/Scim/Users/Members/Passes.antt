-- ===== src/Scim/Users/Members/Passes.antt =====
-- The members of the groups over a whole pass over the users.
use scimtest.Prelude.{
  ℕ, String, Bool, true, false, not, ◌&&◌, ◌==◌, Option, some, none, List, [], ◌∷◌, ◌++◌, All,
  arith, Result, ok, err, get_elem?,
}
use scimtest.Prelude.Dict.{lookup}
use scimtest.Directory.{User, Group}
use scimtest.Scim.Client.{ScimError, Client, is_stopping_scim_error}
use scimtest.Scim.Progress.{start_user, add_total}
use scimtest.Scim.Pass.{UserPass, Step, go, halt, On, On-if, Ends, keep_user, operation_for}
use scimtest.Scim.Users.{
  after_awaited, send_awaited_manager, send_awaited_managers, sync_dirty_user, sync_user,
  reconcile_cleared_user, reconcile_user, sync_users, reconcile_users,
}
use scimtest.Scim.Users.Loop.{user_loop_rule}
use scimtest.Scim.Users.Members.{
  IsKnown, Kept, is_gone-of-deleted, drop_user-Kept, after_delete-Kept, after_create-Kept,
  after_replace-Kept, after_check-Kept,
}

module _ {W : Type 0} (c : Client W) (gone : String → Bool) (all : List Group) where
  abbrev K : UserPass W → Type 0
  K = Kept gone all

  sync_dirty_user-Kept :
      (u : User) (p : UserPass W) → IsKnown gone u → K p → On K K (sync_dirty_user c u p)
  unfolding sync_dirty_user
  sync_dirty_user-Kept u p known h =
      let operation : String = operation_for "update" u.deleted u.remote_id in
      let q : UserPass W = record p { reporter = start_user p.reporter u operation } in
      On-if K K (u.deleted && u.remote_id == "") _ _
        (λ e.
          drop_user-Kept gone all true u operation "Deleted locally" q
            (is_gone-of-deleted gone u known (ground arith)) h)
        λ _.
          On-if K K u.deleted _ _
            (λ e.
              after_delete-Kept gone all false true u operation q (c.delete_user u q.world)
                (is_gone-of-deleted gone u known e) h)
            λ _.
              On-if K K (u.remote_id == "") _ _
                (λ _.
                  after_create-Kept gone all false u operation operation q
                    (c.create_user u q.directory q.world) h)
                λ _.
                  after_replace-Kept gone all false u operation operation q
                    (c.replace_user u q.directory q.world) h

  reconcile_cleared_user-Kept :
      (u : User) (p : UserPass W) → IsKnown gone u → K p → On K K (reconcile_cleared_user c u p)
  unfolding reconcile_cleared_user
  reconcile_cleared_user-Kept u p known h =
      let operation : String = operation_for "check" u.deleted u.remote_id in
      let q : UserPass W = record p { reporter = start_user p.reporter u operation } in
      On-if K K (u.deleted && u.remote_id == "") _ _
        (λ e.
          drop_user-Kept gone all false u operation "Deleted locally" q
            (is_gone-of-deleted gone u known (ground arith)) h)
        λ _.
          On-if K K u.deleted _ _
            (λ e.
              after_delete-Kept gone all true false u operation q (c.delete_user u q.world)
                (is_gone-of-deleted gone u known e) h)
            λ _.
              On-if K K (u.remote_id == "") _ _
                (λ _.
                  after_create-Kept gone all true u operation operation q
                    (c.create_user u q.directory q.world) h)
                λ _. after_check-Kept gone all c u operation q (c.get_user u q.world) h

  after_awaited-Kept :
      (i : ℕ) (u : User) (rest : List ℕ) (p : UserPass W) (r : Result ScimError (Unit {0}) × W)
      → K p
      → On K K (after_awaited c i u rest p r)
  unfolding after_awaited
  after_awaited-Kept i u rest p (ok x, w) h = h
  after_awaited-Kept i u rest p (err e, w) h =
      On-if K K (is_stopping_scim_error e) _ _ (λ _. h) (λ _. h)

  send_awaited_manager-Kept :
      (i : ℕ) (u : User) (rest : List ℕ) (p : UserPass W) (o : Option String)
      → K p
      → On K K (send_awaited_manager c i u rest p o)
  unfolding send_awaited_manager
  send_awaited_manager-Kept i u rest p none h = h
  send_awaited_manager-Kept i u rest p (some remote_id) h =
      let q : UserPass W = record p { reporter = start_user (add_total p.reporter 1) u "update" } in
      On-if K K (remote_id == "") _ _ (λ _. h)
        (λ _. after_awaited-Kept i u rest q (c.replace_user u p.directory p.world) h)

  after_send :
      (is : List ℕ) (s : Step (UserPass W))
      → On K K s
      → ((p : UserPass W) → K p → Ends K K (send_awaited_managers c is p))
      → Ends K K (elim s [ go p' ↦ send_awaited_managers c is p' | halt e p' ↦ (p', some e) ])
  after_send is (go p) h k = k p h
  after_send is (halt e p) h k = h

  after_get :
      (i : ℕ) (is : List ℕ) (p : UserPass W) (o : Option User)
      → K p
      → ((q : UserPass W) → K q → Ends K K (send_awaited_managers c is q))
      → Ends K K (elim o [
        | none ↦ send_awaited_managers c is p
        | some u ↦
            elim (send_awaited_manager c i u is p (lookup p.directory.remote_ids u.manager_id)) [
              | go p' ↦ send_awaited_managers c is p'
              | halt e p' ↦ (p', some e)
            ]
      ])
  after_get i is p none h k = k p h
  after_get i is p (some u) h k =
      after_send is (send_awaited_manager c i u is p (lookup p.directory.remote_ids u.manager_id))
        (send_awaited_manager-Kept i u is p (lookup p.directory.remote_ids u.manager_id) h) k

  send_awaited_managers-Kept :
      (is : List ℕ) (p : UserPass W) → K p → Ends K K (send_awaited_managers c is p)
  unfolding send_awaited_managers
  send_awaited_managers-Kept [] p h = h
  send_awaited_managers-Kept (i ∷ is) p h =
      after_get i is p (get_elem? p.next i) h (λ q k. send_awaited_managers-Kept is q k)

  abbrev Holds : List User → UserPass W → Type 0
  Holds us p = All (IsKnown gone) us × K p

  forward :
      (u : User) (us : List User) (s : Step (UserPass W))
      → All (IsKnown gone) us
      → On K K s
      → On (Holds us) (λ q. K (record q { next = q.next ++ us })) s
  forward u us (go q) known h = (known, h)
  forward u us (halt e q) known h = h

  sync_user-Holds :
      (u : User) (us : List User) (p : UserPass W)
      → Holds (u ∷ us) p
      → On (Holds us) (λ q. K (record q { next = q.next ++ us })) (sync_user c u p)
  unfolding sync_user keep_user
  sync_user-Holds u us p h =
      let v : User = record u { last_error = "" } in
      On-if _ _ (not u.dirty) _ _ (λ _. (h.0.1, h.1))
        (λ _. forward u us (sync_dirty_user c v p) h.0.1 (sync_dirty_user-Kept v p h.0.0 h.1))

  reconcile_user-Holds :
      (u : User) (us : List User) (p : UserPass W)
      → Holds (u ∷ us) p
      → On (Holds us) (λ q. K (record q { next = q.next ++ us })) (reconcile_user c u p)
  unfolding reconcile_user
  reconcile_user-Holds u us p h =
      let v : User = record u { last_error = "" } in
      forward u us (reconcile_cleared_user c v p) h.0.1 (reconcile_cleared_user-Kept v p h.0.0 h.1)

  last : (p : UserPass W) → Holds [] p → Ends K K (send_awaited_managers c p.awaiting p)
  last p h = send_awaited_managers-Kept p.awaiting p h.1

  pub sync_users-Kept :
      (us : List User) (p : UserPass W) → Holds us p → Ends K K (sync_users c us p)
  unfolding sync_users
  sync_users-Kept = user_loop_rule c (sync_user c) Holds K K sync_user-Holds last

  pub reconcile_users-Kept :
      (us : List User) (p : UserPass W) → Holds us p → Ends K K (reconcile_users c us p)
  unfolding reconcile_users
  reconcile_users-Kept = user_loop_rule c (reconcile_user c) Holds K K reconcile_user-Holds last
