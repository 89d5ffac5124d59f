-- ===== src/Scim/Users/Live/Passes.antt =====
-- The live users over a whole pass.
use scimtest.Prelude.{
  ℕ, String, true, false, not, Option, none, some, List, [], ◌∷◌, ◌++◌, ◌≡◌, refl, sym, ap, ◌∙◌,
  arith, ◌&&◌, ◌==◌, Result, ok, err, get_elem?, append-nil, append_assoc,
}
use scimtest.Prelude.Dict.{lookup}
use scimtest.Directory.{User}
use scimtest.Scim.Client.{ScimError, Client, not_found, message, is_stopping_scim_error}
use scimtest.Scim.Progress.{start_user, add_total}
use scimtest.Scim.Resource.{ScimUserResource, new_user_resource, user_matches_remote}
use scimtest.Scim.Pass.{UserPass, Step, go, halt, On, On-if, Ends, keep_user, operation_for}
use scimtest.Scim.Users.{
  after_awaited, send_awaited_manager, send_awaited_managers, sync_dirty_user, sync_user,
  after_check, reconcile_cleared_user, reconcile_user, sync_users, reconcile_users,
}
use scimtest.Scim.Users.Loop.{user_loop_rule}
use scimtest.Scim.Users.Live.{
  live_profiles, live_profiles-append, live_profiles-set_dirty, live_profiles-mark,
  live_profiles-failed, Extends, fail_user-Extends, drop_user-Extends, after_delete-Extends,
  after_create-Extends, after_replace-Extends, next-note_awaiting,
}

module _ {W : Type 0} (c : Client W) where
  after_check-Extends :
      (u : User) (operation : String) (p : UserPass W) (r : Result ScimError ScimUserResource × W)
      → On (Extends u p) (Extends u p) (after_check c u operation p r)
  unfolding after_check keep_user
  after_check-Extends u operation p (err (not_found s), w) =
      after_create-Extends true u operation "create" p (c.create_user u p.directory w)
  after_check-Extends u operation p (err e, w) =
      fail_user-Extends true u operation e (record p { world = w })
  after_check-Extends u operation p (ok remote, w) =
      On-if _ _ (user_matches_remote (new_user_resource u p.directory) remote) _ _
        (λ _. ground (
          arith,
          next-note_awaiting u (record p { world = w }),
          live_profiles-append p.next (record u { dirty = false } ∷ []),
        ))
        λ _. after_replace-Extends true u operation "update" p (c.replace_user u p.directory w)

  sync_dirty_user-Extends :
      (u : User) (p : UserPass W) → On (Extends u p) (Extends u p) (sync_dirty_user c u p)
  unfolding sync_dirty_user
  sync_dirty_user-Extends u p =
      let operation : String = operation_for "update" u.deleted u.remote_id in
      let q : UserPass W = record p { reporter = start_user p.reporter u operation } in
      On-if _ _ (u.deleted && u.remote_id == "") _ _
        (λ h. drop_user-Extends true u operation "Deleted locally" q (ground arith))
        λ _.
          On-if _ _ u.deleted _ _
            (λ h. after_delete-Extends false true u operation q (c.delete_user u q.world) h)
            λ _.
              On-if _ _ (u.remote_id == "") _ _
                (λ _.
                  after_create-Extends false u operation operation q
                    (c.create_user u q.directory q.world))
                λ _.
                  after_replace-Extends false u operation operation q
                    (c.replace_user u q.directory q.world)

  reconcile_cleared_user-Extends :
      (u : User) (p : UserPass W) → On (Extends u p) (Extends u p) (reconcile_cleared_user c u p)
  unfolding reconcile_cleared_user
  reconcile_cleared_user-Extends u p =
      let operation : String = operation_for "check" u.deleted u.remote_id in
      let q : UserPass W = record p { reporter = start_user p.reporter u operation } in
      On-if _ _ (u.deleted && u.remote_id == "") _ _
        (λ h. drop_user-Extends false u operation "Deleted locally" q (ground arith))
        λ _.
          On-if _ _ u.deleted _ _
            (λ h. after_delete-Extends true false u operation q (c.delete_user u q.world) h)
            λ _.
              On-if _ _ (u.remote_id == "") _ _
                (λ _.
                  after_create-Extends true u operation operation q
                    (c.create_user u q.directory q.world))
                λ _. after_check-Extends u operation q (c.get_user u q.world)

  module _ (all : List User) where
    -- The live users of the pass are those of `all`.
    abbrev pub Kept : UserPass W → Type 0
    Kept p = live_profiles p.next ≡ all

    after_awaited-Kept :
        (i : ℕ) (u : User) (rest : List ℕ) (p : UserPass W) (r : Result ScimError (Unit {0}) × W)
        → get_elem? p.next i ≡ some u
        → Kept p
        → On Kept Kept (after_awaited c i u rest p r)
    unfolding after_awaited
    after_awaited-Kept i u rest p (ok x, w) found h = h
    after_awaited-Kept i u rest p (err e, w) found h =
        On-if _ _ (is_stopping_scim_error e) _ _
          (λ _. live_profiles-mark _ rest ∙ live_profiles-failed p.next i u (message e) found ∙ h)
          λ _. live_profiles-failed p.next i u (message e) found ∙ h

    send_awaited_manager-Kept :
        (i : ℕ) (u : User) (rest : List ℕ) (p : UserPass W) (o : Option String)
        → get_elem? p.next i ≡ some u
        → Kept p
        → On Kept Kept (send_awaited_manager c i u rest p o)
    unfolding send_awaited_manager
    send_awaited_manager-Kept i u rest p none found h = h
    send_awaited_manager-Kept i u rest p (some remote_id) found h =
        On-if _ _ (remote_id == "") _ _ (λ _. live_profiles-set_dirty p.next i ∙ h)
          λ _.
            after_awaited-Kept i u rest
              (record p { reporter = start_user (add_total p.reporter 1) u "update" })
              (c.replace_user u p.directory p.world) found h

    after_send :
        (is : List ℕ) (s : Step (UserPass W))
        → On Kept Kept s
        → ((p : UserPass W) → Kept p → Ends Kept Kept (send_awaited_managers c is p))
        → Ends Kept Kept
            (elim s [ go p' ↦ send_awaited_managers c is p' | halt e p' ↦ (p', some e) ])
    after_send is (go p) h k = k p h
    after_send is (halt e p) h k = h

    after_get :
        (i : ℕ) (is : List ℕ) (p : UserPass W) (o : Option User)
        → get_elem? p.next i ≡ o
        → Kept p
        → ((q : UserPass W) → Kept q → Ends Kept Kept (send_awaited_managers c is q))
        → Ends Kept Kept (elim o [
          | none ↦ send_awaited_managers c is p
          | some u ↦
              elim (send_awaited_manager c i u is p (lookup p.directory.remote_ids u.manager_id)) [
                | go p' ↦ send_awaited_managers c is p'
                | halt e p' ↦ (p', some e)
              ]
        ])
    after_get i is p none found h k = k p h
    after_get i is p (some u) found h k =
        after_send is (send_awaited_manager c i u is p (lookup p.directory.remote_ids u.manager_id))
          (send_awaited_manager-Kept i u is p (lookup p.directory.remote_ids u.manager_id) found h)
          k

    send_awaited_managers-Kept :
        (is : List ℕ) (p : UserPass W) → Kept p → Ends Kept Kept (send_awaited_managers c is p)
    unfolding send_awaited_managers
    send_awaited_managers-Kept [] p h = h
    send_awaited_managers-Kept (i ∷ is) p h =
        after_get i is p (get_elem? p.next i) refl h (λ q k. send_awaited_managers-Kept is q k)

    -- The live users of the pass and those still to come are those of `all`.
    abbrev pub Holds : List User → UserPass W → Type 0
    Holds us p = live_profiles (p.next ++ us) ≡ all

    extended :
        (u v : User) (us : List User) (p q : UserPass W)
        → live_profiles (v ∷ []) ≡ live_profiles (u ∷ [])
        → Holds (u ∷ us) p
        → Extends v p q
        → Holds us q
    extended u v us p q same h k =
        live_profiles-append q.next us
        ∙ ap (λ l. l ++ live_profiles us) (k ∙ ap (λ l. live_profiles p.next ++ l) same)
        ∙ append_assoc (live_profiles p.next) (live_profiles (u ∷ [])) (live_profiles us)
        ∙ ap (λ l. live_profiles p.next ++ l) (sym (live_profiles-append (u ∷ []) us))
        ∙ sym (live_profiles-append p.next (u ∷ us))
        ∙ h

    advance :
        (u v : User) (us : List User) (p : UserPass W) (s : Step (UserPass W))
        → live_profiles (v ∷ []) ≡ live_profiles (u ∷ [])
        → Holds (u ∷ us) p
        → On (Extends v p) (Extends v p) s
        → On (Holds us) (λ q. Kept (record q { next = q.next ++ us })) s
    advance u v us p (go q) same h k = extended u v us p q same h k
    advance u v us p (halt e q) same h k = extended u v us p q same h k

    cleared :
        (u : User) → live_profiles (record u { last_error = "" } ∷ []) ≡ live_profiles (u ∷ [])
    cleared u = ground arith

    sync_user-Holds :
        (u : User) (us : List User) (p : UserPass W)
        → Holds (u ∷ us) p
        → On (Holds us) (λ q. Kept (record q { next = q.next ++ us })) (sync_user c u p)
    unfolding sync_user keep_user
    sync_user-Holds u us p h =
        On-if _ _ (not u.dirty) _ _ (λ _. ap live_profiles (append_assoc p.next (u ∷ []) us) ∙ h)
          λ _.
            let v : User = record u { last_error = "" } in
            advance u v us p (sync_dirty_user c v p) (cleared u) h (sync_dirty_user-Extends v p)

    reconcile_user-Holds :
        (u : User) (us : List User) (p : UserPass W)
        → Holds (u ∷ us) p
        → On (Holds us) (λ q. Kept (record q { next = q.next ++ us })) (reconcile_user c u p)
    unfolding reconcile_user
    reconcile_user-Holds u us p h =
        let v : User = record u { last_error = "" } in
        advance u v us p (reconcile_cleared_user c v p) (cleared u) h
          (reconcile_cleared_user-Extends v p)

    last : (p : UserPass W) → Holds [] p → Ends Kept Kept (send_awaited_managers c p.awaiting p)
    last p h =
        send_awaited_managers-Kept p.awaiting p (ap live_profiles (sym (append-nil p.next)) ∙ h)

    pub sync_users-Kept :
        (us : List User) (p : UserPass W) → Holds us p → Ends Kept Kept (sync_users c us p)
    unfolding sync_users
    sync_users-Kept = user_loop_rule c (sync_user c) Holds Kept Kept sync_user-Holds last

    pub reconcile_users-Kept :
        (us : List User) (p : UserPass W) → Holds us p → Ends Kept Kept (reconcile_users c us p)
    unfolding reconcile_users
    reconcile_users-Kept =
        user_loop_rule c (reconcile_user c) Holds Kept Kept reconcile_user-Holds last
