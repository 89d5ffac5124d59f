-- ===== src/Scim/Users/Settled.antt =====
-- What syncDirtyUsers leaves to do.
use scimtest.Prelude.{
  ℕ, zero, suc, String, Bool, true, false, not, ◌&&◌, ◌==◌, Option, some, none, List, [], ◌∷◌, ◌++◌,
  ◌≡◌, refl, sym, subst, ◌⊎◌, inl, inr, All, All-append, eq_iff, arith, Result, ok, err, get_elem?,
  modify,
}
use scimtest.Prelude.Dict.{Dict, lookup}
use scimtest.Directory.{User, AppState}
use scimtest.Scim.Client.{ScimError, Client, is_stopping_scim_error}
use scimtest.Scim.Progress.{Reporter, start_user, add_total}
use scimtest.Scim.Pass.{
  UserPass, Step, go, halt, On, On-if, Ends, keep_user, note_awaiting, operation_for, fail_user,
  drop_user, after_delete, after_create, after_replace,
}
use scimtest.Scim.Users.{
  after_awaited, send_awaited_manager, send_awaited_managers, sync_dirty_user, sync_user,
  sync_users, start_users,
}
use scimtest.Scim.Users.Loop.{user_loop_rule}
use scimtest.Scim.Users.Live.{next-note_awaiting}

abbrev pub IsClean : User → Type 0
IsClean u = u.dirty ≡ false

-- A user that has nothing left to send, or whose manager the server does not know yet.
abbrev pub IsSettled : Dict String → User → Type 0
IsSettled remote_ids u = (u.dirty ≡ false) ⊎ (lookup remote_ids u.manager_id ≡ some "")

All-modify {ℓ κ} :
    {A : Type ℓ} (P : A → Type κ) (f : A → A) (xs : List A) (i : ℕ)
    → All P xs
    → ((x : A) → get_elem? xs i ≡ some x → P (f x))
    → All P (modify xs i f)
All-modify P f [] i h k = h
All-modify P f (x ∷ xs) zero h k = (k x refl, h.1)
All-modify P f (x ∷ xs) (suc i) h k = (h.0, All-modify P f xs i h.1 k)

settle :
    (remote_ids : Dict String) (us : List User) → All IsClean us → All (IsSettled remote_ids) us
settle remote_ids [] h = tt
settle remote_ids (u ∷ us) h = (inl h.0, settle remote_ids us h.1)

module _ {W : Type 0} where
  -- Unless a user has failed, those of the pass are clean.
  abbrev Fine : UserPass W → Type 0
  Fine p = p.counts.failed ≡ 0 → All IsClean p.next

  abbrev Any : UserPass W → Type 0
  Any p = Unit

  fail_user-Fine :
      (u : User) (operation : String) (e : ScimError) (p : UserPass W)
      → On Fine Any (fail_user false u operation e p)
  unfolding fail_user keep_user
  fail_user-Fine u operation e p =
      On-if Fine Any (is_stopping_scim_error e) _ _ (λ _. tt) (λ _ k. ground arith)

  after_delete-Fine :
      (u : User) (operation : String) (p : UserPass W) (r : Result ScimError (Unit {0}) × W)
      → Fine p
      → On Fine Any (after_delete false true u operation p r)
  unfolding after_delete drop_user
  after_delete-Fine u operation p (err e, w) h =
      fail_user-Fine u operation e (record p { world = w })
  after_delete-Fine u operation p (ok x, w) h = h

  kept :
      (u v : User) (p : UserPass W)
      → IsClean v
      → All IsClean p.next
      → All IsClean ((note_awaiting u p).next ++ v ∷ [])
  kept u v p clean h =
      subst (λ us. All IsClean (us ++ v ∷ [])) (sym (next-note_awaiting u p))
        (All-append IsClean p.next (v ∷ []) h (clean, tt))

  after_create-Fine :
      (u : User) (operation done : String) (p : UserPass W)
      (r : Result ScimError (String × Bool) × W)
      → Fine p
      → On Fine Any (after_create false u operation done p r)
  unfolding after_create keep_user
  after_create-Fine u operation done p (err e, w) h =
      fail_user-Fine u operation e (record p { world = w })
  after_create-Fine u operation done p (ok (remote_id, true), w) h = λ k.
      kept u (record u { remote_id = remote_id; dirty = false }) (record p { world = w }) refl (h k)
  after_create-Fine u operation done p (ok (remote_id, false), w) h = λ k.
      kept u (record u { remote_id = remote_id; dirty = false }) (record p { world = w }) refl (h k)

  after_replace-Fine :
      (u : User) (operation done : String) (p : UserPass W) (r : Result ScimError (Unit {0}) × W)
      → Fine p
      → On Fine Any (after_replace false u operation done p r)
  unfolding after_replace keep_user
  after_replace-Fine u operation done p (err e, w) h =
      fail_user-Fine u operation e (record p { world = w })
  after_replace-Fine u operation done p (ok x, w) h =
      λ k. kept u (record u { dirty = false }) (record p { world = w }) refl (h k)

module _ {W : Type 0} (c : Client W) where
  sync_dirty_user-Fine : (u : User) (p : UserPass W) → Fine p → On Fine Any (sync_dirty_user c u p)
  unfolding sync_dirty_user
  sync_dirty_user-Fine u p h =
      let operation : String = operation_for "update" u.deleted u.remote_id in
      let q : UserPass W = record p { reporter = start_user p.reporter u operation } in
      On-if Fine Any (u.deleted && u.remote_id == "") _ _ (λ _. unfold drop_user in h)
        λ _.
          On-if Fine Any u.deleted _ _
            (λ _. after_delete-Fine u operation q (c.delete_user u q.world) h)
            λ _.
              On-if Fine Any (u.remote_id == "") _ _
                (λ _.
                  after_create-Fine u operation operation q (c.create_user u q.directory q.world) h)
                λ _.
                  after_replace-Fine u operation operation q (c.replace_user u q.directory q.world)
                    h

  sync_user-Fine :
      (u : User) (us : List User) (p : UserPass W) → Fine p → On Fine Any (sync_user c u p)
  unfolding sync_user keep_user
  sync_user-Fine u us p h =
      On-if Fine Any (not u.dirty) _ _
        (λ e k. All-append IsClean p.next (u ∷ []) (h k) (ground arith, tt))
        (λ _. sync_dirty_user-Fine (record u { last_error = "" }) p h)

  -- Unless a user has failed, those of the pass are settled.
  abbrev Over : UserPass W → Type 0
  Over p = p.counts.failed ≡ 0 → All (IsSettled p.directory.remote_ids) p.next

  after_awaited-Over :
      (i : ℕ) (u : User) (rest : List ℕ) (p : UserPass W) (r : Result ScimError (Unit {0}) × W)
      → Over p
      → On Over Any (after_awaited c i u rest p r)
  unfolding after_awaited
  after_awaited-Over i u rest p (ok x, w) h = h
  after_awaited-Over i u rest p (err e, w) h =
      On-if Over Any (is_stopping_scim_error e) _ _ (λ _. tt) (λ _ k. ground arith)

  send_awaited_manager-Over :
      (i : ℕ) (u : User) (rest : List ℕ) (p : UserPass W) (o : Option String)
      → get_elem? p.next i ≡ some u
      → lookup p.directory.remote_ids u.manager_id ≡ o
      → Over p
      → On Over Any (send_awaited_manager c i u rest p o)
  unfolding send_awaited_manager
  send_awaited_manager-Over i u rest p none found known h = h
  send_awaited_manager-Over i u rest p (some remote_id) found known h =
      let q : UserPass W = record p { reporter = start_user (add_total p.reporter 1) u "update" } in
      On-if Over Any (remote_id == "") _ _
        (λ e k.
          All-modify (IsSettled p.directory.remote_ids) (λ v. record v { dirty = true }) p.next i
            (h k) (λ v same. inr (ground (arith, eq_iff remote_id ""))))
        (λ _. after_awaited-Over i u rest q (c.replace_user u p.directory p.world) h)

  after_send :
      (is : List ℕ) (s : Step (UserPass W))
      → On Over Any s
      → ((p : UserPass W) → Over p → Ends Over Any (send_awaited_managers c is p))
      → Ends Over Any (elim s [ go p' ↦ send_awaited_managers c is p' | halt e p' ↦ (p', some e) ])
  after_send is (go p) h k = k p h
  after_send is (halt e p) h k = tt

  after_get :
      (i : ℕ) (is : List ℕ) (p : UserPass W) (o : Option User)
      → get_elem? p.next i ≡ o
      → Over p
      → ((q : UserPass W) → Over q → Ends Over Any (send_awaited_managers c is q))
      → Ends Over Any (elim o [
        | none ↦ send_awaited_managers c is p
        | some u ↦
            elim (send_awaited_manager c i u is p (lookup p.directory.remote_ids u.manager_id)) [
              | go p' ↦ send_awaited_managers c is p'
              | halt e p' ↦ (p', some e)
            ]
      ])
  after_get i is p none found h k = k p h
  after_get i is p (some u) found h k =
      let o = lookup p.directory.remote_ids u.manager_id in
      after_send is (send_awaited_manager c i u is p o)
        (send_awaited_manager-Over i u is p o found refl h) k

  send_awaited_managers-Over :
      (is : List ℕ) (p : UserPass W) → Over p → Ends Over Any (send_awaited_managers c is p)
  unfolding send_awaited_managers
  send_awaited_managers-Over [] p h = h
  send_awaited_managers-Over (i ∷ is) p h =
      after_get i is p (get_elem? p.next i) refl h (λ q k. send_awaited_managers-Over is q k)

  sync_users-Over : (us : List User) (p : UserPass W) → Fine p → Ends Over Any (sync_users c us p)
  unfolding sync_users
  sync_users-Over =
      user_loop_rule c (sync_user c) (λ us p. Fine p) Over Any sync_user-Fine
        (λ p h.
          send_awaited_managers-Over p.awaiting p (λ k. settle p.directory.remote_ids p.next (h k)))

over :
    {W : Type 0} (r : UserPass W × Option ScimError)
    → Ends (λ p. p.counts.failed ≡ 0 → All (IsSettled p.directory.remote_ids) p.next) (λ _. Unit) r
    → r.1 ≡ none
    → r.0.counts.failed ≡ 0
    → All (IsSettled r.0.directory.remote_ids) r.0.next
over (p, none) h e k = h k
over (p, some x) h e k = cc

-- The pass of a sync over the users, if no error stopped it and no user failed, leaves every user
-- clean, but for users whose manager still has no remote ID in the pass's directory.
pub sync_users-IsSettled :
    {W : Type 0} (c : Client W) (state : AppState) (reporter : Reporter) (w : W)
    → (sync_users c state.users (start_users state reporter w)).1 ≡ none
    → (sync_users c state.users (start_users state reporter w)).0.counts.failed ≡ 0
    → All
        (IsSettled (sync_users c state.users (start_users state reporter w)).0.directory.remote_ids)
        (sync_users c state.users (start_users state reporter w)).0.next
sync_users-IsSettled c state reporter w =
    over (sync_users c state.users (start_users state reporter w))
      (sync_users-Over c state.users (start_users state reporter w) (unfold start_users in λ k. tt))
