-- ===== src/Scim/Users/Starts/Late.antt =====
-- The start reports of syncDirtyUsers over its loop, and of the late updates after it.
use scimtest.Prelude.{
  ℕ, String, Bool, true, false, Option, none, some, List, [], ◌∷◌, ◌++◌, get_elem?, ◌==◌, Result,
  ok, err, All, All-append, append_assoc, append-nil, ◌≡◌, refl, sym, ap, ◌∙◌,
}
use scimtest.Prelude.Dict.{lookup}
use scimtest.Directory.{User}
use scimtest.Scim.Client.{ScimError, Client, is_stopping_scim_error}
use scimtest.Scim.Progress.{start_user, add_total}
use scimtest.Scim.Progress.Starts.{Start, started, started-start_user, started-report_user}
use scimtest.Scim.Pass.{UserPass, Step, go, halt, On, On-if, Ends}
use scimtest.Scim.Users.{
  after_awaited, send_awaited_manager, send_awaited_managers, sync_user, sync_users,
}
use scimtest.Scim.Users.Loop.{user_loop_rule}
use scimtest.Scim.Users.Starts.{user_starts, group_starts, Within, OnState, sync_user-State}

module _ {W : Type 0} (c : Client W) where
  -- The late update of an awaited manager is reported as the update of a user.
  abbrev pub IsLate : Start → Type 0
  IsLate (resource_type, id, operation) = (resource_type ≡ "user") × (operation ≡ "update")

  -- The starts so far, then late updates.
  pub record Late (seen groups : List Start) (p : UserPass W) : Type 0 where
    pub late : List Start
    pub all_late : All IsLate late
    pub reported : started p.reporter.reports ≡ seen ++ late
    pub within : Within groups (group_starts p.groups)

  after_awaited-Late :
      (seen groups : List Start) (i : ℕ) (u : User) (rest : List ℕ) (p : UserPass W)
      (r : Result ScimError (Unit {0}) × W)
      → Late seen groups p
      → On (Late seen groups) (λ _. Unit) (after_awaited c i u rest p r)
  unfolding after_awaited
  after_awaited-Late seen groups i u rest p (ok x, w) h = record {
    late = h.late;
    all_late = h.all_late;
    reported = started-report_user p.reporter u "update" "Updated" ∙ h.reported;
    within = h.within;
  }
  after_awaited-Late seen groups i u rest p (err e, w) h =
      On-if (Late seen groups) (λ _. Unit) (is_stopping_scim_error e) _ _ (λ _. tt)
        (λ _. record {
          late = h.late;
          all_late = h.all_late;
          reported = started-report_user p.reporter _ "update" "Failed" ∙ h.reported;
          within = h.within;
        })

  send_awaited_manager-Late :
      (seen groups : List Start) (i : ℕ) (u : User) (rest : List ℕ) (p : UserPass W)
      (remote_id : Option String)
      → Late seen groups p
      → On (Late seen groups) (λ _. Unit) (send_awaited_manager c i u rest p remote_id)
  unfolding send_awaited_manager add_total
  send_awaited_manager-Late seen groups i u rest p none h = h
  send_awaited_manager-Late seen groups i u rest p (some remote_id) h =
      let p' = record p { reporter = start_user (add_total p.reporter 1) u "update" } in
      On-if (Late seen groups) (λ _. Unit) (remote_id == "") _ _
        (λ _. record {
          late = h.late;
          all_late = h.all_late;
          reported = h.reported;
          within = h.within;
        })
        (λ _.
          after_awaited-Late seen groups i u rest p' (c.replace_user u p'.directory p'.world)
            (record {
              late = h.late ++ ("user", u.id, "update") ∷ [];
              all_late = All-append IsLate h.late _ h.all_late ((refl, refl), tt);
              reported =
                  started-start_user (add_total p.reporter 1) u "update"
                  ∙ ap (λ s. s ++ ("user", u.id, "update") ∷ []) h.reported
                  ∙ append_assoc seen h.late _;
              within = h.within;
            }))

  after_sent-Late :
      (seen groups : List Start) (is : List ℕ) (s : Step (UserPass W))
      → On (Late seen groups) (λ _. Unit) s
      → ((p : UserPass W)
          → Late seen groups p
          → Ends (Late seen groups) (λ _. Unit) (send_awaited_managers c is p))
      → Ends
          (Late seen groups)
          (λ _. Unit)
          (elim s [ go p' ↦ send_awaited_managers c is p' | halt e p' ↦ (p', some e) ])
  after_sent-Late seen groups is (go p) h k = k p h
  after_sent-Late seen groups is (halt e p) h k = tt

  sent-Late :
      (seen groups : List Start) (i : ℕ) (is : List ℕ) (p : UserPass W) (found : Option User)
      → Late seen groups p
      → ((p : UserPass W)
          → Late seen groups p
          → Ends (Late seen groups) (λ _. Unit) (send_awaited_managers c is p))
      → Ends
          (Late seen groups)
          (λ _. Unit)
          (elim found [
            | none ↦ send_awaited_managers c is p
            | some u ↦
                elim (send_awaited_manager c i u is p
                  (lookup p.directory.remote_ids u.manager_id)) [
                    | go p' ↦ send_awaited_managers c is p'
                    | halt e p' ↦ (p', some e)
                  ]
          ])
  sent-Late seen groups i is p none h k = k p h
  sent-Late seen groups i is p (some u) h k =
      after_sent-Late seen groups is _
        (send_awaited_manager-Late seen groups i u is p (lookup p.directory.remote_ids u.manager_id)
          h)
        k

  send_awaited_managers-Late :
      (seen groups : List Start) (is : List ℕ) (p : UserPass W)
      → Late seen groups p
      → Ends (Late seen groups) (λ _. Unit) (send_awaited_managers c is p)
  unfolding send_awaited_managers
  send_awaited_managers-Late seen groups [] p h = h
  send_awaited_managers-Late seen groups (i ∷ is) p h =
      sent-Late seen groups i is p (get_elem? p.next i) h
        (send_awaited_managers-Late seen groups is)

  -- The loop over the users, where the rest are still to start.
  starts-cons :
      (u : User) (us : List User) (dirty : Bool)
      → u.dirty ≡ dirty
      → user_starts (u ∷ us) ≡ user_starts (u ∷ []) ++ user_starts us
  starts-cons u us true e = rw e refl
  starts-cons u us false e = rw e refl

  abbrev Rest : List Start → List Start → List User → UserPass W → Type 0
  Rest all groups us p =
      (started p.reporter.reports ++ user_starts us ≡ all) × Within groups (group_starts p.groups)

  stepped :
      (all groups : List Start) (u : User) (us : List User) (s : Step (UserPass W))
      (seen : List Start)
      → OnState (seen ++ user_starts (u ∷ [])) groups s
      → seen ++ user_starts (u ∷ us) ≡ all
      → On (Rest all groups us) (λ _. Unit) s
  stepped all groups u us (go p) seen h e = (
    ap (λ s. s ++ user_starts us) h.0
        ∙ append_assoc seen (user_starts (u ∷ [])) (user_starts us)
        ∙ ap (λ s. seen ++ s) (sym (starts-cons u us u.dirty refl))
        ∙ e,
    h.1,
  )
  stepped all groups u us (halt x p) seen h e = tt

  pub sync_users-Late :
      (groups : List Start) (us : List User) (p : UserPass W)
      → Within groups (group_starts p.groups)
      → Ends
          (Late (started p.reporter.reports ++ user_starts us) groups)
          (λ _. Unit)
          (sync_users c us p)
  unfolding sync_users
  sync_users-Late groups us p h =
      let all = started p.reporter.reports ++ user_starts us in
      user_loop_rule c (sync_user c) (Rest all groups) (Late all groups) (λ _. Unit)
        (λ u rest p k.
          stepped all groups u rest (sync_user c u p) (started p.reporter.reports)
            (sync_user-State c (started p.reporter.reports) groups u p (refl, k.1)) k.0)
        (λ p k. send_awaited_managers-Late all groups p.awaiting p (record {
          late = [];
          all_late = tt;
          reported = sym (append-nil _) ∙ k.0 ∙ sym (append-nil all);
          within = k.1;
        }))
        us p (refl, h)
