-- ===== src/Scim/Groups/Starts.antt =====
-- The start reports of syncDirtyGroups.
use scimtest.Prelude.{
  String, Bool, true, false, not, ◌&&◌, List, [], ◌∷◌, ◌++◌, ◌==◌, some, Result, ok, err,
  append_assoc, append-nil, ◌≡◌, refl, sym, ap, subst, ◌∙◌, arith,
}
use scimtest.Directory.{User, Group}
use scimtest.Scim.Client.{ScimError, Client, is_stopping_scim_error}
use scimtest.Scim.Progress.{start_group}
use scimtest.Scim.Progress.Starts.{Start, started, started-start_group, started-report_group}
use scimtest.Scim.Pass.{Step, go, halt, On, On-if, Ends, operation_for}
use scimtest.Scim.Groups.{
  GroupPass, keep_group, fail_group, drop_group, after_delete_group, after_create_group,
  after_replace_group, group_loop, sync_dirty_group, sync_group, sync_groups,
}
use scimtest.Scim.Users.Starts.{group_starts}

module _ {W : Type 0} where
  -- The starts that were reported so far.
  abbrev pub State : List Start → GroupPass W → Type 0
  State seen p = started p.reporter.reports ≡ seen

  abbrev OnState : List Start → Step (GroupPass W) → Type 0
  OnState seen = On (State seen) (λ _. Unit)

  module _ (seen : List Start) where
    fail_group-State :
        (g : Group) (operation : String) (e : ScimError) (p : GroupPass W)
        → State seen p
        → OnState seen (fail_group false g operation e p)
    unfolding fail_group keep_group
    fail_group-State g operation e p h =
        On-if (State seen) (λ _. Unit) (is_stopping_scim_error e) _ _ (λ _. tt)
          (λ _. started-report_group p.reporter _ operation "Failed" ∙ h)

    after_delete_group-State :
        (g : Group) (operation : String) (p : GroupPass W) (r : Result ScimError (Unit {0}) × W)
        → State seen p
        → OnState seen (after_delete_group false g operation p r)
    unfolding after_delete_group drop_group
    after_delete_group-State g operation p (err e, w) h =
        fail_group-State g operation e (record p { world = w }) h
    after_delete_group-State g operation p (ok x, w) h =
        started-report_group p.reporter g operation "Deleted" ∙ h

    after_create_group-State :
        (g : Group) (operation : String) (p : GroupPass W)
        (r : Result ScimError (String × Bool) × W)
        → State seen p
        → OnState seen (after_create_group false g operation operation p r)
    unfolding after_create_group keep_group
    after_create_group-State g operation p (err e, w) h =
        fail_group-State g operation e (record p { world = w }) h
    after_create_group-State g operation p (ok (remote_id, adopted), w) h =
        On-if (State seen) (λ _. Unit) adopted _ _
          (λ _. started-report_group p.reporter _ operation "Adopted" ∙ h)
          (λ _. started-report_group p.reporter _ operation "Created" ∙ h)

    after_replace_group-State :
        (g : Group) (operation : String) (p : GroupPass W) (r : Result ScimError (Unit {0}) × W)
        → State seen p
        → OnState seen (after_replace_group false g operation operation p r)
    unfolding after_replace_group keep_group
    after_replace_group-State g operation p (err e, w) h =
        fail_group-State g operation e (record p { world = w }) h
    after_replace_group-State g operation p (ok x, w) h =
        started-report_group p.reporter _ operation "Updated" ∙ h

  module _ (c : Client W) (users : List User) where
    -- A dirty group is reported as started, with its operation.
    sync_dirty_group-State :
        (seen : List Start) (g : Group) (p : GroupPass W)
        → State seen p
        → OnState
            (seen ++ ("group", g.id, operation_for "update" g.deleted g.remote_id) ∷ [])
            (sync_dirty_group c users g p)
    unfolding sync_dirty_group drop_group
    sync_dirty_group-State seen g p h =
        let operation = operation_for "update" g.deleted g.remote_id in
        let seen' = seen ++ ("group", g.id, operation) ∷ [] in
        let p' = record p { reporter = start_group p.reporter g operation } in
        let h' : State seen' p' =
          started-start_group p.reporter g operation
          ∙ ap (λ s. s ++ ("group", g.id, operation) ∷ []) h in
        On-if (State seen') (λ _. Unit) (g.deleted && g.remote_id == "") _ _
          (λ _. started-report_group p'.reporter g operation "Deleted locally" ∙ h')
          (λ _.
            On-if (State seen') (λ _. Unit) g.deleted _ _
              (λ _. after_delete_group-State seen' g operation p' _ h')
              (λ _.
                On-if (State seen') (λ _. Unit) (g.remote_id == "") _ _
                  (λ _. after_create_group-State seen' g operation p' _ h')
                  (λ _. after_replace_group-State seen' g operation p' _ h')))

    starts-dirty :
        (g : Group)
        → not g.dirty ≡ false
        → group_starts (g ∷ []) ≡ ("group", g.id, operation_for "update" g.deleted g.remote_id) ∷ []
    starts-dirty g e = ground (arith, e)

    starts-clean : (g : Group) → not g.dirty ≡ true → group_starts (g ∷ []) ≡ []
    starts-clean g e = ground (arith, e)

    sync_group-State :
        (seen : List Start) (g : Group) (p : GroupPass W)
        → State seen p
        → OnState (seen ++ group_starts (g ∷ [])) (sync_group c users g p)
    unfolding sync_group keep_group
    sync_group-State seen g p h =
        On-if (State (seen ++ group_starts (g ∷ []))) (λ _. Unit) (not g.dirty) _ _
          (λ b. h ∙ sym (append-nil seen) ∙ ap (λ ss. seen ++ ss) (sym (starts-clean g b)))
          (λ b.
            subst
              (λ ss.
                OnState (seen ++ ss) (sync_dirty_group c users (record g { last_error = "" }) p))
              (sym (starts-dirty g b))
              (sync_dirty_group-State seen (record g { last_error = "" }) p h))

    starts-cons :
        (g : Group) (gs : List Group) (dirty : Bool)
        → g.dirty ≡ dirty
        → group_starts (g ∷ gs) ≡ group_starts (g ∷ []) ++ group_starts gs
    starts-cons g gs true e = rw e refl
    starts-cons g gs false e = rw e refl

    after_round :
        (all seen : List Start) (g : Group) (gs : List Group) (s : Step (GroupPass W))
        → OnState (seen ++ group_starts (g ∷ [])) s
        → seen ++ group_starts (g ∷ gs) ≡ all
        → ((p : GroupPass W)
            → started p.reporter.reports ++ group_starts gs ≡ all
            → Ends (State all) (λ _. Unit) (group_loop (sync_group c users) gs p))
        → Ends
            (State all)
            (λ _. Unit)
            (elim s [
              | go p' ↦ group_loop (sync_group c users) gs p'
              | halt e p' ↦ (record p' { next = p'.next ++ gs }, some e)
            ])
    after_round all seen g gs (go p) h e k = k p (
        ap (λ s. s ++ group_starts gs) h
        ∙ append_assoc seen (group_starts (g ∷ [])) (group_starts gs)
        ∙ ap (λ s. seen ++ s) (sym (starts-cons g gs g.dirty refl))
        ∙ e)
    after_round all seen g gs (halt x p) h e k = tt

    sync_groups-all :
        (all : List Start) (gs : List Group) (p : GroupPass W)
        → started p.reporter.reports ++ group_starts gs ≡ all
        → Ends (State all) (λ _. Unit) (group_loop (sync_group c users) gs p)
    unfolding group_loop
    sync_groups-all all [] p e = sym (append-nil _) ∙ e
    sync_groups-all all (g ∷ gs) p e =
        after_round all (started p.reporter.reports) g gs (sync_group c users g p)
          (sync_group-State (started p.reporter.reports) g p refl) e (sync_groups-all all gs)

    pub sync_groups-State :
        (gs : List Group) (p : GroupPass W)
        → Ends
            (State (started p.reporter.reports ++ group_starts gs))
            (λ _. Unit)
            (sync_groups c users gs p)
    unfolding sync_groups
    sync_groups-State gs p =
        sync_groups-all (started p.reporter.reports ++ group_starts gs) gs p refl
