-- ===== src/Scim/Users/Starts.antt =====
-- The start reports of syncDirtyUsers.
pub mod Late
use scimtest.Prelude.{
  ℕ, ◌+◌, String, Bool, true, false, not, ◌&&◌, List, [], ◌∷◌, ◌++◌, map, filter, any, ◌==◌,
  if◌then◌else◌, Result, ok, err, append-nil, ◌≡◌, refl, sym, ap, subst, ◌∙◌, arith,
}
use scimtest.Directory.{User, Group}
use scimtest.Scim.Client.{ScimError, Client, is_stopping_scim_error}
use scimtest.Scim.Progress.{start_user, add_total}
use scimtest.Scim.Progress.Starts.{Start, started, started-start_user, started-report_user}
use scimtest.Scim.Pass.{
  UserPass, Step, On, On-if, operation_for, keep_user, note_awaiting, fail_user, drop_user,
  prune_user_from_groups, after_delete, after_create, after_replace,
}
use scimtest.Scim.Users.{sync_dirty_user, sync_user}

-- The starts of the dirty users and groups of a list, in order.
abbrev pub user_starts : List User → List Start
user_starts us =
    map (λ u. ("user", u.id, operation_for "update" u.deleted u.remote_id))
      (filter (λ u. u.dirty) us)

abbrev pub group_starts : List Group → List Start
group_starts gs =
    map (λ g. ("group", g.id, operation_for "update" g.deleted g.remote_id))
      (filter (λ g. g.dirty) gs)

-- One list is the other with entries left out.
pub data Within : List Start → List Start → Type 0 where
  none_left : Within [] []
  both : {xs ys : List Start} → (x : Start) → Within xs ys → Within (x ∷ xs) (x ∷ ys)
  more : {xs ys : List Start} → (y : Start) → Within xs ys → Within xs (y ∷ ys)

pub Within-refl : (xs : List Start) → Within xs xs
Within-refl [] = none_left
Within-refl (x ∷ xs) = both x (Within-refl xs)

Within-trans : {xs ys zs : List Start} → Within xs ys → Within ys zs → Within xs zs
Within-trans h none_left = h
Within-trans (both x h) (both _ k) = both x (Within-trans h k)
Within-trans (more y h) (both _ k) = more y (Within-trans h k)
Within-trans h (more z k) = more z (Within-trans h k)

pruned-Within :
    (g : Group) (gs : List Group) (id : String) (rest : List Group × ℕ) (found : Bool)
    (dirty : Bool)
    → g.dirty ≡ dirty
    → Within (group_starts gs) (group_starts rest.0)
    → Within (group_starts (g ∷ gs)) (
        group_starts
          (if◌then◌else◌ {A = List Group × ℕ} found
            (
              record g {
                member_ids = filter (λ m. not (m == id)) g.member_ids;
                last_error = "";
                dirty = true;
              }
                  ∷ rest.0,
              if g.dirty then rest.1 else rest.1 + 1,
            )
            (g ∷ rest.0, rest.1)).0)
pruned-Within g gs id rest true true e h = rw e (both _ h)
pruned-Within g gs id rest true false e h = rw e (more _ h)
pruned-Within g gs id rest false true e h = rw e (both _ h)
pruned-Within g gs id rest false false e h = rw e h

-- A group that loses a member is dirty, and otherwise what it was.
prune-Within :
    (gs : List Group) (id : String)
    → Within (group_starts gs) (group_starts (prune_user_from_groups gs id).0)
unfolding prune_user_from_groups
prune-Within [] id = none_left
prune-Within (g ∷ gs) id =
    pruned-Within g gs id (prune_user_from_groups gs id) (any (λ m. m == id) g.member_ids) g.dirty
      refl (prune-Within gs id)

module _ {W : Type 0} where
  -- The starts that were reported so far, and the starts that the groups will need.
  abbrev State : List Start → List Start → UserPass W → Type 0
  State seen groups p = (started p.reporter.reports ≡ seen) × Within groups (group_starts p.groups)

  -- On either way out of a step.
  abbrev OnState : List Start → List Start → Step (UserPass W) → Type 0
  OnState seen groups = On (State seen groups) (λ _. Unit)

  module _ (seen groups : List Start) where
    fail_user-State :
        (d : Bool) (u : User) (operation : String) (e : ScimError) (p : UserPass W)
        → State seen groups p
        → OnState seen groups (fail_user d u operation e p)
    unfolding fail_user keep_user
    fail_user-State d u operation e p h =
        On-if (State seen groups) (λ _. Unit) (is_stopping_scim_error e) _ _ (λ _. tt)
          (λ _. (started-report_user p.reporter _ operation "Failed" ∙ h.0, h.1))

    drop_user-State :
        (u : User) (operation status : String) (p : UserPass W)
        → State seen groups p
        → State seen groups (drop_user true u operation status p)
    unfolding drop_user add_total
    drop_user-State u operation status p h = (
      started-report_user _ u operation status ∙ h.0,
      Within-trans h.1 (prune-Within p.groups u.id),
    )

    after_delete-State :
        (u : User) (operation : String) (p : UserPass W) (r : Result ScimError (Unit {0}) × W)
        → State seen groups p
        → OnState seen groups (after_delete false true u operation p r)
    unfolding after_delete
    after_delete-State u operation p (err e, w) h =
        fail_user-State false u operation e (record p { world = w }) h
    after_delete-State u operation p (ok x, w) h =
        drop_user-State u operation "Deleted" (record p { world = w }) h

    groups-note_awaiting : (u : User) (p : UserPass W) → (note_awaiting u p).groups ≡ p.groups
    unfolding note_awaiting
    groups-note_awaiting u p = ground arith

    noted-Within :
        (u : User) (p : UserPass W)
        → Within groups (group_starts p.groups)
        → Within groups (group_starts (note_awaiting u p).groups)
    noted-Within u p h =
        subst (λ gs. Within groups (group_starts gs)) (sym (groups-note_awaiting u p)) h

    after_create-State :
        (u : User) (operation : String) (p : UserPass W) (r : Result ScimError (String × Bool) × W)
        → State seen groups p
        → OnState seen groups (after_create false u operation operation p r)
    unfolding after_create keep_user
    after_create-State u operation p (err e, w) h =
        fail_user-State false u operation e (record p { world = w }) h
    after_create-State u operation p (ok (remote_id, adopted), w) h =
        let within = noted-Within u (record p { world = w }) h.1 in
        On-if (State seen groups) (λ _. Unit) adopted _ _
          (λ _. (started-report_user p.reporter _ operation "Adopted" ∙ h.0, within))
          (λ _. (started-report_user p.reporter _ operation "Created" ∙ h.0, within))

    after_replace-State :
        (u : User) (operation : String) (p : UserPass W) (r : Result ScimError (Unit {0}) × W)
        → State seen groups p
        → OnState seen groups (after_replace false u operation operation p r)
    unfolding after_replace keep_user
    after_replace-State u operation p (err e, w) h =
        fail_user-State false u operation e (record p { world = w }) h
    after_replace-State u operation p (ok x, w) h = (
      started-report_user p.reporter _ operation "Updated" ∙ h.0,
      noted-Within u (record p { world = w }) h.1,
    )

  module _ (c : Client W) where
    -- A dirty user is reported as started, with its operation.
    sync_dirty_user-State :
        (seen groups : List Start) (u : User) (p : UserPass W)
        → State seen groups p
        → OnState
            (seen ++ ("user", u.id, operation_for "update" u.deleted u.remote_id) ∷ [])
            groups
            (sync_dirty_user c u p)
    unfolding sync_dirty_user
    sync_dirty_user-State seen groups u p h =
        let operation = operation_for "update" u.deleted u.remote_id in
        let seen' = seen ++ ("user", u.id, operation) ∷ [] in
        let p' = record p { reporter = start_user p.reporter u operation } in
        let h' : State seen' groups p' = (
          started-start_user p.reporter u operation
              ∙ ap (λ s. s ++ ("user", u.id, operation) ∷ []) h.0,
          h.1,
        ) in
        On-if (State seen' groups) (λ _. Unit) (u.deleted && u.remote_id == "") _ _
          (λ _. drop_user-State seen' groups u operation "Deleted locally" p' h')
          (λ _.
            On-if (State seen' groups) (λ _. Unit) u.deleted _ _
              (λ _. after_delete-State seen' groups u operation p' _ h')
              (λ _.
                On-if (State seen' groups) (λ _. Unit) (u.remote_id == "") _ _
                  (λ _. after_create-State seen' groups u operation p' _ h')
                  (λ _. after_replace-State seen' groups u operation p' _ h')))

    starts-dirty :
        (u : User)
        → not u.dirty ≡ false
        → user_starts (u ∷ []) ≡ ("user", u.id, operation_for "update" u.deleted u.remote_id) ∷ []
    starts-dirty u e = ground (arith, e)

    starts-clean : (u : User) → not u.dirty ≡ true → user_starts (u ∷ []) ≡ []
    starts-clean u e = ground (arith, e)

    sync_user-State :
        (seen groups : List Start) (u : User) (p : UserPass W)
        → State seen groups p
        → OnState (seen ++ user_starts (u ∷ [])) groups (sync_user c u p)
    unfolding sync_user keep_user
    sync_user-State seen groups u p h =
        On-if (State (seen ++ user_starts (u ∷ [])) groups) (λ _. Unit) (not u.dirty) _ _
          (λ b. (h.0 ∙ sym (append-nil seen) ∙ ap (λ ss. seen ++ ss) (sym (starts-clean u b)), h.1))
          (λ b.
            subst
              (λ ss.
                OnState (seen ++ ss) groups (sync_dirty_user c (record u { last_error = "" }) p))
              (sym (starts-dirty u b))
              (sync_dirty_user-State seen groups (record u { last_error = "" }) p h))
