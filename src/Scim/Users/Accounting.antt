-- ===== src/Scim/Users/Accounting.antt =====
-- The counts, the reports and the total of the steps of syncDirtyUsers and reconcileUsers.
pub mod Passes
use scimtest.Prelude.{
  ℕ, ◌+◌, String, Bool, true, List, [], ◌∷◌, ◌≡◌, refl, length, count_if, arith, if◌then◌else◌,
  Result, ok, err, Bool-cases, inl, inr,
}
use scimtest.Directory.{User, Group}
use scimtest.Scim.Client.{ScimError, not_found, Client}
use scimtest.Scim.Progress.{report_user, add_total}
use scimtest.Scim.Resource.{ScimUserResource, new_user_resource, user_matches_remote}
use scimtest.Scim.Pass.{
  UserPass, On, total, prune_user_from_groups, keep_user, note_awaiting, fail_user, drop_user,
  after_delete, after_create, after_replace,
}
use scimtest.Scim.Users.{after_check}

abbrev pub dirty_groups : List Group → ℕ
dirty_groups = count_if (λ g. g.dirty)

pub dirty_groups-prune :
    (gs : List Group) (id : String)
    → dirty_groups (prune_user_from_groups gs id).0
      ≡ dirty_groups gs + (prune_user_from_groups gs id).1
unfolding prune_user_from_groups
dirty_groups-prune [] id = refl
dirty_groups-prune (g ∷ gs) id = ground (arith, dirty_groups-prune gs id)

pub length-prune :
    (gs : List Group) (id : String) → length (prune_user_from_groups gs id).0 ≡ length gs
unfolding prune_user_from_groups
length-prune [] id = refl
length-prune (g ∷ gs) id = ground (arith, length-prune gs id)

-- The users that the counts account for: those in sync have a count of their own.
abbrev pub handled : {W : Type 0} → UserPass W → ℕ
handled p = total p.counts + p.counts.in_sync

-- What `left` measures of the groups is what the pass still owes them: all of them when it
-- reconciles, the dirty ones when it syncs.
module _ {W : Type 0} (left : List Group → ℕ) where
  -- `n` more users handled.
  abbrev pub Ticks : ℕ → UserPass W → UserPass W → Type 0
  Ticks n p q =
      (q.reporter.processed ≡ p.reporter.processed + n)
      × (handled q ≡ handled p + n)
      × (q.reporter.total + left p.groups ≡ p.reporter.total + left q.groups)

  module _ (p : UserPass W) (u : User) where
    pub fail_user-Ticks :
        (d : Bool) (operation : String) (e : ScimError)
        → On (Ticks 1 p) (Ticks 1 p) (fail_user d u operation e p)
    unfolding fail_user keep_user report_user total
    fail_user-Ticks d operation e = ground arith

  module _ (grows : Bool)
      (prunes : (gs : List Group) (id : String)
        → left (prune_user_from_groups gs id).0
          ≡ left gs + (if grows then (prune_user_from_groups gs id).1 else 0)) where
    pub drop_user-Ticks :
        (u : User) (operation status : String) (p : UserPass W)
        → Ticks 1 p (drop_user grows u operation status p)
    unfolding drop_user report_user add_total total
    drop_user-Ticks u operation status p = ground (arith, prunes p.groups u.id)

    pub after_delete-Ticks :
        (d : Bool) (u : User) (operation : String) (p : UserPass W)
        (r : Result ScimError (Unit {0}) × W)
        → On (Ticks 1 p) (Ticks 1 p) (after_delete d grows u operation p r)
    unfolding after_delete
    after_delete-Ticks d u operation p (err e, w) =
        fail_user-Ticks (record p { world = w }) u d operation e
    after_delete-Ticks d u operation p (ok x, w) =
        drop_user-Ticks u operation "Deleted" (record p { world = w })

  pub after_create-Ticks :
      (d : Bool) (u : User) (operation done : String) (p : UserPass W)
      (r : Result ScimError (String × Bool) × W)
      → On (Ticks 1 p) (Ticks 1 p) (after_create d u operation done p r)
  unfolding after_create keep_user note_awaiting report_user total
  after_create-Ticks d u operation done p (err e, w) =
      fail_user-Ticks (record p { world = w }) u d operation e
  after_create-Ticks d u operation done p (ok (remote_id, adopted), w) = ground arith

  pub after_replace-Ticks :
      (d : Bool) (u : User) (operation done : String) (p : UserPass W)
      (r : Result ScimError (Unit {0}) × W)
      → On (Ticks 1 p) (Ticks 1 p) (after_replace d u operation done p r)
  unfolding after_replace keep_user note_awaiting report_user total
  after_replace-Ticks d u operation done p (err e, w) =
      fail_user-Ticks (record p { world = w }) u d operation e
  after_replace-Ticks d u operation done p (ok x, w) = ground arith

  module _ (c : Client W) where
    pub after_check-Ticks :
        (u : User) (operation : String) (p : UserPass W) (r : Result ScimError ScimUserResource × W)
        → On (Ticks 1 p) (Ticks 1 p) (after_check c u operation p r)
    unfolding after_check keep_user note_awaiting report_user total
    after_check-Ticks u operation p (err (not_found s), w) =
        after_create-Ticks true u operation "create" p (c.create_user u p.directory w)
    after_check-Ticks u operation p (err e, w) =
        fail_user-Ticks (record p { world = w }) u true operation e
    after_check-Ticks u operation p (ok remote, w) =
        elim (Bool-cases (user_matches_remote (new_user_resource u p.directory) remote)) [
          | inl h ↦ rw h (ground arith)
          | inr h ↦
              rw h
                (after_replace-Ticks true u operation "update" p (c.replace_user u p.directory w))
        ]
