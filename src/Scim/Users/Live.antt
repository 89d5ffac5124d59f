-- ===== src/Scim/Users/Live.antt =====
-- The live users, those not deleted, in the steps of syncDirtyUsers and reconcileUsers.
pub mod Passes
use scimtest.Prelude.{
  ℕ, zero, suc, String, Bool, true, false, some, List, [], ◌∷◌, ◌++◌, ◌≡◌, refl, ◌∙◌, arith,
  if◌then◌else◌, Result, ok, err, get_elem?, modify, append-nil,
}
use scimtest.Directory.{User}
use scimtest.Scim.Client.{ScimError, is_stopping_scim_error}
use scimtest.Scim.Pass.{
  UserPass, On, On-if, set_dirty, mark_users_dirty, keep_user, note_awaiting, fail_user, drop_user,
  after_delete, after_create, after_replace,
}

-- A user without its sync state.
abbrev pub profile : User → User
profile u = record u { remote_id = ""; dirty = false; last_error = "" }

abbrev pub live_profiles : List User → List User
live_profiles [] = []
live_profiles (u ∷ us) = if u.deleted then live_profiles us else profile u ∷ live_profiles us

pub live_profiles-append :
    (us vs : List User) → live_profiles (us ++ vs) ≡ live_profiles us ++ live_profiles vs
live_profiles-append [] vs = refl
live_profiles-append (u ∷ us) vs = ground (arith, live_profiles-append us vs)

pub live_profiles-set_dirty :
    (us : List User) (i : ℕ) → live_profiles (modify us i set_dirty) ≡ live_profiles us
live_profiles-set_dirty [] i = refl
live_profiles-set_dirty (u ∷ us) zero = refl
live_profiles-set_dirty (u ∷ us) (suc i) = ground (arith, live_profiles-set_dirty us i)

pub live_profiles-mark :
    (us : List User) (is : List ℕ) → live_profiles (mark_users_dirty us is) ≡ live_profiles us
unfolding mark_users_dirty
live_profiles-mark us [] = refl
live_profiles-mark us (i ∷ is) =
    live_profiles-mark (modify us i set_dirty) is ∙ live_profiles-set_dirty us i

pub live_profiles-failed :
    (us : List User) (i : ℕ) (u : User) (m : String)
    → get_elem? us i ≡ some u
    → live_profiles (modify us i (λ _. record u { last_error = m; dirty = true }))
      ≡ live_profiles us
live_profiles-failed [] i u m h = refl
live_profiles-failed (v ∷ us) zero u m h = ground arith
live_profiles-failed (v ∷ us) (suc i) u m h = ground (arith, live_profiles-failed us i u m h)

module _ {W : Type 0} where
  -- What a round does to the live users: it appends its own.
  abbrev pub Extends : User → UserPass W → UserPass W → Type 0
  Extends u p q = live_profiles q.next ≡ live_profiles p.next ++ live_profiles (u ∷ [])

  pub fail_user-Extends :
      (d : Bool) (u : User) (operation : String) (e : ScimError) (p : UserPass W)
      → On (Extends u p) (Extends u p) (fail_user d u operation e p)
  unfolding fail_user keep_user
  fail_user-Extends d u operation e p =
      On-if _ _ (is_stopping_scim_error e) _ _
        (λ _. live_profiles-mark _ p.awaiting ∙ live_profiles-append p.next _)
        λ _. live_profiles-append p.next _

  pub drop_user-Extends :
      (grows : Bool) (u : User) (operation status : String) (p : UserPass W)
      → u.deleted ≡ true
      → Extends u p (drop_user grows u operation status p)
  unfolding drop_user
  drop_user-Extends grows u operation status p h = ground (arith, append-nil (live_profiles p.next))

  pub after_delete-Extends :
      (d grows : Bool) (u : User) (operation : String) (p : UserPass W)
      (r : Result ScimError (Unit {0}) × W)
      → u.deleted ≡ true
      → On (Extends u p) (Extends u p) (after_delete d grows u operation p r)
  unfolding after_delete
  after_delete-Extends d grows u operation p (err e, w) h =
      fail_user-Extends d u operation e (record p { world = w })
  after_delete-Extends d grows u operation p (ok x, w) h =
      drop_user-Extends grows u operation "Deleted" (record p { world = w }) h

  pub next-note_awaiting : (u : User) (p : UserPass W) → (note_awaiting u p).next ≡ p.next
  unfolding note_awaiting
  next-note_awaiting u p = ground arith

  pub after_create-Extends :
      (d : Bool) (u : User) (operation done : String) (p : UserPass W)
      (r : Result ScimError (String × Bool) × W)
      → On (Extends u p) (Extends u p) (after_create d u operation done p r)
  unfolding after_create keep_user
  after_create-Extends d u operation done p (err e, w) =
      fail_user-Extends d u operation e (record p { world = w })
  after_create-Extends d u operation done p (ok (remote_id, adopted), w) = ground (
    arith,
    next-note_awaiting u (record p { world = w }),
    live_profiles-append p.next (record u { remote_id = remote_id; dirty = false } ∷ []),
  )

  pub after_replace-Extends :
      (d : Bool) (u : User) (operation done : String) (p : UserPass W)
      (r : Result ScimError (Unit {0}) × W)
      → On (Extends u p) (Extends u p) (after_replace d u operation done p r)
  unfolding after_replace keep_user
  after_replace-Extends d u operation done p (err e, w) =
      fail_user-Extends d u operation e (record p { world = w })
  after_replace-Extends d u operation done p (ok x, w) = ground (
    arith,
    next-note_awaiting u (record p { world = w }),
    live_profiles-append p.next (record u { dirty = false } ∷ []),
  )
