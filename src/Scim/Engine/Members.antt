-- ===== src/Scim/Engine/Members.antt =====
-- The live groups and their members over SyncDirtyStateWithContext and
-- ReconcileStateWithContext.
use scimtest.Prelude.{
  String, Bool, true, Option, none, some, List, [], ◌∷◌, ◌++◌, ◌≡◌, refl, inl, inr, All, arith,
  eq_iff, Bool-cases,
}
use scimtest.Directory.{User, Group, AppState}
use scimtest.Sync.Project.{is_deleted_user}
use scimtest.Scim.Client.{ScimError, Client}
use scimtest.Scim.Pass.{UserPass, Ends}
use scimtest.Scim.Users.{start_users, sync_users, reconcile_users}
use scimtest.Scim.Users.Members.{IsKnown}
use scimtest.Scim.Users.Members
use scimtest.Scim.Users.Members.Passes.{sync_users-Kept, reconcile_users-Kept}
use scimtest.Scim.Groups.{GroupPass, sync_groups, reconcile_groups}
use scimtest.Scim.Groups.Live.{live_groups}
use scimtest.Scim.Groups.Live.Passes
use scimtest.Scim.Groups.Live.Passes.{sync_groups-Kept, reconcile_groups-Kept}
use scimtest.Scim.Engine.{start_groups, finish, sync_dirty_state, reconcile_state}

weaken :
    (f g : String → Bool) (us : List User)
    → ((id : String) → f id ≡ true → g id ≡ true)
    → All (IsKnown f) us
    → All (IsKnown g) us
weaken f g [] h k = tt
weaken f g (u ∷ us) h (inl e, k) = (inl e, weaken f g us h k)
weaken f g (u ∷ us) h (inr e, k) = (inr (h u.id e), weaken f g us h k)

users-IsKnown : (us : List User) → All (IsKnown (is_deleted_user us)) us
unfolding is_deleted_user
users-IsKnown [] = tt
users-IsKnown (u ∷ us) = (
  elim (Bool-cases u.deleted) [ inl e ↦ inr (ground (arith, eq_iff u.id u.id)) | inr e ↦ inl e ],
  weaken (is_deleted_user us) (is_deleted_user (u ∷ us)) us (λ id h. ground arith)
      (users-IsKnown us),
)

groups-Kept :
    {W : Type 0} (c : Client W) (gone : String → Bool) (all : List Group)
    (r : GroupPass W × Option ScimError)
    → Ends (Passes.Kept c gone all) (Passes.Kept c gone all) r
    → live_groups gone r.0.next ≡ all
groups-Kept c gone all (q, some e) h = h
groups-Kept c gone all (q, none) h = h

finish-Kept :
    {W : Type 0} (c : Client W) (gone : String → Bool) (all : List Group)
    (pass : List User → List Group → GroupPass W → GroupPass W × Option ScimError)
    (keeps : (us : List User) (gs : List Group) (p : GroupPass W)
      → live_groups gone (p.next ++ gs) ≡ all
      → Ends (Passes.Kept c gone all) (Passes.Kept c gone all) (pass us gs p))
    (state : AppState) (r : UserPass W × Option ScimError)
    → Ends (Members.Kept gone all) (Members.Kept gone all) r
    → live_groups gone (finish pass state r).state.groups ≡ all
unfolding finish start_groups
finish-Kept c gone all pass keeps state (p, some e) h = h
finish-Kept c gone all pass keeps state (p, none) h =
    groups-Kept c gone all (pass p.next p.groups _) (keeps p.next p.groups _ h)

module _ {W : Type 0} (c : Client W) (state : AppState) (w : W) where
  -- A sync of the dirty resources keeps every group that is not deleted, in order, and changes
  -- nothing of it but remote ID, dirty flag, last error and the members that are deleted users of
  -- the state before it: every other member stays, in order, whatever the server answers.
  pub sync_dirty_state-live_groups :
      live_groups (is_deleted_user state.users) (sync_dirty_state c state w).state.groups
      ≡ live_groups (is_deleted_user state.users) state.groups
  unfolding sync_dirty_state start_users
  sync_dirty_state-live_groups =
      let gone = is_deleted_user state.users in
      let all = live_groups gone state.groups in
      finish-Kept c gone all (sync_groups c) (sync_groups-Kept c gone all) state
        (sync_users c state.users _)
        (sync_users-Kept c gone all state.users _ (users-IsKnown state.users, refl))

  -- A reconcile keeps every group that is not deleted, in order, and changes nothing of it but
  -- remote ID, dirty flag, last error and the members that are deleted users of the state before
  -- it: every other member stays, in order, whatever the server answers.
  pub reconcile_state-live_groups :
      live_groups (is_deleted_user state.users) (reconcile_state c state w).state.groups
      ≡ live_groups (is_deleted_user state.users) state.groups
  unfolding reconcile_state start_users
  reconcile_state-live_groups =
      let gone = is_deleted_user state.users in
      let all = live_groups gone state.groups in
      finish-Kept c gone all (reconcile_groups c) (reconcile_groups-Kept c gone all) state
        (reconcile_users c state.users _)
        (reconcile_users-Kept c gone all state.users _ (users-IsKnown state.users, refl))
