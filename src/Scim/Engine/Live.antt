-- ===== src/Scim/Engine/Live.antt =====
-- The live users over SyncDirtyStateWithContext and ReconcileStateWithContext.
use scimtest.Prelude.{Option, none, some, List, ◌≡◌, refl}
use scimtest.Directory.{User, Group, AppState}
use scimtest.Scim.Client.{ScimError, Client}
use scimtest.Scim.Pass.{UserPass, Ends}
use scimtest.Scim.Users.{start_users, sync_users, reconcile_users}
use scimtest.Scim.Users.Live.{live_profiles}
use scimtest.Scim.Users.Live.Passes.{Kept, sync_users-Kept, reconcile_users-Kept}
use scimtest.Scim.Groups.{GroupPass, sync_groups, reconcile_groups}
use scimtest.Scim.Engine.{finish, sync_dirty_state, reconcile_state}

finish-Kept :
    {W : Type 0} (c : Client W)
    (pass : List User → List Group → GroupPass W → GroupPass W × Option ScimError)
    (state : AppState) (all : List User) (r : UserPass W × Option ScimError)
    → Ends (Kept c all) (Kept c all) r
    → live_profiles (finish pass state r).state.users ≡ all
unfolding finish
finish-Kept c pass state all (p, some e) h = h
finish-Kept c pass state all (p, none) h = h

module _ {W : Type 0} (c : Client W) (state : AppState) (w : W) where
  -- A sync of the dirty resources keeps every user that is not deleted, in order, and changes
  -- nothing of it but remote ID, dirty flag and last error, whatever the server answers.
  pub sync_dirty_state-live_profiles :
      live_profiles (sync_dirty_state c state w).state.users ≡ live_profiles state.users
  unfolding sync_dirty_state start_users
  sync_dirty_state-live_profiles =
      finish-Kept c (sync_groups c) state (live_profiles state.users) (sync_users c state.users _)
        (sync_users-Kept c (live_profiles state.users) state.users _ refl)

  -- A reconcile keeps every user that is not deleted, in order, and changes nothing of it but
  -- remote ID, dirty flag and last error, whatever the server answers.
  pub reconcile_state-live_profiles :
      live_profiles (reconcile_state c state w).state.users ≡ live_profiles state.users
  unfolding reconcile_state start_users
  reconcile_state-live_profiles =
      finish-Kept c (reconcile_groups c) state (live_profiles state.users)
        (reconcile_users c state.users _)
        (reconcile_users-Kept c (live_profiles state.users) state.users _ refl)
