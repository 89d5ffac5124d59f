-- ===== src/Scim/Import/Replace/Imported.antt =====
-- What the directory is after an import.
use scimtest.Prelude.{
  ℕ, ◌+◌, String, false, List, [], ◌∷◌, ◌==◌, length, from_option, trim_space, Result, ok, err, All,
  Distinct, ◌≡◌, refl, subst, arith, ◌∙◌, split_if,
}
use scimtest.Prelude.Dict.{Dict, lookup}
use scimtest.Directory.{User, Group, AppState}
use scimtest.Sync.Logs.{append_local_operation_log, store_entry}
use scimtest.Scim.Resource.{ScimUserResource, ScimGroupResource}
use scimtest.Scim.Http.{GoLibrary}
use scimtest.Scim.Import.{
  Ids, ImportedUsers, ImportedGroups, no_users, no_groups, assign_managers, group_id_by_remote,
  log_imports,
}
use scimtest.Scim.Import.Replace.{
  choose_group_id, accept_group, after_group_id, import_groups, imported_state, after_groups,
  after_users, replace_state_from_scim,
}
use scimtest.Scim.Import.Replace.Unique.{
  Resolves, user_ids, IsConsistent, Holds, import_users-Holds,
}
use scimtest.Scim.Import.Replace.Closed.{
  IsImportedUser, IsImportedGroup, assign_managers-users, assign_managers-ids, listed, kept,
  group_ids, IsClosed, IsClosed-add,
}

-- The same users and groups.
abbrev SameDirectory : AppState → AppState → Type 0
SameDirectory s t = (t.users ≡ s.users) × (t.groups ≡ s.groups)

append_local_operation_log-SameDirectory :
    (now : String) (s : AppState) (resource_type id summary : String)
    → SameDirectory s (append_local_operation_log now s resource_type id summary)
unfolding append_local_operation_log store_entry
append_local_operation_log-SameDirectory now s resource_type id summary =
    split_if (SameDirectory s) (resource_type == "user") _ _ (λ _. (refl, refl))
      (λ _.
        split_if (SameDirectory s) (resource_type == "group") _ s (λ _. (refl, refl))
          (λ _. (refl, refl)))

log_imports-SameDirectory :
    (time : String → String) (resource_type : String) (ids : List String) (s : AppState)
    → SameDirectory s (log_imports time resource_type ids s)
unfolding log_imports
log_imports-SameDirectory time resource_type [] s = (refl, refl)
log_imports-SameDirectory time resource_type (id ∷ ids) s =
    let logged = append_local_operation_log (time id) s resource_type id "Imported from SCIM" in
    let rest = log_imports-SameDirectory time resource_type ids logged in
    let one =
      append_local_operation_log-SameDirectory (time id) s resource_type id "Imported from SCIM" in
    (rest.0 ∙ one.0, rest.1 ∙ one.1)

imported_state-SameDirectory :
    (time : String → String) (s : AppState) (us : List User) (gs : List Group)
    → SameDirectory (record s { users = us; groups = gs }) (imported_state time s us gs)
unfolding imported_state
imported_state-SameDirectory time s us gs =
    let replaced = record s { users = us; groups = gs } in
    let logged = log_imports time "user" (user_ids us) replaced in
    let users = log_imports-SameDirectory time "user" (user_ids us) replaced in
    let groups = log_imports-SameDirectory time "group" (group_ids gs) logged in
    (groups.0 ∙ users.0, groups.1 ∙ users.1)

-- The directory after an import of groups with `n` members in all, of which some were skipped.
pub record IsImported (n : ℕ) (result : AppState × ℕ) : Type 0 where
  pub unique_users : Distinct (user_ids result.0.users)
  pub unique_groups : Distinct (group_ids result.0.groups)
  pub users : All (IsImportedUser (user_ids result.0.users)) result.0.users
  pub groups : All (IsImportedGroup (user_ids result.0.users)) result.0.groups
  pub members : kept result.0.groups + result.1 ≡ n

module _ (lib : GoLibrary) {S : Type 0} (ids : Ids S) (us : List String) (m : Dict String)
    (resolves : Resolves us m) where
  accept_group-Holds :
      (id : String) (r : ScimGroupResource) (n k : ℕ) (so_far : ImportedGroups)
      (go_on : ImportedGroups → S → Result String ImportedGroups × S) (s : S)
      → IsClosed us n so_far
      → ((next : ImportedGroups) (s : S)
          → IsClosed us (n + length r.members) next
          → Holds (IsClosed us k) (go_on next s))
      → Holds (IsClosed us k) (after_group_id lib ids m r so_far go_on (ok id, s))
  unfolding after_group_id accept_group
  accept_group-Holds id r n k so_far go_on s h f =
      split_if (Holds (IsClosed us k)) (from_option (lookup so_far.seen id) false) _ _ (λ _. tt)
        (λ new. f _ s (IsClosed-add us n m id r so_far resolves h new))

  after_group_id-Holds :
      (r : ScimGroupResource) (n k : ℕ) (so_far : ImportedGroups)
      (go_on : ImportedGroups → S → Result String ImportedGroups × S)
      (id : Result String String × S)
      → IsClosed us n so_far
      → ((next : ImportedGroups) (s : S)
          → IsClosed us (n + length r.members) next
          → Holds (IsClosed us k) (go_on next s))
      → Holds (IsClosed us k) (after_group_id lib ids m r so_far go_on id)
  after_group_id-Holds r n k so_far go_on (err e, s) h f = unfold after_group_id in tt
  after_group_id-Holds r n k so_far go_on (ok id, s) h f =
      accept_group-Holds id r n k so_far go_on s h f

  import_groups-Holds :
      (groups : List Group) (rs : List ScimGroupResource) (n : ℕ) (so_far : ImportedGroups) (s : S)
      → IsClosed us n so_far
      → Holds (IsClosed us (n + listed rs)) (import_groups lib ids groups m rs so_far s)
  unfolding import_groups
  import_groups-Holds groups [] n so_far s h = subst (λ k. IsClosed us k so_far) (omega arith) h
  import_groups-Holds groups (r ∷ rs) n so_far s h =
      after_group_id-Holds r n (n + listed (r ∷ rs)) so_far (import_groups lib ids groups m rs)
        (choose_group_id lib ids (trim_space r.external_id)
          (group_id_by_remote groups (trim_space r.id)) s)
        h
        (λ next s' h'.
          subst (λ k. Holds (IsClosed us k) (import_groups lib ids groups m rs next s'))
            (omega arith) (import_groups-Holds groups rs (n + length r.members) next s' h'))

no_users-IsConsistent : IsConsistent no_users
unfolding no_users lookup
no_users-IsConsistent = record {
  ids = record { unique = tt; agrees = λ id. refl };
  resolves = λ k id e. cc e;
  fresh = tt;
}

no_groups-IsClosed : (us : List String) → IsClosed us 0 no_groups
unfolding no_groups lookup
no_groups-IsClosed us = record {
  unique = record { unique = tt; agrees = λ id. refl };
  members = tt;
  count = refl;
}

-- What the users and groups that were built amount to, and the state that holds them.
built-IsImported :
    (time : String → String) (state : AppState) (n : ℕ) (rs : List ScimUserResource)
    (us : ImportedUsers) (gs : ImportedGroups)
    → IsConsistent us
    → IsClosed (user_ids us.users) n gs
    → IsImported n (
      imported_state time state (assign_managers us.remote_to_local us.users rs) gs.groups,
      gs.skipped,
    )
built-IsImported time state n rs us gs h c =
    let users = assign_managers us.remote_to_local us.users rs in
    let same = imported_state-SameDirectory time state users gs.groups in
    let named = assign_managers-ids us.remote_to_local us.users rs in
    record {
      unique_users = rw (same.0, named) h.ids.unique;
      unique_groups = rw same.1 c.unique.unique;
      users =
          rw (same.0, named)
            (assign_managers-users (user_ids us.users) us.remote_to_local us.users rs h.resolves
              h.fresh);
      groups = rw (same.0, same.1, named) c.members;
      members = rw same.1 c.count;
    }

module _ (lib : GoLibrary) {S : Type 0} (ids : Ids S) (time : String → String)
    (state : AppState) where
  after_groups-IsImported :
      (n : ℕ) (rs : List ScimUserResource) (us : ImportedUsers)
      (gs : Result String ImportedGroups × S)
      → IsConsistent us
      → Holds (IsClosed (user_ids us.users) n) gs
      → Holds
          (IsImported n)
          (after_groups lib ids time state (assign_managers us.remote_to_local us.users rs) gs)
  unfolding after_groups
  after_groups-IsImported n rs us (err e, s) h c = tt
  after_groups-IsImported n rs us (ok gs, s) h c = built-IsImported time state n rs us gs h c

  after_users-IsImported :
      (rs : List ScimUserResource) (gs : List ScimGroupResource)
      (us : Result String ImportedUsers × S)
      → Holds IsConsistent us
      → Holds (IsImported (listed gs)) (after_users lib ids time state rs gs us)
  unfolding after_users no_groups
  after_users-IsImported rs gs (err e, s) h = tt
  after_users-IsImported rs gs (ok us, s) h =
      after_groups-IsImported (listed gs) rs us
        (import_groups lib ids state.groups us.remote_to_local gs no_groups s) h
        (subst
          (λ n.
            Holds (IsClosed (user_ids us.users) n)
              (import_groups lib ids state.groups us.remote_to_local gs no_groups s))
          (omega arith)
          (import_groups-Holds lib ids (user_ids us.users) us.remote_to_local h.resolves
            state.groups gs 0 no_groups s (no_groups-IsClosed (user_ids us.users))))

  Holds-ok :
      {A : Type 0} (P : A → Type 0) (r : Result String A × S) (a : A) → Holds P r → r.0 ≡ ok a → P a
  Holds-ok P (ok x, s) a h e = subst P (cc e) h
  Holds-ok P (err x, s) a h e = cc e

  -- An import that succeeds leaves a well-formed directory: no ID stands twice, everything is in
  -- sync, a manager is another user of the import, a member is a user of the import, and the
  -- members that the server lists are all either kept or counted as skipped.
  pub replace_state_from_scim-IsImported :
      (rs : List ScimUserResource) (gs : List ScimGroupResource) (s : S) (result : AppState × ℕ)
      → (replace_state_from_scim lib ids time state rs gs s).0 ≡ ok result
      → IsImported (listed gs) result
  unfolding replace_state_from_scim
  replace_state_from_scim-IsImported rs gs s result = Holds-ok (IsImported (listed gs)) _ result (
      after_users-IsImported rs gs _
        (import_users-Holds lib ids state.users rs no_users s no_users-IsConsistent))
