-- ===== src/Sync/Purge/Groups.antt =====
-- The loop over the groups of PurgeFullySyncedDeletions, and both loops together.
use scimtest.Prelude.{
  String, Bool, not, ◌&&◌, List, [], ◌∷◌, map, filter, ◌≡◌, ◌≢◌, refl, sym, ap, subst, ◌∙◌, arith,
  All, Distinct, Bool-cases, inl, inr,
}
use scimtest.Directory.{User, Group, App, AppState}
use scimtest.Sync.Purge.{
  drop_member, resource_deleted_everywhere, forget_user, forget_group, is_gone, is_gone_group,
  purge_users, purge_groups, purge_fully_synced_deletions,
}
use scimtest.Sync.Purge.Filter.{
  Rows, user_ids, group_ids, deleted_everywhere-remove_rows, SameUsers-refl, purge_users-filter,
}

-- What the purge of a group depends on, of the group and of the state.
abbrev key : Group → String × Bool
key g = (g.id, g.deleted)

abbrev gone_key : AppState → String × Bool → Bool
gone_key s k = k.1 && resource_deleted_everywhere s.apps s.group_sync k.0

abbrev SameGroups : AppState → AppState → List Group → Type 0
SameGroups s t = All (λ g. is_gone_group s g ≡ is_gone_group t g)

SameGroups-forget :
    (s t : AppState) (id : String) (gs : List Group)
    → All (λ j. id ≢ j) (group_ids gs)
    → SameGroups s t gs
    → SameGroups (forget_group s id) t gs
unfolding is_gone_group forget_group
SameGroups-forget s t id [] d h = tt
SameGroups-forget s t id (g ∷ gs) d h = (
  ground (arith, deleted_everywhere-remove_rows s.apps s.group_sync id g.id d.0, h.0),
  SameGroups-forget s t id gs d.1 h.1,
)

SameGroups-refl : (s : AppState) (gs : List Group) → SameGroups s s gs
SameGroups-refl s [] = tt
SameGroups-refl s (g ∷ gs) = (refl, SameGroups-refl s gs)

purge_groups-filter :
    (gs : List Group) (s t : AppState)
    → Distinct (group_ids gs)
    → SameGroups s t gs
    → (purge_groups gs s).0 ≡ filter (λ g. not (is_gone_group t g)) gs
unfolding purge_groups
purge_groups-filter [] s t d h = refl
purge_groups-filter (g ∷ gs) s t d h = elim (Bool-cases (is_gone_group s g)) [
  | inl e ↦ ground (
    arith,
    purge_groups-filter gs (forget_group s g.id) t d.1 (SameGroups-forget s t g.id gs d.0 h.1),
    h.0,
  )
  | inr e ↦ ground (arith, purge_groups-filter gs s t d.1 h.1, h.0)
]

-- Forgetting a user changes the members of groups and nothing that decides about a group.
record SameForGroups (s t : AppState) : Type 0 where
  apps : s.apps ≡ t.apps
  rows : s.group_sync ≡ t.group_sync
  keys : map key s.groups ≡ map key t.groups

keys-drop_member : (id : String) (gs : List Group) → map key (map (drop_member id) gs) ≡ map key gs
keys-drop_member id [] = refl
keys-drop_member id (g ∷ gs) = ap (◌∷◌ (key g)) (keys-drop_member id gs)

purge_users-SameForGroups : (us : List User) (s : AppState) → SameForGroups (purge_users us s).1 s
unfolding purge_users
purge_users-SameForGroups [] s = record { apps = refl; rows = refl; keys = refl }
purge_users-SameForGroups (u ∷ us) s = elim (Bool-cases (is_gone s u)) [
  | inl e ↦
      let h : SameForGroups (purge_users us (forget_user s u.id)).1 (forget_user s u.id) =
        purge_users-SameForGroups us (forget_user s u.id) in
      rw e (
        unfold forget_user in
        record { apps = h.apps; rows = h.rows; keys = h.keys ∙ keys-drop_member u.id s.groups })
  | inr e ↦ rw e (purge_users-SameForGroups us s)
]

-- A filter by the key, seen through the keys.
ids-filter :
    (s : AppState) (gs : List Group)
    → group_ids (filter (λ g. not (is_gone_group s g)) gs)
      ≡ map (λ k. k.0) (filter (λ k. not (gone_key s k)) (map key gs))
unfolding is_gone_group
ids-filter s [] = refl
ids-filter s (g ∷ gs) = ground (arith, ids-filter s gs)

ids-of-keys : (gs : List Group) → group_ids gs ≡ map (λ k. k.0) (map key gs)
ids-of-keys [] = refl
ids-of-keys (g ∷ gs) = ap (◌∷◌ g.id) (ids-of-keys gs)

-- What forgetting a group leaves alone, the purge of the groups leaves alone.
pub purge_groups-keeps {ℓ} :
    {A : Type ℓ} (f : AppState → A)
    → ((s : AppState) (id : String) → f (forget_group s id) ≡ f s)
    → (gs : List Group) (s : AppState) → f (purge_groups gs s).1 ≡ f s
unfolding purge_groups
purge_groups-keeps f h [] s = refl
purge_groups-keeps f h (g ∷ gs) s = elim (Bool-cases (is_gone_group s g)) [
  | inl e ↦ rw e (purge_groups-keeps f h gs (forget_group s g.id) ∙ h s g.id)
  | inr e ↦ rw e (purge_groups-keeps f h gs s)
]

abbrev kept_ids : List App → Rows → List (String × Bool) → List String
kept_ids apps sync ks =
    map (λ k. k.0) (filter (λ k. not (k.1 && resource_deleted_everywhere apps sync k.0)) ks)

same_ids :
    (s t : AppState)
    → SameForGroups s t
    → group_ids (filter (λ g. not (is_gone_group s g)) s.groups)
      ≡ group_ids (filter (λ g. not (is_gone_group t g)) t.groups)
same_ids s t h =
    ids-filter s s.groups
    ∙ ap (λ a. kept_ids a s.group_sync (map key s.groups)) h.apps
    ∙ ap (λ r. kept_ids t.apps r (map key s.groups)) h.rows
    ∙ ap (kept_ids t.apps t.group_sync) h.keys
    ∙ sym (ids-filter t t.groups)

same-Distinct :
    (s t : AppState)
    → SameForGroups s t
    → Distinct (group_ids t.groups)
    → Distinct (group_ids s.groups)
same-Distinct s t h =
    subst Distinct
      (ids-of-keys t.groups ∙ sym (ap (map (λ k. k.0)) h.keys) ∙ sym (ids-of-keys s.groups))

-- Where users have distinct IDs, and groups too, the users that the purge leaves are those that
-- the state before it does not count as gone, in order and unchanged, and the IDs of the groups
-- that it leaves are those of the groups not gone in that state: what the purge removes on its way
-- decides about nothing else. A resource is gone if it is deleted and every app has either a row
-- that is deleted, clean and without a remote ID, or is paused and has no row.
pub purge-filter :
    (state : AppState)
    → Distinct (user_ids state.users)
    → Distinct (group_ids state.groups)
    → ((purge_fully_synced_deletions state).users ≡ filter (λ u. not (is_gone state u)) state.users)
      × (group_ids (purge_fully_synced_deletions state).groups
          ≡ group_ids (filter (λ g. not (is_gone_group state g)) state.groups))
unfolding purge_fully_synced_deletions
purge-filter state du dg =
    let s : AppState = (purge_users state.users state).1 in
    let t : AppState = record s { users = (purge_users state.users state).0 } in
    let same : SameForGroups s state = purge_users-SameForGroups state.users state in
    (
      purge_groups-keeps (λ r. r.users) (λ r id. unfold forget_group in refl) s.groups t
          ∙ purge_users-filter state.users state state du (SameUsers-refl state state.users),
      ap group_ids (
            purge_groups-filter s.groups t s (same-Distinct s state same dg)
              (unfold is_gone_group in SameGroups-refl s s.groups))
          ∙ same_ids s state same,
    )
