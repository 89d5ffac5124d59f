-- ===== src/Sync/Purge/Traces.antt =====
-- What PurgeFullySyncedDeletions leaves of a user: rows, history and memberships.
use scimtest.Prelude.{
  ℕ, zero, suc, String, true, false, none, some, List, [], ◌∷◌, map, any, ◌≡◌, refl, ap, ◌∙◌, ◌==◌,
  arith, All, Distinct, eq_iff, get_elem?, Bool-cases, inl, inr,
}
use scimtest.Prelude.Dict.{lookup, inner, lookup-remove}
use scimtest.Directory.{User, Group, AppState}
use scimtest.Sync.Purge.{
  remove_value, drop_member, forget_user, forget_group, is_gone, is_gone_group, purge_users,
  purge_groups, purge_fully_synced_deletions,
}
use scimtest.Sync.Purge.Filter.{
  lookup-remove_rows, user_ids, SameUsers, SameUsers-forget, SameUsers-refl,
}
use scimtest.Sync.Purge.Groups.{purge_groups-keeps}

abbrev pub HasNoMember : String → Group → Type 0
HasNoMember id g = any (λ v. v == id) g.member_ids ≡ false

pub record IsForgotten (id : String) (s : AppState) : Type 0 where
  pub history : lookup s.user_operations id ≡ none
  pub rows : (app_id : String) → lookup (inner s.user_sync app_id) id ≡ none
  pub members : All (HasNoMember id) s.groups

any-remove_self : (id : String) (vs : List String) → any (λ v. v == id) (remove_value vs id) ≡ false
unfolding remove_value
any-remove_self id [] = refl
any-remove_self id (v ∷ vs) = ground (arith, any-remove_self id vs)

any-remove :
    (id j : String) (vs : List String)
    → any (λ v. v == id) vs ≡ false
    → any (λ v. v == id) (remove_value vs j) ≡ false
unfolding remove_value
any-remove id j [] h = refl
any-remove id j (v ∷ vs) h = ground (arith, any-remove id j vs)

dropped : (id : String) (gs : List Group) → All (HasNoMember id) (map (drop_member id) gs)
dropped id [] = tt
dropped id (g ∷ gs) = (any-remove_self id g.member_ids, dropped id gs)

still_dropped :
    (id j : String) (gs : List Group)
    → All (HasNoMember id) gs
    → All (HasNoMember id) (map (drop_member j) gs)
still_dropped id j [] h = tt
still_dropped id j (g ∷ gs) h = (any-remove id j g.member_ids h.0, still_dropped id j gs h.1)

forget_user-IsForgotten : (s : AppState) (id : String) → IsForgotten id (forget_user s id)
unfolding forget_user
forget_user-IsForgotten s id = record {
  history = ground (arith, lookup-remove s.user_operations id id, eq_iff id id);
  rows = λ a. ground (arith, lookup-remove_rows s.user_sync id a id, eq_iff id id);
  members = dropped id s.groups;
}

forget_user-keeps :
    (s : AppState) (id j : String) → IsForgotten id s → IsForgotten id (forget_user s j)
unfolding forget_user
forget_user-keeps s id j h = record {
  history = ground (arith, lookup-remove s.user_operations j id, h.history);
  rows = λ a. ground (arith, lookup-remove_rows s.user_sync j a id, h.rows a);
  members = still_dropped id j s.groups h.members;
}

purge_users-keeps :
    (us : List User) (s : AppState) (id : String)
    → IsForgotten id s
    → IsForgotten id (purge_users us s).1
unfolding purge_users
purge_users-keeps [] s id h = h
purge_users-keeps (u ∷ us) s id h = elim (Bool-cases (is_gone s u)) [
  | inl e ↦ rw e (purge_users-keeps us (forget_user s u.id) id (forget_user-keeps s id u.id h))
  | inr e ↦ rw e (purge_users-keeps us s id h)
]

purge_users-IsForgotten :
    (us : List User) (s t : AppState) (i : ℕ) (u : User)
    → Distinct (user_ids us)
    → SameUsers s t us
    → get_elem? us i ≡ some u
    → is_gone t u ≡ true
    → IsForgotten u.id (purge_users us s).1
unfolding purge_users
purge_users-IsForgotten [] s t i u d h found gone = cc
purge_users-IsForgotten (v ∷ us) s t zero u d h found gone =
    let here : v.id ≡ u.id = ground arith in
    let e : is_gone s v ≡ true = ground (arith, h.0) in
    rw e (
      purge_users-keeps us (forget_user s v.id) u.id (rw (← here) (forget_user-IsForgotten s v.id)))
purge_users-IsForgotten (v ∷ us) s t (suc i) u d h found gone = elim (Bool-cases (is_gone s v)) [
  | inl e ↦ rw e (
      purge_users-IsForgotten us (forget_user s v.id) t i u d.1
        (SameUsers-forget s t v.id us d.0 h.1) found gone)
  | inr e ↦ rw e (purge_users-IsForgotten us s t i u d.1 h.1 found gone)
]

purge_groups-All {κ} :
    (P : Group → Type κ) (gs : List Group) (s : AppState) → All P gs → All P (purge_groups gs s).0
unfolding purge_groups
purge_groups-All P [] s h = tt
purge_groups-All P (g ∷ gs) s h = elim (Bool-cases (is_gone_group s g)) [
  | inl e ↦ rw e (purge_groups-All P gs (forget_group s g.id) h.1)
  | inr e ↦ rw e (h.0, purge_groups-All P gs s h.1)
]

-- Where users have distinct IDs, a user of the state that is gone leaves no trace in the purged
-- state: no operation history, no row of any app, and no membership in any group. A user is gone if
-- it is deleted and every app has either a row for it that is deleted, clean and without a remote
-- ID, or is paused and has no row for it.
pub purge-IsForgotten :
    (state : AppState) (i : ℕ) (u : User)
    → Distinct (user_ids state.users)
    → get_elem? state.users i ≡ some u
    → is_gone state u ≡ true
    → IsForgotten u.id (purge_fully_synced_deletions state)
unfolding purge_fully_synced_deletions
purge-IsForgotten state i u d found gone =
    let s : AppState = (purge_users state.users state).1 in
    let t : AppState = record s { users = (purge_users state.users state).0 } in
    let h : IsForgotten u.id s =
      purge_users-IsForgotten state.users state state i u d (SameUsers-refl state state.users) found
        gone in
    record {
      history =
          ap (λ m. lookup m u.id)
            (purge_groups-keeps (λ r. r.user_operations) (λ r id. unfold forget_group in refl)
              s.groups t)
          ∙ h.history;
      rows = λ a.
          ap (λ m. lookup (inner m a) u.id)
            (purge_groups-keeps (λ r. r.user_sync) (λ r id. unfold forget_group in refl) s.groups t)
          ∙ h.rows a;
      members = purge_groups-All (HasNoMember u.id) s.groups t h.members;
    }
