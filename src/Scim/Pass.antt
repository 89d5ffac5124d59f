-- ===== src/Scim/Pass.antt =====
-- The state of one pass over the users or the groups, and the parts that sync and reconcile share.
use scimtest.Prelude.{
  ◌≡◌, refl, Option, none, some, ℕ, ◌+◌, String, Bool, true, false, not, ◌||◌, List, [], ◌∷◌, ◌++◌,
  filter, any, length, modify, ◌==◌, if◌then◌else◌, Result, ok, err,
}
use scimtest.Prelude.Dict.{insert, remove}
use scimtest.Directory.{User, Group}
use scimtest.Scim.Resource.{UserDirectory, awaits_manager}
use scimtest.Scim.Client.{ScimError, message, is_stopping_scim_error}
use scimtest.Scim.Progress.{Reporter, add_total, report_user}

pub record SyncCounts : Type 0 where
  pub created : ℕ
  pub adopted : ℕ
  pub updated : ℕ
  pub deleted : ℕ
  pub in_sync : ℕ
  pub failed : ℕ

abbrev pub zero_counts : SyncCounts
zero_counts = record { created = 0; adopted = 0; updated = 0; deleted = 0; in_sync = 0; failed = 0 }

-- syncCounts.total
unfoldable pub total : SyncCounts → ℕ
total c = c.created + c.adopted + c.updated + c.deleted + c.failed

-- One round of a loop goes on, or stops it.
pub data Step {ℓ} (S : Type ℓ) : Type ℓ where
  go : S → Step S
  halt : ScimError → S → Step S

-- What holds of a step's state, when it goes on and when it stops.
abbrev pub On : {S : Type 0} → (S → Type 0) → (S → Type 0) → Step S → Type 0
On P Q (go s) = P s
On P Q (halt e s) = Q s

-- What holds of a loop's last state, when it has met every resource and when an error stopped it.
abbrev pub Ends : {S : Type 0} → (S → Type 0) → (S → Type 0) → S × Option ScimError → Type 0
Ends P Q (s, none) = P s
Ends P Q (s, some e) = Q s

-- A test keeps what both branches keep, each knowing its answer.
pub On-if :
    {S : Type 0} (P Q : S → Type 0) (b : Bool) (s t : Step S)
    → (b ≡ true → On P Q s)
    → (b ≡ false → On P Q t)
    → On P Q (if b then s else t)
On-if P Q true s t h k = h refl
On-if P Q false s t h k = k refl

pub record UserPass (W : Type 0) : Type 0 where
  pub next : List User
  pub counts : SyncCounts
  pub directory : UserDirectory
  pub awaiting : List ℕ
  pub groups : List Group
  pub reporter : Reporter
  pub world : W

abbrev pub operation_for : String → Bool → String → String
operation_for otherwise deleted remote_id =
    if deleted then "delete" else if remote_id == "" then "create" else otherwise

abbrev pub set_dirty : User → User
set_dirty u = record u { dirty = true }

unfoldable pub mark_users_dirty : List User → List ℕ → List User
mark_users_dirty users [] = users
mark_users_dirty users (i ∷ is) = mark_users_dirty (modify users i set_dirty) is

-- pruneUserFromGroups: the groups without the member, and how many became dirty by it.
unfoldable pub prune_user_from_groups : List Group → String → List Group × ℕ
prune_user_from_groups [] user_id = ([], 0)
prune_user_from_groups (g ∷ gs) user_id =
    let (rest, newly_dirty) = prune_user_from_groups gs user_id in
    if any (λ id. id == user_id) g.member_ids
    then (
      record g {
        member_ids = filter (λ id. not (id == user_id)) g.member_ids;
        last_error = "";
        dirty = true;
      }
          ∷ rest,
      if g.dirty then newly_dirty else newly_dirty + 1,
    )
    else (g ∷ rest, newly_dirty)

module _ {W : Type 0} where
  -- nextUsers = append(nextUsers, u)
  unfoldable pub keep_user : User → UserPass W → UserPass W
  keep_user u p = record p { next = p.next ++ u ∷ [] }

  -- The position that the user is about to take, if its manager has no remote ID yet.
  unfoldable pub note_awaiting : User → UserPass W → UserPass W
  note_awaiting u p =
      if awaits_manager p.directory u
      then record p { awaiting = p.awaiting ++ length p.next ∷ [] }
      else p

  -- The closure `fail` of the two user loops; only reconcile sets the dirty flag. The loops append
  -- the rest of the users when the error stops them.
  unfoldable pub fail_user : Bool → User → String → ScimError → UserPass W → Step (UserPass W)
  unfolding keep_user
  fail_user sets_dirty u operation e p =
      let failed = record u { last_error = message e; dirty = sets_dirty || u.dirty } in
      let p' = keep_user failed (record p {
        counts = record p.counts { failed = p.counts.failed + 1 };
        reporter = report_user p.reporter failed operation "Failed";
      }) in
      if is_stopping_scim_error e
      then halt e (record p' { next = mark_users_dirty p'.next p'.awaiting })
      else go p'

  -- A deleted user leaves the directory and every group; only sync adds the groups that it makes
  -- dirty to the total.
  unfoldable pub drop_user : Bool → User → String → String → UserPass W → UserPass W
  unfolding prune_user_from_groups
  drop_user grows_total u operation status p =
      let (groups, newly_dirty) = prune_user_from_groups p.groups u.id in
      let reporter = if grows_total then add_total p.reporter newly_dirty else p.reporter in
      record p {
        directory = record p.directory { remote_ids = remove p.directory.remote_ids u.id };
        groups = groups;
        counts = record p.counts { deleted = p.counts.deleted + 1 };
        reporter = report_user reporter u operation status;
      }

  unfoldable pub after_delete :
      Bool → Bool → User → String → UserPass W → Result ScimError (Unit {0}) × W → Step (UserPass W)
  unfolding fail_user drop_user
  after_delete sets_dirty grows_total u operation p (err e, w) =
      fail_user sets_dirty u operation e (record p { world = w })
  after_delete sets_dirty grows_total u operation p (ok _, w) =
      go (drop_user grows_total u operation "Deleted" (record p { world = w }))

  -- The operation that a failure reports may differ from that of a success.
  unfoldable pub after_create :
      Bool
      → User
      → String
      → String
      → UserPass W
      → Result ScimError (String × Bool) × W
      → Step (UserPass W)
  unfolding fail_user keep_user note_awaiting
  after_create sets_dirty u operation done p (err e, w) =
      fail_user sets_dirty u operation e (record p { world = w })
  after_create sets_dirty u operation done p (ok (remote_id, adopted), w) =
      let created = record u { remote_id = remote_id; dirty = false } in
      let noted = note_awaiting u (record p { world = w }) in
      let p' = keep_user created (record noted {
        directory = record p.directory {
          remote_ids = insert p.directory.remote_ids u.id remote_id;
        };
      }) in
      if adopted
      then go (record p' {
        counts = record p.counts { adopted = p.counts.adopted + 1 };
        reporter = report_user p.reporter created done "Adopted";
      })
      else go (record p' {
        counts = record p.counts { created = p.counts.created + 1 };
        reporter = report_user p.reporter created done "Created";
      })

  unfoldable pub after_replace :
      Bool
      → User
      → String
      → String
      → UserPass W
      → Result ScimError (Unit {0}) × W
      → Step (UserPass W)
  unfolding fail_user keep_user note_awaiting
  after_replace sets_dirty u operation done p (err e, w) =
      fail_user sets_dirty u operation e (record p { world = w })
  after_replace sets_dirty u operation done p (ok _, w) =
      let replaced = record u { dirty = false } in
      let p' = keep_user replaced (note_awaiting u (record p { world = w })) in
      go (record p' {
        counts = record p.counts { updated = p.counts.updated + 1 };
        reporter = report_user p.reporter replaced done "Updated";
      })
