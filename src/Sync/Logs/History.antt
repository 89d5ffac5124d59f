-- ===== src/Sync/Logs/History.antt =====
-- The histories after AppendOperationLogs.
use scimtest.Prelude.{
  String, ◌&&◌, List, [], ◌∷◌, ◌++◌, map, filter, ◌==◌, if◌then◌else◌, ◌≡◌, refl, arith, eq_iff,
  append_assoc,
}
use scimtest.Prelude.Dict.{Dict, inner, lookup-insert}
use scimtest.Directory.{AppState, OperationLog}
use scimtest.Sync.Logs.{
  SyncTraceEntry, sync_entry, prepend_entry, store_entry, append_operation_logs,
}

abbrev newest_first {ℓ} : {A : Type ℓ} → List A → List A
newest_first [] = []
newest_first (x ∷ xs) = newest_first xs ++ x ∷ []

-- The traces about one resource.
abbrev pub traces_of : String → String → List SyncTraceEntry → List SyncTraceEntry
traces_of resource_type id = filter (λ t. t.resource_type == resource_type && t.resource_id == id)

-- What a run adds to the history of one resource.
abbrev pub added : String → String → String → List SyncTraceEntry → List OperationLog
added app_id resource_type id traces =
    newest_first (map (sync_entry app_id) (traces_of resource_type id traces))

inner-prepend :
    (logs : Dict (List OperationLog)) (k j : String) (e : OperationLog)
    → inner (prepend_entry logs k e) j ≡ (if k == j then e ∷ inner logs j else inner logs j)
unfolding prepend_entry
inner-prepend logs k j e = ground (arith, lookup-insert logs k j (e ∷ inner logs k), eq_iff k j)

inner-store_user :
    (state : AppState) (resource_type k j : String) (e : OperationLog)
    → inner (store_entry state resource_type k e).user_operations j ≡ (
        if resource_type == "user" && k == j
        then e ∷ inner state.user_operations j
        else inner state.user_operations j)
unfolding store_entry
inner-store_user state resource_type k j e =
    ground (arith, inner-prepend state.user_operations k j e)

inner-store_group :
    (state : AppState) (resource_type k j : String) (e : OperationLog)
    → inner (store_entry state resource_type k e).group_operations j ≡ (
        if resource_type == "group" && k == j
        then e ∷ inner state.group_operations j
        else inner state.group_operations j)
unfolding store_entry
inner-store_group state resource_type k j e = ground (
  arith,
  inner-prepend state.group_operations k j e,
  eq_iff resource_type "user",
  eq_iff resource_type "group",
  eq_iff "user" "group",
)

user_history :
    (state : AppState) (app_id id : String) (traces : List SyncTraceEntry)
    → inner (append_operation_logs state app_id traces).user_operations id
      ≡ added app_id "user" id traces ++ inner state.user_operations id
unfolding append_operation_logs
user_history state app_id id [] = refl
user_history state app_id id (t ∷ ts) =
    let e = sync_entry app_id t in
    let old = inner state.user_operations id in
    let later = added app_id "user" id ts in
    ground (
      arith,
      user_history (store_entry state t.resource_type t.resource_id e) app_id id ts,
      inner-store_user state t.resource_type t.resource_id id e,
      append_assoc later (e ∷ []) old,
    )

group_history :
    (state : AppState) (app_id id : String) (traces : List SyncTraceEntry)
    → inner (append_operation_logs state app_id traces).group_operations id
      ≡ added app_id "group" id traces ++ inner state.group_operations id
unfolding append_operation_logs
group_history state app_id id [] = refl
group_history state app_id id (t ∷ ts) =
    let e = sync_entry app_id t in
    let old = inner state.group_operations id in
    let later = added app_id "group" id ts in
    ground (
      arith,
      group_history (store_entry state t.resource_type t.resource_id e) app_id id ts,
      inner-store_group state t.resource_type t.resource_id id e,
      append_assoc later (e ∷ []) old,
    )

-- Storing the traces of a run puts in front of the history of each user, and of each group, an entry
-- for each trace about that resource, the latest first, and leaves the rest of every history as it
-- is: a trace about neither a user nor a group is stored nowhere.
pub append_operation_logs-histories :
    (state : AppState) (app_id id : String) (traces : List SyncTraceEntry)
    → (inner (append_operation_logs state app_id traces).user_operations id
        ≡ added app_id "user" id traces ++ inner state.user_operations id)
      × (inner (append_operation_logs state app_id traces).group_operations id
          ≡ added app_id "group" id traces ++ inner state.group_operations id)
append_operation_logs-histories state app_id id traces =
    (user_history state app_id id traces, group_history state app_id id traces)
