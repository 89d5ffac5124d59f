-- ===== src/Sync/Logs.antt =====
-- AppendOperationLogs and AppendLocalOperationLog: a resource's history, newest entry first. The
-- time of an entry is a parameter.
pub mod History
use scimtest.Prelude.{String, not, List, [], ◌∷◌, ◌==◌, if◌then◌else◌, trim_space, concat}
use scimtest.Prelude.Dict.{Dict, insert, inner}
use scimtest.Directory.{AppState, OperationLog}

pub record SyncTraceEntry : Type 0 where
  pub resource_type : String
  pub resource_id : String
  pub label : String
  pub operation : String
  pub method : String
  pub path : String
  pub request_body : String
  pub status : String
  pub response_retry_after : String
  pub response_body : String
  pub err : String
  pub created_at : String

unfoldable pub summarize_sync_trace : SyncTraceEntry → String
summarize_sync_trace trace =
    let operation = trim_space trace.operation in
    if not (trace.err == "")
    then (if operation == "" then "Failed" else concat "Failed to " operation)
    else if trace.operation == "create"
    then "Created"
    else if trace.operation == "delete"
    then "Deleted"
    else "Synced"

unfoldable pub sync_entry : String → SyncTraceEntry → OperationLog
unfolding summarize_sync_trace
sync_entry app_id trace = record {
  app_id = app_id;
  kind = "sync";
  summary = summarize_sync_trace trace;
  operation = trace.operation;
  method = trace.method;
  path = trace.path;
  request_body = trace.request_body;
  status = trace.status;
  response_retry_after = trace.response_retry_after;
  response_body = trace.response_body;
  err = trace.err;
  created_at = trace.created_at;
}

unfoldable pub prepend_entry :
    Dict (List OperationLog) → String → OperationLog → Dict (List OperationLog)
prepend_entry logs id entry = insert logs id (entry ∷ inner logs id)

-- An entry of a type other than user and group is stored nowhere.
unfoldable pub store_entry : AppState → String → String → OperationLog → AppState
unfolding prepend_entry
store_entry state resource_type id entry =
    if resource_type == "user"
    then record state { user_operations = prepend_entry state.user_operations id entry }
    else if resource_type == "group"
    then record state { group_operations = prepend_entry state.group_operations id entry }
    else state

unfoldable pub append_operation_logs : AppState → String → List SyncTraceEntry → AppState
unfolding store_entry sync_entry
append_operation_logs state app_id [] = state
append_operation_logs state app_id (trace ∷ traces) =
    append_operation_logs
      (store_entry state trace.resource_type trace.resource_id (sync_entry app_id trace)) app_id
      traces

unfoldable pub append_local_operation_log : String → AppState → String → String → String → AppState
unfolding store_entry
append_local_operation_log now state resource_type id summary =
    store_entry state resource_type id (record {
      app_id = "";
      kind = "local";
      summary = summary;
      operation = "";
      method = "";
      path = "";
      request_body = "";
      status = "";
      response_retry_after = "";
      response_body = "";
      err = "";
      created_at = now;
    })
