-- ===== src/Scim/Http/Send.antt =====
-- doJSONOnce and doJSON: a request with its trace, and the retries after a rate limit.
pub mod Adds
pub mod Bounds
use mathlib.Core.Option
use scimtest.Prelude.{
  ℕ, zero, suc, ◌+◌, String, Bool, not, ◌&&◌, ◌||◌, Option, none, some, [], ◌∷◌, ◌++◌, ltb, leb,
  eqb, ◌==◌, if◌then◌else◌, from_option, trim_space, Result, ok, err,
}
use scimtest.Prelude.Int.{ℤ, ltb_ℤ}
use scimtest.Sync.Logs.{SyncTraceEntry}
use scimtest.Scim.Client.{ScimError, rate_limited, not_found, other, message}
use scimtest.Scim.Http.{
  ScimClient, TraceTarget, Body, Request, Response, Outcome, unbuilt, no_response, answered,
  GoLibrary, Http, Conn, Out, Attempt, done, failed, limited, wrap, join, read_scim_response_body,
}
use scimtest.Scim.Http.Delay.{
  max_scim_rate_limit_retries, max_automatic_rate_limit_delay, rate_limit_retry_delay,
  parse_retry_after,
}

-- A call over the connection.
abbrev pub Over : Type 0 → Type 0 → Type 0
Over W A = Conn W → Result ScimError A × Conn W

-- c.traces = append(c.traces, trace)
abbrev pub add_trace : {W : Type 0} → SyncTraceEntry → Conn W → Conn W
add_trace t conn = record conn { traces = conn.traces ++ t ∷ [] }

-- RateLimitError.Error
rate_limit_text : String → String → String
rate_limit_text status retry_after =
    if not (retry_after == "")
    then join ("SCIM server rate limit hit (" ∷ status ∷ "). Try again " ∷ retry_after ∷ "." ∷ [])
    else join ("SCIM server rate limit hit (" ∷ status ∷ "). Try again later." ∷ [])

abbrev is_missing : ℕ → Bool
is_missing status_code = eqb status_code 404 || eqb status_code 410

module _ (lib : GoLibrary) {W : Type 0} (http : Http W) (client : ScimClient)
    (method path : String) where
  abbrev fails : {A : Type 0} → SyncTraceEntry → ScimError → Conn W → Attempt A × Conn W
  fails trace e conn = (failed e, add_trace (record trace { err = message e }) conn)

  -- A response outside 200 to 299.
  unfoldable pub after_refusal :
      {A : Type 0} → Out A → Response → String → SyncTraceEntry → Conn W → Attempt A × Conn W
  unfolding parse_retry_after rate_limit_text
  after_refusal out r body trace conn =
      let text = trim_space body in
      let said = "SCIM " ∷ method ∷ " " ∷ path ∷ " returned " ∷ r.status ∷ ": " ∷ [] in
      let e = rate_limited (
        rate_limit_text r.status
          (parse_retry_after lib http trace.response_retry_after conn.world)) in
      if method == "DELETE" && is_missing r.status_code
      then (done out.zero, add_trace trace conn)
      else if is_missing r.status_code
      then fails trace (not_found (join (said ++ "resource not found" ∷ []))) conn
      else if eqb r.status_code 429
      then (limited trace.response_retry_after e, add_trace (record trace { err = message e }) conn)
      else if trace.request_body == ""
      then fails trace (other (join (said ++ text ∷ []))) conn
      else fails trace (other (join (said ++ text ∷ " | request body: " ∷ trace.request_body ∷ [])))
          conn

  unfoldable pub decoded :
      {A : Type 0} → Result String A → SyncTraceEntry → Conn W → Attempt A × Conn W
  decoded (ok a) trace conn = (done a, add_trace trace conn)
  decoded (err s) trace conn =
      fails trace (other (join ("decode SCIM " ∷ method ∷ " " ∷ path ∷ " response: " ∷ s ∷ [])))
        conn

  unfoldable pub decode_body :
      {A : Type 0}
      → Option (String → Result String A)
      → A
      → String
      → SyncTraceEntry
      → Conn W
      → Attempt A × Conn W
  unfolding decoded
  decode_body none zero_value body trace conn = (done zero_value, add_trace trace conn)
  decode_body (some decode) zero_value body trace conn =
      if body == ""
      then (done zero_value, add_trace trace conn)
      else decoded (decode body) trace conn

  -- A body that was read and closed.
  unfoldable pub after_body :
      {A : Type 0} → Out A → Response → String → SyncTraceEntry → Conn W → Attempt A × Conn W
  unfolding after_refusal decode_body
  after_body out r body trace conn =
      if ltb r.status_code 200 || leb 300 r.status_code
      then after_refusal out r body trace conn
      else decode_body out.decode out.zero body trace conn

  -- An error of reading the body, with the error of closing it.
  unread :
      {A : Type 0} → ScimError → Option ScimError → SyncTraceEntry → Conn W → Attempt A × Conn W
  unread e none trace conn =
      let said : String → String =
        λ m. join ("read SCIM " ∷ method ∷ " " ∷ path ∷ " response: " ∷ m ∷ []) in
      (failed (wrap said e), add_trace (record trace { err = message e }) conn)
  unread e (some e') trace conn =
      let closing : String → String = λ m. join (m ∷ " (close body: " ∷ message e' ∷ ")" ∷ []) in
      let said : String → String =
        λ m. join ("read SCIM " ∷ method ∷ " " ∷ path ∷ " response: " ∷ closing m ∷ []) in
      (failed (wrap said e), add_trace (record trace { err = closing (message e) }) conn)

  unclosed : {A : Type 0} → ScimError → SyncTraceEntry → Conn W → Attempt A × Conn W
  unclosed e trace conn =
      let said : String → String =
        λ m. join ("close SCIM " ∷ method ∷ " " ∷ path ∷ " response body: " ∷ m ∷ []) in
      (failed (wrap said e), add_trace (record trace { err = message e }) conn)

  unfoldable pub after_read :
      {A : Type 0}
      → Out A
      → Response
      → Result ScimError String
      → Option ScimError
      → SyncTraceEntry
      → Conn W
      → Attempt A × Conn W
  unfolding after_body unread unclosed
  after_read out r (err e) close trace conn = unread e close trace conn
  after_read out r (ok body) (some e) trace conn =
      unclosed e (record trace { response_body = trim_space body }) conn
  after_read out r (ok body) none trace conn =
      after_body out r body (record trace { response_body = trim_space body }) conn

  unfoldable pub after_response :
      {A : Type 0} → Out A → Response → SyncTraceEntry → Conn W → Attempt A × Conn W
  unfolding read_scim_response_body after_read
  after_response out r trace conn =
      let trace' = record trace {
        response_retry_after = trim_space r.retry_after;
        status = r.status;
      } in
      after_read out r (read_scim_response_body lib r.body) r.close trace' conn

  -- net/http refuses to build a request without a trace.
  unfoldable pub after_exchange :
      {A : Type 0} → Out A → Outcome → SyncTraceEntry → Conn W → Attempt A × Conn W
  unfolding after_response
  after_exchange out (unbuilt e) trace conn = (
    failed (wrap (λ m. join ("build SCIM " ∷ method ∷ " " ∷ path ∷ " request: " ∷ m ∷ [])) e),
    conn,
  )
  after_exchange out (no_response e) trace conn = (
    failed (wrap (λ m. join ("run SCIM " ∷ method ∷ " " ∷ path ∷ " request: " ∷ m ∷ [])) e),
    add_trace (record trace { err = message e }) conn,
  )
  after_exchange out (answered r) trace conn = after_response out r trace conn

  new_trace : Option String → TraceTarget → W → SyncTraceEntry
  new_trace payload target w = record {
    resource_type = target.resource_type;
    resource_id = target.resource_id;
    label = target.label;
    operation = target.operation;
    method = method;
    path = path;
    request_body = from_option payload "";
    status = "";
    response_retry_after = "";
    response_body = "";
    err = "";
    created_at = http.timestamp w;
  }

  -- The headers are those of every request, but for the token.
  new_request : Option String → Request
  new_request payload = record {
    method = method;
    url = join (client.base_url ∷ path ∷ []);
    authorization = join ("Bearer " ∷ client.token ∷ []);
    body = payload;
  }

  unfoldable pub do_json_once :
      {A : Type 0} → Option String → Out A → TraceTarget → Conn W → Attempt A × Conn W
  unfolding new_trace new_request after_exchange
  do_json_once payload out target conn =
      let (outcome, w) = http.exchange (new_request payload) conn.world in
      after_exchange out outcome (new_trace payload target conn.world) (record conn { world = w })

  -- The last attempt: a rate limit is an error like any other.
  unfoldable pub after_last : {A : Type 0} → Attempt A × Conn W → Result ScimError A × Conn W
  after_last (done a, conn) = (ok a, conn)
  after_last (failed e, conn) = (err e, conn)
  after_last (limited header e, conn) = (err e, conn)

  -- The context may end while the code waits.
  unfoldable pub after_wait :
      {A : Type 0} → Over W A → Option ScimError × W → Conn W → Result ScimError A × Conn W
  after_wait again (none, w) conn = again (record conn { world = w })
  after_wait again (some e, w) conn = (
    err (wrap (λ m. join ("wait for SCIM rate limit retry: " ∷ m ∷ [])) e),
    record conn { world = w },
  )

  -- An attempt that may be followed by another. Where nobody listens to rate limits the calls of
  -- onRateLimit are recorded all the same.
  unfoldable pub after_attempt :
      {A : Type 0} → ℕ → TraceTarget → Over W A → Attempt A × Conn W → Result ScimError A × Conn W
  unfolding after_wait rate_limit_retry_delay
  after_attempt attempt target again (done a, conn) = (ok a, conn)
  after_attempt attempt target again (failed e, conn) = (err e, conn)
  after_attempt attempt target again (limited header e, conn) =
      let delay = rate_limit_retry_delay lib http header attempt conn.world in
      let limit : TraceTarget × ℤ × String × ℕ = (target, delay, header, attempt + 1) in
      if ltb_ℤ max_automatic_rate_limit_delay delay
      then (err e, conn)
      else after_wait again (http.wait delay conn.world)
          (record conn { rate_limits = conn.rate_limits ++ limit ∷ [] })

  -- The attempts from one number on, with the retries that are left after it.
  unfoldable pub do_json_from :
      {A : Type 0} → ℕ → ℕ → Option String → Out A → TraceTarget → Over W A
  unfolding do_json_once after_last after_attempt
  do_json_from zero attempt payload out target conn =
      after_last (do_json_once payload out target conn)
  do_json_from (suc left) attempt payload out target conn =
      after_attempt attempt target (do_json_from left (attempt + 1) payload out target)
        (do_json_once payload out target conn)

  unfoldable pub do_json : {A : Type 0} → Option Body → Out A → TraceTarget → Over W A
  unfolding do_json_from
  do_json body out target =
      do_json_from max_scim_rate_limit_retries 0 (Option.map lib.marshal body) out target
