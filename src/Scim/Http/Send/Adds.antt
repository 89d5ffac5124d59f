-- ===== src/Scim/Http/Send/Adds.antt =====
-- What doJSONOnce does after its request.
use scimtest.Prelude.{
  ◌+◌, ◌≤◌, String, Bool, true, false, Option, none, some, [], ◌∷◌, if◌then◌else◌, Result, ok, err,
  ◌≡◌, refl, arith, length, length-append,
}
use scimtest.Sync.Logs.{SyncTraceEntry}
use scimtest.Scim.Client.{ScimError}
use scimtest.Scim.Http.{
  ScimClient, Response, Outcome, unbuilt, no_response, answered, GoLibrary, Http, Conn, Out,
}
use scimtest.Scim.Http.Send.{
  add_trace, after_refusal, decoded, decode_body, after_body, after_read, unread, unclosed,
  after_response, after_exchange,
}

module _ {W : Type 0} where
  -- What comes after a request: a trace at most, and neither a request nor a wait.
  pub record Adds {R : Type 0} (p : Conn W) (r : R × Conn W) : Type 0 where
    pub traces : length r.1.traces ≤ length p.traces + 1
    pub waits : r.1.rate_limits ≡ p.rate_limits
    pub world : r.1.world ≡ p.world

  Adds-trace : {R : Type 0} (x : R) (t : SyncTraceEntry) (p : Conn W) → Adds p (x, add_trace t p)
  Adds-trace x t p = record {
    traces = omega (arith, length-append p.traces (t ∷ []));
    waits = refl;
    world = refl;
  }

  Adds-if :
      {R : Type 0} (p : Conn W) (b : Bool) (r s : R × Conn W)
      → Adds p r
      → Adds p s
      → Adds p (if b then r else s)
  Adds-if p true r s h k = h
  Adds-if p false r s h k = k

  module _ (lib : GoLibrary) (http : Http W) (client : ScimClient) (method path : String) where
    after_refusal-Adds :
        {A : Type 0} (out : Out A) (r : Response) (body : String) (t : SyncTraceEntry) (p : Conn W)
        → Adds p (after_refusal lib http client method path out r body t p)
    unfolding after_refusal
    after_refusal-Adds out r body t p = search (Adds-if, Adds-trace)

    decoded-Adds :
        {A : Type 0} (r : Result String A) (t : SyncTraceEntry) (p : Conn W)
        → Adds p (decoded lib http client method path r t p)
    unfolding decoded
    decoded-Adds (ok a) t p = Adds-trace _ _ p
    decoded-Adds (err s) t p = Adds-trace _ _ p

    decode_body-Adds :
        {A : Type 0} (d : Option (String → Result String A)) (z : A) (body : String)
        (t : SyncTraceEntry) (p : Conn W)
        → Adds p (decode_body lib http client method path d z body t p)
    unfolding decode_body
    decode_body-Adds none z body t p = Adds-trace _ _ p
    decode_body-Adds (some decode) z body t p = search (Adds-if, Adds-trace, decoded-Adds)

    after_read-Adds :
        {A : Type 0} (out : Out A) (r : Response) (body : Result ScimError String)
        (close : Option ScimError) (t : SyncTraceEntry) (p : Conn W)
        → Adds p (after_read lib http client method path out r body close t p)
    unfolding after_read unread unclosed after_body
    after_read-Adds out r (err e) none t p = Adds-trace _ _ p
    after_read-Adds out r (err e) (some e') t p = Adds-trace _ _ p
    after_read-Adds out r (ok body) (some e) t p = Adds-trace _ _ p
    after_read-Adds out r (ok body) none t p =
        search (Adds-if, after_refusal-Adds, decode_body-Adds)

    pub after_exchange-Adds :
        {A : Type 0} (out : Out A) (o : Outcome) (t : SyncTraceEntry) (p : Conn W)
        → Adds p (after_exchange lib http client method path out o t p)
    unfolding after_exchange after_response
    after_exchange-Adds out (unbuilt e) t p = record {
      traces = omega arith;
      waits = refl;
      world = refl;
    }
    after_exchange-Adds out (no_response e) t p = Adds-trace _ _ p
    after_exchange-Adds out (answered r) t p = after_read-Adds out r _ r.close _ p
