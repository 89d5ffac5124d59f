-- ===== src/Scim/Http.antt =====
-- The HTTP side of SCIMClient (internal/core/scim_transport.go): one request with its trace.
pub mod Delay
pub mod Send
pub mod Pages
pub mod Find
pub mod Entra
pub mod Calls
pub mod Writes
use scimtest.Prelude.{
  ℕ, String, Bool, Option, none, List, [], ◌∷◌, ltb, if◌then◌else◌, concat, Result, ok, err,
}
use scimtest.Prelude.Int.{ℤ}
use scimtest.Scim.Client.{ScimError, rate_limited, canceled, deadline_exceeded, not_found, other}
use scimtest.Scim.Resource.{ScimUserResource, ScimGroupResource, ScimMember}
use scimtest.Sync.Logs.{SyncTraceEntry}

-- SCIMClient: what it was made with. Its traces are in `Conn`.
pub record ScimClient : Type 0 where
  pub base_url : String
  pub token : String
  pub filter : Bool
  pub patch : Bool
  pub entra : Bool

pub record TraceTarget : Type 0 where
  pub resource_type : String
  pub resource_id : String
  pub label : String
  pub operation : String

-- The value of a patch operation: any of the types that the program puts there.
pub data PatchValue : Type 0 where
  no_value : PatchValue
  text : String → PatchValue
  user : ScimUserResource → PatchValue
  group : ScimGroupResource → PatchValue
  members : List ScimMember → PatchValue

pub record ScimPatchOperation : Type 0 where
  pub op : String
  pub path : String
  pub value : PatchValue

-- The bodies of the requests.
pub data Body : Type 0 where
  user : ScimUserResource → Body
  group : ScimGroupResource → Body
  patch : List String → List ScimPatchOperation → Body

pub record Request : Type 0 where
  pub method : String
  pub url : String
  pub authorization : String
  pub body : Option String

-- A response: `body` is what io.ReadAll returns, `close` an error of closing it.
pub record Response : Type 0 where
  pub status_code : ℕ
  pub status : String
  pub retry_after : String
  pub body : Result ScimError String
  pub close : Option ScimError

-- What becomes of a request: net/http refuses to build it, has no response, or has one.
pub data Outcome : Type 0 where
  unbuilt : ScimError → Outcome
  no_response : ScimError → Outcome
  answered : Response → Outcome

-- What the code takes from Go's library: fmt's %q and %d, url.PathEscape, url.Values.Encode,
-- len of a string, json.Marshal, strconv.Atoi and the names of two numbers' texts.
pub record GoLibrary : Type 0 where
  pub quote : String → String
  pub itoa : ℤ → String
  pub path_escape : String → String
  pub encode_query : List (String × String) → String
  pub byte_length : String → ℕ
  pub marshal : Body → String
  pub atoi : String → Option ℤ
  pub parse_duration : String → Option ℤ

-- net/http and the clock, over the state `W` of the world. `until` is http.ParseTime and the time
-- from now to it, in nanoseconds; `wait` waits, or tells why the context ended first.
pub record Http (W : Type 0) : Type 0 where
  pub exchange : Request → W → Outcome × W
  pub timestamp : W → String
  pub until : String → W → Option ℤ
  pub wait : ℤ → W → Option ScimError × W

-- The client's traces, and the calls of onRateLimit: the target, the delay, the header and the
-- number of the attempt.
pub record Conn (W : Type 0) : Type 0 where
  pub world : W
  pub traces : List SyncTraceEntry
  pub rate_limits : List (TraceTarget × ℤ × String × ℕ)

-- fmt.Errorf with %w keeps what errors.Is and errors.As see.
abbrev pub wrap : (String → String) → ScimError → ScimError
wrap f (rate_limited s) = rate_limited (f s)
wrap f (canceled s) = canceled (f s)
wrap f (deadline_exceeded s) = deadline_exceeded (f s)
wrap f (not_found s) = not_found (f s)
wrap f (other s) = other (f s)

-- `out`: how it is decoded, if there is one, and its value before that.
pub record Out (A : Type 0) : Type 0 where
  pub decode : Option (String → Result String A)
  pub zero : A

abbrev pub nothing : Out (Unit {0})
nothing = record { decode = none; zero = tt }

-- What one attempt comes to; a rate limit has its Retry-After header.
pub data Attempt (A : Type 0) : Type 0 where
  done : A → Attempt A
  failed : ScimError → Attempt A
  limited : String → ScimError → Attempt A

abbrev pub join : List String → String
join [] = ""
join (s ∷ ss) = concat s (join ss)

-- maxSCIMResponseBodyBytes
abbrev pub max_scim_response_body_bytes : ℕ
max_scim_response_body_bytes = 10485760

module _ (lib : GoLibrary) where
  -- readSCIMResponseBody
  unfoldable pub read_scim_response_body : Result ScimError String → Result ScimError String
  read_scim_response_body (err e) = err e
  read_scim_response_body (ok body) =
      if ltb max_scim_response_body_bytes (lib.byte_length body)
      then err (other "SCIM response body exceeds 10485760 bytes")
      else ok body
