-- ===== src/Samples/Web.antt =====
-- A small HTTP world: a server that answers every request, and a library that reads one number.
use scimtest.Prelude.{ℕ, suc, true, false, [], ◌∷◌, none, some, ok, ◌==◌, if◌then◌else◌}
use scimtest.Prelude.Int.{pos}
use scimtest.Scim.Resource.{ScimUserResource, ScimGroupResource}
use scimtest.Scim.Http.{ScimClient, TraceTarget, GoLibrary, Http, Conn, answered}
use scimtest.Scim.Http.Pages.{empty_list_response}
use scimtest.Scim.Http.Calls.{Decoders}

abbrev pub library : GoLibrary
library = record {
  quote = λ s. s;
  itoa = λ z. "1";
  path_escape = λ s. s;
  encode_query = λ q. "filter=";
  byte_length = λ s. 2;
  marshal = λ b. "{}";
  atoi = λ s. if s == "5" then some (pos 5) else none;
  parse_duration = λ s. none;
}

-- The world is the number of requests.
abbrev pub web : Http ℕ
web = record {
  exchange = λ r n. (
    answered (record {
      status_code = 200;
      status = "200 OK";
      retry_after = "";
      body = ok "{}";
      close = none;
    }),
    suc n,
  );
  timestamp = λ n. "2024-01-01T00:00:00Z";
  until = λ s n. none;
  wait = λ d n. (none, n);
}

abbrev pub scim : ScimClient
scim = record {
  base_url = "https://hr.example/scim";
  token = "token";
  filter = true;
  patch = false;
  entra = false;
}

abbrev pub remote_bob : ScimUserResource
remote_bob = record {
  schemas = [];
  id = "r9";
  external_id = "usr_bob";
  user_name = "bob";
  display_name = "Bob";
  active = none;
  name = none;
  emails = [];
  enterprise = none;
}

abbrev pub remote_staff : ScimGroupResource
remote_staff = record {
  schemas = [];
  id = "g9";
  external_id = "";
  display_name = "Staff";
  members = record { value = " r1"; type = "" } ∷ record { value = "r7"; type = "" } ∷ [];
}

-- Bob is found, and no group is.
abbrev pub decoders : Decoders
decoders = record {
  user = λ s. ok remote_bob;
  group = λ s. ok remote_staff;
  users = λ s. ok (record empty_list_response { resources = remote_bob ∷ [] });
  groups = λ s. ok empty_list_response;
}

abbrev pub idle : Conn ℕ
idle = record { world = 0; traces = []; rate_limits = [] }

abbrev pub bobs : TraceTarget
bobs = record {
  resource_type = "user";
  resource_id = "usr_bob";
  label = "Bob";
  operation = "adopt";
}
