-- ===== src/Scim/Client.antt =====
-- What the engine asks of the SCIM client: its calls, over the state `W` of the client and the
-- remote server. A call returns its result, or why it failed, and the state that it leaves.
use scimtest.Prelude.{List, String, Bool, true, false, Result}
use scimtest.Directory.{User, Group}
use scimtest.Scim.Resource.{GroupError, UserDirectory, ScimUserResource, ScimGroupResource}

-- The errors that the engine tells apart, each with its text: a rate limit, a cancelled or expired
-- context, a 404 or 410 response, and any other.
pub data ScimError : Type 0 where
  rate_limited : String → ScimError
  canceled : String → ScimError
  deadline_exceeded : String → ScimError
  not_found : String → ScimError
  other : String → ScimError

-- err.Error()
unfoldable pub message : ScimError → String
message (rate_limited s) = s
message (canceled s) = s
message (deadline_exceeded s) = s
message (not_found s) = s
message (other s) = s

unfoldable pub is_stopping_scim_error : ScimError → Bool
is_stopping_scim_error (rate_limited s) = true
is_stopping_scim_error (canceled s) = true
is_stopping_scim_error (deadline_exceeded s) = true
is_stopping_scim_error _ = false

-- A call's answer, and the state after it.
abbrev pub Call : Type 0 → Type 0 → Type 0
Call W A = W → Result ScimError A × W

-- Creation returns the remote ID, and whether the resource was there already and adopted.
-- `describe` is the text of a payload error, which quotes names as Go's %q does.
pub record Client (W : Type 0) : Type 0 where
  pub create_user : User → UserDirectory → Call W (String × Bool)
  pub replace_user : User → UserDirectory → Call W (Unit {0})
  pub delete_user : User → Call W (Unit {0})
  pub get_user : User → Call W ScimUserResource
  pub create_group : Group → List User → Call W (String × Bool)
  pub replace_group : Group → List User → Call W (Unit {0})
  pub delete_group : Group → Call W (Unit {0})
  pub get_group : Group → Call W ScimGroupResource
  pub describe : GroupError → String
