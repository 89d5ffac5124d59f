-- ===== src/Samples.antt =====
-- Sample data for the examples: a small directory, one app, and a SCIM server that counts requests.
pub mod Web
use scimtest.Prelude.{ℕ, suc, true, false, [], ◌∷◌, ok, err, ◌==◌, if◌then◌else◌}
use scimtest.Prelude.Dict.{Dict}
use scimtest.Directory.{
  Config, User, Group, App, AppState, ResourceSyncState, OidcClaimMappings, SamlAttributeMappings,
}
use scimtest.Scim.Client.{Client, not_found, rate_limited, other}
use scimtest.Scim.Resource.{new_user_resource}

abbrev pub no_config : Config
no_config = record {
  base_url = "";
  bearer_token = "";
  auto_open_sync_trace = false;
  scim_disabled = false;
  idp_base_url = "";
  trust_forwarded_headers = false;
  tunnel_instance_id = "";
  signing_private_key_pem = "";
  signing_certificate_pem = "";
  filter_supported = false;
  patch_supported = false;
  persona = "";
  scim_enterprise_used = false;
  signing_keys = [];
}

abbrev pub ada : User
ada = record {
  id = "usr_ada";
  given_name = "Ada";
  family_name = "Lovelace";
  email = "ada@example.com";
  username = "ada";
  active = true;
  employee_number = "";
  cost_center = "";
  organization = "";
  division = "";
  department = "";
  manager_id = "";
  attributes = [];
  remote_id = "r1";
  dirty = false;
  deleted = false;
  last_error = "";
}

-- A report of Ada's that the server has not seen.
abbrev pub bob : User
bob = record ada {
  id = "usr_bob";
  given_name = "Bob";
  username = "bob";
  manager_id = "usr_ada";
  remote_id = "";
  dirty = true;
}

-- Deleted here, and still on the server.
abbrev pub cid : User
cid = record ada {
  id = "usr_cid";
  given_name = "Cid";
  remote_id = "r3";
  dirty = true;
  deleted = true;
}

abbrev pub staff : Group
staff = record {
  id = "grp_staff";
  display_name = "Staff";
  member_ids = "usr_ada" ∷ "usr_cid" ∷ [];
  remote_id = "g1";
  dirty = false;
  deleted = false;
  last_error = "";
}

abbrev pub no_oidc : OidcClaimMappings
no_oidc = record {
  name = "";
  given_name = "";
  family_name = "";
  username = "";
  email = "";
  groups = "";
}

abbrev pub no_saml : SamlAttributeMappings
no_saml = record { given_name = ""; family_name = ""; username = ""; email = ""; groups = "" }

abbrev pub hr : App
hr = record {
  environment_name = "";
  id = "app_hr";
  name = "HR";
  slug = "hr";
  protocol = "scim";
  oidc_client_id = "";
  oidc_client_secret = "";
  oidc_public_client = false;
  oidc_redirect_uris = [];
  allow_any_oidc_redirect = false;
  oidc_jwt_access_tokens = false;
  oidc_access_token_audience = "";
  saml_entity_id = "";
  saml_acs_url = "";
  saml_audience = "";
  saml_name_id_field = "";
  saml_name_id_format = "";
  saml_email_attribute_name = "";
  saml_request_cert_pem = "";
  saml_encryption_cert_pem = "";
  saml_encryption_algorithm = "";
  saml_signing_mode = "";
  include_groups_claim = false;
  oidc_claim_mappings = no_oidc;
  saml_attribute_mappings = no_saml;
  chooser_mode = "";
  scim_enabled = true;
  scim_base_url = "https://hr.example/scim";
  scim_bearer_token = "token";
  scim_auto_open_trace = false;
  scim_capabilities_known = false;
  scim_patch_supported = false;
  scim_filter_supported = true;
  persona = "";
  groups_overage_threshold = 0;
  oidc_backchannel_logout_uri = "";
  oidc_backchannel_logout_session_required = false;
  saml_slo_url = "";
}

abbrev pub no_rows : Dict (Dict ResourceSyncState)
no_rows = []

abbrev pub directory : AppState
directory = record {
  environment = record { id = "env"; name = "Env"; slug = "env" };
  environments = [];
  config = no_config;
  users = ada ∷ bob ∷ cid ∷ [];
  groups = staff ∷ [];
  apps = hr ∷ [];
  user_operations = [];
  group_operations = [];
  user_sync = no_rows;
  group_sync = no_rows;
}

-- A tombstone that a sync has settled, and the row of a user that the server has.
abbrev pub settled_row : ResourceSyncState
settled_row = record { remote_id = ""; dirty = false; deleted = true; last_error = "" }

abbrev pub synced_row : ResourceSyncState
synced_row = record settled_row { remote_id = "r1"; deleted = false }

abbrev pub after_sync : AppState
after_sync = record directory {
  user_sync = ("app_hr", ("usr_cid", settled_row) ∷ ("usr_ada", synced_row) ∷ []) ∷ [];
}

-- The state of the client is the number of requests; the server adopts nobody, has lost "r1", and
-- answers the deletion of "r4" with a rate limit.
abbrev pub counting : Client ℕ
counting = record {
  create_user = λ u d n. (ok ("r2", false), suc n);
  replace_user = λ u d n. (ok tt, suc n);
  delete_user =
      λ u n. (if u.remote_id == "r4" then err (rate_limited "slow down") else ok tt, suc n);
  get_user = λ u n. (
    if u.remote_id == "r1"
        then err (not_found "gone")
        else ok (new_user_resource u (record { enterprise = false; remote_ids = [] })),
    suc n,
  );
  create_group = λ g us n. (ok ("g2", false), suc n);
  replace_group = λ g us n. (ok tt, suc n);
  delete_group = λ g n. (ok tt, suc n);
  get_group = λ g n. (err (other "500"), suc n);
  describe = λ e. "bad group";
}
