-- ===== src/Directory/Models.antt =====
-- The records of internal/core/state_models.go. A map of strings is a `Dict`; a time is the number
-- of seconds since the epoch, zero for Go's zero time.
use scimtest.Prelude.{ℕ, String, Bool, List, false}
use scimtest.Prelude.Dict.{Dict}

pub record Environment : Type 0 where
  pub id : String
  pub name : String
  pub slug : String

pub record SigningKey : Type 0 where
  pub id : String
  pub private_key_pem : String
  pub certificate_pem : String
  pub created_at : ℕ
  pub published_until : ℕ

pub record Config : Type 0 where
  pub base_url : String
  pub bearer_token : String
  pub auto_open_sync_trace : Bool
  pub scim_disabled : Bool
  pub idp_base_url : String
  pub trust_forwarded_headers : Bool
  pub tunnel_instance_id : String
  pub signing_private_key_pem : String
  pub signing_certificate_pem : String
  pub filter_supported : Bool
  pub patch_supported : Bool
  pub persona : String
  pub scim_enterprise_used : Bool
  pub signing_keys : List SigningKey

pub record User : Type 0 where
  pub id : String
  pub given_name : String
  pub family_name : String
  pub email : String
  pub username : String
  pub active : Bool
  pub employee_number : String
  pub cost_center : String
  pub organization : String
  pub division : String
  pub department : String
  pub manager_id : String
  pub attributes : Dict String
  pub remote_id : String
  pub dirty : Bool
  pub deleted : Bool
  pub last_error : String

pub record Group : Type 0 where
  pub id : String
  pub display_name : String
  pub member_ids : List String
  pub remote_id : String
  pub dirty : Bool
  pub deleted : Bool
  pub last_error : String

-- One app's remote state for a directory resource.
pub record ResourceSyncState : Type 0 where
  pub remote_id : String
  pub dirty : Bool
  pub deleted : Bool
  pub last_error : String

-- Go's zero value.
abbrev pub zero_sync : ResourceSyncState
zero_sync = record { remote_id = ""; dirty = false; deleted = false; last_error = "" }

pub record OperationLog : Type 0 where
  pub app_id : String
  pub kind : String
  pub summary : String
  pub operation : String
  pub method : String
  pub path : String
  pub request_body : String
  pub status : String
  pub response_retry_after : String
  pub response_body : String
  pub err : String
  pub created_at : String

pub record OidcClaimMappings : Type 0 where
  pub name : String
  pub given_name : String
  pub family_name : String
  pub username : String
  pub email : String
  pub groups : String

pub record SamlAttributeMappings : Type 0 where
  pub given_name : String
  pub family_name : String
  pub username : String
  pub email : String
  pub groups : String

pub record App : Type 0 where
  pub environment_name : String
  pub id : String
  pub name : String
  pub slug : String
  pub protocol : String
  pub oidc_client_id : String
  pub oidc_client_secret : String
  pub oidc_public_client : Bool
  pub oidc_redirect_uris : List String
  pub allow_any_oidc_redirect : Bool
  pub oidc_jwt_access_tokens : Bool
  pub oidc_access_token_audience : String
  pub saml_entity_id : String
  pub saml_acs_url : String
  pub saml_audience : String
  pub saml_name_id_field : String
  pub saml_name_id_format : String
  pub saml_email_attribute_name : String
  pub saml_request_cert_pem : String
  pub saml_encryption_cert_pem : String
  pub saml_encryption_algorithm : String
  pub saml_signing_mode : String
  pub include_groups_claim : Bool
  pub oidc_claim_mappings : OidcClaimMappings
  pub saml_attribute_mappings : SamlAttributeMappings
  pub chooser_mode : String
  pub scim_enabled : Bool
  pub scim_base_url : String
  pub scim_bearer_token : String
  pub scim_auto_open_trace : Bool
  pub scim_capabilities_known : Bool
  pub scim_patch_supported : Bool
  pub scim_filter_supported : Bool
  pub persona : String
  pub groups_overage_threshold : ℕ
  pub oidc_backchannel_logout_uri : String
  pub oidc_backchannel_logout_session_required : Bool
  pub saml_slo_url : String

pub record AppState : Type 0 where
  pub environment : Environment
  pub environments : List Environment
  pub config : Config
  pub users : List User
  pub groups : List Group
  pub apps : List App
  pub user_operations : Dict (List OperationLog)
  pub group_operations : Dict (List OperationLog)
  pub user_sync : Dict (Dict ResourceSyncState)
  pub group_sync : Dict (Dict ResourceSyncState)
