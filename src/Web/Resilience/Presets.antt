-- ===== src/Web/Resilience/Presets.antt =====
-- resiliencePresets: the scenarios.
use scimtest.Prelude.{true, false, List, [], ◌∷◌}
use scimtest.Prelude.Int.{pos, negsuc}
use scimtest.Web.Fault.{FaultOptions}
use scimtest.Web.Resilience.{Action, Preset}

-- Go's zero values.
abbrev pub no_faults : FaultOptions
no_faults = record {
  id_token_ttl = pos 0;
  id_token_ttl_set = false;
  assertion_ttl = pos 0;
  assertion_ttl_set = false;
  clock_skew = pos 0;
  break_signature = false;
  drop_claims = [];
  token_error = "";
  saml_status = "";
  tamper = [];
}

abbrev pub no_action : Action
no_action = record {
  run_id = "";
  faults = no_faults;
  status = pos 0;
  oauth_error = "";
  retry_after = "";
  delay = pos 0;
  stale_jwks = false;
}

abbrev wrong : FaultOptions → Action
wrong faults = record no_action { faults = faults }

abbrev pub token_outage : Preset
token_outage = record {
  id = "token-outage";
  name = "Token endpoint outage";
  summary = "Return a temporary error before recovering normally.";
  protocol = "oidc";
  phase = "token";
  action = record no_action {
    status = pos 503;
    oauth_error = "temporarily_unavailable";
    retry_after = "5";
  };
  default_count = pos 2;
  allow_count = true;
}

abbrev pub slow_token : Preset
slow_token = record {
  id = "slow-token";
  name = "Slow token endpoint";
  summary = "Delay token redemption long enough to expose timeout handling.";
  protocol = "oidc";
  phase = "token";
  action = record no_action { delay = pos 3_000_000_000 };
  default_count = pos 1;
  allow_count = false;
}

abbrev pub stale_jwks : Preset
stale_jwks = record {
  id = "stale-jwks";
  name = "Stale JWKS";
  summary =
      "Serve a JWKS without the current signing key, like a cached or lagging key set, to test key refetch logic.";
  protocol = "oidc";
  phase = "jwks";
  action = record no_action { stale_jwks = true };
  default_count = pos 1;
  allow_count = true;
}

abbrev pub expired_token : Preset
expired_token = record {
  id = "expired-token";
  name = "Expired ID token";
  summary = "Issue a correctly formed ID token that is already expired.";
  protocol = "oidc";
  phase = "flow";
  action =
      wrong (record no_faults { id_token_ttl = negsuc 59_999_999_999; id_token_ttl_set = true });
  default_count = pos 1;
  allow_count = false;
}

abbrev pub broken_signature : Preset
broken_signature = record {
  id = "broken-signature";
  name = "Invalid signature";
  summary = "Corrupt the token signature, or every SAML signature, without changing its shape.";
  protocol = "both";
  phase = "flow";
  action = wrong (record no_faults { break_signature = true });
  default_count = pos 1;
  allow_count = false;
}

abbrev pub missing_email : Preset
missing_email = record {
  id = "missing-email";
  name = "Missing email claim";
  summary = "Omit email from the ID token and userinfo response.";
  protocol = "oidc";
  phase = "flow";
  action = wrong (record no_faults { drop_claims = "email" ∷ [] });
  default_count = pos 1;
  allow_count = false;
}

abbrev pub unsigned_id_token : Preset
unsigned_id_token = record {
  id = "unsigned-id-token";
  name = "Unsigned ID token";
  summary = "Issue an alg none ID token with no signature.";
  protocol = "oidc";
  phase = "flow";
  action = wrong (record no_faults { tamper = "alg_none" ∷ [] });
  default_count = pos 1;
  allow_count = false;
}

abbrev pub wrong_audience : Preset
wrong_audience = record {
  id = "wrong-audience";
  name = "Wrong audience";
  summary = "Issue a token or assertion for a different audience.";
  protocol = "both";
  phase = "flow";
  action = wrong (record no_faults { tamper = "wrong_audience" ∷ [] });
  default_count = pos 1;
  allow_count = false;
}

abbrev pub replayed_assertion : Preset
replayed_assertion = record {
  id = "replayed-assertion";
  name = "Replayed SAML assertion";
  summary = "Reuse the previous assertion ID in a fresh, signed response.";
  protocol = "saml";
  phase = "flow";
  action = wrong (record no_faults { tamper = "replayed_assertion" ∷ [] });
  default_count = pos 1;
  allow_count = false;
}

abbrev pub saml_auth_failed : Preset
saml_auth_failed = record {
  id = "saml-auth-failed";
  name = "SAML authentication failure";
  summary = "Return an AuthnFailed status instead of a signed assertion.";
  protocol = "saml";
  phase = "flow";
  action =
      wrong (record no_faults { saml_status = "urn:oasis:names:tc:SAML:2.0:status:AuthnFailed" });
  default_count = pos 1;
  allow_count = false;
}

abbrev pub resilience_presets : List Preset
resilience_presets =
    token_outage ∷ slow_token ∷ stale_jwks ∷ expired_token ∷ broken_signature ∷ missing_email
    ∷ unsigned_id_token ∷ wrong_audience ∷ replayed_assertion ∷ saml_auth_failed ∷ []
