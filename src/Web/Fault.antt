-- ===== src/Web/Fault.antt =====
-- faultOptions (internal/web/fault.go): what a response of the identity provider does wrong.
use scimtest.Prelude.{
  String, Bool, not, ◌||◌, List, [], ◌∷◌, ◌++◌, length, eqb, ◌==◌, if◌then◌else◌, join_with,
}
use scimtest.Prelude.Int.{ℤ, pos, eqb_ℤ}
use scimtest.Scim.Http.{join}

-- A tamperFault is the name of a validation rule. A time.Duration is a number of nanoseconds.
pub record FaultOptions : Type 0 where
  pub id_token_ttl : ℤ
  pub id_token_ttl_set : Bool
  pub assertion_ttl : ℤ
  pub assertion_ttl_set : Bool
  pub clock_skew : ℤ
  pub break_signature : Bool
  pub drop_claims : List String
  pub token_error : String
  pub saml_status : String
  pub tamper : List String

-- What the code takes from Go's library: the text of a duration, a status or a number, and what
-- follows the last colon of a text.
pub record Texts : Type 0 where
  pub duration : ℤ → String
  pub itoa : ℤ → String
  pub after_last_colon : String → String

-- active
unfoldable pub is_active_fault : FaultOptions → Bool
is_active_fault f =
    f.id_token_ttl_set
    || f.assertion_ttl_set
    || not (eqb_ℤ f.clock_skew (pos 0))
    || f.break_signature
    || not (eqb (length f.drop_claims) 0)
    || not (f.token_error == "")
    || not (f.saml_status == "")
    || not (eqb (length f.tamper) 0)

part : Bool → List String → List String
part shown words = if shown then join words ∷ [] else []

-- describe
unfoldable pub describe_fault : Texts → FaultOptions → String
unfolding part
describe_fault texts f = join_with "; " (
    part f.id_token_ttl_set ("ID token TTL " ∷ texts.duration f.id_token_ttl ∷ [])
    ++ (part f.assertion_ttl_set ("assertion TTL " ∷ texts.duration f.assertion_ttl ∷ [])
        ++ (part (not (eqb_ℤ f.clock_skew (pos 0)))
              ("clock skew " ∷ texts.duration f.clock_skew ∷ [])
            ++ (part f.break_signature ("broken signature" ∷ [])
                ++ (part (not (eqb (length f.drop_claims) 0))
                      ("dropped claims " ∷ join_with "," f.drop_claims ∷ [])
                    ++ (part (not (f.token_error == "")) ("token error " ∷ f.token_error ∷ [])
                        ++ (part (not (f.saml_status == ""))
                              ("SAML status " ∷ texts.after_last_colon f.saml_status ∷ [])
                            ++ part (not (eqb (length f.tamper) 0))
                                ("tamper " ∷ join_with "," f.tamper ∷ []))))))))
