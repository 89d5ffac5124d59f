-- ===== src/Directory/Attributes.antt =====
-- The checks of internal/core/user_attributes.go: managers and custom attributes.
pub mod Valid
use Prim.Native.Char.{Char, code}
use Prim.Native.Nat.{Ordering}
use Prim.Native.String.{String, compare}
use scimtest.Prelude.{
  ℕ, Bool, true, false, not, ◌&&◌, ◌||◌, Option, none, some, List, [], ◌∷◌, map, length, any, ltb,
  leb, eqb, ◌==◌, if◌then◌else◌, from_option, is_some,
}
use scimtest.Prelude.Dict.{Dict, lookup}
use scimtest.Directory.Models.{User}
use scimtest.Directory.Users.{user_manager}

-- What the code takes from Go's strings: the number of bytes of a text.
pub record Strings : Type 0 where
  pub byte_length : String → ℕ

-- The byte order of two texts in UTF-8 is that of their characters.
abbrev before : String → String → Bool
before s t = elim (compare s t) [ Ordering.gt ↦ false | _ ↦ true ]

abbrev insert_sorted : String → List String → List String
insert_sorted s [] = s ∷ []
insert_sorted s (t ∷ ts) =
    let rest = insert_sorted s ts in if before s t then s ∷ t ∷ ts else t ∷ rest

-- sort.Strings
abbrev pub sort : List String → List String
sort [] = []
sort (s ∷ ss) = insert_sorted s (sort ss)

unfoldable pub custom_attribute_names : Dict String → List String
custom_attribute_names attributes = sort (map (λ a. a.0) attributes)

abbrev pub reserved_attribute_names : List String
reserved_attribute_names =
    "iss" ∷ "sub" ∷ "aud" ∷ "exp" ∷ "nbf" ∷ "iat" ∷ "jti" ∷ "nonce" ∷ "auth_time" ∷ "acr" ∷ "amr"
    ∷ "azp" ∷ "at_hash" ∷ "c_hash" ∷ "s_hash" ∷ "sid" ∷ "cnf" ∷ "client_id" ∷ "scope" ∷ "events"
    ∷ "_claim_names" ∷ "_claim_sources" ∷ "employeeNumber" ∷ "costCenter" ∷ "organization"
    ∷ "division" ∷ "department" ∷ "manager" ∷ []

unfoldable pub is_reserved_attribute_name : String → Bool
is_reserved_attribute_name name = any (λ r. r == name) reserved_attribute_names

-- The two classes of characters of customAttributeNamePattern.
is_name_start : Char → Bool
is_name_start c =
    let k = code c in (leb 0x41 k && leb k 0x5a) || (leb 0x61 k && leb k 0x7a) || eqb k 0x5f

is_name_char : Char → Bool
unfolding is_name_start
is_name_char c =
    let k = code c in
    is_name_start c
    || (leb 0x30 k && leb k 0x39)
    || eqb k 0x2e
    || eqb k 0x3a
    || eqb k 0x2f
    || eqb k 0x23
    || eqb k 0x2d

all_name_chars : String → Bool
unfolding is_name_char
all_name_chars String.[] = true
all_name_chars (String.◌∷◌ c s) = is_name_char c && all_name_chars s

unfoldable pub matches_name_pattern : String → Bool
unfolding is_name_start all_name_chars
matches_name_pattern String.[] = false
matches_name_pattern (String.◌∷◌ c s) = is_name_start c && all_name_chars s

-- strings.ContainsAny(value, "\r\n")
unfoldable pub has_line_break : String → Bool
has_line_break String.[] = false
has_line_break (String.◌∷◌ c s) = eqb (code c) 13 || eqb (code c) 10 || has_line_break s

-- The five errors of an attribute and that of too many, without their texts.
pub data AttributeError : Type 0 where
  too_many : AttributeError
  long_name : String → AttributeError
  bad_name : String → AttributeError
  reserved_name : String → AttributeError
  long_value : String → AttributeError
  many_lines : String → AttributeError

module _ (strings : Strings) where
  unfoldable pub attribute_error : String → String → Option AttributeError
  unfolding matches_name_pattern is_reserved_attribute_name has_line_break
  attribute_error name value =
      if ltb 128 (strings.byte_length name)
      then some (long_name name)
      else if not (matches_name_pattern name)
      then some (bad_name name)
      else if is_reserved_attribute_name name
      then some (reserved_name name)
      else if ltb 1024 (strings.byte_length value)
      then some (long_value name)
      else if has_line_break value
      then some (many_lines name)
      else none

  -- The first error, if there is one.
  abbrev or_next : Option AttributeError → Option AttributeError → Option AttributeError
  or_next (some e) next = some e
  or_next none next = next

  unfoldable pub first_attribute_error : Dict String → List String → Option AttributeError
  unfolding attribute_error lookup
  first_attribute_error attributes [] = none
  first_attribute_error attributes (name ∷ names) =
      or_next (attribute_error name (from_option (lookup attributes name) ""))
        (first_attribute_error attributes names)

  unfoldable pub validate_custom_attributes : Dict String → Option AttributeError
  unfolding first_attribute_error custom_attribute_names
  validate_custom_attributes attributes =
      if ltb 50 (length attributes)
      then some too_many
      else first_attribute_error attributes (custom_attribute_names attributes)

pub data ManagerError : Type 0 where
  own_manager : ManagerError
  unknown_manager : String → ManagerError

-- `blank` is Go's zero value of a user.
unfoldable pub validate_manager : List User → String → String → User → Option ManagerError
unfolding user_manager
validate_manager users user_id manager_id blank =
    if manager_id == ""
    then none
    else if manager_id == user_id
    then some own_manager
    else if is_some (user_manager users (record blank { manager_id = manager_id }))
    then none
    else some (unknown_manager manager_id)
