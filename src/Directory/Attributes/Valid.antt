-- ===== src/Directory/Attributes/Valid.antt =====
-- What the checks of custom attributes let pass.
use scimtest.Prelude.{
  ℕ, String, Bool, true, false, not, ◌&&◌, Option, none, some, List, [], ◌∷◌, map, length, all, ltb,
  leb, if◌then◌else◌, from_option, is_some, ◌≡◌, refl, arith,
}
use scimtest.Prelude.Dict.{Dict, lookup}
use scimtest.Directory.Attributes.{
  Strings, insert_sorted, sort, custom_attribute_names, is_reserved_attribute_name,
  matches_name_pattern, has_line_break, AttributeError, long_name, bad_name, reserved_name,
  long_value, many_lines, attribute_error, or_next, first_attribute_error,
  validate_custom_attributes,
}

module _ (p : String → Bool) where
  all-insert_sorted : (s : String) (ts : List String) → all p (insert_sorted s ts) ≡ p s && all p ts
  all-insert_sorted s [] = ground arith
  all-insert_sorted s (t ∷ ts) = ground (arith, all-insert_sorted s ts)

  all-sort : (ss : List String) → all p (sort ss) ≡ all p ss
  all-sort [] = refl
  all-sort (s ∷ ss) = ground (arith, all-insert_sorted s (sort ss), all-sort ss)

leb-ltb : (m n : ℕ) → leb n m ≡ not (ltb m n)
leb-ltb m n = ground arith

-- The five tests in a row.
none_of_five :
    (a b c d e : Bool) (u v w x y : AttributeError)
    → not (
        is_some (
          if a
          then some u
          else if not b
          then some v
          else if c
          then some w
          else if d
          then some x
          else if e
          then some y
          else none))
      ≡ not a && (b && (not c && (not d && not e)))
none_of_five true b c d e u v w x y = refl
none_of_five false false c d e u v w x y = refl
none_of_five false true true d e u v w x y = refl
none_of_five false true false true e u v w x y = refl
none_of_five false true false false true u v w x y = refl
none_of_five false true false false false u v w x y = refl

module _ (strings : Strings) where
  -- A name of the pattern that is not reserved, and a value on one line, both short enough.
  abbrev pub is_valid : String → String → Bool
  is_valid name value =
      leb (strings.byte_length name) 128
      && (matches_name_pattern name
          && (not (is_reserved_attribute_name name)
              && (leb (strings.byte_length value) 1024 && not (has_line_break value))))

  attribute_error-valid :
      (name value : String)
      → not (is_some (attribute_error strings name value)) ≡ is_valid name value
  unfolding attribute_error
  attribute_error-valid name value =
      rw (leb-ltb 128 (strings.byte_length name), leb-ltb 1024 (strings.byte_length value))
        (none_of_five (ltb 128 (strings.byte_length name)) (matches_name_pattern name)
          (is_reserved_attribute_name name) (ltb 1024 (strings.byte_length value))
          (has_line_break value) (long_name name) (bad_name name) (reserved_name name)
          (long_value name) (many_lines name))

  abbrev is_valid_in : Dict String → String → Bool
  is_valid_in attributes name = is_valid name (from_option (lookup attributes name) "")

  or_next-none :
      (o next : Option AttributeError)
      → not (is_some (or_next strings o next)) ≡ not (is_some o) && not (is_some next)
  or_next-none (some e) next = refl
  or_next-none none next = refl

  first_attribute_error-valid :
      (attributes : Dict String) (names : List String)
      → not (is_some (first_attribute_error strings attributes names))
        ≡ all (is_valid_in attributes) names
  unfolding first_attribute_error
  first_attribute_error-valid attributes [] = refl
  first_attribute_error-valid attributes (n ∷ ns) = rw (
    or_next-none (attribute_error strings n (from_option (lookup attributes n) ""))
        (first_attribute_error strings attributes ns),
    attribute_error-valid n (from_option (lookup attributes n) ""),
    first_attribute_error-valid attributes ns,
  )

  -- ValidateCustomAttributes finds no error exactly when there are at most 50 attributes and each is
  -- valid: its name has at most 128 bytes, matches the pattern and is not reserved, and its value has
  -- at most 1024 bytes and no line break.
  pub validate_custom_attributes-valid :
      (attributes : Dict String)
      → not (is_some (validate_custom_attributes strings attributes))
        ≡ leb (length attributes) 50 && all (is_valid_in attributes) (map (λ a. a.0) attributes)
  unfolding validate_custom_attributes custom_attribute_names
  validate_custom_attributes-valid attributes =
      let names = map (λ (a : String × String). a.0) attributes in
      ground (
        arith,
        first_attribute_error-valid attributes (sort names),
        all-sort (is_valid_in attributes) names,
      )
