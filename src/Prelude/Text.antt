-- ===== src/Prelude/Text.antt =====
-- strings.TrimSpace and the other string functions of Go's library that the program calls.
use Prim.Native.Char.{Char, code}
use Prim.Native.String.{String, ◌++◌}
use mathlib.Core.Path.{◌≡◌, refl}
use mathlib.Core.Bool.{Bool, true, false, ◌&&◌, ◌||◌}
use mathlib.Core.List.{List, [], ◌∷◌}
use mathlib.Core.Logic.{inl, inr}
use native.Mathlib.Omega.{arith}
use scimtest.Prelude.Tests.{if◌then◌else◌, leb, eqb, Bool-cases}

-- s + t
abbrev pub concat : String → String → String
concat s t = s ++ t

abbrev is_empty : String → Bool
is_empty String.[] = true
is_empty (String.◌∷◌ c s) = false

-- strings.HasPrefix
unfoldable pub has_prefix : String → String → Bool
has_prefix s String.[] = true
has_prefix String.[] (String.◌∷◌ d t) = false
has_prefix (String.◌∷◌ c s) (String.◌∷◌ d t) = eqb (code c) (code d) && has_prefix s t

-- unicode.IsSpace
pub is_space : Char → Bool
is_space ch =
    let c = code ch in
    (leb 9 c && leb c 13)
    || eqb c 32
    || eqb c 0x85
    || eqb c 0xa0
    || eqb c 0x1680
    || (leb 0x2000 c && leb c 0x200a)
    || eqb c 0x2028
    || eqb c 0x2029
    || eqb c 0x202f
    || eqb c 0x205f
    || eqb c 0x3000

pub trim_left : String → String
trim_left String.[] = String.[]
trim_left (String.◌∷◌ c s) = if is_space c then trim_left s else String.◌∷◌ c s

pub trim_right : String → String
trim_right String.[] = String.[]
trim_right (String.◌∷◌ c s) =
    let rest = trim_right s in if is_empty rest && is_space c then String.[] else String.◌∷◌ c rest

-- strings.TrimSpace
unfoldable pub trim_space : String → String
unfolding is_space trim_left trim_right
trim_space s = trim_right (trim_left s)

-- The word before the first space, and the words after it.
split_word : String → String × List String
split_word String.[] = (String.[], [])
split_word (String.◌∷◌ c s) =
    let (word, words) = split_word s in
    if is_space c
    then (String.[], if is_empty word then words else word ∷ words)
    else (String.◌∷◌ c word, words)

-- strings.Fields
unfoldable pub fields : String → List String
unfolding split_word is_space
fields s = let (word, words) = split_word s in if is_empty word then words else word ∷ words

-- strings.Join
abbrev pub join_with : String → List String → String
join_with separator [] = String.[]
join_with separator (s ∷ []) = s
join_with separator (s ∷ t ∷ ss) = s ++ (separator ++ join_with separator (t ∷ ss))

trim_right_idem : (s : String) → trim_right (trim_right s) ≡ trim_right s
unfolding trim_right
trim_right_idem String.[] = refl
trim_right_idem (String.◌∷◌ c s) = ground (arith, trim_right_idem s)

-- What trims to nothing on the right of a kept first character stays: the head is no space.
trim_left-trim_right_head :
    (c : Char) (s : String)
    → is_space c ≡ false
    → trim_left (trim_right (String.◌∷◌ c s)) ≡ trim_right (String.◌∷◌ c s)
unfolding trim_left trim_right
trim_left-trim_right_head c s h = ground arith

trim_left-trim_right :
    (s : String) → trim_left (trim_right (trim_left s)) ≡ trim_right (trim_left s)
unfolding trim_left
trim_left-trim_right String.[] = unfold trim_right in refl
trim_left-trim_right (String.◌∷◌ c s) = elim (Bool-cases (is_space c)) [
  | inl h ↦ rw h (trim_left-trim_right s)
  | inr h ↦ rw h (trim_left-trim_right_head c s h)
]

-- Trimming a trimmed text changes nothing.
pub trim_space_idem : (s : String) → trim_space (trim_space s) ≡ trim_space s
unfolding trim_space
trim_space_idem s = rw (trim_left-trim_right s) (trim_right_idem (trim_left s))

pub trim_space-empty : trim_space "" ≡ ""
unfolding trim_space trim_left trim_right
trim_space-empty = refl
