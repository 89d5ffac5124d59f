-- ===== src/Prelude/Dict.antt =====
-- Go's map[string]V as an association list. Reads are by key alone; where the program ranges over a
-- map, the order of the entries is a parameter of the model.
use Prim.Native.String.{String}
use mathlib.Core.Path.{◌≡◌, refl}
use mathlib.Core.Bool.{Bool}
use mathlib.Core.Logic.{◌≢◌}
use mathlib.Core.Option
use mathlib.Core.Option.{Option, none, some}
use mathlib.Core.List.{List, [], ◌∷◌, map}
use native.Mathlib.Omega.{arith}
use text.Mathlib.Text.{◌==◌}
use text.Mathlib.TextEquality.{eq_iff}
use scimtest.Prelude.Tests.{if◌then◌else◌, from_option}

abbrev pub Dict {ℓ} : Type ℓ → Type ℓ
Dict V = List (String × V)

module _ {ℓ} {V : Type ℓ} where
  -- v, ok := m[k]
  unfoldable pub lookup : Dict V → String → Option V
  lookup [] k = none
  lookup ((j, v) ∷ m) k = if j == k then some v else lookup m k

  -- m[k] = v
  unfoldable pub insert : Dict V → String → V → Dict V
  insert [] k v = (k, v) ∷ []
  insert ((j, w) ∷ m) k v = if j == k then (k, v) ∷ m else (j, w) ∷ insert m k v

  -- delete(m, k)
  unfoldable pub remove : Dict V → String → Dict V
  remove [] k = []
  remove ((j, w) ∷ m) k = let rest = remove m k in if j == k then rest else (j, w) ∷ rest

  -- Deleting in a range over the map what fails a test.
  unfoldable pub retain : (V → Bool) → Dict V → Dict V
  unfolding remove
  retain p [] = []
  retain p ((k, v) ∷ m) = let rest = retain p m in if p v then (k, v) ∷ rest else remove rest k

  abbrev pub keep_if : (V → Bool) → Option V → Option V
  keep_if p none = none
  keep_if p (some v) = if p v then some v else none

  pub lookup-insert :
      (m : Dict V) (k j : String) (v : V)
      → lookup (insert m k v) j ≡ (if k == j then some v else lookup m j)
  unfolding lookup insert
  lookup-insert [] k j v = refl
  lookup-insert ((i, w) ∷ m) k j v =
      ground (arith, eq_iff k j, eq_iff i k, eq_iff i j, lookup-insert m k j v)

  pub lookup-remove :
      (m : Dict V) (k j : String) → lookup (remove m k) j ≡ (if k == j then none else lookup m j)
  unfolding lookup remove
  lookup-remove [] k j = ground arith
  lookup-remove ((i, w) ∷ m) k j =
      ground (arith, eq_iff k j, eq_iff i k, eq_iff i j, lookup-remove m k j)

pub lookup-retain {ℓ} :
    {V : Type ℓ} (p : V → Bool) (m : Dict V) (k : String)
    → lookup (retain p m) k ≡ keep_if p (lookup m k)
unfolding lookup retain
lookup-retain p [] k = refl
lookup-retain p ((j, v) ∷ m) k =
    ground (arith, lookup-retain p m k, lookup-remove (retain p m) j k, eq_iff j k)

pub lookup-map {ℓ κ} :
    {V : Type ℓ} {X : Type κ} (f : V → X) (m : Dict V) (k : String)
    → lookup (map (λ e. (e.0, f e.1)) m) k ≡ Option.map f (lookup m k)
unfolding lookup
lookup-map f [] k = refl
lookup-map f ((j, v) ∷ m) k = ground (arith, lookup-map f m k)

pub ruleset dict_laws = (lookup-insert, lookup-remove)

-- A map of lists, or of maps: the zero value of a missing entry is empty.
abbrev pub inner {ℓ} : {A : Type ℓ} → Dict (List A) → String → List A
inner m k = from_option (lookup m k) []

pub lookup-insert_self {ℓ} :
    {V : Type ℓ} (m : Dict V) (k : String) (v : V) → lookup (insert m k v) k ≡ some v
lookup-insert_self m k v = ground (arith, lookup-insert m k k v, eq_iff k k)

pub lookup-remove_self {ℓ} : {V : Type ℓ} (m : Dict V) (k : String) → lookup (remove m k) k ≡ none
lookup-remove_self m k = ground (arith, lookup-remove m k k, eq_iff k k)

pub inner-insert_self {ℓ} :
    {A : Type ℓ} (m : Dict (List A)) (k : String) (v : List A) → inner (insert m k v) k ≡ v
inner-insert_self m k v = ground (arith, lookup-insert_self m k v)

pub inner-insert_ne {ℓ} :
    {A : Type ℓ} (m : Dict (List A)) (k j : String) (v : List A)
    → k ≢ j
    → inner (insert m k v) j ≡ inner m j
inner-insert_ne m k j v h = ground (arith, lookup-insert m k j v, eq_iff k j)
