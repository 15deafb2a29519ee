-- ===== src/Common/Keyed.antt =====
-- Go's maps with string keys, as association lists whose first entry for a key counts.
use Prim.Native.String.{String}
use mathlib.Core.Path.{◌≡◌, refl}
use mathlib.Core.Bool.{true, Bool, false, ◌||◌}
use mathlib.Core.Option.{Option, none, some}
use mathlib.Core.List.{List, [], ◌∷◌, ◌++◌}
use native.Mathlib.Omega.{arith}
use text.Mathlib.Text.{◌==◌}
use text.Mathlib.TextEquality.{eq_iff}
use amoxtli.Common.Tests.{if◌then◌else◌}
use amoxtli.Common.Lists.{All, All-map_of}

abbrev pub Keyed {ℓ} : Type ℓ → Type ℓ
Keyed V = List (String × V)

module _ {ℓ} {V : Type ℓ} where
  -- `v, ok := m[k]`
  abbrev pub lookup : String → Keyed V → Option V
  lookup key [] = none
  lookup key ((i, value) ∷ rest) = if i == key then some value else lookup key rest

  -- `m[k] = v`
  abbrev pub insert : String → V → Keyed V → Keyed V
  insert key value [] = (key, value) ∷ []
  insert key value ((i, old) ∷ rest) =
      let after = insert key value rest in
      if i == key then (key, value) ∷ rest else (i, old) ∷ after

  -- `delete(m, k)`
  abbrev pub remove : String → Keyed V → Keyed V
  remove key [] = []
  remove key ((i, value) ∷ rest) =
      let after = remove key rest in if i == key then after else (i, value) ∷ after

  -- A read after a write, at the key that was written and at any other.
  pub lookup-insert :
      (key other : String) (value : V) (rest : Keyed V)
      → lookup other (insert key value rest)
        ≡ (if key == other then some value else lookup other rest)
  lookup-insert key other value ((i, old) ∷ rest) =
      ground
        (arith, lookup-insert key other value rest, eq_iff i key, eq_iff i other, eq_iff key other)
  lookup-insert key other value [] = refl

  pub lookup-remove :
      (key other : String) (rest : Keyed V)
      → lookup other (remove key rest) ≡ (if key == other then none else lookup other rest)
  lookup-remove key other ((i, value) ∷ rest) =
      ground (arith, lookup-remove key other rest, eq_iff i key, eq_iff i other, eq_iff key other)
  lookup-remove key other [] = ground arith

-- Whether a text stands in a list: a Go map with empty values, read by `_, ok := m[k]`.
abbrev pub contains : List String → String → Bool
contains [] k = false
contains (x ∷ xs) k = x == k || contains xs k

pub contains-append :
    (xs ys : List String) (k : String) → contains (xs ++ ys) k ≡ (contains xs k || contains ys k)
contains-append [] ys k = refl
contains-append (x ∷ xs) ys k = ground (arith, contains-append xs ys k)

-- Each text of a list stands in it.
pub contains_self : (xs : List String) → All (λ x. contains xs x ≡ true) xs
contains_self [] = tt
contains_self (x ∷ xs) = (
  ground (arith, eq_iff x x),
  All-map_of _ (λ y. (x == y || contains xs y) ≡ true) xs (λ y h. ground arith) (contains_self xs),
)
