-- ===== src/Common/Distinct.antt =====
-- Lists of texts without repetition, and the specification of a loop over a map of what was seen.
use text.Mathlib.Text.{◌==◌}
use text.Mathlib.TextEquality.{eq_iff}
use Prim.Native.String.{String}
use mathlib.Core.Path.{◌≡◌, refl, ap, ◌∙◌}
use mathlib.Core.Logic.{inl, inr}
use mathlib.Core.Bool.{false, ◌&&◌, ◌||◌, not}
use mathlib.Core.List.{List, [], ◌∷◌, ◌++◌}
use native.Mathlib.Omega.{arith}
use amoxtli.Common.Tests.{if◌then◌else◌, Bool-cases}
use amoxtli.Common.Keyed.{contains, contains-append}

-- The first occurrence of each text that is not in the first list.
abbrev pub firsts : List String → List String → List String
firsts seen [] = []
firsts seen (x ∷ xs) = if contains seen x then firsts seen xs else x ∷ firsts (x ∷ seen) xs

abbrev pub Distinct : List String → Type 0
Distinct [] = Unit
Distinct (x ∷ xs) = (contains xs x ≡ false) × Distinct xs

-- What has been seen after a list: as a set, both.
abbrev pub SameKeys : List String → List String → Type 0
SameKeys xs ys = (k : String) → contains xs k ≡ contains ys k

pub firsts-cong :
    (xs : List String) (seen seen' : List String)
    → SameKeys seen seen'
    → firsts seen xs ≡ firsts seen' xs
firsts-cong [] seen seen' h = refl
firsts-cong (x ∷ xs) seen seen' h = ground (
  arith,
  h x,
  firsts-cong xs seen seen' h,
  firsts-cong xs (x ∷ seen) (x ∷ seen') (λ k. ap (λ b. x == k || b) (h k)),
)

pub firsts-append :
    (seen xs ys : List String) → firsts seen (xs ++ ys) ≡ firsts seen xs ++ firsts (xs ++ seen) ys
firsts-append seen [] ys = refl
firsts-append seen (x ∷ xs) ys = elim (Bool-cases (contains seen x)) [
  | inl h ↦ rw h (
      firsts-append seen xs ys
      ∙ ap (λ l. firsts seen xs ++ l)
          (firsts-cong ys (xs ++ seen) (x ∷ (xs ++ seen))
            (λ k. ground (arith, h, eq_iff x k, contains-append xs seen k))))
  | inr h ↦ rw h (
      ap (λ l. x ∷ l)
        (firsts-append (x ∷ seen) xs ys
          ∙ ap (λ l. firsts (x ∷ seen) xs ++ l)
              (firsts-cong ys (xs ++ x ∷ seen) (x ∷ (xs ++ seen))
                (λ k. ground (arith, contains-append xs (x ∷ seen) k, contains-append xs seen k)))))
]

pub contains-firsts :
    (seen xs : List String) (k : String)
    → contains (firsts seen xs) k ≡ (contains xs k && not (contains seen k))
contains-firsts seen [] k = refl
contains-firsts seen (x ∷ xs) k =
    ground (arith, eq_iff x k, contains-firsts seen xs k, contains-firsts (x ∷ seen) xs k)

pub firsts-Distinct : (seen xs : List String) → Distinct (firsts seen xs)
firsts-Distinct seen [] = tt
firsts-Distinct seen (x ∷ xs) = elim (Bool-cases (contains seen x)) [
  | inl h ↦ rw h (firsts-Distinct seen xs)
  | inr h ↦
      rw h
        (ground (arith, eq_iff x x, contains-firsts (x ∷ seen) xs x), firsts-Distinct (x ∷ seen) xs)
]
