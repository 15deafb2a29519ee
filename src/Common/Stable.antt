-- ===== src/Common/Stable.antt =====
-- slices.SortStableFunc for the comparison of two ranks: elements of one rank keep their order.
use Prim.Native.Nat.{ℕ, ◌≤◌}
use mathlib.Core.Path.{◌≡◌, refl, ◌∙◌}
use mathlib.Core.Logic.{inl, inr}
use mathlib.Core.List.{List, [], ◌∷◌, Perm}
use mathlib.Core.List.Perm
use native.Mathlib.Omega.{arith}
use amoxtli.Common.Lists.{All, All-map_of, keep}
use amoxtli.Common.Tests.{if◌then◌else◌, ltb, ◌=?◌, Bool-cases}

module _ {ℓ} {A : Type ℓ} (rank : A → ℕ) where
  unfoldable pub insert_stable : A → List A → List A
  insert_stable a [] = a ∷ []
  insert_stable a (x ∷ xs) =
      let rest = insert_stable a xs in if ltb (rank x) (rank a) then x ∷ rest else a ∷ x ∷ xs

  unfoldable pub stable_sort : List A → List A
  unfolding insert_stable
  stable_sort [] = []
  stable_sort (x ∷ xs) = insert_stable x (stable_sort xs)

  abbrev pub Ascending : List A → Type 0
  Ascending [] = Unit
  Ascending (x ∷ xs) = All (λ y. rank x ≤ rank y) xs × Ascending xs

  insert_stable-perm : (a : A) (xs : List A) → Perm (insert_stable a xs) (a ∷ xs)
  unfolding insert_stable
  insert_stable-perm a [] = Perm.refl (a ∷ [])
  insert_stable-perm a (x ∷ xs) = elim (Bool-cases (ltb (rank x) (rank a))) [
    | inl h ↦ rw h (Perm.trans (Perm.cons x (insert_stable-perm a xs)) (Perm.swap a x xs))
    | inr h ↦ rw h (Perm.refl (a ∷ x ∷ xs))
  ]

  pub stable_sort-perm : (xs : List A) → Perm (stable_sort xs) xs
  unfolding stable_sort
  stable_sort-perm [] = Perm.refl []
  stable_sort-perm (x ∷ xs) =
      Perm.trans (insert_stable-perm x (stable_sort xs)) (Perm.cons x (stable_sort-perm xs))

  All-insert_stable {κ} :
      (P : A → Type κ) (a : A) (xs : List A) → P a → All P xs → All P (insert_stable a xs)
  unfolding insert_stable
  All-insert_stable P a [] p h = (p, tt)
  All-insert_stable P a (x ∷ xs) p h = elim (Bool-cases (ltb (rank x) (rank a))) [
    | inl b ↦ rw b (h.0, All-insert_stable P a xs p h.1)
    | inr b ↦ rw b (p, h)
  ]

  pub All-stable_sort {κ} : (P : A → Type κ) (xs : List A) → All P xs → All P (stable_sort xs)
  unfolding stable_sort
  All-stable_sort P [] h = tt
  All-stable_sort P (x ∷ xs) h =
      All-insert_stable P x (stable_sort xs) h.0 (All-stable_sort P xs h.1)

  insert_stable-Ascending : (a : A) (xs : List A) → Ascending xs → Ascending (insert_stable a xs)
  unfolding insert_stable
  insert_stable-Ascending a [] h = (tt, tt)
  insert_stable-Ascending a (x ∷ xs) h = elim (Bool-cases (ltb (rank x) (rank a))) [
    | inl b ↦ rw b (
      All-insert_stable (λ y. rank x ≤ rank y) a xs (ground (arith, b)) h.0,
      insert_stable-Ascending a xs h.1,
    )
    | inr b ↦
        (let first : rank a ≤ rank x = ground (arith, b) in
          rw b (
            ((
              first,
              All-map_of (λ y. rank x ≤ rank y) (λ y. rank a ≤ rank y) xs
                  (λ y p. omega (arith, p, first)) h.0,
            )),
            h,
          ))
  ]

  pub stable_sort-Ascending : (xs : List A) → Ascending (stable_sort xs)
  unfolding stable_sort
  stable_sort-Ascending [] = tt
  stable_sort-Ascending (x ∷ xs) =
      insert_stable-Ascending x (stable_sort xs) (stable_sort-Ascending xs)

  insert_stable-keep :
      (k : ℕ) (a : A) (xs : List A)
      → keep (λ x. rank x =? k) (insert_stable a xs) ≡ keep (λ x. rank x =? k) (a ∷ xs)
  unfolding insert_stable
  insert_stable-keep k a [] = refl
  insert_stable-keep k a (x ∷ xs) = ground (arith, insert_stable-keep k a xs)

  -- The elements of each rank stand in the order in which they were given.
  pub stable_sort-keep :
      (k : ℕ) (xs : List A) → keep (λ x. rank x =? k) (stable_sort xs) ≡ keep (λ x. rank x =? k) xs
  unfolding stable_sort
  stable_sort-keep k [] = refl
  stable_sort-keep k (x ∷ xs) =
      insert_stable-keep k x (stable_sort xs) ∙ ground (arith, stable_sort-keep k xs)
