-- ===== src/Common/Sort.antt =====
-- Sorting by a comparison function, as slices.SortFunc and slices.Sort do, for comparisons that are
-- total orders: the outcome is then the same for every sorting algorithm. Here it is insertion.
use Prim.Native.Nat.{Ordering}
use Prim.Native.String.{String, compare as compare_text}
use Prim.Native.String.compare
use mathlib.Core.Path.{◌≡◌, refl, ap, ap₂, ◌∙◌}
use mathlib.Core.Logic.{◌≢◌, ∥∥₁_elim}
use mathlib.Core.HLevel.{hedberg}
use mathlib.Core.List.{List, [], ◌∷◌, Perm, Permᴰ}
use mathlib.Core.List.Perm
use native.Mathlib.Omega.{arith}
use text.Mathlib.TextEquality.{path_by_compare}
use amoxtli.Common.Lists.{All, All-map_of}

abbrev pub flip : Ordering → Ordering
flip Ordering.lt = Ordering.gt
flip Ordering.eq = Ordering.eq
flip Ordering.gt = Ordering.lt

-- `slices.SortFunc` and `cmp.Compare` speak of such comparisons.
pub record IsOrder {ℓ} {A : Type ℓ} (cmp : A → A → Ordering) : Type ℓ where
  pub flips : (a b : A) → cmp b a ≡ flip (cmp a b)
  pub transitive :
      (a b c : A) → cmp a b ≡ Ordering.lt → cmp b c ≡ Ordering.lt → cmp a c ≡ Ordering.lt
  pub separates : (a b : A) → cmp a b ≡ Ordering.eq → a ≡ b

module _ {ℓ} {A : Type ℓ} (cmp : A → A → Ordering) where
  unfoldable pub insert_sorted : A → List A → List A
  insert_sorted a [] = a ∷ []
  insert_sorted a (x ∷ xs) = elim (cmp x a) [
    | Ordering.gt ↦ a ∷ x ∷ xs
    | _ ↦ x ∷ insert_sorted a xs
  ]

  unfoldable pub sort : List A → List A
  unfolding insert_sorted
  sort [] = []
  sort (x ∷ xs) = insert_sorted x (sort xs)

  -- No element is followed by a smaller one.
  abbrev pub Sorted : List A → Type 0
  Sorted [] = Unit
  Sorted (x ∷ xs) = All (λ y. cmp x y ≢ Ordering.gt) xs × Sorted xs

  insert_sorted-perm : (a : A) (xs : List A) → Perm (insert_sorted a xs) (a ∷ xs)
  unfolding insert_sorted
  insert_sorted-perm a [] = Perm.refl (a ∷ [])
  insert_sorted-perm a (x ∷ xs) =
      go (cmp x a) refl (Perm.trans (Perm.cons x (insert_sorted-perm a xs)) (Perm.swap a x xs))
    where
      go :
          (o : Ordering)
          → cmp x a ≡ o
          → Perm (x ∷ insert_sorted a xs) (a ∷ x ∷ xs)
          → Perm (insert_sorted a (x ∷ xs)) (a ∷ x ∷ xs)
      go Ordering.gt e later = rw (e, insert_sorted) (Perm.refl (a ∷ x ∷ xs))
      go Ordering.lt e later = rw (e, insert_sorted) later
      go Ordering.eq e later = rw (e, insert_sorted) later

  pub sort-perm : (xs : List A) → Perm (sort xs) xs
  unfolding sort
  sort-perm [] = Perm.refl []
  sort-perm (x ∷ xs) = Perm.trans (insert_sorted-perm x (sort xs)) (Perm.cons x (sort-perm xs))

  module _ (order : IsOrder cmp) where
    insert_sorted_comm :
        (a b : A) (xs : List A)
        → insert_sorted a (insert_sorted b xs) ≡ insert_sorted b (insert_sorted a xs)
    unfolding insert_sorted
    insert_sorted_comm a b [] = ground (arith, order.flips a b, order.separates a b)
    insert_sorted_comm a b (x ∷ xs) = ground (
      arith,
      insert_sorted_comm a b xs,
      order.flips a b,
      order.flips x a,
      order.flips x b,
      order.separates a b,
      order.separates x a,
      order.separates x b,
      order.transitive a x b,
      order.transitive b x a,
    )

    sort-perm_d : {xs ys : List A} → Permᴰ xs ys → sort xs ≡ sort ys
    unfolding sort
    sort-perm_d Permᴰ.nil = refl
    sort-perm_d (Permᴰ.cons e p) = ap₂ insert_sorted e (sort-perm_d p)
    sort-perm_d (Permᴰ.swap {a} {b} {a'} {b'} {l} e f) =
        insert_sorted_comm a b (sort l)
        ∙ ap₂ (λ u v. insert_sorted u (insert_sorted v (sort l))) f e
    sort-perm_d (Permᴰ.trans p q) = sort-perm_d p ∙ sort-perm_d q

    cmp_self : (a : A) → cmp a a ≡ Ordering.eq
    cmp_self a = ground (arith, order.flips a a)

    order-discrete : Discrete A
    order-discrete a b = go (cmp a b) refl
      where
        go : (o : Ordering) → cmp a b ≡ o → Dec (a ≡ b)
        go Ordering.eq e = yes (order.separates a b e)
        go Ordering.lt e = no (λ p. cc (e, cmp_self a, ap (cmp a) p))
        go Ordering.gt e = no (λ p. cc (e, cmp_self a, ap (cmp a) p))

    -- Sorting forgets the order in which the elements were given.
    pub sort_of_perm : {xs ys : List A} → Perm xs ys → sort xs ≡ sort ys
    sort_of_perm p = ∥∥₁_elim p (list_set _ _) sort-perm_d
      where
        list_set : IsSet (List A)
        list_set = hlevel (hedberg order-discrete)

    before : (a x y : A) → cmp x a ≡ Ordering.gt → cmp x y ≢ Ordering.gt → cmp a y ≢ Ordering.gt
    before a x y h k = ground (arith, order.flips x a, order.separates x y, order.transitive a x y)

    All-insert_sorted :
        (P : A → Type 0) (a : A) (xs : List A) → P a → All P xs → All P (insert_sorted a xs)
    unfolding insert_sorted
    All-insert_sorted P a [] p h = (p, tt)
    All-insert_sorted P a (x ∷ xs) p h = go (cmp x a) (All-insert_sorted P a xs p h.1)
      where
        go :
            (o : Ordering)
            → All P (insert_sorted a xs)
            → All P (elim o [ Ordering.gt ↦ a ∷ x ∷ xs | _ ↦ x ∷ insert_sorted a xs ])
        go Ordering.gt later = (p, h)
        go Ordering.lt later = (h.0, later)
        go Ordering.eq later = (h.0, later)

    insert_sorted-Sorted : (a : A) (xs : List A) → Sorted xs → Sorted (insert_sorted a xs)
    unfolding insert_sorted
    insert_sorted-Sorted a [] h = (tt, tt)
    insert_sorted-Sorted a (x ∷ xs) h = go (cmp x a) refl (insert_sorted-Sorted a xs h.1)
      where
        go :
            (o : Ordering)
            → cmp x a ≡ o
            → Sorted (insert_sorted a xs)
            → Sorted (elim o [ Ordering.gt ↦ a ∷ x ∷ xs | _ ↦ x ∷ insert_sorted a xs ])
        go Ordering.gt e later = (
          (
            ground (arith, e, order.flips x a),
            All-map_of _ (λ y. cmp a y ≢ Ordering.gt) xs (λ y k. before a x y e k) h.0,
          ),
          h,
        )
        go Ordering.lt e later =
            (All-insert_sorted (λ y. cmp x y ≢ Ordering.gt) a xs (λ k. cc (e, k)) h.0, later)
        go Ordering.eq e later =
            (All-insert_sorted (λ y. cmp x y ≢ Ordering.gt) a xs (λ k. cc (e, k)) h.0, later)

    pub sort-Sorted : (xs : List A) → Sorted (sort xs)
    unfolding sort
    sort-Sorted [] = tt
    sort-Sorted (x ∷ xs) = insert_sorted-Sorted x (sort xs) (sort-Sorted xs)

    pub All-sort : (P : A → Type 0) (xs : List A) → All P xs → All P (sort xs)
    unfolding sort
    All-sort P [] h = tt
    All-sort P (x ∷ xs) h = All-insert_sorted P x (sort xs) h.0 (All-sort P xs h.1)

text_flips : (s t : String) → compare_text t s ≡ flip (compare_text s t)
text_flips String.[] String.[] = refl
text_flips String.[] (String.◌∷◌ c t) = rw (compare.cons-nil c t, compare.nil-cons c t) refl
text_flips (String.◌∷◌ c s) String.[] = rw (compare.cons-nil c s, compare.nil-cons c s) refl
text_flips (String.◌∷◌ c s) (String.◌∷◌ d t) =
    rw (compare.cons-cons c d s t, compare.cons-cons d c t s) (ground (arith, text_flips s t))

text_transitive :
    (s t u : String)
    → compare_text s t ≡ Ordering.lt
    → compare_text t u ≡ Ordering.lt
    → compare_text s u ≡ Ordering.lt
text_transitive s String.[] String.[] p q = cc
text_transitive String.[] String.[] (String.◌∷◌ e u) p q = q
text_transitive (String.◌∷◌ c s) String.[] u p q = cc (compare.cons-nil c s)
text_transitive s (String.◌∷◌ d t) String.[] p q = cc (compare.cons-nil d t)
text_transitive String.[] (String.◌∷◌ d t) (String.◌∷◌ e u) p q = rw (compare.nil-cons e u) refl
text_transitive (String.◌∷◌ c s) (String.◌∷◌ d t) (String.◌∷◌ e u) p q = ground (
  arith,
  compare.cons-cons c d s t,
  compare.cons-cons d e t u,
  compare.cons-cons c e s u,
  text_transitive s t u,
)

-- strings.Compare
pub text-IsOrder : IsOrder compare_text
text-IsOrder = record {
  flips = text_flips;
  transitive = text_transitive;
  separates = path_by_compare;
}
