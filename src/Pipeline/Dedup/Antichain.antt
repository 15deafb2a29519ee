-- ===== src/Pipeline/Dedup/Antichain.antt =====
-- index/pipeline/duplicate_content_results_transformer.go: the sections of a result that are left.
use amoxtli.Common.{
  ◌≡◌, ◌≢◌, ◌⊎◌, sym, refl, ap, ◌∙◌, ◌++◌, eq_iff, Bool, true, false, not, ◌&&◌, List, [], ◌∷◌,
  ◌==◌, arith, Bool-cases, inl, inr,
}
use amoxtli.Common.Lists.{keep, keep-keep, exists_in, All, keep-All, All-map_of}
use amoxtli.Search.{SectionId, is_empty}
use amoxtli.Pipeline.Dedup.Branches.{
  OnBranch, ChildOf, is_ancestor-OnBranch, is_parent_of-ChildOf, OnBranch-is_ancestor,
  ChildOf-is_parent_of,
}
use amoxtli.Pipeline.Dedup.{
  Section, is_parent_of, get_children, is_ancestor, has_ancestor, children_only, leaves,
}

All-keep : {A : Type 0} (P : A → Type 0) (p : A → Bool) (xs : List A) → All P xs → All P (keep p xs)
All-keep P p [] h = tt
All-keep P p (x ∷ xs) h = elim (Bool-cases (p x)) [
  | inl e ↦ rw e (h.0, All-keep P p xs h.1)
  | inr e ↦ rw e (All-keep P p xs h.1)
]

exists_in-keep :
    {A : Type 0} (q p : A → Bool) (xs : List A)
    → exists_in q xs ≡ false
    → exists_in q (keep p xs) ≡ false
exists_in-keep q p [] h = refl
exists_in-keep q p (x ∷ xs) h = ground (arith, exists_in-keep q p xs)

exists_in-All :
    {A : Type 0} (q : A → Bool) (xs : List A) → exists_in q xs ≡ false → All (λ x. q x ≡ false) xs
exists_in-All q [] h = tt
exists_in-All q (x ∷ xs) h = (ground arith, exists_in-All q xs (ground arith))

-- No other section of the list lies above this one on its branch.
abbrev pub Apart : List Section → Section → Type 0
Apart sections s = All (λ t. (t.id ≡ s.id) ⊎ (¬ OnBranch t s)) sections

-- No other section of the list is a child of this one.
abbrev pub Childless : List Section → Section → Type 0
Childless sections s = All (λ t. (t.id ≡ s.id) ⊎ (¬ ChildOf s t)) sections

above_or :
    (t s : Section)
    → (not (t.id == s.id) && is_ancestor t s) ≡ false
    → (t.id ≡ s.id) ⊎ (¬ OnBranch t s)
above_or t s h = elim (Bool-cases (t.id == s.id)) [
  | inl e ↦ inl (ground (arith, e, eq_iff t.id s.id))
  | inr e ↦ inr (λ b. cc (rw (e, is_ancestor-OnBranch t s b) at h))
]

child_or :
    (s t : Section)
    → (not (s.id == t.id) && is_parent_of s t) ≡ false
    → (t.id ≡ s.id) ⊎ (¬ ChildOf s t)
child_or s t h = elim (Bool-cases (s.id == t.id)) [
  | inl e ↦ inl (ground (arith, e, eq_iff s.id t.id))
  | inr e ↦ inr (λ b. cc (rw (e, is_parent_of-ChildOf s t b) at h))
]

keep_empty :
    {A : Type 0} (p : A → Bool) (xs : List A)
    → is_empty (keep p xs) ≡ true
    → All (λ x. p x ≡ false) xs
keep_empty p [] h = tt
keep_empty p (x ∷ xs) h = elim (Bool-cases (p x)) [
  | inl e ↦ cc (rw e at h)
  | inr e ↦ (e, keep_empty p xs (rw e at h))
]

childless :
    (sections : List Section) (s : Section)
    → is_empty (get_children sections s) ≡ true
    → Childless sections s
unfolding get_children
childless sections s h =
    All-map_of _ (λ t. (t.id ≡ s.id) ⊎ (¬ ChildOf s t)) sections (child_or s)
      (keep_empty (λ t. not (s.id == t.id) && is_parent_of s t) sections h)

apart :
    (left : List Section) (s : Section)
    → not (has_ancestor left s) ≡ true
    → Apart (keep (λ t. not (has_ancestor left t)) left) s
unfolding has_ancestor
apart left s h =
    All-map_of _ (λ t. (t.id ≡ s.id) ⊎ (¬ OnBranch t s))
      (keep (λ t. not (has_ancestor left t)) left) (λ t. above_or t s)
      (exists_in-All _ _ (
        exists_in-keep (λ t. not (t.id == s.id) && is_ancestor t s) (λ t. not (has_ancestor left t))
          left (ground arith)))

All-both :
    {A : Type 0} (P Q : A → Type 0) (xs : List A) → All P xs → All Q xs → All (λ x. P x × Q x) xs
All-both P Q [] p q = tt
All-both P Q (x ∷ xs) p q = ((p.0, q.0), All-both P Q xs p.1 q.1)

-- A section of the list that meets a condition.
abbrev pub OneOf : (Section → Type 0) → List Section → Type 0
OneOf P sections =
    (front : List Section) × (t : Section) × (back : List Section) × (sections
      ≡ front ++ (t ∷ back))
    × P t

-- What makes a section be dropped: another one is its child, or lies above it and has no child.
abbrev pub Covered : List Section → Section → Type 0
Covered sections s =
    OneOf (λ t. (t.id ≢ s.id) × ChildOf s t) sections
    ⊎ OneOf (λ t. (t.id ≢ s.id) × OnBranch t s × Childless sections t) sections

one_of :
    (P : Section → Type 0) (q : Section → Bool) (sections : List Section)
    → ((t : Section) → q t ≡ true → P t)
    → exists_in q sections ≡ true
    → OneOf P sections
one_of P q [] f h = cc
one_of P q (t ∷ sections) f h = elim (Bool-cases (q t)) [
  | inl e ↦ ([], t, sections, refl, f t e)
  | inr e ↦
      let (front, u, back, same, holds) = one_of P q sections f (rw e at h) in
      (t ∷ front, u, back, ap (t ∷◌) same, holds)
]

keep_some :
    (p : Section → Bool) (xs : List Section) → is_empty (keep p xs) ≡ false → exists_in p xs ≡ true
keep_some p [] h = cc
keep_some p (x ∷ xs) h = elim (Bool-cases (p x)) [
  | inl e ↦ rw e refl
  | inr e ↦ rw e (keep_some p xs (rw e at h))
]

exists_in-keep_both :
    (q p : Section → Bool) (xs : List Section)
    → exists_in q (keep p xs) ≡ exists_in (λ x. p x && q x) xs
exists_in-keep_both q p [] = refl
exists_in-keep_both q p (x ∷ xs) = ground (arith, exists_in-keep_both q p xs)

other_id : (a b : SectionId) → (a == b) ≡ false → b ≢ a
other_id a b e p = ground (arith, eq_iff a b, e, p)

child_in :
    (sections : List Section) (s : Section)
    → is_empty (get_children sections s) ≡ false
    → OneOf (λ t. (t.id ≢ s.id) × ChildOf s t) sections
unfolding get_children
child_in sections s h =
    one_of (λ t. (t.id ≢ s.id) × ChildOf s t) (λ t. not (s.id == t.id) && is_parent_of s t) sections
      (λ t e.
        (other_id s.id t.id (ground (arith, e)), ChildOf-is_parent_of s t (ground (arith, e))))
      (keep_some _ sections h)

ancestor_in :
    (sections : List Section) (s : Section)
    → has_ancestor (children_only sections) s ≡ true
    → OneOf (λ t. (t.id ≢ s.id) × OnBranch t s × Childless sections t) sections
unfolding has_ancestor children_only
ancestor_in sections s h =
    one_of (λ t. (t.id ≢ s.id) × OnBranch t s × Childless sections t)
      (λ t. is_empty (get_children sections t) && (not (t.id == s.id) && is_ancestor t s)) sections
      (λ t e. (
        (λ p. other_id t.id s.id (ground (arith, e)) (sym p)),
        OnBranch-is_ancestor t s (ground (arith, e)),
        childless sections t (ground (arith, e)),
      ))
      (sym (exists_in-keep_both _ (λ t. is_empty (get_children sections t)) sections) ∙ h)

abbrev is_left : List Section → Section → Bool
is_left sections s =
    is_empty (get_children sections s) && not (has_ancestor (children_only sections) s)

left_or : (sections : List Section) (s : Section) → (is_left sections s ≡ true) ⊎ Covered sections s
left_or sections s = elim (Bool-cases (is_empty (get_children sections s))) [
  | inr e ↦ inr (inl (child_in sections s e))
  | inl e ↦ elim (Bool-cases (has_ancestor (children_only sections) s)) [
    | inl a ↦ inr (inr (ancestor_in sections s a))
    | inr a ↦ inl (rw (e, a) refl)
  ]
]

none_above :
    (sections : List Section)
    → All (λ s. Apart (leaves sections) s × Childless sections s) (leaves sections)
unfolding leaves children_only
none_above sections =
    let left = children_only sections in
    All-both (Apart (leaves sections)) (Childless sections) (leaves sections)
      (All-map_of (λ s. not (has_ancestor left s) ≡ true) (Apart (leaves sections))
        (leaves sections) (apart left) (keep-All (λ t. not (has_ancestor left t)) left))
      (All-keep (Childless sections) (λ t. not (has_ancestor left t)) left
        (All-map_of (λ s. is_empty (get_children sections s) ≡ true) (Childless sections) left
          (childless sections) (keep-All (λ s. is_empty (get_children sections s)) sections)))

-- Of the sections that are left, the branch of none begins with the branch of another, and none of
-- them has a child, by the end of its branch, among the other sections of the result. What is left is
-- in the order it had, and a section is dropped only where another section of the result is its
-- child, or has no child there and lies above it on its branch.
pub leaves-antichain :
    (sections : List Section)
    → All (λ s. Apart (leaves sections) s × Childless sections s) (leaves sections)
      × ((kept : Section → Bool) × (leaves sections ≡ keep kept sections)
          × ((s : Section) → (kept s ≡ true) ⊎ Covered sections s))
unfolding leaves children_only
leaves-antichain sections = (
  none_above sections,
  (
    is_left sections,
    keep-keep (λ s. not (has_ancestor (children_only sections) s))
        (λ s. is_empty (get_children sections s)) sections,
    left_or sections,
  ),
)
