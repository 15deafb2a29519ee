-- ===== src/Pipeline/Dedup/Branches.antt =====
-- index/pipeline/duplicate_content_results_transformer.go: what the tests of two branches tell.
use mathlib.Core.Path.{ap₂}
use amoxtli.Common.{
  ◌≡◌, refl, sym, ap, ◌∙◌, Option, some, ◌++◌, eq_iff, true, List, [], ◌∷◌, arith, Option-cases,
  inl, inr,
}
use amoxtli.Search.{SectionId}
use amoxtli.Pipeline.Dedup.{Section, begins, before_last, is_parent_of, is_ancestor}

-- The branch of the second section begins with that of the first.
abbrev pub OnBranch : Section → Section → Type 0
OnBranch above below = (rest : List SectionId) × (below.branch ≡ above.branch ++ rest)

-- The branch of the second section ends with the identifier of the first and one more.
abbrev pub ChildOf : Section → Section → Type 0
ChildOf parent child =
    (front : List SectionId) × (last : SectionId) × (child.branch
      ≡ front ++ (parent.id ∷ last ∷ []))

begins-append : (front rest : List SectionId) → begins front (front ++ rest) ≡ true
unfolding begins
begins-append [] rest = refl
begins-append (x ∷ front) rest = ground (arith, eq_iff x x, begins-append front rest)

before_last-append :
    (front : List SectionId) (p last : SectionId) → before_last (front ++ (p ∷ last ∷ [])) ≡ some p
unfolding before_last
before_last-append [] p last = refl
before_last-append (x ∷ []) p last = refl
before_last-append (x ∷ y ∷ []) p last = refl
before_last-append (x ∷ y ∷ z ∷ front) p last = before_last-append (y ∷ z ∷ front) p last

pub is_ancestor-OnBranch : (t s : Section) → OnBranch t s → is_ancestor t s ≡ true
unfolding is_ancestor
is_ancestor-OnBranch t s (rest, e) = rw e (begins-append t.branch rest)

pub is_parent_of-ChildOf : (s t : Section) → ChildOf s t → is_parent_of s t ≡ true
unfolding is_parent_of
is_parent_of-ChildOf s t (front, last, e) =
    let found : before_last t.branch ≡ some s.id =
      ap before_last e ∙ before_last-append front s.id last in
    rw (found, is_parent_of) (ground (arith, eq_iff s.id s.id))

begins-true :
    (front branch : List SectionId)
    → begins front branch ≡ true
    → (rest : List SectionId) × (branch ≡ front ++ rest)
unfolding begins
begins-true [] branch h = (branch, refl)
begins-true (x ∷ front) [] h = cc
begins-true (x ∷ front) (y ∷ branch) h =
    let (rest, e) = begins-true front branch (ground (arith, h)) in
    let same : x ≡ y = ground (arith, h, eq_iff x y) in (rest, ap₂ ◌∷◌ (sym same) e)

some-equal : {A : Type 0} {a b : A} → ◌≡◌ {A = Option A} (some a) (some b) → a ≡ b
some-equal h = cc

before_last-some :
    (branch : List SectionId) (p : SectionId)
    → before_last branch ≡ some p
    → (front : List SectionId) × (last : SectionId) × (branch ≡ front ++ (p ∷ last ∷ []))
unfolding before_last
before_last-some [] p h = cc
before_last-some (x ∷ []) p h = cc
before_last-some (x ∷ y ∷ []) p h = ([], y, ap (λ z. z ∷ y ∷ []) (some-equal h))
before_last-some (x ∷ y ∷ z ∷ rest) p h =
    let (front, last, e) = before_last-some (y ∷ z ∷ rest) p h in (x ∷ front, last, ap (x ∷◌) e)

pub OnBranch-is_ancestor : (t s : Section) → is_ancestor t s ≡ true → OnBranch t s
unfolding is_ancestor
OnBranch-is_ancestor t s h = begins-true t.branch s.branch h

pub ChildOf-is_parent_of : (s t : Section) → is_parent_of s t ≡ true → ChildOf s t
unfolding is_parent_of
ChildOf-is_parent_of s t h = elim (Option-cases (before_last t.branch)) [
  | inl e ↦ cc (rw (e, is_parent_of) at h)
  | inr (p, e) ↦
      let same : p ≡ s.id = ground (arith, eq_iff p s.id, rw (e, is_parent_of) at h) in
      before_last-some t.branch s.id (e ∙ ap some same)
]
