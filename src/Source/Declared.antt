-- ===== src/Source/Declared.antt =====
-- sourcecode/parser.go: Parse, from the ranges of the declarations to the sections that are cut.
use mathlib.Core.Path.{ap₂}
use amoxtli.Common.{
  ◌≡◌, refl, ◌≤◌, ◌≢◌, inl, inr, Bool, ◌&&◌, ℕ, Option, none, some, List, [], ◌∷◌, ◌=?◌, arith,
  Ordering, Bool-cases,
}
use amoxtli.Common.Int.{ℤ}
use amoxtli.Common.Lists.{All, All-map_of, All-append}
use amoxtli.Common.Result.{done}
use amoxtli.Common.Sort.{IsOrder, sort, Sorted, sort-Sorted, All-sort}
use amoxtli.Source.{Document, Section, section, Sections, no_sections, add_section}
use amoxtli.Source.Nesting.{DeclRange, by_start, compact, nest_sections, declared_tree, parse}
use amoxtli.Source.Tiling.{leaf_bounds, leaf_bounds_of, Cuts, Ordered, split_oversized-Cuts}
use amoxtli.Source.Nested.{Children, Nested, Rising, nest_ranges-Nested}

Rising-compact : (hi m : ℕ) (rs : List DeclRange) → Rising hi m rs → Rising hi m (compact rs)
unfolding compact
Rising-compact hi m [] h = tt
Rising-compact hi m (a ∷ []) h = h
Rising-compact hi m (a ∷ b ∷ rest) h = elim (Bool-cases (a.start =? b.start && a.stop =? b.stop)) [
  | inl c ↦ rw c (Rising-compact hi m (b ∷ rest) (omega (arith, h.0, h.3.0), h.3.1, h.3.2, h.3.3))
  | inr c ↦ rw c (h.0, h.1, h.2, Rising-compact hi a.start (b ∷ rest) h.3)
]

same_range : (a b : DeclRange) → by_start a b ≡ Ordering.eq → a ≡ b
same_range a b p =
    let starts : a.start ≡ b.start = ground (arith, p) in
    let stops : a.stop ≡ b.stop = ground (arith, p) in
    ap₂ (λ x y. record { start = x; stop = y }) starts stops

not_after : (a b : DeclRange) → by_start a b ≢ Ordering.gt → a.start ≤ b.start
not_after a b p = ground (arith, p)

by_start-IsOrder : IsOrder by_start
by_start-IsOrder = record {
  flips = λ a b. ground arith;
  transitive = λ a b c p q. ground (arith, p, q);
  separates = λ a b p. same_range a b p;
}

-- The declarations lie in the file.
abbrev pub InFile : ℕ → DeclRange → Type 0
InFile size r = (r.start ≤ r.stop) × (r.stop ≤ size)

Sorted-Rising :
    (hi m : ℕ) (rs : List DeclRange)
    → Sorted by_start rs
    → All (InFile hi) rs
    → All (λ r. m ≤ r.start) rs
    → Rising hi m rs
Sorted-Rising hi m [] s h k = tt
Sorted-Rising hi m (r ∷ rs) s h k = (
  k.0,
  h.0.0,
  omega (arith, h.0.0, h.0.1),
  Sorted-Rising hi r.start rs s.1 h.1 (
      All-map_of (λ y. by_start r y ≢ Ordering.gt) (λ y. r.start ≤ y.start) rs
        (λ y p. not_after r y p) s.0),
)

nest_sections-Nested :
    (size : ℕ) (ranges : List DeclRange)
    → All (InFile size) ranges
    → Nested 0 size (nest_sections size ranges)
unfolding nest_sections
nest_sections-Nested size ranges h =
    let sorted = sort by_start ranges in
    nest_ranges-Nested size 0 (compact sorted) _ [] ((omega arith, omega arith), refl, refl)
      (Rising-compact size 0 sorted (
        Sorted-Rising size 0 sorted (sort-Sorted by_start by_start-IsOrder ranges)
          (All-sort by_start by_start-IsOrder (InFile size) ranges h)
          (All-map_of (InFile size) (λ r. 0 ≤ r.start) sorted (λ r p. omega arith)
            (All-sort by_start by_start-IsOrder (InFile size) ranges h))))

Children-Ordered : (lo hi : ℕ) (ss : Sections) → Children lo ss hi → All Ordered (leaf_bounds_of ss)
Children-Ordered lo hi no_sections h = tt
Children-Ordered lo hi (add_section (section a b level no_sections) rest) h =
    (h.1, Children-Ordered b hi rest h.2)
Children-Ordered lo hi (add_section (section a b level (add_section s inner)) rest) h =
    All-append Ordered (leaf_bounds_of (add_section s inner)) (leaf_bounds_of rest)
      (Children-Ordered a b (add_section s inner) h.1) (Children-Ordered b hi rest h.2)

Nested-Ordered : (lo hi : ℕ) (s : Section) → Nested lo hi s → All Ordered (leaf_bounds s)
Nested-Ordered lo hi (section a b level no_sections) h = (h.2, tt)
Nested-Ordered lo hi (section a b level (add_section s inner)) h =
    Children-Ordered a b (add_section s inner) h.2

abbrev pub Declared : ℕ → Option (List DeclRange) → Type 0
Declared size none = Unit
Declared size (some ranges) = All (InFile size) ranges

declared_tree-Nested :
    (size : ℕ) (ranges : Option (List DeclRange))
    → Declared size ranges
    → Nested 0 size (declared_tree size ranges)
unfolding declared_tree
declared_tree-Nested size none h = (refl, refl, omega arith)
declared_tree-Nested size (some ranges) h = nest_sections-Nested size ranges h

-- Where the declarations lie in the file, Parse ends without a panic. Its tree of declarations spans
-- the file, sections beside each other do not overlap, and each lies in the one that holds it. In the
-- tree that is returned, each section of a declaration that holds no other is left as it is or cut
-- into sections that follow each other from its start to its end.
pub parse-Cuts :
    (separates : ℕ → Bool) (document : Document) (size : ℕ) (ranges : Option (List DeclRange))
    (max_words : ℤ)
    → Declared size ranges
    → Nested 0 size (declared_tree size ranges)
      × (s' : Section) × (parse separates document size ranges max_words ≡ done s')
      × Cuts (leaf_bounds (declared_tree size ranges)) (leaf_bounds s')
unfolding parse
parse-Cuts separates document size ranges max_words h =
    let nested = declared_tree-Nested size ranges h in
    let (s', e, cuts) =
      split_oversized-Cuts separates document (declared_tree size ranges) max_words
        (Nested-Ordered 0 size (declared_tree size ranges) nested) in
    (nested, s', e, cuts)
