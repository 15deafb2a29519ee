-- ===== src/Source/Nested.antt =====
-- sourcecode/parser.go: the tree of sections that nestSections builds.
use amoxtli.Common.{
  ◌≡◌, subst, sym, ◌≤◌, inl, inr, ◌&&◌, ℕ, List, [], ◌∷◌, leb, ◌=?◌, arith, Bool-cases,
}
use amoxtli.Source.{Section, section, Sections, no_sections, add_section}
use amoxtli.Source.Nesting.{
  DeclRange, Frame, append_section, close_into, pop_until, clipped, open_range, close_all,
  nest_ranges,
}

-- Sections stand in a part of the file, one behind the other, and each holds its own sections.
abbrev pub Children : ℕ → Sections → ℕ → Type 0
Children lo no_sections hi = lo ≤ hi
Children lo (add_section (section a b level inner) rest) hi =
    (lo ≤ a) × Children a inner b × Children b rest hi

Children-weaken :
    (lo hi hi' : ℕ) (ss : Sections) → hi ≤ hi' → Children lo ss hi → Children lo ss hi'
Children-weaken lo hi hi' no_sections p h = omega (arith, p, h)
Children-weaken lo hi hi' (add_section (section a b level inner) rest) p h =
    (h.0, h.1, Children-weaken b hi hi' rest p h.2)

Children-bound : (lo hi : ℕ) (ss : Sections) → Children lo ss hi → lo ≤ hi
Children-bound lo hi no_sections h = h
Children-bound lo hi (add_section (section a b level inner) rest) h =
    let within = Children-bound a b inner h.1 in
    let behind = Children-bound b hi rest h.2 in omega (arith, within, behind, h.0)

Children-append :
    (lo a b level : ℕ) (inner ss : Sections)
    → Children lo ss a
    → Children a inner b
    → Children lo (append_section ss (section a b level inner)) b
Children-append lo a b level inner no_sections h k = (h, k, omega arith)
Children-append lo a b level inner (add_section (section c d l i) rest) h k =
    (h.0, h.1, Children-append d a b level inner rest h.2 k)

-- The sections of a frame so far end at a place inside it.
abbrev pub Filled : Frame → ℕ → Type 0
Filled f e = Children f.start f.sections e × (e ≤ f.stop)

-- Each frame lies in the one below it, behind the sections that one has so far.
abbrev pub Stacked : ℕ → Frame → List Frame → ℕ → Type 0
Stacked hi top [] e = Filled top e × (top.start ≡ 0) × (top.stop ≡ hi)
Stacked hi top (f ∷ fs) e = Filled top e × (top.stop ≤ f.stop) × Stacked hi f fs top.start

Stacked-Filled :
    (hi : ℕ) (top : Frame) (below : List Frame) (e : ℕ) → Stacked hi top below e → Filled top e
Stacked-Filled hi top [] e h = h.0
Stacked-Filled hi top (f ∷ fs) e h = h.0

Filled-raise : (f : Frame) (e e' : ℕ) → e ≤ e' → e' ≤ f.stop → Filled f e → Filled f e'
Filled-raise f e e' p q h = (Children-weaken f.start e e' f.sections p h.0, q)

Stacked-raise :
    (hi : ℕ) (top : Frame) (below : List Frame) (e e' : ℕ)
    → e ≤ e'
    → e' ≤ top.stop
    → Stacked hi top below e
    → Stacked hi top below e'
Stacked-raise hi top [] e e' p q h = (Filled-raise top e e' p q h.0, h.1, h.2)
Stacked-raise hi top (f ∷ fs) e e' p q h = (Filled-raise top e e' p q h.0, h.1, h.2)

-- to close a frame into the one below it
Stacked-close :
    (hi : ℕ) (top f : Frame) (fs : List Frame) (e : ℕ)
    → Stacked hi top (f ∷ fs) e
    → Stacked hi (close_into top f) fs top.stop
Stacked-close hi top f [] e (filled, inside, (under, low, high)) = (
  (
    Children-append f.start top.start top.stop top.level top.sections f.sections under.0
        (Children-weaken top.start e top.stop top.sections filled.1 filled.0),
    inside,
  ),
  low,
  high,
)
Stacked-close hi top f (g ∷ gs) e (filled, inside, (under, within, rest)) = (
  (
    Children-append f.start top.start top.stop top.level top.sections f.sections under.0
        (Children-weaken top.start e top.stop top.sections filled.1 filled.0),
    inside,
  ),
  within,
  rest,
)

pop_until-Stacked :
    (hi at : ℕ) (top : Frame) (below : List Frame) (e : ℕ)
    → Stacked hi top below e
    → e ≤ at
    → at ≤ hi
    → (e' : ℕ) × Stacked hi (pop_until at top below).0 (pop_until at top below).1 e'
      × (e' ≤ at)
      × (at ≤ (pop_until at top below).0.stop)
unfolding pop_until
pop_until-Stacked hi at top [] e h p q = (e, h, p, omega (arith, q, h.2))
pop_until-Stacked hi at top (f ∷ fs) e h p q = elim (Bool-cases (leb top.stop at)) [
  | inl b ↦ rw b (
      pop_until-Stacked hi at (close_into top f) fs top.stop (Stacked-close hi top f fs e h)
        (ground (arith, b)) q)
  | inr b ↦ rw b (e, h, p, ground (arith, b))
]

-- The ranges rise from a place on, and are inside the file.
abbrev pub Rising : ℕ → ℕ → List DeclRange → Type 0
Rising hi m [] = Unit
Rising hi m (r ∷ rs) = (m ≤ r.start) × (r.start ≤ r.stop) × (r.start ≤ hi) × Rising hi r.start rs

open_range-Stacked :
    (hi e : ℕ) (r : DeclRange) (top : Frame) (below : List Frame)
    → Stacked hi top below e
    → e ≤ r.start
    → r.start ≤ r.stop
    → r.start ≤ top.stop
    → Stacked hi (open_range r (top, below)).0 (open_range r (top, below)).1 r.start
unfolding open_range
open_range-Stacked hi e r top below h p q s =
    let raised = Stacked-raise hi top below e r.start p s h in
    let low = Children-bound top.start e top.sections (Stacked-Filled hi top below e h).0 in
    elim (Bool-cases (r.start =? top.start && r.stop =? top.stop)) [
      | inl b ↦ rw b raised
      | inr b ↦
          (let same : (clipped r top).start ≡ r.start = ground (arith, low, p) in
            rw b (
              (ground (arith, low, p), ground (arith, q, s)),
              ground arith,
              subst (Stacked hi top below) (sym same) raised,
            ))
    ]

-- A section from one place to another, which holds its sections.
abbrev pub Nested : ℕ → ℕ → Section → Type 0
Nested lo hi (section a b level inner) = (a ≡ lo) × (b ≡ hi) × Children a inner b

close_all-Nested :
    (hi : ℕ) (top : Frame) (below : List Frame) (e : ℕ)
    → Stacked hi top below e
    → Nested 0 hi (close_all top below)
close_all-Nested hi top [] e h =
    (h.1, h.2, Children-weaken top.start e top.stop top.sections h.0.1 h.0.0)
close_all-Nested hi top (f ∷ fs) e h =
    close_all-Nested hi (close_into top f) fs top.stop (Stacked-close hi top f fs e h)

pub nest_ranges-Nested :
    (hi e : ℕ) (rs : List DeclRange) (top : Frame) (below : List Frame)
    → Stacked hi top below e
    → Rising hi e rs
    → Nested 0 hi (nest_ranges rs (top, below))
unfolding nest_ranges
nest_ranges-Nested hi e [] top below h k = close_all-Nested hi top below e h
nest_ranges-Nested hi e (r ∷ rs) top below h k =
    let (e', stacked, p, q) = pop_until-Stacked hi r.start top below e h k.0 k.2 in
    let popped = pop_until r.start top below in
    nest_ranges-Nested hi r.start rs (open_range r popped).0 (open_range r popped).1
      (open_range-Stacked hi e' r popped.0 popped.1 stacked p k.1 q) k.3
