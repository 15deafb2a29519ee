-- ===== src/Source/Nesting.antt =====
-- sourcecode/parser.go: nestSections, and Parse from the ranges of the declarations that the parser of
-- the language finds. The stack of open sections holds them with their sections so far; Go appends a
-- section to its parent where it is opened, and here it is appended where it is closed.
use amoxtli.Common.{
  Bool, ◌&&◌, ℕ, suc, Option, none, some, List, [], ◌∷◌, if◌then◌else◌, ltb, leb, ◌=?◌, compare,
  Ordering,
}
use amoxtli.Common.Int.{ℤ}
use amoxtli.Common.Sort.{sort}
use amoxtli.Common.Result.{Run}
use amoxtli.Source.{
  Document, Section, section, Sections, no_sections, add_section, SplitError, split_oversized,
}

-- declRange
pub record DeclRange : Type 0 where
  pub start : ℕ
  pub stop : ℕ

-- the comparison that sorts the ranges
abbrev pub by_start : DeclRange → DeclRange → Ordering
by_start a b = elim (compare a.start b.start) [
  | Ordering.lt ↦ Ordering.lt
  | Ordering.gt ↦ Ordering.gt
  | Ordering.eq ↦ compare b.stop a.stop
]

-- slices.Compact
unfoldable pub compact : List DeclRange → List DeclRange
compact [] = []
compact (a ∷ []) = a ∷ []
compact (a ∷ b ∷ rest) =
    let others = compact (b ∷ rest) in
    if a.start =? b.start && a.stop =? b.stop then others else a ∷ others

-- an open section
pub record Frame : Type 0 where
  pub start : ℕ
  pub stop : ℕ
  pub level : ℕ
  pub sections : Sections

abbrev pub append_section : Sections → Section → Sections
append_section no_sections s = add_section s no_sections
append_section (add_section t rest) s = add_section t (append_section rest s)

abbrev pub closed : Frame → Section
closed f = section f.start f.stop f.level f.sections

-- a section in its parent
abbrev pub close_into : Frame → Frame → Frame
close_into top parent = record parent { sections = append_section parent.sections (closed top) }

-- the loop that takes from the stack what ends before a range
unfoldable pub pop_until : ℕ → Frame → List Frame → Frame × List Frame
pop_until at top [] = (top, [])
pop_until at top (f ∷ fs) =
    let popped = pop_until at (close_into top f) fs in
    if leb top.stop at then popped else (top, f ∷ fs)

-- the section of a range, inside its parent
abbrev pub clipped : DeclRange → Frame → Frame
clipped r parent = record {
  start = if ltb r.start parent.start then parent.start else r.start;
  stop = if ltb parent.stop r.stop then parent.stop else r.stop;
  level = suc parent.level;
  sections = no_sections;
}

unfoldable pub open_range : DeclRange → Frame × List Frame → Frame × List Frame
open_range r (top, below) =
    if r.start =? top.start && r.stop =? top.stop
    then (top, below)
    else (clipped r top, top ∷ below)

-- the end of the stack: every open section is closed
abbrev pub close_all : Frame → List Frame → Section
close_all top [] = closed top
close_all top (f ∷ fs) = close_all (close_into top f) fs

-- the loop over the ranges
unfoldable pub nest_ranges : List DeclRange → Frame × List Frame → Section
unfolding pop_until open_range
nest_ranges [] (top, below) = close_all top below
nest_ranges (r ∷ rs) (top, below) = nest_ranges rs (open_range r (pop_until r.start top below))

-- nestSections, for the root of a file of some bytes
unfoldable pub nest_sections : ℕ → List DeclRange → Section
unfolding nest_ranges compact sort
nest_sections size ranges =
    nest_ranges (compact (sort by_start ranges))
      (record { start = 0; stop = size; level = 0; sections = no_sections }, [])

-- the tree of Parse, from the outcome of extractDeclarations: its ranges, or none where it skipped the
-- file or failed
unfoldable pub declared_tree : ℕ → Option (List DeclRange) → Section
unfolding nest_sections
declared_tree size none = section 0 size 0 no_sections
declared_tree size (some ranges) = nest_sections size ranges

-- Parse, for a file of some bytes
unfoldable pub parse :
    (ℕ → Bool) → Document → ℕ → Option (List DeclRange) → ℤ → Run SplitError Section
unfolding declared_tree split_oversized
parse separates document size ranges max_words =
    split_oversized separates document (declared_tree size ranges) max_words
