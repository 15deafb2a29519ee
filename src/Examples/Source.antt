-- ===== src/Examples/Source.antt =====
-- A file of nine bytes, its declarations, and one of them that has too many words.
use amoxtli.Common.{some, ◌≡◌, refl, ℕ, ◌-◌, zero, suc, List, [], ◌∷◌, ◌=?◌, arith}
use amoxtli.Common.Int.{pos}
use amoxtli.Common.Result.{done}
use amoxtli.Source.{
  Rune, bytes, Document, Section, section, no_sections, add_section, split_leaf, split_oversized,
}
use amoxtli.Source.Nesting.{DeclRange, declared_tree, parse}
use amoxtli.Source.Nested.{Nested}
use amoxtli.Source.Declared.{parse-Cuts}
use amoxtli.Source.Tiling.{leaf_bounds, Cuts}

abbrev byte : ℕ → Rune
byte c = record { point = c; more = 0 }

-- as many runes as asked for: one for each line of two letters
abbrev lines : ℕ → List Rune
lines zero = []
lines (suc zero) = byte 97 ∷ []
lines (suc (suc n)) = byte 97 ∷ byte 10 ∷ lines n

bytes-lines : (n : ℕ) → bytes (lines n) ≡ n
bytes-lines zero = refl
bytes-lines (suc zero) = refl
bytes-lines (suc (suc n)) = omega (arith, bytes-lines n)

abbrev file : Document
file = record {
  slice = λ start stop. lines (stop - start);
  bytes-slice = λ start stop p. omega (arith, bytes-lines (stop - start), p);
}

abbrev root : Section
root = section 0 9 0 (add_section (section 1 6 1 no_sections) no_sections)

splits :
    split_oversized (λ c. c =? 10) file root (pos 1)
    ≡ done (
        section 0 9 0 (
          add_section
            (section 1 6 1 (
              add_section (section 1 3 2 no_sections) (
                add_section
                  (section 3 5 2 no_sections)
                  (add_section (section 5 6 2 no_sections) no_sections))))
            no_sections))
unfolding split_oversized split_leaf
splits = refl

-- a function, and a class with a method that the query captures twice
abbrev declarations : List DeclRange
declarations =
    record { start = 7; stop = 9 }
    ∷ record { start = 1; stop = 6 }
    ∷ record { start = 2; stop = 5 }
    ∷ record { start = 1; stop = 6 }
    ∷ []

nests :
    declared_tree 9 (some declarations)
    ≡ section 0 9 0 (
        add_section
          (section 1 6 1 (add_section (section 2 5 2 no_sections) no_sections))
          (add_section (section 7 9 1 no_sections) no_sections))
unfolding declared_tree
nests = refl

parse-Cuts_example :
    Nested 0 9 (declared_tree 9 (some declarations))
    × (s' : Section) × (parse (λ c. c =? 10) file 9 (some declarations) (pos 1) ≡ done s')
    × Cuts (leaf_bounds (declared_tree 9 (some declarations))) (leaf_bounds s')
parse-Cuts_example =
    parse-Cuts (λ c. c =? 10) file 9 (some declarations) (pos 1)
      (
        (omega arith, omega arith),
        (
          (omega arith, omega arith),
          ((omega arith, omega arith), ((omega arith, omega arith), tt)),
        ),
      )
