-- ===== src/Source.antt =====
-- internal/text/word.go and sourcecode/split.go: the words of a text, and the splitting of the sections
-- of a source file that have too many of them. A text is its runes as `range` decodes them, each with
-- its bytes; the tests of the package unicode are the parameter `separates`. The identifiers of the
-- sections and their links to parents and documents are left out.
pub mod Words
pub mod Pieces
pub mod Tiling
pub mod Nesting
pub mod Nested
pub mod Declared
use amoxtli.Common.{
  Bool, ℕ, zero, suc, ◌+◌, ◌-◌, Option, none, some, List, [], ◌∷◌, ◌++◌, map, if◌then◌else◌, leb,
  ◌=?◌, ◌≡◌, ◌≤◌,
}
use amoxtli.Common.Int.{ℤ, pos, negsuc}
use amoxtli.Common.Lists.{length}
use amoxtli.Common.Result.{Result, ok, err, Run, done, failed, out_of_fuel, on_ok}

-- a code point, and the bytes it takes after the first
pub record Rune : Type 0 where
  pub point : ℕ
  pub more : ℕ

-- `len` of a text, in bytes
abbrev pub bytes : List Rune → ℕ
bytes [] = 0
bytes (r ∷ rs) = suc r.more + bytes rs

pub record Word : Type 0 where
  pub start : ℕ
  pub stop : ℕ

-- the loop of SplitByWords, at a place in the text; `word` is the start of the word that is open
unfoldable pub words_from : (ℕ → Bool) → ℕ → Option ℕ → List Rune → List Word
words_from separates idx none [] = []
words_from separates idx (some start) [] = record { start = start; stop = idx - 1 } ∷ []
words_from separates idx none (r ∷ rs) =
    words_from separates (idx + suc r.more) (if separates r.point then none else some idx) rs
words_from separates idx (some start) (r ∷ rs) =
    let rest =
      words_from separates (idx + suc r.more) (if separates r.point then none else some start) rs in
    if separates r.point then record { start = start; stop = idx } ∷ rest else rest

-- SplitByWords
unfoldable pub split_by_words : (ℕ → Bool) → List Rune → List Word
unfolding words_from
split_by_words separates text = words_from separates 0 none text

-- `content[n:]`
unfoldable pub after_bytes : ℕ → List Rune → List Rune
after_bytes n [] = []
after_bytes n (r ∷ rs) =
    let rest = after_bytes (n - suc r.more) rs in if leb n 0 then r ∷ rs else rest

-- bytes.IndexByte for a line feed
unfoldable pub index_newline : List Rune → Option ℕ
index_newline [] = none
index_newline (r ∷ rs) =
    if r.point =? 10
    then some 0
    else elim (index_newline rs) [ none ↦ none | some n ↦ some (suc r.more + n) ]

-- the panic of an index out of range
pub data SplitError : Type 0 where
  index_out_of_range : SplitError

abbrev pub word_at : ℕ → List Word → Result SplitError Word
word_at n [] = err index_out_of_range
word_at zero (w ∷ ws) = ok w
word_at (suc n) (w ∷ ws) = word_at n ws

-- the end of a chunk: after the line that holds the end of its last word
unfoldable pub line_end : List Rune → Word → ℕ
unfolding after_bytes index_newline
line_end content w = elim (index_newline (after_bytes w.stop content)) [
  | none ↦ bytes content
  | some offset ↦ w.stop + offset + 1
]

abbrev pub map_ok : {A B : Type 0} → (A → B) → Result SplitError A → Result SplitError B
map_ok f (ok a) = ok (f a)
map_ok f (err e) = err e

abbrev pub map_done : {A B : Type 0} → (A → B) → Run SplitError A → Run SplitError B
map_done f (done a) = done (f a)
map_done f (failed e) = failed e
map_done f out_of_fuel = out_of_fuel

module _ (content : List Rune) (words : List Word) (max_words : ℕ) where
  -- `cut`
  unfoldable pub cut_at : ℕ → Result SplitError ℕ
  unfolding line_end
  cut_at chunk_start =
      if leb (length words) (chunk_start + max_words)
      then ok (bytes content)
      else map_ok (line_end content) (word_at (chunk_start + max_words - 1) words)

  -- the loop over the chunks, which gives the bounds of the new sections in the content
  unfoldable pub chunks : ℕ → ℕ → ℕ → Run SplitError (List (ℕ × ℕ))
  unfolding cut_at
  chunks zero chunk_start cursor = out_of_fuel
  chunks (suc fuel) chunk_start cursor =
      if leb (length words) chunk_start
      then done []
      else (on_ok (cut_at chunk_start) λ cut.
          let more =
            chunks fuel (chunk_start + max_words) (if leb cut cursor then cursor else cut) in
          if leb cut cursor
          then more
          else (if leb (bytes content) cut
              then done ((cursor, cut) ∷ [])
              else map_done (λ rest. (cursor, cut) ∷ rest) more))

mutual
  pub data Section : Type 0 where
    section : ℕ → ℕ → ℕ → Sections → Section

  pub data Sections : Type 0 where
    no_sections : Sections
    add_section : Section → Sections → Sections

-- The bytes of a document, as the runes of a part of it.
pub record Document : Type 0 where
  pub slice : ℕ → ℕ → List Rune
  pub bytes-slice : (start stop : ℕ) → start ≤ stop → start + bytes (slice start stop) ≡ stop

-- the new sections under one of a start and a level
abbrev pub children_of : ℕ → ℕ → List (ℕ × ℕ) → Sections
children_of start level [] = no_sections
children_of start level ((a, b) ∷ rest) =
    add_section (section (start + a) (start + b) (suc level) no_sections)
      (children_of start level rest)

module _ (separates : ℕ → Bool) (document : Document) (max_words : ℕ) where
  -- a section without sections
  unfoldable pub split_leaf : ℕ → ℕ → ℕ → Run SplitError Sections
  unfolding chunks split_by_words
  split_leaf start stop level =
      let content = document.slice start stop in
      let words = split_by_words separates content in
      if leb (length words) max_words
      then done no_sections
      else (map_done (children_of start level)
          (chunks content words max_words (suc (length words)) 0 0))

  unfoldable mutual
    pub split_section : Section → Run SplitError Section
    split_section (section start stop level no_sections) =
        map_done (section start stop level) (split_leaf start stop level)
    split_section (section start stop level (add_section s rest)) =
        map_done (section start stop level) (split_sections (add_section s rest))

    pub split_sections : Sections → Run SplitError Sections
    split_sections no_sections = done no_sections
    split_sections (add_section s rest) = elim (split_section s) [
      | done s' ↦ map_done (add_section s') (split_sections rest)
      | failed e ↦ failed e
      | out_of_fuel ↦ out_of_fuel
    ]

-- splitOversized
unfoldable pub split_oversized : (ℕ → Bool) → Document → Section → ℤ → Run SplitError Section
unfolding split_section
split_oversized separates document s (pos zero) = done s
split_oversized separates document s (pos (suc n)) = split_section separates document (suc n) s
split_oversized separates document s (negsuc n) = done s
