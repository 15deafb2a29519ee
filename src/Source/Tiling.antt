-- ===== src/Source/Tiling.antt =====
-- sourcecode/split.go: the sections without sections of a source file, before and after
-- splitOversized.
use mathlib.Core.List.{append_assoc, append-nil}
use amoxtli.Common.{
  ◌≡◌, refl, ap, sym, subst, ◌∙◌, ◌≤◌, inl, inr, Bool, ℕ, zero, suc, ◌+◌, List, [], ◌∷◌, ◌++◌,
  arith, Bool-cases, leb,
}
use amoxtli.Common.Int.{ℤ, pos, negsuc}
use amoxtli.Common.Lists.{All, length, All-parts}
use amoxtli.Common.Result.{done}
use amoxtli.Source.{
  bytes, split_by_words, Document, Section, section, Sections, no_sections, add_section,
  children_of, map_done, split_leaf, split_section, split_sections, split_oversized,
}
use amoxtli.Source.Pieces.{Tiles, chunks-Tiles}
use amoxtli.Source.Words.{split_by_words-stops}

-- the bounds of the sections without sections
abbrev mutual
  pub leaf_bounds : Section → List (ℕ × ℕ)
  leaf_bounds (section start stop level no_sections) = (start, stop) ∷ []
  leaf_bounds (section start stop level (add_section s rest)) = leaf_bounds_of (add_section s rest)

  pub leaf_bounds_of : Sections → List (ℕ × ℕ)
  leaf_bounds_of no_sections = []
  leaf_bounds_of (add_section s rest) = leaf_bounds s ++ leaf_bounds_of rest

-- Each of the first bounds is cut into bounds that follow each other, in the same order.
abbrev pub Cuts : List (ℕ × ℕ) → List (ℕ × ℕ) → Type 0
Cuts [] out = out ≡ []
Cuts ((a, b) ∷ rest) out =
    (parts : List (ℕ × ℕ)) × (tail : List (ℕ × ℕ)) × (out ≡ parts ++ tail)
    × Tiles a parts b
    × Cuts rest tail

-- the bounds of a section are in order
abbrev pub Ordered : ℕ × ℕ → Type 0
Ordered (a, b) = a ≤ b

Cuts-append :
    (xs ys out out' : List (ℕ × ℕ)) → Cuts xs out → Cuts ys out' → Cuts (xs ++ ys) (out ++ out')
Cuts-append [] ys out out' h k = rw h k
Cuts-append (x ∷ xs) ys out out' (parts, tail, e, t, h) k = (
  parts,
  tail ++ out',
  ap (λ l. l ++ out') e ∙ append_assoc parts tail out',
  t,
  Cuts-append xs ys tail out' h k,
)

children_of-Tiles :
    (start level lo hi : ℕ) (parts : List (ℕ × ℕ))
    → Tiles lo parts hi
    → Tiles (start + lo) (leaf_bounds_of (children_of start level parts)) (start + hi)
children_of-Tiles start level lo hi [] h = ap (λ x. start + x) h
children_of-Tiles start level lo hi ((a, b) ∷ parts) h =
    (ap (λ x. start + x) h.0, omega (arith, h.1), children_of-Tiles start level b hi parts h.2)

module _ (separates : ℕ → Bool) (document : Document) (n : ℕ) where
  leaf-Tiles :
      (start stop level len : ℕ) (parts : List (ℕ × ℕ))
      → start ≤ stop
      → start + len ≡ stop
      → Tiles 0 parts len
      → Tiles start (leaf_bounds (section start stop level (children_of start level parts))) stop
  leaf-Tiles start stop level len [] p e h = (refl, p, refl)
  leaf-Tiles start stop level len ((a, b) ∷ parts) p e h =
      subst (Tiles start (leaf_bounds_of (children_of start level ((a, b) ∷ parts)))) e (
        subst
          (λ x. Tiles x (leaf_bounds_of (children_of start level ((a, b) ∷ parts))) (start + len))
          (omega arith) (children_of-Tiles start level 0 len ((a, b) ∷ parts) h))

  split_leaf-ok :
      (start stop level : ℕ)
      → start ≤ stop
      → (children : Sections) × (split_leaf separates document (suc n) start stop level
          ≡ done children)
        × Tiles start (leaf_bounds (section start stop level children)) stop
  unfolding split_leaf
  split_leaf-ok start stop level p =
      let content = document.slice start stop in
      let words = split_by_words separates content in
      elim (Bool-cases (leb (length words) (suc n))) [
        | inl b ↦ (no_sections, rw b refl, (refl, p, refl))
        | inr b ↦
            (let (parts, e, tiles) =
                chunks-Tiles content words n (split_by_words-stops separates content)
                  (suc (length words)) 0 0 (omega arith) (omega arith) (omega arith)
                  (inl (ground (arith, b))) in
              (
                children_of start level parts,
                rw b (ap (map_done (children_of start level)) e),
                leaf-Tiles start stop level (bytes content) parts p
                    (document.bytes-slice start stop p) tiles,
              ))
      ]

  split_sections-add :
      (s s' : Section) (rest rest' : Sections)
      → split_section separates document (suc n) s ≡ done s'
      → split_sections separates document (suc n) rest ≡ done rest'
      → split_sections separates document (suc n) (add_section s rest) ≡ done (add_section s' rest')
  unfolding split_sections
  split_sections-add s s' rest rest' e e' =
      rw (e, split_sections) (ap (map_done (add_section s')) e')

  mutual
    unfolding split_section

    split_section-Cuts :
        (s : Section)
        → All Ordered (leaf_bounds s)
        → (s' : Section) × (split_section separates document (suc n) s ≡ done s')
          × Cuts (leaf_bounds s) (leaf_bounds s')
    split_section-Cuts (section start stop level no_sections) h =
        let (children, e, t) = split_leaf-ok start stop level h.0 in
        (
          section start stop level children,
          ap (map_done (section start stop level)) e,
          (leaf_bounds (section start stop level children), [], sym (append-nil _), t, refl),
        )
    split_section-Cuts (section start stop level (add_section s rest)) h =
        let (here, later) = All-parts Ordered (leaf_bounds s) (leaf_bounds_of rest) h in
        let (s', e, c) = split_section-Cuts s here in
        let (rest', e', c') = split_sections-Cuts rest later in
        (
          section start stop level (add_section s' rest'),
          ap (map_done (section start stop level)) (split_sections-add s s' rest rest' e e'),
          Cuts-append (leaf_bounds s) (leaf_bounds_of rest) (leaf_bounds s') (leaf_bounds_of rest')
              c c',
        )

    split_sections-Cuts :
        (ss : Sections)
        → All Ordered (leaf_bounds_of ss)
        → (ss' : Sections) × (split_sections separates document (suc n) ss ≡ done ss')
          × Cuts (leaf_bounds_of ss) (leaf_bounds_of ss')
    split_sections-Cuts no_sections h = (no_sections, refl, refl)
    split_sections-Cuts (add_section s rest) h =
        let (here, later) = All-parts Ordered (leaf_bounds s) (leaf_bounds_of rest) h in
        let (s', e, c) = split_section-Cuts s here in
        let (rest', e', c') = split_sections-Cuts rest later in
        (
          add_section s' rest',
          split_sections-add s s' rest rest' e e',
          Cuts-append (leaf_bounds s) (leaf_bounds_of rest) (leaf_bounds s') (leaf_bounds_of rest')
              c c',
        )

Cuts-same : (xs : List (ℕ × ℕ)) → All Ordered xs → Cuts xs xs
Cuts-same [] h = refl
Cuts-same ((a, b) ∷ xs) h = ((a, b) ∷ [], xs, refl, (refl, h.0, refl), Cuts-same xs h.1)

-- Where the bounds of the sections are in order, splitOversized ends without a panic, and each
-- section without sections is left as it is or cut into sections that follow each other from its
-- start to its end: no byte of the file is lost or repeated.
pub split_oversized-Cuts :
    (separates : ℕ → Bool) (document : Document) (s : Section) (max_words : ℤ)
    → All Ordered (leaf_bounds s)
    → (s' : Section) × (split_oversized separates document s max_words ≡ done s')
      × Cuts (leaf_bounds s) (leaf_bounds s')
unfolding split_oversized
split_oversized-Cuts separates document s (pos zero) h = (s, refl, Cuts-same (leaf_bounds s) h)
split_oversized-Cuts separates document s (pos (suc n)) h =
    split_section-Cuts separates document n s h
split_oversized-Cuts separates document s (negsuc n) h = (s, refl, Cuts-same (leaf_bounds s) h)
