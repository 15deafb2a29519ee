-- ===== src/Source/Pieces.antt =====
-- sourcecode/split.go: the chunks of one section of a source file.
use amoxtli.Common.{
  ◌≡◌, refl, ap, ◌⊎◌, ◌≤◌, ◌<◌, inl, inr, ℕ, zero, suc, ◌+◌, ◌-◌, some, List, [], ◌∷◌, arith,
  Bool-cases, Option-cases, leb, ◌=?◌,
}
use amoxtli.Common.Lists.{All, length}
use amoxtli.Common.Result.{ok, done}
use amoxtli.Source.{
  Rune, bytes, Word, after_bytes, index_newline, line_end, word_at, cut_at, chunks, map_done,
  map_ok,
}

-- The bounds follow each other from one place in a text to another.
abbrev pub Tiles : ℕ → List (ℕ × ℕ) → ℕ → Type 0
Tiles lo [] hi = lo ≡ hi
Tiles lo ((a, b) ∷ rest) hi = (a ≡ lo) × (a ≤ b) × Tiles b rest hi

bytes-after_bytes :
    (n : ℕ) (text : List Rune) → n ≤ bytes text → n + bytes (after_bytes n text) ≤ bytes text
unfolding after_bytes
bytes-after_bytes n [] h = omega (arith, h)
bytes-after_bytes n (r ∷ rs) h = elim (Bool-cases (leb n 0)) [
  | inl b ↦ rw b (ground (arith, b))
  | inr b ↦ rw b (elim (Bool-cases (leb n (suc r.more))) [
    | inl c ↦
        (let ih = bytes-after_bytes (n - suc r.more) rs (ground (arith, c)) in
          ground (arith, b, c, ih))
    | inr c ↦
        (let ih = bytes-after_bytes (n - suc r.more) rs (ground (arith, c, h)) in
          ground (arith, b, c, ih))
  ])
]

index_newline_bound : (text : List Rune) (n : ℕ) → index_newline text ≡ some n → suc n ≤ bytes text
unfolding index_newline
index_newline_bound [] n e = cc
index_newline_bound (r ∷ rs) n e = elim (Bool-cases (r.point =? 10)) [
  | inl b ↦ ground (arith, b, e)
  | inr b ↦ elim (Option-cases (index_newline rs)) [
    | inl q ↦ ground (arith, b, e, q)
    | inr (m, q) ↦ (let ih = index_newline_bound rs m q in ground (arith, b, e, q, ih))
  ]
]

line_end_bound : (text : List Rune) (w : Word) → w.stop ≤ bytes text → line_end text w ≤ bytes text
unfolding line_end
line_end_bound text w h = elim (Option-cases (index_newline (after_bytes w.stop text))) [
  | inl q ↦ rw (q, line_end) (omega arith)
  | inr (n, q) ↦
      rw (q, line_end)
        (omega (
          arith,
          index_newline_bound (after_bytes w.stop text) n q,
          bytes-after_bytes w.stop text h,
        ))
]

word_at-ok :
    {P : Word → Type 0} (n : ℕ) (ws : List Word)
    → n < length ws
    → All P ws
    → (w : Word) × (word_at n ws ≡ ok w) × P w
word_at-ok n [] p h = absurd (omega (arith, p))
word_at-ok zero (w ∷ ws) p h = (w, refl, h.0)
word_at-ok (suc n) (w ∷ ws) p h = word_at-ok n ws (omega (arith, p)) h.1

module _ (content : List Rune) (words : List Word) (n : ℕ)
    (stops : All (λ w. w.stop ≤ bytes content) words) where
  -- Where the loop goes on, the cut is in the content, and the cut of the last chunk is its end.
  cut_at-ok :
      (chunk_start : ℕ)
      → (cut : ℕ) × (cut_at content words (suc n) chunk_start ≡ ok cut)
        × (cut ≤ bytes content)
        × ((chunk_start + suc n < length words) ⊎ (cut ≡ bytes content))
  unfolding cut_at
  cut_at-ok chunk_start = elim (Bool-cases (leb (length words) (chunk_start + suc n))) [
    | inl b ↦ (bytes content, rw b refl, omega arith, inr refl)
    | inr b ↦
        (let more : chunk_start + suc n < length words = ground (arith, b) in
          let (w, e, h) = word_at-ok (chunk_start + suc n - 1) words (omega (arith, more)) stops in
          (
            line_end content w,
            rw b (ap (map_ok (line_end content)) e),
            line_end_bound content w h,
            inl more,
          ))
  ]

  -- the loop ends, without a panic
  pub chunks-Tiles :
      (fuel chunk_start cursor : ℕ)
      → 0 < fuel
      → length words < fuel + chunk_start
      → cursor ≤ bytes content
      → (chunk_start < length words) ⊎ (cursor ≡ bytes content)
      → (parts : List (ℕ × ℕ)) × (chunks content words (suc n) fuel chunk_start cursor ≡ done parts)
        × Tiles cursor parts (bytes content)
  unfolding chunks
  chunks-Tiles zero chunk_start cursor some_fuel enough inside todo =
      absurd (omega (arith, some_fuel))
  chunks-Tiles (suc fuel) chunk_start cursor some_fuel enough inside todo =
      elim (Bool-cases (leb (length words) chunk_start)) [
        | inl b ↦ ([], rw (b, chunks) refl, ground (arith, b, todo))
        | inr b ↦
            (let (cut, e, bound, next) = cut_at-ok chunk_start in
              let left : 0 < fuel = ground (arith, b, enough) in
              elim (Bool-cases (leb cut cursor)) [
                | inl c ↦
                    (let (parts, p, tiles) =
                        chunks-Tiles fuel (chunk_start + suc n) cursor left (omega (arith, enough))
                          inside (ground (arith, c, next, bound, inside)) in
                      (parts, rw (b, chunks) (rw e (rw c p)), tiles))
                | inr c ↦ elim (Bool-cases (leb (bytes content) cut)) [
                  | inl d ↦ (
                    (cursor, cut) ∷ [],
                    rw (b, chunks) (rw e (rw c (rw d refl))),
                    (refl, ground (arith, c), ground (arith, d, bound)),
                  )
                  | inr d ↦
                      (let (parts, p, tiles) =
                          chunks-Tiles fuel (chunk_start + suc n) cut left (omega (arith, enough))
                            bound (ground (arith, d, next, bound)) in
                        (
                          (cursor, cut) ∷ parts,
                          rw (b, chunks)
                              (rw e (rw c (rw d (ap (map_done (λ rest. (cursor, cut) ∷ rest)) p)))),
                          (refl, ground (arith, c), tiles),
                        ))
                ]
              ])
      ]
