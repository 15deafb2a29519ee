-- ===== src/Source/Words.antt =====
-- internal/text/word.go: the places of the words of SplitByWords in the text.
use amoxtli.Common.{
  ◌≡◌, ◌≤◌, ◌<◌, inl, inr, Bool, ℕ, suc, ◌+◌, none, some, List, [], ◌∷◌, arith, Bool-cases,
}
use amoxtli.Common.Lists.{All}
use amoxtli.Source.{Rune, bytes, Word, words_from, split_by_words}

-- The words stand one behind the other in a part of a text.
abbrev pub Spaced : ℕ → List Word → ℕ → Type 0
Spaced lo [] hi = lo ≤ suc hi
Spaced lo (w ∷ ws) hi = (lo ≤ w.start) × (w.start ≤ w.stop) × Spaced (suc w.stop) ws hi

module _ (separates : ℕ → Bool) where
  Spaced-weaken : (lo lo' hi : ℕ) (ws : List Word) → lo ≤ lo' → Spaced lo' ws hi → Spaced lo ws hi
  Spaced-weaken lo lo' hi [] p h = omega (arith, p, h)
  Spaced-weaken lo lo' hi (w ∷ ws) p h = (omega (arith, p, h.0), h.1, h.2)

  words_from-Spaced :
      (text : List Rune) (idx hi : ℕ)
      → idx + bytes text ≡ hi
      → Spaced idx (words_from separates idx none text) hi
        × ((start : ℕ) → start < idx → Spaced start (words_from separates idx (some start) text) hi)
  unfolding words_from
  words_from-Spaced [] idx hi e =
      (omega (arith, e), λ start p. (omega arith, omega (arith, p), omega (arith, p, e)))
  words_from-Spaced (r ∷ rs) idx hi e =
      let next = idx + suc r.more in
      let ih = words_from-Spaced rs next hi (omega (arith, e)) in
      elim (Bool-cases (separates r.point)) [
        | inl b ↦ (
          rw (b, words_from) (Spaced-weaken idx next hi _ (omega arith) ih.0),
          λ start p.
              rw (b, words_from)
                (
                  omega arith,
                  omega (arith, p),
                  Spaced-weaken (suc idx) next hi _ (omega arith) ih.0,
                ),
        )
        | inr b ↦ (
          rw (b, words_from) (ih.1 idx (omega arith)),
          λ start p. rw (b, words_from) (ih.1 start (omega (arith, p))),
        )
      ]

  Spaced-bound : (lo hi : ℕ) (ws : List Word) → Spaced lo ws hi → lo ≤ suc hi
  Spaced-bound lo hi [] h = h
  Spaced-bound lo hi (w ∷ ws) h =
      let later = Spaced-bound (suc w.stop) hi ws h.2 in omega (arith, h.0, h.1, later)

  Spaced-stops : (lo hi : ℕ) (ws : List Word) → Spaced lo ws hi → All (λ w. w.stop ≤ hi) ws
  Spaced-stops lo hi [] h = tt
  Spaced-stops lo hi (w ∷ ws) h = (
    (let b = Spaced-bound (suc w.stop) hi ws h.2 in omega (arith, b)),
    Spaced-stops (suc w.stop) hi ws h.2,
  )

  -- SplitByWords gives the bounds of words that lie in the text, in its order and apart from each
  -- other.
  pub split_by_words-Spaced :
      (text : List Rune) → Spaced 0 (split_by_words separates text) (bytes text)
  unfolding split_by_words
  split_by_words-Spaced text = (words_from-Spaced text 0 (bytes text) (omega arith)).0

  pub split_by_words-stops :
      (text : List Rune) → All (λ w. w.stop ≤ bytes text) (split_by_words separates text)
  split_by_words-stops text = Spaced-stops 0 (bytes text) _ (split_by_words-Spaced text)
