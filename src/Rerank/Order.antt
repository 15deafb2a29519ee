-- ===== src/Rerank/Order.antt =====
-- retrieval/rerank.go: what applyRanking makes of each result, and the order that it gives them.
use mathlib.Core.List.{Perm}
use amoxtli.Common.{
  ◌≡◌, ◌⊎◌, refl, inl, inr, ◌≤◌, ◌+◌, ℕ, Bool, true, none, some, List, [], ◌∷◌, map, if◌then◌else◌,
  arith, eq_iff, Bool-cases, ltb, ◌=?◌, ◌||◌, ap,
}
use amoxtli.Common.Keyed.{Keyed, lookup, lookup-insert}
use amoxtli.Common.Lists.{All, keep, exists_in}
use amoxtli.Common.Stable.{Ascending}
use amoxtli.Floats.{Floats}
use amoxtli.Rerank.{
  section_rank, best_rank, result_rank, rank_sections, rank_result, apply_ranking, section_scores,
  unranked,
}
use amoxtli.Rerank.Ranking.{
  reordered, result_rank-reordered, rank_sections-Stable, apply_ranking-Ascending,
}
use amoxtli.Search.{SectionId, SearchResult}

-- the rank of a section: the one that the model gave it, or 2 ^ 30
abbrev pub rank_of : Keyed ℕ → SectionId → ℕ
rank_of rank s = elim (lookup s rank) [ none ↦ 1073741824 | some n ↦ n ]

-- The least of the ranks of the sections and of 2 ^ 30.
abbrev pub BestOf : Keyed ℕ → List SectionId → ℕ → Type 0
BestOf rank sections n =
    (n ≤ 1073741824)
    × All (λ s. n ≤ rank_of rank s) sections
    × ((n ≡ 1073741824) ⊎ (exists_in (λ s. rank_of rank s =? n) sections ≡ true))

reached_by :
    (t n b : ℕ) (rest : Bool)
    → (t ≡ (if ltb n b then n else b)) ⊎ (rest ≡ true)
    → (t ≡ b) ⊎ ((n =? t || rest) ≡ true)
reached_by t n b rest (inr e) = inr (ground (arith, e))
reached_by t n b rest (inl e) = elim (Bool-cases (ltb n b)) [
  | inl h ↦ inr (ground (arith, e, h))
  | inr h ↦ inl (ground (arith, e, h))
]

module _ (rank : Keyed ℕ) where
  best_rank-le : (ss : List SectionId) (b : ℕ) → best_rank rank ss b ≤ b
  unfolding best_rank
  best_rank-le [] b = ground arith
  best_rank-le (s ∷ ss) b =
      let n = section_rank rank s in
      let rest = best_rank-le ss (if ltb n b then n else b) in
      elim (Bool-cases (ltb n b)) [
        | inl h ↦ ground (arith, h, rest)
        | inr h ↦ ground (arith, h, rest)
      ]

  best_rank-All : (ss : List SectionId) (b : ℕ) → All (λ s. best_rank rank ss b ≤ rank_of rank s) ss
  unfolding best_rank section_rank
  best_rank-All [] b = tt
  best_rank-All (s ∷ ss) b =
      let n = rank_of rank s in
      let c = if ltb n b then n else b in
      let least : best_rank rank ss c ≤ c = best_rank-le ss c in
      (
        elim (Bool-cases (ltb n b)) [
          | inl h ↦ ground (arith, h, least)
          | inr h ↦ ground (arith, h, least)
        ],
        best_rank-All ss c,
      )

  best_rank-reached :
      (ss : List SectionId) (b : ℕ)
      → (best_rank rank ss b ≡ b)
        ⊎ (exists_in (λ s. rank_of rank s =? best_rank rank ss b) ss ≡ true)
  unfolding best_rank section_rank
  best_rank-reached [] b = inl refl
  best_rank-reached (s ∷ ss) b =
      reached_by (best_rank rank (s ∷ ss) b) (rank_of rank s) b
        (exists_in (λ x. rank_of rank x =? best_rank rank (s ∷ ss) b) ss)
        (best_rank-reached ss (if ltb (rank_of rank s) b then rank_of rank s else b))

  result_rank-BestOf :
      {F : Type 0} (r : SearchResult F) → BestOf rank r.sections (result_rank rank r)
  unfolding result_rank
  result_rank-BestOf r = (
    best_rank-le r.sections unranked,
    best_rank-All r.sections unranked,
    best_rank-reached r.sections unranked,
  )

module _ (fl : Floats) (rank : Keyed ℕ) where
  -- `1.0 / float64(1 + n)`
  abbrev pub inverse : ℕ → fl.Float
  inverse n = fl.quot fl.one (fl.of_int (1 + n))

  scores_kept :
      (ss : List SectionId) (s : SectionId) (scores : Keyed fl.Float)
      → lookup s scores ≡ some (inverse (rank_of rank s))
      → lookup s (section_scores fl rank ss scores) ≡ some (inverse (rank_of rank s))
  unfolding section_scores section_rank
  scores_kept [] s scores h = h
  scores_kept (x ∷ ss) s scores h =
      scores_kept ss s _
        (ground (arith, h, eq_iff x s, lookup-insert x s (inverse (rank_of rank x)) scores))

  scores_found :
      (ss : List SectionId) (scores : Keyed fl.Float)
      → All (λ s. lookup s (section_scores fl rank ss scores) ≡ some (inverse (rank_of rank s))) ss
  unfolding section_scores section_rank
  scores_found [] scores = tt
  scores_found (s ∷ ss) scores = (
    scores_kept ss s _
        (ground (arith, eq_iff s s, lookup-insert s s (inverse (rank_of rank s)) scores)),
    scores_found ss _,
  )

  -- What a result becomes, of which the best section has a rank: its sections in the order of their
  -- ranks, those of one rank in the order they had, with the scores that the ranks give.
  abbrev pub Ranked : ℕ → SearchResult fl.Float → SearchResult fl.Float → Type 0
  Ranked best r after =
      (after.source ≡ r.source)
      × Perm after.sections r.sections
      × Ascending (rank_of rank) after.sections
      × ((k : ℕ)
          → keep (λ s. rank_of rank s =? k) after.sections
            ≡ keep (λ s. rank_of rank s =? k) r.sections)
      × (after.score ≡ inverse best)
      × ((scores : Keyed fl.Float) × (after.section_scores ≡ some scores)
          × All (λ s. lookup s scores ≡ some (inverse (rank_of rank s))) after.sections)

  reordered-Ranked :
      (r : SearchResult fl.Float) → Ranked (result_rank rank r) r (reordered fl rank r)
  unfolding rank_result rank_sections section_rank result_rank
  reordered-Ranked r =
      let (same, order, stable) = rank_sections-Stable fl rank r in
      (
        refl,
        same,
        order,
        stable,
        ap (inverse) (result_rank-reordered fl rank r),
        (_, refl, scores_found _ []),
      )

  -- The results are those that were given, each with its sections in the order of their ranks,
  -- those of one rank in the order they had, and with the scores 1 / (1 + rank) of its sections and
  -- of its best one, where a section that the model did not rank has the rank 2 ^ 30; the results
  -- come in the order of their best sections, and those of one rank are in the order they had.
  pub apply_ranking-Stable :
      (results : List (SearchResult fl.Float))
      → (best : SearchResult fl.Float → ℕ) × (become : SearchResult fl.Float
          → SearchResult fl.Float)
        × ((r : SearchResult fl.Float)
            → BestOf rank r.sections (best r) × Ranked (best r) r (become r))
        × Perm (apply_ranking fl results rank) (map become results)
        × Ascending best (apply_ranking fl results rank)
        × ((k : ℕ)
            → keep (λ r. best r =? k) (apply_ranking fl results rank)
              ≡ map become (keep (λ r. best r =? k) results))
  apply_ranking-Stable results =
      let (same, order, stable) = apply_ranking-Ascending fl rank results in
      (
        result_rank rank,
        reordered fl rank,
        (λ r. (result_rank-BestOf rank r, reordered-Ranked r)),
        same,
        order,
        stable,
      )
