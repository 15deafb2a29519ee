-- ===== src/Rerank/Ranking.antt =====
-- retrieval/rerank.go: what applyRanking and Rerank keep of the results, and their order.
use Prim.Native.String.{◌++◌ as cat}
use mathlib.Core.List.{Perm}
use mathlib.Core.List.Perm
use amoxtli.Common.{
  ◌≡◌, refl, sym, ap, subst, ◌∙◌, ◌≤◌, inl, inr, ℕ, String, List, [], ◌∷◌, map, if◌then◌else◌,
  arith, Bool-cases, ltb, ◌=?◌,
}
use amoxtli.Common.Keyed.{Keyed}
use amoxtli.Common.Lists.{All, keep}
use amoxtli.Common.Result.{ok, bind_inv, ok-injective}
use amoxtli.Common.Stable.{
  insert_stable, stable_sort, stable_sort-perm, stable_sort-Ascending, stable_sort-keep, Ascending,
}
use amoxtli.Evaluator.Prompt.{user_prompt}
use amoxtli.Floats.{Floats}
use amoxtli.Rerank.{
  Reranker, section_rank, best_rank, result_rank, rank_sections, rank_result, apply_ranking,
  rank_responses, rerank_some, rerank, unranked,
}
use amoxtli.Search.{SectionId, SearchResult, all_section_ids}

-- The sections of a result are those it had, the best ranked first, and those of one rank, such as
-- the sections without a rank, in the order they had.
pub rank_sections-Stable :
    (fl : Floats) (rank : Keyed ℕ) (r : SearchResult fl.Float)
    → Perm (rank_sections fl rank r).sections r.sections
      × Ascending (section_rank rank) (rank_sections fl rank r).sections
      × ((k : ℕ)
          → keep (λ s. section_rank rank s =? k) (rank_sections fl rank r).sections
            ≡ keep (λ s. section_rank rank s =? k) r.sections)
unfolding rank_sections
rank_sections-Stable fl rank r = (
  stable_sort-perm (section_rank rank) r.sections,
  stable_sort-Ascending (section_rank rank) r.sections,
  λ k. stable_sort-keep (section_rank rank) k r.sections,
)

lower_comm :
    (m n b : ℕ)
    → (if ltb n (if ltb m b then m else b) then n else (if ltb m b then m else b))
      ≡ (if ltb m (if ltb n b then n else b) then m else (if ltb n b then n else b))
lower_comm m n b = ground arith

module _ (fl : Floats) (rank : Keyed ℕ) where
  -- a result with its sections ranked and its new scores
  abbrev pub reordered : SearchResult fl.Float → SearchResult fl.Float
  reordered r = rank_result fl rank (rank_sections fl rank r)

  Ascending-map :
      (xs : List (SearchResult fl.Float))
      → Ascending (result_rank rank) xs
      → Ascending (result_rank rank) (map (rank_result fl rank) xs)
  unfolding rank_result result_rank
  Ascending-map [] h = tt
  Ascending-map (x ∷ xs) h = (All-map x xs h.0, Ascending-map xs h.1)
    where
      All-map :
          (x : SearchResult fl.Float) (xs : List (SearchResult fl.Float))
          → All (λ y. result_rank rank x ≤ result_rank rank y) xs
          → All
              (λ y. result_rank rank (rank_result fl rank x) ≤ result_rank rank y)
              (map (rank_result fl rank) xs)
      All-map x [] h = tt
      All-map x (y ∷ ys) h = (h.0, All-map x ys h.1)

  keep-map :
      (k : ℕ) (xs : List (SearchResult fl.Float))
      → keep (λ x. result_rank rank x =? k) (map (rank_result fl rank) xs)
        ≡ map (rank_result fl rank) (keep (λ x. result_rank rank x =? k) xs)
  unfolding rank_result
  keep-map k [] = refl
  keep-map k (x ∷ xs) = ground (arith, keep-map k xs)

  map-map :
      (xs : List (SearchResult fl.Float))
      → map (rank_result fl rank) (map (rank_sections fl rank) xs) ≡ map reordered xs
  map-map [] = refl
  map-map (x ∷ xs) = ap (λ l. reordered x ∷ l) (map-map xs)

  best_rank-insert :
      (a : SectionId) (ss : List SectionId) (b : ℕ)
      → best_rank rank (insert_stable (section_rank rank) a ss) b ≡ best_rank rank (a ∷ ss) b
  unfolding best_rank insert_stable
  best_rank-insert a [] b = refl
  best_rank-insert a (s ∷ ss) b =
      let m = section_rank rank s in
      let n = section_rank rank a in
      elim (Bool-cases (ltb m n)) [
        | inr h ↦ rw h refl
        | inl h ↦ rw h (
            best_rank-insert a ss (if ltb m b then m else b)
            ∙ ap (best_rank rank ss) (lower_comm m n b))
      ]

  best_rank-sort :
      (ss : List SectionId) (b : ℕ)
      → best_rank rank (stable_sort (section_rank rank) ss) b ≡ best_rank rank ss b
  unfolding best_rank stable_sort
  best_rank-sort [] b = refl
  best_rank-sort (s ∷ ss) b =
      best_rank-insert s (stable_sort (section_rank rank) ss) b ∙ best_rank-sort ss _

  pub result_rank-reordered :
      (r : SearchResult fl.Float) → result_rank rank (reordered r) ≡ result_rank rank r
  unfolding result_rank rank_sections rank_result
  result_rank-reordered r = best_rank-sort r.sections unranked

  keep-reordered :
      (k : ℕ) (rs : List (SearchResult fl.Float))
      → keep (λ r. result_rank rank r =? k) (map reordered rs)
        ≡ map reordered (keep (λ r. result_rank rank r =? k) rs)
  keep-reordered k [] = refl
  keep-reordered k (r ∷ rs) = ground (arith, keep-reordered k rs, result_rank-reordered r)

  -- The order of the results, of which each is reordered.
  pub apply_ranking-Ascending :
      (results : List (SearchResult fl.Float))
      → Perm (apply_ranking fl results rank) (map reordered results)
        × Ascending (result_rank rank) (apply_ranking fl results rank)
        × ((k : ℕ)
            → keep (λ r. result_rank rank r =? k) (apply_ranking fl results rank)
              ≡ map reordered (keep (λ r. result_rank rank r =? k) results))
  unfolding apply_ranking
  apply_ranking-Ascending results =
      let given = map (rank_sections fl rank) results in
      (
        subst (Perm (apply_ranking fl results rank)) (map-map results)
            (Perm.map (rank_result fl rank) (stable_sort-perm (result_rank rank) given)),
        Ascending-map (stable_sort (result_rank rank) given)
            (stable_sort-Ascending (result_rank rank) given),
        λ k.
            keep-map k (stable_sort (result_rank rank) given)
            ∙ ap (map (rank_result fl rank)) (stable_sort-keep (result_rank rank) k given)
            ∙ sym (keep-map k given)
            ∙ ap (keep (λ r. result_rank rank r =? k)) (map-map results)
            ∙ keep-reordered k results,
      )

map-source :
    (fl : Floats) (rank : Keyed ℕ) (rs : List (SearchResult fl.Float))
    → map (λ r. r.source) (map (reordered fl rank) rs) ≡ map (λ r. r.source) rs
unfolding rank_result rank_sections
map-source fl rank [] = refl
map-source fl rank (r ∷ rs) = ap (λ l. r.source ∷ l) (map-source fl rank rs)

module _ (fl : Floats) {E : Type 0} (r : Reranker E) where
  -- A call of Rerank that succeeds returns the documents that it was given, each as often.
  pub rerank-perm :
      (query : String) (results out : List (SearchResult fl.Float))
      → rerank fl r query results ≡ ok out
      → Perm (map (λ x. x.source) out) (map (λ x. x.source) results)
  unfolding rerank rerank_some
  rerank-perm query [] out e =
      subst (λ l. Perm (map (λ x. x.source) l) []) (ok-injective e) (Perm.refl [])
  rerank-perm query (x ∷ []) out e =
      subst (λ l. Perm (map (λ x. x.source) l) (x.source ∷ [])) (ok-injective e) (Perm.refl _)
  rerank-perm query (x ∷ y ∷ rest) out e =
      let results = x ∷ y ∷ rest in
      let (system, p1, e1) = bind_inv r.system_prompt _ e in
      let (sections, p2, e2) = bind_inv (r.get_sections (all_section_ids results)) _ e1 in
      let (prompt, p3, e3) =
        bind_inv (user_prompt r.words r.max_total_words r.max_section_words sections query results)
          _ e2 in
      let (seed, p4, e4) = bind_inv (r.seed (cat system query)) _ e3 in
      let (responses, p5, e5) = bind_inv (r.complete seed system prompt) _ e4 in
      let rank = (rank_responses responses ([], 0)).0 in
      subst (λ l. Perm (map (λ x. x.source) l) (map (λ x. x.source) results)) (ok-injective e5)
        (subst (Perm (map (λ x. x.source) (apply_ranking fl results rank)))
          (map-source fl rank results)
          (Perm.map (λ x. x.source) (apply_ranking-Ascending fl rank results).0))
