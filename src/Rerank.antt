-- ===== src/Rerank.antt =====
-- retrieval/rerank.go: the reranker that asks a model for an order of the sections. The section store,
-- the word functions, the seed and the model's completion with its parsing are parameters. Go changes
-- the results in place; here the results are values, and a function returns what it leaves of them.
pub mod Ranks
pub mod Ranking
pub mod Order
use Prim.Native.String.{◌++◌ as cat}
use amoxtli.Common.{
  Bool, ℕ, zero, suc, ◌+◌, String, Option, none, some, List, [], ◌∷◌, map, if◌then◌else◌, ltb,
}
use amoxtli.Common.Int.{ℤ}
use amoxtli.Common.Keyed.{Keyed, lookup, insert}
use amoxtli.Common.Result.{Result, ok, ◌>>=◌}
use amoxtli.Common.Stable.{stable_sort}
use amoxtli.Evaluator.Prompt.{Section, WordTools, user_prompt}
use amoxtli.Floats.{Floats}
use amoxtli.Search.{SectionId, SearchResult, all_section_ids}

-- the rank of a section that the model did not rank
abbrev pub unranked : ℕ
unranked = 1073741824

-- sectionRank
unfoldable pub section_rank : Keyed ℕ → SectionId → ℕ
section_rank rank id = elim (lookup id rank) [ none ↦ unranked | some r ↦ r ]

-- the loop of resultRank
unfoldable pub best_rank : Keyed ℕ → List SectionId → ℕ → ℕ
unfolding section_rank
best_rank rank [] best = best
best_rank rank (s ∷ rest) best =
    best_rank rank rest (if ltb (section_rank rank s) best then section_rank rank s else best)

-- resultRank
unfoldable pub result_rank : {F : Type 0} → Keyed ℕ → SearchResult F → ℕ
unfolding best_rank
result_rank rank r = best_rank rank r.sections unranked

module _ (fl : Floats) where
  -- `1.0 / float64(1+n)`
  abbrev pub rank_score : ℕ → fl.Float
  rank_score n = fl.quot fl.one (fl.of_int (1 + n))

  -- the loop that fills the map of scores
  unfoldable pub section_scores : Keyed ℕ → List SectionId → Keyed fl.Float → Keyed fl.Float
  unfolding section_rank
  section_scores rank [] scores = scores
  section_scores rank (s ∷ rest) scores =
      section_scores rank rest (insert s (rank_score (section_rank rank s)) scores)

  -- the loop over the results: their sections in the order of the ranks, with new scores
  unfoldable pub rank_sections : Keyed ℕ → SearchResult fl.Float → SearchResult fl.Float
  unfolding section_scores section_rank stable_sort
  rank_sections rank r =
      let sections = stable_sort (section_rank rank) r.sections in
      record {
        source = r.source;
        sections = sections;
        score = r.score;
        section_scores = some (section_scores rank sections []);
      }

  -- the last loop
  unfoldable pub rank_result : Keyed ℕ → SearchResult fl.Float → SearchResult fl.Float
  unfolding result_rank
  rank_result rank r = record {
    source = r.source;
    sections = r.sections;
    score = rank_score (result_rank rank r);
    section_scores = r.section_scores;
  }

  unfoldable pub apply_ranking :
      List (SearchResult fl.Float) → Keyed ℕ → List (SearchResult fl.Float)
  unfolding rank_sections rank_result result_rank stable_sort
  apply_ranking results rank =
      map (rank_result rank) (stable_sort (result_rank rank) (map (rank_sections rank) results))

-- the loop over the identifiers of one response; `next` is the rank of the next one
unfoldable pub rank_ids : List String → Keyed ℕ × ℕ → Keyed ℕ × ℕ
rank_ids [] (rank, next) = (rank, next)
rank_ids (id ∷ rest) (rank, next) = elim (lookup id rank) [
  | some seen ↦ rank_ids rest (rank, next)
  | none ↦ rank_ids rest (insert id next rank, suc next)
]

-- the loop over the responses
unfoldable pub rank_responses : List (List String) → Keyed ℕ × ℕ → Keyed ℕ × ℕ
unfolding rank_ids
rank_responses [] state = state
rank_responses (ranking ∷ rest) state = rank_responses rest (rank_ids ranking state)

-- What the reranker is built with, and what it calls.
pub record Reranker (E : Type 0) : Type 0 where
  pub words : WordTools
  pub max_total_words : ℤ
  pub max_section_words : ℕ
  pub system_prompt : Result E String
  pub get_sections : List SectionId → Result E (SectionId → Option (Section E))
  pub seed : String → Result E ℕ
  pub complete : ℕ → String → String → Result E (List (List String))

module _ (fl : Floats) {E : Type 0} (r : Reranker E) where
  -- Rerank, for two results or more
  unfoldable pub rerank_some :
      String → List (SearchResult fl.Float) → Result E (List (SearchResult fl.Float))
  unfolding user_prompt rank_responses apply_ranking
  rerank_some query results = do
    system ← r.system_prompt
    sections ← r.get_sections (all_section_ids results)
    prompt ← user_prompt r.words r.max_total_words r.max_section_words sections query results
    seed ← r.seed (cat system query)
    responses ← r.complete seed system prompt
    ok (apply_ranking fl results (rank_responses responses ([], 0)).0)

  -- Rerank
  unfoldable pub rerank :
      String → List (SearchResult fl.Float) → Result E (List (SearchResult fl.Float))
  unfolding rerank_some
  rerank query [] = ok []
  rerank query (x ∷ []) = ok (x ∷ [])
  rerank query (x ∷ y ∷ rest) = rerank_some query (x ∷ y ∷ rest)
