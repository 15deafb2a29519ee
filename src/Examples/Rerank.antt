-- ===== src/Examples/Rerank.antt =====
-- A reranking of three documents by a model that answers twice.
use mathlib.Core.List.{Perm}
use amoxtli.Common.{◌≡◌, refl, ℕ, String, some, none, List, [], ◌∷◌, map, ◌=?◌}
use amoxtli.Common.Int.{pos}
use amoxtli.Common.Keyed.{Keyed, lookup}
use amoxtli.Common.Lists.{keep}
use amoxtli.Common.Result.{ok}
use amoxtli.Common.Stable.{Ascending}
use amoxtli.Rerank.{Reranker, apply_ranking, rank_responses, rerank}
use amoxtli.Rerank.Ranks.{place, ids_of, lookup-rank_responses}
use amoxtli.Common.Distinct.{firsts}
use amoxtli.Rerank.Order.{BestOf, Ranked, apply_ranking-Stable}
use amoxtli.Search.{SearchResult}
use amoxtli.Examples.Scores.{halves}
use amoxtli.Examples.Search.{tools, stored}

abbrev responses : List (List String)
responses = ("s3" ∷ "s1" ∷ []) ∷ ("s1" ∷ "s4" ∷ []) ∷ []

abbrev given : List (SearchResult ℕ)
given =
    record { source = "x"; sections = "s0" ∷ []; score = 1; section_scores = none }
    ∷ record { source = "y"; sections = "s4" ∷ "s1" ∷ []; score = 1; section_scores = none }
    ∷ record { source = "z"; sections = "s3" ∷ []; score = 1; section_scores = none }
    ∷ []

ranks_s4 : lookup "s4" (rank_responses responses ([], 0)).0 ≡ some 2
unfolding rank_responses
ranks_s4 = refl

lookup-rank_responses_example :
    lookup "s4" (rank_responses responses ([], 0)).0 ≡ place 0 "s4" (firsts [] (ids_of responses))
lookup-rank_responses_example = lookup-rank_responses responses "s4"

abbrev ranks : Keyed ℕ
ranks = ("s3", 0) ∷ ("s1", 1) ∷ []

apply_ranking-Stable_example :
    (best : SearchResult ℕ → ℕ) × (become : SearchResult ℕ → SearchResult ℕ) × ((r : SearchResult ℕ)
      → BestOf ranks r.sections (best r) × Ranked halves ranks (best r) r (become r))
    × Perm (apply_ranking halves given ranks) (map become given)
    × Ascending best (apply_ranking halves given ranks)
    × ((k : ℕ)
        → keep (λ r. best r =? k) (apply_ranking halves given ranks)
          ≡ map become (keep (λ r. best r =? k) given))
apply_ranking-Stable_example = apply_ranking-Stable halves ranks given

abbrev reranker : Reranker String
reranker = record {
  words = tools;
  max_total_words = pos 0;
  max_section_words = 2;
  system_prompt = ok "rank";
  get_sections = λ ids. ok stored;
  seed = λ s. ok 1;
  complete = λ seed system prompt. ok responses;
}

abbrev returned : List (SearchResult ℕ)
returned =
    record { source = "z"; sections = "s3" ∷ []; score = 2; section_scores = some (("s3", 2) ∷ []) }
    ∷ record {
      source = "y";
      sections = "s1" ∷ "s4" ∷ [];
      score = 1;
      section_scores = some (("s1", 1) ∷ ("s4", 0) ∷ []);
    }
    ∷ record {
      source = "x";
      sections = "s0" ∷ [];
      score = 0;
      section_scores = some (("s0", 0) ∷ []);
    }
    ∷ []

reranks : rerank halves reranker "q" given ≡ ok returned
unfolding rerank
reranks = refl
