-- ===== src/Examples/Manager/Iterative.antt =====
-- An iterative search with a filter, over the three documents.
use amoxtli.Common.{◌≡◌, refl, String, none, [], ◌∷◌, ℕ}
use amoxtli.Common.Int.{pos, plus}
use amoxtli.Common.Lists.{All}
use amoxtli.Common.Result.{ok, done}
use amoxtli.Codex.{CodexOptions, search_iterative}
use amoxtli.Codex.Matching.{search_iterative-Matches}
use amoxtli.Filter.Build.{eq}
use amoxtli.Filter.Match.{matches, matches_condition}
use amoxtli.Filter.Norm.{equal}
use amoxtli.Filter.Validate.{valid_key}
use amoxtli.Filter.Value.{str, no_conditions, to_conditions}
use amoxtli.Manager.Search.{SearchFailure, manager_search}
use amoxtli.Manager.Search.Answers.{Matches}
use amoxtli.Orchestrator.{Orchestrator, Outcome, filter_mode}
use amoxtli.Examples.Filters.{host, printer}
use amoxtli.Examples.Scores.{halves}
use amoxtli.Examples.Manager.{manager, by_ada, all_known, truth, store_answers, keeps_all, a, c}
use amoxtli.Examples.Manager.Cursors.{texts}

-- Without a model, a search is one retrieval.
abbrev stages : Orchestrator halves (SearchFailure String)
stages = record {
  search = λ query max_results collections. ok [];
  evaluator = none;
  reformulator = none;
  decomposer = none;
  min_score = 1;
  max_rounds = 2;
  mode = filter_mode;
}

abbrev options : CodexOptions host
options = record { max_results = pos 2; collections = "docs" ∷ []; filter = by_ada; stages = none }

abbrev outcome : Outcome ℕ
outcome = record { results = a ∷ c ∷ []; verdict = none; rounds = 0 }

iterated : search_iterative manager texts printer (λ s. "f") stages "q" options ≡ done outcome
unfolding search_iterative manager_search eq to_conditions valid_key plus matches matches_condition
    equal
iterated = refl

search_iterative-Matches_example :
    All (Matches manager texts printer (λ s. "f") by_ada all_known truth store_answers) (a ∷ c ∷ [])
unfolding to_conditions
search_iterative-Matches_example =
    search_iterative-Matches manager texts printer (λ s. "f") by_ada all_known truth store_answers
      (eq "author" (str "ada")) no_conditions refl refl refl keeps_all stages "q" options outcome
      refl iterated
