-- ===== src/Examples/Search.antt =====
-- A search over two small documents: a prompt, a verdict, and the orchestrated rounds.
use Prim.Native.String.{◌++◌ as cat}
use amoxtli.Common.{
  ◌≡◌, refl, ◌≢◌, ◌⊎◌, ◌≤◌, false, true, ℕ, String, Option, none, some, List, [], ◌∷◌, ◌==◌,
  if◌then◌else◌,
}
use amoxtli.Common.Int.{pos, positive_or}
use amoxtli.Common.Lists.{All, length}
use amoxtli.Common.Keyed.{contains}
use amoxtli.Common.Distinct.{firsts, Distinct}
use amoxtli.Common.Result.{ok, done, out_of_fuel}
use amoxtli.Search.{SectionId, SearchResult, all_section_ids}
use amoxtli.Evidence.{filter_relevant, with_sections, filter_section_scores}
use amoxtli.Evaluator.{EvidenceEvaluation, EvaluatorEnv, LlmResponse, valid, partial, evaluate}
use amoxtli.Evaluator.Prompt.{WordTools, Section, user_prompt, prompt_header}
use amoxtli.Evaluator.Budget.{Document, word_count, render, user_prompt_budget}
use amoxtli.Orchestrator.{
  Orchestrator, Request, Outcome, filter_mode, skipped, grounding, retrieve, run_search,
}
use amoxtli.Orchestrator.Rounds.{Judged}
use amoxtli.Orchestrator.Retrieval.{retrieve_keeps_query}
use amoxtli.Orchestrator.Fusion.{fuse_results, group_ids}
use amoxtli.Orchestrator.Fusion.Union.{all_section_ids-fuse_results}
use amoxtli.Orchestrator.Guarantees.{run_search_ends, run_search-Settled}
use amoxtli.Examples.Scores.{halves}
use amoxtli.Examples.Evidence.{guide, notes, found}

-- Words are separated elsewhere: a content stands for three words.
abbrev pub tools : WordTools
tools = record {
  fields = λ c. c ∷ c ∷ c ∷ [];
  join = λ ws. elim ws [ [] ↦ "" | w ∷ _ ↦ w ];
  normal = λ s. s;
}

abbrev pub stored : SectionId → Option (Section String)
stored s = some (record { id = s; content = ok "text" })

-- a budget of four words: the second section is cut, the third is not reached
abbrev cut_prompt : String
cut_prompt =
    cat (prompt_header "q")
      (render tools (("c", "text" ∷ "text" ∷ []) ∷ ("a", "text" ∷ "text" ∷ []) ∷ []))

builds_prompt : user_prompt tools (pos 4) 2 stored "q" found ≡ ok cut_prompt
unfolding user_prompt
builds_prompt = refl

user_prompt_budget_example :
    (docs : List Document) × (cut_prompt ≡ cat (prompt_header "q") (render tools docs))
    × All (λ d. length d.1 ≤ 2) docs
    × (word_count docs ≤ positive_or 8000 (pos 4))
user_prompt_budget_example =
    user_prompt_budget tools (pos 4) 2 stored "q" found cut_prompt builds_prompt

-- A model that finds nothing to say of the query "q", and likes "b" otherwise.
abbrev answers : String → List (LlmResponse ℕ)
answers p =
    if p == cut_prompt
    then []
    else record { relevant = "b" ∷ []; status = "valid"; score = 7; explanation = "" } ∷ []

abbrev env : EvaluatorEnv halves String
env = record {
  words = tools;
  max_total_words = pos 4;
  max_section_words = 2;
  get_sections = λ ids. ok stored;
  seed = λ s. ok 0;
  complete = λ seed p. ok (answers p);
}

abbrev sure : EvidenceEvaluation ℕ
sure = record {
  relevant = "b" ∷ [];
  grounding = record { status = valid; score = 2; explanation = "" };
}

judges : evaluate halves env "sys" "r" found ≡ ok sure
unfolding evaluate user_prompt
judges = refl

all_section_ids-fuse_results_example :
    (all_section_ids (fuse_results (found ∷ found ∷ []))
      ≡ firsts [] (group_ids (found ∷ found ∷ [])))
    × Distinct (all_section_ids (fuse_results (found ∷ found ∷ [])))
    × ((s : SectionId)
        → contains (all_section_ids (fuse_results (found ∷ found ∷ []))) s
          ≡ contains (group_ids (found ∷ found ∷ [])) s)
all_section_ids-fuse_results_example = all_section_ids-fuse_results (found ∷ found ∷ [])

-- Judged by the evaluator above; "q" is rewritten to "r", and decomposed into itself and "s".
abbrev searcher : Orchestrator halves String
searcher = record {
  search = λ q n cs. ok (if q == "q" then notes ∷ [] else guide ∷ []);
  evaluator = some (evaluate halves env "sys");
  reformulator = some (λ q hint. ok "r");
  decomposer = some (λ q. ok (q ∷ "s" ∷ []));
  min_score = 1;
  max_rounds = 1;
  mode = filter_mode;
}

abbrev plain_searcher : Orchestrator halves String
plain_searcher = record searcher { evaluator = none }

abbrev request : Request
request = record { max_results = pos 5; collections = []; stages = none }

run_search_ends_example : run_search halves searcher request "q" ≢ out_of_fuel
run_search_ends_example = run_search_ends halves searcher request "q"

abbrev outcome : Outcome ℕ
outcome = record {
  results = found;
  verdict = some (record {
    status = partial;
    score = 1;
    explanation = "evidence evaluator returned no verdict";
  });
  rounds = 1;
}

retrieves : retrieve halves searcher request "q" ≡ ok found
unfolding retrieve fuse_results with_sections filter_section_scores
retrieves = refl

retrieve_keeps_query_example :
    (base : List (SearchResult ℕ)) × (searcher.search "q" request.max_results request.collections
      ≡ ok base)
    × ((s : SectionId)
        → contains (all_section_ids base) s ≡ true
        → contains (all_section_ids found) s ≡ true)
retrieve_keeps_query_example = retrieve_keeps_query halves searcher request "q" found retrieves

runs : run_search halves searcher request "q" ≡ done outcome
unfolding run_search evaluate user_prompt fuse_results with_sections filter_relevant
    filter_section_scores
runs = refl

allowed : skipped request.stages grounding ≡ false
unfolding skipped
allowed = refl

run_search-Settled_example :
    (outcome.rounds ≤ 1)
    × ((outcome.results ≡ [])
        ⊎ Judged halves searcher request (evaluate halves env "sys") "q" outcome)
run_search-Settled_example =
    run_search-Settled halves searcher request (evaluate halves env "sys") "q" outcome refl allowed
      runs
