-- ===== src/Codex.antt =====
-- amoxtli.go: the search function that newOrchestrator gives to the orchestrator, which is the search
-- of the manager, and SearchIterative.
pub mod Matching
use amoxtli.Common.{◌≡◌, ◌≢◌, refl, String, List, Option}
use amoxtli.Common.Int.{ℤ, pos}
use amoxtli.Common.Result.{Result, ok, err, ◌>>=◌, Run, done, failed, out_of_fuel}
use amoxtli.Filter.Canonical.{Printer}
use amoxtli.Filter.Match.{Filter}
use amoxtli.Filter.Norm.{Host}
use amoxtli.Manager.{Manager, ManagerOptions}
use amoxtli.Manager.Cursor.{Codec}
use amoxtli.Manager.Search.{SearchFailure, manager_search}
use amoxtli.Manager.Search.Answers.{manager_search_ends}
use amoxtli.Orchestrator.{Stage, Request, Orchestrator, Outcome, run_search}
use amoxtli.Search.{SearchResult}

-- the outcome of a loop that does not run out of fuel
abbrev pub finished : {E A : Type 0} (r : Run E A) → r ≢ out_of_fuel → Result E A
finished (done value) ends = ok value
finished (failed problem) ends = err problem
finished out_of_fuel ends = absurd (ends refl)

-- SearchOptions of Codex, as SearchIterative uses them
pub record CodexOptions (h : Host) : Type 0 where
  pub max_results : ℤ
  pub collections : List String
  pub filter : Filter h
  pub stages : Option (List Stage)

module _ {h : Host} {E : Type 0} (m : Manager h E) (codec : Codec h.floats.Float E)
    (printer : Printer h) (digest : String → String) where
  -- the options of the manager's search
  abbrev pub ingest_options : Filter h → ℤ → List String → ManagerOptions h
  ingest_options filter max_results collections = record {
    max_results = max_results;
    collections = collections;
    filter = filter;
    cursor = "";
    candidate_pool_size = pos 0;
  }

  -- `searchFn`
  unfoldable pub search_fn :
      Filter h
      → String
      → ℤ
      → List String
      → Result (SearchFailure E) (List (SearchResult h.floats.Float))
  search_fn filter query max_results collections =
      finished
        (manager_search m codec printer digest query
          (ingest_options filter max_results collections))
        (manager_search_ends m codec printer digest query
          (ingest_options filter max_results collections))
      >>= λ (results, next). ok results

  -- SearchIterative, with the stages that newOrchestrator takes from the options
  unfoldable pub search_iterative :
      Orchestrator h.floats (SearchFailure E)
      → String
      → CodexOptions h
      → Run (SearchFailure E) (Outcome h.floats.Float)
  unfolding search_fn run_search
  search_iterative stages query opts =
      run_search h.floats (record stages { search = search_fn opts.filter })
        (record {
          max_results = opts.max_results;
          collections = opts.collections;
          stages = opts.stages;
        })
        query
