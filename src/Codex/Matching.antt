-- ===== src/Codex/Matching.antt =====
-- amoxtli.go: the documents that SearchIterative returns under a filter.
use amoxtli.Common.{◌≡◌, ◌≢◌, refl, subst, true, String, none, some, List}
use amoxtli.Common.Lists.{All}
use amoxtli.Common.Result.{Result, ok, Run, done, failed, out_of_fuel, bind_inv, ok-injective}
use amoxtli.Codex.{finished, CodexOptions, ingest_options, search_fn, search_iterative}
use amoxtli.Filter.Canonical.{Printer}
use amoxtli.Filter.Match.{Filter, matches}
use amoxtli.Filter.Norm.{Host, Metadata}
use amoxtli.Filter.Value.{Condition, add_condition}
use amoxtli.Manager.{Manager, source_key}
use amoxtli.Manager.Cursor.{Codec}
use amoxtli.Manager.Judge.Verdicts.{Consistent}
use amoxtli.Manager.Search.{SearchFailure, manager_search}
use amoxtli.Manager.Search.Answers.{Chooses, Matches, manager_search_ends, manager_search-Matches}
use amoxtli.Orchestrator.{Orchestrator, Outcome}
use amoxtli.Orchestrator.Documents.{run_search-Of}
use amoxtli.Search.{SearchResult}

finished-ok :
    {E A : Type 0} (r : Run E A) (ends : r ≢ out_of_fuel) {value : A}
    → finished r ends ≡ ok value
    → r ≡ done value
finished-ok (done value) ends e = cc
finished-ok (failed problem) ends e = cc
finished-ok out_of_fuel ends e = absurd (ends refl)

module _ {h : Host} {E : Type 0} (m : Manager h E) (codec : Codec h.floats.Float E)
    (printer : Printer h) (digest : String → String) (filter : Filter h)
    (provider : List String → Result E (String → Metadata h)) (truth : String → Metadata h)
    (c : Consistent m filter provider truth) (cond : Condition h.Number h.Time h.Other)
    (cs : Filter h) (f : filter ≡ add_condition cond cs) (s : m.search_filtered ≡ none)
    (p : m.metadata_by_sources ≡ some provider)
    (chooses : (rerank : String
        → List (SearchResult h.floats.Float)
        → Result E (List (SearchResult h.floats.Float)))
      → m.reranker ≡ some rerank
      → Chooses (Matches m codec printer digest filter provider truth c) rerank) where
  search_fn-Matches :
      (opts : CodexOptions h) (query : String) (results : List (SearchResult h.floats.Float))
      → opts.filter ≡ filter
      → search_fn m codec printer digest opts.filter query opts.max_results opts.collections
        ≡ ok results
      → All (Matches m codec printer digest filter provider truth c) results
  unfolding search_fn
  search_fn-Matches opts query results o e =
      let options =
        ingest_options m codec printer digest opts.filter opts.max_results opts.collections in
      let ((page, next), q, e1) =
        bind_inv
          (finished (manager_search m codec printer digest query options)
            (manager_search_ends m codec printer digest query options))
          _ e in
      subst (All (Matches m codec printer digest filter provider truth c)) (ok-injective e1)
        (manager_search-Matches m codec printer digest filter provider truth c query options page
          next cond cs o f s p chooses (finished-ok _ _ q)).0

  -- Where the index cannot filter, the store answers with the metadata of each document that it is
  -- asked for and the reranker makes up no results, an iterative search with a filter that returns
  -- results returns only documents that match the filter, whatever the decomposer, the evaluator and
  -- the reformulator answer.
  pub search_iterative-Matches :
      (stages : Orchestrator h.floats (SearchFailure E)) (query : String) (opts : CodexOptions h)
      (out : Outcome h.floats.Float)
      → opts.filter ≡ filter
      → search_iterative m codec printer digest stages query opts ≡ done out
      → All (Matches m codec printer digest filter provider truth c) out.results
  unfolding search_iterative
  search_iterative-Matches stages query opts out o e =
      run_search-Of h.floats
        (record stages { search = search_fn m codec printer digest opts.filter })
        (record {
          max_results = opts.max_results;
          collections = opts.collections;
          stages = opts.stages;
        })
        (λ source. matches h filter (truth (source_key m source)) ≡ true)
        (λ q results r. search_fn-Matches opts q results o r) query out e
