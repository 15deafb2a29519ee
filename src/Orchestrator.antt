-- ===== src/Orchestrator.antt =====
-- retrieval/orchestrator.go: the search that decomposes a query, fuses what the parts find, has the
-- evidence judged and searches again while the verdict is not confident. The search function and
-- the three model-backed stages are parameters; a stage is absent where Go's interface is nil.
-- Sub-queries are searched one after the other, and the error that comes back is that of the first
-- one in query order: the goroutines only decide which of several errors is seen.
pub mod Fusion
pub mod Retrieval
pub mod Rounds
pub mod Guarantees
pub mod Documents
use amoxtli.Common.{
  ◌+◌, Bool, true, false, not, ◌&&◌, ◌||◌, ℕ, zero, suc, String, Option, none, some, List, [], ◌∷◌,
  ◌++◌, ◌==◌, leb, if◌then◌else◌,
}
use amoxtli.Common.Int.{ℤ}
use amoxtli.Common.Result.{Result, ok, err, ◌>>=◌, Run, done, failed, out_of_fuel, on_ok}
use amoxtli.Floats.{Floats}
use amoxtli.Search.{SectionId, SearchResult}
use amoxtli.Evidence.{filter_relevant, demote_irrelevant}
use amoxtli.Evaluator.{
  GroundingStatus, valid, partial, invalid, GroundingResult, EvidenceEvaluation,
}
use Fusion.{fuse_results}

pub data GroundingMode : Type 0 where
  filter_mode demote_mode : GroundingMode

-- retrieval/stages.go: the stages that a request may skip
pub data Stage : Type 0 where
  grounding reformulate decompose rerank : Stage

-- internal/stagectx: the set of allowed stages, if the context carries one
stage_is : Stage → Stage → Bool
stage_is grounding grounding = true
stage_is reformulate reformulate = true
stage_is decompose decompose = true
stage_is rerank rerank = true
stage_is _ _ = false

unfoldable pub allowed_in : List Stage → Stage → Bool
unfolding stage_is
allowed_in [] stage = false
allowed_in (s ∷ ss) stage = stage_is s stage || allowed_in ss stage

unfoldable pub skipped : Option (List Stage) → Stage → Bool
unfolding allowed_in
skipped none stage = false
skipped (some allowed) stage = not (allowed_in allowed stage)

-- what Search is given beside the query
pub record Request : Type 0 where
  pub max_results : ℤ
  pub collections : List String
  pub stages : Option (List Stage)

pub record Orchestrator (fl : Floats) (E : Type 0) : Type 0 where
  pub search : String → ℤ → List String → Result E (List (SearchResult fl.Float))
  pub evaluator :
      Option (String → List (SearchResult fl.Float) → Result E (EvidenceEvaluation fl.Float))
  pub reformulator : Option (String → String → Result E String)
  pub decomposer : Option (String → Result E (List String))
  pub min_score : fl.Float
  pub max_rounds : ℕ
  pub mode : GroundingMode

-- Result of orchestrator.go
pub record Outcome (F : Type 0) : Type 0 where
  pub results : List (SearchResult F)
  pub verdict : Option (GroundingResult F)
  pub rounds : ℕ

-- How one pass through the loop of Search ends: by `break`, or with the evidence for another pass.
pub data Round (F : Type 0) : Type 0 where
  finish : Outcome F → Round F
  again : List (SearchResult F) → GroundingResult F → Round F

-- the original query, then each sub-question that differs from it
unfoldable pub distinct_queries : String → List String → List String
distinct_queries query [] = []
distinct_queries query (sq ∷ rest) =
    let more = distinct_queries query rest in if sq == query then more else sq ∷ more

module _ (fl : Floats) {E : Type 0} (o : Orchestrator fl E) (request : Request) where
  -- the legs of one retrieval, each query searched on its own
  unfoldable pub search_all : List String → Result E (List (List (SearchResult fl.Float)))
  search_all [] = ok []
  search_all (q ∷ qs) = o.search q request.max_results request.collections >>= λ r.
      search_all qs >>= λ rs. ok (r ∷ rs)

  unfoldable pub retrieve_parts :
      Option (String → Result E (List String)) → String → Result E (List (SearchResult fl.Float))
  unfolding search_all distinct_queries
  retrieve_parts none query = o.search query request.max_results request.collections
  retrieve_parts (some split) query = do
    sub_queries ← split query
    groups ← search_all (query ∷ distinct_queries query sub_queries)
    ok (fuse_results groups)

  unfoldable pub retrieve : String → Result E (List (SearchResult fl.Float))
  unfolding retrieve_parts skipped
  retrieve query =
      retrieve_parts (if skipped request.stages decompose then none else o.decomposer) query

  -- the relevance signal, by the mode
  unfoldable pub apply_relevance :
      List (SearchResult fl.Float) → List SectionId → List (SearchResult fl.Float)
  apply_relevance rs relevant = elim o.mode [
    | demote_mode ↦ demote_irrelevant rs relevant
    | filter_mode ↦ filter_relevant rs relevant
  ]

  unfoldable pub is_valid : GroundingStatus → Bool
  is_valid valid = true
  is_valid _ = false

  unfoldable pub confident : GroundingResult fl.Float → Bool
  unfolding is_valid
  confident verdict = is_valid verdict.status && fl.le o.min_score verdict.score

  -- the query of the next round: none where the loop breaks
  unfoldable pub next_query :
      String
      → GroundingResult fl.Float
      → ℕ
      → Option (String → String → Result E String)
      → Result E (Option String)
  unfolding confident skipped
  next_query query verdict rounds none = ok none
  next_query query verdict rounds (some rewrite) =
      if confident verdict || (skipped request.stages reformulate || leb o.max_rounds rounds)
      then ok none
      else rewrite query verdict.explanation >>= λ q.
          ok (if q == "" || q == query then none else some q)

  -- the end of one pass: the next retrieval, where there is one
  unfoldable pub conclude :
      List (SearchResult fl.Float)
      → GroundingResult fl.Float
      → ℕ
      → Option String
      → Result E (Round fl.Float)
  conclude kept verdict rounds none =
      ok (finish (record { results = kept; verdict = some verdict; rounds = rounds }))
  conclude kept verdict rounds (some reformulated) = do
    more ← retrieve reformulated
    ok (again (fuse_results (kept ∷ more ∷ [])) verdict)

  module _ (judge : String → List (SearchResult fl.Float) → Result E (EvidenceEvaluation fl.Float))
      (query : String) where
    -- one pass through the body of the loop in Search, with `results` not empty
    unfoldable pub judge_round : List (SearchResult fl.Float) → ℕ → Result E (Round fl.Float)
    unfolding next_query apply_relevance conclude
    judge_round results rounds = do
      evaluation ← judge query results
      next ← next_query query evaluation.grounding rounds o.reformulator
      conclude (apply_relevance results evaluation.relevant) evaluation.grounding rounds next

    -- the loop `for len(results) > 0` of Search
    unfoldable pub judge_loop :
        ℕ
        → List (SearchResult fl.Float)
        → Option (GroundingResult fl.Float)
        → ℕ
        → Run E (Outcome fl.Float)
    judge_loop zero results verdict rounds = out_of_fuel
    judge_loop (suc fuel) [] verdict rounds =
        done (record { results = []; verdict = verdict; rounds = rounds })
    judge_loop (suc fuel) (r ∷ rs) verdict rounds = on_ok (judge_round (r ∷ rs) rounds) λ round.
        elim round [
          | finish outcome ↦ done outcome
          | again results last ↦ judge_loop fuel results (some last) (rounds + 1)
        ]

  unfoldable pub judged :
      Option (String → List (SearchResult fl.Float) → Result E (EvidenceEvaluation fl.Float))
      → String
      → List (SearchResult fl.Float)
      → Run E (Outcome fl.Float)
  unfolding judge_loop judge_round
  judged none query results = done (record { results = results; verdict = none; rounds = 0 })
  judged (some judge) query results = judge_loop judge query (suc o.max_rounds) results none 0

  -- Search: enough fuel for max_rounds more rounds and the test that ends the loop
  unfoldable pub run_search : String → Run E (Outcome fl.Float)
  unfolding judged retrieve
  run_search query = on_ok (retrieve query) λ results.
      judged (if skipped request.stages grounding then none else o.evaluator) query results
