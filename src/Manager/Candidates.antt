-- ===== src/Manager/Candidates.antt =====
-- ingest/manager.go: candidateWindow and searchCandidates, which fetches the candidates of a page and
-- widens the fetch while the filter leaves too few. The loop runs on fuel.
pub mod Gather
pub mod Found
use Prim.Native.Nat.{min}
use amoxtli.Common.{
  Bool, true, false, not, ◌&&◌, ◌||◌, ℕ, zero, suc, ◌*◌, String, Option, none, some, List, [],
  if◌then◌else◌, ltb, leb, is_some,
}
use amoxtli.Common.Int.{ℤ, pos, negsuc, at_least}
use amoxtli.Common.Keyed.{Keyed}
use amoxtli.Common.Lists.{length}
use amoxtli.Common.Result.{Result, ok, err, ◌>>=◌, Run, done, failed, out_of_fuel, on_ok}
use amoxtli.Filter.Match.{Filter}
use amoxtli.Filter.Norm.{Host, Metadata}
use amoxtli.Filter.Value.{Conditions, no_conditions, add_condition}
use amoxtli.Manager.{Manager, ManagerOptions}
use amoxtli.Manager.Judge.{apply_filter}
use amoxtli.Pipeline.Transformers.{SearchOptions as IndexOptions}
use amoxtli.Search.{SearchResult}

-- Values of Go's untyped constants.
abbrev pub default_candidate_pool : ℕ
default_candidate_pool = 100

abbrev pub candidate_fetch_factor : ℕ
candidate_fetch_factor = 3

abbrev pub candidate_fetch_growth : ℕ
candidate_fetch_growth = 3

abbrev pub max_candidate_fetch : ℕ
max_candidate_fetch = 500

unfoldable pub candidate_window : ℤ → ℕ → ℕ
candidate_window (negsuc n) factor = 0
candidate_window (pos n) factor =
    if leb n 0
    then 0
    else (if ltb max_candidate_fetch n
        then max_candidate_fetch
        else min (n * factor) max_candidate_fetch)

-- `min(n, maxCandidateFetch)`
abbrev pub bounded_fetch : ℤ → ℤ
bounded_fetch (pos n) = pos (min n max_candidate_fetch)
bounded_fetch (negsuc n) = negsuc n

-- `opts.CandidatePoolSize > 0`
abbrev pub is_positive : ℤ → Bool
is_positive (pos zero) = false
is_positive (pos (suc n)) = true
is_positive (negsuc n) = false

-- `window = max(window, min(defaultCandidatePool, maxCandidateFetch))`
abbrev pub pooled : ℤ → ℤ
pooled (pos n) = if leb default_candidate_pool n then pos n else pos default_candidate_pool
pooled (negsuc n) = pos default_candidate_pool

-- `target > 1`
abbrev pub above_one : ℤ → Bool
above_one (pos n) = ltb 1 n
above_one (negsuc n) = false

-- what the search without a filter asks for
unfoldable pub unfiltered_window : Bool → ℤ → ℤ
unfiltered_window reranks target =
    bounded_fetch (if reranks || above_one target then pooled target else target)

-- The failure of a search: of a call, or of a filter where the store knows no metadata.
pub data CandidateError (E : Type 0) : Type 0 where
  failed_call : E → CandidateError E
  no_metadata : CandidateError E

abbrev pub called : {E A : Type 0} → Result E A → Result (CandidateError E) A
called (ok value) = ok value
called (err problem) = err (CandidateError.failed_call problem)

abbrev pub is_unfiltered : {N T O : Type 0} → Conditions N T O → Bool
is_unfiltered no_conditions = true
is_unfiltered (add_condition c cs) = false

module _ {h : Host} {E : Type 0} (m : Manager h E) (query : String)
    (collections : List String) where
  -- the function `search` of searchCandidates
  unfoldable pub fetch : ℤ → Result (CandidateError E) (List (SearchResult h.floats.Float))
  fetch limit =
      called (m.search query (record { max_results = limit; collections = some collections }))

  -- one pass of the loop: the search, and the filter on its results
  unfoldable pub gather_round :
      (List String → Result E (String → Metadata h))
      → Filter h
      → ℕ
      → Keyed Bool
      → Result
          (CandidateError E)
          (List (SearchResult h.floats.Float) × (List (SearchResult h.floats.Float) × Keyed Bool))
  unfolding fetch apply_filter
  gather_round provider filter window verdicts = fetch (pos window) >>= λ results.
      called (apply_filter m filter provider results verdicts) >>= λ judged. ok (results, judged)

  -- the condition that ends the loop
  abbrev pub settled :
      ℤ → ℕ → List (SearchResult h.floats.Float) → List (SearchResult h.floats.Float) → Bool
  settled target window results kept =
      at_least (length kept) target
      || (ltb (length results) window || leb max_candidate_fetch window)

  -- the loop, from a window and the verdicts so far
  unfoldable pub gather :
      (List String → Result E (String → Metadata h))
      → Filter h
      → ℤ
      → ℕ
      → ℕ
      → Keyed Bool
      → Run (CandidateError E) (List (SearchResult h.floats.Float))
  unfolding gather_round
  gather provider filter target zero window verdicts = out_of_fuel
  gather provider filter target (suc fuel) window verdicts =
      on_ok (gather_round provider filter window verdicts) λ (results, (kept, verdicts')).
        let wider =
          gather provider filter target fuel
            (min (window * candidate_fetch_growth) max_candidate_fetch) verdicts' in
        if settled target window results kept then done kept else wider

  -- searchCandidates where the index is not filterable and there is a filter
  unfoldable pub filtered_candidates :
      Option (List String → Result E (String → Metadata h))
      → Filter h
      → ℤ
      → ℤ
      → Run (CandidateError E) (List (SearchResult h.floats.Float))
  unfolding gather candidate_window
  filtered_candidates none filter pool target =
      if is_positive pool
      then (on_ok (fetch pool) λ results. failed CandidateError.no_metadata)
      else failed CandidateError.no_metadata
  filtered_candidates (some provider) filter pool target =
      if is_positive pool
      then (on_ok (fetch pool) λ results.
          on_ok (called (apply_filter m filter provider results [])) λ (kept, verdicts). done kept)
      else gather provider filter target 7 (candidate_window target candidate_fetch_factor) []

  -- searchCandidates where the index is not filterable
  unfoldable pub local_candidates :
      Filter h → ℤ → ℤ → Run (CandidateError E) (List (SearchResult h.floats.Float))
  unfolding fetch filtered_candidates unfiltered_window
  local_candidates no_conditions pool target =
      on_ok
        (fetch (if is_positive pool then pool else unfiltered_window (is_some m.reranker) target))
        done
  local_candidates (add_condition c cs) pool target =
      filtered_candidates m.metadata_by_sources (add_condition c cs) pool target

  -- searchCandidates
  unfoldable pub search_candidates :
      Filter h → ℤ → ℤ → Run (CandidateError E) (List (SearchResult h.floats.Float))
  unfolding local_candidates
  search_candidates filter pool target = elim m.search_filtered [
    | none ↦ local_candidates filter pool target
    | some filtered ↦
        if is_unfiltered filter
        then local_candidates filter pool target
        else (on_ok
            (called (
              filtered query filter (record {
                max_results = bounded_fetch (if is_positive pool then pool else target);
                collections = some collections;
              })))
            done)
  ]
