-- ===== src/Manager/Search.antt =====
-- ingest/manager.go: Search and rerankTop. The digest of a filter's encoding is a parameter.
pub mod Answers
use amoxtli.Common.{
  Bool, true, false, ℕ, zero, suc, String, Option, none, some, List, [], ◌∷◌, ◌++◌, if◌then◌else◌,
  leb,
}
use amoxtli.Common.Int.{ℤ, pos, negsuc, plus, times, positive_or}
use amoxtli.Common.Lists.{length, take, drop}
use amoxtli.Common.Result.{Result, ok, err, ◌>>=◌, Run, done, failed, out_of_fuel, on_ok}
use amoxtli.Filter.Canonical.{Printer, canonical_bytes}
use amoxtli.Filter.Match.{Filter}
use amoxtli.Filter.Norm.{Host}
use amoxtli.Filter.Validate.{FilterError, validate}
use amoxtli.Manager.{Manager, ManagerOptions}
use amoxtli.Manager.Candidates.{CandidateError, search_candidates}
use amoxtli.Manager.Cursor.{Codec, CursorError, resume_cursor, paginate}
use amoxtli.Search.{SearchResult}

pub data SearchFailure (E : Type 0) : Type 0 where
  bad_filter : FilterError → SearchFailure E
  bad_cursor : CursorError E → SearchFailure E
  no_collection : E → SearchFailure E
  no_candidates : CandidateError E → SearchFailure E
  not_reranked : E → SearchFailure E

-- an error, under the name that Search gives to its origin
abbrev pub under : {E E' A : Type 0} → (E → E') → Result E A → Result E' A
under name (ok value) = ok value
under name (err problem) = err (name problem)

abbrev pub checked : Option FilterError → Result FilterError (Unit {0})
checked none = ok tt
checked (some e) = err e

abbrev pub under_run : {E E' A : Type 0} → (E → E') → Run E A → Run E' A
under_run name (done value) = done value
under_run name (failed problem) = failed (name problem)
under_run name out_of_fuel = out_of_fuel

-- the rest of the search, after a loop that runs on fuel
abbrev pub on_done : {E A B : Type 0} → Run E A → (A → Run E B) → Run E B
on_done (done value) next = next value
on_done (failed problem) next = failed problem
on_done out_of_fuel next = out_of_fuel

-- `max(pageSize*rerankWindowFactor, minRerankWindow)`
unfoldable pub rerank_window : ℕ → ℕ
unfolding times
rerank_window page_size = elim (times page_size 4) [
  | pos n ↦ if leb 20 n then n else 20
  | negsuc n ↦ 20
]

-- rerankTop
unfoldable pub rerank_top :
    {F E : Type 0}
    → (String → List (SearchResult F) → Result E (List (SearchResult F)))
    → String
    → List (SearchResult F)
    → ℕ
    → Result E (List (SearchResult F))
unfolding rerank_window
rerank_top rerank query results page_size =
    let window = rerank_window page_size in
    if leb (length results) window
    then rerank query results
    else (rerank query (take window results) >>= λ head. ok (head ++ drop window results))

-- the reranker, where there is one
unfoldable pub reranked :
    {F E : Type 0}
    → Option (String → List (SearchResult F) → Result E (List (SearchResult F)))
    → String
    → List (SearchResult F)
    → ℕ
    → Result E (List (SearchResult F))
unfolding rerank_top
reranked none query results page_size = ok results
reranked (some rerank) query results page_size = rerank_top rerank query results page_size

-- the loop over the collections
unfoldable pub collection_ids :
    {E : Type 0} → (String → Result E String) → List String → Result E (List String)
collection_ids get [] = ok []
collection_ids get (c ∷ cs) = get c >>= λ id. collection_ids get cs >>= λ ids. ok (id ∷ ids)

module _ {h : Host} {E : Type 0} (m : Manager h E) (codec : Codec h.floats.Float E)
    (printer : Printer h) (digest : String → String) where
  -- filterFingerprint
  unfoldable pub filter_fingerprint : Filter h → String
  unfolding canonical_bytes
  filter_fingerprint filter = elim (canonical_bytes h printer filter) [
    | none ↦ ""
    | some bytes ↦ digest bytes
  ]

  -- Search
  unfoldable pub manager_search :
      String
      → ManagerOptions h
      → Run (SearchFailure E) (List (SearchResult h.floats.Float) × String)
  unfolding filter_fingerprint resume_cursor search_candidates reranked paginate collection_ids
      validate
  manager_search query opts =
      let page_size = positive_or 5 opts.max_results in
      let fingerprint = filter_fingerprint opts.filter in
      on_ok (under SearchFailure.bad_filter (checked (validate opts.filter))) λ valid.
        on_ok (under SearchFailure.bad_cursor (resume_cursor codec opts.cursor fingerprint))
          λ offset.
            on_ok
              (under SearchFailure.no_collection (collection_ids m.collection_id opts.collections))
              λ ids.
                on_done
                  (under_run SearchFailure.no_candidates (
                    search_candidates m query ids opts.filter opts.candidate_pool_size
                      (plus (plus offset page_size) 1)))
                  λ results.
                    on_ok
                      (under SearchFailure.not_reranked
                        (reranked m.reranker query results page_size))
                      λ ranked.
                        on_ok
                          (under SearchFailure.bad_cursor
                            (paginate codec ranked opts.cursor page_size fingerprint))
                          done
