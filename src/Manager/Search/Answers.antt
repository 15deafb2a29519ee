-- ===== src/Manager/Search/Answers.antt =====
-- ingest/manager.go: what Search returns for a search with a filter on an index that cannot apply it.
use amoxtli.Common.{
  ◌≡◌, refl, sym, ap, subst, ◌∙◌, ◌≤◌, inl, inr, true, ℕ, ◌-◌, String, Option, none, some, List,
  if◌then◌else◌, leb, arith, Bool-cases, ◌≢◌,
}
use amoxtli.Common.Int.{ℤ, pos, negsuc, plus, plus_le, positive_or}
use amoxtli.Common.Lists.{
  length, take, drop, All, keep-All, All-append, All-take, All-drop, length-take_le,
}
use amoxtli.Common.Result.{
  Result, ok, err, Run, done, failed, out_of_fuel, on_ok, on_ok-eq-done, on_ok,
  on_ok-ne-out_of_fuel, done-injective, bind_inv, ok-injective,
}
use amoxtli.Filter.Canonical.{Printer}
use amoxtli.Filter.Match.{Filter, matches}
use amoxtli.Filter.Norm.{Host, Metadata}
use amoxtli.Filter.Value.{Condition, add_condition}
use amoxtli.Filter.Validate.{validate}
use amoxtli.Manager.{Manager, ManagerOptions, source_key}
use amoxtli.Manager.Candidates.{search_candidates}
use amoxtli.Manager.Candidates.Found.{search_candidates-Found}
use amoxtli.Manager.Candidates.Gather.{search_candidates_ends}
use amoxtli.Manager.Cursor.{Codec, resume_cursor, paginate, page_start, page_from, next_cursor}
use amoxtli.Manager.Judge.Verdicts.{Consistent}
use amoxtli.Manager.Search.{
  SearchFailure, filter_fingerprint, collection_ids, under, under_run, on_done, checked, rerank_top,
  rerank_window, reranked, manager_search,
}
use amoxtli.Search.{SearchResult}

under-ok :
    {E E' A : Type 0} (name : E → E') (r : Result E A) {value : A}
    → under name r ≡ ok value
    → r ≡ ok value
under-ok name (ok value) h = cc
under-ok name (err problem) h = cc

on_done-eq-done :
    {E E' A B : Type 0} (name : E → E') (first : Run E A) (next : A → Run E' B) {out : B}
    → on_done (under_run name first) next ≡ done out
    → (value : A) × (first ≡ done value) × (next value ≡ done out)
on_done-eq-done name (done value) next h = (value, refl, h)
on_done-eq-done name (failed problem) next h = cc
on_done-eq-done name out_of_fuel next h = cc

on_done-ne-out_of_fuel :
    {E E' A B : Type 0} (name : E → E') (first : Run E A) (next : A → Run E' B)
    → first ≢ out_of_fuel
    → ((a : A) → next a ≢ out_of_fuel)
    → on_done (under_run name first) next ≢ out_of_fuel
on_done-ne-out_of_fuel name (done value) next p q = q value
on_done-ne-out_of_fuel name (failed problem) next p q = λ e. cc
on_done-ne-out_of_fuel name out_of_fuel next p q = absurd (p refl)

on_ok_done : {E A : Type 0} (r : Result E A) → on_ok r done ≢ out_of_fuel
on_ok_done (ok value) = λ e. cc
on_ok_done (err problem) = λ e. cc

module _ {F E : Type 0} (P : SearchResult F → Type 0) where
  -- A reranker that makes up no results.
  abbrev pub Chooses : (String → List (SearchResult F) → Result E (List (SearchResult F))) → Type 0
  Chooses rerank =
      (query : String) (results out : List (SearchResult F))
      → rerank query results ≡ ok out
      → All P results
      → All P out

  rerank_top-All :
      (rerank : String → List (SearchResult F) → Result E (List (SearchResult F))) (query : String)
      (results out : List (SearchResult F)) (page_size : ℕ)
      → Chooses rerank
      → rerank_top rerank query results page_size ≡ ok out
      → All P results
      → All P out
  unfolding rerank_top
  rerank_top-All rerank query results out page_size c e h =
      elim (Bool-cases (leb (length results) (rerank_window page_size))) [
        | inl b ↦ c query results out (rw b at e) h
        | inr b ↦
            (let (head, p, e') =
                bind_inv (rerank query (take (rerank_window page_size) results)) _ (rw b at e) in
              subst (All P) (ok-injective e') (
                All-append P head (drop (rerank_window page_size) results)
                  (c query _ head p (All-take P (rerank_window page_size) results h))
                  (All-drop P (rerank_window page_size) results h)))
      ]

  reranked-All :
      (reranker : Option (String → List (SearchResult F) → Result E (List (SearchResult F))))
      (query : String) (results out : List (SearchResult F)) (page_size : ℕ)
      → ((rerank : String → List (SearchResult F) → Result E (List (SearchResult F)))
          → reranker ≡ some rerank
          → Chooses rerank)
      → reranked reranker query results page_size ≡ ok out
      → All P results
      → All P out
  unfolding reranked
  reranked-All none query results out page_size c e h = subst (All P) (ok-injective e) h
  reranked-All (some rerank) query results out page_size c e h =
      rerank_top-All rerank query results out page_size (c rerank refl) e h

  module _ (codec : Codec F E) where
    page_from-All :
        (results page : List (SearchResult F)) (start page_size : ℕ) (z : ℤ)
        (next fingerprint : String)
        → plus (pos start) page_size ≡ z
        → page_from codec results start z fingerprint ≡ ok (page, next)
        → All P results
        → All P page × (length page ≤ page_size)
    unfolding page_from
    page_from-All results page start page_size (negsuc n) next fingerprint z e h = cc
    page_from-All results page start page_size (pos n) next fingerprint z e h =
        let end = if leb n (length results) then n else length results in
        let (s, p, e') =
          bind_inv
            (next_cursor codec (take (end - start) (drop start results)) end (length results)
              fingerprint)
            _ e in
        let same : take (end - start) (drop start results) ≡ page =
          ap (λ x. x.0) (ok-injective e') in
        let short : end ≤ n = ground arith in
        subst (λ l. All P l × (length l ≤ page_size)) same
          (
            All-take P (end - start) (drop start results) (All-drop P start results h),
            omega (
              arith,
              length-take_le (end - start) (drop start results),
              plus_le start page_size n z,
              short,
            ),
          )

    -- A page is a part of the results, and no longer than the page size.
    paginate-All :
        (results page : List (SearchResult F)) (cursor next fingerprint : String) (page_size : ℕ)
        → paginate codec results cursor page_size fingerprint ≡ ok (page, next)
        → All P results
        → All P page × (length page ≤ page_size)
    unfolding paginate
    paginate-All results page cursor next fingerprint page_size e h =
        let (start, p, e') = bind_inv (page_start codec cursor results) _ e in
        elim (Bool-cases (leb (length results) start)) [
          | inl b ↦
              subst (λ l. All P l × (length l ≤ page_size))
                (ap (λ x. x.0) (ok-injective (rw b at e'))) (tt, omega arith)
          | inr b ↦
              page_from-All results page start page_size (plus (pos start) page_size) next
                fingerprint refl (rw b at e') h
        ]

module _ {h : Host} {E : Type 0} (m : Manager h E) (codec : Codec h.floats.Float E)
    (printer : Printer h) (digest : String → String) where
  -- A search ends: it returns a page or an error, whatever the index, the store and the reranker
  -- answer.
  pub manager_search_ends :
      (query : String) (opts : ManagerOptions h)
      → manager_search m codec printer digest query opts ≢ out_of_fuel
  unfolding manager_search
  manager_search_ends query opts =
      let page_size = positive_or 5 opts.max_results in
      let fingerprint = filter_fingerprint m codec printer digest opts.filter in
      on_ok-ne-out_of_fuel (under SearchFailure.bad_filter (checked (validate opts.filter))) _
        λ valid.
          on_ok-ne-out_of_fuel
            (under SearchFailure.bad_cursor (resume_cursor codec opts.cursor fingerprint)) _
            λ offset.
              on_ok-ne-out_of_fuel
                (under SearchFailure.no_collection
                  (collection_ids m.collection_id opts.collections))
                _
                λ ids.
                  let target = plus (plus offset page_size) 1 in
                  on_done-ne-out_of_fuel SearchFailure.no_candidates
                    (search_candidates m query ids opts.filter opts.candidate_pool_size target) _
                    (search_candidates_ends m query ids opts.filter opts.candidate_pool_size target)
                    λ results.
                      on_ok-ne-out_of_fuel
                        (under SearchFailure.not_reranked
                          (reranked m.reranker query results page_size))
                        _
                        λ ranked. on_ok_done (
                          under SearchFailure.bad_cursor
                            (paginate codec ranked opts.cursor page_size fingerprint))

  module _ (filter : Filter h) (provider : List String → Result E (String → Metadata h))
      (truth : String → Metadata h) (c : Consistent m filter provider truth) where
    -- The document of a result matches the filter.
    abbrev pub Matches : SearchResult h.floats.Float → Type 0
    Matches r = matches h filter (truth (source_key m r.source)) ≡ true

    -- Where the index cannot filter, the store answers and the reranker makes up no results, a search
    -- with a filter that succeeds returns at most a page of results, and the document of each matches
    -- the filter.
    pub manager_search-Matches :
        (query : String) (opts : ManagerOptions h) (page : List (SearchResult h.floats.Float))
        (next : String) (cond : Condition h.Number h.Time h.Other) (cs : Filter h)
        → opts.filter ≡ filter
        → filter ≡ add_condition cond cs
        → m.search_filtered ≡ none
        → m.metadata_by_sources ≡ some provider
        → ((rerank : String
              → List (SearchResult h.floats.Float)
              → Result E (List (SearchResult h.floats.Float)))
            → m.reranker ≡ some rerank
            → Chooses Matches rerank)
        → manager_search m codec printer digest query opts ≡ done (page, next)
        → All Matches page × (length page ≤ positive_or 5 opts.max_results)
    unfolding manager_search
    manager_search-Matches query opts page next cond cs o f s p chooses e =
        let page_size = positive_or 5 opts.max_results in
        let fingerprint = filter_fingerprint m codec printer digest opts.filter in
        let (valid, e1, r1) =
          on_ok-eq-done (under SearchFailure.bad_filter (checked (validate opts.filter))) _ e in
        let (offset, e2, r2) =
          on_ok-eq-done
            (under SearchFailure.bad_cursor (resume_cursor codec opts.cursor fingerprint)) _ r1 in
        let (ids, e3, r3) =
          on_ok-eq-done
            (under SearchFailure.no_collection (collection_ids m.collection_id opts.collections)) _
            r2 in
        let target = plus (plus offset page_size) 1 in
        let (results, e4, r4) =
          on_done-eq-done SearchFailure.no_candidates
            (search_candidates m query ids opts.filter opts.candidate_pool_size target) _ r3 in
        let (ranked, e5, r5) =
          on_ok-eq-done
            (under SearchFailure.not_reranked (reranked m.reranker query results page_size)) _ r4 in
        let (paged, e6, r6) =
          on_ok-eq-done
            (under SearchFailure.bad_cursor
              (paginate codec ranked opts.cursor page_size fingerprint))
            _ r5 in
        let found =
          search_candidates-Found m query ids filter provider truth c cond cs
            opts.candidate_pool_size target results f s p
            (subst
              (λ x. search_candidates m query ids x opts.candidate_pool_size target ≡ done results)
              o e4) in
        let (limit, fetched, answered, k, enough) = found in
        let all : All Matches results =
          subst (All Matches) (sym k)
            (keep-All (λ r. matches h filter (truth (source_key m r.source))) fetched) in
        paginate-All Matches codec ranked page opts.cursor next fingerprint page_size
          (under-ok SearchFailure.bad_cursor _ e6 ∙ ap ok (done-injective r6))
          (reranked-All Matches m.reranker query results ranked page_size chooses
            (under-ok SearchFailure.not_reranked _ e5) all)
