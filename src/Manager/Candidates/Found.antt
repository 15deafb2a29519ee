-- ===== src/Manager/Candidates/Found.antt =====
-- ingest/manager.go: the candidates of a search with a filter on an index that cannot apply it.
use amoxtli.Common.{
  ◌≡◌, refl, sym, ap, subst, ◌∙◌, inl, inr, ◌⊎◌, Bool, true, ℕ, zero, suc, String, none, some, List,
  [], Bool-cases,
}
use amoxtli.Common.Int.{ℤ, pos}
use amoxtli.Common.Keyed.{Keyed}
use amoxtli.Common.Lists.{keep}
use amoxtli.Common.Result.{Result, ok, done, on_ok-eq-done, done-injective, bind_inv, ok-injective}
use amoxtli.Filter.Match.{Filter, matches}
use amoxtli.Filter.Norm.{Host, Metadata}
use amoxtli.Filter.Value.{Condition, add_condition}
use amoxtli.Manager.{Manager, source_key}
use amoxtli.Manager.Candidates.{
  called, fetch, gather, gather_round, settled, candidate_window, filtered_candidates,
  local_candidates, search_candidates, is_positive,
}
use amoxtli.Manager.Candidates.Gather.{called-ok}
use amoxtli.Manager.Judge.{apply_filter}
use amoxtli.Manager.Judge.Verdicts.{Consistent, Judged, apply_filter-ok}
use amoxtli.Search.{SearchResult}

local-filtered :
    {h : Host} {E : Type 0} (m : Manager h E) (query : String) (collections : List String)
    (filter : Filter h) (cond : Condition h.Number h.Time h.Other) (cs : Filter h) (pool target : ℤ)
    → filter ≡ add_condition cond cs
    → local_candidates m query collections filter pool target
      ≡ filtered_candidates m query collections m.metadata_by_sources filter pool target
unfolding local_candidates
local-filtered m query collections filter cond cs pool target f = rw f refl

module _ {h : Host} {E : Type 0} (m : Manager h E) (query : String) (collections : List String)
    (filter : Filter h) (provider : List String → Result E (String → Metadata h))
    (truth : String → Metadata h) (c : Consistent m filter provider truth) where
  -- The results whose documents match the filter.
  abbrev pub matching : List (SearchResult h.floats.Float) → List (SearchResult h.floats.Float)
  matching results = keep (λ r. matches h filter (truth (source_key m r.source))) results

  -- The candidates are the matching results of one search of the index. The pool size is the limit of
  -- that search, where it is given; else the limit left enough, or the index had no more, or the
  -- limit was the greatest.
  abbrev pub Found : ℤ → ℤ → List (SearchResult h.floats.Float) → Type 0
  Found pool target kept =
      (limit : ℤ) × (results : List (SearchResult h.floats.Float)) × (m.search query
          (record { max_results = limit; collections = some collections })
        ≡ ok results)
      × (kept ≡ matching results)
      × (((is_positive pool ≡ true) × (limit ≡ pool))
          ⊎ ((window : ℕ) × (limit ≡ pos window)
              × (settled m query collections target window results kept ≡ true)))

  start-Judged : Judged m filter provider truth []
  start-Judged k b p = cc

  gather_round-ok :
      (window : ℕ) (v v' : Keyed Bool) (results kept : List (SearchResult h.floats.Float))
      → Judged m filter provider truth v
      → gather_round m query collections provider filter window v ≡ ok (results, (kept, v'))
      → (m.search query (record { max_results = pos window; collections = some collections })
          ≡ ok results)
        × (kept ≡ matching results)
        × Judged m filter provider truth v'
  unfolding gather_round fetch
  gather_round-ok window v v' results kept j e =
      let (rs, p, e') = bind_inv (fetch m query collections (pos window)) _ e in
      let (judged, q, e'') = bind_inv (called (apply_filter m filter provider rs v)) _ e' in
      let same : rs ≡ results = ap (λ x. x.0) (ok-injective e'') in
      let sames : judged ≡ (kept, v') = ap (λ x. x.1) (ok-injective e'') in
      let found = called-ok _ (rw (sames, same) at q) in
      let (k, j') = apply_filter-ok m filter provider truth results kept v v' c j found in
      (called-ok _ (rw same at p), k, j')

  gather-Found :
      (fuel window : ℕ) (v : Keyed Bool) (pool target : ℤ)
      (kept : List (SearchResult h.floats.Float))
      → Judged m filter provider truth v
      → gather m query collections provider filter target fuel window v ≡ done kept
      → Found pool target kept
  unfolding gather
  gather-Found zero window v pool target kept j e = cc
  gather-Found (suc fuel) window v pool target kept j e =
      let ((results, (kept', v')), p, e') =
        on_ok-eq-done (gather_round m query collections provider filter window v) _ e in
      let (s, k, j') = gather_round-ok window v v' results kept' j p in
      elim (Bool-cases (settled m query collections target window results kept')) [
        | inr more ↦ gather-Found fuel _ v' pool target kept j' (rw more at e')
        | inl last ↦
            (let same : kept' ≡ kept = done-injective (rw last at e') in
              (
                pos window,
                results,
                s,
                sym same ∙ k,
                inr (
                  window,
                  refl,
                  subst (λ x. settled m query collections target window results x ≡ true) same last,
                ),
              ))
      ]

  filtered_candidates-Found :
      (pool target : ℤ) (kept : List (SearchResult h.floats.Float))
      → filtered_candidates m query collections (some provider) filter pool target ≡ done kept
      → Found pool target kept
  unfolding filtered_candidates fetch
  filtered_candidates-Found pool target kept e = elim (Bool-cases (is_positive pool)) [
    | inr b ↦
        gather-Found 7 (candidate_window target 3) [] pool target kept start-Judged (rw b at e)
    | inl b ↦
        (let (results, p, e') = on_ok-eq-done (fetch m query collections pool) _ (rw b at e) in
          let ((kept', v'), q, e'') =
            on_ok-eq-done (called (apply_filter m filter provider results [])) _ e' in
          let (k, j') =
            apply_filter-ok m filter provider truth results kept' [] v' c start-Judged
              (called-ok _ q) in
          (pool, results, called-ok _ p, sym (done-injective e'') ∙ k, inl (b, refl)))
  ]

  -- On an index that cannot filter, with a store that answers, the candidates of a search with a
  -- filter are the results of one search of the index whose documents match it, in their order; and
  -- unless the caller fixed the number of candidates there are enough of them for the page, or the
  -- index has returned fewer results than it was asked for, or it was asked for 500.
  pub search_candidates-Found :
      (cond : Condition h.Number h.Time h.Other) (cs : Filter h) (pool target : ℤ)
      (kept : List (SearchResult h.floats.Float))
      → filter ≡ add_condition cond cs
      → m.search_filtered ≡ none
      → m.metadata_by_sources ≡ some provider
      → search_candidates m query collections filter pool target ≡ done kept
      → Found pool target kept
  unfolding search_candidates local_candidates
  search_candidates-Found cond cs pool target kept f s p e =
      filtered_candidates-Found pool target kept (
        ap (λ x. filtered_candidates m query collections x filter pool target) (sym p)
        ∙ sym (local-filtered m query collections filter cond cs pool target f)
        ∙ (rw (s, search_candidates) at e))
