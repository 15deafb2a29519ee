-- ===== src/Orchestrator/Documents.antt =====
-- retrieval/orchestrator.go: the documents that Search returns, among those that its searches found.
use amoxtli.Common.{
  ◌≡◌, refl, subst, sym, not, ℕ, zero, suc, ◌+◌, String, Option, none, some, List, [], ◌∷◌,
  if◌then◌else◌, Bool-cases, inl, inr,
}
use amoxtli.Common.Keyed.{contains}
use amoxtli.Common.Lists.{All, All-append, All-keep, keep}
use amoxtli.Common.Result.{
  Result, ok, done, on_ok-eq-done, done-injective, bind_inv, ok-injective, Result-cases,
}
use amoxtli.Evaluator.{GroundingResult, EvidenceEvaluation}
use amoxtli.Evidence.{filter_relevant, demote_irrelevant, has_relevant, with_sections}
use amoxtli.Evidence.Demotion.{demote_irrelevant-eq-partition}
use amoxtli.Floats.{Floats}
use amoxtli.Orchestrator.{
  decompose, grounding, skipped, Request, Orchestrator, Outcome, GroundingMode, demote_mode,
  filter_mode, distinct_queries, search_all, retrieve_parts, retrieve, apply_relevance, next_query,
  conclude, Round, finish, again, judge_round, judge_loop, judged, run_search,
}
use amoxtli.Orchestrator.Fusion.{fuse_sections, fuse_group, fuse_groups, fuse_results}
use amoxtli.Search.{SectionId, SearchResult, is_empty}

module _ {F : Type 0} (Q : String → Type 0) where
  -- Each result is of a document that satisfies Q.
  abbrev pub Of : List (SearchResult F) → Type 0
  Of rs = All (λ r. Q r.source) rs

  filter_relevant-Of :
      (rs : List (SearchResult F)) (relevant : List SectionId)
      → Of rs
      → Of (filter_relevant rs relevant)
  unfolding filter_relevant with_sections
  filter_relevant-Of [] relevant h = tt
  filter_relevant-Of (r ∷ rs) relevant h =
      elim (Bool-cases (is_empty (keep (contains relevant) r.sections))) [
        | inl b ↦ rw b (filter_relevant-Of rs relevant h.1)
        | inr b ↦ rw b (h.0, filter_relevant-Of rs relevant h.1)
      ]

  demote_irrelevant-Of :
      (rs : List (SearchResult F)) (relevant : List SectionId)
      → Of rs
      → Of (demote_irrelevant rs relevant)
  demote_irrelevant-Of rs relevant h = subst Of (sym (demote_irrelevant-eq-partition rs relevant)) (
      All-append (λ r. Q r.source) (keep (has_relevant relevant) rs)
        (keep (λ r. not (has_relevant relevant r)) rs)
        (All-keep (λ r. Q r.source) (has_relevant relevant) rs h)
        (All-keep (λ r. Q r.source) (λ r. not (has_relevant relevant r)) rs h))

  fuse_group-Of :
      (seen : List SectionId) (rs : List (SearchResult F)) → Of rs → Of (fuse_group seen rs).0
  unfolding fuse_group with_sections
  fuse_group-Of seen [] h = tt
  fuse_group-Of seen (r ∷ rs) h = elim (Bool-cases (is_empty (fuse_sections seen r.sections).0)) [
    | inl b ↦ rw b (fuse_group-Of (fuse_sections seen r.sections).1 rs h.1)
    | inr b ↦ rw b (h.0, fuse_group-Of (fuse_sections seen r.sections).1 rs h.1)
  ]

  fuse_groups-Of :
      (seen : List SectionId) (gs : List (List (SearchResult F)))
      → All Of gs
      → Of (fuse_groups seen gs)
  unfolding fuse_groups
  fuse_groups-Of seen [] h = tt
  fuse_groups-Of seen (g ∷ gs) h =
      All-append (λ r. Q r.source) (fuse_group seen g).0 (fuse_groups (fuse_group seen g).1 gs)
        (fuse_group-Of seen g h.0) (fuse_groups-Of (fuse_group seen g).1 gs h.1)

  fuse_results-Of : (gs : List (List (SearchResult F))) → All Of gs → Of (fuse_results gs)
  unfolding fuse_results
  fuse_results-Of gs h = fuse_groups-Of [] gs h

module _ (fl : Floats) {E : Type 0} (o : Orchestrator fl E) (request : Request)
    (Q : String → Type 0)
    (sound : (query : String) (results : List (SearchResult fl.Float))
      → o.search query request.max_results request.collections ≡ ok results
      → Of Q results) where
  search_all-Of :
      (queries : List String) (groups : List (List (SearchResult fl.Float)))
      → search_all fl o request queries ≡ ok groups
      → All (Of Q) groups
  unfolding search_all
  search_all-Of [] groups e = subst (All (Of Q)) (ok-injective e) tt
  search_all-Of (q ∷ qs) groups e =
      let (r, p, e1) = bind_inv (o.search q request.max_results request.collections) _ e in
      let (rs, p', e2) = bind_inv (search_all fl o request qs) _ e1 in
      subst (All (Of Q)) (ok-injective e2) (sound q r p, search_all-Of qs rs p')

  retrieve_parts-Of :
      (split : Option (String → Result E (List String))) (query : String)
      (results : List (SearchResult fl.Float))
      → retrieve_parts fl o request split query ≡ ok results
      → Of Q results
  unfolding retrieve_parts
  retrieve_parts-Of none query results e = sound query results e
  retrieve_parts-Of (some split) query results e =
      let (sub_queries, p, e1) = bind_inv (split query) _ e in
      let (groups, p', e2) =
        bind_inv (search_all fl o request (query ∷ distinct_queries query sub_queries)) _ e1 in
      subst (Of Q) (ok-injective e2) (
        fuse_results-Of Q groups
          (search_all-Of (query ∷ distinct_queries query sub_queries) groups p'))

  apply_relevance-Of :
      (rs : List (SearchResult fl.Float)) (relevant : List SectionId)
      → Of Q rs
      → Of Q (apply_relevance fl o request rs relevant)
  unfolding apply_relevance
  apply_relevance-Of rs relevant h = go o.mode refl
    where
      go : (mode : GroundingMode) → o.mode ≡ mode → Of Q (apply_relevance fl o request rs relevant)
      go demote_mode e = rw (e, apply_relevance) (demote_irrelevant-Of Q rs relevant h)
      go filter_mode e = rw (e, apply_relevance) (filter_relevant-Of Q rs relevant h)

  retrieve-Of :
      (query : String) (results : List (SearchResult fl.Float))
      → retrieve fl o request query ≡ ok results
      → Of Q results
  unfolding retrieve
  retrieve-Of query results e =
      retrieve_parts-Of (if skipped request.stages decompose then none else o.decomposer) query
        results e

  -- the documents at the end of one pass of the loop
  abbrev Found : Round fl.Float → Type 0
  Found (finish outcome) = Of Q outcome.results
  Found (again results last) = Of Q results

  conclude-Found :
      (kept : List (SearchResult fl.Float)) (verdict : GroundingResult fl.Float) (rounds : ℕ)
      (next : Option String) (round : Round fl.Float)
      → Of Q kept
      → conclude fl o request kept verdict rounds next ≡ ok round
      → Found round
  unfolding conclude
  conclude-Found kept verdict rounds none round h e = subst Found (ok-injective e) h
  conclude-Found kept verdict rounds (some q) round h e =
      let (more, p, e1) = bind_inv (retrieve fl o request q) _ e in
      subst Found (ok-injective e1)
        (fuse_results-Of Q (kept ∷ more ∷ []) (h, (retrieve-Of q more p, tt)))

  module _ (judge : String → List (SearchResult fl.Float) → Result E (EvidenceEvaluation fl.Float))
      (query : String) where
    judge_round-Found :
        (rs : List (SearchResult fl.Float)) (rounds : ℕ) (round : Round fl.Float)
        → Of Q rs
        → judge_round fl o request judge query rs rounds ≡ ok round
        → Found round
    unfolding judge_round
    judge_round-Found rs rounds round h e =
        let (v, p, e1) = bind_inv (judge query rs) _ e in
        let (next, n, e2) =
          bind_inv (next_query fl o request query v.grounding rounds o.reformulator) _ e1 in
        conclude-Found (apply_relevance fl o request rs v.relevant) v.grounding rounds next round
          (apply_relevance-Of rs v.relevant h) e2

    judge_loop-Of :
        (fuel : ℕ) (rs : List (SearchResult fl.Float)) (verdict : Option (GroundingResult fl.Float))
        (rounds : ℕ) (out : Outcome fl.Float)
        → Of Q rs
        → judge_loop fl o request judge query fuel rs verdict rounds ≡ done out
        → Of Q out.results
    unfolding judge_loop
    judge_loop-Of zero rs verdict rounds out h e = cc
    judge_loop-Of (suc fuel) [] verdict rounds out h e =
        subst (λ (x : Outcome fl.Float). Of Q x.results) (done-injective e) tt
    judge_loop-Of (suc fuel) (r ∷ rs) verdict rounds out h e =
        elim (Result-cases (judge_round fl o request judge query (r ∷ rs) rounds)) [
          | inl (finish last, ran) ↦
              subst (λ (x : Outcome fl.Float). Of Q x.results)
                (done-injective (rw (ran, judge_loop) at e))
                (judge_round-Found (r ∷ rs) rounds (finish last) h ran)
          | inl (again more last, ran) ↦
              judge_loop-Of fuel more (some last) (rounds + 1) out
                (judge_round-Found (r ∷ rs) rounds (again more last) h ran)
                (rw (ran, judge_loop) at e)
          | inr (x, ran) ↦ cc (rw (ran, judge_loop) at e)
        ]

  judged-Of :
      (evaluator : Option
        (String → List (SearchResult fl.Float) → Result E (EvidenceEvaluation fl.Float)))
      (query : String) (rs : List (SearchResult fl.Float)) (out : Outcome fl.Float)
      → Of Q rs
      → judged fl o request evaluator query rs ≡ done out
      → Of Q out.results
  unfolding judged
  judged-Of none query rs out h e =
      subst (λ (x : Outcome fl.Float). Of Q x.results) (done-injective e) h
  judged-Of (some judge) query rs out h e =
      judge_loop-Of judge query (suc o.max_rounds) rs none 0 out h e

  -- Where each search finds only documents of a kind, such as those that match a filter, so does
  -- Search, with sub-queries, verdicts and reformulated queries.
  pub run_search-Of :
      (query : String) (out : Outcome fl.Float)
      → run_search fl o request query ≡ done out
      → Of Q out.results
  unfolding run_search
  run_search-Of query out e =
      let (rs, p, e1) = on_ok-eq-done (retrieve fl o request query) _ e in
      judged-Of (if skipped request.stages grounding then none else o.evaluator) query rs out
        (retrieve-Of query rs p) e1
