-- ===== src/Orchestrator/Guarantees.antt =====
-- retrieval/orchestrator.go: the rounds of Search, and the evidence that it returns.
use amoxtli.Common.{
  ◌≡◌, ◌≢◌, refl, subst, ◌⊎◌, ◌+◌, ◌≤◌, ◌<◌, true, false, ℕ, zero, suc, String, Option, none, some,
  List, [], ◌∷◌, if◌then◌else◌, arith, inl, inr,
}
use amoxtli.Common.Result.{
  Result, ok, done, out_of_fuel, on_ok-eq-done, on_ok-ne-out_of_fuel, done-injective, Result-cases,
}
use amoxtli.Floats.{Floats}
use amoxtli.Search.{SearchResult}
use amoxtli.Evaluator.{GroundingResult, EvidenceEvaluation}
use amoxtli.Orchestrator.{
  grounding, skipped, Request, Orchestrator, Outcome, retrieve, judge_round, finish, again,
  judge_loop, judged, run_search,
}
use amoxtli.Orchestrator.Rounds.{Judged, judge_round-again, judge_round-finish}

module _ (fl : Floats) {E : Type 0} (o : Orchestrator fl E) (request : Request) where
  module _ (judge : String → List (SearchResult fl.Float) → Result E (EvidenceEvaluation fl.Float))
      (query : String) where
    judge_loop_ends :
        (fuel : ℕ) (rs : List (SearchResult fl.Float)) (verdict : Option (GroundingResult fl.Float))
        (rounds : ℕ)
        → rounds ≤ o.max_rounds
        → o.max_rounds < fuel + rounds
        → judge_loop fl o request judge query fuel rs verdict rounds ≢ out_of_fuel
    unfolding judge_loop
    judge_loop_ends zero rs verdict rounds h k = absurd (omega arith)
    judge_loop_ends (suc fuel) [] verdict rounds h k = λ p. cc
    judge_loop_ends (suc fuel) (r ∷ rs) verdict rounds h k =
        elim (Result-cases (judge_round fl o request judge query (r ∷ rs) rounds)) [
          | inl (finish out, e) ↦ λ p. cc (rw e at p)
          | inl (again more last, e) ↦ rw e (
              judge_loop_ends fuel more (some last) (rounds + 1)
                (omega (
                  arith,
                  (judge_round-again fl o request judge query (r ∷ rs) rounds more last e).0,
                ))
                (omega arith))
          | inr (x, e) ↦ λ p. cc (rw e at p)
        ]

    -- What holds of the results once a search is over.
    abbrev Settled : Outcome fl.Float → Type 0
    Settled out =
        (out.rounds ≤ o.max_rounds) × ((out.results ≡ []) ⊎ Judged fl o request judge query out)

    judge_loop-Settled :
        (fuel : ℕ) (rs : List (SearchResult fl.Float)) (verdict : Option (GroundingResult fl.Float))
        (rounds : ℕ) (out : Outcome fl.Float)
        → rounds ≤ o.max_rounds
        → judge_loop fl o request judge query fuel rs verdict rounds ≡ done out
        → Settled out
    unfolding judge_loop
    judge_loop-Settled zero rs verdict rounds out h e = cc
    judge_loop-Settled (suc fuel) [] verdict rounds out h e =
        subst Settled (done-injective e) (h, inl refl)
    judge_loop-Settled (suc fuel) (r ∷ rs) verdict rounds out h e =
        elim (Result-cases (judge_round fl o request judge query (r ∷ rs) rounds)) [
          | inl (finish last, ran) ↦
              let (same, judgement) =
                judge_round-finish fl o request judge query (r ∷ rs) rounds last ran in
              subst Settled (done-injective (rw (ran, judge_loop) at e))
                (omega (arith, same), inr judgement)
          | inl (again more last, ran) ↦
              judge_loop-Settled fuel more (some last) (rounds + 1) out
                (omega (
                  arith,
                  (judge_round-again fl o request judge query (r ∷ rs) rounds more last ran).0,
                ))
                (rw (ran, judge_loop) at e)
          | inr (x, ran) ↦ cc (rw (ran, judge_loop) at e)
        ]

  -- A search never runs out of the passes that it is given: every one returns results or an error.
  pub run_search_ends : (query : String) → run_search fl o request query ≢ out_of_fuel
  unfolding run_search
  run_search_ends query =
      on_ok-ne-out_of_fuel (retrieve fl o request query) _
        (λ rs. ends (if skipped request.stages grounding then none else o.evaluator) rs)
    where
      ends :
          (judge : Option
            (String → List (SearchResult fl.Float) → Result E (EvidenceEvaluation fl.Float)))
          (rs : List (SearchResult fl.Float))
          → judged fl o request judge query rs ≢ out_of_fuel
      ends none rs = λ p. cc
      ends (some judge) rs =
          judge_loop_ends judge query (suc o.max_rounds) rs none 0 (omega arith) (omega arith)

  -- With an evaluator that is not skipped, a search that returns has made at most `max_rounds`
  -- further rounds, and results that are not empty have been judged: they are what the last verdict
  -- left of the evidence, that verdict is returned with them, and there was a reason to stop.
  pub run_search-Settled :
      (judge : String → List (SearchResult fl.Float) → Result E (EvidenceEvaluation fl.Float))
      (query : String) (out : Outcome fl.Float)
      → o.evaluator ≡ some judge
      → skipped request.stages grounding ≡ false
      → run_search fl o request query ≡ done out
      → (out.rounds ≤ o.max_rounds) × ((out.results ≡ []) ⊎ Judged fl o request judge query out)
  unfolding run_search
  run_search-Settled judge query out configured allowed h =
      let (rs, found, e) = on_ok-eq-done (retrieve fl o request query) _ h in
      judge_loop-Settled judge query (suc o.max_rounds) rs none 0 out (omega arith)
        (rw (allowed, configured) at e)

  -- Without an evaluator, or with the stage skipped, a search is one retrieval and returns what it
  -- found, with no verdict.
  pub run_search_plain :
      (query : String) (rs : List (SearchResult fl.Float))
      → (o.evaluator ≡ none) ⊎ (skipped request.stages grounding ≡ true)
      → retrieve fl o request query ≡ ok rs
      → run_search fl o request query ≡ done (record { results = rs; verdict = none; rounds = 0 })
  unfolding run_search
  run_search_plain query rs (inl off) found = rw (found, off) (ground arith)
  run_search_plain query rs (inr off) found = rw (found, off) refl
