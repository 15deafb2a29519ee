-- ===== src/Orchestrator/Rounds.antt =====
-- One pass through the loop of Search: when there is another one, and what is returned if not.
use amoxtli.Common.{
  leb→le, ◌≡◌, refl, ap, subst, ◌∙◌, sym, ◌⊎◌, ◌≤◌, ◌<◌, true, ℕ, String, Option, none, some, List,
  leb, arith, Bool-cases, inl, inr, eq_iff,
}
use amoxtli.Common.Result.{Result, ok, bind_inv}
use amoxtli.Floats.{Floats}
use amoxtli.Search.{SearchResult}
use amoxtli.Evaluator.{GroundingResult, EvidenceEvaluation}
use amoxtli.Orchestrator.{
  reformulate, skipped, Request, Orchestrator, Outcome, retrieve, apply_relevance, confident,
  next_query, judge_round, conclude, finish, again,
}

module _ (fl : Floats) {E : Type 0} (o : Orchestrator fl E) (request : Request) where
  -- Why a search stops at a verdict.
  pub data Stops (query : String) (verdict : GroundingResult fl.Float) (rounds : ℕ) : Type 0 where
    sure : confident fl o request verdict ≡ true → Stops query verdict rounds
    spent : o.max_rounds ≤ rounds → Stops query verdict rounds
    no_rewriting :
        (o.reformulator ≡ none) ⊎ (skipped request.stages reformulate ≡ true)
        → Stops query verdict rounds
    same_query :
        (rewrite : String → String → Result E String) (q : String)
        → o.reformulator ≡ some rewrite
        → rewrite query verdict.explanation ≡ ok q
        → (q ≡ "") ⊎ (q ≡ query)
        → Stops query verdict rounds

  next_query-some :
      (query : String) (verdict : GroundingResult fl.Float) (rounds : ℕ) (q : String)
      (rewrite : Option (String → String → Result E String))
      → next_query fl o request query verdict rounds rewrite ≡ ok (some q)
      → rounds < o.max_rounds
  unfolding next_query
  next_query-some query verdict rounds q none h = cc
  next_query-some query verdict rounds q (some rewrite) h = ground arith

  next_query-none :
      (query : String) (verdict : GroundingResult fl.Float) (rounds : ℕ)
      (rewrite : Option (String → String → Result E String))
      → o.reformulator ≡ rewrite
      → next_query fl o request query verdict rounds rewrite ≡ ok none
      → Stops query verdict rounds
  unfolding next_query
  next_query-none query verdict rounds none e h = no_rewriting (inl e)
  next_query-none query verdict rounds (some rewrite) e h =
      elim (Bool-cases (confident fl o request verdict)) [
        | inl c ↦ sure c
        | inr c ↦ elim (Bool-cases (skipped request.stages reformulate)) [
          | inl s ↦ no_rewriting (inr s)
          | inr s ↦ elim (Bool-cases (leb o.max_rounds rounds)) [
            | inl m ↦ spent (leb→le _ _ m)
            | inr m ↦
                let (q, run, stop) =
                  bind_inv (rewrite query verdict.explanation) _ (rw (c, s, m, next_query) at h) in
                same_query rewrite q e run (ground (arith, eq_iff q "", eq_iff q query))
          ]
        ]
      ]

  conclude-again :
      (kept : List (SearchResult fl.Float)) (verdict : GroundingResult fl.Float) (rounds : ℕ)
      (next : Option String) (more : List (SearchResult fl.Float)) (last : GroundingResult fl.Float)
      → conclude fl o request kept verdict rounds next ≡ ok (again more last)
      → ((q : String) × (next ≡ some q)) × (verdict ≡ last)
  unfolding conclude
  conclude-again kept verdict rounds none more last h = cc
  conclude-again kept verdict rounds (some q) more last h =
      let (found, _, e) = bind_inv (retrieve fl o request q) _ h in ((q, refl), cc e)

  conclude-finish :
      (kept : List (SearchResult fl.Float)) (verdict : GroundingResult fl.Float) (rounds : ℕ)
      (next : Option String) (out : Outcome fl.Float)
      → conclude fl o request kept verdict rounds next ≡ ok (finish out)
      → (next ≡ none) × (record { results = kept; verdict = some verdict; rounds = rounds } ≡ out)
  unfolding conclude
  conclude-finish kept verdict rounds none out h = (refl, cc)
  conclude-finish kept verdict rounds (some q) out h =
      let (found, _, e) = bind_inv (retrieve fl o request q) _ h in cc e

  module _ (judge : String → List (SearchResult fl.Float) → Result E (EvidenceEvaluation fl.Float))
      (query : String) where
    pub judge_round-again :
        (rs : List (SearchResult fl.Float)) (rounds : ℕ) (more : List (SearchResult fl.Float))
        (last : GroundingResult fl.Float)
        → judge_round fl o request judge query rs rounds ≡ ok (again more last)
        → (rounds < o.max_rounds)
          × ((v : EvidenceEvaluation fl.Float) × (judge query rs ≡ ok v) × (v.grounding ≡ last))
    unfolding judge_round
    judge_round-again rs rounds more last h =
        let (v, e, h₁) = bind_inv (judge query rs) _ h in
        let (next, n, h₂) =
          bind_inv (next_query fl o request query v.grounding rounds o.reformulator) _ h₁ in
        let ((q, some_q), same) =
          conclude-again (apply_relevance fl o request rs v.relevant) v.grounding rounds next more
            last h₂ in
        (next_query-some query v.grounding rounds q o.reformulator (n ∙ ap ok some_q), (v, e, same))

    -- What a search returns after a verdict: the evidence that was judged, cut or sorted by the
    -- verdict's own relevant sections, and a reason to stop there.
    pub record Judged (out : Outcome fl.Float) : Type 0 where
      pub evidence : List (SearchResult fl.Float)
      pub evaluation : EvidenceEvaluation fl.Float
      pub judgement : judge query evidence ≡ ok evaluation
      pub results : out.results ≡ apply_relevance fl o request evidence evaluation.relevant
      pub verdict : out.verdict ≡ some evaluation.grounding
      pub stops : Stops query evaluation.grounding out.rounds

    pub judge_round-finish :
        (rs : List (SearchResult fl.Float)) (rounds : ℕ) (out : Outcome fl.Float)
        → judge_round fl o request judge query rs rounds ≡ ok (finish out)
        → (out.rounds ≡ rounds) × Judged out
    unfolding judge_round
    judge_round-finish rs rounds out h =
        let (v, e, h₁) = bind_inv (judge query rs) _ h in
        let (next, n, h₂) =
          bind_inv (next_query fl o request query v.grounding rounds o.reformulator) _ h₁ in
        let (no_q, same) =
          conclude-finish (apply_relevance fl o request rs v.relevant) v.grounding rounds next out
            h₂ in
        (
          ap (λ (t : Outcome fl.Float). t.rounds) (sym same),
          subst Judged same (record {
            evidence = rs;
            evaluation = v;
            judgement = e;
            results = refl;
            verdict = refl;
            stops = next_query-none query v.grounding rounds o.reformulator refl (n ∙ ap ok no_q);
          }),
        )
