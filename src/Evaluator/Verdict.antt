-- ===== src/Evaluator/Verdict.antt =====
-- retrieval/evaluate.go: the verdicts of the evaluator.
use amoxtli.Common.{◌≡◌, refl, subst, ◌∙◌, Option, false, ℕ, String, List, [], ◌∷◌, arith}
use Prim.Native.String.{◌++◌ as cat}
use amoxtli.Common.Result.{ok, ◌>>=◌, bind_inv, ok-injective}
use amoxtli.Floats.{Floats}
use amoxtli.Search.{SectionId, SearchResult, all_section_ids}
use amoxtli.Evaluator.{
  EvidenceEvaluation, EvaluatorEnv, LlmResponse, partial, clamp_score, read_verdict, evaluate,
  evaluate_some,
}
use amoxtli.Evaluator.Prompt.{user_prompt, Section}
use amoxtli.Evidence.{filter_relevant}
use amoxtli.Evidence.Filtering.{all_section_ids-filter_relevant}
use amoxtli.Common.Keyed.{contains, contains_self}
use amoxtli.Common.Lists.{keep_of_All}

-- Neither below 0 nor above 1. NaN, which is neither, stays as it is.
abbrev pub InUnit : (fl : Floats) → fl.Float → Type 0
InUnit fl x = (fl.lt x fl.zero ≡ false) × (fl.lt fl.one x ≡ false)

clamp_score-InUnit : (fl : Floats) (x : fl.Float) → InUnit fl (clamp_score fl x)
unfolding clamp_score
clamp_score-InUnit fl x =
    ground
      (arith, fl.lt_irrefl fl.zero, fl.lt_irrefl fl.one, fl.lt_asymm fl.zero fl.one, fl.zero-lt-one)

read_verdict-InUnit :
    (fl : Floats) (normal : String → String) (rs : List (SearchResult fl.Float))
    (answers : List (LlmResponse fl.Float))
    → InUnit fl (read_verdict fl normal rs answers).grounding.score
unfolding read_verdict
read_verdict-InUnit fl normal rs [] = fl.half_bounds
read_verdict-InUnit fl normal rs (a ∷ _) = clamp_score-InUnit fl a.score

module _ (fl : Floats) {E : Type 0} (env : EvaluatorEnv fl E) where
  -- An evaluation of some results that succeeds is the reading of what the model answered.
  evaluate_some-ok :
      (system query : String) (rs : List (SearchResult fl.Float)) (v : EvidenceEvaluation fl.Float)
      → evaluate_some fl env system query rs ≡ ok v
      → (answers : List (LlmResponse fl.Float)) × (read_verdict fl env.words.normal rs answers ≡ v)
  unfolding evaluate_some
  evaluate_some-ok system query rs v h =
      let (sections, _, h₁) = bind_inv (env.get_sections (all_section_ids rs)) _ h in
      let (prompt, _, h₂) =
        bind_inv (user_prompt env.words env.max_total_words env.max_section_words sections query rs)
          _ h₁ in
      let (seed, _, h₃) = bind_inv (env.seed (cat system query)) _ h₂ in
      let (answers, _, h₄) = bind_inv (env.complete seed prompt) _ h₃ in (answers, ok-injective h₄)

  evaluate_some_run :
      (system query : String) (rs : List (SearchResult fl.Float))
      (sections : SectionId → Option (Section E)) (prompt : String) (seed : ℕ)
      (answers : List (LlmResponse fl.Float))
      → env.get_sections (all_section_ids rs) ≡ ok sections
      → user_prompt env.words env.max_total_words env.max_section_words sections query rs
        ≡ ok prompt
      → env.seed (cat system query) ≡ ok seed
      → env.complete seed prompt ≡ ok answers
      → evaluate_some fl env system query rs ≡ ok (read_verdict fl env.words.normal rs answers)
  unfolding evaluate_some
  evaluate_some_run system query rs sections prompt seed answers h₁ h₂ h₃ h₄ =
      rw (h₁, h₂, h₃, h₄, ◌>>=◌)

  -- Every verdict that is returned has a score that is neither below 0 nor above 1, whatever score
  -- the model answers: it is clamped, and the fixed scores of the two other branches are in range.
  pub evaluate-InUnit :
      (system query : String) (rs : List (SearchResult fl.Float)) (v : EvidenceEvaluation fl.Float)
      → evaluate fl env system query rs ≡ ok v
      → InUnit fl v.grounding.score
  unfolding evaluate
  evaluate-InUnit system query [] v h =
      ground (arith, fl.lt_irrefl fl.zero, fl.zero-lt-one, fl.lt_asymm fl.zero fl.one)
  evaluate-InUnit system query (r ∷ rs) v h =
      let (answers, e) = evaluate_some-ok system query (r ∷ rs) v h in
      subst (λ w. InUnit fl w.grounding.score) e
        (read_verdict-InUnit fl env.words.normal (r ∷ rs) answers)

  -- The evaluator fails open: where the model is asked and answers nothing, the evaluation succeeds
  -- with a partial verdict, and filtering by it keeps every section of the results.
  pub evaluate_fails_open :
      (system query : String) (r : SearchResult fl.Float) (rs : List (SearchResult fl.Float))
      (sections : SectionId → Option (Section E)) (prompt : String) (seed : ℕ)
      → env.get_sections (all_section_ids (r ∷ rs)) ≡ ok sections
      → user_prompt env.words env.max_total_words env.max_section_words sections query (r ∷ rs)
        ≡ ok prompt
      → env.seed (cat system query) ≡ ok seed
      → env.complete seed prompt ≡ ok []
      → (v : EvidenceEvaluation fl.Float) × (evaluate fl env system query (r ∷ rs) ≡ ok v)
        × (v.grounding.status ≡ partial)
        × (all_section_ids (filter_relevant (r ∷ rs) v.relevant) ≡ all_section_ids (r ∷ rs))
  unfolding evaluate
  evaluate_fails_open system query r rs sections prompt seed h₁ h₂ h₃ h₄ = (
    read_verdict fl env.words.normal (r ∷ rs) [],
    evaluate_some_run system query (r ∷ rs) sections prompt seed [] h₁ h₂ h₃ h₄,
    unfold read_verdict in refl,
    all_section_ids-filter_relevant (r ∷ rs) (all_section_ids (r ∷ rs))
        ∙ keep_of_All (contains (all_section_ids (r ∷ rs))) (all_section_ids (r ∷ rs))
            (contains_self (all_section_ids (r ∷ rs))),
  )
