-- ===== src/Evaluator.antt =====
-- retrieval/evaluate.go and retrieval/grounding.go: the evaluator that asks a model for the relevant
-- sections and a verdict. The section store, the word functions of the package strings, the seed
-- and the model's completion with its parsing are parameters.
pub mod Prompt
pub mod Budget
pub mod Verdict
use Prim.Native.String.{◌++◌ as cat}
use amoxtli.Common.{Bool, ℕ, String, Option, List, [], ◌∷◌, ◌==◌, if◌then◌else◌}
use amoxtli.Common.Int.{ℤ}
use amoxtli.Common.Result.{Result, ok, err, ◌>>=◌}
use amoxtli.Floats.{Floats}
use amoxtli.Search.{SectionId, SearchResult, all_section_ids}
use Prompt.{Section, WordTools, user_prompt}

pub data GroundingStatus : Type 0 where
  valid partial invalid : GroundingStatus

pub record GroundingResult (F : Type 0) : Type 0 where
  pub status : GroundingStatus
  pub score : F
  pub explanation : String

pub record EvidenceEvaluation (F : Type 0) : Type 0 where
  pub relevant : List SectionId
  pub grounding : GroundingResult F

-- `normal` is strings.ToLower after strings.TrimSpace.
unfoldable pub normalize_grounding_status : (String → String) → String → GroundingStatus
normalize_grounding_status normal s =
    if normal s == "valid" then valid else if normal s == "partial" then partial else invalid

unfoldable pub clamp_score : (fl : Floats) → fl.Float → fl.Float
clamp_score fl score =
    if fl.lt score fl.zero then fl.zero else if fl.lt fl.one score then fl.one else score

-- llmResponse
pub record LlmResponse (F : Type 0) : Type 0 where
  pub relevant : List String
  pub status : String
  pub score : F
  pub explanation : String

-- What the evaluator is built with, and what it calls.
pub record EvaluatorEnv (fl : Floats) (E : Type 0) : Type 0 where
  pub words : WordTools
  pub max_total_words : ℤ
  pub max_section_words : ℕ
  pub get_sections : List SectionId → Result E (SectionId → Option (Section E))
  pub seed : String → Result E ℕ
  pub complete : ℕ → String → Result E (List (LlmResponse fl.Float))

-- The verdict on what the model answered: the first response, or none at all.
unfoldable pub read_verdict :
    (fl : Floats)
    → (String → String)
    → List (SearchResult fl.Float)
    → List (LlmResponse fl.Float)
    → EvidenceEvaluation fl.Float
unfolding normalize_grounding_status clamp_score
read_verdict fl normal results [] = record {
  relevant = all_section_ids results;
  grounding = record {
    status = partial;
    score = fl.half;
    explanation = "evidence evaluator returned no verdict";
  };
}
read_verdict fl normal results (r ∷ _) = record {
  relevant = r.relevant;
  grounding = record {
    status = normalize_grounding_status normal r.status;
    score = clamp_score fl r.score;
    explanation = r.explanation;
  };
}

module _ (fl : Floats) {E : Type 0} (env : EvaluatorEnv fl E) where
  -- the part of Evaluate behind the test for an empty list
  unfoldable pub evaluate_some :
      String → String → List (SearchResult fl.Float) → Result E (EvidenceEvaluation fl.Float)
  unfolding read_verdict
  evaluate_some system query results = do
    sections ← env.get_sections (all_section_ids results)
    prompt ← user_prompt env.words env.max_total_words env.max_section_words sections query results
    seed ← env.seed (cat system query)
    responses ← env.complete seed prompt
    ok (read_verdict fl env.words.normal results responses)

  -- Evaluate; `system` is the constant defaultEvaluatePrompt.
  unfoldable pub evaluate :
      String → String → List (SearchResult fl.Float) → Result E (EvidenceEvaluation fl.Float)
  unfolding evaluate_some
  evaluate system query [] = ok (record {
    relevant = [];
    grounding = record {
      status = invalid;
      score = fl.zero;
      explanation = "no documents were retrieved";
    };
  })
  evaluate system query (r ∷ rs) = evaluate_some system query (r ∷ rs)
