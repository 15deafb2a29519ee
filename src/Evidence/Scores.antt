-- ===== src/Evidence/Scores.antt =====
-- retrieval/evaluate.go: the section scores of a result that loses sections.
use amoxtli.Common.{
  ◌≡◌, refl, Option, none, some, List, [], ◌∷◌, arith, eq_iff, if◌then◌else◌, Option-cases, inl,
  inr,
}
use amoxtli.Common.Keyed.{Keyed, lookup, insert, contains, lookup-insert}
use amoxtli.Search.{SectionId}
use amoxtli.Evidence.{copy_scores, filter_section_scores}

-- The first of two lookups that finds something.
abbrev or_else {ℓ} : {A : Type ℓ} → Option A → Option A → Option A
or_else none b = b
or_else (some a) b = some a

module _ {F : Type 0} where
  abbrev score_of : Option (Keyed F) → SectionId → Option F
  score_of none s = none
  score_of (some m) s = lookup s m

  lookup-copy_scores :
      (scores out : Keyed F) (ids : List SectionId) (s : SectionId)
      → lookup s (copy_scores scores out ids)
        ≡ or_else (if contains ids s then lookup s scores else none) (lookup s out)
  unfolding copy_scores
  lookup-copy_scores scores out [] s = refl
  lookup-copy_scores scores out (i ∷ ids) s = elim (Option-cases (lookup i scores)) [
    | inl e ↦ rw e (ground (arith, e, eq_iff i s, lookup-copy_scores scores out ids s))
    | inr (x, e) ↦ rw e (
        ground (
          arith,
          e,
          eq_iff i s,
          lookup-insert i s x out,
          lookup-copy_scores scores (insert i x out) ids s,
        ))
  ]

  -- The scores left after a filtering are those of the sections left, unchanged, and no others.
  pub filter_section_scores_lem :
      (scores : Option (Keyed F)) (ids : List SectionId) (s : SectionId)
      → score_of (filter_section_scores scores ids) s
        ≡ (if contains ids s then score_of scores s else none)
  unfolding filter_section_scores
  filter_section_scores_lem none ids s = ground arith
  filter_section_scores_lem (some m) ids s = ground (arith, lookup-copy_scores m [] ids s)
