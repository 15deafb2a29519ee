-- ===== src/Evidence/Demotion.antt =====
-- retrieval/evaluate.go: DemoteIrrelevant and the results with a relevant section.
use mathlib.Core.List.{append-nil, append_assoc, Perm}
use amoxtli.Common.{◌≡◌, not, List, [], ◌∷◌, ◌++◌, Bool-cases, inl, inr}
use amoxtli.Common.Lists.{keep, keep-perm}
use amoxtli.Search.{SectionId, SearchResult}
use amoxtli.Evidence.{has_relevant, demote_loop, demote_irrelevant}

module _ {F : Type 0} where
  demote_loop_lem :
      (relevant : List SectionId) (rs kept demoted : List (SearchResult F))
      → demote_loop relevant rs kept demoted
        ≡ (kept ++ keep (has_relevant relevant) rs)
          ++ (demoted ++ keep (λ r. not (has_relevant relevant r)) rs)
  unfolding demote_loop
  demote_loop_lem relevant [] kept demoted = simp append-nil
  demote_loop_lem relevant (r ∷ rs) kept demoted = elim (Bool-cases (has_relevant relevant r)) [
    | inl h ↦ unfold demote_loop in rw h (rw (demote_loop_lem relevant rs) (simp append_assoc))
    | inr h ↦ unfold demote_loop in rw h (rw (demote_loop_lem relevant rs) (simp append_assoc))
  ]

  -- DemoteIrrelevant puts the results with a relevant section first and the others last, each in
  -- their order.
  pub demote_irrelevant-eq-partition :
      (rs : List (SearchResult F)) (relevant : List SectionId)
      → demote_irrelevant rs relevant
        ≡ keep (has_relevant relevant) rs ++ keep (λ r. not (has_relevant relevant r)) rs
  demote_irrelevant-eq-partition rs relevant =
      unfold demote_irrelevant in demote_loop_lem relevant rs [] []

  -- It drops nothing and repeats nothing.
  pub demote_irrelevant-perm :
      (rs : List (SearchResult F)) (relevant : List SectionId)
      → Perm (demote_irrelevant rs relevant) rs
  demote_irrelevant-perm rs relevant =
      rw demote_irrelevant-eq-partition (keep-perm (has_relevant relevant) rs)
