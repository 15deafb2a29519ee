-- ===== src/Evidence.antt =====
-- retrieval/evaluate.go, the part that applies a relevance signal to a list of results:
-- filterSectionScores, FilterRelevant and DemoteIrrelevant. A Go map used as a set is the list that
-- fills it. The proofs are in the modules below.
pub mod Scores
pub mod Filtering
pub mod Demotion
pub mod Ranking
use amoxtli.Common.{Bool, String, Option, none, some, List, [], ◌∷◌, ◌++◌, if◌then◌else◌}
use amoxtli.Common.Lists.{keep, exists_in}
use amoxtli.Common.Keyed.{Keyed, lookup, insert, contains}
use amoxtli.Search.{SectionId, SearchResult, is_empty}

module _ {F : Type 0} where
  -- `out` filled with the scores of the sections in `keep`
  unfoldable pub copy_scores : Keyed F → Keyed F → List SectionId → Keyed F
  copy_scores scores out [] = out
  copy_scores scores out (s ∷ ids) =
      copy_scores scores (elim (lookup s scores) [ none ↦ out | some x ↦ insert s x out ]) ids

  unfoldable pub filter_section_scores : Option (Keyed F) → List SectionId → Option (Keyed F)
  unfolding copy_scores
  filter_section_scores none ids = none
  filter_section_scores (some scores) ids = some (copy_scores scores [] ids)

  -- a result cut down to some of its sections
  unfoldable pub with_sections : SearchResult F → List SectionId → SearchResult F
  with_sections r sections = record {
    source = r.source;
    sections = sections;
    score = r.score;
    section_scores = filter_section_scores r.section_scores sections;
  }

  unfoldable pub filter_relevant : List (SearchResult F) → List SectionId → List (SearchResult F)
  filter_relevant [] relevant = []
  filter_relevant (r ∷ rs) relevant =
      let sections = keep (contains relevant) r.sections in
      let rest = filter_relevant rs relevant in
      if is_empty sections then rest else with_sections r sections ∷ rest

  unfoldable pub has_relevant : List SectionId → SearchResult F → Bool
  has_relevant relevant r = exists_in (contains relevant) r.sections

  -- the loop of DemoteIrrelevant, over its two lists
  unfoldable pub demote_loop :
      List SectionId
      → List (SearchResult F)
      → List (SearchResult F)
      → List (SearchResult F)
      → List (SearchResult F)
  unfolding has_relevant
  demote_loop relevant [] kept demoted = kept ++ demoted
  demote_loop relevant (r ∷ rs) kept demoted =
      let hit = has_relevant relevant r in
      demote_loop relevant rs (if hit then kept ++ (r ∷ []) else kept)
        (if hit then demoted else demoted ++ (r ∷ []))

  unfoldable pub demote_irrelevant : List (SearchResult F) → List SectionId → List (SearchResult F)
  unfolding demote_loop
  demote_irrelevant rs relevant = demote_loop relevant rs [] []
