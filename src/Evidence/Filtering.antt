-- ===== src/Evidence/Filtering.antt =====
-- retrieval/evaluate.go: FilterRelevant, seen through the sections that its results carry.
use amoxtli.Common.{◌≡◌, refl, false, List, [], ◌∷◌, arith, Bool-cases, inl, inr}
use amoxtli.Common.Lists.{keep, keep-append, All}
use amoxtli.Common.Keyed.{contains}
use amoxtli.Search.{SectionId, SearchResult, is_empty, all_section_ids}
use amoxtli.Evidence.{with_sections, filter_relevant}

module _ {F : Type 0} where
  -- The sections of the filtered results, read in order, are the relevant ones among the sections
  -- of the given results, in the same order: nothing relevant is lost and nothing else is kept.
  pub all_section_ids-filter_relevant :
      (rs : List (SearchResult F)) (relevant : List SectionId)
      → all_section_ids (filter_relevant rs relevant)
        ≡ keep (contains relevant) (all_section_ids rs)
  unfolding filter_relevant with_sections
  all_section_ids-filter_relevant [] relevant = refl
  all_section_ids-filter_relevant (r ∷ rs) relevant = ground (
    arith,
    keep-append (contains relevant) r.sections (all_section_ids rs),
    all_section_ids-filter_relevant rs relevant,
  )

  -- No result is left without a section.
  pub filter_relevant_nonempty :
      (rs : List (SearchResult F)) (relevant : List SectionId)
      → All (λ r. is_empty r.sections ≡ false) (filter_relevant rs relevant)
  unfolding filter_relevant with_sections
  filter_relevant_nonempty [] relevant = tt
  filter_relevant_nonempty (r ∷ rs) relevant =
      elim (Bool-cases (is_empty (keep (contains relevant) r.sections))) [
        | inl e ↦ rw e (filter_relevant_nonempty rs relevant)
        | inr e ↦ rw e (e, filter_relevant_nonempty rs relevant)
      ]
