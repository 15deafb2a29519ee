-- ===== src/Evidence/Ranking.antt =====
-- retrieval/evaluate.go: FilterRelevant and DemoteIrrelevant, the two grounding modes.
use mathlib.Core.List.{append-nil}
use amoxtli.Common.{◌≡◌, refl, ap, Bool, not, List, [], ◌∷◌, ◌++◌, arith, Bool-cases, inl, inr, ◌∙◌}
use amoxtli.Common.Lists.{keep, exists_in}
use amoxtli.Common.Keyed.{contains}
use amoxtli.Search.{SectionId, SearchResult, is_empty}
use amoxtli.Evidence.{filter_relevant, with_sections, has_relevant, demote_irrelevant}
use amoxtli.Evidence.Demotion.{demote_irrelevant-eq-partition}

is_empty-keep {ℓ} :
    {A : Type ℓ} (p : A → Bool) (xs : List A) → is_empty (keep p xs) ≡ not (exists_in p xs)
is_empty-keep p [] = refl
is_empty-keep p (x ∷ xs) = ground (arith, is_empty-keep p xs)

module _ {F : Type 0} where
  filter_relevant-append :
      (rs ts : List (SearchResult F)) (relevant : List SectionId)
      → filter_relevant (rs ++ ts) relevant
        ≡ filter_relevant rs relevant ++ filter_relevant ts relevant
  unfolding filter_relevant
  filter_relevant-append [] ts relevant = refl
  filter_relevant-append (r ∷ rs) ts relevant =
      elim (Bool-cases (is_empty (keep (contains relevant) r.sections))) [
        | inl e ↦ rw e (filter_relevant-append rs ts relevant)
        | inr e ↦ rw e (
            ap (λ l. with_sections r (keep (contains relevant) r.sections) ∷ l)
              (filter_relevant-append rs ts relevant))
      ]

  filter_relevant-keep_hits :
      (rs : List (SearchResult F)) (relevant : List SectionId)
      → filter_relevant (keep (has_relevant relevant) rs) relevant ≡ filter_relevant rs relevant
  unfolding filter_relevant has_relevant
  filter_relevant-keep_hits [] relevant = refl
  filter_relevant-keep_hits (r ∷ rs) relevant =
      ground
        (arith, is_empty-keep (contains relevant) r.sections, filter_relevant-keep_hits rs relevant)

  filter_relevant-keep_misses :
      (rs : List (SearchResult F)) (relevant : List SectionId)
      → filter_relevant (keep (λ r. not (has_relevant relevant r)) rs) relevant ≡ []
  unfolding filter_relevant has_relevant
  filter_relevant-keep_misses [] relevant = refl
  filter_relevant-keep_misses (r ∷ rs) relevant =
      ground (
        arith,
        is_empty-keep (contains relevant) r.sections,
        filter_relevant-keep_misses rs relevant,
      )

  -- Demoting first changes nothing of what a filtering by the same sections returns: the two modes
  -- agree on the relevant evidence, its scores and its order.
  pub filter_relevant-demote_irrelevant :
      (rs : List (SearchResult F)) (relevant : List SectionId)
      → filter_relevant (demote_irrelevant rs relevant) relevant ≡ filter_relevant rs relevant
  filter_relevant-demote_irrelevant rs relevant = rw demote_irrelevant-eq-partition (
      filter_relevant-append (keep (has_relevant relevant) rs)
        (keep (λ r. not (has_relevant relevant r)) rs) relevant
      ∙ simp (filter_relevant-keep_hits, filter_relevant-keep_misses, append-nil))
