-- ===== src/Examples/Evidence.antt =====
-- Evidence, its evaluation and the orchestrated search, on a small corpus.
use amoxtli.Common.{◌≡◌, refl, ℕ, none, some, List, [], ◌∷◌}
use amoxtli.Common.Lists.{keep}
use amoxtli.Common.Keyed.{contains}
use amoxtli.Search.{SearchResult, all_section_ids}
use amoxtli.Evidence.{filter_relevant, demote_irrelevant}
use amoxtli.Evidence.Filtering.{all_section_ids-filter_relevant}
use amoxtli.Evidence.Ranking.{filter_relevant-demote_irrelevant}

abbrev pub guide : SearchResult ℕ
guide = record {
  source = "guide.md";
  sections = "a" ∷ "b" ∷ [];
  score = 4;
  section_scores = some (("a", 3) ∷ ("b", 1) ∷ []);
}

abbrev pub notes : SearchResult ℕ
notes = record { source = "notes.md"; sections = "c" ∷ []; score = 2; section_scores = none }

abbrev pub found : List (SearchResult ℕ)
found = notes ∷ guide ∷ []

all_section_ids-filter_relevant_example :
    all_section_ids (filter_relevant found ("b" ∷ []))
    ≡ keep (contains ("b" ∷ [])) ("c" ∷ "a" ∷ "b" ∷ [])
all_section_ids-filter_relevant_example = all_section_ids-filter_relevant found ("b" ∷ [])

demotes_notes : demote_irrelevant found ("b" ∷ []) ≡ guide ∷ notes ∷ []
unfolding demote_irrelevant
demotes_notes = refl

filter_relevant-demote_irrelevant_example :
    filter_relevant (demote_irrelevant found ("b" ∷ [])) ("b" ∷ [])
    ≡ filter_relevant found ("b" ∷ [])
filter_relevant-demote_irrelevant_example = filter_relevant-demote_irrelevant found ("b" ∷ [])
