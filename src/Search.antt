-- ===== src/Search.antt =====
-- index/index.go: the results of a search, as every index and every stage after it hands them on.
-- A `*url.URL` is its text; a `float64` score is a value of the type F that the client gives.
use amoxtli.Common.{Bool, true, false, String, Option, List, [], ◌∷◌, ◌++◌}
use amoxtli.Common.Keyed.{Keyed}

abbrev pub SectionId : Type 0
SectionId = String

pub record SearchResult (F : Type 0) : Type 0 where
  pub source : String
  pub sections : List SectionId
  pub score : F
  pub section_scores : Option (Keyed F)

abbrev pub is_empty {ℓ} : {A : Type ℓ} → List A → Bool
is_empty [] = true
is_empty (_ ∷ _) = false

-- allSectionIDs of retrieval/evaluate.go
abbrev pub all_section_ids : {F : Type 0} → List (SearchResult F) → List SectionId
all_section_ids [] = []
all_section_ids (r ∷ rs) = r.sections ++ all_section_ids rs
