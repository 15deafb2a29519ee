-- ===== src/Pipeline/Dedup.antt =====
-- index/pipeline/duplicate_content_results_transformer.go: of the sections of one result that lie on
-- one branch of a document, some are dropped. A section is its identifier and its branch, the
-- identifiers from the document's root down to itself.
pub mod Branches
pub mod Antichain
use amoxtli.Common.{
  ◌≡◌, Bool, true, false, not, ◌&&◌, ◌||◌, String, ℕ, Option, none, some, List, [], ◌∷◌, ◌==◌,
  if◌then◌else◌, map,
}
use amoxtli.Common.Lists.{keep, exists_in}
use amoxtli.Common.Result.{Result, ok, err, ◌>>=◌}
use amoxtli.Search.{SectionId, SearchResult, all_section_ids, is_empty}

-- the part of model.Section that is read here
pub record Section : Type 0 where
  pub id : SectionId
  pub branch : List SectionId

-- `branch[length-2]`, where there is one
unfoldable pub before_last : List SectionId → Option SectionId
before_last [] = none
before_last (p ∷ []) = none
before_last (p ∷ s ∷ []) = some p
before_last (p ∷ s ∷ t ∷ rest) = before_last (s ∷ t ∷ rest)

unfoldable pub is_parent_of : Section → Section → Bool
unfolding before_last
is_parent_of section child = elim (before_last child.branch) [
  | none ↦ false
  | some p ↦ p == section.id
]

unfoldable pub get_children : List Section → Section → List Section
unfolding is_parent_of
get_children sections parent = keep (λ s. not (parent.id == s.id) && is_parent_of parent s) sections

-- the loop of isAncestor: whether a branch begins another
unfoldable pub begins : List SectionId → List SectionId → Bool
begins [] branch = true
begins (p ∷ ps) [] = false
begins (p ∷ ps) (b ∷ bs) = p == b && begins ps bs

unfoldable pub is_ancestor : Section → Section → Bool
unfolding begins
is_ancestor parent child = begins parent.branch child.branch

unfoldable pub has_ancestor : List Section → Section → Bool
unfolding is_ancestor
has_ancestor sections section =
    exists_in (λ other. not (other.id == section.id) && is_ancestor other section) sections

-- the sections that the store knows, of those of a result
unfoldable pub known : (SectionId → Option Section) → List SectionId → List Section
known stored [] = []
known stored (s ∷ ss) =
    let rest = known stored ss in elim (stored s) [ none ↦ rest | some section ↦ section ∷ rest ]

-- the sections that have no child in the list
unfoldable pub children_only : List Section → List Section
unfolding get_children
children_only sections = keep (λ s. is_empty (get_children sections s)) sections

-- and of those the ones that have no ancestor among them
unfoldable pub leaves : List Section → List Section
unfolding children_only has_ancestor
leaves sections = let left = children_only sections in keep (λ s. not (has_ancestor left s)) left

section_id : Section → SectionId
section_id s = s.id

module _ {F : Type 0} where
  unfoldable pub deduplicate : (SectionId → Option Section) → SearchResult F → SearchResult F
  unfolding leaves known section_id
  deduplicate stored r = record r { sections = map section_id (leaves (known stored r.sections)) }

  unfoldable pub deduplicate_all :
      (SectionId → Option Section) → List (SearchResult F) → List (SearchResult F)
  unfolding deduplicate
  deduplicate_all stored [] = []
  deduplicate_all stored (r ∷ rs) = deduplicate stored r ∷ deduplicate_all stored rs

  -- TransformResults, with the store's answer for all the sections at once
  unfoldable pub transform_duplicates :
      {E : Type 0}
      → (List SectionId → Result E (SectionId → Option Section))
      → List (SearchResult F)
      → Result E (List (SearchResult F))
  unfolding deduplicate_all
  transform_duplicates get_sections results = do
    stored ← get_sections (all_section_ids results)
    ok (deduplicate_all stored results)
