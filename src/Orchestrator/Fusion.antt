-- ===== src/Orchestrator/Fusion.antt =====
-- retrieval/orchestrator.go: fuseResults, the union of several lists of results without repeated
-- sections. The map `seen` is the list of its keys.
pub mod Union
use amoxtli.Common.{
  ◌≡◌, refl, ap, ◌∙◌, sym, Bool, true, false, ◌||◌, String, List, [], ◌∷◌, ◌++◌, if◌then◌else◌,
  arith, eq_iff, ◌==◌, Bool-cases, inl, inr,
}
use amoxtli.Common.Lists.{All, All-append}
use amoxtli.Common.Keyed.{contains, contains-append}
use amoxtli.Search.{SectionId, SearchResult, is_empty, all_section_ids}
use amoxtli.Evidence.{with_sections}

-- the sections of one result that were not seen before, and all that has been seen after it
unfoldable pub fuse_sections : List SectionId → List SectionId → List SectionId × List SectionId
fuse_sections seen [] = ([], seen)
fuse_sections seen (s ∷ ss) =
    let old = contains seen s in
    let (kept, seen') = fuse_sections (if old then seen else s ∷ seen) ss in
    (if old then kept else s ∷ kept, seen')

module _ {F : Type 0} where
  unfoldable pub fuse_group :
      List SectionId → List (SearchResult F) → List (SearchResult F) × List SectionId
  unfolding fuse_sections
  fuse_group seen [] = ([], seen)
  fuse_group seen (r ∷ rs) =
      let (kept, seen') = fuse_sections seen r.sections in
      let (rest, seen'') = fuse_group seen' rs in
      (if is_empty kept then rest else with_sections r kept ∷ rest, seen'')

  unfoldable pub fuse_groups : List SectionId → List (List (SearchResult F)) → List (SearchResult F)
  unfolding fuse_group
  fuse_groups seen [] = []
  fuse_groups seen (g ∷ gs) = let (out, seen') = fuse_group seen g in out ++ fuse_groups seen' gs

  -- fuseResults
  unfoldable pub fuse_results : List (List (SearchResult F)) → List (SearchResult F)
  unfolding fuse_groups
  fuse_results groups = fuse_groups [] groups

  -- The sections of several lists of results, in order.
  abbrev pub group_ids : List (List (SearchResult F)) → List SectionId
  group_ids [] = []
  group_ids (g ∷ gs) = all_section_ids g ++ group_ids gs
