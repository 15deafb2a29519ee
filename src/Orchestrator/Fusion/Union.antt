-- ===== src/Orchestrator/Fusion/Union.antt =====
-- retrieval/orchestrator.go: the sections of fused results, next to those of their groups.
use mathlib.Core.List.{append_assoc}
use amoxtli.Common.{
  ◌≡◌, refl, false, ◌||◌, String, List, [], ◌∷◌, ◌++◌, arith, eq_iff, Bool-cases, inl, inr,
}
use amoxtli.Common.Lists.{All, All-append}
use amoxtli.Common.Keyed.{contains, contains-append}
use amoxtli.Common.Distinct.{
  firsts, Distinct, firsts-cong, firsts-append, contains-firsts, firsts-Distinct,
}
use amoxtli.Search.{SectionId, SearchResult, is_empty, all_section_ids}
use amoxtli.Evidence.{with_sections}
use amoxtli.Orchestrator.Fusion.{fuse_sections, fuse_group, fuse_groups, fuse_results, group_ids}

fuse_sections-kept : (seen ss : List SectionId) → (fuse_sections seen ss).0 ≡ firsts seen ss
unfolding fuse_sections
fuse_sections-kept seen [] = refl
fuse_sections-kept seen (s ∷ ss) =
    ground (arith, fuse_sections-kept seen ss, fuse_sections-kept (s ∷ seen) ss)

fuse_sections-seen :
    (seen ss : List SectionId) (k : String)
    → contains (fuse_sections seen ss).1 k ≡ (contains seen k || contains ss k)
unfolding fuse_sections
fuse_sections-seen seen [] k = ground arith
fuse_sections-seen seen (s ∷ ss) k =
    ground (arith, eq_iff s k, fuse_sections-seen seen ss k, fuse_sections-seen (s ∷ seen) ss k)

module _ {F : Type 0} where
  all_section_ids-append :
      (rs ts : List (SearchResult F))
      → all_section_ids (rs ++ ts) ≡ all_section_ids rs ++ all_section_ids ts
  all_section_ids-append [] ts = refl
  all_section_ids-append (r ∷ rs) ts = simp (append_assoc, all_section_ids-append rs ts)

  fuse_group-seen :
      (seen : List SectionId) (g : List (SearchResult F)) (k : String)
      → contains (fuse_group seen g).1 k ≡ contains (all_section_ids g ++ seen) k
  unfolding fuse_group
  fuse_group-seen seen [] k = refl
  fuse_group-seen seen (r ∷ rs) k = ground (
    arith,
    fuse_group-seen (fuse_sections seen r.sections).1 rs k,
    fuse_sections-seen seen r.sections k,
    contains-append (all_section_ids rs) (fuse_sections seen r.sections).1 k,
    contains-append (r.sections ++ all_section_ids rs) seen k,
    contains-append r.sections (all_section_ids rs) k,
  )

  fuse_group-ids :
      (seen : List SectionId) (g : List (SearchResult F))
      → all_section_ids (fuse_group seen g).0 ≡ firsts seen (all_section_ids g)
  unfolding fuse_group with_sections
  fuse_group-ids seen [] = refl
  fuse_group-ids seen (r ∷ rs) = ground (
    arith,
    fuse_sections-kept seen r.sections,
    fuse_group-ids (fuse_sections seen r.sections).1 rs,
    firsts-append seen r.sections (all_section_ids rs),
    firsts-cong (all_section_ids rs) (fuse_sections seen r.sections).1 (r.sections ++ seen) (λ k.
        ground (arith, fuse_sections-seen seen r.sections k, contains-append r.sections seen k)),
  )

  fuse_groups-ids :
      (seen : List SectionId) (gs : List (List (SearchResult F)))
      → all_section_ids (fuse_groups seen gs) ≡ firsts seen (group_ids gs)
  unfolding fuse_groups
  fuse_groups-ids seen [] = refl
  fuse_groups-ids seen (g ∷ gs) = cc (
    all_section_ids-append (fuse_group seen g).0 (fuse_groups (fuse_group seen g).1 gs),
    fuse_group-ids seen g,
    fuse_groups-ids (fuse_group seen g).1 gs,
    firsts-append seen (all_section_ids g) (group_ids gs),
    firsts-cong (group_ids gs) (fuse_group seen g).1 (all_section_ids g ++ seen)
        (fuse_group-seen seen g),
  )

  -- The sections of fused results are those of all the groups, each once: the first occurrence of
  -- each, in the order of the groups.
  pub all_section_ids-fuse_results :
      (gs : List (List (SearchResult F)))
      → (all_section_ids (fuse_results gs) ≡ firsts [] (group_ids gs))
        × Distinct (all_section_ids (fuse_results gs))
        × ((s : SectionId)
            → contains (all_section_ids (fuse_results gs)) s ≡ contains (group_ids gs) s)
  unfolding fuse_results
  all_section_ids-fuse_results gs = (
    fuse_groups-ids [] gs,
    rw (fuse_groups-ids [] gs) (firsts-Distinct [] (group_ids gs)),
    λ s. ground (arith, fuse_groups-ids [] gs, contains-firsts [] (group_ids gs) s),
  )

  fuse_group_nonempty :
      (seen : List SectionId) (g : List (SearchResult F))
      → All (λ r. is_empty r.sections ≡ false) (fuse_group seen g).0
  unfolding fuse_group with_sections
  fuse_group_nonempty seen [] = tt
  fuse_group_nonempty seen (r ∷ rs) =
      elim (Bool-cases (is_empty (fuse_sections seen r.sections).0)) [
        | inl e ↦ rw e (fuse_group_nonempty (fuse_sections seen r.sections).1 rs)
        | inr e ↦ rw e (e, fuse_group_nonempty (fuse_sections seen r.sections).1 rs)
      ]

  pub fuse_groups_nonempty :
      (seen : List SectionId) (gs : List (List (SearchResult F)))
      → All (λ r. is_empty r.sections ≡ false) (fuse_groups seen gs)
  unfolding fuse_groups
  fuse_groups_nonempty seen [] = tt
  fuse_groups_nonempty seen (g ∷ gs) =
      All-append _ _ _ (fuse_group_nonempty seen g) (fuse_groups_nonempty (fuse_group seen g).1 gs)
