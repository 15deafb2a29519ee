-- ===== src/Orchestrator/Retrieval.antt =====
-- retrieval/orchestrator.go: one retrieval, with and without a decomposition of the query.
use amoxtli.Common.{
  ◌≡◌, subst, ◌∙◌, true, String, Option, none, some, List, ◌∷◌, if◌then◌else◌, arith,
}
use amoxtli.Common.Keyed.{contains, contains-append}
use amoxtli.Common.Result.{Result, ok, bind_inv, ok-injective}
use amoxtli.Floats.{Floats}
use amoxtli.Search.{SectionId, SearchResult, all_section_ids}
use amoxtli.Orchestrator.{
  decompose, skipped, Request, Orchestrator, search_all, retrieve_parts, retrieve, distinct_queries,
}
use amoxtli.Orchestrator.Fusion.{group_ids}
use amoxtli.Orchestrator.Fusion.Union.{all_section_ids-fuse_results}

module _ (fl : Floats) {E : Type 0} (o : Orchestrator fl E) (request : Request) where
  -- A retrieval that succeeds, decomposed or not, has searched the original query too, and
  -- every section which that search found is in the results.
  pub retrieve_keeps_query :
      (query : String) (rs : List (SearchResult fl.Float))
      → retrieve fl o request query ≡ ok rs
      → (base : List (SearchResult fl.Float)) × (o.search query request.max_results
            request.collections
          ≡ ok base)
        × ((s : SectionId)
            → contains (all_section_ids base) s ≡ true
            → contains (all_section_ids rs) s ≡ true)
  unfolding retrieve
  retrieve_keeps_query query rs =
      go (if skipped request.stages decompose then none else o.decomposer)
    where
      go :
          (split : Option (String → Result E (List String)))
          → retrieve_parts fl o request split query ≡ ok rs
          → (base : List (SearchResult fl.Float)) × (o.search query request.max_results
                request.collections
              ≡ ok base)
            × ((s : SectionId)
                → contains (all_section_ids base) s ≡ true
                → contains (all_section_ids rs) s ≡ true)
      go none h = (rs, h, λ s m. m)
      go (some split) h =
          let (subs, _, h₁) = bind_inv (split query) _ h in
          let (groups, all, fused) =
            bind_inv (search_all fl o request (query ∷ distinct_queries query subs)) _ h₁ in
          let (base, searched, h₂) =
            bind_inv (o.search query request.max_results request.collections) _ all in
          let (others, _, h₃) =
            bind_inv (search_all fl o request (distinct_queries query subs)) _ h₂ in
          (
            base,
            searched,
            λ s m.
                subst (λ t. contains (all_section_ids t) s ≡ true) (ok-injective fused)
                  ((all_section_ids-fuse_results groups).2 s
                    ∙ subst (λ g. contains (group_ids g) s ≡ true) (ok-injective h₃)
                        (ground
                          (arith, m, contains-append (all_section_ids base) (group_ids others) s))),
          )
