-- ===== src/Pipeline/Legs/Limits.antt =====
-- index/pipeline/index.go: the number of results of a search.
use mathlib.Core.Path.{subst}
use amoxtli.Common.{
  ◌≡◌, sym, inl, inr, Bool-cases, ◌≤◌, ℕ, zero, suc, String, List, [], ◌∷◌, arith, if◌then◌else◌,
  ◌=?◌, ap,
}
use amoxtli.Common.Int.{pos}
use amoxtli.Common.Lists.{length, All, length-take_le}
use amoxtli.Common.Result.{Result, ok, err, bind_inv, ok-injective}
use amoxtli.Floats.{Floats}
use amoxtli.Pipeline.Fusion.{merge_results, fused_results, cut, tally_legs, ranked}
use amoxtli.Pipeline.Legs.{
  PipelineIndex, search_legs, stage_error, limit, transform_results, search, empty_results,
}
use amoxtli.Pipeline.Transformers.{SearchOptions}
use amoxtli.Search.{SearchResult}

stage_error-ok :
    {E A : Type 0} (r : Result E A) {value : A} → stage_error r ≡ ok value → r ≡ ok value
stage_error-ok (ok value) h = cc
stage_error-ok (err problem) h = cc

module _ {F E : Type 0} where
  -- A transformer of results that adds none.
  abbrev pub Narrows :
      (String → List (SearchResult F) → SearchOptions → Result E (List (SearchResult F))) → Type 0
  Narrows t =
      (query : String) (rs : List (SearchResult F)) (opts : SearchOptions)
      (out : List (SearchResult F))
      → t query rs opts ≡ ok out
      → length out ≤ length rs

  transform_results_le :
      (ts : List
        (String → List (SearchResult F) → SearchOptions → Result E (List (SearchResult F))))
      (query : String) (opts : SearchOptions) (rs out : List (SearchResult F))
      → All Narrows ts
      → transform_results ts query opts rs ≡ ok out
      → length out ≤ length rs
  unfolding transform_results
  transform_results_le [] query opts rs out h e = rw (sym (ok-injective e)) (omega arith)
  transform_results_le (t ∷ ts) query opts rs out h e =
      let (middle, p, e') = bind_inv (t query rs opts) _ e in
      let first = h.0 query rs opts middle p in
      elim (Bool-cases (empty_results middle)) [
        | inl s ↦ subst (λ xs. length xs ≤ length rs) (ok-injective (rw s at e')) (omega arith)
        | inr s ↦
            (let rest = transform_results_le ts query opts middle out h.1 (rw s at e') in
              omega (arith, first, rest))
      ]

module _ (fl : Floats) {E : Type 0} (ranged : List String → List String)
    (parse_url : String → Result E String) where
  merge_results_le :
      (legs : List (fl.Float × List (SearchResult fl.Float))) (n : ℕ)
      (rs : List (SearchResult fl.Float))
      → merge_results fl ranged parse_url legs (pos (suc n)) ≡ ok rs
      → length rs ≤ suc n
  unfolding merge_results cut
  merge_results_le legs n rs e =
      let t = tally_legs fl legs (record { sources = []; sections = [] }) in
      let (merged, p, e') =
        bind_inv (fused_results fl ranged parse_url t (ranked fl ranged t.sources)) _ e in
      subst (λ xs. length xs ≤ suc n) (ok-injective e') (length-take_le (suc n) merged)

  search_within :
      {C : Type 0} (i : PipelineIndex fl.Float E C) (query : String) (filter : List C)
      (opts : SearchOptions) (n : ℕ) (rs : List (SearchResult fl.Float))
      → All Narrows i.results_transformers
      → limit opts.max_results ≡ pos (suc n)
      → search fl ranged parse_url i query filter opts ≡ ok rs
      → length rs ≤ suc n
  unfolding search
  search_within i query filter opts n rs h l e =
      let (legs, p, e') = bind_inv (search_legs i query filter opts) _ e in
      let (merged, q, e'') =
        bind_inv (stage_error (merge_results fl ranged parse_url legs (limit opts.max_results))) _
          e' in
      let found = merge_results_le legs n merged (
        subst (λ m. merge_results fl ranged parse_url legs m ≡ ok merged) l (stage_error-ok _ q)) in
      let last =
        transform_results_le i.results_transformers query opts merged rs h (stage_error-ok _ e'') in
      omega (arith, found, last)

  -- Where no transformer adds results, a search whose options ask for n results returns at most n,
  -- and one whose options leave the number at zero returns at most 3.
  pub search_le :
      {C : Type 0} (i : PipelineIndex fl.Float E C) (query : String) (filter : List C)
      (opts : SearchOptions) (n : ℕ) (rs : List (SearchResult fl.Float))
      → All Narrows i.results_transformers
      → opts.max_results ≡ pos n
      → search fl ranged parse_url i query filter opts ≡ ok rs
      → length rs ≤ (if n =? 0 then 3 else n)
  unfolding limit
  search_le i query filter opts zero rs h l e =
      search_within i query filter opts 2 rs h (ap limit l) e
  search_le i query filter opts (suc n) rs h l e =
      ground (arith, search_within i query filter opts n rs h (ap limit l) e)
