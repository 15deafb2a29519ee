-- ===== src/Pipeline/Legs/Filters.antt =====
-- index/pipeline/index.go: SearchFiltered and the searches of the legs without a filter.
use mathlib.Core.Path.{ap₂}
use amoxtli.Common.{
  ◌≡◌, refl, ap, ◌&&◌, Option-cases, inl, inr, Bool-cases, Bool, true, String, List, [], ◌∷◌, map,
  arith,
}
use amoxtli.Common.Result.{Result, ok, err, ◌>>=◌, bind-cong}
use amoxtli.Common.Tests.{is_some}
use amoxtli.Floats.{Floats}
use amoxtli.Pipeline.FanOut.{Call, fan_out}
use amoxtli.Pipeline.Legs.{
  Leg, PipelineIndex, all_filterable, filterable, search_leg, run_leg, search, search_filtered,
  with_weight, leg_options, search_legs, ask_leg, stage_error, limit, transform_results, legs_error,
}
use amoxtli.Pipeline.Transformers.{
  SearchOptions, QueryTransformer, TransformerScope, transform_query, leg_query,
}
use amoxtli.Pipeline.Fusion.{merge_results}
use amoxtli.Search.{SearchResult}

&&-left : (a b : Bool) → a && b ≡ true → a ≡ true
&&-left a b h = ground (arith, h)

&&-right : (a b : Bool) → a && b ≡ true → b ≡ true
&&-right a b h = ground (arith, h)

module _ {F E C : Type 0} where
  filterable-all : (legs : List (Leg F E C)) → filterable legs ≡ true → all_filterable legs ≡ true
  unfolding filterable
  filterable-all legs h = &&-right _ _ h

module _ {F E C : Type 0} (plain : String → SearchOptions → Call E (List (SearchResult F))) where
  -- The leg with another search without a filter.
  abbrev pub with_plain : Leg F E C → Leg F E C
  with_plain leg = record leg { search = plain }

  all_filterable-with_plain :
      (legs : List (Leg F E C)) → all_filterable (map with_plain legs) ≡ all_filterable legs
  all_filterable-with_plain [] = refl
  all_filterable-with_plain (leg ∷ legs) = rw (all_filterable-with_plain legs) refl

  filterable-with_plain :
      (legs : List (Leg F E C)) → filterable (map with_plain legs) ≡ filterable legs
  unfolding filterable
  filterable-with_plain [] = refl
  filterable-with_plain (leg ∷ legs) = all_filterable-with_plain (leg ∷ legs)

  search_leg-with_plain :
      (leg : Leg F E C) (c : C) (cs : List C) (query : String) (opts : SearchOptions)
      → is_some leg.search_filtered ≡ true
      → search_leg (with_plain leg) (c ∷ cs) query opts ≡ search_leg leg (c ∷ cs) query opts
  unfolding search_leg
  search_leg-with_plain leg c cs query opts h = elim (Option-cases leg.search_filtered) [
    | inl e ↦ cc (rw e at h)
    | inr (f, e) ↦ rw e refl
  ]

  run_leg-with_plain :
      (ts : List (QueryTransformer E)) (opts : SearchOptions) (c : C) (cs : List C) (base : String)
      (leg : Leg F E C)
      → is_some leg.search_filtered ≡ true
      → run_leg ts opts (c ∷ cs) base (with_plain leg) ≡ run_leg ts opts (c ∷ cs) base leg
  unfolding run_leg ask_leg
  run_leg-with_plain ts opts c cs base leg h = go (leg_query ts opts leg.is_semantic base)
    where
      go :
          (q : Result E String)
          → ask_leg opts (c ∷ cs) (with_plain leg) q ≡ ask_leg opts (c ∷ cs) leg q
      go (err problem) = refl
      go (ok query) =
          ap (with_weight leg.weight) (search_leg-with_plain leg c cs query (leg_options opts) h)

  run_legs-with_plain :
      (ts : List (QueryTransformer E)) (opts : SearchOptions) (c : C) (cs : List C) (base : String)
      (legs : List (Leg F E C))
      → all_filterable legs ≡ true
      → map (run_leg ts opts (c ∷ cs) base) (map with_plain legs)
        ≡ map (run_leg ts opts (c ∷ cs) base) legs
  run_legs-with_plain ts opts c cs base [] h = refl
  run_legs-with_plain ts opts c cs base (leg ∷ legs) h =
      ap₂ ◌∷◌ (run_leg-with_plain ts opts c cs base leg (&&-left _ _ h))
        (run_legs-with_plain ts opts c cs base legs (&&-right _ _ h))

  search_legs-with_plain :
      (i : PipelineIndex F E C) (query : String) (c : C) (cs : List C) (opts : SearchOptions)
      → all_filterable i.legs ≡ true
      → search_legs (record i { legs = map with_plain i.legs }) query (c ∷ cs) opts
        ≡ search_legs i query (c ∷ cs) opts
  unfolding search_legs fan_out
  search_legs-with_plain i query c cs opts h =
      bind-cong
        (stage_error (transform_query TransformerScope.universal opts i.query_transformers query))
        (λ base. ap legs_error (fan_out-with_plain base))
    where
      fan_out-with_plain :
          (base : String)
          → fan_out (run_leg i.query_transformers opts (c ∷ cs) base) (map with_plain i.legs)
            ≡ fan_out (run_leg i.query_transformers opts (c ∷ cs) base) i.legs
      fan_out-with_plain base =
          rw (run_legs-with_plain i.query_transformers opts c cs base i.legs h) refl

module _ (fl : Floats) {E C : Type 0} (ranged : List String → List String)
    (parse_url : String → Result E String)
    (plain : String → SearchOptions → Call E (List (SearchResult fl.Float))) where
  search-with_plain :
      (i : PipelineIndex fl.Float E C) (query : String) (c : C) (cs : List C) (opts : SearchOptions)
      → all_filterable i.legs ≡ true
      → search fl ranged parse_url
          (record i { legs = map (with_plain plain) i.legs })
          query
          (c ∷ cs)
          opts
        ≡ search fl ranged parse_url i query (c ∷ cs) opts
  unfolding search
  search-with_plain i query c cs opts h =
      ap
        (λ found. found >>= λ results.
          stage_error (merge_results fl ranged parse_url results (limit opts.max_results))
          >>= λ merged. stage_error (transform_results i.results_transformers query opts merged))
        (search_legs-with_plain plain i query c cs opts h)

  -- A search with a filter returns the same whatever the searches without a filter of the legs are:
  -- none of them has a part in it.
  pub search_filtered_only :
      (i : PipelineIndex fl.Float E C) (query : String) (c : C) (cs : List C) (opts : SearchOptions)
      → search_filtered fl ranged parse_url
          (record i { legs = map (with_plain plain) i.legs })
          query
          (c ∷ cs)
          opts
        ≡ search_filtered fl ranged parse_url i query (c ∷ cs) opts
  unfolding search_filtered
  search_filtered_only i query c cs opts = elim (Bool-cases (filterable i.legs)) [
    | inr h ↦ rw (filterable-with_plain plain i.legs, h) refl
    | inl h ↦
        rw (filterable-with_plain plain i.legs, h)
          (search-with_plain i query c cs opts (filterable-all i.legs h))
  ]
