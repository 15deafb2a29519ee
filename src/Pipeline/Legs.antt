-- ===== src/Pipeline/Legs.antt =====
-- index/pipeline/index.go: the search through every leg. A leg is one of the weighted indexes, with
-- the capabilities that index.IsSemantic and index.AsFilterable find on it; the legs are given in the
-- order in which Go ranges over the map of them.
pub mod Filters
pub mod Limits
use Prim.Native.Nat.{◌%◌}
use amoxtli.Common.{
  ◌+◌, ◌*◌, ◌-◌, Bool, true, false, not, ◌&&◌, ℕ, zero, suc, String, Option, none, some, List, [],
  ◌∷◌, map, if◌then◌else◌,
}
use amoxtli.Common.Int.{ℤ, pos, negsuc}
use amoxtli.Common.Lists.{length}
use amoxtli.Common.Result.{Result, ok, err, ◌>>=◌}
use amoxtli.Common.Tests.{ltb, is_some}
use amoxtli.Floats.{Floats}
use amoxtli.Pipeline.FanOut.{Call, FanError, fan_out}
use amoxtli.Pipeline.Fusion.{merge_results}
use amoxtli.Pipeline.Transformers.{
  SearchOptions, QueryTransformer, TransformerScope, transform_query, leg_query,
}
use amoxtli.Search.{SearchResult, is_empty}

-- `maxResults * 2` on an int of 64 bits
unfoldable pub doubled : ℤ → ℤ
doubled (pos n) =
    let bits = (2 * n) % 18446744073709551616 in
    if ltb bits 9223372036854775808 then pos bits else negsuc (18446744073709551615 - bits)
doubled (negsuc n) =
    let bits = (2 * n + 1) % 18446744073709551616 in
    if ltb bits 9223372036854775808 then negsuc bits else pos (18446744073709551615 - bits)

-- `maxResults := 3`, and what the options say where that is not 0
unfoldable pub limit : ℤ → ℤ
limit (pos zero) = pos 3
limit max_results = max_results

abbrev pub or_none : {A : Type 0} → Option (List A) → List A
or_none none = []
or_none (some xs) = xs

-- emptyResults
unfoldable pub empty_results : {F : Type 0} → List (SearchResult F) → Bool
empty_results [] = true
empty_results (r ∷ rs) = is_empty r.sections && empty_results rs

-- the options of a leg
unfoldable pub leg_options : SearchOptions → SearchOptions
unfolding doubled limit
leg_options opts = record {
  max_results = doubled (limit opts.max_results);
  collections = some (or_none opts.collections);
}

-- One of the indexes, with its weight. Of a filter C is the type of one condition.
pub record Leg (F E C : Type 0) : Type 0 where
  pub weight : F
  pub is_semantic : Bool
  pub search : String → SearchOptions → Call E (List (SearchResult F))
  pub search_filtered : Option (String → List C → SearchOptions → Call E (List (SearchResult F)))

pub record PipelineIndex (F E C : Type 0) : Type 0 where
  pub legs : List (Leg F E C)
  pub query_transformers : List (QueryTransformer E)
  pub results_transformers :
      List (String → List (SearchResult F) → SearchOptions → Result E (List (SearchResult F)))

abbrev pub with_weight :
    {F E : Type 0} → F → Call E (List (SearchResult F)) → Call E (F × List (SearchResult F))
with_weight weight (Call.returned (ok rs)) = Call.returned (ok (weight, rs))
with_weight weight (Call.returned (err problem)) = Call.returned (err problem)
with_weight weight (Call.panicked problem) = Call.panicked problem

-- transformResults
unfoldable pub transform_results :
    {F E : Type 0}
    → List (String → List (SearchResult F) → SearchOptions → Result E (List (SearchResult F)))
    → String
    → SearchOptions
    → List (SearchResult F)
    → Result E (List (SearchResult F))
unfolding empty_results
transform_results [] query opts results = ok results
transform_results (t ∷ ts) query opts results = t query results opts >>= λ transformed.
    if empty_results transformed then ok [] else transform_results ts query opts transformed

-- countSections
unfoldable pub count_sections : {F : Type 0} → List (SearchResult F) → ℕ
count_sections [] = 0
count_sections (r ∷ rs) = length r.sections + count_sections rs

module _ {F E C : Type 0} where
  abbrev pub all_filterable : List (Leg F E C) → Bool
  all_filterable [] = true
  all_filterable (leg ∷ legs) = is_some leg.search_filtered && all_filterable legs

  -- Filterable
  unfoldable pub filterable : List (Leg F E C) → Bool
  filterable legs = not (is_empty legs) && all_filterable legs

  -- the filtered search, where the leg has one and there is a filter
  unfoldable pub search_leg :
      Leg F E C → List C → String → SearchOptions → Call E (List (SearchResult F))
  search_leg leg filter query opts = elim leg.search_filtered [
    | none ↦ leg.search query opts
    | some filtered ↦
        if not (is_empty filter) then filtered query filter opts else leg.search query opts
  ]

  -- the function that search gives to fanOut, from the query variant on
  unfoldable pub ask_leg :
      SearchOptions → List C → Leg F E C → Result E String → Call E (F × List (SearchResult F))
  unfolding search_leg leg_options
  ask_leg opts filter leg (err problem) = Call.returned (err problem)
  ask_leg opts filter leg (ok query) =
      with_weight leg.weight (search_leg leg filter query (leg_options opts))

  -- the function that search gives to fanOut
  unfoldable pub run_leg :
      List (QueryTransformer E)
      → SearchOptions
      → List C
      → String
      → Leg F E C
      → Call E (F × List (SearchResult F))
  unfolding leg_query ask_leg
  run_leg ts opts filter base leg = ask_leg opts filter leg (leg_query ts opts leg.is_semantic base)

-- The error of a search: of a transformer or a parsed URL, of the legs, or of a filter that some leg
-- cannot apply.
pub data SearchError (E : Type 0) : Type 0 where
  failed_stage : E → SearchError E
  failed_legs : FanError E → SearchError E
  cannot_filter : SearchError E

abbrev pub stage_error : {E A : Type 0} → Result E A → Result (SearchError E) A
stage_error (ok value) = ok value
stage_error (err problem) = err (SearchError.failed_stage problem)

abbrev pub legs_error : {E A : Type 0} → Result (FanError E) A → Result (SearchError E) A
legs_error (ok value) = ok value
legs_error (err problem) = err (SearchError.failed_legs problem)

-- the first half of search, up to the results of the legs
unfoldable pub search_legs :
    {F E C : Type 0}
    → PipelineIndex F E C
    → String
    → List C
    → SearchOptions
    → Result (SearchError E) (List (F × List (SearchResult F)))
unfolding transform_query fan_out run_leg
search_legs i query filter opts =
    stage_error (transform_query TransformerScope.universal opts i.query_transformers query)
    >>= λ base. legs_error (fan_out (run_leg i.query_transformers opts filter base) i.legs)

module _ (fl : Floats) {E C : Type 0} (ranged : List String → List String)
    (parse_url : String → Result E String) where
  -- search
  unfoldable pub search :
      PipelineIndex fl.Float E C
      → String
      → List C
      → SearchOptions
      → Result (SearchError E) (List (SearchResult fl.Float))
  unfolding search_legs merge_results transform_results limit
  search i query filter opts = search_legs i query filter opts >>= λ results.
      stage_error (merge_results fl ranged parse_url results (limit opts.max_results)) >>= λ merged.
      stage_error (transform_results i.results_transformers query opts merged)

  -- SearchFiltered
  unfoldable pub search_filtered :
      PipelineIndex fl.Float E C
      → String
      → List C
      → SearchOptions
      → Result (SearchError E) (List (SearchResult fl.Float))
  unfolding filterable search
  search_filtered i query filter opts =
      if not (is_empty filter) && not (filterable i.legs)
      then err SearchError.cannot_filter
      else search i query filter opts
