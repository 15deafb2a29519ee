-- ===== src/Examples/Pipeline.antt =====
-- A pipeline of two indexes, of which one is semantic and can filter.
use mathlib.Core.List.{Perm}
use mathlib.Core.List.Perm
use amoxtli.Common.{
  ◌↔◌, ◌⊎◌, Bool, ◌≡◌, refl, ◌≤◌, true, false, ℕ, String, none, some, List, [], ◌∷◌, map,
}
use amoxtli.Common.Int.{pos}
use amoxtli.Common.Lists.{All, keep, length}
use amoxtli.Common.Result.{Result, ok}
use amoxtli.Common.Sort.{Sorted}
use amoxtli.Search.{SearchResult}
use amoxtli.Pipeline.FanOut.{Call, fan_out}
use amoxtli.Pipeline.FanOut.Outcomes.{success, fan_out-ok}
use amoxtli.Pipeline.Fusion.{keys, merge_results, by_score, tally_legs}
use amoxtli.Pipeline.Fusion.Ranking.{Ranked, Limited, merge_results-Ranked}
use amoxtli.Pipeline.Fusion.Tallied.{Tallied}
use amoxtli.Pipeline.Transformers.{SearchOptions, QueryTransformer}
use amoxtli.Pipeline.Legs.{Leg, PipelineIndex, search, search_filtered}
use amoxtli.Pipeline.Dedup.{Section, leaves}
use amoxtli.Pipeline.Dedup.Antichain.{Apart, Childless, Covered, leaves-antichain}
use amoxtli.Pipeline.Legs.Filters.{with_plain, search_filtered_only}
use amoxtli.Pipeline.Legs.Limits.{search_le}
use amoxtli.Examples.Scores.{halves}
use amoxtli.Examples.Evidence.{guide, notes}

-- the ranges over maps: in order
abbrev in_order : List String → List String
in_order xs = xs

in_order-perm : (xs : List String) → Perm (in_order xs) xs
in_order-perm xs = Perm.refl xs

abbrev swapped : List String → List String
swapped (a ∷ b ∷ []) = b ∷ a ∷ []
swapped xs = xs

swapped-perm : (xs : List String) → Perm (swapped xs) xs
swapped-perm [] = Perm.refl []
swapped-perm (a ∷ []) = Perm.refl (a ∷ [])
swapped-perm (a ∷ b ∷ []) = Perm.swap a b []
swapped-perm (a ∷ b ∷ c ∷ xs) = Perm.refl (a ∷ b ∷ c ∷ xs)

abbrev parse : String → Result String String
parse s = ok s

abbrev found_by_legs : List (ℕ × List (SearchResult ℕ))
found_by_legs = (20000, notes ∷ guide ∷ []) ∷ (10000, guide ∷ []) ∷ []

abbrev merged : List (SearchResult ℕ)
merged =
    record {
      source = "guide.md";
      sections = "a" ∷ "b" ∷ [];
      score = 485;
      section_scores = some (("a", 490) ∷ ("b", 483) ∷ []);
    }
    ∷ []

merges : merge_results halves in_order parse found_by_legs (pos 1) ≡ ok merged
unfolding merge_results
merges = refl

rereads : (raw url : String) → parse raw ≡ ok url → url ≡ raw
rereads raw url h = cc

merge_results-Ranked_example :
    let t = tally_legs halves found_by_legs (record { sources = []; sections = [] }) in
    Tallied halves found_by_legs t
    × ((all : List String) × Perm all (keys t.sources)
        × Sorted (by_score halves t.sources) all
        × Limited halves in_order parse (pos 1) all (map (λ r. r.source) merged)
        × All (Ranked halves in_order parse t) merged)
merge_results-Ranked_example =
    merge_results-Ranked halves in_order parse rereads in_order-perm found_by_legs (pos 1) merged
      merges

abbrev options : SearchOptions
options = record { max_results = pos 1; collections = none }

-- a condition of a filter is a source here
abbrev vectors : Leg ℕ String String
vectors = record {
  weight = 20000;
  is_semantic = true;
  search = λ q o. Call.returned (ok (notes ∷ guide ∷ []));
  search_filtered = some (λ q f o. Call.returned (ok (guide ∷ [])));
}

abbrev texts : Leg ℕ String String
texts = record vectors { is_semantic = false; search = λ q o. Call.panicked "out of range" }

abbrev hyde : QueryTransformer String
hyde = record {
  semantic_only = some true;
  lexical_only = none;
  transform_query = λ q o. ok "an imagined answer";
}

abbrev translation : QueryTransformer String
translation = record {
  semantic_only = none;
  lexical_only = some true;
  transform_query = λ q o. ok "une question";
}

abbrev both_legs : PipelineIndex ℕ String String
both_legs = record {
  legs = vectors ∷ texts ∷ [];
  query_transformers = hyde ∷ translation ∷ [];
  results_transformers = [];
}

fan_out-ok_example :
    (fan_out (λ (n : ℕ). success {E = String} n) (1 ∷ 2 ∷ []) ≡ ok (1 ∷ 2 ∷ []))
    ↔ (map (λ (n : ℕ). success {E = String} n) (1 ∷ 2 ∷ []) ≡ map success (1 ∷ 2 ∷ []))
fan_out-ok_example = fan_out-ok (λ n. success n) (1 ∷ 2 ∷ []) (1 ∷ 2 ∷ [])

search_filtered_only_example :
    search_filtered halves in_order parse
      (record both_legs { legs = map (with_plain (λ q o. Call.panicked "asked")) both_legs.legs })
      "q"
      ("guide.md" ∷ [])
      options
    ≡ search_filtered halves in_order parse both_legs "q" ("guide.md" ∷ []) options
search_filtered_only_example =
    search_filtered_only halves in_order parse (λ q o. Call.panicked "asked") both_legs "q"
      "guide.md" [] options

abbrev found_first : List (SearchResult ℕ)
found_first =
    record {
      source = "notes.md";
      sections = "c" ∷ [];
      score = 327;
      section_scores = some (("c", 327) ∷ []);
    }
    ∷ []

abbrev one_leg : PipelineIndex ℕ String String
one_leg = record both_legs { legs = vectors ∷ [] }

finds : search halves in_order parse one_leg "q" [] options ≡ ok found_first
unfolding search
finds = refl

search_le_example : length found_first ≤ 1
search_le_example =
    search_le halves in_order parse one_leg "q" [] options 1 found_first tt refl finds

abbrev chapters : List Section
chapters =
    record { id = "b"; branch = "a" ∷ "b" ∷ [] }
    ∷ record { id = "a"; branch = "a" ∷ [] }
    ∷ record { id = "d"; branch = "d" ∷ [] }
    ∷ []

leaves-antichain_example :
    All (λ s. Apart (leaves chapters) s × Childless chapters s) (leaves chapters)
    × ((kept : Section → Bool) × (leaves chapters ≡ keep kept chapters)
        × ((s : Section) → (kept s ≡ true) ⊎ Covered chapters s))
leaves-antichain_example = leaves-antichain chapters
