-- ===== src/Pipeline/Fusion.antt =====
-- index/pipeline/index.go: mergeResults, the Reciprocal Rank Fusion of the results of the legs. The
-- order in which Go ranges over a map is the parameter `ranged`; url.Parse is a parameter too.
pub mod Tallied
pub mod Ranking
use Prim.Native.String.{compare as compare_text, then}
use amoxtli.Common.{
  ◌+◌, Bool, ℕ, zero, suc, String, Option, none, some, List, [], ◌∷◌, map, Ordering,
}
use amoxtli.Common.Int.{ℤ, pos, negsuc}
use amoxtli.Common.Keyed.{Keyed, lookup, insert}
use amoxtli.Common.Lists.{take}
use amoxtli.Common.Result.{Result, ok, err, ◌>>=◌}
use amoxtli.Common.Sort.{sort}
use amoxtli.Floats.{Floats}
use amoxtli.Search.{SectionId, SearchResult}

unfoldable pub rrf_k : ℕ
rrf_k = 60

-- the keys of a map
abbrev pub keys : {V : Type 0} → Keyed V → List String
keys [] = []
keys ((k, v) ∷ rest) = k ∷ keys rest

-- `if maxResults > 0 && len(merged) > maxResults { merged = merged[:maxResults] }`
unfoldable pub cut : {A : Type 0} → ℤ → List A → List A
cut (pos (suc n)) xs = take (suc n) xs
cut max_results xs = xs

module _ (fl : Floats) where
  -- `m[k]`, which is 0 where the key is missing
  unfoldable pub score_at : Keyed fl.Float → String → fl.Float
  score_at m k = elim (lookup k m) [ none ↦ fl.zero | some x ↦ x ]

  -- `m[k] += x`
  unfoldable pub add_score : Keyed fl.Float → String → fl.Float → Keyed fl.Float
  unfolding score_at
  add_score m k x = insert k (fl.add (score_at m k) x) m

  -- `weight / float64(rrfK+rank+1)`
  unfoldable pub contribution : fl.Float → ℕ → fl.Float
  unfolding rrf_k
  contribution weight rank = fl.quot weight (fl.of_int (rrf_k + rank + 1))

  -- sourceScores and sectionScores
  pub record Tally : Type 0 where
    pub sources : Keyed fl.Float
    pub sections : Keyed (Keyed fl.Float)

  -- the loop over the sections of one result, from a rank on
  unfoldable pub tally_sections : fl.Float → ℕ → List SectionId → Keyed fl.Float → Keyed fl.Float
  unfolding add_score contribution
  tally_sections weight rank [] scores = scores
  tally_sections weight rank (s ∷ ss) scores =
      tally_sections weight (suc rank) ss (add_score scores s (contribution weight rank))

  -- `sectionScores[source]`, made where it is missing
  unfoldable pub sections_at : Keyed (Keyed fl.Float) → String → Keyed fl.Float
  sections_at m source = elim (lookup source m) [ none ↦ [] | some scores ↦ scores ]

  -- one result of a leg, at its rank
  unfoldable pub tally_result : fl.Float → ℕ → SearchResult fl.Float → Tally → Tally
  unfolding tally_sections sections_at
  tally_result weight rank r t = record {
    sources = add_score t.sources r.source (contribution weight rank);
    sections =
        insert r.source (tally_sections weight 0 r.sections (sections_at t.sections r.source))
          t.sections;
  }

  unfoldable pub tally_results : fl.Float → ℕ → List (SearchResult fl.Float) → Tally → Tally
  unfolding tally_result
  tally_results weight rank [] t = t
  tally_results weight rank (r ∷ rs) t =
      tally_results weight (suc rank) rs (tally_result weight rank r t)

  -- all the legs, each with its weight
  unfoldable pub tally_legs : List (fl.Float × List (SearchResult fl.Float)) → Tally → Tally
  unfolding tally_results
  tally_legs [] t = t
  tally_legs ((weight, rs) ∷ legs) t = tally_legs legs (tally_results weight 0 rs t)

  -- the comparison of both slices.SortFunc calls: by score, the best first, then by text
  unfoldable pub by_score : Keyed fl.Float → String → String → Ordering
  unfolding score_at
  by_score scores a b = then (fl.cmp (score_at scores b) (score_at scores a)) (compare_text a b)

  unfoldable pub ranked : (List String → List String) → Keyed fl.Float → List String
  unfolding sort by_score
  ranked ranged scores = sort (by_score scores) (ranged (keys scores))

  module _ {E : Type 0} (ranged : List String → List String)
      (parse_url : String → Result E String) where
    -- the last loop of mergeResults
    unfoldable pub fused_results : Tally → List String → Result E (List (SearchResult fl.Float))
    unfolding ranked sections_at
    fused_results t [] = ok []
    fused_results t (raw ∷ rest) = parse_url raw >>= λ source. fused_results t rest >>= λ more. ok (
        record {
          source = source;
          sections = ranked ranged (sections_at t.sections raw);
          score = score_at t.sources raw;
          section_scores = some (sections_at t.sections raw);
        }
        ∷ more)

    -- mergeResults
    unfoldable pub merge_results :
        List (fl.Float × List (SearchResult fl.Float)) → ℤ → Result E (List (SearchResult fl.Float))
    unfolding tally_legs fused_results cut
    merge_results legs max_results =
        let t = tally_legs legs (record { sources = []; sections = [] }) in
        fused_results t (ranked ranged t.sources) >>= λ merged. ok (cut max_results merged)
