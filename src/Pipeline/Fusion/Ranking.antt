-- ===== src/Pipeline/Fusion/Ranking.antt =====
-- index/pipeline/index.go: the two sorts of mergeResults, and the order in which Go ranges over maps.
use amoxtli.Common.{
  ◌≡◌, refl, sym, subst, ap, ◌∙◌, ℕ, zero, suc, String, some, List, [], ◌∷◌, map, arith,
}
use mathlib.Core.List.{Perm}
use mathlib.Core.List.Perm
use amoxtli.Common.Int.{ℤ, pos, negsuc}
use amoxtli.Common.Keyed.{Keyed}
use amoxtli.Common.Lists.{take, All, All-take}
use amoxtli.Common.Result.{Result, ok, bind_inv, ok-injective}
use amoxtli.Common.Sort.{Sorted, IsOrder, sort_of_perm, sort-perm, sort-Sorted, text-IsOrder}
use amoxtli.Floats.{Floats}
use amoxtli.Pipeline.Fusion.{
  Tally, keys, score_at, by_score, ranked, fused_results, sections_at, cut, merge_results,
  tally_legs,
}
use amoxtli.Pipeline.Fusion.Tallied.{Tallied, tally_legs-Tallied}
use amoxtli.Search.{SearchResult}

module _ (fl : Floats) where
  by_score-IsOrder : (scores : Keyed fl.Float) → IsOrder (by_score fl scores)
  unfolding by_score
  by_score-IsOrder scores = record {
    flips = λ a b.
        ground (
          arith,
          text-IsOrder.flips a b,
          fl.cmp-flip (score_at fl scores b) (score_at fl scores a),
        );
    transitive = λ a b c p q. ground (
      arith,
      p,
      q,
      text-IsOrder.transitive a b c,
      fl.cmp_trans (score_at fl scores c) (score_at fl scores b) (score_at fl scores a),
      fl.cmp_eq_left (score_at fl scores c) (score_at fl scores b) (score_at fl scores a),
      fl.cmp_eq_left (score_at fl scores a) (score_at fl scores b) (score_at fl scores c),
      fl.cmp-flip (score_at fl scores a) (score_at fl scores b),
      fl.cmp-flip (score_at fl scores b) (score_at fl scores c),
      fl.cmp-flip (score_at fl scores a) (score_at fl scores c),
    );
    separates = λ a b p. ground (arith, p, text-IsOrder.separates a b);
  }

  module _ (ranged ranged' : List String → List String)
      (ranges : (xs : List String) → Perm (ranged xs) xs)
      (ranges' : (xs : List String) → Perm (ranged' xs) xs) where
    ranked_same : (scores : Keyed fl.Float) → ranked fl ranged scores ≡ ranked fl ranged' scores
    unfolding ranked
    ranked_same scores =
        sort_of_perm (by_score fl scores) (by_score-IsOrder scores)
          (Perm.trans (ranges (keys scores)) (Perm.symm (ranges' (keys scores))))

    fused_results_same :
        {E : Type 0} (parse_url : String → Result E String) (t : Tally fl) (raws : List String)
        → fused_results fl ranged parse_url t raws ≡ fused_results fl ranged' parse_url t raws
    unfolding fused_results
    fused_results_same parse_url t [] = refl
    fused_results_same parse_url t (raw ∷ raws) =
        rw (ranked_same (sections_at fl t.sections raw), fused_results_same parse_url t raws) refl

    -- The merged results do not depend on the orders in which Go ranges over the maps of scores.
    pub merge_results_deterministic :
        {E : Type 0} (parse_url : String → Result E String)
        (legs : List (fl.Float × List (SearchResult fl.Float))) (max_results : ℤ)
        → merge_results fl ranged parse_url legs max_results
          ≡ merge_results fl ranged' parse_url legs max_results
    unfolding merge_results
    merge_results_deterministic parse_url legs max_results =
        let t = tally_legs fl legs (record { sources = []; sections = [] }) in
        rw (ranked_same t.sources, fused_results_same parse_url t (ranked fl ranged' t.sources))
          refl

  module _ {E : Type 0} (ranged : List String → List String)
      (parse_url : String → Result E String) where
    abbrev pub Ranges : Type 0
    Ranges = (xs : List String) → Perm (ranged xs) xs

    ranked-perm : Ranges → (scores : Keyed fl.Float) → Perm (ranked fl ranged scores) (keys scores)
    unfolding ranked
    ranked-perm ranges scores =
        Perm.trans (sort-perm (by_score fl scores) (ranged (keys scores))) (ranges (keys scores))

    ranked-Sorted :
        (scores : Keyed fl.Float) → Sorted (by_score fl scores) (ranked fl ranged scores)
    unfolding ranked
    ranked-Sorted scores =
        sort-Sorted (by_score fl scores) (by_score-IsOrder scores) (ranged (keys scores))

    -- What each merged result owes to the tally.
    abbrev pub Ranked : Tally fl → SearchResult fl.Float → Type 0
    Ranked t r =
        Perm r.sections (keys (sections_at fl t.sections r.source))
        × Sorted (by_score fl (sections_at fl t.sections r.source)) r.sections
        × (r.score ≡ score_at fl t.sources r.source)
        × (r.section_scores ≡ some (sections_at fl t.sections r.source))

    -- url.Parse returns a URL that prints as the text that it read.
    abbrev pub Rereads : Type 0
    Rereads = (raw url : String) → parse_url raw ≡ ok url → url ≡ raw

    fused_result-Ranked :
        Ranges
        → (t : Tally fl) (raw url : String) (raws : List String)
          (more rs : List (SearchResult fl.Float))
        → url ≡ raw
        → record {
          source = url;
          sections = ranked fl ranged (sections_at fl t.sections raw);
          score = score_at fl t.sources raw;
          section_scores = some (sections_at fl t.sections raw);
        }
            ∷ more
          ≡ rs
        → (map (λ r. r.source) more ≡ raws) × All (Ranked t) more
        → (map (λ r. r.source) rs ≡ raw ∷ raws) × All (Ranked t) rs
    unfolding ranked
    fused_result-Ranked ranges t raw url raws more rs same e h =
        rw (sym e, same)
          (
            ap (raw ∷◌) h.0,
            (
              (
                ranked-perm ranges (sections_at fl t.sections raw),
                ranked-Sorted (sections_at fl t.sections raw),
                refl,
                refl,
              ),
              h.1,
            ),
          )

    fused_results-Ranked :
        Rereads
        → Ranges
        → (t : Tally fl) (raws : List String) (rs : List (SearchResult fl.Float))
        → fused_results fl ranged parse_url t raws ≡ ok rs
        → (map (λ r. r.source) rs ≡ raws) × All (Ranked t) rs
    unfolding fused_results ranked
    fused_results-Ranked rereads ranges t [] rs e = rw (sym (ok-injective e)) (refl, tt)
    fused_results-Ranked rereads ranges t (raw ∷ raws) rs e =
        let (url, p, e') = bind_inv (parse_url raw) _ e in
        let (more, q, e'') = bind_inv (fused_results fl ranged parse_url t raws) _ e' in
        fused_result-Ranked ranges t raw url raws more rs (rereads raw url p) (ok-injective e'')
          (fused_results-Ranked rereads ranges t raws more q)

    map-take :
        (n : ℕ) (rs : List (SearchResult fl.Float))
        → map (λ r. r.source) (take n rs) ≡ take n (map (λ r. r.source) rs)
    map-take zero rs = refl
    map-take (suc n) [] = refl
    map-take (suc n) (r ∷ rs) = ap (r.source ∷◌) (map-take n rs)

    -- The sources that a limit leaves of all those in their order.
    abbrev pub Limited : ℤ → List String → List String → Type 0
    Limited (pos (suc n)) all sources = sources ≡ take (suc n) all
    Limited limit all sources = sources ≡ all

    cut-Ranked :
        (t : Tally fl) (max_results : ℤ) (raws : List String) (rs : List (SearchResult fl.Float))
        → (map (λ r. r.source) rs ≡ raws) × All (Ranked t) rs
        → Limited max_results raws (map (λ r. r.source) (cut max_results rs))
          × All (Ranked t) (cut max_results rs)
    unfolding cut
    cut-Ranked t (pos zero) raws rs h = h
    cut-Ranked t (pos (suc n)) raws rs h =
        (map-take (suc n) rs ∙ ap (take (suc n)) h.0, All-take (Ranked t) (suc n) rs h.1)
    cut-Ranked t (negsuc n) raws rs h = h

    -- Where parsed URLs print as they were read, and a range over a map visits each of its keys once,
    -- the sources of the merged results are, in the order of their fused scores and then of their
    -- names, all those with a fused score, which are those of the legs' results, or the first of
    -- them that a positive limit leaves; each result has its fused score and, in the order of their
    -- scores, all the sections that the legs' results list for its source.
    pub merge_results-Ranked :
        Rereads
        → Ranges
        → (legs : List (fl.Float × List (SearchResult fl.Float))) (max_results : ℤ)
          (rs : List (SearchResult fl.Float))
        → merge_results fl ranged parse_url legs max_results ≡ ok rs
        → let t = tally_legs fl legs (record { sources = []; sections = [] }) in
          Tallied fl legs t
          × ((all : List String) × Perm all (keys t.sources)
              × Sorted (by_score fl t.sources) all
              × Limited max_results all (map (λ r. r.source) rs)
              × All (Ranked t) rs)
    unfolding merge_results ranked
    merge_results-Ranked rereads ranges legs max_results rs e =
        let t = tally_legs fl legs (record { sources = []; sections = [] }) in
        let raws = ranked fl ranged t.sources in
        let (merged, p, e') = bind_inv (fused_results fl ranged parse_url t raws) _ e in
        let (sources, each) =
          cut-Ranked t max_results raws merged
            (fused_results-Ranked rereads ranges t raws merged p) in
        (
          tally_legs-Tallied fl legs,
          (
            raws,
            ranked-perm ranges t.sources,
            ranked-Sorted t.sources,
            subst (λ xs. Limited max_results raws (map (λ r. r.source) xs)) (ok-injective e')
                sources,
            subst (All (Ranked t)) (ok-injective e') each,
          ),
        )
