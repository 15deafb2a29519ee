-- ===== src/Pipeline/Fusion/Tallied.antt =====
-- index/pipeline/index.go: the sources and the sections that mergeResults counts.
use amoxtli.Common.{
  ◌≡◌, refl, ◌∙◌, inl, inr, Bool, false, ◌&&◌, ◌||◌, ℕ, suc, String, List, [], ◌∷◌, ◌==◌, arith,
  eq_iff, Bool-cases, if◌then◌else◌,
}
use amoxtli.Common.Keyed.{Keyed, insert, lookup-insert, contains}
use amoxtli.Common.Lists.{exists_in}
use amoxtli.Floats.{Floats}
use amoxtli.Pipeline.Fusion.{
  Tally, keys, tally_sections, sections_at, tally_result, tally_results, tally_legs, add_score,
  contribution, score_at,
}
use amoxtli.Search.{SectionId, SearchResult}

contains-insert :
    {V : Type 0} (k : String) (v : V) (m : Keyed V) (x : String)
    → contains (keys (insert k v m)) x ≡ (k == x || contains (keys m) x)
contains-insert k v [] x = refl
contains-insert k v ((i, old) ∷ m) x =
    ground (arith, contains-insert k v m x, eq_iff i k, eq_iff k x, eq_iff i x)

module _ (fl : Floats) where
  contains-tally_sections :
      (weight : fl.Float) (rank : ℕ) (ss : List SectionId) (scores : Keyed fl.Float) (x : SectionId)
      → contains (keys (tally_sections fl weight rank ss scores)) x
        ≡ (contains ss x || contains (keys scores) x)
  unfolding tally_sections add_score
  contains-tally_sections weight rank [] scores x = refl
  contains-tally_sections weight rank (s ∷ ss) scores x =
      contains-tally_sections weight (suc rank) ss
        (add_score fl scores s (contribution fl weight rank)) x
      ∙ ground (
        arith,
        contains-insert s (fl.add (score_at fl scores s) (contribution fl weight rank)) scores x,
      )

  sections_at-insert :
      (m : Keyed (Keyed fl.Float)) (source other : String) (scores : Keyed fl.Float)
      → sections_at fl (insert source scores m) other
        ≡ (if source == other then scores else sections_at fl m other)
  unfolding sections_at
  sections_at-insert m source other scores = elim (Bool-cases (source == other)) [
    | inl e ↦ rw (sections_at, lookup-insert source other scores m, e) refl
    | inr e ↦ rw (sections_at, lookup-insert source other scores m, e) refl
  ]

  -- whether a result is about a source, and whether one lists a section of it
  abbrev pub about : String → SearchResult fl.Float → Bool
  about source r = r.source == source

  abbrev pub lists : String → SectionId → SearchResult fl.Float → Bool
  lists source x r = r.source == source && contains r.sections x

  counted :
      (weight : fl.Float) (rank : ℕ) (r : SearchResult fl.Float) (t : Tally fl) (source : String)
      → contains (keys (tally_result fl weight rank r t).sources) source
        ≡ (about source r || contains (keys t.sources) source)
  unfolding tally_result add_score
  counted weight rank r t source = contains-insert r.source _ t.sources source

  counted_section :
      (weight : fl.Float) (rank : ℕ) (r : SearchResult fl.Float) (t : Tally fl) (source : String)
      (x : SectionId)
      → contains (keys (sections_at fl (tally_result fl weight rank r t).sections source)) x
        ≡ (lists source x r || contains (keys (sections_at fl t.sections source)) x)
  unfolding tally_result
  counted_section weight rank r t source x =
      let scores = tally_sections fl weight 0 r.sections (sections_at fl t.sections r.source) in
      let at = sections_at-insert t.sections r.source source scores in
      let inside =
        contains-tally_sections weight 0 r.sections (sections_at fl t.sections r.source) x in
      elim (Bool-cases (r.source == source)) [
        | inl e ↦
            let same : r.source ≡ source = ground (arith, e, eq_iff r.source source) in
            rw (at, e) (rw (← same) inside)
        | inr e ↦ rw (at, e) refl
      ]

  counted_results :
      (weight : fl.Float) (rank : ℕ) (rs : List (SearchResult fl.Float)) (t : Tally fl)
      (source : String)
      → contains (keys (tally_results fl weight rank rs t).sources) source
        ≡ (exists_in (about source) rs || contains (keys t.sources) source)
  unfolding tally_results
  counted_results weight rank [] t source = refl
  counted_results weight rank (r ∷ rs) t source =
      counted_results weight (suc rank) rs (tally_result fl weight rank r t) source
      ∙ ground (arith, counted weight rank r t source)

  counted_result_sections :
      (weight : fl.Float) (rank : ℕ) (rs : List (SearchResult fl.Float)) (t : Tally fl)
      (source : String) (x : SectionId)
      → contains (keys (sections_at fl (tally_results fl weight rank rs t).sections source)) x
        ≡ (exists_in (lists source x) rs || contains (keys (sections_at fl t.sections source)) x)
  unfolding tally_results
  counted_result_sections weight rank [] t source x = refl
  counted_result_sections weight rank (r ∷ rs) t source x =
      counted_result_sections weight (suc rank) rs (tally_result fl weight rank r t) source x
      ∙ ground (arith, counted_section weight rank r t source x)

  -- The sources of a tally are those of the results of the legs, with those before.
  contains-tally_legs :
      (legs : List (fl.Float × List (SearchResult fl.Float))) (t : Tally fl) (source : String)
      → contains (keys (tally_legs fl legs t).sources) source ≡ (
          exists_in (λ leg. exists_in (about source) leg.1) legs
          || contains (keys t.sources) source)
  unfolding tally_legs
  contains-tally_legs [] t source = refl
  contains-tally_legs ((weight, rs) ∷ legs) t source =
      contains-tally_legs legs (tally_results fl weight 0 rs t) source
      ∙ ground (arith, counted_results weight 0 rs t source)

  -- The sections that a tally has of a source are those that the results of the legs list.
  contains-sections_at :
      (legs : List (fl.Float × List (SearchResult fl.Float))) (t : Tally fl) (source : String)
      (x : SectionId)
      → contains (keys (sections_at fl (tally_legs fl legs t).sections source)) x ≡ (
          exists_in (λ leg. exists_in (lists source x) leg.1) legs
          || contains (keys (sections_at fl t.sections source)) x)
  unfolding tally_legs
  contains-sections_at [] t source x = refl
  contains-sections_at ((weight, rs) ∷ legs) t source x =
      contains-sections_at legs (tally_results fl weight 0 rs t) source x
      ∙ ground (arith, counted_result_sections weight 0 rs t source x)

  -- A source has a fused score exactly if a result of a leg is about it, and a section has one there
  -- exactly if such a result lists it.
  abbrev pub Tallied : List (fl.Float × List (SearchResult fl.Float)) → Tally fl → Type 0
  Tallied legs t =
      ((source : String)
        → contains (keys t.sources) source ≡ exists_in (λ leg. exists_in (about source) leg.1) legs)
      × ((source : String) (x : SectionId)
          → contains (keys (sections_at fl t.sections source)) x
            ≡ exists_in (λ leg. exists_in (lists source x) leg.1) legs)

  or_false : (b : Bool) → (b || false) ≡ b
  or_false b = ground arith

  pub tally_legs-Tallied :
      (legs : List (fl.Float × List (SearchResult fl.Float)))
      → Tallied legs (tally_legs fl legs (record { sources = []; sections = [] }))
  unfolding sections_at
  tally_legs-Tallied legs = (
    (λ source.
        contains-tally_legs legs (record { sources = []; sections = [] }) source ∙ or_false _),
    (λ source x.
        contains-sections_at legs (record { sources = []; sections = [] }) source x ∙ or_false _),
  )
