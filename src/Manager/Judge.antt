-- ===== src/Manager/Judge.antt =====
-- ingest/manager.go: metadataFilter, which judges the document of each result once for one search.
pub mod Verdicts
use amoxtli.Common.{
  ◌≡◌, refl, sym, ap, ◌∙◌, inl, inr, Bool, true, false, String, Option, none, some, List, [], ◌∷◌,
  map, if◌then◌else◌, ◌==◌, is_some, arith, Bool-cases, Option-cases, eq_iff,
}
use amoxtli.Common.Keyed.{Keyed, lookup, insert, lookup-insert}
use amoxtli.Common.Lists.{keep}
use amoxtli.Common.Result.{Result, ok, err, ◌>>=◌, bind_inv, ok-injective}
use amoxtli.Filter.Match.{Filter, matches}
use amoxtli.Filter.Norm.{Host, Metadata}
use amoxtli.Manager.{Manager, source_key}
use amoxtli.Search.{SearchResult, is_empty}

-- `f.verdicts[key]`, false where it is missing
abbrev pub verdict : Keyed Bool → String → Bool
verdict verdicts key = elim (lookup key verdicts) [ none ↦ false | some v ↦ v ]

-- the first loop of apply, on the keys of the results: the keys not judged yet, now marked
unfoldable pub mark : List String → Keyed Bool → List String × Keyed Bool
mark [] verdicts = ([], verdicts)
mark (key ∷ keys) verdicts = elim (lookup key verdicts) [
  | some v ↦ mark keys verdicts
  | none ↦
      let (unjudged, verdicts') = mark keys (insert key false verdicts) in
      (key ∷ unjudged, verdicts')
]

module _ {h : Host} {E : Type 0} (m : Manager h E) (filter : Filter h) where
  -- the second loop
  unfoldable pub judge : (String → Metadata h) → List String → Keyed Bool → Keyed Bool
  judge metadata [] verdicts = verdicts
  judge metadata (key ∷ keys) verdicts =
      judge metadata keys (insert key (matches h filter (metadata key)) verdicts)

  -- the keys that have no verdict are asked for, where there are any
  unfoldable pub ask :
      (List String → Result E (String → Metadata h))
      → List String
      → Keyed Bool
      → Result E (Keyed Bool)
  unfolding judge
  ask provider [] marked = ok marked
  ask provider (key ∷ keys) marked =
      provider (key ∷ keys) >>= λ metadata. ok (judge metadata (key ∷ keys) marked)

  abbrev pub keys_of : List (SearchResult h.floats.Float) → List String
  keys_of rs = map (λ r. source_key m r.source) rs

  unfoldable pub apply_filter :
      (List String → Result E (String → Metadata h))
      → List (SearchResult h.floats.Float)
      → Keyed Bool
      → Result E (List (SearchResult h.floats.Float) × Keyed Bool)
  unfolding mark ask source_key
  apply_filter provider results verdicts =
      let (unjudged, marked) = mark (keys_of results) verdicts in
      ask provider unjudged marked >>= λ verdicts'.
      ok (keep (λ r. verdict verdicts' (source_key m r.source)) results, verdicts')
