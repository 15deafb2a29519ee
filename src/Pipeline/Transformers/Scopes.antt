-- ===== src/Pipeline/Transformers/Scopes.antt =====
-- index/pipeline/options.go: the markers of transformers, and the query of a leg.
use amoxtli.Common.{
  ◌≡◌, refl, ap, ◌∙◌, inl, inr, Bool-cases, Bool, true, false, not, String, List, [], ◌∷◌,
  if◌then◌else◌, arith,
}
use amoxtli.Common.Result.{◌>>=◌, bind-cong}
use amoxtli.Common.Lists.{keep}
use amoxtli.Pipeline.Transformers.{
  SearchOptions, QueryTransformer, TransformerScope, declares, same_scope, scope_of,
  transform_query, leg_query,
}

module _ {E : Type 0} where
  -- Whether a transformer is not reserved to the indexes of the other kind.
  abbrev pub meant_for : Bool → QueryTransformer E → Bool
  meant_for true t = not (declares t.lexical_only)
  meant_for false t = not (declares t.semantic_only)

  -- The transformers that a scope leaves out change nothing.
  transform_query-keep :
      (p : QueryTransformer E → Bool) (scope : TransformerScope) (opts : SearchOptions)
      → ((t : QueryTransformer E) → p t ≡ false → same_scope (scope_of t) scope ≡ false)
      → (ts : List (QueryTransformer E)) (query : String)
      → transform_query scope opts ts query ≡ transform_query scope opts (keep p ts) query
  unfolding transform_query
  transform_query-keep p scope opts out [] query = refl
  transform_query-keep p scope opts out (t ∷ ts) query = elim (Bool-cases (p t)) [
    | inr h ↦ rw (h, out t h) (transform_query-keep p scope opts out ts query)
    | inl h ↦ rw h (elim (Bool-cases (same_scope (scope_of t) scope)) [
      | inr s ↦ rw s (transform_query-keep p scope opts out ts query)
      | inl s ↦
          rw s (bind-cong (t.transform_query query opts) (transform_query-keep p scope opts out ts))
    ])
  ]

  universal_meant :
      (b : Bool) (t : QueryTransformer E)
      → meant_for b t ≡ false
      → same_scope (scope_of t) TransformerScope.universal ≡ false
  unfolding scope_of
  universal_meant true t h = ground (arith, h)
  universal_meant false t h = ground (arith, h)

  own_meant :
      (b : Bool) (t : QueryTransformer E)
      → meant_for b t ≡ false
      → same_scope (scope_of t) (if b then TransformerScope.semantic else TransformerScope.lexical)
        ≡ false
  unfolding scope_of
  own_meant true t h = ground (arith, h)
  own_meant false t h = ground (arith, h)

  -- What a leg is asked is what it would be asked without the transformers that declare themselves
  -- reserved to the other kind of index.
  pub leg_query_isolated :
      (b : Bool) (opts : SearchOptions) (ts : List (QueryTransformer E)) (query : String)
      → (transform_query TransformerScope.universal opts ts query >>= leg_query ts opts b) ≡ (
          transform_query TransformerScope.universal opts (keep (meant_for b) ts) query
          >>= leg_query (keep (meant_for b) ts) opts b)
  unfolding leg_query
  leg_query_isolated b opts ts query =
      ap (λ r. r >>= leg_query ts opts b)
        (transform_query-keep (meant_for b) TransformerScope.universal opts (universal_meant b) ts
          query)
      ∙ bind-cong _ (transform_query-keep (meant_for b) _ opts (own_meant b) ts)
