-- ===== src/Pipeline/Transformers.antt =====
-- index/pipeline/options.go and transformQuery of index.go: the transformers of a query, each with
-- the scope that its markers give it.
pub mod Scopes
use amoxtli.Common.{
  Bool, true, false, not, ◌&&◌, String, Option, none, some, List, [], ◌∷◌, if◌then◌else◌,
}
use amoxtli.Common.Int.{ℤ}
use amoxtli.Common.Result.{Result, ok, err, ◌>>=◌}

pub data TransformerScope : Type 0 where
  universal : TransformerScope
  semantic : TransformerScope
  lexical : TransformerScope
  nowhere : TransformerScope

abbrev pub same_scope : TransformerScope → TransformerScope → Bool
same_scope TransformerScope.universal TransformerScope.universal = true
same_scope TransformerScope.semantic TransformerScope.semantic = true
same_scope TransformerScope.lexical TransformerScope.lexical = true
same_scope TransformerScope.nowhere TransformerScope.nowhere = true
same_scope _ _ = false

-- index.SearchOptions; a nil slice of collections is `none`
pub record SearchOptions : Type 0 where
  pub max_results : ℤ
  pub collections : Option (List String)

-- A transformer of queries; each marker is its answer, where it implements that interface.
pub record QueryTransformer (E : Type 0) : Type 0 where
  pub semantic_only : Option Bool
  pub lexical_only : Option Bool
  pub transform_query : String → SearchOptions → Result E String

-- `s, ok := t.(…)` and then `ok && s.…()`
abbrev pub declares : Option Bool → Bool
declares none = false
declares (some answer) = answer

unfoldable pub scope_of : {E : Type 0} → QueryTransformer E → TransformerScope
scope_of t =
    if declares t.semantic_only && declares t.lexical_only
    then TransformerScope.nowhere
    else (if declares t.semantic_only
        then TransformerScope.semantic
        else (if declares t.lexical_only
            then TransformerScope.lexical
            else TransformerScope.universal))

unfoldable pub transform_query :
    {E : Type 0}
    → TransformerScope
    → SearchOptions
    → List (QueryTransformer E)
    → String
    → Result E String
unfolding scope_of
transform_query scope opts [] query = ok query
transform_query scope opts (t ∷ ts) query =
    if not (same_scope (scope_of t) scope)
    then transform_query scope opts ts query
    else (t.transform_query query opts >>= λ transformed. transform_query scope opts ts transformed)

-- `variant`, computed from the query that all legs share
unfoldable pub leg_query :
    {E : Type 0} → List (QueryTransformer E) → SearchOptions → Bool → String → Result E String
unfolding transform_query
leg_query ts opts is_semantic base =
    transform_query (if is_semantic then TransformerScope.semantic else TransformerScope.lexical)
      opts ts base
