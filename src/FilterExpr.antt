-- ===== src/FilterExpr.antt =====
-- index/filterexpr/filterexpr.go: the filters and the metadata that are given as texts. The functions
-- strings.ToLower and strconv.ParseFloat are parameters.
pub mod Cutting
pub mod Parsing
use Prim.Native.Char.{Char, code}
use amoxtli.Common.{
  Bool, true, false, not, ◌&&◌, String, Option, none, some, List, [], ◌∷◌, if◌then◌else◌, ◌==◌,
  ◌=?◌, is_some,
}
use amoxtli.Common.Keyed.{Keyed, insert}
use amoxtli.Common.Result.{Result, ok, err, ◌>>=◌}
use amoxtli.Filter.Build.{eq, ne, gt, gte, lt, lte, exists, not_exists}
use amoxtli.Filter.Validate.{FilterError, validate_key}
use amoxtli.Filter.Value.{Value, Condition, bool, num, str}

-- the rest of a text after a prefix: strings.HasPrefix and strings.TrimPrefix
unfoldable pub after_prefix : String → String → Option String
after_prefix String.[] s = some s
after_prefix (String.◌∷◌ t ts) String.[] = none
after_prefix (String.◌∷◌ t ts) (String.◌∷◌ c s) =
    let rest = after_prefix ts s in if code t =? code c then rest else none

abbrev pub add_front : Char → Option (String × String) → Option (String × String)
add_front c none = none
add_front c (some (before, after)) = some (String.◌∷◌ c before, after)

-- strings.Cut: what stands before and after the first place of a separator
unfoldable pub cut_at_token : String → String → Option (String × String)
unfolding after_prefix
cut_at_token token String.[] = elim (after_prefix token "") [
  | none ↦ none
  | some rest ↦ some ("", rest)
]
cut_at_token token (String.◌∷◌ c s) = elim (after_prefix token (String.◌∷◌ c s)) [
  | none ↦ add_front c (cut_at_token token s)
  | some rest ↦ some ("", rest)
]

abbrev pub add_char : Char → Option String → Option String
add_char c none = none
add_char c (some s) = some (String.◌∷◌ c s)

-- the text before a last `?`: strings.HasSuffix and strings.TrimSuffix
unfoldable pub before_mark : String → Option String
before_mark String.[] = none
before_mark (String.◌∷◌ c String.[]) = if code c =? b'?' then some "" else none
before_mark (String.◌∷◌ c (String.◌∷◌ d s)) = add_char c (before_mark (String.◌∷◌ d s))

pub data ExprError : Type 0 where
  invalid_expression : String → ExprError
  invalid_expression_key : FilterError → String → ExprError

-- the operators, in the order of filterOperators
pub data Comparison : Type 0 where
  not_equal at_least at_most equal_to greater less : Comparison

abbrev pub token : Comparison → String
token not_equal = "!="
token at_least = ">="
token at_most = "<="
token equal_to = "="
token greater = ">"
token less = "<"

abbrev pub filter_operators : List Comparison
filter_operators = not_equal ∷ at_least ∷ at_most ∷ equal_to ∷ greater ∷ less ∷ []

-- `index.ValidateKey` before a condition is built
abbrev pub with_key : {A : Type 0} → String → Option FilterError → A → Result ExprError A
with_key expr none condition = ok condition
with_key expr (some problem) condition = err (invalid_expression_key problem expr)

module _ {N T O : Type 0} (lower : String → String) (parse_float : String → Option N) where
  -- ParseScalar
  unfoldable pub parse_scalar : String → Value N T O
  parse_scalar raw =
      if lower raw == "true"
      then bool true
      else (if lower raw == "false"
          then bool false
          else elim (parse_float raw) [ none ↦ str raw | some f ↦ num f ])

  -- the loop of ParseMetadata
  unfoldable pub parse_pairs :
      List String → Keyed (Value N T O) → Result ExprError (Keyed (Value N T O))
  unfolding cut_at_token parse_scalar
  parse_pairs [] metadata = ok metadata
  parse_pairs (pair ∷ pairs) metadata = elim (cut_at_token "=" pair) [
    | none ↦ err (invalid_expression pair)
    | some (key, value) ↦
        if key == ""
        then err (invalid_expression pair)
        else parse_pairs pairs (insert key (parse_scalar value) metadata)
  ]

  -- ParseMetadata: no map for no pairs
  unfoldable pub parse_metadata : List String → Result ExprError (Option (Keyed (Value N T O)))
  unfolding parse_pairs
  parse_metadata [] = ok none
  parse_metadata (pair ∷ pairs) = parse_pairs (pair ∷ pairs) [] >>= λ m. ok (some m)

  -- the field `build` of an operator
  abbrev pub build : Comparison → String → Value N T O → Condition N T O
  build not_equal key x = ne key x
  build at_least key x = gte key x
  build at_most key x = lte key x
  build equal_to key x = eq key x
  build greater key x = gt key x
  build less key x = lt key x

  -- parsePresence behind its switch on the prefix
  abbrev pub parse_mark : String → Option String → Result ExprError (Option (Condition N T O))
  parse_mark expr none = ok none
  parse_mark expr (some key) = with_key expr (validate_key key) (some (exists key))

  unfoldable pub parse_presence : String → Result ExprError (Option (Condition N T O))
  unfolding after_prefix cut_at_token before_mark
  parse_presence expr = elim (after_prefix "!" expr) [
    | none ↦ parse_mark expr (before_mark expr)
    | some key ↦
        if is_some (cut_at_token "=" expr)
        then parse_mark expr (before_mark expr)
        else with_key expr (validate_key key) (some (not_exists key))
  ]

  -- the loop over the operators
  unfoldable pub parse_comparison : List Comparison → String → Result ExprError (Condition N T O)
  unfolding cut_at_token parse_scalar
  parse_comparison [] expr = err (invalid_expression expr)
  parse_comparison (op ∷ ops) expr =
      let rest = parse_comparison ops expr in
      elim (cut_at_token (token op) expr) [
        | none ↦ rest
        | some (key, value) ↦
            if key == ""
            then rest
            else with_key expr (validate_key key) (build op key (parse_scalar value))
      ]

  -- one pass of the loop of ParseFilters
  unfoldable pub parse_filter : String → Result ExprError (Condition N T O)
  unfolding parse_presence parse_comparison
  parse_filter expr = parse_presence expr >>= λ presence. elim presence [
    | none ↦ parse_comparison filter_operators expr
    | some c ↦ ok c
  ]

  -- ParseFilters
  unfoldable pub parse_filters : List String → Result ExprError (List (Condition N T O))
  unfolding parse_filter
  parse_filters [] = ok []
  parse_filters (expr ∷ exprs) =
      parse_filter expr >>= λ c. parse_filters exprs >>= λ cs. ok (c ∷ cs)
