-- ===== src/FilterExpr/Parsing.antt =====
-- index/filterexpr/filterexpr.go: ParseFilters, on an expression written from a key, an operator and a
-- value.
use Prim.Native.Char.{code}
use amoxtli.Common.{
  ◌≡◌, refl, ap, ◌∙◌, inl, inr, true, false, not, ◌||◌, ℕ, String, Option, none, some, List, [],
  ◌∷◌, ◌==◌, ◌=?◌, arith, Bool-cases, eq_iff,
}
use amoxtli.Common.Lists.{All}
use amoxtli.Common.Result.{ok}
use amoxtli.Filter.Validate.{codes, key_char, all_key_chars, valid_key, validate_key}
use amoxtli.Filter.Value.{Condition}
use amoxtli.FilterExpr.{
  after_prefix, cut_at_token, before_mark, Comparison, not_equal, at_least, at_most, equal_to,
  greater, less, token, filter_operators, parse_scalar, build, parse_mark, parse_presence,
  parse_comparison, parse_filter, parse_filters,
}
use amoxtli.FilterExpr.Cutting.{
  joined, occurs, occurs-joined, cut_at_token_absent, cut_at_token-joined, before_mark_absent,
}

-- The value has none of the characters `! ? < = >`.
abbrev pub Plain : String → Type 0
Plain s =
    (occurs 33 s ≡ false)
    × (occurs 63 s ≡ false)
    × (occurs 60 s ≡ false)
    × (occurs 61 s ≡ false)
    × (occurs 62 s ≡ false)

-- `<key><operator><value>`
abbrev pub expression : String → Comparison → String → String
expression key op value = joined key (joined (token op) value)

key_char_none : (n c : ℕ) → key_char c ≡ true → key_char n ≡ false → (c =? n) ≡ false
key_char_none n c h k = elim (Bool-cases (c =? n)) [
  | inr b ↦ b
  | inl b ↦ (let same : c ≡ n = ground (arith, b) in cc (ap key_char same, h, k))
]

key_occurs :
    (n : ℕ) (key : String)
    → key_char n ≡ false
    → all_key_chars (codes key) ≡ true
    → occurs n key ≡ false
unfolding all_key_chars
key_occurs n String.[] k h = refl
key_occurs n (String.◌∷◌ c s) k h = elim (Bool-cases (key_char (code c))) [
  | inl b ↦
      (let later : all_key_chars (codes s) ≡ true = rw b at h in
        ground (arith, key_char_none n (code c) b k, key_occurs n s k later))
  | inr b ↦ cc (rw b at h)
]

key-Plain : (key : String) → valid_key key ≡ true → Plain key
unfolding valid_key key_char
key-Plain key h =
    let chars : all_key_chars (codes key) ≡ true = ground (arith, h) in
    (
      key_occurs 33 key refl chars,
      key_occurs 63 key refl chars,
      key_occurs 60 key refl chars,
      key_occurs 61 key refl chars,
      key_occurs 62 key refl chars,
    )

key_filled : (key : String) → valid_key key ≡ true → (key == "") ≡ false
unfolding valid_key
key_filled key h = elim (Bool-cases (key == "")) [
  | inr b ↦ b
  | inl b ↦ (let same : key ≡ "" = ground (arith, b, eq_iff key "") in cc (ap valid_key same, h))
]

occurs-expression :
    (n : ℕ) (key value : String) (op : Comparison)
    → occurs n (expression key op value) ≡ (occurs n key || (occurs n (token op) || occurs n value))
occurs-expression n key value op =
    ground (arith, occurs-joined n key (joined (token op) value), occurs-joined n (token op) value)

no_bang : (key value : String) → valid_key key ≡ true → after_prefix "!" (joined key value) ≡ none
unfolding valid_key after_prefix
no_bang String.[] value h = cc (ap not h)
no_bang (String.◌∷◌ c s) value h =
    let plain = key-Plain (String.◌∷◌ c s) h in
    let other : (33 =? code c) ≡ false = ground (arith, plain.0) in rw other refl

token_unmarked : (op : Comparison) → occurs 63 (token op) ≡ false
token_unmarked not_equal = refl
token_unmarked at_least = refl
token_unmarked at_most = refl
token_unmarked equal_to = refl
token_unmarked greater = refl
token_unmarked less = refl

-- the expressions of a list of keys, operators and values
abbrev pub expressions : List (String × Comparison × String) → List String
expressions [] = []
expressions ((key, op, value) ∷ rest) = expression key op value ∷ expressions rest

abbrev pub Written : String × Comparison × String → Type 0
Written (key, op, value) = (valid_key key ≡ true) × Plain value

module _ {N T O : Type 0} (lower : String → String) (parse_float : String → Option N) where
  skip :
      (op : Comparison) (ops : List Comparison) (expr : String)
      → cut_at_token (token op) expr ≡ none
      → parse_comparison {N = N} {T = T} {O = O} lower parse_float (op ∷ ops) expr
        ≡ parse_comparison lower parse_float ops expr
  unfolding parse_comparison
  skip op ops expr e = rw (e, parse_comparison) refl

  found :
      (op : Comparison) (ops : List Comparison) (expr key value : String)
      → valid_key key ≡ true
      → cut_at_token (token op) expr ≡ some (key, value)
      → parse_comparison {N = N} {T = T} {O = O} lower parse_float (op ∷ ops) expr
        ≡ ok (build lower parse_float op key (parse_scalar lower parse_float value))
  unfolding parse_comparison validate_key
  found op ops expr key value h e =
      rw (e, parse_comparison) (rw (key_filled key h) (rw (h, validate_key) refl))

  -- an operator before the one that is written, with a character that is in no part of the expression
  pass_by :
      (n : ℕ) (key value : String) (op op' : Comparison) (ops : List Comparison)
      → occurs n key ≡ false
      → occurs n value ≡ false
      → occurs n (token op) ≡ false
      → occurs n (token op') ≡ true
      → parse_comparison {N = N} {T = T} {O = O} lower parse_float
          (op' ∷ ops)
          (expression key op value)
        ≡ parse_comparison lower parse_float ops (expression key op value)
  pass_by n key value op op' ops k v w e = skip op' ops (expression key op value) (
      cut_at_token_absent n (token op') (expression key op value) e
        (occurs-expression n key value op ∙ ground (arith, k, v, w)))

  parse_comparison-expression :
      (key value : String) (op : Comparison)
      → valid_key key ≡ true
      → Plain key
      → Plain value
      → parse_comparison {N = N} {T = T} {O = O} lower parse_float filter_operators
          (expression key op value)
        ≡ ok (build lower parse_float op key (parse_scalar lower parse_float value))
  parse_comparison-expression key value not_equal h (b, q, l, e, g) p =
      found not_equal _ (expression key not_equal value) key value h
        (cut_at_token-joined key value "!" "=" b)
  parse_comparison-expression key value at_least h (b, q, l, e, g) (b', q', l', e', g') =
      pass_by 33 key value at_least not_equal _ b b' refl refl
      ∙ found at_least _ (expression key at_least value) key value h
          (cut_at_token-joined key value ">" "=" g)
  parse_comparison-expression key value at_most h (b, q, l, e, g) (b', q', l', e', g') =
      pass_by 33 key value at_most not_equal _ b b' refl refl
      ∙ pass_by 62 key value at_most at_least _ g g' refl refl
      ∙ found at_most _ (expression key at_most value) key value h
          (cut_at_token-joined key value "<" "=" l)
  parse_comparison-expression key value equal_to h (b, q, l, e, g) (b', q', l', e', g') =
      pass_by 33 key value equal_to not_equal _ b b' refl refl
      ∙ pass_by 62 key value equal_to at_least _ g g' refl refl
      ∙ pass_by 60 key value equal_to at_most _ l l' refl refl
      ∙ found equal_to _ (expression key equal_to value) key value h
          (cut_at_token-joined key value "=" "" e)
  parse_comparison-expression key value greater h (b, q, l, e, g) (b', q', l', e', g') =
      pass_by 33 key value greater not_equal _ b b' refl refl
      ∙ pass_by 61 key value greater at_least _ e e' refl refl
      ∙ pass_by 61 key value greater at_most _ e e' refl refl
      ∙ pass_by 61 key value greater equal_to _ e e' refl refl
      ∙ found greater _ (expression key greater value) key value h
          (cut_at_token-joined key value ">" "" g)
  parse_comparison-expression key value less h (b, q, l, e, g) (b', q', l', e', g') =
      pass_by 33 key value less not_equal _ b b' refl refl
      ∙ pass_by 61 key value less at_least _ e e' refl refl
      ∙ pass_by 61 key value less at_most _ e e' refl refl
      ∙ pass_by 61 key value less equal_to _ e e' refl refl
      ∙ pass_by 62 key value less greater _ g g' refl refl
      ∙ found less _ (expression key less value) key value h
          (cut_at_token-joined key value "<" "" l)

  parse_presence-expression :
      (key value : String) (op : Comparison)
      → valid_key key ≡ true
      → Plain value
      → parse_presence {N = N} {T = T} {O = O} lower parse_float (expression key op value) ≡ ok none
  unfolding parse_presence
  parse_presence-expression key value op h p =
      let unmarked : before_mark (expression key op value) ≡ none =
        before_mark_absent (expression key op value) (
          occurs-expression 63 key value op
          ∙ ground (arith, (key-Plain key h).1, p.1, token_unmarked op)) in
      rw (no_bang key (joined (token op) value) h, parse_presence)
        (ap (parse_mark lower parse_float (expression key op value)) unmarked)

  parse_filter-expression :
      (key value : String) (op : Comparison)
      → valid_key key ≡ true
      → Plain value
      → parse_filter {N = N} {T = T} {O = O} lower parse_float (expression key op value)
        ≡ ok (build lower parse_float op key (parse_scalar lower parse_float value))
  unfolding parse_filter
  parse_filter-expression key value op h p =
      rw (parse_presence-expression key value op h p, parse_filter)
        (parse_comparison-expression key value op h (key-Plain key h) p)

  abbrev pub conditions_of : List (String × Comparison × String) → List (Condition N T O)
  conditions_of [] = []
  conditions_of ((key, op, value) ∷ rest) =
      build lower parse_float op key (parse_scalar lower parse_float value) ∷ conditions_of rest

  -- Expressions that are written from valid keys, operators and values without the characters
  -- `! ? < = >` are parsed into the conditions of these keys, operators and values, in their order.
  pub parse_filters-expressions :
      (entries : List (String × Comparison × String))
      → All Written entries
      → parse_filters {N = N} {T = T} {O = O} lower parse_float (expressions entries)
        ≡ ok (conditions_of entries)
  unfolding parse_filters
  parse_filters-expressions [] h = refl
  parse_filters-expressions ((key, op, value) ∷ rest) h =
      rw (parse_filter-expression key value op h.0.0 h.0.1, parse_filters)
        (rw (parse_filters-expressions rest h.1) refl)
