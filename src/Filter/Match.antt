-- ===== src/Filter/Match.antt =====
-- index/filter.go: the evaluation of a filter.
use amoxtli.Common.{
  Bool, true, false, not, ◌&&◌, ◌||◌, String, Option, none, some, List, [], ◌∷◌, map, if◌then◌else◌,
  Ordering, is_some,
}
use amoxtli.Common.Keyed.{lookup}
use amoxtli.Common.Lists.{exists_in}
use amoxtli.Filter.Value.{
  FilterOp, op_eq, op_ne, op_gt, op_gte, op_lt, op_lte, op_in, op_any, op_exists, op_or, Condition,
  Conditions, bool, str, strings, slice, conditions, condition, no_conditions, add_condition,
  value_list,
}
use amoxtli.Filter.Norm.{Host, Any, Metadata, elements, equal, compare_values}

module _ (h : Host) where
  abbrev pub Cond : Type 0
  Cond = Condition h.Number h.Time h.Other

  -- `type Filter []Condition`
  abbrev pub Filter : Type 0
  Filter = Conditions h.Number h.Time h.Other

  -- toSlice: the candidates of OpIn and OpAny
  unfoldable pub to_slice : Any h → List (Any h)
  to_slice (slice vs) = value_list vs
  to_slice (strings ss) = map str ss
  to_slice v = v ∷ []

  -- `value, present := meta[c.Key]`
  abbrev pub read : Metadata h → String → Option (Any h)
  read none key = none
  read (some m) key = lookup key m

  -- the two loops of OpAny
  unfoldable pub shares_element : List (Any h) → List (Any h) → Bool
  shares_element es [] = false
  shares_element es (candidate ∷ rest) =
      exists_in (λ e. equal h e candidate) es || shares_element es rest

  -- the last switch of `matches`, on the outcome of Compare
  unfoldable pub ordered : FilterOp → Ordering → Bool
  ordered op_gt Ordering.gt = true
  ordered op_gte Ordering.gt = true
  ordered op_gte Ordering.eq = true
  ordered op_lt Ordering.lt = true
  ordered op_lte Ordering.lt = true
  ordered op_lte Ordering.eq = true
  ordered op o = false

  -- an operator on a key that is present
  unfoldable pub matches_value : FilterOp → Any h → Any h → Bool
  unfolding shares_element ordered to_slice
  matches_value op_eq v operand = equal h v operand
  matches_value op_ne v operand = not (equal h v operand)
  matches_value op_in v operand = exists_in (λ candidate. equal h v candidate) (to_slice operand)
  matches_value op_any v operand = elim (elements h v) [
    | some es ↦ shares_element es (to_slice operand)
    | none ↦ false
  ]
  matches_value op_exists v operand = false
  matches_value op_or v operand = false
  matches_value op v operand = elim (compare_values h v operand) [
    | some o ↦ ordered op o
    | none ↦ false
  ]

  -- `want, ok := c.Value.(bool); return ok && want == present`
  unfoldable pub matches_presence : Any h → Bool → Bool
  matches_presence (bool want) present = if want then present else not present
  matches_presence v present = false

  -- a condition that is no disjunction
  unfoldable pub matches_key : String → FilterOp → Any h → Metadata h → Bool
  unfolding matches_value matches_presence
  matches_key key op_exists operand meta = matches_presence operand (is_some (read meta key))
  matches_key key op operand meta = elim (read meta key) [
    | some v ↦ matches_value op v operand
    | none ↦ false
  ]

  unfoldable mutual
    unfolding matches_key

    -- the method `matches` of Condition
    pub matches_condition : Cond → Metadata h → Bool
    matches_condition (condition key op_or (conditions cs)) meta = matches_some cs meta
    matches_condition (condition key op_or operand) meta = false
    matches_condition (condition key op operand) meta = matches_key key op operand meta

    -- its loop over the alternatives
    pub matches_some : Filter → Metadata h → Bool
    matches_some no_conditions meta = false
    matches_some (add_condition c cs) meta = matches_condition c meta || matches_some cs meta

  -- Matches
  unfoldable pub matches : Filter → Metadata h → Bool
  matches no_conditions meta = true
  matches (add_condition c cs) meta = matches_condition c meta && matches cs meta
