-- ===== src/Filter/Build.antt =====
-- index/filter.go: the builders of conditions.
use amoxtli.Common.{true, false, String, List}
use amoxtli.Filter.Value.{
  op_eq, op_ne, op_gt, op_gte, op_lt, op_lte, op_in, op_any, op_exists, op_or, Value, Condition,
  bool, slice, conditions, condition, to_values, to_conditions,
}

module _ {N T O : Type 0} where
  unfoldable pub eq : String → Value N T O → Condition N T O
  eq key x = condition key op_eq x

  unfoldable pub ne : String → Value N T O → Condition N T O
  ne key x = condition key op_ne x

  unfoldable pub gt : String → Value N T O → Condition N T O
  gt key x = condition key op_gt x

  unfoldable pub gte : String → Value N T O → Condition N T O
  gte key x = condition key op_gte x

  unfoldable pub lt : String → Value N T O → Condition N T O
  lt key x = condition key op_lt x

  unfoldable pub lte : String → Value N T O → Condition N T O
  lte key x = condition key op_lte x

  -- In
  unfoldable pub in_any : String → List (Value N T O) → Condition N T O
  in_any key xs = condition key op_in (slice (to_values xs))

  -- Any
  unfoldable pub has_any : String → List (Value N T O) → Condition N T O
  has_any key xs = condition key op_any (slice (to_values xs))

  -- Or
  unfoldable pub either : List (Condition N T O) → Condition N T O
  either cs = condition "" op_or (conditions (to_conditions cs))

  unfoldable pub exists : String → Condition N T O
  exists key = condition key op_exists (bool true)

  unfoldable pub not_exists : String → Condition N T O
  not_exists key = condition key op_exists (bool false)
