-- ===== src/Filter/Value.antt =====
-- The values of document metadata and the conditions of a filter: Go's `any`, as far as
-- internal/filternorm and index/filter.go tell its contents apart, and Condition of index/filter.go.
-- A value of another dynamic type (a map, a typed slice, a struct) is of the type `O`.
use amoxtli.Common.{Bool, String, List, [], ◌∷◌}

-- FilterOp
pub data FilterOp : Type 0 where
  op_eq op_ne op_gt op_gte op_lt op_lte op_in op_any op_exists op_or : FilterOp

-- `N` holds the values of Go's numeric types, `T` those of time.Time.
mutual
  pub data Value (N T O : Type 0) : Type 0 where
    null : Value N T O
    bool : Bool → Value N T O
    num : N → Value N T O
    str : String → Value N T O
    time : T → Value N T O
    bytes : String → Value N T O
    strings : List String → Value N T O
    slice : Values N T O → Value N T O
    conditions : Conditions N T O → Value N T O
    single : Condition N T O → Value N T O
    other : O → Value N T O

  pub data Values (N T O : Type 0) : Type 0 where
    no_values : Values N T O
    add_value : Value N T O → Values N T O → Values N T O

  pub data Condition (N T O : Type 0) : Type 0 where
    condition : String → FilterOp → Value N T O → Condition N T O

  pub data Conditions (N T O : Type 0) : Type 0 where
    no_conditions : Conditions N T O
    add_condition : Condition N T O → Conditions N T O → Conditions N T O

module _ {N T O : Type 0} where
  unfoldable pub value_list : Values N T O → List (Value N T O)
  value_list no_values = []
  value_list (add_value v vs) = v ∷ value_list vs

  unfoldable pub to_values : List (Value N T O) → Values N T O
  to_values [] = no_values
  to_values (v ∷ vs) = add_value v (to_values vs)

  unfoldable pub condition_list : Conditions N T O → List (Condition N T O)
  condition_list no_conditions = []
  condition_list (add_condition c cs) = c ∷ condition_list cs

  unfoldable pub to_conditions : List (Condition N T O) → Conditions N T O
  to_conditions [] = no_conditions
  to_conditions (c ∷ cs) = add_condition c (to_conditions cs)
