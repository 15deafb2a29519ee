-- ===== src/SqliteFilter.antt =====
-- index/sqlitevec/filter.go: the translation of a filter into a condition of SQL with its bind
-- arguments. A clause is kept as the tree that the source prints at once; Text prints it and
-- lists its arguments in the order of their placeholders.
pub mod Text
pub mod Engine
pub mod Tests
pub mod Known
pub mod Meaning
use amoxtli.Common.{
  Bool, true, false, String, Option, none, some, List, [], ◌∷◌, ◌++◌, if◌then◌else◌, map,
}
use amoxtli.Common.Result.{Result, ok, err}
use amoxtli.Filter.Value.{
  FilterOp, op_eq, op_ne, op_gt, op_gte, op_lt, op_lte, op_in, op_any, op_exists, op_or, bool, str,
  conditions, condition, no_conditions, add_condition,
}
use amoxtli.Filter.Norm.{Host, Any, value, float}
use amoxtli.Filter.Match.{Cond, Filter, to_slice}
use amoxtli.Filter.Validate.{FilterError, validate}

-- the tests of an element of json_each, of elementEquals
pub data ElementClause (F : Type 0) : Type 0 where
  element_false : ElementClause F
  element_type : (name : String) → ElementClause F
  element_text : (operand : String) → ElementClause F
  element_number : (operand : F) → ElementClause F

-- A clause with its arguments. An operator is one of Eq, Gt, Gte, Lt and Lte.
mutual
  pub data Clause (F : Type 0) : Type 0 where
    always_false : Clause F
    present : (key : String) → Clause F
    missing : (key : String) → Clause F
    has_type : (key name : String) → Clause F
    text_is : (key : String) (op : FilterOp) (operand : String) → Clause F
    number_is : (key : String) (op : FilterOp) (operand : F) → Clause F
    differs : (key : String) → Clause F → Clause F
    one_of : Clauses F → Clause F
    alternatives : Clauses F → Clause F
    array_has : (key : String) → List (ElementClause F) → Clause F

  pub data Clauses (F : Type 0) : Type 0 where
    no_clauses : Clauses F
    add_clause : Clause F → Clauses F → Clauses F

module _ (h : Host) where
  abbrev pub SqlClause : Type 0
  SqlClause = Clause h.floats.Float

  abbrev pub SqlClauses : Type 0
  SqlClauses = Clauses h.floats.Float

  -- the last cases of equals, elementEquals and ordered
  abbrev pub number_clause : {C : Type 0} → C → (h.floats.Float → C) → Option h.floats.Float → C
  number_clause otherwise compared none = otherwise
  number_clause otherwise compared (some x) = compared x

  abbrev pub equals_normal : String → Any h → SqlClause
  equals_normal key (bool b) = Clause.has_type key (if b then "true" else "false")
  equals_normal key (str s) = Clause.text_is key op_eq s
  equals_normal key v =
      number_clause Clause.always_false (λ x. Clause.number_is key op_eq x) (float h v)

  -- equals
  unfoldable pub equals : String → Any h → SqlClause
  equals key operand = equals_normal key (value h operand)

  abbrev pub element_normal : Any h → ElementClause h.floats.Float
  element_normal (bool b) = ElementClause.element_type (if b then "true" else "false")
  element_normal (str s) = ElementClause.element_text s
  element_normal v =
      number_clause ElementClause.element_false (λ x. ElementClause.element_number x) (float h v)

  -- elementEquals
  unfoldable pub element_equals : Any h → ElementClause h.floats.Float
  element_equals operand = element_normal (value h operand)

  abbrev pub ordered_normal : String → Any h → FilterOp → SqlClause
  ordered_normal key (bool b) op = Clause.always_false
  ordered_normal key (str s) op = Clause.text_is key op s
  ordered_normal key v op =
      number_clause Clause.always_false (λ x. Clause.number_is key op x) (float h v)

  -- ordered
  unfoldable pub ordered_clause : String → Any h → FilterOp → SqlClause
  ordered_clause key operand op = ordered_normal key (value h operand) op

  -- the loop of OpIn over its elements
  unfoldable pub equals_each : String → List (Any h) → SqlClauses
  equals_each key [] = Clauses.no_clauses
  equals_each key (v ∷ vs) = Clauses.add_clause (equals key v) (equals_each key vs)

  abbrev pub in_clause : String → List (Any h) → SqlClause
  in_clause key [] = Clause.always_false
  in_clause key (v ∷ vs) = Clause.one_of (Clauses.add_clause (equals key v) (equals_each key vs))

  abbrev pub any_clause : String → List (Any h) → SqlClause
  any_clause key [] = Clause.always_false
  any_clause key (v ∷ vs) = Clause.array_has key (element_equals v ∷ map element_equals vs)

  abbrev pub exists_clause : String → Any h → SqlClause
  exists_clause key (bool want) = if want then Clause.present key else Clause.missing key
  exists_clause key operand = Clause.always_false

  -- the switch of buildCondition
  unfoldable pub build_key : String → FilterOp → Any h → SqlClause
  unfolding equals ordered_clause equals_each element_equals
  build_key key op_exists operand = exists_clause key operand
  build_key key op_eq operand = equals key operand
  build_key key op_ne operand = Clause.differs key (equals key operand)
  build_key key op_in operand = in_clause key (to_slice h operand)
  build_key key op_any operand = any_clause key (to_slice h operand)
  build_key key op_or operand = Clause.always_false
  build_key key op operand = ordered_clause key operand op

  unfoldable mutual
    unfolding build_key

    -- buildCondition
    pub build_condition : Cond h → SqlClause
    build_condition (condition key op_or (conditions no_conditions)) = Clause.always_false
    build_condition (condition key op_or (conditions (add_condition c cs))) =
        Clause.alternatives (Clauses.add_clause (build_condition c) (build_each cs))
    build_condition (condition key op_or operand) = Clause.always_false
    build_condition (condition key op operand) = build_key key op operand

    -- the loops over conditions, of OpOr and of buildFilterSQL
    pub build_each : Filter h → SqlClauses
    build_each no_conditions = Clauses.no_clauses
    build_each (add_condition c cs) = Clauses.add_clause (build_condition c) (build_each cs)

  -- buildFilterSQL: no clauses stand for the text `1`
  unfoldable pub build_filter_sql : Filter h → Result FilterError SqlClauses
  build_filter_sql no_conditions = ok Clauses.no_clauses
  build_filter_sql (add_condition c cs) = elim (validate (add_condition c cs)) [
    | some problem ↦ err problem
    | none ↦ ok (build_each (add_condition c cs))
  ]
