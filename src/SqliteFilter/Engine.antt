-- ===== src/SqliteFilter/Engine.antt =====
-- The part of SQLite that index/sqlitevec/filter.go uses: the three-valued logic of SQL, whose NULL
-- is `none`, and the functions json_type, json_extract and json_each, which are parameters.
use amoxtli.Common.{
  ◌≡◌, Bool, true, false, not, ◌||◌, String, Option, none, some, List, [], ◌∷◌, is_some, ◌⊎◌,
  if◌then◌else◌, ◌==◌,
}
use Prim.Native.String.{compare as compare_text}
use amoxtli.Common.Lists.{All}
use amoxtli.Filter.Value.{FilterOp, op_eq, null, bool, num, str, slice, value_list}
use amoxtli.Filter.Norm.{Host, Any, Metadata, value}
use amoxtli.Filter.Match.{read, ordered}
use amoxtli.Filter.Validate.{valid_key}
use amoxtli.SqliteFilter.{ElementClause, Clause, Clauses}

abbrev pub sql_and : Option Bool → Option Bool → Option Bool
sql_and (some false) b = some false
sql_and (some true) b = b
sql_and none (some false) = some false
sql_and none b = none

abbrev pub sql_or : Option Bool → Option Bool → Option Bool
sql_or (some true) b = some true
sql_or (some false) b = b
sql_or none (some true) = some true
sql_or none b = none

abbrev pub sql_not : Option Bool → Option Bool
sql_not none = none
sql_not (some b) = some (not b)

-- whether a row passes WHERE
abbrev pub is_true : Option Bool → Bool
is_true (some true) = true
is_true v = false

-- `a = b` of a text that may be NULL
abbrev pub same_text : Option String → String → Option Bool
same_text none t = none
same_text (some s) t = some (s == t)

-- `json_type(…) IN ('integer','real')`
abbrev pub is_number : Option String → Option Bool
is_number none = none
is_number (some s) = sql_or (some (s == "integer")) (some (s == "real"))

-- A document with its metadata, and an element of json_each: its type and its comparisons with an
-- argument. `text_test d key op t` is `json_extract(d, '$.' || key) op t`.
pub record Sqlite (F : Type 0) : Type 1 where
  pub Document : Type 0
  pub Element : Type 0
  pub json_type : Document → String → Option String
  pub text_test : Document → String → FilterOp → String → Option Bool
  pub number_test : Document → String → FilterOp → F → Option Bool
  pub json_each : Document → String → List Element
  pub element_kind : Element → String
  pub element_text_test : Element → String → Option Bool
  pub element_number_test : Element → F → Option Bool

module _ {F : Type 0} (q : Sqlite F) where
  unfoldable pub element_holds : q.Element → ElementClause F → Option Bool
  element_holds e ElementClause.element_false = some false
  element_holds e (ElementClause.element_type name) = some (q.element_kind e == name)
  element_holds e (ElementClause.element_text t) =
      sql_and (some (q.element_kind e == "text")) (q.element_text_test e t)
  element_holds e (ElementClause.element_number x) =
      sql_and (is_number (some (q.element_kind e))) (q.element_number_test e x)

  -- the WHERE of the subquery, a disjunction
  unfoldable pub element_passes : q.Element → List (ElementClause F) → Option Bool
  unfolding element_holds
  element_passes e [] = some false
  element_passes e (c ∷ cs) = sql_or (element_holds e c) (element_passes e cs)

  -- EXISTS (SELECT 1 FROM json_each(…) je WHERE …)
  unfoldable pub some_element : List q.Element → List (ElementClause F) → Bool
  unfolding element_passes
  some_element [] cs = false
  some_element (e ∷ es) cs = is_true (element_passes e cs) || some_element es cs

  unfoldable mutual
    unfolding some_element

    -- the value of a clause on a document
    pub evaluate_clause : q.Document → Clause F → Option Bool
    evaluate_clause d Clause.always_false = some false
    evaluate_clause d (Clause.present key) = some (is_some (q.json_type d key))
    evaluate_clause d (Clause.missing key) = some (not (is_some (q.json_type d key)))
    evaluate_clause d (Clause.has_type key name) = same_text (q.json_type d key) name
    evaluate_clause d (Clause.text_is key op t) =
        sql_and (same_text (q.json_type d key) "text") (q.text_test d key op t)
    evaluate_clause d (Clause.number_is key op x) =
        sql_and (is_number (q.json_type d key)) (q.number_test d key op x)
    evaluate_clause d (Clause.differs key c) =
        sql_and (some (is_some (q.json_type d key))) (sql_not (evaluate_clause d c))
    evaluate_clause d (Clause.one_of cs) = evaluate_or d cs
    evaluate_clause d (Clause.alternatives cs) = evaluate_or d cs
    evaluate_clause d (Clause.array_has key es) =
        sql_and (same_text (q.json_type d key) "array") (some (some_element (q.json_each d key) es))

    pub evaluate_or : q.Document → Clauses F → Option Bool
    evaluate_or d Clauses.no_clauses = some false
    evaluate_or d (Clauses.add_clause c cs) = sql_or (evaluate_clause d c) (evaluate_or d cs)

  -- a filter, a conjunction
  unfoldable pub evaluate_filter : q.Document → Clauses F → Option Bool
  unfolding evaluate_clause
  evaluate_filter d Clauses.no_clauses = some true
  evaluate_filter d (Clauses.add_clause c cs) = sql_and (evaluate_clause d c) (evaluate_filter d cs)

module _ (h : Host) where
  abbrev pub text_meets : FilterOp → String → String → Bool
  text_meets op_eq s t = s == t
  text_meets op s t = ordered h op (compare_text s t)

  abbrev pub number_meets : FilterOp → h.floats.Float → h.floats.Float → Bool
  number_meets op_eq a x = h.floats.same a x
  number_meets op a x = ordered h op (h.floats.cmp a x)

  -- The values of normal metadata that JSON holds without loss: scalars and lists of them. `Exact`
  -- is about the numbers that float64 holds.
  abbrev pub StoredElement : (h.Number → Type 0) → Any h → Type 0
  StoredElement Exact null = Unit
  StoredElement Exact (bool b) = Unit
  StoredElement Exact (num n) = Exact n
  StoredElement Exact (str s) = value h (str s) ≡ str s
  StoredElement Exact (slice vs) = Unit
  StoredElement Exact v = ⊥

  abbrev pub Stored : (h.Number → Type 0) → Any h → Type 0
  Stored Exact (slice vs) = All (StoredElement Exact) (value_list vs)
  Stored Exact v = StoredElement Exact v

  -- What SQLite says of an element that json_each lists.
  abbrev pub ElementFact : (q : Sqlite h.floats.Float) → q.Element → Any h → Type 0
  ElementFact q e null = q.element_kind e ≡ "null"
  ElementFact q e (bool b) = q.element_kind e ≡ (if b then "true" else "false")
  ElementFact q e (num n) =
      ((q.element_kind e ≡ "integer") ⊎ (q.element_kind e ≡ "real"))
      × ((x : h.floats.Float)
          → h.floats.same x x ≡ true
          → q.element_number_test e x ≡ some (h.floats.same (h.to_float n) x))
  ElementFact q e (str s) =
      (q.element_kind e ≡ "text") × ((t : String) → q.element_text_test e t ≡ some (s == t))
  ElementFact q e (slice vs) = q.element_kind e ≡ "array"
  ElementFact q e v = ⊥

  abbrev pub ElementFacts : (q : Sqlite h.floats.Float) → List q.Element → List (Any h) → Type 0
  ElementFacts q [] [] = Unit
  ElementFacts q (e ∷ es) (v ∷ vs) = ElementFact q e v × ElementFacts q es vs
  ElementFacts q es vs = ⊥

  -- What SQLite says of a key whose value is given. An argument that is NaN is bound as NULL.
  abbrev pub Fact : (q : Sqlite h.floats.Float) → q.Document → String → Any h → Type 0
  Fact q d key null = q.json_type d key ≡ some "null"
  Fact q d key (bool b) = q.json_type d key ≡ some (if b then "true" else "false")
  Fact q d key (num n) =
      ((q.json_type d key ≡ some "integer") ⊎ (q.json_type d key ≡ some "real"))
      × ((op : FilterOp) (x : h.floats.Float)
          → h.floats.same x x ≡ true
          → q.number_test d key op x ≡ some (number_meets op (h.to_float n) x))
  Fact q d key (str s) =
      (q.json_type d key ≡ some "text")
      × ((op : FilterOp) (t : String) → q.text_test d key op t ≡ some (text_meets op s t))
  Fact q d key (slice vs) =
      (q.json_type d key ≡ some "array") × ElementFacts q (q.json_each d key) (value_list vs)
  Fact q d key v = ⊥

  -- the documents that hold the metadata, and the laws of SQLite on them, at the keys whose path
  -- `'$.' || key` names that member of the document
  pub record Documents (Exact : h.Number → Type 0) (q : Sqlite h.floats.Float) : Type 0 where
    pub document : Metadata h → q.Document
    pub absent :
        (m : Metadata h) (key : String)
        → valid_key key ≡ true
        → read h m key ≡ none
        → q.json_type (document m) key ≡ none
    pub known :
        (m : Metadata h) (key : String) (v : Any h)
        → valid_key key ≡ true
        → read h m key ≡ some v
        → Stored Exact v
        → Fact q (document m) key v
