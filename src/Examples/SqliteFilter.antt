-- ===== src/Examples/SqliteFilter.antt =====
-- A filter in SQL, on a document with a title, a year and tags.
use amoxtli.Common.{
  ◌≡◌, refl, ap, inl, inr, ℕ, Bool, true, String, Option, none, some, List, [], ◌∷◌, if◌then◌else◌,
  ◌==◌, arith, subst, Bool-cases,
}
use amoxtli.Common.Keyed.{Keyed, lookup}
use amoxtli.Common.Lists.{All}
use amoxtli.Common.Result.{ok}
use amoxtli.Filter.Value.{
  FilterOp, op_eq, op_gt, null, bool, num, str, time, bytes, strings, slice, conditions, single,
  other, value_list, to_values, to_conditions,
}
use amoxtli.Filter.Norm.{Any, Metadata, value, float}
use amoxtli.Filter.Match.{Filter, to_slice, read, ordered, matches}
use amoxtli.Filter.Build.{eq, gt, has_any, either}
use amoxtli.SqliteFilter.{
  Clause, Clauses, ElementClause, build_filter_sql, build_condition, build_key, equals, equals_each,
  ordered_clause, element_equals,
}
use amoxtli.Filter.Validate.{validate, valid_key}
use amoxtli.SqliteFilter.Text.{
  Argument, filter_sql, clause_sql, clause_arguments, element_arguments, all_arguments,
}
use amoxtli.SqliteFilter.Engine.{
  Sqlite, Documents, Stored, StoredElement, Fact, ElementFact, ElementFacts, text_meets,
  number_meets, evaluate_filter, evaluate_clause, some_element, element_passes, element_holds,
  is_true,
}
use amoxtli.SqliteFilter.Tests.{NoNan}
use amoxtli.SqliteFilter.Meaning.{build_filter_sql-matches}
use amoxtli.Examples.Filters.{host}

abbrev kind_of : Any host → String
kind_of null = "null"
kind_of (bool b) = if b then "true" else "false"
kind_of (num n) = "integer"
kind_of (slice vs) = "array"
kind_of _ = "text"

abbrev kind_at : Option (Any host) → Option String
kind_at none = none
kind_at (some v) = some (kind_of v)

abbrev text_at : FilterOp → String → Option (Any host) → Option Bool
text_at op t (some (str s)) = some (text_meets host op s t)
text_at op t v = none

abbrev number_at : FilterOp → ℕ → Option (Any host) → Option Bool
number_at op x (some (num n)) = some (number_meets host op n x)
number_at op x v = none

abbrev elements_at : Option (Any host) → List (Any host)
elements_at (some (slice vs)) = value_list vs
elements_at v = []

-- a database whose documents are metadata maps
abbrev engine : Sqlite host.floats.Float
engine = record {
  Document = Metadata host;
  Element = Any host;
  json_type = λ d key. kind_at (read host d key);
  text_test = λ d key op t. text_at op t (read host d key);
  number_test = λ d key op x. number_at op x (read host d key);
  json_each = λ d key. elements_at (read host d key);
  element_kind = kind_of;
  element_text_test = λ e t. text_at op_eq t (some e);
  element_number_test = λ e x. number_at op_eq x (some e);
}

abbrev Small : ℕ → Type 0
Small n = Unit

element_fact : (v : Any host) → StoredElement host Small v → ElementFact host engine v v
element_fact null s = refl
element_fact (bool b) s = refl
element_fact (num n) s = (inl refl, λ x p. refl)
element_fact (str t) s = (refl, λ u. refl)
element_fact (slice vs) s = refl
element_fact (time t) s = s
element_fact (bytes t) s = s
element_fact (strings t) s = s
element_fact (conditions t) s = s
element_fact (single t) s = s
element_fact (other t) s = s

element_facts :
    (vs : List (Any host)) → All (StoredElement host Small) vs → ElementFacts host engine vs vs
element_facts [] s = tt
element_facts (v ∷ vs) s = (element_fact v s.0, element_facts vs s.1)

known_fact :
    (m : Metadata host) (key : String) (v : Any host)
    → read host m key ≡ some v
    → Stored host Small v
    → Fact host engine m key v
known_fact m key null e s = rw e refl
known_fact m key (bool b) e s = rw e refl
known_fact m key (num n) e s = (inl (rw e refl), λ op x p. rw e refl)
known_fact m key (str t) e s = (rw e refl, λ op u. rw e refl)
known_fact m key (slice vs) e s = (rw e refl, rw e (element_facts (value_list vs) s))
known_fact m key (time t) e s = s
known_fact m key (bytes t) e s = s
known_fact m key (strings t) e s = s
known_fact m key (conditions t) e s = s
known_fact m key (single t) e s = s
known_fact m key (other t) e s = s

abbrev documents : Documents host Small engine
documents = record {
  document = λ m. m;
  absent = λ m key valid e. ap kind_at e;
  known = λ m key v valid. known_fact m key v;
}

abbrev tagged : Metadata host
tagged = some (
    ("title", str "amoxtli")
    ∷ ("year", num 2024)
    ∷ ("tags", slice (to_values (str "go" ∷ str "search" ∷ [])))
    ∷ [])

lookup-All :
    (P : Any host → Type 0) (key : String) (v : Any host) (m : Keyed (Any host))
    → All (λ entry. P entry.1) m
    → lookup key m ≡ some v
    → P v
lookup-All P key v [] h e = cc
lookup-All P key v ((k, w) ∷ m) h e = elim (Bool-cases (k == key)) [
  | inl same ↦ subst P (ground (arith, same, e)) h.0
  | inr off ↦ lookup-All P key v m h.1 (ground (arith, off, e))
]

tagged-Stored : (key : String) (v : Any host) → read host tagged key ≡ some v → Stored host Small v
unfolding value value_list to_values
tagged-Stored key v e =
    lookup-All (Stored host Small) key v
      (("title", str "amoxtli")
        ∷ ("year", num 2024)
        ∷ ("tags", slice (to_values (str "go" ∷ str "search" ∷ [])))
        ∷ [])
      (refl, (tt, ((refl, (refl, tt)), tt))) e

host-NoNan : NoNan host
host-NoNan n = ground arith

-- a year and a tag, or a title
abbrev asked : Filter host
asked = to_conditions (
    either (eq "title" (str "other") ∷ has_any "tags" (str "go" ∷ num 3 ∷ []) ∷ [])
    ∷ gt "year" (num 2000)
    ∷ [])

abbrev asked_clauses : Clauses ℕ
asked_clauses =
    Clauses.add_clause
      (Clause.alternatives (
        Clauses.add_clause (Clause.text_is "title" op_eq "other") (
          Clauses.add_clause
            (Clause.array_has "tags"
              (ElementClause.element_text "go" ∷ ElementClause.element_number 3 ∷ []))
            Clauses.no_clauses)))
      (Clauses.add_clause (Clause.number_is "year" op_gt 2000) Clauses.no_clauses)

translated : build_filter_sql host asked ≡ ok asked_clauses
unfolding build_filter_sql build_condition build_key equals equals_each ordered_clause
    element_equals value float to_slice eq gt has_any either to_conditions to_values value_list
    validate valid_key
translated = refl

build_filter_sql-matches_example :
    is_true (evaluate_filter engine tagged asked_clauses) ≡ matches host asked tagged
build_filter_sql-matches_example =
    build_filter_sql-matches host host-NoNan Small engine documents tagged tagged-Stored asked
      asked_clauses translated

selected : is_true (evaluate_filter engine tagged asked_clauses) ≡ true
unfolding evaluate_filter evaluate_clause some_element element_passes element_holds ordered
    value_list to_values
selected = refl

printed :
    filter_sql {F = ℕ} (Clauses.add_clause (Clause.number_is "year" op_gt 2000) Clauses.no_clauses)
    ≡ "(json_type(COALESCE(dm.metadata, '{}'), ('$.' || ?)) IN ('integer','real') AND json_extract(COALESCE(dm.metadata, '{}'), ('$.' || ?)) > ?)"
unfolding filter_sql clause_sql
printed = refl

bound :
    all_arguments asked_clauses
    ≡ Argument.text_argument "title"
      ∷ Argument.text_argument "title"
      ∷ Argument.text_argument "other"
      ∷ Argument.text_argument "tags"
      ∷ Argument.text_argument "tags"
      ∷ Argument.text_argument "go"
      ∷ Argument.number_argument 3
      ∷ Argument.text_argument "year"
      ∷ Argument.text_argument "year"
      ∷ Argument.number_argument 2000
      ∷ []
unfolding all_arguments clause_arguments element_arguments
bound = refl
