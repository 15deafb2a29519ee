-- ===== src/Examples/FilterExpr.antt =====
-- Filters and metadata as they are typed.
use amoxtli.Common.{◌≡◌, refl, String, some, none, List, [], ◌∷◌, ℕ, if◌then◌else◌, ◌==◌, Option}
use amoxtli.Common.Result.{ok, err}
use amoxtli.Filter.Build.{gte, eq, exists, not_exists}
use amoxtli.Filter.Validate.{invalid_key, valid_key, validate_key}
use amoxtli.Filter.Value.{Condition, num, str}
use amoxtli.FilterExpr.{
  Comparison, at_least, equal_to, parse_filters, parse_scalar, invalid_expression_key,
}
use amoxtli.FilterExpr.Parsing.{expressions, parse_filters-expressions}

-- the one number of these examples
abbrev parse_float : String → Option ℕ
parse_float s = if s == "2024" then some 2024 else none

abbrev unchanged : String → String
unchanged s = s

abbrev Cond : Type 0
Cond = Condition ℕ (Unit {0}) (Unit {0})

abbrev typed : List (String × Comparison × String)
typed = ("year", at_least, "2024") ∷ ("author", equal_to, "Ada Lovelace") ∷ []

parse_filters-expressions_example :
    parse_filters {T = Unit {0}} {O = Unit {0}} unchanged parse_float (expressions typed)
    ≡ ok (gte "year" (num 2024) ∷ eq "author" (str "Ada Lovelace") ∷ [])
unfolding valid_key gte eq parse_scalar
parse_filters-expressions_example =
    parse_filters-expressions unchanged parse_float typed
      ((refl, (refl, refl, refl, refl, refl)), ((refl, (refl, refl, refl, refl, refl)), tt))

abbrev presence : List Cond
presence = exists "tag" ∷ not_exists "draft" ∷ []

parses_presence : parse_filters unchanged parse_float ("tag?" ∷ "!draft" ∷ []) ≡ ok presence
unfolding parse_filters valid_key validate_key exists not_exists
parses_presence = refl

-- a value with an operator in it is cut there
cuts_in_value :
    parse_filters {T = Unit {0}} {O = Unit {0}} unchanged parse_float ("note=a>=b" ∷ [])
    ≡ err (invalid_expression_key (invalid_key "note=a") "note=a>=b")
unfolding parse_filters valid_key validate_key
cuts_in_value = refl

-- a value that ends in a question mark makes a test of presence
ends_in_mark :
    parse_filters {T = Unit {0}} {O = Unit {0}} unchanged parse_float ("title=why?" ∷ [])
    ≡ err (invalid_expression_key (invalid_key "title=why") "title=why?")
unfolding parse_filters valid_key validate_key
ends_in_mark = refl
