-- ===== src/SqliteFilter/Text.antt =====
-- index/sqlitevec/filter.go: the text of a clause, with a placeholder for each argument.
use Prim.Native.String.{◌++◌ as cat}
use amoxtli.Common.{String, List, [], ◌∷◌, ◌++◌}
use amoxtli.Filter.Value.{FilterOp, op_gt, op_gte, op_lt, op_lte}
use amoxtli.SqliteFilter.{ElementClause, Clause, Clauses}

-- metadataJSON and jsonPath
abbrev pub metadata_json : String
metadata_json = "COALESCE(dm.metadata, '{}')"

abbrev pub json_path : String
json_path = "('$.' || ?)"

abbrev pub type_of : String
type_of = cat "json_type(" (cat metadata_json (cat ", " (cat json_path ")")))

abbrev pub extract : String
extract = cat "json_extract(" (cat metadata_json (cat ", " (cat json_path ")")))

abbrev pub operator : FilterOp → String
operator op_gt = ">"
operator op_gte = ">="
operator op_lt = "<"
operator op_lte = "<="
operator op = "="

-- strings.Join(_, " OR ") after the first
abbrev pub or_text : String → String → String
or_text first rest = cat first (cat " OR " rest)

-- an argument of bindArgs
pub data Argument (F : Type 0) : Type 0 where
  text_argument : String → Argument F
  number_argument : F → Argument F

module _ {F : Type 0} where
  unfoldable pub element_sql : ElementClause F → String
  element_sql ElementClause.element_false = "0"
  element_sql (ElementClause.element_type name) = cat "je.type = '" (cat name "'")
  element_sql (ElementClause.element_text operand) = "(je.type = 'text' AND je.value = ?)"
  element_sql (ElementClause.element_number operand) =
      "(je.type IN ('integer','real') AND je.value = ?)"

  unfoldable pub elements_sql : List (ElementClause F) → String
  unfolding element_sql
  elements_sql [] = ""
  elements_sql (e ∷ []) = element_sql e
  elements_sql (e ∷ f ∷ es) = or_text (element_sql e) (elements_sql (f ∷ es))

  unfoldable mutual
    unfolding elements_sql

    -- the text of a clause
    pub clause_sql : Clause F → String
    clause_sql Clause.always_false = "0"
    clause_sql (Clause.present key) = cat type_of " IS NOT NULL"
    clause_sql (Clause.missing key) = cat type_of " IS NULL"
    clause_sql (Clause.has_type key name) = cat "(" (cat type_of " = ?)")
    clause_sql (Clause.text_is key op operand) =
        cat "("
          (cat type_of (cat " = 'text' AND " (cat extract (cat " " (cat (operator op) " ?)")))))
    clause_sql (Clause.number_is key op operand) = cat "(" (
        cat type_of
          (cat " IN ('integer','real') AND " (cat extract (cat " " (cat (operator op) " ?)")))))
    clause_sql (Clause.differs key c) =
        cat "(" (cat type_of (cat " IS NOT NULL AND NOT (" (cat (clause_sql c) "))")))
    clause_sql (Clause.one_of cs) = cat "(" (cat (or_sql cs) ")")
    clause_sql (Clause.alternatives cs) = cat "(" (cat (group_sql cs) ")")
    clause_sql (Clause.array_has key es) = cat "(" (
        cat type_of (
          cat " = 'array' AND EXISTS (SELECT 1 FROM json_each(" (
            cat metadata_json
              (cat ", " (cat json_path (cat ") je WHERE " (cat (elements_sql es) "))")))))))

    pub or_sql : Clauses F → String
    or_sql Clauses.no_clauses = ""
    or_sql (Clauses.add_clause c Clauses.no_clauses) = clause_sql c
    or_sql (Clauses.add_clause c (Clauses.add_clause d cs)) =
        or_text (clause_sql c) (or_sql (Clauses.add_clause d cs))

    -- the alternatives of OpOr, each in its parentheses
    pub group_sql : Clauses F → String
    group_sql Clauses.no_clauses = ""
    group_sql (Clauses.add_clause c Clauses.no_clauses) = cat "(" (cat (clause_sql c) ")")
    group_sql (Clauses.add_clause c (Clauses.add_clause d cs)) =
        or_text (cat "(" (cat (clause_sql c) ")")) (group_sql (Clauses.add_clause d cs))

  -- the text of a filter
  unfoldable pub filter_sql : Clauses F → String
  unfolding clause_sql
  filter_sql Clauses.no_clauses = "1"
  filter_sql (Clauses.add_clause c Clauses.no_clauses) = clause_sql c
  filter_sql (Clauses.add_clause c (Clauses.add_clause d cs)) =
      cat (clause_sql c) (cat " AND " (filter_sql (Clauses.add_clause d cs)))

  unfoldable pub element_arguments : List (ElementClause F) → List (Argument F)
  element_arguments [] = []
  element_arguments (ElementClause.element_text operand ∷ es) =
      Argument.text_argument operand ∷ element_arguments es
  element_arguments (ElementClause.element_number operand ∷ es) =
      Argument.number_argument operand ∷ element_arguments es
  element_arguments (e ∷ es) = element_arguments es

  unfoldable mutual
    unfolding element_arguments

    -- the arguments of a clause, in the order of its placeholders
    pub clause_arguments : Clause F → List (Argument F)
    clause_arguments Clause.always_false = []
    clause_arguments (Clause.present key) = Argument.text_argument key ∷ []
    clause_arguments (Clause.missing key) = Argument.text_argument key ∷ []
    clause_arguments (Clause.has_type key name) =
        Argument.text_argument key ∷ Argument.text_argument name ∷ []
    clause_arguments (Clause.text_is key op operand) =
        Argument.text_argument key
        ∷ Argument.text_argument key
        ∷ Argument.text_argument operand
        ∷ []
    clause_arguments (Clause.number_is key op operand) =
        Argument.text_argument key
        ∷ Argument.text_argument key
        ∷ Argument.number_argument operand
        ∷ []
    clause_arguments (Clause.differs key c) = Argument.text_argument key ∷ clause_arguments c
    clause_arguments (Clause.one_of cs) = all_arguments cs
    clause_arguments (Clause.alternatives cs) = all_arguments cs
    clause_arguments (Clause.array_has key es) =
        Argument.text_argument key ∷ Argument.text_argument key ∷ element_arguments es

    pub all_arguments : Clauses F → List (Argument F)
    all_arguments Clauses.no_clauses = []
    all_arguments (Clauses.add_clause c cs) = clause_arguments c ++ all_arguments cs
