-- ===== src/SqliteFilter/Meaning.antt =====
-- index/sqlitevec/filter.go: the condition of SQL selects the documents that the filter matches.
use amoxtli.Common.{
  ◌≡◌, ◌≢◌, refl, ap, sym, ◌∙◌, inl, inr, Bool, true, false, not, String, Option, none, some,
  is_some, Option-cases, List, [], ◌∷◌, ◌++◌,
}
use amoxtli.Common.Result.{ok, err, ok-injective}
use amoxtli.Filter.Value.{
  FilterOp, op_eq, op_ne, op_gt, op_gte, op_lt, op_lte, op_in, op_any, op_exists, op_or, null, bool,
  conditions, condition, no_conditions, add_condition,
}
use amoxtli.Filter.Norm.{Host, Any, Metadata}
use amoxtli.Filter.Match.{
  Cond, Filter, read, matches_value, matches_presence, matches_key, matches_condition, matches_some,
  matches,
}
use amoxtli.Filter.Validate.{
  FilterError, valid_key, validate, validate-Explains, Explains, keys_of, keys,
}
use amoxtli.Common.Lists.{All}
use amoxtli.SqliteFilter.{
  Clauses, exists_clause, build_key, build_condition, build_each, build_filter_sql,
}
use amoxtli.SqliteFilter.Engine.{
  Sqlite, evaluate_clause, evaluate_or, evaluate_filter, is_true, Stored, Documents,
}
use amoxtli.SqliteFilter.Tests.{NoNan, is_true-some}
use amoxtli.SqliteFilter.Known.{is_true-or, is_true-and, fact-is_some, value_known, value_absent}

module _ (h : Host) where
  -- every key of the list matches the key pattern
  abbrev pub Valid : List String → Type 0
  Valid ks = All (λ k. valid_key k ≡ true) ks

  Valid-parts : (ks ls : List String) → Valid (ks ++ ls) → Valid ks × Valid ls
  Valid-parts [] ls h = (tt, h)
  Valid-parts (k ∷ ks) ls h = let (a, b) = Valid-parts ks ls h.1 in ((h.0, a), b)

  built_when :
      (f : Filter h) (problem : Option FilterError) (sql : Clauses h.floats.Float)
      → Explains problem (keys f)
      → (elim problem [ some p ↦ err p | none ↦ ok (build_each h f) ]) ≡ ok sql
      → (build_each h f ≡ sql) × Valid (keys f)
  built_when f none sql h e = (ok-injective e, h)
  built_when f (some p) sql h e = cc

  built :
      (f : Filter h) (sql : Clauses h.floats.Float)
      → build_filter_sql h f ≡ ok sql
      → (build_each h f ≡ sql) × Valid (keys f)
  unfolding build_filter_sql build_condition keys_of
  built no_conditions sql e = (ok-injective e, tt)
  built (add_condition c cs) sql e =
      built_when (add_condition c cs) (validate (add_condition c cs)) sql
        (validate-Explains (add_condition c cs)) e

module _ (h : Host) (whole : NoNan h) (Exact : h.Number → Type 0) (q : Sqlite h.floats.Float) where
  module _ (docs : Documents h Exact q) (m : Metadata h)
      (stored : (key : String) (v : Any h) → read h m key ≡ some v → Stored h Exact v) where
    presence_clause :
        (key : String) (x : Any h) (present : Bool)
        → is_some (q.json_type (docs.document m) key) ≡ present
        → is_true (evaluate_clause q (docs.document m) (exists_clause h key x))
          ≡ matches_presence h x present
    unfolding evaluate_clause matches_presence
    presence_clause key (bool true) present e = is_true-some _ ∙ e
    presence_clause key (bool false) present e = is_true-some _ ∙ ap not e
    presence_clause key null present e = refl
    presence_clause key _ present e = refl

    plain_clause :
        (key : String) (op : FilterOp) (x : Any h)
        → valid_key key ≡ true
        → op ≢ op_exists
        → is_true (evaluate_clause q (docs.document m) (build_key h key op x))
          ≡ (elim (read h m key) [ some v ↦ matches_value h op v x | none ↦ false ])
    plain_clause key op x valid n = elim (Option-cases (read h m key)) [
      | inl e ↦
          rw e
            (value_absent h whole Exact q (docs.document m) key op x (docs.absent m key valid e) n)
      | inr (v, e) ↦
          let s = stored key v e in
          rw e (
            value_known h whole Exact q (docs.document m) key op v x s
              (docs.known m key v valid e s) n)
    ]

    key_clause :
        (key : String) (op : FilterOp) (x : Any h)
        → valid_key key ≡ true
        → is_true (evaluate_clause q (docs.document m) (build_key h key op x))
          ≡ matches_key h key op x m
    unfolding build_key matches_key
    key_clause key op_exists x valid = elim (Option-cases (read h m key)) [
      | inl e ↦ presence_clause key x _ (rw (docs.absent m key valid e, e) refl)
      | inr (v, e) ↦ presence_clause key x _ (
          fact-is_some h whole Exact q (docs.document m) key v
            (docs.known m key v valid e (stored key v e))
          ∙ rw e refl)
    ]
    key_clause key op_eq x valid = plain_clause key op_eq x valid (λ p. cc)
    key_clause key op_ne x valid = plain_clause key op_ne x valid (λ p. cc)
    key_clause key op_in x valid = plain_clause key op_in x valid (λ p. cc)
    key_clause key op_any x valid = plain_clause key op_any x valid (λ p. cc)
    key_clause key op_gt x valid = plain_clause key op_gt x valid (λ p. cc)
    key_clause key op_gte x valid = plain_clause key op_gte x valid (λ p. cc)
    key_clause key op_lt x valid = plain_clause key op_lt x valid (λ p. cc)
    key_clause key op_lte x valid = plain_clause key op_lte x valid (λ p. cc)
    key_clause key op_or x valid = plain_clause key op_or x valid (λ p. cc)

    mutual
      unfolding build_condition matches_condition evaluate_clause keys_of

      condition_clause :
          (c : Cond h)
          → Valid h (keys_of c)
          → is_true (evaluate_clause q (docs.document m) (build_condition h c))
            ≡ matches_condition h c m
      condition_clause (condition key op_or (conditions no_conditions)) valid = refl
      condition_clause (condition key op_or (conditions (add_condition c cs))) valid =
          some_clause (add_condition c cs) valid
      condition_clause (condition key op_or null) valid = refl
      condition_clause (condition key op_or _) valid = refl
      condition_clause (condition key op x) valid = key_clause key op x valid.0

      some_clause :
          (cs : Filter h)
          → Valid h (keys cs)
          → is_true (evaluate_or q (docs.document m) (build_each h cs)) ≡ matches_some h cs m
      some_clause no_conditions valid = refl
      some_clause (add_condition c cs) valid =
          let (first, rest) = Valid-parts h (keys_of c) (keys cs) valid in
          is_true-or (evaluate_clause q (docs.document m) (build_condition h c))
            (evaluate_or q (docs.document m) (build_each h cs))
          ∙ rw (condition_clause c first, some_clause cs rest) refl

    each_clause :
        (cs : Filter h)
        → Valid h (keys cs)
        → is_true (evaluate_filter q (docs.document m) (build_each h cs)) ≡ matches h cs m
    unfolding evaluate_filter build_condition matches keys_of
    each_clause no_conditions valid = refl
    each_clause (add_condition c cs) valid =
        let (first, rest) = Valid-parts h (keys_of c) (keys cs) valid in
        is_true-and (evaluate_clause q (docs.document m) (build_condition h c))
          (evaluate_filter q (docs.document m) (build_each h cs))
        ∙ rw (condition_clause c first, each_clause cs rest) refl

    -- Where metadata in its normal form holds scalars and lists that JSON keeps without loss, and no
    -- number is NaN, the condition that a filter is translated to selects the document exactly if
    -- the filter matches its metadata: the search in SQLite and the evaluation in Go agree, whatever
    -- operators, operands and nested alternatives the filter holds. What is assumed of SQLite is
    -- assumed at the keys that match the key pattern, which are the keys of every filter that is
    -- translated.
    pub build_filter_sql-matches :
        (f : Filter h) (sql : Clauses h.floats.Float)
        → build_filter_sql h f ≡ ok sql
        → is_true (evaluate_filter q (docs.document m) sql) ≡ matches h f m
    build_filter_sql-matches f sql e =
        let (same, valid) = built h f sql e in rw (sym same) (each_clause f valid)
