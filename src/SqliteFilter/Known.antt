-- ===== src/SqliteFilter/Known.antt =====
-- index/sqlitevec/filter.go: the clauses on one key, where the document has it and where it
-- has not, and what the Go evaluator says.
use amoxtli.Common.{
  ◌≡◌, ◌≢◌, refl, ap, sym, ◌∙◌, inl, inr, Bool, true, false, not, ◌&&◌, ◌||◌, String, Option, none,
  some, List, [], ◌∷◌, map, is_some, arith,
}
use amoxtli.Common.Lists.{All, exists_in}
use amoxtli.Filter.Value.{
  FilterOp, op_eq, op_ne, op_gt, op_gte, op_lt, op_lte, op_in, op_any, op_exists, op_or, null, bool,
  num, str, time, bytes, strings, slice, conditions, single, other, value_list,
}
use amoxtli.Filter.Norm.{Host, Any, value, float, elements, equal, equal_normal, compare_values}
use amoxtli.Filter.Match.{ordered, to_slice, shares_element, matches_value}
use amoxtli.SqliteFilter.{
  Clause, equals, equals_normal, equals_each, element_equals, ordered_clause, ordered_normal,
  in_clause, any_clause, build_key,
}
use amoxtli.SqliteFilter.Engine.{
  Sqlite, element_passes, some_element, evaluate_clause, evaluate_or, is_true, sql_and, sql_or,
  Stored, StoredElement, Fact, ElementFact, ElementFacts,
}
use amoxtli.SqliteFilter.Tests.{
  NoNan, IsOrdered, meets, stored_value, equals_fact, ordered_fact, element_fact, is_true-some,
}

pub is_true-or : (a b : Option Bool) → is_true (sql_or a b) ≡ (is_true a || is_true b)
is_true-or (some true) b = refl
is_true-or (some false) b = refl
is_true-or none (some true) = refl
is_true-or none (some false) = refl
is_true-or none none = refl

pub is_true-and : (a b : Option Bool) → is_true (sql_and a b) ≡ (is_true a && is_true b)
is_true-and (some true) b = refl
is_true-and (some false) b = refl
is_true-and none (some true) = refl
is_true-and none (some false) = refl
is_true-and none none = refl

or_some : (a b : Bool) → sql_or (some a) (some b) ≡ some (a || b)
or_some true b = refl
or_some false b = refl

module _ (h : Host) (whole : NoNan h) (Exact : h.Number → Type 0) (q : Sqlite h.floats.Float) where
  shares_none : (xs : List (Any h)) → shares_element h [] xs ≡ false
  unfolding shares_element
  shares_none [] = refl
  shares_none (x ∷ xs) = shares_none xs

  shares_first :
      (v : Any h) (vs xs : List (Any h))
      → shares_element h (v ∷ vs) xs ≡ (exists_in (λ x. equal h v x) xs || shares_element h vs xs)
  unfolding shares_element
  shares_first v vs [] = refl
  shares_first v vs (x ∷ xs) = ground (arith, shares_first v vs xs)

  equal_of_stored : (v x : Any h) → value h v ≡ v → equal h v x ≡ equal_normal h v (value h x)
  unfolding equal
  equal_of_stored v x e = ap (λ w. equal_normal h w (value h x)) e

  passes_of :
      (e : q.Element) (v : Any h) (xs : List (Any h))
      → value h v ≡ v
      → ElementFact h q e v
      → element_passes q e (map (element_equals h) xs) ≡ some (exists_in (λ x. equal h v x) xs)
  unfolding element_passes element_equals
  passes_of e v [] s f = refl
  passes_of e v (x ∷ xs) s f =
      rw
        (
          element_fact h whole q e v (value h x) f,
          passes_of e v xs s f,
          sym (equal_of_stored v x s),
        )
        (or_some (equal h v x) (exists_in (λ y. equal h v y) xs))

  some_element_of :
      (es : List q.Element) (vs xs : List (Any h))
      → All (StoredElement h Exact) vs
      → ElementFacts h q es vs
      → some_element q es (map (element_equals h) xs) ≡ shares_element h vs xs
  unfolding some_element
  some_element_of [] [] xs s f = sym (shares_none xs)
  some_element_of (e ∷ es) (v ∷ vs) xs s f =
      rw
        (
          passes_of e v xs (stored_value h whole q Exact v s.0) f.0,
          some_element_of es vs xs s.1 f.1,
          shares_first v vs xs,
          is_true-some (exists_in (λ x. equal h v x) xs),
        )
        refl
  some_element_of [] (v ∷ vs) xs s f = absurd f
  some_element_of (e ∷ es) [] xs s f = absurd f

  equals_absent :
      (d : q.Document) (key : String) (y : Any h)
      → q.json_type d key ≡ none
      → is_true (evaluate_clause q d (equals_normal h key y)) ≡ false
  unfolding evaluate_clause float
  equals_absent d key (bool b) e = rw e refl
  equals_absent d key (str s) e = rw (e, is_true-and) refl
  equals_absent d key (num n) e = rw (e, is_true-and) refl
  equals_absent d key _ e = refl

  ordered_absent :
      (d : q.Document) (key : String) (op : FilterOp) (y : Any h)
      → q.json_type d key ≡ none
      → is_true (evaluate_clause q d (ordered_normal h key y op)) ≡ false
  unfolding evaluate_clause float
  ordered_absent d key op (str s) e = rw (e, is_true-and) refl
  ordered_absent d key op (num n) e = rw (e, is_true-and) refl
  ordered_absent d key op _ e = refl

  pub plain_value : (v : Any h) → Stored h Exact v → value h v ≡ v
  unfolding value
  plain_value (slice vs) s = refl
  plain_value null s = refl
  plain_value (bool b) s = refl
  plain_value (num n) s = refl
  plain_value (str t) s = s
  plain_value (time t) s = absurd s
  plain_value (bytes t) s = absurd s
  plain_value (strings ss) s = absurd s
  plain_value (conditions cs) s = absurd s
  plain_value (single c) s = absurd s
  plain_value (other o) s = absurd s

  pub fact-is_some :
      (d : q.Document) (key : String) (v : Any h)
      → Fact h q d key v
      → is_some (q.json_type d key) ≡ true
  fact-is_some d key null f = rw f refl
  fact-is_some d key (bool b) f = rw f refl
  fact-is_some d key (num n) (inl k, f) = rw k refl
  fact-is_some d key (num n) (inr k, f) = rw k refl
  fact-is_some d key (str s) f = rw (f.0) refl
  fact-is_some d key (slice vs) f = rw (f.0) refl
  fact-is_some d key (time t) f = absurd f
  fact-is_some d key (bytes t) f = absurd f
  fact-is_some d key (strings ss) f = absurd f
  fact-is_some d key (conditions cs) f = absurd f
  fact-is_some d key (single c) f = absurd f
  fact-is_some d key (other o) f = absurd f

  module _ (d : q.Document) (key : String) (v : Any h) (s : Stored h Exact v)
      (f : Fact h q d key v) where
    equals_known : (x : Any h) → evaluate_clause q d (equals h key x) ≡ some (equal h v x)
    unfolding equals
    equals_known x =
        equals_fact h whole q d key v (value h x) f
        ∙ ap some (sym (equal_of_stored v x (plain_value v s)))

    each_known :
        (xs : List (Any h))
        → evaluate_or q d (equals_each h key xs) ≡ some (exists_in (λ x. equal h v x) xs)
    unfolding evaluate_clause equals_each
    each_known [] = refl
    each_known (x ∷ xs) =
        rw (equals_known x, each_known xs) (or_some (equal h v x) (exists_in (λ y. equal h v y) xs))

    in_known :
        (xs : List (Any h))
        → is_true (evaluate_clause q d (in_clause h key xs)) ≡ exists_in (λ x. equal h v x) xs
    unfolding evaluate_clause equals_each
    in_known [] = refl
    in_known (x ∷ xs) = ap is_true (each_known (x ∷ xs)) ∙ is_true-some _

    ordered_known :
        (op : FilterOp) (x : Any h)
        → IsOrdered h whole q op
        → is_true (evaluate_clause q d (ordered_clause h key x op))
          ≡ (elim (compare_values h v x) [ some o ↦ ordered h op o | none ↦ false ])
    unfolding ordered_clause compare_values
    ordered_known op x o =
        ordered_fact h whole q d key op v (value h x) o f
        ∙ ap (λ w. meets h whole q op w (value h x)) (sym (plain_value v s))

  any_known :
      (d : q.Document) (key : String) (v : Any h) (xs : List (Any h))
      → Stored h Exact v
      → Fact h q d key v
      → is_true (evaluate_clause q d (any_clause h key xs))
        ≡ (elim (elements h v) [ some es ↦ shares_element h es xs | none ↦ false ])
  unfolding evaluate_clause elements element_equals shares_element
  any_known d key (time t) xs s f = absurd f
  any_known d key (bytes t) xs s f = absurd f
  any_known d key (strings ss) xs s f = absurd f
  any_known d key (conditions cs) xs s f = absurd f
  any_known d key (single c) xs s f = absurd f
  any_known d key (other o) xs s f = absurd f
  any_known d key (slice vs) (x ∷ xs) s f =
      rw (f.0) (is_true-some _ ∙ some_element_of (q.json_each d key) (value_list vs) (x ∷ xs) s f.1)
  any_known d key null (x ∷ xs) s f = rw f refl
  any_known d key (bool true) (x ∷ xs) s f = rw f refl
  any_known d key (bool false) (x ∷ xs) s f = rw f refl
  any_known d key (num n) (x ∷ xs) s (inl k, f) = rw k refl
  any_known d key (num n) (x ∷ xs) s (inr k, f) = rw k refl
  any_known d key (str t) (x ∷ xs) s f = rw (f.0) refl
  any_known d key v [] s f = refl

  evaluate_false : (d : q.Document) → is_true (evaluate_clause q d Clause.always_false) ≡ false
  unfolding evaluate_clause
  evaluate_false d = refl

  differs_absent :
      (d : q.Document) (key : String) (c : Clause h.floats.Float)
      → q.json_type d key ≡ none
      → is_true (evaluate_clause q d (Clause.differs key c)) ≡ false
  unfolding evaluate_clause
  differs_absent d key c e = rw e refl

  each_absent :
      (d : q.Document) (key : String) (xs : List (Any h))
      → q.json_type d key ≡ none
      → is_true (evaluate_or q d (equals_each h key xs)) ≡ false
  unfolding evaluate_clause equals_each equals
  each_absent d key [] e = refl
  each_absent d key (x ∷ xs) e =
      is_true-or (evaluate_clause q d (equals h key x)) (evaluate_or q d (equals_each h key xs))
      ∙ rw (equals_absent d key (value h x) e, each_absent d key xs e) refl

  in_absent :
      (d : q.Document) (key : String) (xs : List (Any h))
      → q.json_type d key ≡ none
      → is_true (evaluate_clause q d (in_clause h key xs)) ≡ false
  unfolding evaluate_clause equals_each
  in_absent d key [] e = refl
  in_absent d key (x ∷ xs) e = each_absent d key (x ∷ xs) e

  any_absent :
      (d : q.Document) (key : String) (xs : List (Any h))
      → q.json_type d key ≡ none
      → is_true (evaluate_clause q d (any_clause h key xs)) ≡ false
  unfolding evaluate_clause
  any_absent d key [] e = refl
  any_absent d key (x ∷ xs) e = rw (e, is_true-and) refl

  differs_known :
      (d : q.Document) (key : String) (v x : Any h)
      → Stored h Exact v
      → Fact h q d key v
      → is_true (evaluate_clause q d (Clause.differs key (equals h key x))) ≡ not (equal h v x)
  unfolding evaluate_clause
  differs_known d key v x s f =
      rw (fact-is_some d key v f, equals_known d key v s f x) (is_true-some _)

  pub value_known :
      (d : q.Document) (key : String) (op : FilterOp) (v x : Any h)
      → Stored h Exact v
      → Fact h q d key v
      → op ≢ op_exists
      → is_true (evaluate_clause q d (build_key h key op x)) ≡ matches_value h op v x
  unfolding build_key matches_value
  value_known d key op_eq v x s f n = ap is_true (equals_known d key v s f x) ∙ is_true-some _
  value_known d key op_ne v x s f n = differs_known d key v x s f
  value_known d key op_in v x s f n = in_known d key v s f (to_slice h x)
  value_known d key op_any v x s f n = any_known d key v (to_slice h x) s f
  value_known d key op_gt v x s f n = ordered_known d key v s f op_gt x ((λ a b. refl), λ a b. refl)
  value_known d key op_gte v x s f n =
      ordered_known d key v s f op_gte x ((λ a b. refl), λ a b. refl)
  value_known d key op_lt v x s f n = ordered_known d key v s f op_lt x ((λ a b. refl), λ a b. refl)
  value_known d key op_lte v x s f n =
      ordered_known d key v s f op_lte x ((λ a b. refl), λ a b. refl)
  value_known d key op_exists v x s f n = absurd (n refl)
  value_known d key op_or v x s f n = evaluate_false d

  pub value_absent :
      (d : q.Document) (key : String) (op : FilterOp) (x : Any h)
      → q.json_type d key ≡ none
      → op ≢ op_exists
      → is_true (evaluate_clause q d (build_key h key op x)) ≡ false
  unfolding build_key equals ordered_clause
  value_absent d key op_eq x e n = equals_absent d key (value h x) e
  value_absent d key op_ne x e n = differs_absent d key (equals h key x) e
  value_absent d key op_in x e n = in_absent d key (to_slice h x) e
  value_absent d key op_any x e n = any_absent d key (to_slice h x) e
  value_absent d key op_gt x e n = ordered_absent d key op_gt (value h x) e
  value_absent d key op_gte x e n = ordered_absent d key op_gte (value h x) e
  value_absent d key op_lt x e n = ordered_absent d key op_lt (value h x) e
  value_absent d key op_lte x e n = ordered_absent d key op_lte (value h x) e
  value_absent d key op_exists x e n = absurd (n refl)
  value_absent d key op_or x e n = evaluate_false d
