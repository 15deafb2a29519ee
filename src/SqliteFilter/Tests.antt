-- ===== src/SqliteFilter/Tests.antt =====
-- index/sqlitevec/filter.go: the clauses of equality and order, and what the Go evaluator says.
use amoxtli.Common.{◌≡◌, refl, ◌∙◌, inl, inr, Bool, true, false, String, none, some}
use Prim.Native.String.{compare as compare_text}
use amoxtli.Filter.Value.{
  FilterOp, op_eq, null, bool, num, str, time, bytes, strings, slice, conditions, single, other,
}
use amoxtli.Filter.Norm.{Host, Any, value, float, equal_normal, compare_normal, same_bool}
use amoxtli.Filter.Match.{ordered}
use amoxtli.SqliteFilter.{equals_normal, element_normal, ordered_normal}
use amoxtli.SqliteFilter.Engine.{
  Sqlite, element_holds, evaluate_clause, is_true, StoredElement, text_meets, number_meets, Fact,
  ElementFact,
}

-- no number is NaN
abbrev pub NoNan : Host → Type 0
NoNan h = (n : h.Number) → h.floats.same (h.to_float n) (h.to_float n) ≡ true

pub is_true-some : (b : Bool) → is_true (some b) ≡ b
is_true-some true = refl
is_true-some false = refl

module _ (h : Host) (whole : NoNan h) (q : Sqlite h.floats.Float) where
  pub stored_value :
      (Exact : h.Number → Type 0) (v : Any h) → StoredElement h Exact v → value h v ≡ v
  unfolding value
  stored_value Exact (str s) e = e
  stored_value Exact null e = refl
  stored_value Exact (bool b) e = refl
  stored_value Exact (num n) e = refl
  stored_value Exact (slice vs) e = refl
  stored_value Exact (time t) e = absurd e
  stored_value Exact (bytes s) e = absurd e
  stored_value Exact (strings ss) e = absurd e
  stored_value Exact (conditions cs) e = absurd e
  stored_value Exact (single c) e = absurd e
  stored_value Exact (other o) e = absurd e

  pub equals_fact :
      (d : q.Document) (key : String) (v y : Any h)
      → Fact h q d key v
      → evaluate_clause q d (equals_normal h key y) ≡ some (equal_normal h v y)
  unfolding evaluate_clause equal_normal float same_bool
  equals_fact d key null (bool true) f = rw f refl
  equals_fact d key null (bool false) f = rw f refl
  equals_fact d key null (str t) f = rw f refl
  equals_fact d key null (num n) f = rw f refl
  equals_fact d key null _ f = refl
  equals_fact d key (bool true) (bool true) f = rw f refl
  equals_fact d key (bool true) (bool false) f = rw f refl
  equals_fact d key (bool false) (bool true) f = rw f refl
  equals_fact d key (bool false) (bool false) f = rw f refl
  equals_fact d key (bool true) (str t) f = rw f refl
  equals_fact d key (bool false) (str t) f = rw f refl
  equals_fact d key (bool true) (num n) f = rw f refl
  equals_fact d key (bool false) (num n) f = rw f refl
  equals_fact d key (bool b) _ f = refl
  equals_fact d key (str s) (bool true) f = rw (f.0) refl
  equals_fact d key (str s) (bool false) f = rw (f.0) refl
  equals_fact d key (str s) (str t) f = rw (f.0, f.1 op_eq t) refl
  equals_fact d key (str s) (num n) f = rw (f.0) refl
  equals_fact d key (str s) _ f = refl
  equals_fact d key (num n) (bool true) (inl k, f) = rw k refl
  equals_fact d key (num n) (bool false) (inl k, f) = rw k refl
  equals_fact d key (num n) (bool true) (inr k, f) = rw k refl
  equals_fact d key (num n) (bool false) (inr k, f) = rw k refl
  equals_fact d key (num n) (str t) (inl k, f) = rw k refl
  equals_fact d key (num n) (str t) (inr k, f) = rw k refl
  equals_fact d key (num n) (num m) (inl k, f) = rw (k, f op_eq (h.to_float m) (whole m)) refl
  equals_fact d key (num n) (num m) (inr k, f) = rw (k, f op_eq (h.to_float m) (whole m)) refl
  equals_fact d key (num n) _ f = refl
  equals_fact d key (slice vs) (bool true) f = rw (f.0) refl
  equals_fact d key (slice vs) (bool false) f = rw (f.0) refl
  equals_fact d key (slice vs) (str t) f = rw (f.0) refl
  equals_fact d key (slice vs) (num n) f = rw (f.0) refl
  equals_fact d key (slice vs) _ f = refl
  equals_fact d key (time t) y f = absurd f
  equals_fact d key (bytes s) y f = absurd f
  equals_fact d key (strings ss) y f = absurd f
  equals_fact d key (conditions cs) y f = absurd f
  equals_fact d key (single c) y f = absurd f
  equals_fact d key (other o) y f = absurd f

  -- the outcome of Compare, under an operator
  abbrev pub meets : FilterOp → Any h → Any h → Bool
  meets op v y = elim (compare_normal h v y) [ some o ↦ ordered h op o | none ↦ false ]

  -- whether an operator is one of order: its meaning is that of the outcome of a comparison
  abbrev pub IsOrdered : FilterOp → Type 0
  IsOrdered op =
      ((s t : String) → text_meets h op s t ≡ ordered h op (compare_text s t))
      × ((a x : h.floats.Float) → number_meets h op a x ≡ ordered h op (h.floats.cmp a x))

  pub ordered_fact :
      (d : q.Document) (key : String) (op : FilterOp) (v y : Any h)
      → IsOrdered op
      → Fact h q d key v
      → is_true (evaluate_clause q d (ordered_normal h key y op)) ≡ meets op v y
  unfolding evaluate_clause compare_normal float
  ordered_fact d key op null (str t) o f = rw f refl
  ordered_fact d key op null (num n) o f = rw f refl
  ordered_fact d key op null _ o f = refl
  ordered_fact d key op (bool true) (str t) o f = rw f refl
  ordered_fact d key op (bool false) (str t) o f = rw f refl
  ordered_fact d key op (bool true) (num n) o f = rw f refl
  ordered_fact d key op (bool false) (num n) o f = rw f refl
  ordered_fact d key op (bool b) _ o f = refl
  ordered_fact d key op (str s) (str t) o f = rw (f.0, f.1 op t) (is_true-some _ ∙ o.0 s t)
  ordered_fact d key op (str s) (num n) o f = rw (f.0) refl
  ordered_fact d key op (str s) _ o f = refl
  ordered_fact d key op (num n) (str t) o (inl k, f) = rw k refl
  ordered_fact d key op (num n) (str t) o (inr k, f) = rw k refl
  ordered_fact d key op (num n) (num m) o (inl k, f) =
      rw (k, f op (h.to_float m) (whole m)) (is_true-some _ ∙ o.1 (h.to_float n) (h.to_float m))
  ordered_fact d key op (num n) (num m) o (inr k, f) =
      rw (k, f op (h.to_float m) (whole m)) (is_true-some _ ∙ o.1 (h.to_float n) (h.to_float m))
  ordered_fact d key op (num n) _ o f = refl
  ordered_fact d key op (slice vs) (str t) o f = rw (f.0) refl
  ordered_fact d key op (slice vs) (num n) o f = rw (f.0) refl
  ordered_fact d key op (slice vs) _ o f = refl
  ordered_fact d key op (time t) y o f = absurd f
  ordered_fact d key op (bytes s) y o f = absurd f
  ordered_fact d key op (strings ss) y o f = absurd f
  ordered_fact d key op (conditions cs) y o f = absurd f
  ordered_fact d key op (single c) y o f = absurd f
  ordered_fact d key op (other x) y o f = absurd f

  pub element_fact :
      (e : q.Element) (v y : Any h)
      → ElementFact h q e v
      → element_holds q e (element_normal h y) ≡ some (equal_normal h v y)
  unfolding element_holds equal_normal float same_bool
  element_fact e null (bool true) f = rw f refl
  element_fact e null (bool false) f = rw f refl
  element_fact e null (str t) f = rw f refl
  element_fact e null (num n) f = rw f refl
  element_fact e null _ f = refl
  element_fact e (bool true) (bool true) f = rw f refl
  element_fact e (bool true) (bool false) f = rw f refl
  element_fact e (bool false) (bool true) f = rw f refl
  element_fact e (bool false) (bool false) f = rw f refl
  element_fact e (bool true) (str t) f = rw f refl
  element_fact e (bool false) (str t) f = rw f refl
  element_fact e (bool true) (num n) f = rw f refl
  element_fact e (bool false) (num n) f = rw f refl
  element_fact e (bool b) _ f = refl
  element_fact e (str s) (bool true) f = rw (f.0) refl
  element_fact e (str s) (bool false) f = rw (f.0) refl
  element_fact e (str s) (str t) f = rw (f.0, f.1 t) refl
  element_fact e (str s) (num n) f = rw (f.0) refl
  element_fact e (str s) _ f = refl
  element_fact e (num n) (bool true) (inl k, f) = rw k refl
  element_fact e (num n) (bool false) (inl k, f) = rw k refl
  element_fact e (num n) (bool true) (inr k, f) = rw k refl
  element_fact e (num n) (bool false) (inr k, f) = rw k refl
  element_fact e (num n) (str t) (inl k, f) = rw k refl
  element_fact e (num n) (str t) (inr k, f) = rw k refl
  element_fact e (num n) (num m) (inl k, f) = rw (k, f (h.to_float m) (whole m)) refl
  element_fact e (num n) (num m) (inr k, f) = rw (k, f (h.to_float m) (whole m)) refl
  element_fact e (num n) _ f = refl
  element_fact e (slice vs) (bool true) f = rw f refl
  element_fact e (slice vs) (bool false) f = rw f refl
  element_fact e (slice vs) (str t) f = rw f refl
  element_fact e (slice vs) (num n) f = rw f refl
  element_fact e (slice vs) _ f = refl
  element_fact e (time t) y f = absurd f
  element_fact e (bytes s) y f = absurd f
  element_fact e (strings ss) y f = absurd f
  element_fact e (conditions cs) y f = absurd f
  element_fact e (single c) y f = absurd f
  element_fact e (other o) y f = absurd f
