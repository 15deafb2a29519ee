-- ===== src/Filter/Laws.antt =====
-- index/filter.go: the operators of filters, in terms of one another.
use mathlib.Core.Option
use amoxtli.Common.{
  ◌≡◌, refl, ap, Bool, false, not, ◌&&◌, ◌||◌, String, none, some, List, [], ◌∷◌, map, Option-cases,
  eq_iff, arith, inl, inr, is_some,
}
use amoxtli.Common.Sort.{flip, text-IsOrder}
use amoxtli.Common.Lists.{exists_in}
use amoxtli.Filter.Value.{
  null, bool, num, str, time, bytes, strings, slice, conditions, single, other, to_conditions,
}
use amoxtli.Filter.Norm.{
  Host, Any, Metadata, value, equal_normal, equal, compare_normal, compare_values,
}
use amoxtli.Filter.Match.{read, matches_key, matches_condition, matches_some}
use amoxtli.Filter.Build.{eq, ne, gt, gte, lt, lte, in_any, either, exists, not_exists}
use amoxtli.Filter.Metadata.{value_list-to_values}

module _ (h : Host) where
  equal_normal_comm : (a b : Any h) → equal_normal h a b ≡ equal_normal h b a
  unfolding equal_normal
  equal_normal_comm (num a) (num b) = h.floats.same_comm (h.to_float a) (h.to_float b)
  equal_normal_comm (str s) (str t) = ground (arith, eq_iff s t, eq_iff t s)
  equal_normal_comm (bool a) (bool b) = ground arith
  equal_normal_comm null null = refl
  equal_normal_comm (time t) null = refl
  equal_normal_comm (bytes s) null = refl
  equal_normal_comm (strings ss) null = refl
  equal_normal_comm (slice vs) null = refl
  equal_normal_comm (conditions cs) null = refl
  equal_normal_comm (single c) null = refl
  equal_normal_comm (other o) null = refl
  equal_normal_comm _ _ = refl

  compare_normal-flip :
      (a b : Any h) → compare_normal h b a ≡ Option.map flip (compare_normal h a b)
  unfolding compare_normal
  compare_normal-flip (num a) (num b) = ap some (h.floats.cmp-flip (h.to_float a) (h.to_float b))
  compare_normal-flip (str s) (str t) = ap some (text-IsOrder.flips s t)
  compare_normal-flip (bool b) null = refl
  compare_normal-flip null null = refl
  compare_normal-flip (time t) null = refl
  compare_normal-flip (bytes s) null = refl
  compare_normal-flip (strings ss) null = refl
  compare_normal-flip (slice vs) null = refl
  compare_normal-flip (conditions cs) null = refl
  compare_normal-flip (single c) null = refl
  compare_normal-flip (other o) null = refl
  compare_normal-flip _ _ = refl

  -- Equality of values under filter semantics is symmetric, and the order is reversed when its
  -- operands are.
  pub comparisons_symmetric :
      (a b : Any h)
      → (equal h a b ≡ equal h b a)
        × (compare_values h b a ≡ Option.map flip (compare_values h a b))
  unfolding equal compare_values
  comparisons_symmetric a b =
      (equal_normal_comm (value h a) (value h b), compare_normal-flip (value h a) (value h b))

  some-eq-exists :
      (key : String) (v : Any h) (xs : List (Any h)) (meta : Metadata h)
      → read h meta key ≡ some v
      → matches_some h (to_conditions (map (eq key) xs)) meta ≡ exists_in (λ x. equal h v x) xs
  unfolding matches_condition eq to_conditions
  some-eq-exists key v [] meta e = refl
  some-eq-exists key v (x ∷ xs) meta e =
      rw (e, matches_key) (ap (λ b. equal h v x || b) (some-eq-exists key v xs meta e))

  some_eq-absent :
      (key : String) (xs : List (Any h)) (meta : Metadata h)
      → read h meta key ≡ none
      → matches_some h (to_conditions (map (eq key) xs)) meta ≡ false
  unfolding matches_condition eq to_conditions
  some_eq-absent key [] meta e = refl
  some_eq-absent key (x ∷ xs) meta e = rw (e, matches_key) (some_eq-absent key xs meta e)

  -- A membership test is the disjunction of the equality tests with each candidate.
  pub in_any-eq-either :
      (key : String) (xs : List (Any h)) (meta : Metadata h)
      → matches_condition h (in_any key xs) meta
        ≡ matches_condition h (either (map (eq key) xs)) meta
  unfolding in_any either matches_condition
  in_any-eq-either key xs meta = elim (Option-cases (read h meta key)) [
    | inl e ↦ rw (some_eq-absent key xs meta e) (rw (e, matches_key) refl)
    | inr (v, e) ↦
        rw (some-eq-exists key v xs meta e)
          (rw (e, matches_key) (ap (λ l. exists_in (λ x. equal h v x) l) (value_list-to_values xs)))
  ]

  -- Whether a key is present with a value that is ordered against the operand.
  abbrev pub comparable : String → Any h → Metadata h → Bool
  comparable key x meta = elim (read h meta key) [
    | none ↦ false
    | some v ↦ is_some (compare_values h v x)
  ]

  -- A key that is present orders against an operand, or it does not: where it does, exactly one of
  -- Gt and Lte matches, and exactly one of Lt and Gte; where it does not, or the key is
  -- absent, none of the four does.
  pub ordered_operators :
      (key : String) (x : Any h) (meta : Metadata h)
      → ((matches_condition h (gt key x) meta || matches_condition h (lte key x) meta)
          ≡ comparable key x meta)
        × ((matches_condition h (gt key x) meta && matches_condition h (lte key x) meta) ≡ false)
        × ((matches_condition h (lt key x) meta || matches_condition h (gte key x) meta)
            ≡ comparable key x meta)
        × ((matches_condition h (lt key x) meta && matches_condition h (gte key x) meta) ≡ false)
  unfolding matches_condition gt gte lt lte
  ordered_operators key x meta = ground arith

  -- Ne asks for the key, like every operator but Exists: it matches exactly where the key is present
  -- and Eq does not match; NotExists is the negation of Exists.
  pub negations :
      (key : String) (x : Any h) (meta : Metadata h)
      → (matches_condition h (ne key x) meta
          ≡ (matches_condition h (exists key) meta && not (matches_condition h (eq key x) meta)))
        × (matches_condition h (not_exists key) meta ≡ not (matches_condition h (exists key) meta))
  unfolding matches_condition ne eq exists not_exists
  negations key x meta = ground arith
