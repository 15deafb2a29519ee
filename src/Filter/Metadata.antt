-- ===== src/Filter/Metadata.antt =====
-- internal/filternorm: the normal form of stored metadata, under filters.
use mathlib.Core.Path.{ap₂}
use mathlib.Core.Option
use amoxtli.Common.{
  ◌≡◌, refl, ap, false, not, ◌&&◌, ◌||◌, String, none, some, List, [], ◌∷◌, map, ◌==◌, Option-cases,
  Bool-cases, arith, inl, inr,
}
use amoxtli.Common.Keyed.{Keyed, lookup}
use amoxtli.Common.Lists.{exists_in}
use amoxtli.Filter.Value.{
  FilterOp, op_eq, op_ne, op_in, op_any, op_exists, op_or, Value, null, bool, num, str, time, slice,
  conditions, condition, no_conditions, add_condition, value_list, to_values,
}
use amoxtli.Filter.Norm.{
  Host, Any, Metadata, value, elements, normal_entry, normal_entries, metadata, equal_normal, equal,
  compare_normal, compare_values,
}
use amoxtli.Filter.Match.{
  Cond, Filter, read, to_slice, shares_element, matches_value, matches_key, matches_condition,
  matches_some, matches,
}

pub value_list-to_values :
    {N T O : Type 0} (vs : List (Value N T O)) → value_list (to_values vs) ≡ vs
unfolding value_list to_values
value_list-to_values [] = refl
value_list-to_values (v ∷ vs) = ap (λ l. v ∷ l) (value_list-to_values vs)

module _ (h : Host) where
  -- The normal form of a value is its own normal form.
  pub value_idem : (v : Any h) → value h (value h v) ≡ value h v
  unfolding value
  value_idem (time t) = let (u, parsed, same) = h.reparse t in rw parsed (ap str same)
  value_idem (str s) = elim (Option-cases (h.parse_time s)) [
    | inl e ↦ ground (arith, e)
    | inr (t, e) ↦ let (u, parsed, same) = h.reparse t in rw e (rw parsed (ap str same))
  ]
  value_idem null = refl
  value_idem _ = refl

  equal-value : (v x : Any h) → equal h (value h v) x ≡ equal h v x
  unfolding equal
  equal-value v x = ap (λ w. equal_normal h w (value h x)) (value_idem v)

  compare_values-value : (v x : Any h) → compare_values h (value h v) x ≡ compare_values h v x
  unfolding compare_values
  compare_values-value v x = ap (λ w. compare_normal h w (value h x)) (value_idem v)

  -- A value with elements equals nothing, and is not ordered.
  equal-elements :
      (v : Any h) (es : List (Any h)) (x : Any h) → elements h v ≡ some es → equal h v x ≡ false
  unfolding equal elements
  equal-elements null es x e = cc
  equal-elements (bool b) es x e = cc
  equal-elements (num n) es x e = cc
  equal-elements (str s) es x e = cc
  equal-elements (time t) es x e = cc
  equal-elements _ es x e = refl

  compare_values-elements :
      (v : Any h) (es : List (Any h)) (x : Any h)
      → elements h v ≡ some es
      → compare_values h v x ≡ none
  unfolding compare_values elements
  compare_values-elements null es x e = cc
  compare_values-elements (num n) es x e = cc
  compare_values-elements (str s) es x e = cc
  compare_values-elements (time t) es x e = cc
  compare_values-elements _ es x e = refl

  normal_entry_plain : (v : Any h) → elements h v ≡ none → normal_entry h v ≡ value h v
  unfolding normal_entry
  normal_entry_plain v e = rw (e, normal_entry)

  normal_entry-elements :
      (v : Any h) (es : List (Any h))
      → elements h v ≡ some es
      → normal_entry h v ≡ slice (to_values (map (value h) es))
  unfolding normal_entry
  normal_entry-elements v es e = rw (e, normal_entry)

  equal-normal_entry : (v x : Any h) → equal h (normal_entry h v) x ≡ equal h v x
  equal-normal_entry v x = elim (Option-cases (elements h v)) [
    | inl e ↦ rw (normal_entry_plain v e) (equal-value v x)
    | inr (es, e) ↦
        rw (normal_entry-elements v es e, equal-elements v es x e)
          (equal-elements (slice (to_values (map (value h) es)))
            (value_list (to_values (map (value h) es))) x (unfold elements in refl))
  ]

  compare_values-normal_entry :
      (v x : Any h) → compare_values h (normal_entry h v) x ≡ compare_values h v x
  compare_values-normal_entry v x = elim (Option-cases (elements h v)) [
    | inl e ↦ rw (normal_entry_plain v e) (compare_values-value v x)
    | inr (es, e) ↦
        rw (normal_entry-elements v es e, compare_values-elements v es x e)
          (compare_values-elements (slice (to_values (map (value h) es)))
            (value_list (to_values (map (value h) es))) x (unfold elements in refl))
  ]

  elements-value : (v : Any h) → elements h v ≡ none → elements h (value h v) ≡ none
  unfolding elements value
  elements-value (time t) e = refl
  elements-value (str s) e = refl
  elements-value _ e = e

  elements-normal_entry :
      (v : Any h) → elements h (normal_entry h v) ≡ Option.map (map (value h)) (elements h v)
  elements-normal_entry v = elim (Option-cases (elements h v)) [
    | inl e ↦ rw (normal_entry_plain v e, e) (elements-value v e)
    | inr (es, e) ↦
        rw (normal_entry-elements v es e, e)
          (unfold elements in ap some (value_list-to_values (map (value h) es)))
  ]

  exists_equal-value :
      (es : List (Any h)) (x : Any h)
      → exists_in (λ e. equal h e x) (map (value h) es) ≡ exists_in (λ e. equal h e x) es
  exists_equal-value [] x = refl
  exists_equal-value (e ∷ es) x = rw (equal-value e x, exists_equal-value es x)

  shares_element-value :
      (es candidates : List (Any h))
      → shares_element h (map (value h) es) candidates ≡ shares_element h es candidates
  unfolding shares_element
  shares_element-value es [] = refl
  shares_element-value es (c ∷ cs) = rw (exists_equal-value es c, shares_element-value es cs)

  exists_candidate :
      (v : Any h) (cs : List (Any h))
      → exists_in (λ c. equal h (normal_entry h v) c) cs ≡ exists_in (λ c. equal h v c) cs
  exists_candidate v [] = refl
  exists_candidate v (c ∷ cs) = rw (equal-normal_entry v c, exists_candidate v cs)

  matches_value-normal_entry :
      (op : FilterOp) (v operand : Any h)
      → matches_value h op (normal_entry h v) operand ≡ matches_value h op v operand
  unfolding matches_value
  matches_value-normal_entry op_eq v x = equal-normal_entry v x
  matches_value-normal_entry op_ne v x = ap not (equal-normal_entry v x)
  matches_value-normal_entry op_in v x = exists_candidate v (to_slice h x)
  matches_value-normal_entry op_any v x = elim (Option-cases (elements h v)) [
    | inl e ↦ rw (elements-normal_entry v, e, matches_value) refl
    | inr (es, e) ↦
        rw (elements-normal_entry v, e, matches_value) (shares_element-value es (to_slice h x))
  ]
  matches_value-normal_entry op_exists v x = refl
  matches_value-normal_entry op_or v x = refl
  matches_value-normal_entry _ v x = rw (compare_values-normal_entry v x, matches_value)

  lookup-normal_entries :
      (m : Keyed (Any h)) (key : String)
      → lookup key (normal_entries h m) ≡ Option.map (normal_entry h) (lookup key m)
  unfolding normal_entries
  lookup-normal_entries [] key = refl
  lookup-normal_entries ((k, v) ∷ rest) key = elim (Bool-cases (k == key)) [
    | inl e ↦ rw e refl
    | inr e ↦ rw e (lookup-normal_entries rest key)
  ]

  read-metadata :
      (meta : Metadata h) (key : String)
      → read h (metadata h meta) key ≡ Option.map (normal_entry h) (read h meta key)
  unfolding metadata
  read-metadata none key = refl
  read-metadata (some m) key = lookup-normal_entries m key

  matches_key-metadata :
      (key : String) (op : FilterOp) (operand : Any h) (meta : Metadata h)
      → matches_key h key op operand (metadata h meta) ≡ matches_key h key op operand meta
  unfolding matches_key
  matches_key-metadata key op_exists x meta = elim (Option-cases (read h meta key)) [
    | inl e ↦ rw (read-metadata meta key, e, matches_key) refl
    | inr (v, e) ↦ rw (read-metadata meta key, e, matches_key) refl
  ]
  matches_key-metadata key op x meta = elim (Option-cases (read h meta key)) [
    | inl e ↦ rw (read-metadata meta key, e, matches_key) refl
    | inr (v, e) ↦ rw (read-metadata meta key, e, matches_key) (matches_value-normal_entry op v x)
  ]

  mutual
    unfolding matches_condition

    matches_condition-metadata :
        (c : Cond h) (meta : Metadata h)
        → matches_condition h c (metadata h meta) ≡ matches_condition h c meta
    matches_condition-metadata (condition key op_or (conditions cs)) meta =
        matches_some-metadata cs meta
    matches_condition-metadata (condition key op_or operand) meta = refl
    matches_condition-metadata (condition key op operand) meta =
        matches_key-metadata key op operand meta

    matches_some-metadata :
        (cs : Filter h) (meta : Metadata h)
        → matches_some h cs (metadata h meta) ≡ matches_some h cs meta
    matches_some-metadata no_conditions meta = refl
    matches_some-metadata (add_condition c cs) meta =
        ap₂ ◌||◌ (matches_condition-metadata c meta) (matches_some-metadata cs meta)

  -- A filter gives the same verdict on metadata and on its normal form, the one that is stored,
  -- whatever operators, operands and nested alternatives it holds.
  pub matches-metadata :
      (f : Filter h) (meta : Metadata h) → matches h f (metadata h meta) ≡ matches h f meta
  unfolding matches
  matches-metadata no_conditions meta = refl
  matches-metadata (add_condition c cs) meta =
      ap₂ ◌&&◌ (matches_condition-metadata c meta) (matches-metadata cs meta)
