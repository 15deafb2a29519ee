-- ===== src/Filter/Canonical.antt =====
-- index/filter.go: CanonicalBytes. strconv.Quote, strconv.FormatFloat with format 'g' and fmt's
-- `%#v` are parameters; a byte string is a text, and the byte 0 is written "\0".
use mathlib.Core.List.{Perm}
use mathlib.Core.List.Perm
use Prim.Native.String.{◌++◌ as cat, compare as compare_text}
use amoxtli.Common.{◌≡◌, refl, ap, true, false, String, Option, none, some, List, [], ◌∷◌, map}
use amoxtli.Common.Sort.{sort, text-IsOrder, sort_of_perm}
use amoxtli.Filter.Value.{
  FilterOp, op_eq, op_ne, op_gt, op_gte, op_lt, op_lte, op_in, op_any, op_exists, op_or, null, bool,
  str, condition, conditions, no_conditions, add_condition, to_conditions, slice, to_values,
}
use amoxtli.Filter.Norm.{Host, Any, value, float}
use amoxtli.Filter.Match.{Cond, Filter, to_slice}
use amoxtli.Filter.Build.{in_any, has_any, either}
use amoxtli.Filter.Metadata.{value_list-to_values}

-- strings.Join
unfoldable pub join : String → List String → String
join sep [] = ""
join sep (x ∷ []) = x
join sep (x ∷ y ∷ rest) = cat x (cat sep (join sep (y ∷ rest)))

-- slices.Sort on strings
unfoldable pub sort_texts : List String → List String
unfolding sort
sort_texts = sort compare_text

-- the text of a FilterOp
unfoldable pub op_text : FilterOp → String
op_text op_eq = "eq"
op_text op_ne = "ne"
op_text op_gt = "gt"
op_text op_gte = "gte"
op_text op_lt = "lt"
op_text op_lte = "lte"
op_text op_in = "in"
op_text op_any = "any"
op_text op_exists = "exists"
op_text op_or = "or"

pub record Printer (h : Host) : Type 0 where
  pub quote : String → String
  pub format_float : h.floats.Float → String
  pub show : Any h → String

sort_texts_of_perm : {xs ys : List String} → Perm xs ys → sort_texts xs ≡ sort_texts ys
unfolding sort_texts
sort_texts_of_perm q = sort_of_perm compare_text text-IsOrder q

module _ (h : Host) (p : Printer h) where
  -- the type switch of canonicalScalar
  scalar_text : Any h → String
  scalar_text (str s) = cat "s" (p.quote s)
  scalar_text (bool true) = "btrue"
  scalar_text (bool false) = "bfalse"
  scalar_text null = "z"
  scalar_text v = cat "?" (p.quote (p.show v))

  unfoldable pub canonical_scalar : Any h → String
  unfolding scalar_text float
  canonical_scalar v = elim (float h (value h v)) [
    | some x ↦ cat "n" (p.format_float x)
    | none ↦ scalar_text (value h v)
  ]

  -- the operand of OpIn and OpAny
  unfoldable pub canonical_set : Any h → String
  unfolding sort_texts to_slice canonical_scalar join
  canonical_set v = cat "[" (cat (join "," (sort_texts (map canonical_scalar (to_slice h v)))) "]")

  unfoldable pub canonical_operand : FilterOp → Any h → String
  unfolding canonical_set
  canonical_operand op_in v = canonical_set v
  canonical_operand op_any v = canonical_set v
  canonical_operand op v = canonical_scalar v

  unfoldable pub alternatives_text : List String → String
  unfolding sort_texts join
  alternatives_text texts =
      cat "\0" (cat "or" (cat "\0" (cat "[" (cat (join "," (sort_texts (map p.quote texts))) "]"))))

  unfoldable mutual
    unfolding alternatives_text canonical_operand op_text

    -- the method `canonical` of Condition
    pub canonical : Cond h → String
    canonical (condition key op_or (conditions cs)) = alternatives_text (canonicals cs)
    canonical (condition key op_or operand) = alternatives_text []
    canonical (condition key op operand) =
        cat (p.quote key) (cat "\0" (cat (op_text op) (cat "\0" (canonical_operand op operand))))

    pub canonicals : Filter h → List String
    canonicals no_conditions = []
    canonicals (add_condition c cs) = canonical c ∷ canonicals cs

  -- CanonicalBytes: none is the nil slice
  unfoldable pub canonical_bytes : Filter h → Option String
  unfolding canonicals sort_texts join
  canonical_bytes no_conditions = none
  canonical_bytes (add_condition c cs) =
      some (join "\n" (sort_texts (canonicals (add_condition c cs))))

  canonicals-to_conditions : (cs : List (Cond h)) → canonicals (to_conditions cs) ≡ map canonical cs
  unfolding canonicals to_conditions
  canonicals-to_conditions [] = refl
  canonicals-to_conditions (c ∷ cs) = ap (λ l. canonical c ∷ l) (canonicals-to_conditions cs)

  canonical_bytes_of_perm :
      {cs ds : List (Cond h)}
      → Perm cs ds
      → canonical_bytes (to_conditions cs) ≡ canonical_bytes (to_conditions ds)
  unfolding canonical_bytes to_conditions
  canonical_bytes_of_perm {cs = []} {ds = []} q = refl
  canonical_bytes_of_perm {cs = c ∷ cs} {ds = []} q = cc (Perm.eq-nil q)
  canonical_bytes_of_perm {cs = []} {ds = d ∷ ds} q = cc (Perm.nil-eq q)
  canonical_bytes_of_perm {cs = c ∷ cs} {ds = d ∷ ds} q =
      rw (canonicals-to_conditions cs, canonicals-to_conditions ds)
        (ap (λ ts. some (join "\n" ts)) (sort_texts_of_perm (Perm.map canonical q)))

  alternatives_of_perm :
      {cs ds : List (Cond h)}
      → Perm cs ds
      → alternatives_text (canonicals (to_conditions cs))
        ≡ alternatives_text (canonicals (to_conditions ds))
  unfolding alternatives_text
  alternatives_of_perm {cs} {ds} q =
      rw (canonicals-to_conditions cs, canonicals-to_conditions ds)
        (ap (λ ts. cat "\0" (cat "or" (cat "\0" (cat "[" (cat (join "," ts) "]")))))
          (sort_texts_of_perm (Perm.map p.quote (Perm.map canonical q))))

  canonical_set_of_perm :
      {xs ys : List (Any h)}
      → Perm xs ys
      → canonical_set (slice (to_values xs)) ≡ canonical_set (slice (to_values ys))
  unfolding canonical_set
  canonical_set_of_perm {xs} {ys} r =
      rw (value_list-to_values xs, value_list-to_values ys)
        (ap (λ ts. cat "[" (cat (join "," ts) "]"))
          (sort_texts_of_perm (Perm.map canonical_scalar r)))

  -- The encoding does not depend on the order in which a filter declares its
  -- conditions, a disjunction its alternatives, or a membership test its candidates.
  pub canonical_of_perm :
      {cs ds : List (Cond h)} {xs ys : List (Any h)} (key : String)
      → Perm cs ds
      → Perm xs ys
      → (canonical_bytes (to_conditions cs) ≡ canonical_bytes (to_conditions ds))
        × (canonical (either cs) ≡ canonical (either ds))
        × (canonical (in_any key xs) ≡ canonical (in_any key ys))
        × (canonical (has_any key xs) ≡ canonical (has_any key ys))
  unfolding either in_any has_any canonical
  canonical_of_perm key q r = (
    canonical_bytes_of_perm q,
    alternatives_of_perm q,
    ap (λ t. cat (p.quote key) (cat "\0" (cat "in" (cat "\0" t)))) (canonical_set_of_perm r),
    ap (λ t. cat (p.quote key) (cat "\0" (cat "any" (cat "\0" t)))) (canonical_set_of_perm r),
  )
