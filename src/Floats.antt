-- ===== src/Floats.antt =====
-- What the program takes from Go's `float64`: the type, its constants, its operators and
-- `cmp.Compare`. They are parameters; the laws are those of the Go specification and of the package
-- `cmp`, and hold with NaN and the infinities among the values.
use amoxtli.Common.{◌≡◌, Bool, true, false, ℕ, Ordering}
use amoxtli.Common.Sort.{flip}

pub record Floats : Type 1 where
  pub Float : Type 0
  pub zero : Float
  pub half : Float
  pub one : Float
  -- the operators `<`, `<=` and `==`
  pub lt : Float → Float → Bool
  pub le : Float → Float → Bool
  pub same : Float → Float → Bool
  -- `float64(n)` of an int, `+` and `/`
  pub of_int : ℕ → Float
  pub add : Float → Float → Float
  pub quot : Float → Float → Float
  -- `cmp.Compare`, a total order in which NaN comes first
  pub cmp : Float → Float → Ordering
  pub zero-lt-one : lt zero one ≡ true
  pub half_bounds : (lt half zero ≡ false) × (lt one half ≡ false)
  pub lt_asymm : (a b : Float) → lt a b ≡ true → lt b a ≡ false
  pub lt_irrefl : (a : Float) → lt a a ≡ false
  pub same_comm : (a b : Float) → same a b ≡ same b a
  pub cmp-flip : (a b : Float) → cmp b a ≡ flip (cmp a b)
  pub cmp_trans :
      (a b c : Float) → cmp a b ≡ Ordering.lt → cmp b c ≡ Ordering.lt → cmp a c ≡ Ordering.lt
  pub cmp_eq_left : (a b c : Float) → cmp a b ≡ Ordering.eq → cmp a c ≡ cmp b c
