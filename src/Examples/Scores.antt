-- ===== src/Examples/Scores.antt =====
-- Scores in halves: an instance of the floating-point interface, for the examples.
use Prim.Native.Nat.{◌/◌}
use amoxtli.Common.{◌≡◌, refl, true, false, ℕ, ◌+◌, ◌*◌, compare, Ordering, ltb, leb, ◌=?◌, arith}
use amoxtli.Common.Sort.{flip}
use amoxtli.Floats.{Floats}

pub ltb_asymm : (a b : ℕ) → ltb a b ≡ true → ltb b a ≡ false
ltb_asymm a b h = ground arith

pub ltb_irrefl : (a : ℕ) → ltb a a ≡ false
ltb_irrefl a = ground arith

pub same_sym : (a b : ℕ) → (a =? b) ≡ (b =? a)
same_sym a b = ground arith

pub compare-flip : (a b : ℕ) → compare b a ≡ flip (compare a b)
compare-flip a b = ground arith

pub compare_trans :
    (a b c : ℕ) → compare a b ≡ Ordering.lt → compare b c ≡ Ordering.lt → compare a c ≡ Ordering.lt
compare_trans a b c p q = ground arith

pub compare_left : (a b c : ℕ) → compare a b ≡ Ordering.eq → compare a c ≡ compare b c
compare_left a b c h = ground arith

abbrev pub halves : Floats
halves = record {
  Float = ℕ;
  zero = 0;
  half = 1;
  one = 2;
  lt = ltb;
  le = leb;
  same = ◌=?◌;
  of_int = λ n. 2 * n;
  add = ◌+◌;
  quot = λ a b. 2 * a / b;
  cmp = compare;
  zero-lt-one = refl;
  half_bounds = (refl, refl);
  lt_asymm = ltb_asymm;
  lt_irrefl = ltb_irrefl;
  same_comm = same_sym;
  cmp-flip = compare-flip;
  cmp_trans = compare_trans;
  cmp_eq_left = compare_left;
}
