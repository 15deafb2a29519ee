-- ===== src/Common/Int.antt =====
-- Go's `int` where its sign matters: `negsuc n` is -(n + 1).
use Prim.Native.Nat.{ℕ, zero, suc, ◌+◌, ◌-◌, ◌*◌, ◌%◌, ◌<◌, ◌≤◌}
use mathlib.Core.Path.{◌≡◌}
use mathlib.Core.Bool.{Bool, true}
use native.Mathlib.Omega.{arith}
use amoxtli.Common.Tests.{if◌then◌else◌, ltb, leb}

pub data ℤ : Type 0 where
  pos : ℕ → ℤ
  negsuc : ℕ → ℤ

-- `if n <= 0 { n = d }`
abbrev pub positive_or : ℕ → ℤ → ℕ
positive_or d (pos zero) = d
positive_or d (pos (suc n)) = suc n
positive_or d (negsuc n) = d

-- `int` has 64 bits: an operation is that on their words.
abbrev pub word_size : ℕ
word_size = 18446744073709551616

-- the bits of an int
abbrev pub to_word : ℤ → ℕ
to_word (pos n) = n % word_size
to_word (negsuc n) = (word_size - 1) - n % word_size

unfoldable pub of_word : ℕ → ℤ
of_word w = if ltb w 9223372036854775808 then pos w else negsuc ((word_size - 1) - w)

-- `a + n` and `n * k`
unfoldable pub plus : ℤ → ℕ → ℤ
unfolding of_word
plus a n = of_word ((to_word a + n) % word_size)

unfoldable pub times : ℕ → ℕ → ℤ
unfolding of_word
times n k = of_word ((n * k) % word_size)

-- `a >= b`, `max(a, b)` and `min(a, b)`, against an int that is not negative
abbrev pub at_least : ℕ → ℤ → Bool
at_least n (pos m) = leb m n
at_least n (negsuc m) = true

-- a sum that fits is the sum
pub plus_fits : (a n : ℕ) → a + n < 9223372036854775808 → plus (pos a) n ≡ pos (a + n)
unfolding plus
plus_fits a n h = ground (arith, h)

-- no sum is more than it should be
pub plus_le : (a k n : ℕ) → plus (pos a) k ≡ pos n → n ≤ a + k
unfolding plus
plus_le a k n h = ground (arith, h)
