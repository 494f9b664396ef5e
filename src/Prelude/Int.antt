-- ===== src/Prelude/Int.antt =====
-- Go's `int` (64 bits, signed) where the code tests the sign. A value outside the range of `int64`
-- does not occur in the program: `inc64` and `wrap64` wrap as Go does.
use Prim.Native.Nat.{ℕ, zero, suc, ◌+◌, ◌-◌, ◌%◌, ◌^◌, ◌<◌}
use mathlib.Core.Path.{◌≡◌}
use mathlib.Core.Logic.{◌↔◌}
use mathlib.Core.Bool.{Bool, true, false, not}
use native.Mathlib.Omega.{arith}
use claude_ops.Prelude.Tests.{leb, ltb, ◌==◌, if◌then◌else◌}

-- `negsuc n` is -(n + 1).
pub data ℤ : Type 0 where
  pos : ℕ → ℤ
  negsuc : ℕ → ℤ

abbrev pub leb_ℤ : ℤ → ℤ → Bool
leb_ℤ (pos a) (pos b) = leb a b
leb_ℤ (pos a) (negsuc b) = false
leb_ℤ (negsuc a) (pos b) = true
leb_ℤ (negsuc a) (negsuc b) = leb b a

abbrev pub ltb_ℤ : ℤ → ℤ → Bool
ltb_ℤ a b = not (leb_ℤ b a)

abbrev pub eq_ℤ : ℤ → ℤ → Bool
eq_ℤ (pos a) (pos b) = a == b
eq_ℤ (negsuc a) (negsuc b) = a == b
eq_ℤ a b = false

abbrev pub is_positive : ℤ → Bool
is_positive a = ltb_ℤ (pos 0) a

-- The order of the integers, by the numbers on the two sides of zero.
infix 50 ◌≤ℤ◌
abbrev pub ◌≤ℤ◌ : ℤ → ℤ → Type 0
a ≤ℤ b = leb_ℤ a b ≡ true

abbrev pub max_int64 : ℕ
max_int64 = 2 ^ 63 - 1

-- x++ on an `int`.
unfoldable pub inc64 : ℤ → ℤ
inc64 (pos n) = if n == max_int64 then negsuc max_int64 else pos (n + 1)
inc64 (negsuc zero) = pos 0
inc64 (negsuc (suc n)) = negsuc n

-- An `int` after a sum or a product of numbers that are not negative.
unfoldable pub wrap64 : ℕ → ℤ
wrap64 n = let w = n % 2 ^ 64 in if ltb w (2 ^ 63) then pos w else negsuc (2 ^ 64 - 1 - w)

-- The value of a count that is not negative.
abbrev pub to_ℕ : ℤ → ℕ
to_ℕ (pos n) = n
to_ℕ (negsuc n) = 0

pub eq_ℤ_iff : (a b : ℤ) → (eq_ℤ a b ≡ true) ↔ (a ≡ b)
eq_ℤ_iff (pos a) b = ground arith
eq_ℤ_iff (negsuc a) b = ground arith

-- Below a bound that is itself an `int`, x++ does not wrap.
pub inc64_below : (a b : ℤ) → leb_ℤ b a ≡ false → b ≤ℤ pos max_int64 → inc64 a ≤ℤ b
unfolding inc64
inc64_below (pos n) b h k = ground arith
inc64_below (negsuc zero) b h k = ground arith
inc64_below (negsuc (suc n)) b h k = ground arith

pub inc64_pos : (a : ℕ) → a < max_int64 → inc64 (pos a) ≡ pos (a + 1)
unfolding inc64
inc64_pos a h = ground arith
