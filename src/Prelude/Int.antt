-- ===== src/Prelude/Int.antt =====
-- Signed integers over the native numbers, and Go's int64: arithmetic wraps modulo 2 ^ 64 in
-- two's complement.
use Prim.Native.Nat.{ℕ, suc, ◌+◌, ◌-◌, ◌*◌, ◌%◌, ◌≤◌, ◌<◌, min}
use mathlib.Core.Logic.{◌↔◌}
use mathlib.Core.Path.{◌≡◌}
use mathlib.Core.Bool.{Bool, true}
use native.Mathlib.Omega.{arith}
use bigoci.Prelude.Tests.{ltb, leb, ◌==◌, if◌then◌else◌}

-- `negsuc n` is -(n + 1).
pub data ℤ : Type 0 where
  pos : ℕ → ℤ
  negsuc : ℕ → ℤ

abbrev pub pos_part : ℤ → ℕ
pos_part (pos n) = n
pos_part (negsuc n) = 0

abbrev pub neg_part : ℤ → ℕ
neg_part (pos n) = 0
neg_part (negsuc n) = suc n

infix 50 ◌≤ℤ◌
abbrev pub ◌≤ℤ◌ : ℤ → ℤ → Type 0
a ≤ℤ b = pos_part a + neg_part b ≤ pos_part b + neg_part a

abbrev pub ltb_ℤ : ℤ → ℤ → Bool
ltb_ℤ a b = ltb (pos_part a + neg_part b) (pos_part b + neg_part a)

abbrev pub leb_ℤ : ℤ → ℤ → Bool
leb_ℤ a b = leb (pos_part a + neg_part b) (pos_part b + neg_part a)

infix 50 ◌==ℤ◌
abbrev pub ◌==ℤ◌ : ℤ → ℤ → Bool
a ==ℤ b = (pos_part a + neg_part b) == (pos_part b + neg_part a)

abbrev pub min_ℤ : ℤ → ℤ → ℤ
min_ℤ a b = if ltb_ℤ b a then b else a

abbrev pub max_ℤ : ℤ → ℤ → ℤ
max_ℤ a b = if ltb_ℤ a b then b else a

-- 2 ^ 63 - 1, the largest int64
abbrev pub max_int64 : ℕ
max_int64 = 9223372036854775807

-- the 64-bit pattern of an int64
abbrev pub bits : ℤ → ℕ
bits (pos n) = n % 18446744073709551616
bits (negsuc n) = 18446744073709551615 - n % 18446744073709551616

-- the int64 that a bit pattern stands for
abbrev pub of_bits : ℕ → ℤ
of_bits n =
    let m = n % 18446744073709551616 in
    if ltb m 9223372036854775808 then pos m else negsuc (18446744073709551615 - m)

unfoldable pub add64 : ℤ → ℤ → ℤ
add64 a b = of_bits (bits a + bits b)

unfoldable pub sub64 : ℤ → ℤ → ℤ
sub64 a b = of_bits (bits a + (18446744073709551616 - bits b))

unfoldable pub mul64 : ℤ → ℤ → ℤ
mul64 a b = of_bits (bits a * bits b)

pub of_bits_small : (n : ℕ) → n ≤ max_int64 → of_bits n ≡ pos n
of_bits_small n h = ground arith

pub add64_small : (a b : ℕ) → a + b ≤ max_int64 → add64 (pos a) (pos b) ≡ pos (a + b)
unfolding add64
add64_small a b h = ground arith

pub sub64_small : (a b : ℕ) → b ≤ a → a ≤ max_int64 → sub64 (pos a) (pos b) ≡ pos (a - b)
unfolding sub64
sub64_small a b h k = ground arith

bits_small : (n : ℕ) → n ≤ max_int64 → bits (pos n) ≡ n
bits_small n h = omega arith

pub mul64_small :
    (a b : ℕ)
    → a ≤ max_int64
    → b ≤ max_int64
    → a * b ≤ max_int64
    → mul64 (pos a) (pos b) ≡ pos (a * b)
unfolding mul64
mul64_small a b ha hb h = rw (bits_small a ha, bits_small b hb) (of_bits_small (a * b) h)

pub min_ℤ-pos : (a b : ℕ) → min_ℤ (pos a) (pos b) ≡ pos (min a b)
min_ℤ-pos a b = ground arith

pub bits_lt : (a : ℤ) → bits a < 18446744073709551616
bits_lt (pos n) = omega arith
bits_lt (negsuc n) = omega arith

bits-of_bits : (n : ℕ) → bits (of_bits n) ≡ n % 18446744073709551616
bits-of_bits n = ground arith

-- The pattern of a sum is the sum of the patterns modulo 2 ^ 64.
pub bits-add64 : (a b : ℤ) → bits (add64 a b) ≡ (bits a + bits b) % 18446744073709551616
unfolding add64
bits-add64 a b = bits-of_bits (bits a + bits b)

pub bits_pos : (n : ℕ) → n ≤ max_int64 → bits (pos n) ≡ n
bits_pos n h = omega arith

pub ==ℤ_iff : (a b : ℤ) → ((a ==ℤ b) ≡ true) ↔ (a ≡ b)
==ℤ_iff (pos a) (pos b) = ground arith
==ℤ_iff (pos a) (negsuc b) = ground arith
==ℤ_iff (negsuc a) (pos b) = ground arith
==ℤ_iff (negsuc a) (negsuc b) = ground arith
