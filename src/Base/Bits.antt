-- ===== src/Base/Bits.antt =====
-- `&` with the mask of a hexadecimal digit as a remainder, for sha1wrap.c.
use Prim.Native.Nat.{ℕ, zero, suc, ◌/◌, ◌%◌, ◌≤◌, min, bit_and, digits, bit_and-bitwise}
use mathlib.Core.Path.{◌≡◌, refl}
use native.Mathlib.Nat.{le_refl}
use native.Mathlib.Omega.{arith}

-- The digit-wise minimum of `a` and a mask, with `n` digits at most to visit.
abbrev masked : ℕ → ℕ → ℕ → ℕ
masked n a mask = digits (λ y. 0) min n a mask

masked-no_bit : (n a : ℕ) → a ≤ n → masked n a 0 ≡ 0
masked-no_bit zero zero h = refl
masked-no_bit zero (suc a) h = absurd (omega arith)
masked-no_bit (suc n) zero h = refl
masked-no_bit (suc n) (suc a) h = omega (arith, masked-no_bit n (suc a / 2) (omega arith))

masked-one_bit : (n a : ℕ) → a ≤ n → masked n a 1 ≡ a % 2
masked-one_bit zero zero h = refl
masked-one_bit zero (suc a) h = absurd (omega arith)
masked-one_bit (suc n) zero h = refl
masked-one_bit (suc n) (suc a) h = omega (arith, masked-no_bit n (suc a / 2) (omega arith))

masked-two_bits : (n a : ℕ) → a ≤ n → masked n a 3 ≡ a % 4
masked-two_bits zero zero h = refl
masked-two_bits zero (suc a) h = absurd (omega arith)
masked-two_bits (suc n) zero h = refl
masked-two_bits (suc n) (suc a) h = omega (arith, masked-one_bit n (suc a / 2) (omega arith))

masked-three_bits : (n a : ℕ) → a ≤ n → masked n a 7 ≡ a % 8
masked-three_bits zero zero h = refl
masked-three_bits zero (suc a) h = absurd (omega arith)
masked-three_bits (suc n) zero h = refl
masked-three_bits (suc n) (suc a) h = omega (arith, masked-two_bits n (suc a / 2) (omega arith))

masked-four_bits : (n a : ℕ) → a ≤ n → masked n a 15 ≡ a % 16
masked-four_bits zero zero h = refl
masked-four_bits zero (suc a) h = absurd (omega arith)
masked-four_bits (suc n) zero h = refl
masked-four_bits (suc n) (suc a) h = omega (arith, masked-three_bits n (suc a / 2) (omega arith))

-- A mask of the four low bits is the remainder by 16.
pub bit_and_fifteen : (a : ℕ) → bit_and a 15 ≡ a % 16
bit_and_fifteen a = simp bit_and-bitwise (masked-four_bits a a (le_refl a))
