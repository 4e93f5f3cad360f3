-- ===== src/Common/Bits.antt =====
-- Single bits of a mask: what `m | (1 << i)` sets and what `m & (1 << i)` reads.
use Prim.Native.Nat.{
  ℕ, zero, suc, ◌+◌, ◌*◌, ◌/◌, ◌%◌, ◌^◌, ◌≤◌, min, max, bit_and, bit_or, digits, bitwise,
  bit_and-bitwise, bit_or-bitwise,
}
use mathlib.Core.Path.{◌≡◌, refl, sym, ap, ◌∙◌}
use mathlib.Core.Bool.{Bool, false, not, ◌||◌}
use native.Mathlib.Omega.{arith}
use native.Mathlib.Nat.{pow-suc}
use shigoku.Common.Tests.{◌==◌}

-- More fuel than the first number has digits changes nothing.
module _ (rest : ℕ → ℕ) (digit : ℕ → ℕ → ℕ) where
  digits_enough : (m n a b : ℕ) → a ≤ m → a ≤ n → digits rest digit m a b ≡ digits rest digit n a b
  digits_enough zero zero zero b p q = refl
  digits_enough zero zero (suc a) b p q = absurd (omega arith)
  digits_enough zero (suc n) zero b p q = refl
  digits_enough zero (suc n) (suc a) b p q = absurd (omega arith)
  digits_enough (suc m) zero zero b p q = refl
  digits_enough (suc m) zero (suc a) b p q = absurd (omega arith)
  digits_enough (suc m) (suc n) zero b p q = refl
  digits_enough (suc m) (suc n) (suc a) b p q =
      rw (digits_enough m n (suc a / 2) (b / 2) (omega arith) (omega arith))

  lowest_digit :
      (a b : ℕ)
      → bitwise rest digit (suc a) b
        ≡ bitwise rest digit (suc a / 2) (b / 2) * 2 + digit (suc a % 2) (b % 2)
  lowest_digit a b =
      omega (arith, digits_enough a (suc a / 2) (suc a / 2) (b / 2) (omega arith) (omega arith))

bit_or_lowest : (a b : ℕ) → bit_or a b ≡ bit_or (a / 2) (b / 2) * 2 + max (a % 2) (b % 2)
bit_or_lowest zero b = simp bit_or-bitwise (omega arith)
bit_or_lowest (suc a) b = simp bit_or-bitwise (lowest_digit (λ y. y) max a b)

bit_and_lowest : (a b : ℕ) → bit_and a b ≡ bit_and (a / 2) (b / 2) * 2 + min (a % 2) (b % 2)
bit_and_lowest zero b = simp bit_and-bitwise (omega arith)
bit_and_lowest (suc a) b = simp bit_and-bitwise (lowest_digit (λ y. 0) min a b)

-- Bit i of a mask.
bit : ℕ → ℕ → Bool
bit m zero = m % 2 == 1
bit m (suc i) = bit (m / 2) i

bit-zero : (j : ℕ) → bit 0 j ≡ false
unfolding bit
bit-zero zero = refl
bit-zero (suc j) = bit-zero j

masked_by_none : (a n : ℕ) → a ≤ n → bit_and a 0 ≡ 0
masked_by_none zero n h = refl
masked_by_none (suc a) (suc n) h =
    let rest = masked_by_none (suc a / 2) n (omega arith) in
    omega (arith, bit_and_lowest (suc a) 0, rest)
masked_by_none (suc a) zero h = absurd (omega arith)

bit_or-zero_fuel : (n a : ℕ) → a ≤ n → bit_or a 0 ≡ a
bit_or-zero_fuel n zero h = refl
bit_or-zero_fuel zero (suc a) h = absurd (omega arith)
bit_or-zero_fuel (suc n) (suc a) h =
    omega (arith, bit_or_lowest (suc a) 0, bit_or-zero_fuel n (suc a / 2) (omega arith))

-- `m | 0` is m.
pub bit_or-zero : (a : ℕ) → bit_or a 0 ≡ a
bit_or-zero a = bit_or-zero_fuel a a (omega arith)

half_pow : (i : ℕ) → (2 ^ suc i / 2 ≡ 2 ^ i) × (2 ^ suc i % 2 ≡ 0)
half_pow i = (omega (arith, pow-suc 2 i), omega (arith, pow-suc 2 i))

-- `(m & (1 << i)) != 0`, as the program reads a bit.
unfoldable pub has_bit : ℕ → ℕ → Bool
has_bit m i = not (bit_and m (2 ^ i) == 0)

has_bit-bit : (i m : ℕ) → has_bit m i ≡ bit m i
unfolding has_bit bit
has_bit-bit zero m =
    ground (arith, bit_and_lowest m 1, masked_by_none (m / 2) (m / 2) (omega arith))
has_bit-bit (suc i) m =
    ground (arith, half_pow i, bit_and_lowest m (2 ^ suc i), has_bit-bit i (m / 2))

half_bit_or : (i m : ℕ) → bit_or m (2 ^ suc i) / 2 ≡ bit_or (m / 2) (2 ^ i)
half_bit_or i m = ground (arith, half_pow i, bit_or_lowest m (2 ^ suc i))

bit-bit_or : (i j m : ℕ) → bit (bit_or m (2 ^ i)) j ≡ (i == j || bit m j)
unfolding bit
bit-bit_or zero zero m = ground (arith, bit_or_lowest m 1)
bit-bit_or zero (suc j) m =
    let e : bit_or m 1 / 2 ≡ m / 2 = omega (arith, bit_or_lowest m 1, bit_or-zero (m / 2)) in
    rw e (ground arith)
bit-bit_or (suc i) zero m = ground (arith, half_pow i, bit_or_lowest m (2 ^ suc i))
bit-bit_or (suc i) (suc j) m = rw (half_bit_or i m) (ground (arith, bit-bit_or i j (m / 2)))

-- Setting bit i sets it, and no other.
pub has_bit-bit_or : (m i j : ℕ) → has_bit (bit_or m (2 ^ i)) j ≡ (i == j || has_bit m j)
has_bit-bit_or m i j =
    has_bit-bit j (bit_or m (2 ^ i)) ∙ bit-bit_or i j m ∙ ap (◌||◌ (i == j)) (sym (has_bit-bit j m))

pub has_bit-none : (j : ℕ) → has_bit 0 j ≡ false
has_bit-none j = has_bit-bit j 0 ∙ bit-zero j

-- `0 | m` is m.
pub zero-bit_or : (m : ℕ) → bit_or 0 m ≡ m
zero-bit_or m = bit_or-bitwise 0 m
