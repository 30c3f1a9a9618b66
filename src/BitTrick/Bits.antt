-- ===== src/BitTrick/Bits.antt =====
-- The binary digits of a number, and what `|` does to each: facts for the shifts of
-- include/utility/BitTrickUtil.h.
use Prim.Native.Nat.{bit_or, bit_or-bitwise, digits, max}
use supercell_common.Common.{ℕ, zero, suc, ◌+◌, ◌*◌, ◌/◌, ◌%◌, ◌≤◌, ◌≡◌, refl, ap, ◌∙◌, arith}

-- The digits of `|` do not depend on the fuel of its definition.
or_digits_enough :
    (n k a b : ℕ) → a ≤ n → a ≤ k → digits (λ y. y) max n a b ≡ digits (λ y. y) max k a b
or_digits_enough zero zero a b p q = refl
or_digits_enough zero (suc k) zero b p q = refl
or_digits_enough zero (suc k) (suc a) b p q = absurd (omega arith)
or_digits_enough (suc n) zero zero b p q = refl
or_digits_enough (suc n) zero (suc a) b p q = absurd (omega arith)
or_digits_enough (suc n) (suc k) zero b p q = refl
or_digits_enough (suc n) (suc k) (suc a) b p q =
    omega (arith, or_digits_enough n k (suc a / 2) (b / 2) (omega arith) (omega arith))

bit_or-halves : (a b : ℕ) → bit_or a b ≡ bit_or (a / 2) (b / 2) * 2 + max (a % 2) (b % 2)
bit_or-halves zero b = omega (arith, bit_or-bitwise 0 b, bit_or-bitwise 0 (b / 2))
bit_or-halves (suc a) b = omega (
  arith,
  bit_or-bitwise (suc a) b,
  bit_or-bitwise (suc a / 2) (b / 2),
  or_digits_enough a (suc a / 2) (suc a / 2) (b / 2) (omega arith) (omega arith),
)

-- x >> j, one place at a time.
abbrev pub shifted : ℕ → ℕ → ℕ
shifted zero x = x
shifted (suc j) x = shifted j (x / 2)

-- The digit at place `j`.
abbrev pub digit : ℕ → ℕ → ℕ
digit j x = shifted j x % 2

shifted-bit_or : (j a b : ℕ) → shifted j (bit_or a b) ≡ bit_or (shifted j a) (shifted j b)
shifted-bit_or zero a b = refl
shifted-bit_or (suc j) a b =
    ap (shifted j) (omega (arith, bit_or-halves a b)) ∙ shifted-bit_or j (a / 2) (b / 2)

pub digit-bit_or : (j a b : ℕ) → digit j (bit_or a b) ≡ max (digit j a) (digit j b)
digit-bit_or j a b = omega (arith, shifted-bit_or j a b, bit_or-halves (shifted j a) (shifted j b))

shifted-half : (j x : ℕ) → shifted j (x / 2) ≡ shifted j x / 2
shifted-half zero x = refl
shifted-half (suc j) x = shifted-half j (x / 2)

-- Shifts commute.
pub shifted-shifted : (i j x : ℕ) → shifted j (shifted i x) ≡ shifted i (shifted j x)
shifted-shifted zero j x = refl
shifted-shifted (suc i) j x = shifted-shifted i j (x / 2) ∙ ap (shifted i) (shifted-half j x)
