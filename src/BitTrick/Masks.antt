-- ===== src/BitTrick/Masks.antt =====
-- `&` with a mask of the lowest digits, as in include/core/AtomicBoundedQueue.h.
use Prim.Native.Nat.{bit_and, bit_and-bitwise, digits, min}
use native.Mathlib.Nat.{
  mul_assoc, pow-succ', mod-add-div, mod-eq_of_lt, add-mul-mod_self_left, mod-lt,
}
use supercell_common.Common.{
  ℕ, zero, suc, ◌+◌, ◌-◌, ◌*◌, ◌/◌, ◌%◌, ◌^◌, ◌≤◌, ◌<◌, ◌≡◌, refl, sym, ap, ◌∙◌, arith,
}

-- The digits of `&` do not depend on the fuel of its definition.
and_digits_enough :
    (n k a b : ℕ) → a ≤ n → a ≤ k → digits (λ y. zero) min n a b ≡ digits (λ y. zero) min k a b
and_digits_enough zero zero a b p q = refl
and_digits_enough zero (suc k) zero b p q = refl
and_digits_enough zero (suc k) (suc a) b p q = absurd (omega arith)
and_digits_enough (suc n) zero zero b p q = refl
and_digits_enough (suc n) zero (suc a) b p q = absurd (omega arith)
and_digits_enough (suc n) (suc k) zero b p q = refl
and_digits_enough (suc n) (suc k) (suc a) b p q =
    omega (arith, and_digits_enough n k (suc a / 2) (b / 2) (omega arith) (omega arith))

bit_and-halves : (a b : ℕ) → bit_and a b ≡ bit_and (a / 2) (b / 2) * 2 + min (a % 2) (b % 2)
bit_and-halves zero b = omega (arith, bit_and-bitwise 0 b, bit_and-bitwise 0 (b / 2))
bit_and-halves (suc a) b = omega (
  arith,
  bit_and-bitwise (suc a) b,
  bit_and-bitwise (suc a / 2) (b / 2),
  and_digits_enough a (suc a / 2) (suc a / 2) (b / 2) (omega arith) (omega arith),
)

-- The remainder by twice a number.
double-mod : (m n : ℕ) → 0 < m → n % (2 * m) ≡ (n / 2 % m) * 2 + n % 2
double-mod m n x =
    let q : ℕ = n / 2 / m in
    let r : ℕ = n / 2 % m * 2 + n % 2 in
    let e : n ≡ r + 2 * m * q = omega (arith, mod-add-div (n / 2) m, mul_assoc 2 m q) in
    let below : n / 2 % m < m = mod-lt (n / 2) x in
    ap (λ y. y % (2 * m)) e
    ∙ add-mul-mod_self_left r (2 * m) q
    ∙ mod-eq_of_lt (omega (arith, below))

pub power_pos : (k : ℕ) → 0 < 2 ^ k
power_pos zero = omega arith
power_pos (suc k) = omega (arith, power_pos k, pow-succ' 2 k)

-- A mask of `k` digits gives the remainder by their power of two.
pub mask-mod : (k n : ℕ) → bit_and (2 ^ k - 1) n ≡ n % 2 ^ k
mask-mod zero n = omega (arith, bit_and-bitwise 0 n)
mask-mod (suc k) n =
    let m : ℕ = 2 ^ k in
    let above : 0 < m = power_pos k in
    let double : 2 ^ suc k ≡ 2 * m = pow-succ' 2 k in
    let half : (2 * m - 1) / 2 ≡ m - 1 = omega (arith, above) in
    let odd : (2 * m - 1) % 2 ≡ 1 = omega (arith, above) in
    let digit : min 1 (n % 2) ≡ n % 2 = omega arith in
    rw double (
      bit_and-halves (2 * m - 1) n
      ∙ rw (half, odd, mask-mod k (n / 2), digit) refl
      ∙ sym (double-mod m n above))
