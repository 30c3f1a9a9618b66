-- ===== src/BitTrick/PowerOfTwo.antt =====
-- round_up_to_nearest_power_of_two of include/utility/BitTrickUtil.h: the cascade of shifts sets
-- each digit below the highest, so that the sum is the least power of two that is large enough.
use Prim.Native.Nat.{max}
use native.Mathlib.Nat.{pow-suc, mul_comm, div-div-eq-div-mul}
use supercell_common.Common.{
  ℕ, zero, suc, ◌+◌, ◌-◌, ◌*◌, ◌/◌, ◌%◌, ◌^◌, ◌≤◌, ◌<◌, ◌≡◌, refl, sym, ap, ◌∙◌, arith, inl, inr,
  add_size, sub_size, lt_or_le, if◌then◌else◌, ◌==◌,
}
use supercell_common.BitTrick.{smear, round_up_to_nearest_power_of_two}
use supercell_common.BitTrick.Bits.{shifted, digit, digit-bit_or, shifted-shifted}

-- 1 if a number is not 0.
abbrev some_digit : ℕ → ℕ
some_digit x = if x == 0 then 0 else 1

-- Each digit of `x` is set where `v` has one of its `w` digits from that place on.
abbrev Window : ℕ → ℕ → ℕ → Type 0
Window w x v = (j : ℕ) → digit j x ≡ some_digit (shifted j v % 2 ^ w)

Window-one : (v : ℕ) → Window 1 v v
Window-one v j = ground arith

digit-smear :
    (j x k : ℕ)
    → x / 2 ^ k ≡ shifted k x
    → digit j (smear x k) ≡ max (digit j x) (shifted k (shifted j x) % 2)
unfolding smear
digit-smear j x k e =
    omega (arith, digit-bit_or j x (x / 2 ^ k), ap (shifted j) e, shifted-shifted k j x)

shifted-add : (i j n x : ℕ) → n ≡ i + j → shifted n x ≡ shifted i (shifted j x)
shifted-add zero j n x e = let e' : n ≡ j = omega arith in rw e' refl
shifted-add (suc i) j zero x e = absurd (omega arith)
shifted-add (suc i) j (suc n) x e =
    shifted-add i j n (x / 2) (omega arith) ∙ ap (shifted i) (shifted-shifted 1 j x)

-- One step of the cascade doubles the window.
Window-smear :
    (k x v : ℕ)
    → ((y : ℕ) → y / 2 ^ k ≡ shifted k y)
    → ((y : ℕ)
        → max (some_digit (y % 2 ^ k)) (some_digit (y / 2 ^ k % 2 ^ k))
          ≡ some_digit (y % 2 ^ (k + k)))
    → Window k x v
    → Window (k + k) (smear x k) v
Window-smear k x v div split h j = ground (
  arith,
  digit-smear j x k (div x),
  h j,
  h (k + j),
  shifted-add k j (k + j) x,
  shifted-add k j (k + j) v,
  div (shifted j v),
  split (shifted j v),
)

div-pow : (k y : ℕ) → y / 2 ^ k ≡ shifted k y
div-pow zero y = omega arith
div-pow (suc k) y =
    ap (λ t. y / t) (pow-suc 2 k ∙ mul_comm (2 ^ k) 2)
    ∙ sym (div-div-eq-div-mul y 2 (2 ^ k))
    ∙ div-pow k (y / 2)

-- The shifts of the 64-bit function, in order.
cascade : ℕ → ℕ
cascade v = smear (smear (smear (smear (smear (smear v 1) 2) 4) 8) 16) 32

Window-cascade : (v : ℕ) → Window 64 (cascade v) v
unfolding cascade
Window-cascade v =
    let h1 : Window 2 (smear v 1) v =
      Window-smear 1 v v (div-pow 1) (λ y. ground arith) (Window-one v) in
    let x2 : ℕ = smear v 1 in
    let h2 : Window 4 (smear x2 2) v = Window-smear 2 x2 v (div-pow 2) (λ y. ground arith) h1 in
    let x4 : ℕ = smear x2 2 in
    let h4 : Window 8 (smear x4 4) v = Window-smear 4 x4 v (div-pow 4) (λ y. ground arith) h2 in
    let x8 : ℕ = smear x4 4 in
    let h8 : Window 16 (smear x8 8) v = Window-smear 8 x8 v (div-pow 8) (λ y. ground arith) h4 in
    let x16 : ℕ = smear x8 8 in
    let h16 : Window 32 (smear x16 16) v =
      Window-smear 16 x16 v (div-pow 16) (λ y. ground arith) h8 in
    Window-smear 32 (smear x16 16) v (div-pow 32) (λ y. ground arith) h16

-- A number with a digit at each place up to the highest digit of `v`, and at no other, is one less
-- than the least power of two above `v`.
AllOnes : ℕ → ℕ → Type 0
AllOnes x v = (j : ℕ) → digit j x ≡ some_digit (shifted j v)

shifted-zero : (j : ℕ) → shifted j 0 ≡ 0
shifted-zero zero = refl
shifted-zero (suc j) = shifted-zero j

zero_of_digits : (n x : ℕ) → x ≤ n → ((j : ℕ) → digit j x ≡ 0) → x ≡ 0
zero_of_digits zero x hx h = omega arith
zero_of_digits (suc n) x hx h =
    omega (arith, h 0, zero_of_digits n (x / 2) (omega arith) (λ j. h (suc j)))

AllOnes-bounds :
    (n x v : ℕ) → x ≤ n → 0 < v → AllOnes x v → (k : ℕ) × (x + 1 ≡ 2 ^ k) × (v ≤ x) × (x < 2 * v)
unfolding AllOnes
AllOnes-bounds zero x v hx hv h = absurd (ground (arith, h 0))
AllOnes-bounds (suc n) x v hx hv h = elim (lt_or_le 1 v) [
  | inl many ↦
      let (k, e, lo, hi) =
        AllOnes-bounds n (x / 2) (v / 2) (omega arith) (omega arith) (λ j. h (suc j)) in
      (suc k, ground (arith, h 0, pow-suc 2 k), ground (arith, h 0), ground (arith, h 0))
  | inr one ↦
      let rest : x / 2 ≡ 0 =
        zero_of_digits n (x / 2) (omega arith)
          (λ j. let e : v / 2 ≡ 0 = omega arith in h (suc j) ∙ rw (e, shifted-zero j) refl) in
      (1, ground (arith, h 0), ground (arith, h 0), ground (arith, h 0))
]

-- Below 2 ^ 64 the window of 64 digits is all of the number.
shifted-le : (j v : ℕ) → shifted j v ≤ v
shifted-le zero v = omega arith
shifted-le (suc j) v = omega (arith, shifted-le j (v / 2))

cascade_bounds :
    (v : ℕ)
    → 0 < v
    → v < 2 ^ 64
    → (k : ℕ) × (cascade v + 1 ≡ 2 ^ k) × (v ≤ cascade v) × (cascade v < 2 * v)
unfolding AllOnes
cascade_bounds v pos hi =
    AllOnes-bounds (cascade v) (cascade v) v (omega arith) pos
      (λ j. ground (arith, Window-cascade v j, shifted-le j v))

round_up_of_pos :
    (v : ℕ) → 0 < v → v ≤ 2 ^ 63 → round_up_to_nearest_power_of_two v ≡ add_size (cascade (v - 1)) 1
unfolding round_up_to_nearest_power_of_two cascade
round_up_of_pos v pos hi = let e : sub_size v 1 ≡ v - 1 = omega arith in rw e refl

round_up_of_one : round_up_to_nearest_power_of_two 1 ≡ 1
unfolding round_up_to_nearest_power_of_two smear
round_up_of_one = refl

-- 0 wraps round twice.
pub round_up_of_zero : round_up_to_nearest_power_of_two 0 ≡ 0
unfolding round_up_to_nearest_power_of_two smear
round_up_of_zero = refl

-- For 0 < v ≤ 2 ^ 63 the 64-bit function gives a power of two that is at least v and less than 2 * v:
-- the least one that is at least v.
pub round_up_to_nearest_power_of_two_lem :
    (v : ℕ)
    → 0 < v
    → v ≤ 2 ^ 63
    → (k : ℕ) × (round_up_to_nearest_power_of_two v ≡ 2 ^ k)
      × (v ≤ round_up_to_nearest_power_of_two v)
      × (round_up_to_nearest_power_of_two v < 2 * v)
round_up_to_nearest_power_of_two_lem v pos hi = elim (lt_or_le 1 v) [
  | inl many ↦
      let (k, e, lo, up) = cascade_bounds (v - 1) (omega arith) (omega arith) in
      (
        k,
        omega (arith, round_up_of_pos v pos hi),
        omega (arith, round_up_of_pos v pos hi),
        omega (arith, round_up_of_pos v pos hi),
      )
  | inr one ↦
      let e : v ≡ 1 = omega arith in
      rw e (0, round_up_of_one, omega (arith, round_up_of_one), omega (arith, round_up_of_one))
]
