-- ===== src/BitTrick/Multiple.antt =====
-- round_up_to_nearest_power of include/utility/BitTrickUtil.h rounds up to a multiple.
use native.Mathlib.Nat.{div-add-mod, mod-lt, mod-eq_of_lt}
use supercell_common.Common.{
  ℕ, ◌+◌, ◌*◌, ◌/◌, ◌%◌, ◌^◌, ◌≤◌, ◌<◌, ◌≡◌, refl, arith, inl, inr, Bool-cases, ◌==◌, ◌||◌,
}
use supercell_common.BitTrick.{round_up_to_nearest_power}

no_wrap : (w q m : ℕ) → 0 < m → (q + 1) * m < 2 ^ w → (q + 1) % 2 ^ w * m % 2 ^ w ≡ (q + 1) * m
no_wrap w q m pos fits =
    let small : q + 1 < 2 ^ w = grind arith in rw (mod-eq_of_lt small, mod-eq_of_lt fits) refl

-- For a multiple m above 0, if the multiple of m above v is a `w`-bit number, the result is the least
-- multiple of m that is at least v.
pub round_up_to_nearest_power_lem :
    (w v m : ℕ)
    → 0 < m
    → (v / m + 1) * m < 2 ^ w
    → (k : ℕ) × (round_up_to_nearest_power w v m ≡ k * m)
      × (v ≤ round_up_to_nearest_power w v m)
      × (round_up_to_nearest_power w v m < v + m)
unfolding round_up_to_nearest_power
round_up_to_nearest_power_lem w v m pos fits = elim (Bool-cases (v == 0 || m == 0 || v % m == 0)) [
  | inl exact ↦
      let divides : v % m ≡ 0 = ground arith in
      (
        v / m,
        rw exact (grind (arith, div-add-mod v m)),
        rw exact (omega arith),
        rw exact (omega arith),
      )
  | inr above ↦
      let split : v / m * m + v % m ≡ v = grind (arith, div-add-mod v m) in
      let over : 0 < v % m = ground arith in
      let under : v % m < m = mod-lt v pos in
      let next : (v / m + 1) * m ≡ v / m * m + m = grind arith in
      (
        v / m + 1,
        rw above (no_wrap w (v / m) m pos fits),
        rw (above, no_wrap w (v / m) m pos fits) (omega arith),
        rw (above, no_wrap w (v / m) m pos fits) (omega arith),
      )
]
