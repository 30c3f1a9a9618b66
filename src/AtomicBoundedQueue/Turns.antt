-- ===== src/AtomicBoundedQueue/Turns.antt =====
-- Positions of include/core/AtomicBoundedQueue.h that share a cell.
use supercell_common.Common.{
  zero, sym, ◌-◌, ◌≤◌, ℕ, suc, ◌+◌, ◌/◌, ◌%◌, ◌^◌, ◌<◌, ◌≢◌, ◌∙◌, arith, lt_or_le, inl, inr,
}
use Prim.Native.Nat.{bit_and}
use supercell_common.BitTrick.Masks.{mask-mod, power_pos}
use native.Mathlib.Nat.{pow-succ', mod-le, mod-add-div, mul-le-mul_left, mul-suc}

-- Positions that differ by less than the size are in different cells.
pub cell-apart : (size a b : ℕ) → a < b → b < a + size → a % size ≢ b % size
cell-apart size a b x y e = elim (lt_or_le (a / size) (b / size)) [
  | inl l ↦ omega (
    arith,
    e,
    mod-add-div a size,
    mod-add-div b size,
    mul-suc size (a / size),
    mul-le-mul_left {m = suc (a / size)} {n = b / size} size l,
  )
  | inr l ↦ omega (
    arith,
    e,
    mod-add-div a size,
    mod-add-div b size,
    mul-le-mul_left {m = b / size} {n = a / size} size l,
  )
]

-- The mask of a queue of `2 ^ b` cells takes a position to its remainder.
pub masked-apart :
    (b p q : ℕ) → p < q → q < p + 2 ^ b → bit_and (2 ^ b - 1) p ≢ bit_and (2 ^ b - 1) q
masked-apart b p q x y e = cell-apart (2 ^ b) p q x y (sym (mask-mod b p) ∙ e ∙ mask-mod b q)

pub masked-le : (b p : ℕ) → bit_and (2 ^ b - 1) p ≤ p
masked-le b p = omega (arith, mask-mod b p, mod-le p (2 ^ b))

pub two_cells : (b : ℕ) → 1 ≤ b → 2 ≤ 2 ^ b
two_cells zero x = absurd (omega arith)
two_cells (suc b) x = omega (arith, power_pos b, pow-succ' 2 b)
