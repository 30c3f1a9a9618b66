-- ===== src/BitTrick.antt =====
-- include/utility/BitTrickUtil.h: rounding up to a multiple, and to a power of two.
pub mod Bits
pub mod PowerOfTwo
pub mod Multiple
pub mod Masks
use Prim.Native.Nat.{bit_or}
use supercell_common.Common.{
  ℕ, ◌+◌, ◌-◌, ◌*◌, ◌/◌, ◌%◌, ◌^◌, ◌||◌, ◌==◌, if◌then◌else◌, add_size, sub_size,
}

-- round_up_to_nearest_power over an unsigned type of `w` bits.
unfoldable pub round_up_to_nearest_power : ℕ → ℕ → ℕ → ℕ
round_up_to_nearest_power w v m =
    if v == 0 || m == 0 || v % m == 0 then v else (v / m + 1) % 2 ^ w * m % 2 ^ w

-- v |= v >> k
unfoldable pub smear : ℕ → ℕ → ℕ
smear v k = bit_or v (v / 2 ^ k)

-- round_up_to_nearest_power_of_two<uint32>::apply
unfoldable pub round_up_to_nearest_power_of_two32 : ℕ → ℕ
round_up_to_nearest_power_of_two32 v =
    (smear (smear (smear (smear (smear ((v + 2 ^ 32 - 1) % 2 ^ 32) 1) 2) 4) 8) 16 + 1) % 2 ^ 32

-- round_up_to_nearest_power_of_two<uint64>::apply
unfoldable pub round_up_to_nearest_power_of_two : ℕ → ℕ
round_up_to_nearest_power_of_two v =
    add_size (smear (smear (smear (smear (smear (smear (sub_size v 1) 1) 2) 4) 8) 16) 32) 1
