-- ===== src/Tests/BitTricks.antt =====
-- The theorems on include/utility/BitTrickUtil.h at concrete numbers.
use supercell_common.Common.{ℕ, ◌*◌, ◌^◌, ◌≤◌, ◌<◌, ◌≡◌, refl, arith}
use supercell_common.BitTrick.{
  smear, round_up_to_nearest_power_of_two, round_up_to_nearest_power_of_two32,
}
use supercell_common.BitTrick.PowerOfTwo.{round_up_to_nearest_power_of_two_lem}

round_up_runs :
    (round_up_to_nearest_power_of_two 1025 ≡ 2048)
    × (round_up_to_nearest_power_of_two32 1025 ≡ 2048)
unfolding round_up_to_nearest_power_of_two round_up_to_nearest_power_of_two32 smear
round_up_runs = (refl, refl)

round_up_to_nearest_power_of_two_lem_example :
    (k : ℕ) × (round_up_to_nearest_power_of_two 1025 ≡ 2 ^ k)
    × (1025 ≤ round_up_to_nearest_power_of_two 1025)
    × (round_up_to_nearest_power_of_two 1025 < 2 * 1025)
round_up_to_nearest_power_of_two_lem_example =
    round_up_to_nearest_power_of_two_lem 1025 (omega arith) (omega arith)
