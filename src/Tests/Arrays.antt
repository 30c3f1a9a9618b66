-- ===== src/Tests/Arrays.antt =====
-- The theorems on include/core/InvertedArray.h at an array of three items.
use supercell_common.Common.{
  ℕ, zero, suc, ◌+◌, ◌≡◌, refl, true, Option, none, some, [], ◌∷◌, length, get_elem?, arith, ◌==◌,
  if◌then◌else◌,
}
use supercell_common.InvertedArray.{InvertedArray, erase, swap, is_empty, clear}
use supercell_common.InvertedArray.Indices.{Holds, IsIndexed}
use supercell_common.InvertedArray.Erase.{moved, erase_lem}
use supercell_common.InvertedArray.Swap.{swap_lem}

abbrev index_of_three : ℕ → Option ℕ
index_of_three y = if y == 70 then some 0 else if y == 71 then some 2 else none

-- Two items with a NULL between them.
abbrev three : InvertedArray
three = record { items = some 70 ∷ none ∷ some 71 ∷ []; index_of = index_of_three }

three-at : (i x : ℕ) → Holds three i x → index_of_three x ≡ some i
three-at zero x h = ground (arith, h)
three-at (suc zero) x h = absurd (ground (arith, h))
three-at (suc (suc zero)) x h = ground (arith, h)
three-at (suc (suc (suc i))) x h = absurd (ground (arith, h))

three-IsIndexed : IsIndexed three
unfolding IsIndexed
three-IsIndexed = three-at

three_lacks : (i : ℕ) → ¬ Holds three i 72
three_lacks zero h = ground (arith, h)
three_lacks (suc zero) h = ground (arith, h)
three_lacks (suc (suc zero)) h = ground (arith, h)
three_lacks (suc (suc (suc i))) h = ground (arith, h)

erase_lem_example :
    (a' : InvertedArray) × (erase 0 three ≡ some a')
    × IsIndexed a'
    × (length a'.items + 1 ≡ 3)
    × ((j : ℕ) → get_elem? a'.items j ≡ moved 0 three j)
erase_lem_example = erase_lem 0 three three-IsIndexed (omega arith)

swap_lem_example :
    (a' : InvertedArray) × (swap 0 1 three ≡ some a')
    × IsIndexed a'
    × ((k : ℕ)
        → get_elem? a'.items k
          ≡ get_elem? three.items (if k == 1 then 0 else if k == 0 then 1 else k))
swap_lem_example = swap_lem 0 1 three three-IsIndexed (omega arith) (omega arith)

cleared_is_empty : is_empty (clear three) ≡ true
unfolding is_empty clear
cleared_is_empty = refl
