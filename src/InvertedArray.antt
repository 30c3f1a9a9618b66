-- ===== src/InvertedArray.antt =====
-- include/core/InvertedArray.h: an array of pointers to items that know their index.
pub mod Indices
pub mod Erase
pub mod Swap
use supercell_common.Common.{
  ℕ, zero, suc, ◌-◌, Bool, true, false, Option, none, some, List, [], ◌∷◌, ◌++◌, ltb, ◌==◌, length,
  take, get_elem?, set_at, if◌then◌else◌,
}

-- An item is named by its address, and NULL is `none`. `index_of` is mInvertedArrayIndex of each
-- item, where `none` is -1.
pub record InvertedArray : Type 0 where
  pub items : List (Option ℕ)
  pub index_of : ℕ → Option ℕ

-- setIndex, if the pointer is not NULL.
unfoldable pub set_index : Option ℕ → ℕ → (ℕ → Option ℕ) → ℕ → Option ℕ
set_index none i index_of y = index_of y
set_index (some x) i index_of y = if y == x then some i else index_of y

unfoldable pub is_empty : InvertedArray → Bool
is_empty a = length a.items == 0

unfoldable pub push_back : Option ℕ → InvertedArray → InvertedArray
unfolding set_index
push_back item a = record a {
  items = a.items ++ (item ∷ []);
  index_of = set_index item (length a.items) a.index_of;
}

-- mArrayItems.back(), if there is one.
unfoldable pub back : InvertedArray → Option (Option ℕ)
back a = get_elem? a.items (length a.items - 1)

-- erase(index), if there is an item at the index.
unfoldable pub erase_by : ℕ → Option (Option ℕ) → InvertedArray → Option InvertedArray
unfolding set_index
erase_by i none a = none
erase_by i (some last) a =
    if ltb i (length a.items)
    then some (record a {
      items = take (length a.items - 1) (set_at i last a.items);
      index_of = set_index last i a.index_of;
    })
    else none

unfoldable pub erase : ℕ → InvertedArray → Option InvertedArray
unfolding erase_by back
erase i a = erase_by i (back a) a

-- swap(index1, index2), if there are items at both.
unfoldable pub swap_by :
    ℕ → ℕ → Option (Option ℕ) → Option (Option ℕ) → InvertedArray → Option InvertedArray
unfolding set_index
swap_by i j none v a = none
swap_by i j (some u) none a = none
swap_by i j (some u) (some v) a = some (record a {
  items = set_at j u (set_at i v a.items);
  index_of = set_index v i (set_index u j a.index_of);
})

unfoldable pub swap : ℕ → ℕ → InvertedArray → Option InvertedArray
unfolding swap_by
swap i j a = swap_by i j (get_elem? a.items i) (get_elem? a.items j) a

unfoldable pub clear : InvertedArray → InvertedArray
clear a = record a { items = [] }
