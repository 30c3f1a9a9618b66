-- ===== src/Buffer/Ranges.antt =====
-- getDataRanges and getDataRangesFromMark of include/core/Buffer.h: the ranges of the block that
-- they give hold the bytes of the buffer in order.
use supercell_common.Common.{
  ℕ, ◌-◌, ◌≡◌, refl, ◌∙◌, List, [], ◌∷◌, ◌++◌, ltb, length, take, drop, inl, inr, arith,
  if◌then◌else◌, lt_or_le, append-nil, append_assoc,
}
use supercell_common.Buffer.State.{Mode, plain, circular, Buffer}
use supercell_common.Buffer.Positions.{get_data_ranges, get_data_ranges_from_mark, mark}
use supercell_common.Buffer.Contents.{contents, IsValid, length-contents}
use supercell_common.Buffer.Growth.{slices-eq-contents, slice-eq-contents}

-- The bytes of a block at some ranges.
abbrev pub slices : List ℕ → List (ℕ × ℕ) → List ℕ
slices mem [] = []
slices mem ((p, n) ∷ ranges) = take n (drop p mem) ++ slices mem ranges

-- The ranges that are added to the caller's vector.
new_ranges : Mode → Buffer → List (ℕ × ℕ)
new_ranges plain b = (b.read_pos, b.write_pos - b.read_pos) ∷ []
new_ranges circular b =
    if ltb b.write_pos b.read_pos
    then (b.read_pos, b.allocated - b.read_pos) ∷ (0, b.write_pos) ∷ []
    else if ltb b.read_pos b.write_pos
    then (b.read_pos, b.write_pos - b.read_pos) ∷ []
    else []

slices-new_ranges :
    (m : Mode) (b : Buffer) → IsValid m b → slices b.mem (new_ranges m b) ≡ contents b
unfolding new_ranges
slices-new_ranges plain b v =
    append-nil (take (b.write_pos - b.read_pos) (drop b.read_pos b.mem))
    ∙ slice-eq-contents plain b (b.write_pos - b.read_pos) v (omega arith) refl
slices-new_ranges circular b v = elim (lt_or_le b.write_pos b.read_pos) [
  | inl wrapped ↦ ground (
    arith,
    append-nil (take b.write_pos (drop 0 b.mem)),
    slices-eq-contents b (b.allocated - b.read_pos) b.write_pos v wrapped refl refl,
  )
  | inr straight ↦ ground (
    arith,
    append-nil (take (b.write_pos - b.read_pos) (drop b.read_pos b.mem)),
    slice-eq-contents circular b (b.write_pos - b.read_pos) v straight refl,
  )
]

get_data_ranges-new :
    (m : Mode) (b : Buffer) (ranges : List (ℕ × ℕ))
    → IsValid m b
    → get_data_ranges m b ranges ≡ (ranges ++ new_ranges m b, length (contents b))
unfolding get_data_ranges new_ranges
get_data_ranges-new plain b ranges v = ground (arith, length-contents b)
get_data_ranges-new circular b ranges v = ground (arith, length-contents b, append-nil ranges)

-- getDataRanges returns the number of bytes held, and adds to the vector ranges of the block at
-- which those bytes stand in order.
pub get_data_ranges_lem :
    (m : Mode) (b : Buffer) (ranges : List (ℕ × ℕ))
    → IsValid m b
    → (new : List (ℕ × ℕ)) × (get_data_ranges m b ranges ≡ (ranges ++ new, length (contents b)))
      × (slices b.mem new ≡ contents b)
get_data_ranges_lem m b ranges v =
    (new_ranges m b, get_data_ranges-new m b ranges v, slices-new_ranges m b v)

-- The ranges from a mark leave out a second one of no bytes.
marked_ranges : Mode → Buffer → List (ℕ × ℕ)
marked_ranges plain b = (b.read_pos, b.write_pos - b.read_pos) ∷ []
marked_ranges circular b =
    if ltb b.write_pos b.read_pos
    then (b.read_pos, b.allocated - b.read_pos)
      ∷ (if ltb 0 b.write_pos then (0, b.write_pos) ∷ [] else [])
    else if ltb b.read_pos b.write_pos
    then (b.read_pos, b.write_pos - b.read_pos) ∷ []
    else []

slices-marked_ranges :
    (m : Mode) (b : Buffer) → slices b.mem (marked_ranges m b) ≡ slices b.mem (new_ranges m b)
unfolding marked_ranges new_ranges
slices-marked_ranges plain b = refl
slices-marked_ranges circular b = elim (lt_or_le 0 b.write_pos) [
  | inl more ↦ ground arith
  | inr none_left ↦
      let e : b.write_pos ≡ 0 = omega arith in ground (arith, append-nil (take b.write_pos b.mem))
]

get_data_ranges_from_mark-new :
    (m : Mode) (b : Buffer) (ranges : List (ℕ × ℕ))
    → IsValid m b
    → get_data_ranges_from_mark m (mark b) ranges
      ≡ (ranges ++ marked_ranges m b, length (contents b))
unfolding get_data_ranges_from_mark mark marked_ranges
get_data_ranges_from_mark-new plain b ranges v = ground (arith, length-contents b)
get_data_ranges_from_mark-new circular b ranges v =
    let first : List (ℕ × ℕ) = (b.read_pos, b.allocated - b.read_pos) ∷ [] in
    ground (
      arith,
      length-contents b,
      append-nil ranges,
      append_assoc ranges first ((0, b.write_pos) ∷ []),
    )

-- After mark() getDataRangesFromMark gives the number of bytes held, and ranges at which they stand
-- in order.
pub get_data_ranges_from_mark_lem :
    (m : Mode) (b : Buffer) (ranges : List (ℕ × ℕ))
    → IsValid m b
    → (new : List (ℕ × ℕ)) × (get_data_ranges_from_mark m (mark b) ranges
        ≡ (ranges ++ new, length (contents b)))
      × (slices b.mem new ≡ contents b)
get_data_ranges_from_mark_lem m b ranges v = (
  marked_ranges m b,
  get_data_ranges_from_mark-new m b ranges v,
  slices-marked_ranges m b ∙ slices-new_ranges m b v,
)
