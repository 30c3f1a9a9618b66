-- ===== src/Buffer/Positions.antt =====
-- The positions of BufferBase (include/core/Buffer.h): sizes, marks, ranges and skips.
use supercell_common.Common.{
  ℕ, List, [], ◌∷◌, ◌++◌, Result, ok, Error, guard, assert, ltb, leb, ◌==◌, add_size, sub_size,
  ◌>>◌, if◌then◌else◌, not,
}
use supercell_common.Buffer.State.{Mode, plain, circular, Buffer}

unfoldable pub allocated_size : Mode → Buffer → ℕ
allocated_size plain b = b.allocated
allocated_size circular b = sub_size b.allocated 1

unfoldable pub data_size : Mode → Buffer → ℕ
data_size plain b = sub_size b.write_pos b.read_pos
data_size circular b =
    if ltb b.write_pos b.read_pos
    then add_size (sub_size b.allocated b.read_pos) b.write_pos
    else sub_size b.write_pos b.read_pos

unfoldable pub free_size : Mode → Buffer → ℕ
unfolding allocated_size data_size
free_size m b = sub_size (allocated_size m b) (data_size m b)

-- getDataRanges: a range is an offset into the block and a size. The ranges are appended to the
-- vector given.
unfoldable pub get_data_ranges : Mode → Buffer → List (ℕ × ℕ) → List (ℕ × ℕ) × ℕ
get_data_ranges plain b ranges =
    let size = sub_size b.write_pos b.read_pos in (ranges ++ ((b.read_pos, size) ∷ []), size)
get_data_ranges circular b ranges =
    let to_end = sub_size b.allocated b.read_pos in
    let size = sub_size b.write_pos b.read_pos in
    if ltb b.write_pos b.read_pos
    then (ranges ++ ((b.read_pos, to_end) ∷ (0, b.write_pos) ∷ []), add_size to_end b.write_pos)
    else if not (b.write_pos == b.read_pos)
    then (ranges ++ ((b.read_pos, size) ∷ []), size)
    else (ranges, 0)

-- getDataRangesFromMark
unfoldable pub get_data_ranges_from_mark : Mode → Buffer → List (ℕ × ℕ) → List (ℕ × ℕ) × ℕ
get_data_ranges_from_mark plain b ranges =
    let size = sub_size b.write_pos_marked b.read_pos_marked in
    (ranges ++ ((b.read_pos_marked, size) ∷ []), size)
get_data_ranges_from_mark circular b ranges =
    let to_end = sub_size b.allocated b.read_pos_marked in
    let size = sub_size b.write_pos_marked b.read_pos_marked in
    let first = (ranges ++ ((b.read_pos_marked, to_end) ∷ [])) in
    if ltb b.write_pos_marked b.read_pos_marked
    then (
      (if not (b.write_pos_marked == 0) then first ++ ((0, b.write_pos_marked) ∷ []) else first),
      add_size to_end b.write_pos_marked,
    )
    else if not (b.write_pos_marked == b.read_pos_marked)
    then (ranges ++ ((b.read_pos_marked, size) ∷ []), size)
    else (ranges, 0)

unfoldable pub clear : Buffer → Buffer
clear b = record b { read_pos = 0; write_pos = 0; read_pos_marked = 0; write_pos_marked = 0 }

unfoldable pub mark : Buffer → Buffer
mark b = record b { read_pos_marked = b.read_pos; write_pos_marked = b.write_pos }

unfoldable pub mark_read : Buffer → Buffer
mark_read b = record b { read_pos_marked = b.read_pos }

unfoldable pub mark_write : Buffer → Buffer
mark_write b = record b { write_pos_marked = b.write_pos }

unfoldable pub reset : Buffer → Buffer
reset b = record b {
  read_pos = b.read_pos_marked;
  write_pos = b.write_pos_marked;
  read_pos_marked = 0;
  write_pos_marked = 0;
}

unfoldable pub reset_write : Buffer → Buffer
reset_write b = record b { write_pos = b.write_pos_marked }

unfoldable pub reset_read : Buffer → Buffer
reset_read b = record b { read_pos = b.read_pos_marked }

-- A position that a skip has moved past the end of a circular block comes round.
abbrev pub wrap_pos : ℕ → ℕ → ℕ
wrap_pos allocated pos = if leb allocated pos then sub_size pos allocated else pos

-- A position moved back by `bytes`, round the start of a circular block.
abbrev pub back_pos : ℕ → ℕ → ℕ → ℕ
back_pos allocated pos bytes =
    if ltb pos bytes then sub_size allocated (sub_size bytes pos) else sub_size pos bytes

unfoldable pub rskip : Mode → ℕ → Buffer → Result Buffer
unfolding data_size
rskip plain bytes b = do
  assert (leb bytes b.allocated)
  let pos = add_size b.read_pos bytes
  assert (leb pos b.allocated)
  ok (record b { read_pos = pos })
rskip circular bytes b = do
  assert (leb bytes (sub_size b.allocated 1))
  guard (leb bytes (data_size circular b)) Error.length_error
  ok (record b { read_pos = wrap_pos b.allocated (add_size b.read_pos bytes) })

unfoldable pub wskip : Mode → ℕ → Buffer → Result Buffer
unfolding free_size
wskip plain bytes b = do
  assert (leb bytes b.allocated)
  let pos = add_size b.write_pos bytes
  assert (leb pos b.allocated)
  ok (record b { write_pos = pos })
wskip circular bytes b = do
  assert (leb bytes (sub_size b.allocated 1))
  guard (leb bytes (free_size circular b)) Error.length_error
  ok (record b { write_pos = wrap_pos b.allocated (add_size b.write_pos bytes) })

unfoldable pub rrev : Mode → ℕ → Buffer → Result Buffer
rrev plain bytes b = do
  assert (leb bytes b.allocated)
  assert (leb bytes b.read_pos)
  ok (record b { read_pos = sub_size b.read_pos bytes })
rrev circular bytes b = do
  assert (leb bytes (sub_size b.allocated 1))
  ok (record b { read_pos = back_pos b.allocated b.read_pos bytes })

unfoldable pub wrev : Mode → ℕ → Buffer → Result Buffer
wrev plain bytes b = do
  assert (leb bytes b.allocated)
  assert (leb bytes b.write_pos)
  ok (record b { write_pos = sub_size b.write_pos bytes })
wrev circular bytes b = do
  assert (leb bytes (sub_size b.allocated 1))
  ok (record b { write_pos = back_pos b.allocated b.write_pos bytes })
