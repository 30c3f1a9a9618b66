-- ===== src/Buffer/Block.antt =====
-- The block operations of BufferBase (include/core/Buffer.h): copies in and out of the internal
-- block, growth, and the raw reads and writes that all typed ones go through.
use supercell_common.Common.{
  ℕ, List, [], ◌∷◌, ◌++◌, Result, ok, assert, ltb, leb, not, ◌&&◌, length, take, drop, replicate,
  add_size, sub_size, ◌>>=◌, ◌>>◌, if◌then◌else◌,
}
use supercell_common.BitTrick.{round_up_to_nearest_power_of_two}
use supercell_common.Buffer.State.{Mode, plain, circular, Buffer, Allocator, load, store}
use supercell_common.Buffer.Positions.{data_size, free_size, rskip, wskip}

-- What getDirect and getArray copy out from a position, round the end of a circular block.
unfoldable pub get_direct : Mode → Buffer → ℕ → ℕ → Result (List ℕ)
get_direct plain b pos n = load b.mem pos n
get_direct circular b pos n =
    if ltb b.allocated (add_size pos n)
    then (do
      let to_end = sub_size b.allocated pos
      front ← load b.mem pos to_end
      back ← load b.mem 0 (sub_size n to_end)
      ok (front ++ back))
    else load b.mem pos n

unfoldable pub get_array : Mode → Buffer → ℕ → ℕ → Result (List ℕ)
get_array m b pos n = do assert (leb n (data_size m b)); get_direct m b pos n

-- What setDirect and setArray copy in at a position.
unfoldable pub set_direct : Mode → Buffer → ℕ → List ℕ → Result Buffer
set_direct plain b pos bs = do block ← store b.mem pos bs; ok (record b { mem = block })
set_direct circular b pos bs =
    if ltb b.allocated (add_size pos (length bs))
    then (do
      let to_end = sub_size b.allocated pos
      front ← store b.mem pos (take to_end bs)
      block ← store front 0 (drop to_end bs)
      ok (record b { mem = block }))
    else (do block ← store b.mem pos bs; ok (record b { mem = block }))

unfoldable pub set_array : Mode → Buffer → ℕ → List ℕ → Result Buffer
set_array m b pos bs = do assert (leb (length bs) (free_size m b)); set_direct m b pos bs

-- zero()
unfoldable pub zero_free : Mode → Buffer → Result Buffer
zero_free m b = do
  block ← store b.mem b.write_pos (replicate (free_size m b) 0)
  ok (record b { mem = block })

-- crunch()
unfoldable pub crunch : Mode → Buffer → Result Buffer
crunch plain b =
    let size = data_size plain b in
    if ltb 0 size && ltb 0 b.read_pos
    then (do
      bytes ← load b.mem b.read_pos size
      block ← store b.mem 0 bytes
      ok (record b { mem = block; write_pos = size; read_pos = 0 }))
    else ok b
crunch circular b =
    if ltb b.write_pos b.read_pos
    then (do
      let to_end = sub_size b.allocated b.read_pos
      let size = add_size to_end b.write_pos
      front ← load b.mem b.read_pos to_end
      back ← load b.mem 0 b.write_pos
      block ← store b.mem 0 (front ++ back)
      ok (record b { mem = block; write_pos = size; read_pos = 0 }))
    else (do
      let size = sub_size b.write_pos b.read_pos
      bytes ← load b.mem b.read_pos size
      block ← store b.mem 0 bytes
      ok (record b { mem = block; write_pos = size; read_pos = 0 }))

unfoldable pub read_direct : Mode → ℕ → Buffer → Result (List ℕ × Buffer)
read_direct m n b = do bytes ← get_direct m b b.read_pos n; b' ← rskip m n b; ok (bytes, b')

unfoldable pub read_array : Mode → ℕ → Buffer → Result (List ℕ × Buffer)
read_array m n b = do bytes ← get_array m b b.read_pos n; b' ← rskip m n b; ok (bytes, b')

module _ (heap : Allocator) where
  -- realloc of the block, or malloc if mData is NULL
  unfoldable pub new_block : List ℕ → ℕ → List ℕ
  new_block [] size = heap.malloc size
  new_block (x ∷ xs) size = heap.realloc (x ∷ xs) size

  unfoldable pub resize : Mode → ℕ → Buffer → Result Buffer
  unfolding new_block
  resize plain size b = do
    assert b.on_demand
    assert (ltb b.allocated size)
    ok (record b { mem = new_block b.mem size; allocated = size })
  resize circular size b = do
    assert b.on_demand
    assert (ltb b.allocated size)
    b' ← crunch circular b
    ok (record b' { mem = new_block b'.mem size; allocated = size })

  -- The room check of writeDirect and writeArray, which grows a buffer that is on demand.
  unfoldable pub make_room : Mode → ℕ → Buffer → Result Buffer
  make_room plain n b =
      let s = add_size b.write_pos n in
      if not b.on_demand
      then (do assert (leb s b.allocated); ok b)
      else if ltb b.allocated s
      then resize plain (round_up_to_nearest_power_of_two s) b
      else ok b
  make_room circular n b =
      let s = add_size (data_size circular b) n in
      let need = add_size s 1 in
      if not b.on_demand
      then (do assert (leb need b.allocated); ok b)
      else if ltb b.allocated need
      then resize circular (add_size (round_up_to_nearest_power_of_two s) 1) b
      else ok b

  unfoldable pub write_direct : Mode → List ℕ → Buffer → Result Buffer
  write_direct m bs b = do
    assert (not b.read_only)
    b' ← make_room m (length bs) b
    b'' ← set_direct m b' b'.write_pos bs
    wskip m (length bs) b''

  unfoldable pub write_array : Mode → List ℕ → Buffer → Result Buffer
  write_array m bs b = do
    assert (not b.read_only)
    b' ← make_room m (length bs) b
    b'' ← set_array m b' b'.write_pos bs
    wskip m (length bs) b''

  -- writeArray where the source is `n` bytes from `p` on of another block, which are read last.
  unfoldable pub write_from : Mode → List ℕ → ℕ → ℕ → Buffer → Result Buffer
  write_from m mem p n b = do
    assert (not b.read_only)
    b' ← make_room m n b
    assert (leb n (free_size m b'))
    bytes ← load mem p n
    b'' ← set_direct m b' b'.write_pos bytes
    wskip m n b''

  -- append(source, size): the target and the source after it.
  unfoldable pub append : Mode → Buffer → Mode → Buffer → ℕ → Result (Buffer × Buffer)
  append m b k source n = do
    assert (leb n (data_size k source))
    b' ← write_from m source.mem source.read_pos n b
    source' ← rskip k n source
    ok (b', source')
