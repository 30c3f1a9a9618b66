-- ===== src/Buffer/Overrun.antt =====
-- Where include/core/Buffer.h reaches past the bytes that it should: zero() after a read, and a
-- plain read past the write position.
use supercell_common.Common.{
  ℕ, ◌+◌, ◌-◌, ◌≤◌, ◌<◌, ◌≡◌, refl, sym, ◌∙◌, List, ok, err, bad_access, length, take, drop, arith,
  splice, replicate, length-replicate, nth-splice-below, nth-splice-inside, length-splice, list_ext,
  length-take,
}
use supercell_common.Buffer.State.{Mode, plain, circular, Buffer, store}
use supercell_common.Buffer.Positions.{rskip, data_size, free_size, allocated_size}
use supercell_common.Buffer.Block.{zero_free, read_direct, get_direct}
use supercell_common.Buffer.Contents.{
  contents, IsValid, length-contents, nth-contents, contents_ext, load_lem, store_lem, length-slice,
  nth-slice,
}
use supercell_common.Buffer.Skips.{data_size_lem}

-- zero() of a plain buffer of which nothing has been read clears the block behind the bytes held, and
-- keeps those.
pub zero_free_lem :
    (b : Buffer)
    → IsValid plain b
    → b.read_pos ≡ 0
    → (b' : Buffer) × (zero_free plain b ≡ ok b')
      × IsValid plain b'
      × (contents b' ≡ contents b)
      × (take (b.allocated - b.write_pos) (drop b.write_pos b'.mem)
          ≡ replicate (b.allocated - b.write_pos) 0)
unfolding zero_free free_size allocated_size
zero_free_lem b v h =
    let n : ℕ = b.allocated - b.write_pos in
    let zeros : List ℕ = replicate n 0 in
    let mem : List ℕ = splice b.write_pos zeros b.mem in
    (
      record b { mem = mem },
      ground (
        arith,
        data_size_lem plain b v,
        length-replicate {A = ℕ} n 0,
        store_lem b.mem b.write_pos zeros,
      ),
      ground (arith, length-splice b.write_pos zeros b.mem),
      contents_ext (record b { mem = mem }) (contents b) (sym (length-contents b))
          λ i hi. ground (
            arith,
            length-contents b,
            nth-contents b i,
            nth-splice-below b.write_pos zeros b.mem (b.read_pos + i),
          ),
      list_ext (take n (drop b.write_pos mem)) zeros
          (omega (
            arith,
            length-slice mem b.write_pos n,
            length-splice b.write_pos zeros b.mem,
            length-replicate {A = ℕ} n 0,
            v.block,
          ))
          λ i hi.
            let low : i < n = omega (arith, length-take n (drop b.write_pos mem)) in
            let inside : b.write_pos + i < length b.mem = omega (arith, v.block) in
            nth-slice mem b.write_pos n i (b.write_pos + i) low refl
            ∙ nth-splice-inside b.write_pos zeros b.mem (b.write_pos + i) i refl
                (omega (arith, length-replicate {A = ℕ} n 0)) inside,
    )

-- zero() of a buffer of which two bytes or more have been read, with no bytes round the end, writes
-- past the block: freeSize() counts the bytes before the read position too.
pub zero_free-overrun :
    (m : Mode) (b : Buffer)
    → IsValid m b
    → length b.mem ≡ b.allocated
    → b.read_pos ≤ b.write_pos
    → 1 < b.read_pos
    → zero_free m b ≡ err bad_access
unfolding zero_free free_size allocated_size data_size store
zero_free-overrun plain b v full h k =
    ground (arith, length-replicate {A = ℕ} (b.allocated - (b.write_pos - b.read_pos)) 0)
zero_free-overrun circular b v full h k =
    ground (arith, length-replicate {A = ℕ} (b.allocated - 1 - (b.write_pos - b.read_pos)) 0)

-- A plain readDirect of more bytes than are held, but not past the block, is not refused: it moves
-- the read position past the write position, and dataSize() wraps to the block's size or more.
pub read_direct-beyond :
    (b : Buffer) (n : ℕ)
    → IsValid plain b
    → length (contents b) < n
    → b.read_pos + n ≤ b.allocated
    → (bytes : List ℕ) × (b' : Buffer) × (read_direct plain n b ≡ ok (bytes, b'))
      × (b'.write_pos < b'.read_pos)
      × (b'.allocated ≤ data_size plain b')
unfolding read_direct get_direct rskip data_size
read_direct-beyond b n v h k = (
  take n (drop b.read_pos b.mem),
  record b { read_pos = b.read_pos + n },
  ground (arith, load_lem b.mem b.read_pos n),
  ground (arith, length-contents b),
  ground (arith, length-contents b),
)
