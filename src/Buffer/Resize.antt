-- ===== src/Buffer/Resize.antt =====
-- resize() of include/core/Buffer.h: growth of the block keeps the bytes held.
use supercell_common.Common.{ℕ, ◌+◌, ◌^◌, ◌≤◌, ◌<◌, ◌≡◌, refl, ◌∙◌, true, ok, arith}
use supercell_common.Buffer.State.{Mode, plain, circular, Buffer, Allocator, IsAllocator}
use supercell_common.Buffer.Block.{new_block, resize}
use supercell_common.Buffer.Contents.{
  contents, IsValid, length-contents, nth-contents, contents_ext,
}
use supercell_common.Buffer.Growth.{
  crunched, contents-crunched, crunched-IsValid, crunch-circular, length-new_block, nth-new_block,
  filled-le-allocated,
}

module _ (heap : Allocator) (laws : IsAllocator heap) where
  abbrev grown : Buffer → ℕ → Buffer
  grown b size = record b { mem = new_block heap b.mem size; allocated = size }

  contents-grown :
      (m : Mode) (b : Buffer) (size : ℕ)
      → IsValid m b
      → b.read_pos ≤ b.write_pos
      → b.write_pos ≤ b.allocated
      → b.allocated < size
      → contents (grown b size) ≡ contents b
  contents-grown m b size v hr hw hs =
      contents_ext (grown b size) (contents b) (ground (arith, length-contents b)) λ i hi. ground (
        arith,
        length-contents b,
        nth-contents b i,
        v.block,
        nth-new_block heap laws b.mem size (b.read_pos + i),
      )

  abbrev pub resized : Mode → Buffer → ℕ → Buffer
  resized plain b size = grown b size
  resized circular b size = grown (crunched b) size

  pub contents-resized :
      (m : Mode) (b : Buffer) (size : ℕ)
      → IsValid m b
      → b.allocated < size
      → contents (resized m b size) ≡ contents b
  contents-resized plain b size v h = contents-grown plain b size v (omega arith) (omega arith) h
  contents-resized circular b size v h =
      contents-grown circular (crunched b) size (crunched-IsValid circular b v) (omega arith)
        (filled-le-allocated circular b v) h
      ∙ contents-crunched circular b v

  pub resized-IsValid :
      (m : Mode) (b : Buffer) (size : ℕ)
      → IsValid m b
      → b.allocated < size
      → size ≤ 2 ^ 63
      → IsValid m (resized m b size)
  resized-IsValid plain b size v h k = ground (arith, length-new_block heap laws b.mem size)
  resized-IsValid circular b size v h k =
      ground
        (arith, length-new_block heap laws (crunched b).mem size, filled-le-allocated circular b v)

  pub resize-ok :
      (m : Mode) (b : Buffer) (size : ℕ)
      → IsValid m b
      → b.on_demand ≡ true
      → b.allocated < size
      → resize heap m size b ≡ ok (resized m b size)
  unfolding resize
  resize-ok plain b size v d h = ground arith
  resize-ok circular b size v d h = ground (arith, crunch-circular b v)

  -- resize() of a valid buffer on demand to a larger block succeeds. The buffer stays valid, holds
  -- the same bytes, and has a block of the size asked for.
  pub resize_lem :
      (m : Mode) (b : Buffer) (size : ℕ)
      → IsValid m b
      → b.on_demand ≡ true
      → b.allocated < size
      → size ≤ 2 ^ 63
      → (b' : Buffer) × (resize heap m size b ≡ ok b')
        × IsValid m b'
        × (contents b' ≡ contents b)
        × (b'.allocated ≡ size)
  resize_lem plain b size v d h k = (
    resized plain b size,
    resize-ok plain b size v d h,
    resized-IsValid plain b size v h k,
    contents-resized plain b size v h,
    refl,
  )
  resize_lem circular b size v d h k = (
    resized circular b size,
    resize-ok circular b size v d h,
    resized-IsValid circular b size v h k,
    contents-resized circular b size v h,
    refl,
  )
