-- ===== src/Buffer/Stores.antt =====
-- setDirect and setArray of include/core/Buffer.h byte by byte: the block after a copy in at the
-- write position, also across the end of a circular block.
use supercell_common.Common.{
  ℕ, ◌+◌, ◌-◌, ◌≤◌, ◌<◌, ◌≡◌, List, ok, ltb, length, nth, take, drop, splice, length-take,
  length-drop, length-splice, inl, inr, nth-take, nth-drop, arith, if◌then◌else◌, nth-splice-below,
  nth-splice-inside, nth-splice-above, lt_or_le, ◌⊎◌,
}
use supercell_common.Buffer.State.{Mode, plain, circular, Buffer}
use supercell_common.Buffer.Block.{set_direct}
use supercell_common.Buffer.Contents.{filled, around, IsValid, store_lem}

-- The block after a copy in at the write position.
unfoldable pub written : Buffer → List ℕ → List ℕ
written b bs =
    let t = b.allocated - b.write_pos in
    if ltb b.allocated (b.write_pos + length bs)
    then splice 0 (drop t bs) (splice b.write_pos (take t bs) b.mem)
    else splice b.write_pos bs b.mem

pub length-written : (b : Buffer) (bs : List ℕ) → length (written b bs) ≡ length b.mem
unfolding written
length-written b bs =
    let t = b.allocated - b.write_pos in
    ground (
      arith,
      length-splice 0 (drop t bs) (splice b.write_pos (take t bs) b.mem),
      length-splice b.write_pos (take t bs) b.mem,
      length-splice b.write_pos bs b.mem,
    )

module _ (b : Buffer) (bs : List ℕ) (block : b.allocated ≤ length b.mem)
    (in_block : b.write_pos ≤ b.allocated) (fits : length bs ≤ b.allocated) where
  -- The bytes copied before the end of the block.
  pub nth-written-upper :
      (j : ℕ)
      → b.write_pos ≤ j
      → j < b.allocated
      → j < b.write_pos + length bs
      → nth (written b bs) j ≡ nth bs (j - b.write_pos)
  unfolding written
  nth-written-upper j lo hi hn =
      let t = b.allocated - b.write_pos in
      let w = b.write_pos in
      elim (lt_or_le b.allocated (w + length bs)) [
        | inl cross ↦ ground (
          arith,
          length-drop t bs,
          length-take t bs,
          nth-splice-above 0 (drop t bs) (splice w (take t bs) b.mem) j,
          nth-splice-inside w (take t bs) b.mem j (j - w),
          nth-take t bs (j - w),
        )
        | inr inside ↦ ground (arith, nth-splice-inside w bs b.mem j (j - w))
      ]

  -- The bytes copied to the start of the block.
  pub nth-written-lower :
      (j : ℕ)
      → j + b.allocated < b.write_pos + length bs
      → nth (written b bs) j ≡ nth bs (j + b.allocated - b.write_pos)
  unfolding written
  nth-written-lower j hn =
      let t = b.allocated - b.write_pos in
      let w = b.write_pos in
      ground (
        arith,
        length-drop t bs,
        length-splice w (take t bs) b.mem,
        nth-splice-inside 0 (drop t bs) (splice w (take t bs) b.mem) j j,
        nth-drop t bs j (j + b.allocated - w),
      )

  -- The bytes that are not overwritten.
  pub nth-written-other :
      (j : ℕ)
      → (j < b.write_pos) ⊎ (b.write_pos + length bs ≤ j)
      → b.write_pos + length bs ≤ j + b.allocated
      → nth (written b bs) j ≡ nth b.mem j
  unfolding written
  nth-written-other j away low =
      let t = b.allocated - b.write_pos in
      let w = b.write_pos in
      ground (
        arith,
        length-drop t bs,
        length-take t bs,
        nth-splice-above 0 (drop t bs) (splice w (take t bs) b.mem) j,
        nth-splice-below w (take t bs) b.mem j,
        nth-splice-above w (take t bs) b.mem j,
        nth-splice-below w bs b.mem j,
        nth-splice-above w bs b.mem j,
      )

-- There is room for `n` bytes: up to the end of a plain block, and all but one byte round a
-- circular one.
abbrev pub HasRoom : Mode → ℕ → Buffer → Type 0
HasRoom plain n b = b.write_pos + n ≤ b.allocated
HasRoom circular n b = filled b + n < b.allocated

-- A copy in at the write position stays in the block.
pub set_direct_lem :
    (m : Mode) (b : Buffer) (bs : List ℕ)
    → IsValid m b
    → HasRoom m (length bs) b
    → set_direct m b b.write_pos bs ≡ ok (record b { mem = written b bs })
unfolding set_direct written
set_direct_lem plain b bs v h = ground (arith, store_lem b.mem b.write_pos bs)
set_direct_lem circular b bs v h =
    let t = b.allocated - b.write_pos in
    ground (
      arith,
      length-drop t bs,
      length-take t bs,
      length-splice b.write_pos (take t bs) b.mem,
      store_lem b.mem b.write_pos bs,
      store_lem b.mem b.write_pos (take t bs),
      store_lem (splice b.write_pos (take t bs) b.mem) 0 (drop t bs),
    )

-- The write position after `n` bytes.
abbrev pub advance : Mode → ℕ → ℕ → ℕ → ℕ
advance plain allocated pos n = pos + n
advance circular allocated pos n = around allocated (pos + n)

-- The buffer after the copy and the skip.
abbrev pub extended : Mode → Buffer → List ℕ → Buffer
extended m b bs = record b {
  mem = written b bs;
  write_pos = advance m b.allocated b.write_pos (length bs);
}
