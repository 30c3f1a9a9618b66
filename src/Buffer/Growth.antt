-- ===== src/Buffer/Growth.antt =====
-- crunch() and resize() of include/core/Buffer.h, and the growth of writeDirect and writeArray: the
-- bytes held stay the same, and there is room for what is to be written.
use native.Mathlib.Nat.{le_refl}
use supercell_common.Common.{
  ℕ, ◌-◌, ◌≤◌, ◌<◌, ◌≡◌, refl, ◌∙◌, List, [], ◌∷◌, ◌++◌, ok, ltb, length, nth, take, drop, splice,
  length-splice, inl, inr, arith, if◌then◌else◌, nth-splice-inside, take-length, lt_or_le, ◌&&◌,
  Bool-cases,
}
use supercell_common.Buffer.State.{Mode, plain, circular, Buffer, Allocator, IsAllocator}
use supercell_common.Buffer.Positions.{data_size}
use supercell_common.Buffer.Block.{crunch, new_block}
use supercell_common.Buffer.Contents.{
  filled, contents, IsValid, length-contents, contents_ext, load_lem, store_lem,
}
use supercell_common.Buffer.Copies.{slice-eq-take, slices-eq-take}

-- The bytes held, moved to the start of the block.
abbrev pub crunched : Buffer → Buffer
crunched b = record b { mem = splice 0 (contents b) b.mem; read_pos = 0; write_pos = filled b }

pub filled-le-allocated : (m : Mode) (b : Buffer) → IsValid m b → filled b ≤ b.allocated
filled-le-allocated plain b v = ground arith
filled-le-allocated circular b v = ground arith

pub contents-crunched : (m : Mode) (b : Buffer) → IsValid m b → contents (crunched b) ≡ contents b
contents-crunched m b v =
    contents_ext (crunched b) (contents b) (ground (arith, length-contents b)) λ i hi. ground (
      arith,
      length-contents b,
      filled-le-allocated m b v,
      v.block,
      nth-splice-inside 0 (contents b) b.mem i i,
    )

pub crunched-IsValid : (m : Mode) (b : Buffer) → IsValid m b → IsValid m (crunched b)
crunched-IsValid plain b v = ground (arith, length-splice 0 (contents b) b.mem)
crunched-IsValid circular b v = ground (arith, length-splice 0 (contents b) b.mem)

end_in_block : (m : Mode) (b : Buffer) → IsValid m b → b.write_pos ≤ b.allocated
end_in_block plain b v = omega arith
end_in_block circular b v = omega arith

take-contents : (b : Buffer) (n : ℕ) → n ≡ filled b → take n (contents b) ≡ contents b
take-contents b n e = rw (e, ← length-contents b) (take-length (contents b))

-- The bytes held, as the slices that crunch() copies.
pub slices-eq-contents :
    (b : Buffer) (t w : ℕ)
    → IsValid circular b
    → b.write_pos < b.read_pos
    → t ≡ b.allocated - b.read_pos
    → w ≡ b.write_pos
    → take t (drop b.read_pos b.mem) ++ take w (drop 0 b.mem) ≡ contents b
slices-eq-contents b t w v wrapped et ew =
    let n : ℕ = filled b in
    let ew' : w ≡ n - t = ground arith in
    rw ew' (slices-eq-take b n t v.block (le_refl n) (omega arith) (omega arith) (ground arith) et)
    ∙ take-contents b n refl

pub slice-eq-contents :
    (m : Mode) (b : Buffer) (n : ℕ)
    → IsValid m b
    → b.read_pos ≤ b.write_pos
    → n ≡ b.write_pos - b.read_pos
    → take n (drop b.read_pos b.mem) ≡ contents b
slice-eq-contents m b n v straight e =
    let f : n ≡ filled b = ground arith in
    slice-eq-take b n v.block (omega arith)
      (omega (arith, filled-le-allocated m b v, end_in_block m b v))
    ∙ take-contents b n f

-- crunch() of a circular buffer always moves the bytes to the start.
pub crunch-circular : (b : Buffer) → IsValid circular b → crunch circular b ≡ ok (crunched b)
unfolding crunch
crunch-circular b v = elim (lt_or_le b.write_pos b.read_pos) [
  | inl wrapped ↦ ground (
    arith,
    load_lem b.mem b.read_pos (b.allocated - b.read_pos),
    load_lem b.mem 0 b.write_pos,
    slices-eq-contents b (b.allocated - b.read_pos) b.write_pos v wrapped refl refl,
    length-contents b,
    filled-le-allocated circular b v,
    store_lem b.mem 0 (contents b),
  )
  | inr straight ↦ ground (
    arith,
    load_lem b.mem b.read_pos (b.write_pos - b.read_pos),
    slice-eq-contents circular b (b.write_pos - b.read_pos) v straight refl,
    length-contents b,
    filled-le-allocated circular b v,
    store_lem b.mem 0 (contents b),
  )
]

-- crunch() of a plain buffer moves them unless it is empty or they stand there already.
crunch-plain :
    (b : Buffer)
    → IsValid plain b
    → crunch plain b ≡ ok (if ltb 0 (filled b) && ltb 0 b.read_pos then crunched b else b)
unfolding crunch data_size
crunch-plain b v =
    let straight : b.read_pos ≤ b.write_pos = omega arith in
    ground (
      arith,
      load_lem b.mem b.read_pos (b.write_pos - b.read_pos),
      slice-eq-contents plain b (b.write_pos - b.read_pos) v straight refl,
      length-contents b,
      filled-le-allocated plain b v,
      store_lem b.mem 0 (contents b),
    )

-- crunch() succeeds, and leaves a valid buffer with the same bytes in a block of the same size.
pub crunch_lem :
    (m : Mode) (b : Buffer)
    → IsValid m b
    → (b' : Buffer) × (crunch m b ≡ ok b')
      × IsValid m b'
      × (contents b' ≡ contents b)
      × (b'.allocated ≡ b.allocated)
crunch_lem plain b v = elim (Bool-cases (ltb 0 (filled b) && ltb 0 b.read_pos)) [
  | inl moved ↦ (
    crunched b,
    crunch-plain b v ∙ rw moved refl,
    crunched-IsValid plain b v,
    contents-crunched plain b v,
    refl,
  )
  | inr still ↦ (b, crunch-plain b v ∙ rw still refl, v, refl, refl)
]
crunch_lem circular b v = (
  crunched b,
  crunch-circular b v,
  crunched-IsValid circular b v,
  contents-crunched circular b v,
  refl,
)

-- A block of more bytes than before holds the old ones at the same places.
module _ (heap : Allocator) (laws : IsAllocator heap) where
  pub length-new_block : (xs : List ℕ) (n : ℕ) → length (new_block heap xs n) ≡ n
  unfolding new_block
  length-new_block [] n = laws.malloc_size n
  length-new_block (x ∷ xs) n = laws.realloc_size (x ∷ xs) n

  pub nth-new_block :
      (xs : List ℕ) (n i : ℕ) → i < length xs → i < n → nth (new_block heap xs n) i ≡ nth xs i
  unfolding new_block
  nth-new_block [] n i h k = absurd (omega arith)
  nth-new_block (x ∷ xs) n i h k = laws.realloc_keeps (x ∷ xs) n i h k
