-- ===== src/Buffer/Copies.antt =====
-- getDirect, getArray, setDirect and setArray of include/core/Buffer.h byte by byte: what they copy
-- out at the read position and in at the write position, also across the end of a circular block.
use supercell_common.Common.{
  ℕ, ◌+◌, ◌-◌, ◌≤◌, ◌<◌, ◌≡◌, refl, ap, ◌∙◌, List, ◌++◌, ok, length, take, drop, length-take,
  length-append, inl, inr, nth-take, arith, list_ext, nth-append-left, nth-append-right, lt_or_le,
}
use supercell_common.Buffer.State.{Mode, plain, circular, Buffer}
use supercell_common.Buffer.Block.{get_direct}
use supercell_common.Buffer.Contents.{
  filled, contents, IsValid, length-contents, nth-contents, load_lem, length-slice, nth-slice,
}

-- A slice from the read position that does not cross the end of the block.
pub slice-eq-take :
    (b : Buffer) (n : ℕ)
    → b.allocated ≤ length b.mem
    → n ≤ filled b
    → b.read_pos + n ≤ b.allocated
    → take n (drop b.read_pos b.mem) ≡ take n (contents b)
slice-eq-take b n hm hn hr =
    list_ext (take n (drop b.read_pos b.mem)) (take n (contents b))
      (omega
        (arith, length-slice b.mem b.read_pos n, length-take n (contents b), length-contents b))
      λ i hi.
        let h : i < n = omega (arith, length-slice b.mem b.read_pos n) in
        ground (
          arith,
          nth-slice b.mem b.read_pos n i (b.read_pos + i) h refl,
          nth-take n (contents b) i h,
          nth-contents b i,
        )

-- What is read past the end of the block lies in the block.
pub back_fits :
    (b : Buffer) (n : ℕ)
    → n ≤ filled b
    → b.read_pos ≤ b.allocated
    → b.write_pos ≤ b.allocated
    → n ≤ b.allocated
back_fits b n hn hr hw = ground arith

-- The two slices of a read across the end of the block.
pub slices-eq-take :
    (b : Buffer) (n t : ℕ)
    → b.allocated ≤ length b.mem
    → n ≤ filled b
    → b.read_pos ≤ b.allocated
    → b.write_pos ≤ b.allocated
    → b.allocated ≤ b.read_pos + n
    → t ≡ b.allocated - b.read_pos
    → take t (drop b.read_pos b.mem) ++ take (n - t) (drop 0 b.mem) ≡ take n (contents b)
slices-eq-take b n t hm hn hr hw cross et =
    list_ext (front ++ back) (take n (contents b))
      (omega (
        arith,
        back_fits b n hn hr hw,
        length-append front back,
        length-slice b.mem b.read_pos t,
        length-slice b.mem 0 (n - t),
        length-take n (contents b),
        length-contents b,
      ))
      λ i hi.
        let h : i < n = omega (
          arith,
          back_fits b n hn hr hw,
          length-append front back,
          length-slice b.mem b.read_pos t,
          length-slice b.mem 0 (n - t),
        ) in
        elim (lt_or_le i t) [
          | inl low ↦ ground (
            arith,
            length-slice b.mem b.read_pos t,
            nth-append-left front back i,
            nth-slice b.mem b.read_pos t i (b.read_pos + i) low refl,
            nth-take n (contents b) i h,
            nth-contents b i,
          )
          | inr high ↦ ground (
            arith,
            length-slice b.mem b.read_pos t,
            nth-append-right front back i (i - t),
            back_fits b n hn hr hw,
            nth-slice b.mem 0 (n - t) (i - t) (i - t),
            nth-take n (contents b) i h,
            nth-contents b i,
          )
        ]
  where
    front : List ℕ
    front = take t (drop b.read_pos b.mem)

    back : List ℕ
    back = take (n - t) (drop 0 b.mem)

-- A read at the read position gives the oldest bytes.
pub get_direct_lem :
    (m : Mode) (b : Buffer) (n : ℕ)
    → IsValid m b
    → n ≤ filled b
    → get_direct m b b.read_pos n ≡ ok (take n (contents b))
unfolding get_direct
get_direct_lem plain b n v h =
    load_lem b.mem b.read_pos n (ground arith) ∙ ap ok (slice-eq-take b n v.block h (ground arith))
get_direct_lem circular b n v h = elim (lt_or_le b.allocated (b.read_pos + n)) [
  | inl cross ↦ ground (
    arith,
    back_fits b n h,
    load_lem b.mem b.read_pos (b.allocated - b.read_pos),
    load_lem b.mem 0 (n - (b.allocated - b.read_pos)),
    slices-eq-take b n (b.allocated - b.read_pos) v.block h (ground arith) (ground arith)
        (ground arith) refl,
  )
  | inr inside ↦
      ground (arith, back_fits b n h, load_lem b.mem b.read_pos n, slice-eq-take b n v.block h)
]
