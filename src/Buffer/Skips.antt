-- ===== src/Buffer/Skips.antt =====
-- The skips of include/core/Buffer.h: what rskip and wskip do to the bytes held, and that the moves
-- back undo them.
use supercell_common.Common.{
  ℕ, ◌+◌, ◌-◌, ◌≤◌, ◌<◌, ◌≡◌, List, ◌++◌, ok, length, nth, drop, length-drop, length-append, inl,
  inr, nth-drop, arith, nth-append-left, nth-append-right, lt_or_le,
}
use supercell_common.Buffer.State.{Mode, plain, circular, Buffer}
use supercell_common.Buffer.Positions.{data_size, free_size, allocated_size, rskip, wskip}
use supercell_common.Buffer.Contents.{
  filled, around, contents, IsValid, length-contents, nth-contents, contents_ext,
}
use supercell_common.Buffer.Stores.{
  written, length-written, nth-written-upper, nth-written-lower, nth-written-other, HasRoom,
  advance, extended,
}

-- dataSize() is the number of bytes held.
pub data_size_lem : (m : Mode) (b : Buffer) → IsValid m b → data_size m b ≡ filled b
unfolding data_size
data_size_lem plain b v = ground arith
data_size_lem circular b v = ground arith

-- The bytes after a copy in and a skip are the old ones and then the new ones.
pub filled-extended :
    (m : Mode) (b : Buffer) (bs : List ℕ)
    → IsValid m b
    → HasRoom m (length bs) b
    → filled (extended m b bs) ≡ filled b + length bs
filled-extended plain b bs v h = ground arith
filled-extended circular b bs v h = ground arith

pub extended-IsValid :
    (m : Mode) (b : Buffer) (bs : List ℕ)
    → IsValid m b
    → HasRoom m (length bs) b
    → IsValid m (extended m b bs)
extended-IsValid plain b bs v h = ground (arith, length-written b bs)
extended-IsValid circular b bs v h = ground (arith, length-written b bs)

write-in-block :
    (m : Mode) (b : Buffer) (n : ℕ)
    → IsValid m b
    → HasRoom m n b
    → (b.write_pos ≤ b.allocated) × (n ≤ b.allocated)
write-in-block plain b n v h = ground arith
write-in-block circular b n v h = ground arith

nth-extended :
    (m : Mode) (b : Buffer) (bs : List ℕ)
    → IsValid m b
    → HasRoom m (length bs) b
    → (i : ℕ) → i < filled b + length bs
    → nth (written b bs) (around b.allocated (b.read_pos + i)) ≡ nth (contents b ++ bs) i
nth-extended plain b bs v h i hi =
    let (hw, hn) = write-in-block plain b (length bs) v h in
    elim (lt_or_le i (filled b)) [
      | inl old ↦ ground (
        arith,
        length-contents b,
        nth-append-left (contents b) bs i,
        nth-contents b i old,
        nth-written-other b bs v.block hw hn (b.read_pos + i),
      )
      | inr new ↦ ground (
        arith,
        length-contents b,
        nth-append-right (contents b) bs i (i - filled b),
        nth-written-upper b bs v.block hw hn (b.read_pos + i),
      )
    ]
nth-extended circular b bs v h i hi =
    let (hw, hn) = write-in-block circular b (length bs) v h in
    let j : ℕ = around b.allocated (b.read_pos + i) in
    elim (lt_or_le i (filled b)) [
      | inl old ↦ ground (
        arith,
        length-contents b,
        nth-append-left (contents b) bs i,
        nth-contents b i old,
        nth-written-other b bs v.block hw hn j,
      )
      | inr new ↦ ground (
        arith,
        length-contents b,
        nth-append-right (contents b) bs i (i - filled b),
        nth-written-upper b bs v.block hw hn j,
        nth-written-lower b bs v.block hw hn j,
      )
    ]

pub contents-extended :
    (m : Mode) (b : Buffer) (bs : List ℕ)
    → IsValid m b
    → HasRoom m (length bs) b
    → contents (extended m b bs) ≡ contents b ++ bs
contents-extended m b bs v h =
    contents_ext (extended m b bs) (contents b ++ bs)
      (omega (arith, filled-extended m b bs v h, length-append (contents b) bs, length-contents b))
      λ i hi.
        nth-extended m b bs v h i (omega (arith, length-append (contents b) bs, length-contents b))

-- wskip of the bytes just copied in is admitted, and moves the write position.
pub wskip-written :
    (m : Mode) (b : Buffer) (bs : List ℕ)
    → IsValid m b
    → HasRoom m (length bs) b
    → wskip m (length bs) (record b { mem = written b bs }) ≡ ok (extended m b bs)
unfolding wskip allocated_size data_size free_size
wskip-written plain b bs v h = ground arith
wskip-written circular b bs v h = ground arith

-- The buffer after a skip of the oldest `n` bytes.
abbrev pub skipped : Mode → Buffer → ℕ → Buffer
skipped m b n = record b { read_pos = advance m b.allocated b.read_pos n }

pub rskip_lem :
    (m : Mode) (b : Buffer) (n : ℕ) → IsValid m b → n ≤ filled b → rskip m n b ≡ ok (skipped m b n)
unfolding rskip data_size
rskip_lem plain b n v h = ground arith
rskip_lem circular b n v h = ground arith

pub skipped-IsValid :
    (m : Mode) (b : Buffer) (n : ℕ) → IsValid m b → n ≤ filled b → IsValid m (skipped m b n)
skipped-IsValid plain b n v h = ground arith
skipped-IsValid circular b n v h = ground arith

filled-skipped :
    (m : Mode) (b : Buffer) (n : ℕ)
    → IsValid m b
    → n ≤ filled b
    → filled (skipped m b n) ≡ filled b - n
filled-skipped plain b n v h = ground arith
filled-skipped circular b n v h = ground arith

nth-skipped :
    (m : Mode) (b : Buffer) (n : ℕ)
    → IsValid m b
    → n ≤ filled b
    → (i : ℕ) → i < filled b - n
    → nth b.mem (around b.allocated ((skipped m b n).read_pos + i)) ≡ nth (drop n (contents b)) i
nth-skipped plain b n v h i hi =
    ground (arith, nth-drop n (contents b) i (n + i), nth-contents b (n + i))
nth-skipped circular b n v h i hi =
    ground (arith, nth-drop n (contents b) i (n + i), nth-contents b (n + i))

pub contents-skipped :
    (m : Mode) (b : Buffer) (n : ℕ)
    → IsValid m b
    → n ≤ filled b
    → contents (skipped m b n) ≡ drop n (contents b)
contents-skipped m b n v h =
    contents_ext (skipped m b n) (drop n (contents b))
      (omega (arith, filled-skipped m b n v h, length-drop n (contents b), length-contents b))
      λ i hi. nth-skipped m b n v h i (omega (arith, length-drop n (contents b), length-contents b))
