-- ===== src/FragmentAllocator/Requests.antt =====
-- What allocate() of src/libzillians-common-core/core/FragmentFreeAllocator.cpp gives for the number
-- of bytes that its caller asks for.
use supercell_common.Common.{
  ℕ, suc, ◌+◌, ◌*◌, ◌≤◌, ◌<◌, ◌^◌, ◌≡◌, refl, true, false, some, List, inl, inr, arith, length, ok,
  addresses, ◌==◌, Bool-cases, eq→==,
}
use supercell_common.AtomicQueue.{has}
use supercell_common.FragmentAllocator.{FragmentAllocator, round_size, allocate}
use supercell_common.FragmentAllocator.Segments.{Segment, holds, take_first, held_bytes}
use supercell_common.FragmentAllocator.Taking.{Taken, here, there, take_first-Taken, is_new}
use supercell_common.FragmentAllocator.Serving.{Serves, Points, not-in-use, new-is_new}
use supercell_common.FragmentAllocator.Calls.{allocate-Serves}

-- The size rounded up is the only multiple of a chunk that is large enough and not a chunk too large.
round_size_lem :
    (size k : ℕ)
    → size ≤ k * 1024
    → k * 1024 < size + 1024
    → k * 1024 < 2 ^ 64
    → round_size size ≡ k * 1024
unfolding round_size
round_size_lem size k low high small = ground arith

bytes-Taken :
    (new size : ℕ) (ss ts : List Segment)
    → Taken new size ss ts
    → is_new new ss ≡ true
    → held_bytes new ts ≡ size
bytes-Taken new size _ _ (here s ss f) n = elim (Bool-cases (s.size == size)) [
  | inl e ↦ rw (e, eq→== new new refl) refl
  | inr e ↦ rw (e, eq→== new new refl) refl
]
bytes-Taken new size _ _ (there s ss ts t) n =
    let other : holds s.holder new ≡ false = ground (arith, n) in
    rw other (bytes-Taken new size ss ts t (ground (arith, n)))

-- allocate() of a size that rounds up to k chunks, less than 2^64 bytes, where a vacant segment has as
-- many: it succeeds, the first such segment is cut, the new pointer is to the start of a segment of at
-- least the bytes asked for and less than a chunk more, and every other pointer is to the same place
-- as before.
pub allocate_lem :
    (malloc : List ℕ → ℕ)
    → ((xs : List ℕ) → has xs (malloc xs) ≡ false)
    → (n size k : ℕ) (s : FragmentAllocator) (y : ℕ) (ss ts : List Segment) → suc y ≤ 2 ^ 64
    → length ss ≤ n
    → Serves s y ss
    → size ≤ k * 1024
    → k * 1024 < size + 1024
    → k * 1024 < 2 ^ 64
    → take_first (malloc (addresses s.blocks.store)) (k * 1024) ss ≡ some ts
    → (s' : FragmentAllocator) × (allocate malloc n size s
        ≡ ok (some (malloc (addresses s.pointers)), s'))
      × (size ≤ held_bytes (malloc (addresses s.blocks.store)) ts)
      × (held_bytes (malloc (addresses s.blocks.store)) ts < size + 1024)
      × Serves s' y ts
      × Points s' ts (malloc (addresses s.pointers)) (malloc (addresses s.blocks.store))
      × ((a cur : ℕ) → Points s ss a cur → Points s' ts a cur)
allocate_lem malloc fresh n size k s y ss ts small rounds S low high word e =
    let new = malloc (addresses s.blocks.store) in
    let same = round_size_lem size k low high word in
    let (s', runs, S', P, keep) =
      allocate-Serves malloc fresh n size s y ss small rounds S ts (rw same e) in
    let new? : is_new new ss ≡ true =
      new-is_new s.blocks y ss new S.refines
        (not-in-use s.blocks.store new (fresh (addresses s.blocks.store))) in
    let bytes = bytes-Taken new (k * 1024) ss ts (take_first-Taken new (k * 1024) ss ts e) new? in
    (s', runs, omega (arith, bytes, low), omega (arith, bytes, high), S', P, keep)
