-- ===== src/Buffer/Construct.antt =====
-- New buffers, and what a move leaves, of include/core/Buffer.h.
use supercell_common.Common.{
  ℕ, ◌+◌, ◌^◌, ◌≤◌, ◌<◌, ◌≡◌, refl, false, List, [], ◌∷◌, ok, err, assertion, length, arith, lt→ltb,
  add_size,
}
use supercell_common.Buffer.State.{
  Mode, plain, circular, Buffer, Allocator, IsAllocator, default_buffer, sized_buffer, move_buffer,
  move_assign,
}
use supercell_common.Buffer.Positions.{free_size, allocated_size, data_size, clear}
use supercell_common.Buffer.Block.{write_array}
use supercell_common.Buffer.Contents.{contents, IsValid, contents_ext}
use supercell_common.Buffer.Stores.{HasRoom}
use supercell_common.Buffer.Write.{write_array-full}

-- A buffer whose positions are at the start holds nothing.
contents-empty : (b : Buffer) → b.read_pos ≡ 0 → b.write_pos ≡ 0 → contents b ≡ []
contents-empty b r w = contents_ext b [] (ground (arith, r, w)) (λ i h. absurd (omega arith))

module _ (heap : Allocator) (laws : IsAllocator heap) where
  abbrev new_buffer : Mode → ℕ → Buffer
  new_buffer plain size = record default_buffer {
    mem = heap.malloc size;
    allocated = size;
    on_demand = false;
  }
  new_buffer circular size = record default_buffer {
    mem = heap.malloc (add_size size 1);
    allocated = add_size size 1;
    on_demand = false;
  }

  -- A new buffer of a size above 0 is valid, holds nothing, has all of that size free, and room for
  -- as many bytes and no more.
  pub sized_buffer_lem :
      (m : Mode) (size : ℕ)
      → 0 < size
      → size ≤ 2 ^ 62
      → (b : Buffer) × (sized_buffer heap m size ≡ ok b)
        × IsValid m b
        × (contents b ≡ [])
        × (free_size m b ≡ size)
        × HasRoom m size b
        × (¬ HasRoom m (size + 1) b)
  unfolding sized_buffer free_size allocated_size data_size
  sized_buffer_lem plain size h k = (
    new_buffer plain size,
    rw (lt→ltb 0 size h) refl,
    ground (arith, laws.malloc_size size),
    contents-empty (new_buffer plain size) refl refl,
    ground arith,
    ground arith,
    ground arith,
  )
  sized_buffer_lem circular size h k = (
    new_buffer circular size,
    rw (lt→ltb 0 size h) refl,
    ground (arith, laws.malloc_size (add_size size 1)),
    contents-empty (new_buffer circular size) refl refl,
    ground arith,
    ground arith,
    ground arith,
  )

  -- What a move leaves of the old buffer.
  abbrev hollow : Buffer
  hollow = record default_buffer { owner = false; on_demand = false }

  hollow-IsValid : (m : Mode) → IsValid m hollow
  hollow-IsValid plain = ground arith
  hollow-IsValid circular = ground arith

  hollow-write :
      (m : Mode) (x : ℕ) (xs : List ℕ)
      → length xs < 2 ^ 62
      → write_array heap m (x ∷ xs) hollow ≡ err assertion
  hollow-write plain x xs h =
      write_array-full heap laws plain (x ∷ xs) hollow (hollow-IsValid plain) (omega arith) refl
        (omega arith)
  hollow-write circular x xs h =
      write_array-full heap laws circular (x ∷ xs) hollow (hollow-IsValid circular) (omega arith)
        refl (omega arith)

  -- What a move of a buffer comes to: the new buffer is as the moved one was, and the old one is
  -- valid, holds nothing, owns nothing and refuses every write of at least one byte.
  pub record IsMoved (m : Mode) (b old new : Buffer) : Type 0 where
    pub same : new ≡ b
    pub valid : IsValid m old
    pub empty : contents old ≡ []
    pub disowned : old.owner ≡ false
    pub refuses :
        (x : ℕ) (xs : List ℕ) → length xs < 2 ^ 62 → write_array heap m (x ∷ xs) old ≡ err assertion

  hollow-IsMoved : (m : Mode) (b : Buffer) → IsMoved m b hollow b
  hollow-IsMoved m b = record {
    same = refl;
    valid = hollow-IsValid m;
    empty = contents-empty hollow refl refl;
    disowned = refl;
    refuses = hollow-write m;
  }

  -- A move, by construction and by assignment over any target, gives a new buffer that is as the
  -- moved one was, and leaves the old one valid, empty, owner of nothing and refusing every write of
  -- at least one byte and less than 2^62 + 1.
  pub move_buffer-left :
      (m : Mode) (b target : Buffer)
      → IsMoved m b (move_buffer b).1 (move_buffer b).0
        × IsMoved m b (move_assign target b).1 (move_assign target b).0
  unfolding move_buffer move_assign
  move_buffer-left m b target = (hollow-IsMoved m b, hollow-IsMoved m b)

-- clear() of a valid buffer leaves a valid one that holds nothing and has its whole size free.
pub clear_lem :
    (m : Mode) (b : Buffer)
    → IsValid m b
    → IsValid m (clear b) × (contents (clear b) ≡ []) × (free_size m (clear b) ≡ allocated_size m b)
unfolding clear free_size allocated_size data_size
clear_lem plain b v = (ground arith, contents-empty (clear b) refl refl, ground arith)
clear_lem circular b v = (ground arith, contents-empty (clear b) refl refl, ground arith)
