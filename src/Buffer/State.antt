-- ===== src/Buffer/State.antt =====
-- The state of BufferBase (include/core/Buffer.h) and its constructors and assignments.
--
-- `mem` is the block that mData points to, [] for NULL; `allocated` is mAllocatedSize. A buffer over
-- a caller's block has that block in `mem`. Freeing a block is not visible to the buffer.
use supercell_common.Common.{
  ℕ, ◌+◌, ◌<◌, ◌≡◌, Bool, true, false, List, [], Result, ok, err, assert, ltb, leb, length, nth,
  take, drop, splice, bad_access, add_size, ◌>>=◌, ◌>>◌, if◌then◌else◌,
}

-- BufferMode::type
pub data Mode : Type 0 where
  plain circular : Mode

pub record Buffer : Type 0 where
  pub mem : List ℕ
  pub allocated : ℕ
  pub owner : Bool
  pub read_only : Bool
  pub on_demand : Bool
  pub read_pos : ℕ
  pub write_pos : ℕ
  pub read_pos_marked : ℕ
  pub write_pos_marked : ℕ

-- malloc and realloc of the C library. The bytes of a new block are not determined.
pub record Allocator : Type 0 where
  pub malloc : ℕ → List ℕ
  pub realloc : List ℕ → ℕ → List ℕ

-- What the code relies on: a block has the size asked for, and realloc keeps the bytes that fit.
pub record IsAllocator (heap : Allocator) : Type 0 where
  pub malloc_size : (n : ℕ) → length (heap.malloc n) ≡ n
  pub realloc_size : (xs : List ℕ) (n : ℕ) → length (heap.realloc xs n) ≡ n
  pub realloc_keeps :
      (xs : List ℕ) (n i : ℕ) → i < length xs → i < n → nth (heap.realloc xs n) i ≡ nth xs i

-- memcpy out of a block, and into one.
unfoldable pub load : List ℕ → ℕ → ℕ → Result (List ℕ)
load mem p n = if leb (p + n) (length mem) then ok (take n (drop p mem)) else err bad_access

unfoldable pub store : List ℕ → ℕ → List ℕ → Result (List ℕ)
store mem p bs = if leb (p + length bs) (length mem) then ok (splice p bs mem) else err bad_access

-- BufferBase()
abbrev pub default_buffer : Buffer
default_buffer = record {
  mem = [];
  allocated = 0;
  owner = true;
  read_only = false;
  on_demand = true;
  read_pos = 0;
  write_pos = 0;
  read_pos_marked = 0;
  write_pos_marked = 0;
}

-- BufferBase(byte*, std::size_t)
unfoldable pub wrapped_buffer : List ℕ → ℕ → Buffer
wrapped_buffer block size = record default_buffer {
  mem = block;
  allocated = size;
  owner = false;
  on_demand = false;
}

-- BufferBase(const byte*, std::size_t)
unfoldable pub const_buffer : List ℕ → ℕ → Buffer
const_buffer block size = record default_buffer {
  mem = block;
  allocated = size;
  owner = false;
  read_only = true;
  on_demand = false;
}

-- BufferBase(BufferBase&&): the new buffer, and what is left of the old one.
unfoldable pub move_buffer : Buffer → Buffer × Buffer
move_buffer b = (b, record default_buffer { owner = false; on_demand = false })

-- operator=(BufferBase&&) from another buffer; the target's own block is freed.
unfoldable pub move_assign : Buffer → Buffer → Buffer × Buffer
move_assign target b = (b, record default_buffer { owner = false; on_demand = false })

module _ (heap : Allocator) where
  -- BufferBase(std::size_t)
  unfoldable pub sized_buffer : Mode → ℕ → Result Buffer
  sized_buffer plain size = do
    assert (ltb 0 size)
    ok (record default_buffer { mem = heap.malloc size; allocated = size; on_demand = false })
  sized_buffer circular size = do
    assert (ltb 0 size)
    ok (record default_buffer {
      mem = heap.malloc (add_size size 1);
      allocated = add_size size 1;
      on_demand = false;
    })

  -- BufferBase(const BufferBase&): an owner is cloned, any other buffer shares the caller's block.
  unfoldable pub copy_buffer : Buffer → Result Buffer
  copy_buffer b =
      if b.owner
      then (do
        bytes ← load b.mem 0 b.allocated
        block ← store (heap.malloc b.allocated) 0 bytes
        ok (record b { mem = block; owner = true; read_only = false }))
      else ok (record b { owner = false })

  -- operator=(const BufferBase&) from another buffer: as the copy constructor, but mOnDemand is kept.
  unfoldable pub assign_buffer : Buffer → Buffer → Result Buffer
  assign_buffer target b =
      if b.owner
      then (do
        bytes ← load b.mem 0 b.allocated
        block ← store (heap.malloc b.allocated) 0 bytes
        ok (record b {
          mem = block;
          owner = true;
          read_only = false;
          on_demand = target.on_demand;
        }))
      else ok (record b { owner = false; on_demand = target.on_demand })
