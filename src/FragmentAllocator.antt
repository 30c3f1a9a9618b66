-- ===== src/FragmentAllocator.antt =====
-- FragmentAllocator of include/core/FragmentFreeAllocator.h and its source file: the allocator of
-- parts of one pool, and the operator that moves the parts together.
pub mod Lists
pub mod Joins
pub mod Sweeps
pub mod Chain
pub mod Ends
pub mod Pieces
pub mod Parts
pub mod Absent
pub mod Steps
pub mod Take
pub mod Merge
pub mod Absorb
pub mod Searches
pub mod Insert
pub mod Segments
pub mod Taking
pub mod Others
pub mod Release
pub mod Giving
pub mod Released
pub mod FirstFit
pub mod Refinement
pub mod Serving
pub mod Owners
pub mod Calls
pub mod Requests
pub mod RoundTrip
pub mod Sequences
pub mod Returned
pub mod Destroy
use supercell_common.Common.{
  ℕ, zero, suc, ◌+◌, ◌-◌, ◌*◌, ◌/◌, ◌%◌, ◌^◌, Bool, true, false, not, ◌&&◌, Option, none, some,
  List, [], ◌∷◌, ◌++◌, Result, ok, err, assertion, bad_access, endless, assert, leb, ◌==◌,
  if◌then◌else◌, ◌>>=◌, ◌>>◌, add_size, sub_size, Store, find, put, load, adjust, adjust_if, delete,
  addresses,
}
use supercell_common.FragmentAllocator.Lists.{Block, Blocks, points_to, take_block, find_free}
use supercell_common.FragmentAllocator.Joins.{release}
use supercell_common.FragmentAllocator.Sweeps.{defragment, delete_all, Moved}

-- mConfiguredChunkSize
abbrev pub chunk_size : ℕ
chunk_size = 1024

-- `target` is pointerReference, `shift` is pointerOffset.
pub record MutablePointer : Type 0 where
  pub target : Option ℕ
  pub shift : ℕ
  pub owner : Bool

-- `references` has the member `data` of each FragmentPointer, `map` is mPointerToBlockMap.
pub record FragmentAllocator : Type 0 where
  pub num_chunks : ℕ
  pub allocated_size : ℕ
  pub base : ℕ
  pub blocks : Blocks
  pub map : Store ℕ
  pub references : Store ℕ
  pub pointers : Store MutablePointer

-- The size rounded up to a multiple of the size of a chunk.
unfoldable pub round_size : ℕ → ℕ
round_size size =
    if size % chunk_size == 0 then size else (size / chunk_size + 1) * chunk_size % 2 ^ 64

module _ (malloc : List ℕ → ℕ) where
  -- FragmentAllocator(pool, size), where the pool is not NULL.
  unfoldable pub new_allocator : ℕ → ℕ → Result FragmentAllocator
  unfolding put
  new_allocator pool size = do
    assert (not (size == 0))
    ok (record {
      num_chunks = size / chunk_size;
      allocated_size = 0;
      base = pool;
      blocks = record {
        store =
            put (malloc [])
              (record {
                free = true;
                offset = 0;
                size = size;
                next_free = none;
                prev_free = none;
                next_block = none;
                prev_block = none;
                reference = none;
              })
              [];
        head_free = some (malloc []);
        head = some (malloc []);
      };
      map = [];
      references = [];
      pointers = [];
    })

  -- The end of allocate(): the pointer to the new block at `new`, of `size` bytes.
  unfoldable pub hand_out :
      ℕ → ℕ → Blocks → FragmentAllocator → Result (Option ℕ × FragmentAllocator)
  unfolding put addresses
  hand_out new size bs s = do
    block ← load bs.store (some new)
    let reference = malloc (addresses s.references)
    let pointer = malloc (addresses s.pointers)
    store ← adjust (some new) (λ b. record b { reference = some reference }) bs.store
    ok (
      some pointer,
      record s {
        allocated_size = add_size s.allocated_size size;
        blocks = record bs { store = store };
        map = put reference new s.map;
        references = put reference (s.base + block.offset) s.references;
        pointers =
            put pointer (record { target = some reference; shift = 0; owner = true }) s.pointers;
      },
    )

  -- allocate() once the block at `current` is found.
  unfoldable pub allocate_in :
      Option ℕ → ℕ → FragmentAllocator → Result (Option ℕ × FragmentAllocator)
  unfolding take_block hand_out addresses
  allocate_in none size s = ok (none, s)
  allocate_in (some current) size s = do
    let new = malloc (addresses s.blocks.store)
    bs ← take_block new current size s.blocks
    hand_out new size bs s

  -- allocate(): the new pointer, or none where it returns false. The search ends within `n` rounds
  -- or is endless.
  unfoldable pub allocate : ℕ → ℕ → FragmentAllocator → Result (Option ℕ × FragmentAllocator)
  unfolding find_free allocate_in round_size
  allocate n size s = do
    current ← find_free n (round_size size) s.blocks.head_free s.blocks.store
    allocate_in current (round_size size) s

-- SAFE_DELETE(pointer), with ~MutablePointer().
unfoldable pub delete_pointer : ℕ → MutablePointer → FragmentAllocator → Result FragmentAllocator
unfolding delete
delete_pointer a p s =
    if p.owner
    then (elim p.target [
      | none ↦ (delete a s.pointers >>= λ ps. ok (record s { pointers = ps }))
      | some r ↦
          (delete r s.references >>= λ rs.
          delete a s.pointers >>= λ ps. ok (record s { references = rs; pointers = ps }))
    ])
    else (delete a s.pointers >>= λ ps. ok (record s { pointers = ps }))

-- deallocate() once the block at `current` is found.
unfoldable pub deallocate_at :
    ℕ → ℕ → ℕ → ℕ → MutablePointer → FragmentAllocator → Result (Bool × FragmentAllocator)
unfolding load delete delete_pointer release
deallocate_at n a r current p s = do
  map' ← delete r s.map
  s' ← delete_pointer a p (record s { map = map' })
  block ← load s'.blocks.store (some current)
  bs ← release n current s'.blocks
  ok (true, record s' { allocated_size = sub_size s'.allocated_size block.size; blocks = bs })

unfoldable pub deallocate_found :
    ℕ → ℕ → ℕ → Option ℕ → MutablePointer → FragmentAllocator → Result (Bool × FragmentAllocator)
unfolding deallocate_at
deallocate_found n a r none p s = ok (false, s)
deallocate_found n a r (some current) p s = deallocate_at n a r current p s

unfoldable pub deallocate_target :
    ℕ → ℕ → Option ℕ → MutablePointer → FragmentAllocator → Result (Bool × FragmentAllocator)
unfolding find deallocate_found
deallocate_target n a none p s = ok (false, s)
deallocate_target n a (some r) p s = deallocate_found n a r (find s.map r) p s

-- deallocate()
unfoldable pub deallocate : ℕ → Option ℕ → FragmentAllocator → Result (Bool × FragmentAllocator)
unfolding load deallocate_target
deallocate n none s = ok (false, s)
deallocate n (some a) s = do p ← load s.pointers (some a); deallocate_target n a p.target p s

abbrev pub total : FragmentAllocator → ℕ
total s = chunk_size * s.num_chunks

abbrev pub available : FragmentAllocator → ℕ
available s = sub_size (total s) s.allocated_size

abbrev pub found_block : Option ℕ → Store ℕ → Option ℕ
found_block none m = none
found_block (some r) m = find m r

unfoldable pub is_valid : ℕ → FragmentAllocator → Result Bool
is_valid a s = do
  p ← load s.pointers (some a)
  ok (elim (found_block p.target s.map) [ none ↦ false | some block ↦ true ])

unfoldable pub info_size : ℕ → FragmentAllocator → Result ℕ
info_size a s = load s.pointers (some a) >>= λ p. elim (found_block p.target s.map) [
  | none ↦ ok 0
  | some block ↦ load s.blocks.store (some block) >>= λ b. ok b.size
]

-- data() of a pointer
unfoldable pub data_of : ℕ → FragmentAllocator → Result ℕ
data_of a s = do p ← load s.pointers (some a); d ← load s.references p.target; ok (d + p.shift)

-- ~FragmentAllocator(), with at most `n` blocks.
unfoldable pub destroy : ℕ → FragmentAllocator → Result (Store Block)
unfolding delete_all
destroy n s = do
  assert (s.allocated_size == 0)
  store ← delete_all n s.blocks.head s.blocks.store
  assert (elim s.map [ [] ↦ true | _ ∷ _ ↦ false ])
  ok store

-- FragmentFreeOperator(): the calls of the copy function too, each with its destination, source and
-- size.
unfoldable pub free_fragments :
    (List ℕ → ℕ) → ℕ → FragmentAllocator → Result (List Moved × FragmentAllocator)
unfolding defragment
free_fragments malloc n s = do
  r ← defragment malloc n s.references s.blocks
  ok (r.0, record s { blocks = r.1 })
