-- ===== src/FragmentAllocator/Sweeps.antt =====
-- The loops over all blocks in src/libzillians-common-core/core/FragmentFreeAllocator.cpp: that of the
-- destructor, and the one that moves the blocks together.
use supercell_common.Common.{
  ℕ, zero, suc, ◌-◌, true, Option, none, some, List, [], ◌∷◌, ◌++◌, Result, ok, err, endless, ltb,
  if◌then◌else◌, ◌>>=◌, add_size, sub_size, Store, put, load, adjust, delete, addresses,
}
use supercell_common.FragmentAllocator.Lists.{
  Block, Blocks, set_next_block, set_prev_block, points_to, through,
}

-- The loop of the destructor.
unfoldable pub delete_all : ℕ → Option ℕ → Store Block → Result (Store Block)
unfolding load delete
delete_all n none h = ok h
delete_all zero (some a) h = err endless
delete_all (suc n) (some a) h =
    load h (some a) >>= λ b. delete a h >>= λ h'. delete_all n b.next_block h'

-- A call of the copy function.
pub record Moved : Type 0 where
  pub destination : ℕ
  pub origin : ℕ
  pub bytes : ℕ

-- The state of the loop of FragmentFreeOperator.
pub record Sweep : Type 0 where
  pub blocks : Blocks
  pub sum_offset : ℕ
  pub sum_free_space : ℕ
  pub last_allocated : Option ℕ
  pub copies : List Moved

-- One round, for a free block and for one that is not, and the block that is next.
unfoldable pub sweep_free : ℕ → Block → Sweep → Result (Option ℕ × Sweep)
unfolding through load delete
sweep_free current b w = do
  h₁ ← through (some current) (λ b. b.prev_block) (λ b. set_next_block b.next_block) w.blocks.store
  h₂ ← through (some current) (λ b. b.next_block) (λ b. set_prev_block b.prev_block) h₁
  cur ← load h₂ (some current)
  h₃ ← delete current h₂
  ok (
    cur.next_block,
    record w {
      sum_free_space = add_size w.sum_free_space b.size;
      blocks = record (w.blocks) {
        store = h₃;
        head = if points_to w.blocks.head current then cur.next_block else w.blocks.head;
      };
    },
  )

unfoldable pub sweep_used : ℕ → Store ℕ → Block → Sweep → Result (Option ℕ × Sweep)
unfolding load adjust
sweep_used current references b w =
    if ltb 0 w.sum_free_space
    then (do
      source ← load references b.reference
      h ←
          adjust (some current) (λ b. record b { offset = sub_size b.offset w.sum_free_space })
            w.blocks.store
      ok (
        b.next_block,
        record w {
          last_allocated = some current;
          sum_offset = add_size w.sum_offset b.size;
          blocks = record (w.blocks) { store = h };
          copies =
              w.copies
              ++ (record {
                destination = source - w.sum_free_space;
                origin = source;
                bytes = b.size;
              }
                  ∷ []);
        },
      ))
    else ok (
      b.next_block,
      record w { last_allocated = some current; sum_offset = add_size w.sum_offset b.size },
    )

unfoldable pub sweep : ℕ → Store ℕ → Option ℕ → Sweep → Result Sweep
unfolding load sweep_free sweep_used
sweep n references none w = ok w
sweep zero references (some a) w = err endless
sweep (suc n) references (some a) w = load w.blocks.store (some a) >>= λ b.
    (if b.free then sweep_free a b w else sweep_used a references b w) >>= λ r.
    sweep n references r.0 r.1

-- The single free block behind all others.
unfoldable pub append_free : (List ℕ → ℕ) → Sweep → Result Blocks
unfolding put adjust addresses
append_free malloc w =
    if ltb 0 w.sum_free_space
    then (do
      let new = malloc (addresses w.blocks.store)
      let h =
          put new
            (record {
              free = true;
              offset = w.sum_offset;
              size = w.sum_free_space;
              next_free = none;
              prev_free = none;
              next_block = none;
              prev_block = w.last_allocated;
              reference = none;
            })
            w.blocks.store
      h' ← adjust w.last_allocated (set_next_block (some new)) h
      ok (record (w.blocks) { store = h'; head_free = some new }))
    else ok (record (w.blocks) { head_free = none })

-- operator() of FragmentFreeOperator.
unfoldable pub defragment : (List ℕ → ℕ) → ℕ → Store ℕ → Blocks → Result (List Moved × Blocks)
unfolding sweep append_free
defragment malloc n references bs = do
  w ← sweep n references bs.head (record {
    blocks = bs;
    sum_offset = 0;
    sum_free_space = 0;
    last_allocated = none;
    copies = [];
  })
  bs' ← append_free malloc w
  ok (w.copies, bs')
