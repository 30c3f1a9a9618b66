-- ===== src/FragmentAllocator/Lists.antt =====
-- The blocks of FragmentAllocator in include/core/FragmentFreeAllocator.h and its source file: all of
-- them in a list in the order of their offsets, and those that are free in another.
use supercell_common.Common.{
  ℕ, zero, suc, Bool, true, false, Option, none, some, Result, ok, err, endless, leb, ◌==◌,
  if◌then◌else◌, ◌>>=◌, add_size, sub_size, Store, put, load, adjust, adjust_if, delete,
}

-- FragmentBlock
pub record Block : Type 0 where
  pub free : Bool
  pub offset : ℕ
  pub size : ℕ
  pub next_free : Option ℕ
  pub prev_free : Option ℕ
  pub next_block : Option ℕ
  pub prev_block : Option ℕ
  pub reference : Option ℕ

-- `head_free` and `head` are mFragmentBlockHeadFree and mFragmentBlockHead.
pub record Blocks : Type 0 where
  pub store : Store Block
  pub head_free : Option ℕ
  pub head : Option ℕ

abbrev pub set_next_block : Option ℕ → Block → Block
set_next_block p b = record b { next_block = p }

abbrev pub set_prev_block : Option ℕ → Block → Block
set_prev_block p b = record b { prev_block = p }

abbrev pub set_next_free : Option ℕ → Block → Block
set_next_free p b = record b { next_free = p }

abbrev pub set_prev_free : Option ℕ → Block → Block
set_prev_free p b = record b { prev_free = p }

abbrev pub points_to : Option ℕ → ℕ → Bool
points_to none a = false
points_to (some x) a = x == a

abbrev pub is_null : Option ℕ → Bool
is_null none = true
is_null (some x) = false

-- if (p->link) p->link->... = ..., where `f` has the new value from *p.
unfoldable pub through :
    Option ℕ → (Block → Option ℕ) → (Block → Block → Block) → Store Block → Result (Store Block)
unfolding load adjust_if
through p link f h = load h p >>= λ b. adjust_if (link b) (f b) h

-- The search of allocate() for a free block of at least `size` bytes.
unfoldable pub find_free : ℕ → ℕ → Option ℕ → Store Block → Result (Option ℕ)
unfolding load
find_free n size none h = ok none
find_free zero size (some a) h = err endless
find_free (suc n) size (some a) h =
    load h (some a) >>= λ b. if leb size b.size then ok (some a) else find_free n size b.next_free h

-- A new block on the left of the block at `current`.
unfoldable pub insert_left : ℕ → ℕ → ℕ → Store Block → Result (Store Block)
unfolding load put through adjust
insert_left new current size h = do
  cur ← load h (some current)
  let h₁ =
      put new
        (record {
          free = false;
          offset = cur.offset;
          size = size;
          next_free = none;
          prev_free = none;
          next_block = none;
          prev_block = cur.prev_block;
          reference = none;
        })
        h
  h₂ ← through (some current) (λ b. b.prev_block) (λ b. set_next_block (some new)) h₁
  h₃ ← adjust (some current) (set_prev_block (some new)) h₂
  adjust (some new) (set_next_block (some current)) h₃

-- The block at `current` taken out of both lists and deleted.
unfoldable pub unlink : ℕ → Blocks → Result Blocks
unfolding load through delete
unlink current bs = do
  h₁ ← through (some current) (λ b. b.prev_free) (λ b. set_next_free b.next_free) bs.store
  h₂ ← through (some current) (λ b. b.next_free) (λ b. set_prev_free b.prev_free) h₁
  h₃ ← through (some current) (λ b. b.prev_block) (λ b. set_next_block b.next_block) h₂
  h₄ ← through (some current) (λ b. b.next_block) (λ b. set_prev_block b.prev_block) h₃
  cur ← load h₄ (some current)
  h₅ ← delete current h₄
  ok (record bs {
    store = h₅;
    head_free = if points_to bs.head_free current then cur.next_free else bs.head_free;
  })

-- allocate() on the blocks: `size` bytes at the start of the block at `current` become a block of
-- their own, at `new`.
unfoldable pub take_block : ℕ → ℕ → ℕ → Blocks → Result Blocks
unfolding insert_left unlink load adjust
take_block new current size bs = do
  h₁ ← insert_left new current size bs.store
  cur ← load h₁ (some current)
  let bs₁ = record bs {
    store = h₁;
    head = if points_to bs.head current then cur.prev_block else bs.head;
  }
  if cur.size == size then unlink current bs₁ else (do
    h₂ ←
        adjust (some current)
          (λ b. record b { offset = add_size b.offset size; size = sub_size b.size size }) h₁
    ok (record bs₁ { store = h₂ }))
