-- ===== src/FragmentAllocator/Joins.antt =====
-- deallocate() of src/libzillians-common-core/core/FragmentFreeAllocator.cpp on the lists of blocks.
use supercell_common.Common.{
  ℕ, zero, suc, Bool, true, false, not, Option, none, some, Result, ok, err, bad_access, endless,
  assert, if◌then◌else◌, ◌>>=◌, ◌>>◌, add_size, Store, load, adjust, adjust_if, delete,
}
use supercell_common.FragmentAllocator.Lists.{
  Block, Blocks, set_next_block, set_prev_block, set_next_free, set_prev_free, points_to, is_null,
  through,
}

-- Whether a pointer is to a free block.
unfoldable pub is_free : Option ℕ → Store Block → Result Bool
unfolding load
is_free none h = ok false
is_free (some a) h = load h (some a) >>= λ b. ok b.free

-- deallocate() where both neighbours are free: they are merged into the block.
unfoldable pub merge_both : ℕ → ℕ → ℕ → Blocks → Result Blocks
unfolding load adjust through delete
merge_both current prev next bs = do
  l ← load bs.store (some prev)
  r ← load bs.store (some next)
  h₁ ←
      adjust (some current)
        (λ b. record b {
          prev_free = l.prev_free;
          next_free = r.next_free;
          prev_block = l.prev_block;
          next_block = r.next_block;
        })
        bs.store
  h₂ ← through (some prev) (λ b. b.prev_free) (λ b. set_next_free (some current)) h₁
  h₃ ← through (some next) (λ b. b.next_free) (λ b. set_prev_free (some current)) h₂
  h₄ ← through (some prev) (λ b. b.prev_block) (λ b. set_next_block (some current)) h₃
  h₅ ← through (some next) (λ b. b.next_block) (λ b. set_prev_block (some current)) h₄
  l' ← load h₅ (some prev)
  r' ← load h₅ (some next)
  h₆ ←
      adjust (some current)
        (λ b. record b {
          free = true;
          offset = l'.offset;
          size = add_size (add_size l'.size b.size) r'.size;
        })
        h₅
  assert (not (is_null bs.head_free))
  h₇ ← delete prev h₆
  h₈ ← delete next h₇
  ok (record {
    store = h₈;
    head_free = if points_to bs.head_free prev then some current else bs.head_free;
    head = if points_to bs.head prev then some current else bs.head;
  })

-- deallocate() where only the block before is free: the block is merged into it.
unfoldable pub merge_left : ℕ → ℕ → Option ℕ → Blocks → Result Blocks
unfolding load adjust adjust_if delete
merge_left current prev next bs = do
  h₁ ← adjust (some prev) (set_next_block next) bs.store
  h₂ ← adjust_if next (set_prev_block (some prev)) h₁
  cur ← load h₂ (some current)
  h₃ ← adjust (some prev) (λ b. record b { size = add_size b.size cur.size }) h₂
  assert (not (is_null bs.head_free))
  assert (not (points_to bs.head_free current))
  assert (not (points_to bs.head current))
  h₄ ← delete current h₃
  ok (record bs { store = h₄ })

-- deallocate() where only the block behind is free.
unfoldable pub merge_right : ℕ → Option ℕ → ℕ → Blocks → Result Blocks
unfolding load adjust adjust_if delete
merge_right current prev next bs = do
  h₁ ← adjust (some next) (set_prev_block prev) bs.store
  h₂ ← adjust_if prev (set_next_block (some next)) h₁
  cur ← load h₂ (some current)
  h₃ ←
      adjust (some next) (λ b. record b { offset = cur.offset; size = add_size b.size cur.size }) h₂
  assert (not (is_null bs.head_free))
  assert (not (points_to bs.head_free current))
  h₄ ← delete current h₃
  ok (record bs {
    store = h₄;
    head = if points_to bs.head current then cur.next_block else bs.head;
  })

-- The first free block from `p` on, to the left and to the right.
unfoldable pub search_left : ℕ → Option ℕ → Store Block → Result (Option ℕ)
unfolding load
search_left n none h = ok none
search_left zero (some a) h = err endless
search_left (suc n) (some a) h =
    load h (some a) >>= λ b. if b.free then ok (some a) else search_left n b.prev_block h

unfoldable pub search_right : ℕ → Option ℕ → Store Block → Result (Option ℕ)
unfolding load
search_right n none h = ok none
search_right zero (some a) h = err endless
search_right (suc n) (some a) h =
    load h (some a) >>= λ b. if b.free then ok (some a) else search_right n b.next_block h

-- The free block at `current` linked behind the free block at `prev`.
unfoldable pub link_after : ℕ → ℕ → Blocks → Result Blocks
unfolding load adjust adjust_if
link_after current prev bs = do
  l ← load bs.store (some prev)
  h₁ ← adjust (some prev) (set_next_free (some current)) bs.store
  h₂ ← adjust (some current) (λ b. record b { prev_free = some prev; next_free = l.next_free }) h₁
  h₃ ← adjust_if l.next_free (set_prev_free (some current)) h₂
  ok (record bs { store = h₃ })

-- The free block at `current`, which is the first, linked before the free block found, if any.
unfoldable pub link_before : ℕ → Option ℕ → Blocks → Result Blocks
unfolding load adjust adjust_if
link_before current none bs = do
  h ← adjust (some current) (set_next_free none) bs.store
  ok (record bs { store = h })
link_before current (some next) bs = do
  r ← load bs.store (some next)
  assert (is_null r.prev_free)
  h₁ ← adjust (some next) (set_prev_free (some current)) bs.store
  h₂ ← adjust (some current) (λ b. record b { prev_free = r.prev_free; next_free = some next }) h₁
  h₃ ← adjust_if r.prev_free (set_next_free (some current)) h₂
  ok (record bs { store = h₃ })

unfoldable pub link_at : ℕ → ℕ → Option ℕ → Option ℕ → Blocks → Result Blocks
unfolding adjust search_right link_after link_before
link_at n current (some prev) next bs = link_after current prev bs
link_at n current none next bs = do
  h ← adjust (some current) (set_prev_free none) bs.store
  let bs' = record bs { store = h; head_free = some current }
  found ← search_right n next h
  link_before current found bs'

-- deallocate() where neither neighbour is free.
unfoldable pub make_free : ℕ → ℕ → Option ℕ → Option ℕ → Blocks → Result Blocks
unfolding adjust search_left link_at
make_free n current prev next bs = do
  h ← adjust (some current) (λ b. record b { free = true }) bs.store
  found ← search_left n prev h
  link_at n current found next (record bs { store = h })

-- The four cases of deallocate(). A neighbour that is free is not NULL.
unfoldable pub release_in : ℕ → ℕ → Option ℕ → Option ℕ → Bool → Bool → Blocks → Result Blocks
unfolding merge_both merge_left merge_right make_free
release_in n current (some prev) (some next) true true bs = merge_both current prev next bs
release_in n current (some prev) next true false bs = merge_left current prev next bs
release_in n current prev (some next) false true bs = merge_right current prev next bs
release_in n current prev next false false bs = make_free n current prev next bs
release_in n current _ _ _ _ bs = err bad_access

unfoldable pub release : ℕ → ℕ → Blocks → Result Blocks
unfolding load is_free release_in
release n current bs = do
  cur ← load bs.store (some current)
  left ← is_free cur.prev_block bs.store
  right ← is_free cur.next_block bs.store
  release_in n current cur.prev_block cur.next_block left right bs
