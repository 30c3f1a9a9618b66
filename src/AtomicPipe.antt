-- ===== src/AtomicPipe.antt =====
-- AtomicPipe of include/core/AtomicQueue.h: a pipe from one writing thread to one reading thread.
pub mod Spec
pub mod Relation
pub mod Flush
pub mod Write
pub mod Unwrite
pub mod Reader
pub mod Refine
use supercell_common.Common.{
  List, ℕ, Bool, true, false, Option, none, some, Result, ok, not, ◌==◌, ◌&&◌, if◌then◌else◌, ◌>>=◌,
}
use supercell_common.AtomicQueue.{
  Heap, AtomicQueue, deref, front, back, set_back, push, unpush, pop, new_queue,
}

-- A pointer to a slot: NULL, or the chunk and the place in it.
abbrev pub Place : Type 0
Place = Option (ℕ × ℕ)

unfoldable pub same_place : Place → Place → Bool
same_place none none = true
same_place none (some s) = false
same_place (some s) none = false
same_place (some (c, p)) (some (d, r)) = (c == d) && (p == r)

unfoldable pub is_null : Place → Bool
is_null none = true
is_null (some s) = false

-- compare_and_swap on a pointer that holds `old`: what it holds afterwards.
unfoldable pub swapped_in : Place → Place → Place → Place
unfolding same_place
swapped_in new comparand old = if same_place old comparand then new else old

-- The writer's pointers are `w` and `f`, the reader's is `r`, and `c` is the one they share.
pub record AtomicPipe {ℓ} (T : Type ℓ) : Type ℓ where
  pub queue : AtomicQueue T
  pub w : Place
  pub r : Place
  pub f : Place
  pub c : Place

module _ {ℓ} {T : Type ℓ} where
  -- &queue.front() and &queue.back()
  unfoldable pub front_place : AtomicQueue T → Result Place
  unfolding deref
  front_place q = do c ← deref q.heap q.begin_chunk; ok (some (c, q.begin_pos))

  unfoldable pub back_place : AtomicQueue T → Result Place
  unfolding deref
  back_place q = do c ← deref q.heap q.back_chunk; ok (some (c, q.back_pos))

  -- unwrite(): the value taken back, if there is one.
  unfoldable pub unwrite : ℕ → AtomicPipe T → Result (Option T × AtomicPipe T)
  unfolding back_place same_place
  unwrite size p = do
    b ← back_place p.queue
    if same_place p.f b
        then ok (none, p)
        else (do q ← unpush size p.queue; v ← back q; ok (some v, record p { queue = q }))

  unfoldable pub flush : AtomicPipe T → Bool × AtomicPipe T
  unfolding same_place swapped_in
  flush p =
      if same_place p.w p.f
      then (true, p)
      else if not (same_place p.c p.w)
      then (false, record p { c = p.f; w = p.f })
      else (true, record p { c = swapped_in p.f p.w p.c; w = p.f })

  -- check_read() where &queue.front() is `s`.
  unfoldable pub check_at : Place → AtomicPipe T → Bool × AtomicPipe T
  unfolding same_place swapped_in is_null
  check_at s p = if not (same_place s p.r) && not (is_null p.r) then (true, p) else (
    not (same_place s p.c) && not (is_null p.c),
    record p { r = p.c; c = swapped_in none s p.c },
  )

  unfoldable pub check_read : AtomicPipe T → Result (Bool × AtomicPipe T)
  unfolding front_place
  check_read p = do s ← front_place p.queue; ok (check_at s p)

  -- The value of a read that check_read() has allowed.
  unfoldable pub take_front : ℕ → Bool × AtomicPipe T → Result (Option T × AtomicPipe T)
  take_front size (false, p) = ok (none, p)
  take_front size (true, p) = do
    v ← front p.queue
    q ← pop size p.queue
    ok (some v, record p { queue = q })

  unfoldable pub read : ℕ → AtomicPipe T → Result (Option T × AtomicPipe T)
  unfolding check_read take_front
  read size p = do checked ← check_read p; take_front size checked

module _ {ℓ} {T : Type ℓ} (malloc : List ℕ → ℕ) (size : ℕ) where
  -- AtomicPipe()
  unfoldable pub new_pipe : Heap T → Result (AtomicPipe T)
  unfolding back_place
  new_pipe h = do
    q ← push malloc size (new_queue malloc h)
    s ← back_place q
    ok (record { queue = q; w = s; r = s; f = s; c = s })

  unfoldable pub write : T → Bool → AtomicPipe T → Result (AtomicPipe T)
  unfolding back_place
  write v incomplete p = do
    q ← set_back v p.queue
    q' ← push malloc size q
    s ← back_place q'
    ok (record p { queue = q'; f = if incomplete then p.f else s })
