-- ===== src/AtomicBoundedQueue.antt =====
-- AtomicBoundedQueue of include/core/AtomicBoundedQueue.h: a ring of cells that any threads push to
-- and pop from. Each access of a thread to what the threads share is one step.
pub mod Turns
pub mod Safe
pub mod Frames
pub mod Shared
pub mod Moves
pub mod Size
pub mod Delivery
use Prim.Native.Nat.{bit_and}
use supercell_common.Common.{
  put_at, ℕ, zero, suc, ◌+◌, ◌-◌, ◌%◌, ◌^◌, List, [], ◌∷◌, ◌++◌, Option, none, some, Bool, true,
  false, leb, ◌==◌, if◌then◌else◌, add_size, sub_size,
}

-- cell_t
pub record Cell {ℓ} (T : Type ℓ) : Type ℓ where
  pub sequence : ℕ
  pub value : T

-- Where a thread is: outside, or in push(v) or pop(), with the `pos` that it holds. It has loaded
-- the position, seen that the cell is free or full, claimed the position, and copied the value.
pub data Thread {ℓ} (T : Type ℓ) : Type ℓ where
  idle : Thread T
  push_at push_free push_claimed push_stored : T → ℕ → Thread T
  pop_at pop_full pop_claimed : ℕ → Thread T
  pop_read : T → ℕ → Thread T

-- The queue and its threads. `entered` has the values whose push has claimed a position, in the
-- order of the positions, and `given` the value that the pop of a position has read.
pub record System {ℓ} (T : Type ℓ) : Type ℓ where
  pub size : ℕ
  pub cells : ℕ → Cell T
  pub enqueue_pos : ℕ
  pub dequeue_pos : ℕ
  pub threads : ℕ → Thread T
  pub entered : List T
  pub given : ℕ → Option T

-- What the difference of a cell's sequence and a position says: 0, below 0 or above.
pub data Turn : Type 0 where
  ready not_yet passed : Turn

unfoldable pub turn : ℕ → ℕ → Turn
turn sequence pos =
    if sequence == pos
    then ready
    else if leb (2 ^ 63) (sub_size sequence pos)
    then not_yet
    else passed

module _ {ℓ} {T : Type ℓ} where
  -- pos & buffer_mask
  abbrev pub cell_of : System T → ℕ → ℕ
  cell_of s pos = bit_and (s.size - 1) pos

  abbrev pub cell_at : System T → ℕ → Cell T
  cell_at s pos = s.cells (cell_of s pos)

  abbrev pub becomes : ℕ → Thread T → System T → System T
  becomes i l s = record s { threads = put_at i l s.threads }

  abbrev pub with_cell : ℕ → Cell T → System T → System T
  with_cell pos c s = record s { cells = put_at (cell_of s pos) c s.cells }

  abbrev pub push_turn : ℕ → T → ℕ → Turn → System T → System T
  push_turn i v pos ready s = becomes i (push_free v pos) s
  push_turn i v pos not_yet s = becomes i idle s
  push_turn i v pos passed s = becomes i (push_at v s.enqueue_pos) s

  abbrev pub pop_turn : ℕ → ℕ → Turn → System T → System T
  pop_turn i pos ready s = becomes i (pop_full pos) s
  pop_turn i pos not_yet s = becomes i idle s
  pop_turn i pos passed s = becomes i (pop_at s.dequeue_pos) s

  -- The next step of a thread.
  unfoldable pub go : ℕ → Thread T → System T → System T
  unfolding turn
  go i idle s = s
  go i (push_at v pos) s = push_turn i v pos (turn (cell_at s pos).sequence pos) s
  go i (push_free v pos) s =
      if s.enqueue_pos == pos
      then becomes i (push_claimed v pos)
          (record s { enqueue_pos = add_size pos 1; entered = s.entered ++ (v ∷ []) })
      else becomes i (push_at v s.enqueue_pos) s
  go i (push_claimed v pos) s =
      becomes i (push_stored v pos) (with_cell pos (record (cell_at s pos) { value = v }) s)
  go i (push_stored v pos) s =
      becomes i idle (with_cell pos (record (cell_at s pos) { sequence = add_size pos 1 }) s)
  go i (pop_at pos) s = pop_turn i pos (turn (cell_at s pos).sequence (add_size pos 1)) s
  go i (pop_full pos) s =
      if s.dequeue_pos == pos
      then becomes i (pop_claimed pos) (record s { dequeue_pos = add_size pos 1 })
      else becomes i (pop_at s.dequeue_pos) s
  go i (pop_claimed pos) s =
      becomes i (pop_read (cell_at s pos).value pos)
        (record s { given = put_at pos (some (cell_at s pos).value) s.given })
  go i (pop_read v pos) s = becomes i idle (
      with_cell pos (record (cell_at s pos) { sequence = add_size (add_size pos (s.size - 1)) 1 })
        s)

  -- compare_exchange_weak may fail though the position is as expected.
  unfoldable pub fail : ℕ → Thread T → System T → System T
  fail i (push_free v pos) s = becomes i (push_at v s.enqueue_pos) s
  fail i (pop_full pos) s = becomes i (pop_at s.dequeue_pos) s
  fail i l s = s

  -- A call of push or pop by a thread that is outside.
  unfoldable pub call_push : ℕ → T → Thread T → System T → System T
  call_push i v idle s = becomes i (push_at v s.enqueue_pos) s
  call_push i v l s = s

  unfoldable pub call_pop : ℕ → Thread T → System T → System T
  call_pop i idle s = becomes i (pop_at s.dequeue_pos) s
  call_pop i l s = s

-- A thread calls push or pop, goes on, or its exchange fails.
pub data Move {ℓ} (T : Type ℓ) : Type ℓ where
  pushes : ℕ → T → Move T
  pops goes fails : ℕ → Move T

module _ {ℓ} {T : Type ℓ} where
  unfoldable pub move : Move T → System T → System T
  unfolding go fail call_push call_pop
  move (pushes i v) s = call_push i v (s.threads i) s
  move (pops i) s = call_pop i (s.threads i) s
  move (goes i) s = go i (s.threads i) s
  move (fails i) s = fail i (s.threads i) s

  unfoldable pub moves : List (Move T) → System T → System T
  unfolding move
  moves [] s = s
  moves (m ∷ ms) s = moves ms (move m s)

  -- AtomicBoundedQueue() for a size that its assertion accepts, a power of two above 1, with values
  -- `junk` in the new cells.
  abbrev pub new_system : ℕ → (ℕ → T) → System T
  new_system size junk = record {
    size = size;
    cells = λ c. record { sequence = c; value = junk c };
    enqueue_pos = 0;
    dequeue_pos = 0;
    threads = λ i. idle;
    entered = [];
    given = λ pos. none;
  }
