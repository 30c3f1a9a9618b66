-- ===== src/AtomicBoundedQueue/Size.antt =====
-- No step of include/core/AtomicBoundedQueue.h changes the number of cells.
use supercell_common.Common.{ℕ, ◌≡◌, refl, Bool, true, false, if◌then◌else◌, ◌==◌, add_size}
use supercell_common.AtomicBoundedQueue.{
  Thread, System, Turn, ready, not_yet, passed, turn, idle, push_at, push_free, push_claimed,
  push_stored, pop_at, pop_full, pop_claimed, pop_read, cell_at, go, fail, call_push, call_pop,
  push_turn, pop_turn, Move, pushes, pops, goes, fails, move,
}

module _ {T : Type 0} where
  if-size :
      (b : Bool) (s s' : System T) (n : ℕ)
      → s.size ≡ n
      → s'.size ≡ n
      → (if b then s else s').size ≡ n
  if-size true s s' n e e' = e
  if-size false s s' n e e' = e'

  push_turn-size :
      (i : ℕ) (v : T) (p : ℕ) (t : Turn) (s : System T) → (push_turn i v p t s).size ≡ s.size
  push_turn-size i v p ready s = refl
  push_turn-size i v p not_yet s = refl
  push_turn-size i v p passed s = refl

  pop_turn-size : (i p : ℕ) (t : Turn) (s : System T) → (pop_turn i p t s).size ≡ s.size
  pop_turn-size i p ready s = refl
  pop_turn-size i p not_yet s = refl
  pop_turn-size i p passed s = refl

  go-size : (i : ℕ) (l : Thread T) (s : System T) → (go i l s).size ≡ s.size
  unfolding go
  go-size i idle s = refl
  go-size i (push_at v p) s = push_turn-size i v p (turn (cell_at s p).sequence p) s
  go-size i (push_free v p) s = if-size (s.enqueue_pos == p) _ _ s.size refl refl
  go-size i (push_claimed v p) s = refl
  go-size i (push_stored v p) s = refl
  go-size i (pop_at p) s = pop_turn-size i p (turn (cell_at s p).sequence (add_size p 1)) s
  go-size i (pop_full p) s = if-size (s.dequeue_pos == p) _ _ s.size refl refl
  go-size i (pop_claimed p) s = refl
  go-size i (pop_read v p) s = refl

  fail-size : (i : ℕ) (l : Thread T) (s : System T) → (fail i l s).size ≡ s.size
  unfolding fail
  fail-size i idle s = refl
  fail-size i (push_at v p) s = refl
  fail-size i (push_free v p) s = refl
  fail-size i (push_claimed v p) s = refl
  fail-size i (push_stored v p) s = refl
  fail-size i (pop_at p) s = refl
  fail-size i (pop_full p) s = refl
  fail-size i (pop_claimed p) s = refl
  fail-size i (pop_read v p) s = refl

  call_push-size : (i : ℕ) (v : T) (l : Thread T) (s : System T) → (call_push i v l s).size ≡ s.size
  unfolding call_push
  call_push-size i v idle s = refl
  call_push-size i v (push_at w p) s = refl
  call_push-size i v (push_free w p) s = refl
  call_push-size i v (push_claimed w p) s = refl
  call_push-size i v (push_stored w p) s = refl
  call_push-size i v (pop_at p) s = refl
  call_push-size i v (pop_full p) s = refl
  call_push-size i v (pop_claimed p) s = refl
  call_push-size i v (pop_read w p) s = refl

  call_pop-size : (i : ℕ) (l : Thread T) (s : System T) → (call_pop i l s).size ≡ s.size
  unfolding call_pop
  call_pop-size i idle s = refl
  call_pop-size i (push_at w p) s = refl
  call_pop-size i (push_free w p) s = refl
  call_pop-size i (push_claimed w p) s = refl
  call_pop-size i (push_stored w p) s = refl
  call_pop-size i (pop_at p) s = refl
  call_pop-size i (pop_full p) s = refl
  call_pop-size i (pop_claimed p) s = refl
  call_pop-size i (pop_read w p) s = refl

  pub move-size : (m : Move T) (s : System T) → (move m s).size ≡ s.size
  unfolding move
  move-size (pushes i v) s = call_push-size i v (s.threads i) s
  move-size (pops i) s = call_pop-size i (s.threads i) s
  move-size (goes i) s = go-size i (s.threads i) s
  move-size (fails i) s = fail-size i (s.threads i) s
