-- ===== src/AtomicBoundedQueue/Delivery.antt =====
-- Every order of the steps of the threads of include/core/AtomicBoundedQueue.h: what is popped at a
-- position is what was pushed there.
use supercell_common.Common.{
  ℕ, suc, ◌+◌, ◌-◌, ◌^◌, ◌≤◌, ◌<◌, ◌≡◌, ◌≢◌, refl, sym, ap, ◌∙◌, arith, List, [], ◌∷◌, length,
  get_elem?, none, some, inl, inr, eq_or_ne, ne→ne, eq→==, add_size,
}
use supercell_common.AtomicBoundedQueue.{
  Thread, System, turn, idle, push_at, push_free, push_claimed, push_stored, pop_at, pop_full,
  pop_claimed, pop_read, cell_at, go, fail, call_push, call_pop, Move, pushes, pops, goes, fails,
  move, moves, new_system,
}
use supercell_common.AtomicBoundedQueue.Turns.{masked-apart, masked-le, two_cells}
use supercell_common.AtomicBoundedQueue.Size.{move-size}
use supercell_common.AtomicBoundedQueue.Safe.{
  Knows, KnowsOf, Apart, pos_of, pushes_to, pops_from, IsSafe,
}
use supercell_common.AtomicBoundedQueue.Frames.{none-some}
use supercell_common.AtomicBoundedQueue.Shared.{add_size-small, IsShared-later}
use supercell_common.AtomicBoundedQueue.Moves.{
  learns, turn-ready, push_at-IsSafe, pop_at-IsSafe, claim_push-IsSafe, claim_pop-IsSafe,
  store-IsSafe, fill-IsSafe, give-IsSafe, empty-IsSafe,
}

module _ {T : Type 0} where
  IsSafe-later : (k : ℕ) (s : System T) → IsSafe k s → IsSafe (suc k) s
  IsSafe-later k s safe = record {
    shared = IsShared-later k s safe.shared;
    knows = safe.knows;
    apart = safe.apart;
  }

  go-IsSafe :
      (k : ℕ) (s : System T) (i : ℕ) (l : Thread T)
      → k + s.size < 2 ^ 62
      → IsSafe k s
      → pos_of l ≤ k
      → Knows s l
      → ((j : ℕ) → j ≢ i → Apart l (s.threads j))
      → IsSafe (suc k) (go i l s)
  unfolding go KnowsOf pos_of pushes_to pops_from
  go-IsSafe k s i idle few safe x own new = IsSafe-later k s safe
  go-IsSafe k s i (push_at v p) few safe x own new =
      push_at-IsSafe k s i v p (turn (cell_at s p).sequence p) safe x
        (turn-ready (cell_at s p).sequence p)
  go-IsSafe k s i (push_free v p) few safe x own new = elim (eq_or_ne s.enqueue_pos p) [
    | inl e ↦
        rw
          (
            eq→== s.enqueue_pos p e,
            sym e,
            add_size-small s.enqueue_pos 1 (omega (arith, e, x, few)),
          )
          (claim_push-IsSafe k s i v safe
            (ap (λ q. (cell_at s q).sequence) e ∙ own (omega (arith, e)) ∙ sym e))
    | inr ne ↦ rw (ne→ne s.enqueue_pos p ne) (
        learns k s i (push_at v s.enqueue_pos) safe (omega (arith, safe.shared.enqueue_below)) tt
          refl refl)
  ]
  go-IsSafe k s i (push_claimed v p) few safe x own new = store-IsSafe k s i v p safe x own new
  go-IsSafe k s i (push_stored v p) few safe x own new =
      rw (add_size-small p 1 (omega (arith, x, few))) (fill-IsSafe k s i v p safe own new)
  go-IsSafe k s i (pop_at p) few safe x own new =
      pop_at-IsSafe k s i p (turn (cell_at s p).sequence (add_size p 1)) safe x (λ e.
        turn-ready (cell_at s p).sequence (add_size p 1) e
        ∙ add_size-small p 1 (omega (arith, x, few)))
  go-IsSafe k s i (pop_full p) few safe x own new = elim (eq_or_ne s.dequeue_pos p) [
    | inl e ↦
        rw
          (
            eq→== s.dequeue_pos p e,
            sym e,
            add_size-small s.dequeue_pos 1 (omega (arith, e, x, few)),
          )
          (claim_pop-IsSafe k s i safe
            (ap (λ q. (cell_at s q).sequence) e ∙ own (omega (arith, e)) ∙ omega (arith, e)))
    | inr ne ↦ rw (ne→ne s.dequeue_pos p ne) (
        learns k s i (pop_at s.dequeue_pos) safe (omega (arith, safe.shared.dequeue_below)) tt refl
          refl)
  ]
  go-IsSafe k s i (pop_claimed p) few safe x own new = give-IsSafe k s i p safe x own new
  go-IsSafe k s i (pop_read v p) few safe x own new =
      let last : add_size (add_size p (s.size - 1)) 1 ≡ p + s.size =
        ap (λ n. add_size n 1) (add_size-small p (s.size - 1) (omega (arith, x, few)))
        ∙ add_size-small (p + (s.size - 1)) 1 (omega (arith, x, few))
        ∙ omega (arith, safe.shared.cells_enough) in
      rw last (empty-IsSafe k s i v p safe own new)

  fail-IsSafe :
      (k : ℕ) (s : System T) (i : ℕ) (l : Thread T) → IsSafe k s → IsSafe (suc k) (fail i l s)
  unfolding fail KnowsOf pos_of pushes_to pops_from
  fail-IsSafe k s i idle safe = IsSafe-later k s safe
  fail-IsSafe k s i (push_at v p) safe = IsSafe-later k s safe
  fail-IsSafe k s i (push_free v p) safe =
      learns k s i (push_at v s.enqueue_pos) safe (omega (arith, safe.shared.enqueue_below)) tt refl
        refl
  fail-IsSafe k s i (push_claimed v p) safe = IsSafe-later k s safe
  fail-IsSafe k s i (push_stored v p) safe = IsSafe-later k s safe
  fail-IsSafe k s i (pop_at p) safe = IsSafe-later k s safe
  fail-IsSafe k s i (pop_full p) safe =
      learns k s i (pop_at s.dequeue_pos) safe (omega (arith, safe.shared.dequeue_below)) tt refl
        refl
  fail-IsSafe k s i (pop_claimed p) safe = IsSafe-later k s safe
  fail-IsSafe k s i (pop_read v p) safe = IsSafe-later k s safe

  call_push-IsSafe :
      (k : ℕ) (s : System T) (i : ℕ) (v : T) (l : Thread T)
      → IsSafe k s
      → IsSafe (suc k) (call_push i v l s)
  unfolding call_push KnowsOf pos_of pushes_to pops_from
  call_push-IsSafe k s i v idle safe =
      learns k s i (push_at v s.enqueue_pos) safe (omega (arith, safe.shared.enqueue_below)) tt refl
        refl
  call_push-IsSafe k s i v (push_at w p) safe = IsSafe-later k s safe
  call_push-IsSafe k s i v (push_free w p) safe = IsSafe-later k s safe
  call_push-IsSafe k s i v (push_claimed w p) safe = IsSafe-later k s safe
  call_push-IsSafe k s i v (push_stored w p) safe = IsSafe-later k s safe
  call_push-IsSafe k s i v (pop_at p) safe = IsSafe-later k s safe
  call_push-IsSafe k s i v (pop_full p) safe = IsSafe-later k s safe
  call_push-IsSafe k s i v (pop_claimed p) safe = IsSafe-later k s safe
  call_push-IsSafe k s i v (pop_read w p) safe = IsSafe-later k s safe

  call_pop-IsSafe :
      (k : ℕ) (s : System T) (i : ℕ) (l : Thread T) → IsSafe k s → IsSafe (suc k) (call_pop i l s)
  unfolding call_pop KnowsOf pos_of pushes_to pops_from
  call_pop-IsSafe k s i idle safe =
      learns k s i (pop_at s.dequeue_pos) safe (omega (arith, safe.shared.dequeue_below)) tt refl
        refl
  call_pop-IsSafe k s i (push_at w p) safe = IsSafe-later k s safe
  call_pop-IsSafe k s i (push_free w p) safe = IsSafe-later k s safe
  call_pop-IsSafe k s i (push_claimed w p) safe = IsSafe-later k s safe
  call_pop-IsSafe k s i (push_stored w p) safe = IsSafe-later k s safe
  call_pop-IsSafe k s i (pop_at p) safe = IsSafe-later k s safe
  call_pop-IsSafe k s i (pop_full p) safe = IsSafe-later k s safe
  call_pop-IsSafe k s i (pop_claimed p) safe = IsSafe-later k s safe
  call_pop-IsSafe k s i (pop_read w p) safe = IsSafe-later k s safe

  move-IsSafe :
      (k : ℕ) (s : System T) (m : Move T)
      → k + s.size < 2 ^ 62
      → IsSafe k s
      → IsSafe (suc k) (move m s)
  unfolding move
  move-IsSafe k s (pushes i v) few safe = call_push-IsSafe k s i v (s.threads i) safe
  move-IsSafe k s (pops i) few safe = call_pop-IsSafe k s i (s.threads i) safe
  move-IsSafe k s (goes i) few safe =
      go-IsSafe k s i (s.threads i) few safe (safe.shared.positions i) (safe.knows i)
        (λ j ne. safe.apart i j (λ e. ne (sym e)))
  move-IsSafe k s (fails i) few safe = fail-IsSafe k s i (s.threads i) safe

  moves-IsSafe :
      (ms : List (Move T)) (k : ℕ) (s : System T)
      → k + (length ms + s.size) < 2 ^ 62
      → IsSafe k s
      → IsSafe (k + length ms) (moves ms s)
  unfolding moves
  moves-IsSafe [] k s few safe = let e : k ≡ k + 0 = omega arith in rw e at safe
  moves-IsSafe (m ∷ ms) k s few safe =
      let e : suc k + length ms ≡ k + suc (length ms) = omega arith in
      rw e at (
        moves-IsSafe ms (suc k) (move m s) (omega (arith, few, move-size m s))
          (move-IsSafe k s m (omega (arith, few)) safe))

  new-IsSafe : (b : ℕ) (junk : ℕ → T) → 1 ≤ b → IsSafe 0 (new_system (2 ^ b) junk)
  unfolding KnowsOf pos_of pushes_to pops_from
  new-IsSafe b junk enough = record {
    shared = record {
      enqueue_below = omega arith;
      dequeue_below = omega arith;
      positions = λ i. omega arith;
      cells_enough = two_cells b enough;
      cells_apart = masked-apart b;
      count = refl;
      full = λ p e. absurd (omega (arith, e, masked-le b p));
      right = λ p v e. absurd (none-some e);
    };
    knows = λ i. tt;
    apart = λ i j ne. record {
      pushing = λ p e. absurd (none-some e);
      popping = λ p e. absurd (none-some e);
    };
  }

  reached-IsSafe :
      (b : ℕ) (junk : ℕ → T) (ms : List (Move T))
      → 1 ≤ b
      → length ms + 2 ^ b < 2 ^ 62
      → IsSafe (length ms) (moves ms (new_system (2 ^ b) junk))
  reached-IsSafe b junk ms enough few =
      let e : 0 + length ms ≡ length ms = omega arith in
      rw e at (
        moves-IsSafe ms 0 (new_system (2 ^ b) junk) (omega (arith, few)) (new-IsSafe b junk enough))

  -- For every sequence of the steps of any threads on a new queue of 2^b cells, where b is at least
  -- 1 and the steps and the cells together are fewer than 2^62: a value that the pop of a position
  -- has read is the value whose push has claimed that position.
  pub pops_what_was_pushed :
      (b : ℕ) (junk : ℕ → T) (ms : List (Move T)) (p : ℕ) (v : T)
      → 1 ≤ b
      → length ms + 2 ^ b < 2 ^ 62
      → (moves ms (new_system (2 ^ b) junk)).given p ≡ some v
      → get_elem? (moves ms (new_system (2 ^ b) junk)).entered p ≡ some v
  pops_what_was_pushed b junk ms p v enough few e =
      ((reached-IsSafe b junk ms enough few).shared.right p v e).1

  -- For every sequence of the steps of any threads on a new queue of 2^b cells, where b is at least
  -- 1 and the steps and the cells together are fewer than 2^62: while a thread has claimed a position
  -- for a pop and has not read its value, no value of the position has been given, and no other
  -- thread has claimed the position for a pop.
  pub claims_once :
      (b : ℕ) (junk : ℕ → T) (ms : List (Move T)) (i j p : ℕ)
      → 1 ≤ b
      → length ms + 2 ^ b < 2 ^ 62
      → i ≢ j
      → (moves ms (new_system (2 ^ b) junk)).threads i ≡ pop_claimed p
      → ((moves ms (new_system (2 ^ b) junk)).given p ≡ none)
        × Apart (pop_claimed p) ((moves ms (new_system (2 ^ b) junk)).threads j)
  unfolding KnowsOf pos_of
  claims_once b junk ms i j p enough few ne e =
      let safe = reached-IsSafe b junk ms enough few in
      ((rw e at (safe.knows i)).2, rw e at (safe.apart i j ne))
