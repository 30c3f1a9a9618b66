-- ===== src/AtomicBoundedQueue/Moves.antt =====
-- Each step of a thread of include/core/AtomicBoundedQueue.h keeps the invariant.
use supercell_common.Common.{
  put_at, put_at-here, ℕ, suc, ◌+◌, ◌-◌, ◌^◌, ◌≤◌, ◌≡◌, ◌≢◌, refl, sym, ap, ◌∙◌, arith, [], ◌∷◌,
  ◌++◌, length, get_elem?, get_elem?-append_end, Option, none, some, Bool, leb, sub_size, inl, inr,
  eq_or_ne, ne→ne, if◌then◌else◌, true, false,
}
use supercell_common.AtomicBoundedQueue.{
  Cell, Thread, System, Turn, ready, not_yet, passed, turn, idle, push_at, push_free, push_claimed,
  push_stored, pop_at, pop_full, pop_claimed, pop_read, cell_at, with_cell, cell_of, becomes,
  push_turn, pop_turn,
}
use supercell_common.AtomicBoundedQueue.Safe.{
  Knows, KnowsOf, Apart, pos_of, pushes_to, pops_from, IsShared, IsSafe, becomes-IsSafe,
}
use supercell_common.AtomicBoundedQueue.Frames.{
  none-some, some-injective, pushes_to-below, pops_from-below, KnowsOf-enter, KnowsOf-dequeue,
  KnowsOf-store, KnowsOf-fill, KnowsOf-empty, KnowsOf-give,
}
use supercell_common.AtomicBoundedQueue.Shared.{
  with_cell-Knows, next-apart, IsShared-later, IsShared-enter, IsShared-dequeue, IsShared-with_cell,
  IsShared-give,
}

is_ready : Turn → Bool
is_ready ready = true
is_ready not_yet = false
is_ready passed = false

other_turns : (b : Bool) → is_ready (if b then not_yet else passed) ≡ false
unfolding is_ready
other_turns true = refl
other_turns false = refl

-- The turn is there only if the sequence is the position.
pub turn-ready : (sequence pos : ℕ) → turn sequence pos ≡ ready → sequence ≡ pos
unfolding turn is_ready
turn-ready sequence pos e = elim (eq_or_ne sequence pos) [
  | inl same ↦ same
  | inr ne ↦ absurd (
      ground (
        arith,
        other_turns (leb (2 ^ 63) (sub_size sequence pos)),
        ap is_ready (rw (ne→ne sequence pos ne) at e),
      ))
]

module _ {T : Type 0} where
  option-none : (o : Option T) → ((v : T) → o ≢ some v) → o ≡ none
  option-none none h = refl
  option-none (some v) h = absurd (h v refl)

  -- A thread that has claimed nothing is apart from all.
  free-Apart : (l l' : Thread T) → pushes_to l ≡ none → pops_from l ≡ none → Apart l l'
  free-Apart l l' x y = record {
    pushing = λ p e. absurd (none-some (sym x ∙ e));
    popping = λ p e. absurd (none-some (sym y ∙ e));
  }

  -- A step by which a thread only learns.
  pub learns :
      (k : ℕ) (s : System T) (i : ℕ) (l : Thread T)
      → IsSafe k s
      → pos_of l ≤ suc k
      → Knows s l
      → pushes_to l ≡ none
      → pops_from l ≡ none
      → IsSafe (suc k) (becomes i l s)
  learns k s i l safe x own y z =
      becomes-IsSafe (suc k) s i l (IsShared-later k s safe.shared) x own (λ j ne. safe.knows j)
        (λ j ne. free-Apart l (s.threads j) y z) safe.apart

  pub push_at-IsSafe :
      (k : ℕ) (s : System T) (i : ℕ) (v : T) (p : ℕ) (t : Turn)
      → IsSafe k s
      → p ≤ k
      → (t ≡ ready → (cell_at s p).sequence ≡ p)
      → IsSafe (suc k) (push_turn i v p t s)
  unfolding KnowsOf pos_of pushes_to pops_from
  push_at-IsSafe k s i v p ready safe x h =
      learns k s i (push_free v p) safe (omega (arith, x)) (λ z. h refl) refl refl
  push_at-IsSafe k s i v p not_yet safe x h = learns k s i idle safe (omega arith) tt refl refl
  push_at-IsSafe k s i v p passed safe x h =
      learns k s i (push_at v s.enqueue_pos) safe (omega (arith, safe.shared.enqueue_below)) tt refl
        refl

  pub pop_at-IsSafe :
      (k : ℕ) (s : System T) (i p : ℕ) (t : Turn)
      → IsSafe k s
      → p ≤ k
      → (t ≡ ready → (cell_at s p).sequence ≡ p + 1)
      → IsSafe (suc k) (pop_turn i p t s)
  unfolding KnowsOf pos_of pushes_to pops_from
  pop_at-IsSafe k s i p ready safe x h =
      learns k s i (pop_full p) safe (omega (arith, x)) (λ z. h refl) refl refl
  pop_at-IsSafe k s i p not_yet safe x h = learns k s i idle safe (omega arith) tt refl refl
  pop_at-IsSafe k s i p passed safe x h =
      learns k s i (pop_at s.dequeue_pos) safe (omega (arith, safe.shared.dequeue_below)) tt refl
        refl

  -- A position that is not claimed for a pop has not been given.
  ungiven : (k : ℕ) (s : System T) → IsShared k s → (p : ℕ) → s.dequeue_pos ≤ p → s.given p ≡ none
  ungiven k s sh p x = option-none (s.given p) (λ v e. omega (arith, x, (sh.right p v e).0))

  -- The next position claimed for a push.
  pub claim_push-IsSafe :
      (k : ℕ) (s : System T) (i : ℕ) (v : T)
      → IsSafe k s
      → (cell_at s s.enqueue_pos).sequence ≡ s.enqueue_pos
      → IsSafe (suc k) (
          becomes i
            (push_claimed v s.enqueue_pos)
            (record s { enqueue_pos = s.enqueue_pos + 1; entered = s.entered ++ (v ∷ []) }))
  unfolding KnowsOf pos_of pushes_to pops_from
  claim_push-IsSafe k s i v safe seq =
      let first : s.enqueue_pos - length s.entered ≡ 0 = omega (arith, safe.shared.count) in
      becomes-IsSafe (suc k)
        (record s { enqueue_pos = s.enqueue_pos + 1; entered = s.entered ++ (v ∷ []) }) i
        (push_claimed v s.enqueue_pos) (IsShared-enter k s safe.shared v)
        (omega (arith, safe.shared.enqueue_below))
        (
          omega arith,
          seq,
          get_elem?-append_end s.entered (v ∷ []) s.enqueue_pos (omega (arith, safe.shared.count))
              ∙ ap (get_elem? (v ∷ [])) first,
        )
        (λ j ne.
          KnowsOf-enter s.enqueue_pos s.dequeue_pos s.entered s.given
            (cell_at s (pos_of (s.threads j))) v (s.threads j) safe.shared.count (safe.knows j))
        (λ j ne. record {
          pushing = λ p e e'. absurd (
              omega (
                arith,
                some-injective s.enqueue_pos p e,
                pushes_to-below s.enqueue_pos s.dequeue_pos s.entered s.given
                    (cell_at s (pos_of (s.threads j))) (s.threads j) p (safe.knows j) e',
              ));
          popping = λ p e. absurd (none-some e);
        })
        safe.apart

  -- The next position claimed for a pop.
  pub claim_pop-IsSafe :
      (k : ℕ) (s : System T) (i : ℕ)
      → IsSafe k s
      → (cell_at s s.dequeue_pos).sequence ≡ s.dequeue_pos + 1
      → IsSafe
          (suc k)
          (becomes i (pop_claimed s.dequeue_pos) (record s { dequeue_pos = s.dequeue_pos + 1 }))
  unfolding KnowsOf pos_of pushes_to pops_from
  claim_pop-IsSafe k s i safe seq =
      becomes-IsSafe (suc k) (record s { dequeue_pos = s.dequeue_pos + 1 }) i
        (pop_claimed s.dequeue_pos) (IsShared-dequeue k s safe.shared)
        (omega (arith, safe.shared.dequeue_below))
        (omega arith, seq, ungiven k s safe.shared s.dequeue_pos (omega arith))
        (λ j ne.
          KnowsOf-dequeue s.enqueue_pos s.dequeue_pos s.entered s.given
            (cell_at s (pos_of (s.threads j))) (s.threads j) (safe.knows j))
        (λ j ne. record {
          pushing = λ p e. absurd (none-some e);
          popping = λ p e e'. absurd (
              omega (
                arith,
                some-injective s.dequeue_pos p e,
                pops_from-below s.enqueue_pos s.dequeue_pos s.entered s.given
                    (cell_at s (pos_of (s.threads j))) (s.threads j) p (safe.knows j) e',
              ));
        })
        safe.apart

  -- A value copied into the cell of the position that is claimed.
  pub store-IsSafe :
      (k : ℕ) (s : System T) (i : ℕ) (v : T) (p : ℕ)
      → IsSafe k s
      → p ≤ k
      → Knows s (push_claimed v p)
      → ((j : ℕ) → j ≢ i → Apart (push_claimed v p) (s.threads j))
      → IsSafe
          (suc k)
          (becomes i (push_stored v p) (with_cell p (record (cell_at s p) { value = v }) s))
  unfolding KnowsOf pos_of pushes_to pops_from
  store-IsSafe k s i v p safe x (below, seq, is) new =
      let c : Cell T = record (cell_at s p) { value = v } in
      becomes-IsSafe (suc k) (with_cell p c s) i (push_stored v p)
        (IsShared-with_cell k s safe.shared p c
          (λ q e e'. absurd (next-apart k s safe.shared q p e (sym e' ∙ seq))))
        (omega (arith, x)) (rw (put_at-here (cell_of s p) c s.cells) (below, seq, is, refl))
        (λ j ne.
          with_cell-Knows s p c (s.threads j)
            (λ e kn.
              KnowsOf-store s.enqueue_pos s.dequeue_pos s.entered s.given (cell_at s p) p v
                (s.threads j) seq ((new j ne).pushing p refl) kn)
            (safe.knows j))
        (λ j ne. record { pushing = (new j ne).pushing; popping = (new j ne).popping }) safe.apart

  -- The cell of a position marked as full.
  pub fill-IsSafe :
      (k : ℕ) (s : System T) (i : ℕ) (v : T) (p : ℕ)
      → IsSafe k s
      → Knows s (push_stored v p)
      → ((j : ℕ) → j ≢ i → Apart (push_stored v p) (s.threads j))
      → IsSafe (suc k) (becomes i idle (with_cell p (record (cell_at s p) { sequence = p + 1 }) s))
  unfolding KnowsOf pos_of pushes_to pops_from
  fill-IsSafe k s i v p safe (below, seq, is, holds) new =
      let c : Cell T = record (cell_at s p) { sequence = p + 1 } in
      becomes-IsSafe (suc k) (with_cell p c s) i idle
        (IsShared-with_cell k s safe.shared p c (λ q e e'.
          let same : q ≡ p = omega (arith, e') in
          (omega (arith, same, below), ap (get_elem? s.entered) same ∙ is ∙ ap some (sym holds))))
        (omega arith) tt
        (λ j ne.
          with_cell-Knows s p c (s.threads j)
            (λ e kn.
              KnowsOf-fill s.enqueue_pos s.dequeue_pos s.entered s.given (cell_at s p) p (p + 1)
                (s.threads j) seq below ((new j ne).pushing p refl)
                (next-apart k s safe.shared (pos_of (s.threads j)) p e) kn)
            (safe.knows j))
        (λ j ne. free-Apart idle (s.threads j) refl refl) safe.apart

  -- The value of the cell of a position read.
  pub give-IsSafe :
      (k : ℕ) (s : System T) (i p : ℕ)
      → IsSafe k s
      → p ≤ k
      → Knows s (pop_claimed p)
      → ((j : ℕ) → j ≢ i → Apart (pop_claimed p) (s.threads j))
      → IsSafe (suc k) (
          becomes i
            (pop_read (cell_at s p).value p)
            (record s { given = put_at p (some (cell_at s p).value) s.given }))
  unfolding KnowsOf pos_of pushes_to pops_from
  give-IsSafe k s i p safe x (below, seq, is) new =
      let v = (cell_at s p).value in
      becomes-IsSafe (suc k) (record s { given = put_at p (some v) s.given }) i (pop_read v p)
        (IsShared-give k s safe.shared p below seq) (omega (arith, x)) (below, seq)
        (λ j ne.
          KnowsOf-give s.enqueue_pos s.dequeue_pos s.entered s.given
            (cell_at s (pos_of (s.threads j))) p v (s.threads j) ((new j ne).popping p refl)
            (safe.knows j))
        (λ j ne. record { pushing = (new j ne).pushing; popping = (new j ne).popping }) safe.apart

  -- The cell of a position marked as free for the next round.
  pub empty-IsSafe :
      (k : ℕ) (s : System T) (i : ℕ) (v : T) (p : ℕ)
      → IsSafe k s
      → Knows s (pop_read v p)
      → ((j : ℕ) → j ≢ i → Apart (pop_read v p) (s.threads j))
      → IsSafe
          (suc k)
          (becomes i idle (with_cell p (record (cell_at s p) { sequence = p + s.size }) s))
  unfolding KnowsOf pos_of pushes_to pops_from
  empty-IsSafe k s i v p safe (below, seq) new =
      let c : Cell T = record (cell_at s p) { sequence = p + s.size } in
      becomes-IsSafe (suc k) (with_cell p c s) i idle
        (IsShared-with_cell k s safe.shared p c (λ q e e'. absurd (
          safe.shared.cells_apart p q (omega (arith, e', safe.shared.cells_enough))
            (omega (arith, e', safe.shared.cells_enough)) (sym e))))
        (omega arith) tt
        (λ j ne.
          with_cell-Knows s p c (s.threads j)
            (λ e kn.
              KnowsOf-empty s.enqueue_pos s.dequeue_pos s.entered s.given (cell_at s p) p
                (p + s.size) (s.threads j) seq below ((new j ne).popping p refl)
                (λ z. next-apart k s safe.shared p (pos_of (s.threads j)) (sym e) (sym z)) kn)
            (safe.knows j))
        (λ j ne. free-Apart idle (s.threads j) refl refl) safe.apart
