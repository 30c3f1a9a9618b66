-- ===== src/AtomicBoundedQueue/Shared.antt =====
-- What the threads of include/core/AtomicBoundedQueue.h share, after each kind of step.
use supercell_common.Common.{
  put_at, put_at-here, put_at-other, ℕ, suc, ◌+◌, ◌^◌, ◌<◌, ◌≡◌, ◌≢◌, sym, ap, ◌∙◌, arith, [], ◌∷◌,
  ◌++◌, length-append, get_elem?, get_elem?-append, get_elem?-below, some, inl, inr, eq_or_ne,
  add_size,
}
use mathlib.Core.Path.{subst}
use native.Mathlib.Nat.{mod-eq_of_lt}
use supercell_common.AtomicBoundedQueue.{Cell, Thread, System, cell_of, cell_at, with_cell}
use supercell_common.AtomicBoundedQueue.Safe.{Knows, KnowsOf, pos_of, IsShared}

pub add_size-small : (a b : ℕ) → a + b < 2 ^ 64 → add_size a b ≡ a + b
add_size-small a b x = mod-eq_of_lt x

module _ {T : Type 0} where
  -- A cell changed, for a thread that is at the same cell or at another.
  pub with_cell-Knows :
      (s : System T) (q : ℕ) (c : Cell T) (l : Thread T)
      → (cell_of s (pos_of l) ≡ cell_of s q
          → KnowsOf s.enqueue_pos s.dequeue_pos s.entered s.given (cell_at s q) l
          → KnowsOf s.enqueue_pos s.dequeue_pos s.entered s.given c l)
      → Knows s l
      → Knows (with_cell q c s) l
  with_cell-Knows s q c l h k = elim (eq_or_ne (cell_of s (pos_of l)) (cell_of s q)) [
    | inl e ↦
        rw (e, put_at-here (cell_of s q) c s.cells)
          (h e
            (subst (λ x. KnowsOf s.enqueue_pos s.dequeue_pos s.entered s.given (s.cells x) l) e k))
    | inr ne ↦ rw (put_at-other (cell_of s q) (cell_of s (pos_of l)) c s.cells ne) k
  ]

  module _ (k : ℕ) (s : System T) (sh : IsShared k s) where
    -- Positions that follow one another are in different cells.
    pub next-apart : (p q : ℕ) → cell_of s p ≡ cell_of s q → p + 1 ≢ q
    next-apart p q e n = sh.cells_apart p q (omega (arith, n)) (omega (arith, n, sh.cells_enough)) e

    pub IsShared-later : IsShared (suc k) s
    IsShared-later = record {
      enqueue_below = omega (arith, sh.enqueue_below);
      dequeue_below = omega (arith, sh.dequeue_below);
      positions = λ i. omega (arith, sh.positions i);
      cells_enough = sh.cells_enough;
      cells_apart = sh.cells_apart;
      count = sh.count;
      full = sh.full;
      right = sh.right;
    }

    pub IsShared-enter :
        (v : T)
        → IsShared
            (suc k)
            (record s { enqueue_pos = s.enqueue_pos + 1; entered = s.entered ++ (v ∷ []) })
    IsShared-enter v = record {
      enqueue_below = omega (arith, sh.enqueue_below);
      dequeue_below = omega (arith, sh.dequeue_below);
      positions = λ i. omega (arith, sh.positions i);
      cells_enough = sh.cells_enough;
      cells_apart = sh.cells_apart;
      count = length-append s.entered (v ∷ []) ∙ ap (λ n. n + 1) sh.count;
      full = λ p e.
          let (x, y) = sh.full p e in
          (
            omega (arith, x),
            get_elem?-append s.entered (v ∷ []) p (omega (arith, x, sh.count)) ∙ y,
          );
      right = λ p w e.
          let (x, y) = sh.right p w e in
          (x, get_elem?-append s.entered (v ∷ []) p (get_elem?-below s.entered p w y) ∙ y);
    }

    pub IsShared-dequeue : IsShared (suc k) (record s { dequeue_pos = s.dequeue_pos + 1 })
    IsShared-dequeue = record {
      enqueue_below = omega (arith, sh.enqueue_below);
      dequeue_below = omega (arith, sh.dequeue_below);
      positions = λ i. omega (arith, sh.positions i);
      cells_enough = sh.cells_enough;
      cells_apart = sh.cells_apart;
      count = sh.count;
      full = sh.full;
      right = λ p w e. let (x, y) = sh.right p w e in (omega (arith, x), y);
    }

    pub IsShared-with_cell :
        (q : ℕ) (c : Cell T)
        → ((p : ℕ)
            → cell_of s p ≡ cell_of s q
            → c.sequence ≡ p + 1
            → (p < s.enqueue_pos) × (get_elem? s.entered p ≡ some c.value))
        → IsShared (suc k) (with_cell q c s)
    IsShared-with_cell q c h = record {
      enqueue_below = omega (arith, sh.enqueue_below);
      dequeue_below = omega (arith, sh.dequeue_below);
      positions = λ i. omega (arith, sh.positions i);
      cells_enough = sh.cells_enough;
      cells_apart = sh.cells_apart;
      count = sh.count;
      full = λ p. elim (eq_or_ne (cell_of s p) (cell_of s q)) [
        | inl e ↦ rw (e, put_at-here (cell_of s q) c s.cells) (h p e)
        | inr ne ↦ rw (put_at-other (cell_of s q) (cell_of s p) c s.cells ne) (sh.full p)
      ];
      right = sh.right;
    }

    pub IsShared-give :
        (q : ℕ)
        → q < s.dequeue_pos
        → (cell_at s q).sequence ≡ q + 1
        → IsShared (suc k) (record s { given = put_at q (some (cell_at s q).value) s.given })
    IsShared-give q x y = record {
      enqueue_below = omega (arith, sh.enqueue_below);
      dequeue_below = omega (arith, sh.dequeue_below);
      positions = λ i. omega (arith, sh.positions i);
      cells_enough = sh.cells_enough;
      cells_apart = sh.cells_apart;
      count = sh.count;
      full = sh.full;
      right = λ p w e. elim (eq_or_ne p q) [
        | inl same ↦ (
          omega (arith, same, x),
          ap (get_elem? s.entered) same
              ∙ (sh.full q y).1
              ∙ sym (put_at-here q (some (cell_at s q).value) s.given)
              ∙ ap (put_at q (some (cell_at s q).value) s.given) (sym same)
              ∙ e,
        )
        | inr ne ↦ sh.right p w (sym (put_at-other q p (some (cell_at s q).value) s.given ne) ∙ e)
      ];
    }
