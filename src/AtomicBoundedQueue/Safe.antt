-- ===== src/AtomicBoundedQueue/Safe.antt =====
-- The invariant of include/core/AtomicBoundedQueue.h: what each thread knows of its cell, and what a
-- full cell holds.
use supercell_common.Common.{
  put_at, put_at-here, put_at-other, ℕ, ◌+◌, ◌≤◌, ◌<◌, ◌≡◌, ◌≢◌, sym, ◌∙◌, List, length, get_elem?,
  Option, none, some, inl, inr, eq_or_ne,
}
use supercell_common.AtomicBoundedQueue.{
  Cell, Thread, System, idle, push_at, push_free, push_claimed, push_stored, pop_at, pop_full,
  pop_claimed, pop_read, cell_at, cell_of, becomes,
}

module _ {T : Type 0} where
  -- The position that a thread holds.
  unfoldable pub pos_of : Thread T → ℕ
  pos_of idle = 0
  pos_of (push_at v p) = p
  pos_of (push_free v p) = p
  pos_of (push_claimed v p) = p
  pos_of (push_stored v p) = p
  pos_of (pop_at p) = p
  pos_of (pop_full p) = p
  pos_of (pop_claimed p) = p
  pos_of (pop_read v p) = p

  -- The position that a thread has claimed for a push, and for a pop.
  unfoldable pub pushes_to : Thread T → Option ℕ
  pushes_to idle = none
  pushes_to (push_at v p) = none
  pushes_to (push_free v p) = none
  pushes_to (push_claimed v p) = some p
  pushes_to (push_stored v p) = some p
  pushes_to (pop_at p) = none
  pushes_to (pop_full p) = none
  pushes_to (pop_claimed p) = none
  pushes_to (pop_read v p) = none

  unfoldable pub pops_from : Thread T → Option ℕ
  pops_from idle = none
  pops_from (push_at v p) = none
  pops_from (push_free v p) = none
  pops_from (push_claimed v p) = none
  pops_from (push_stored v p) = none
  pops_from (pop_at p) = none
  pops_from (pop_full p) = none
  pops_from (pop_claimed p) = some p
  pops_from (pop_read v p) = some p

  -- What a thread knows of its position and of its cell `c`.
  -- Here `e` and `d` are the positions, `xs` what has entered, and `g` what was given.
  unfoldable pub KnowsOf : ℕ → ℕ → List T → (ℕ → Option T) → Cell T → Thread T → Type 0
  KnowsOf e d xs g c idle = Unit
  KnowsOf e d xs g c (push_at v p) = Unit
  KnowsOf e d xs g c (push_free v p) = e ≤ p → c.sequence ≡ p
  KnowsOf e d xs g c (push_claimed v p) = (p < e) × (c.sequence ≡ p) × (get_elem? xs p ≡ some v)
  KnowsOf e d xs g c (push_stored v p) =
      (p < e) × (c.sequence ≡ p) × (get_elem? xs p ≡ some v) × (c.value ≡ v)
  KnowsOf e d xs g c (pop_at p) = Unit
  KnowsOf e d xs g c (pop_full p) = d ≤ p → c.sequence ≡ p + 1
  KnowsOf e d xs g c (pop_claimed p) = (p < d) × (c.sequence ≡ p + 1) × (g p ≡ none)
  KnowsOf e d xs g c (pop_read v p) = (p < d) × (c.sequence ≡ p + 1)

  abbrev pub Knows : System T → Thread T → Type 0
  Knows s l = KnowsOf s.enqueue_pos s.dequeue_pos s.entered s.given (cell_at s (pos_of l)) l

  -- Two threads have not claimed the same position.
  pub record Apart (l l' : Thread T) : Type 0 where
    pub pushing : (p : ℕ) → pushes_to l ≡ some p → pushes_to l' ≢ some p
    pub popping : (p : ℕ) → pops_from l ≡ some p → pops_from l' ≢ some p

  pub record IsShared (k : ℕ) (s : System T) : Type 0 where
    pub enqueue_below : s.enqueue_pos ≤ k
    pub dequeue_below : s.dequeue_pos ≤ k
    pub positions : (i : ℕ) → pos_of (s.threads i) ≤ k
    pub cells_enough : 2 ≤ s.size
    pub cells_apart : (p q : ℕ) → p < q → q < p + s.size → cell_of s p ≢ cell_of s q
    pub count : length s.entered ≡ s.enqueue_pos
    pub full :
        (p : ℕ)
        → (cell_at s p).sequence ≡ p + 1
        → (p < s.enqueue_pos) × (get_elem? s.entered p ≡ some (cell_at s p).value)
    pub right :
        (p : ℕ) (v : T)
        → s.given p ≡ some v
        → (p < s.dequeue_pos) × (get_elem? s.entered p ≡ some v)

  -- The invariant, where fewer than `k` steps have been made.
  pub record IsSafe (k : ℕ) (s : System T) : Type 0 where
    pub shared : IsShared k s
    pub knows : (i : ℕ) → Knows s (s.threads i)
    pub apart : (i j : ℕ) → i ≢ j → Apart (s.threads i) (s.threads j)

  Apart-sym : (l l' : Thread T) → Apart l l' → Apart l' l
  Apart-sym l l' a = record {
    pushing = λ p e e'. a.pushing p e' e;
    popping = λ p e e'. a.popping p e' e;
  }

  becomes-Apart :
      (s : System T) (i : ℕ) (l : Thread T)
      → ((j : ℕ) → j ≢ i → Apart l (s.threads j))
      → ((j j' : ℕ) → j ≢ j' → Apart (s.threads j) (s.threads j'))
      → (j j' : ℕ) → j ≢ j'
      → Apart (put_at i l s.threads j) (put_at i l s.threads j')
  becomes-Apart s i l new old j j' ne = elim (eq_or_ne j i) [
    | inl e ↦
        rw (e, put_at-here i l s.threads, put_at-other i j' l s.threads (λ z. ne (e ∙ sym z)))
          (new j' (λ z. ne (e ∙ sym z)))
    | inr other ↦ elim (eq_or_ne j' i) [
      | inl e ↦
          rw (e, put_at-here i l s.threads, put_at-other i j l s.threads other)
            (Apart-sym l (s.threads j) (new j other))
      | inr other' ↦
          rw (put_at-other i j l s.threads other, put_at-other i j' l s.threads other')
            (old j j' ne)
    ]
  ]

  -- A thread takes a step after which the others still know what they knew.
  pub becomes-IsSafe :
      (k : ℕ) (s : System T) (i : ℕ) (l : Thread T)
      → IsShared k s
      → pos_of l ≤ k
      → Knows s l
      → ((j : ℕ) → j ≢ i → Knows s (s.threads j))
      → ((j : ℕ) → j ≢ i → Apart l (s.threads j))
      → ((j j' : ℕ) → j ≢ j' → Apart (s.threads j) (s.threads j'))
      → IsSafe k (becomes i l s)
  becomes-IsSafe k s i l sh x own others new old = record {
    shared = record {
      enqueue_below = sh.enqueue_below;
      dequeue_below = sh.dequeue_below;
      positions = λ j. elim (eq_or_ne j i) [
        | inl e ↦ rw (e, put_at-here i l s.threads) x
        | inr ne ↦ rw (put_at-other i j l s.threads ne) (sh.positions j)
      ];
      cells_enough = sh.cells_enough;
      cells_apart = sh.cells_apart;
      count = sh.count;
      full = sh.full;
      right = sh.right;
    };
    knows = λ j. elim (eq_or_ne j i) [
      | inl e ↦ rw (e, put_at-here i l s.threads) own
      | inr ne ↦ rw (put_at-other i j l s.threads ne) (others j ne)
    ];
    apart = becomes-Apart s i l new old;
  }
