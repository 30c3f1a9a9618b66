-- ===== src/AtomicQueue/Layout.antt =====
-- How the slots of the queue of include/core/AtomicQueue.h lie in its chunks. The slots that are in
-- use are numbered by the pushes made: slot `i` stands in the chunk `chunk i` at `pos i`.
use supercell_common.Common.{
  ℕ, suc, ◌+◌, ◌≤◌, ◌<◌, ◌≡◌, ◌≢◌, true, false, some, arith, Result, ok, List, [], ◌∷◌, ◌==◌,
  if◌then◌else◌,
}
use supercell_common.AtomicQueue.{Heap, AtomicQueue, update, has, remove}

-- The slots from number `a` to number `e`, of which the last is the end. Two slots of one chunk are
-- as far apart as their positions.
pub record Layout {ℓ} {T : Type ℓ} (n : ℕ) (h : Heap T) (a e : ℕ) (chunk pos : ℕ → ℕ) : Type 0 where
  pub allocated : (i : ℕ) → a ≤ i → i ≤ e → has h.live (chunk i) ≡ true
  pub inside : (i : ℕ) → a ≤ i → i ≤ e → pos i < n
  pub apart : (i j : ℕ) → a ≤ i → i ≤ e → a ≤ j → j ≤ e → chunk i ≡ chunk j → i + pos j ≡ j + pos i
  pub stays :
      (i : ℕ)
      → a ≤ i
      → i < e
      → pos i + 1 ≢ n
      → (chunk (suc i) ≡ chunk i) × (pos (suc i) ≡ pos i + 1)
  pub turns :
      (i : ℕ)
      → a ≤ i
      → i < e
      → pos i + 1 ≡ n
      → (pos (suc i) ≡ 0)
        × (h.next (chunk i) ≡ some (chunk (suc i)))
        × (h.prev (chunk (suc i)) ≡ some (chunk i))

-- The queue has its slots from `a` to the end `e`.
pub record IsQueue {ℓ} {T : Type ℓ} (n : ℕ) (q : AtomicQueue T) (a e : ℕ) (chunk pos : ℕ → ℕ)
    : Type 0 where
  pub layout : Layout n q.heap a e chunk pos
  pub ordered : a ≤ e
  pub begins : q.begin_chunk ≡ some (chunk a)
  pub begins_at : q.begin_pos ≡ pos a
  pub ends : q.end_chunk ≡ some (chunk e)
  pub ends_at : q.end_pos ≡ pos e
  pub spare_live : (s : ℕ) → q.spare_chunk ≡ some s → has q.heap.live s ≡ true
  pub spare_apart : (s i : ℕ) → q.spare_chunk ≡ some s → a ≤ i → i ≤ e → chunk i ≢ s

-- The back slot is the one before the end.
pub record HasBack {ℓ} {T : Type ℓ} (q : AtomicQueue T) (b : ℕ) (chunk pos : ℕ → ℕ) : Type 0 where
  pub back_at : q.back_chunk ≡ some (chunk b)
  pub back_pos : q.back_pos ≡ pos b

-- A call on `q` that leaves the queue `q'` with the slots from `a` to `e`, where neither the values
-- nor the back slot have changed.
pub record Reaches {ℓ} {T : Type ℓ} (n : ℕ) (call : Result (AtomicQueue T)) (q q' : AtomicQueue T)
    (a e : ℕ) (chunk pos : ℕ → ℕ) : Type ℓ where
  pub runs : call ≡ ok q'
  pub is_queue : IsQueue n q' a e chunk pos
  pub same_values : q'.heap.values ≡ q.heap.values
  pub same_back : q'.back_chunk ≡ q.back_chunk
  pub same_back_pos : q'.back_pos ≡ q.back_pos

-- The value in slot `i`.
abbrev pub value {ℓ} : {T : Type ℓ} → AtomicQueue T → (ℕ → ℕ) → (ℕ → ℕ) → ℕ → T
value q chunk pos i = q.heap.values (chunk i) (pos i)

module _ {ℓ} {T : Type ℓ} {n : ℕ} {h : Heap T} {a e : ℕ} {chunk pos : ℕ → ℕ} where
  -- Slots are different places.
  pub slot_apart :
      Layout n h a e chunk pos
      → (i j : ℕ) → a ≤ i
      → i ≤ e
      → a ≤ j
      → j ≤ e
      → chunk i ≡ chunk j
      → pos i ≡ pos j
      → i ≡ j
  slot_apart l i j p q r s c d = omega (arith, l.apart i j p q r s c)

  -- Fewer slots.
  pub narrow : (a' e' : ℕ) → a ≤ a' → e' ≤ e → Layout n h a e chunk pos → Layout n h a' e' chunk pos
  narrow a' e' p q l = record {
    allocated = λ i x y. l.allocated i (omega arith) (omega arith);
    inside = λ i x y. l.inside i (omega arith) (omega arith);
    apart = λ i j x y z w. l.apart i j (omega arith) (omega arith) (omega arith) (omega arith);
    stays = λ i x y. l.stays i (omega arith) (omega arith);
    turns = λ i x y. l.turns i (omega arith) (omega arith);
  }

-- The links that join a chunk to the end.
abbrev pub linked {ℓ} : {T : Type ℓ} → Heap T → ℕ → ℕ → Heap T
linked h c p = record h { next = update c (some p) h.next; prev = update p (some c) h.prev }

module _ {ℓ} {T : Type ℓ} {n : ℕ} {h : Heap T} {a e : ℕ} {chunk pos : ℕ → ℕ} where
  -- One slot more, in the chunk of the end.
  pub extend_stay :
      Layout n h a e chunk pos
      → a ≤ e
      → pos e + 1 < n
      → Layout n h a (suc e) (update (suc e) (chunk e) chunk) (update (suc e) (pos e + 1) pos)
  unfolding update
  extend_stay l o more = record {
    allocated = λ i x y. ground (arith, l.allocated i, l.allocated e);
    inside = λ i x y. ground (arith, l.inside i);
    apart = λ i j x y z w c. ground (arith, l.apart i j, l.apart i e, l.apart e j);
    stays = λ i x y c. ground (arith, l.stays i);
    turns = λ i x y c. ground (arith, l.turns i);
  }

  -- One slot more, in a chunk that is joined to the end.
  pub extend_turn :
      (p : ℕ)
      → Layout n h a e chunk pos
      → a ≤ e
      → pos e + 1 ≡ n
      → has h.live p ≡ true
      → ((i : ℕ) → a ≤ i → i ≤ e → chunk i ≢ p)
      → Layout n (linked h (chunk e) p) a (suc e) (update (suc e) p chunk) (update (suc e) 0 pos)
  unfolding update
  extend_turn p l o full live fresh = record {
    allocated = λ i x y. ground (arith, l.allocated i);
    inside = λ i x y. ground (arith, l.inside i);
    apart = λ i j x y z w c. ground (arith, l.apart i j, fresh i, fresh j);
    stays = λ i x y c. ground (arith, l.stays i);
    turns = λ i x y c. ground (arith, l.turns i, l.apart i e, fresh (suc i));
  }

pub has-remove :
    (a : ℕ) (l : List ℕ) (x : ℕ) → has (remove a l) x ≡ (if x == a then false else has l x)
unfolding remove
has-remove a [] x = ground arith
has-remove a (y ∷ l) x = ground (arith, has-remove a l x)
