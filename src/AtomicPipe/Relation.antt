-- ===== src/AtomicPipe/Relation.antt =====
-- How the pipe of include/core/AtomicQueue.h represents what it promises.
use supercell_common.Common.{
  ℕ, suc, ◌+◌, ◌≤◌, ◌<◌, ◌≡◌, true, none, some, arith, ◌⊎◌, length, get_elem?, ◌==◌, if◌then◌else◌,
  ok, inl, inr, eq_or_ne,
}
use supercell_common.AtomicQueue.{Heap, AtomicQueue, deref}
use supercell_common.AtomicQueue.Layout.{Layout, IsQueue, HasBack, value}
use supercell_common.AtomicPipe.{Place, AtomicPipe, same_place, front_place, back_place}
use supercell_common.AtomicPipe.Spec.{Pipe}

abbrev pub slot : (ℕ → ℕ) → (ℕ → ℕ) → ℕ → Place
slot chunk pos i = some (chunk i, pos i)

-- The pipe `p` holds what `s` says: `a` slots have been read, and `b` have been written.
pub record Represents {ℓ} {T : Type ℓ} (n : ℕ) (p : AtomicPipe T) (s : Pipe T) (a b : ℕ)
    (chunk pos : ℕ → ℕ) : Type ℓ where
  pub is_queue : IsQueue n p.queue a (suc b) chunk pos
  pub has_back : HasBack p.queue b chunk pos
  pub count : a + length s.items ≡ b
  pub flushed_first : s.flushed ≤ s.completed
  pub completed_first : s.completed ≤ length s.items
  pub w_at : p.w ≡ slot chunk pos (a + s.flushed)
  pub f_at : p.f ≡ slot chunk pos (a + s.completed)
  pub c_at : p.c ≡ (if s.asleep then none else slot chunk pos (a + s.flushed))
  pub asleep_empty : s.asleep ≡ true → s.flushed ≡ 0
  pub r_at : (p.r ≡ none) ⊎ ((k : ℕ) × (k ≤ s.flushed) × (p.r ≡ slot chunk pos (a + k)))
  pub holds :
      (i : ℕ) → i < length s.items → get_elem? s.items i ≡ some (value p.queue chunk pos (a + i))

module _ {ℓ} {T : Type ℓ} {n : ℕ} {h : Heap T} {a e : ℕ} {chunk pos : ℕ → ℕ} where
  -- Two pointers to slots are the same just if the numbers of the slots are.
  pub same_place-slot :
      (i j : ℕ)
      → Layout n h a e chunk pos
      → a ≤ i
      → i ≤ e
      → a ≤ j
      → j ≤ e
      → same_place (slot chunk pos i) (slot chunk pos j) ≡ (i == j)
  unfolding same_place
  same_place-slot i j l x y z w = elim (eq_or_ne i j) [
    | inl same ↦ ground (arith, same)
    | inr ne ↦ ground (arith, l.apart i j x y z w)
  ]

module _ {ℓ} {T : Type ℓ} {n : ℕ} {q : AtomicQueue T} {a e : ℕ} {chunk pos : ℕ → ℕ} where
  pub front_place_lem : IsQueue n q a e chunk pos → front_place q ≡ ok (slot chunk pos a)
  unfolding front_place deref
  front_place_lem is = ground (arith, is.begins, is.begins_at, is.layout.allocated a, is.ordered)

  pub back_place_lem :
      (b : ℕ)
      → IsQueue n q a e chunk pos
      → HasBack q b chunk pos
      → a ≤ b
      → b ≤ e
      → back_place q ≡ ok (slot chunk pos b)
  unfolding back_place deref
  back_place_lem b is has x y = ground (arith, has.back_at, has.back_pos, is.layout.allocated b)
