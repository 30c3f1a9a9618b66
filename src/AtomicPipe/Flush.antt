-- ===== src/AtomicPipe/Flush.antt =====
-- flush() of AtomicPipe in include/core/AtomicQueue.h.
use supercell_common.Common.{
  ℕ, ◌+◌, ◌≡◌, ◌≢◌, refl, ap, ◌∙◌, true, false, arith, ◌==◌, not, inl, inr, eq_or_ne, eq→==, ne→ne,
  Bool-cases,
}
use supercell_common.AtomicPipe.{AtomicPipe, same_place, swapped_in, flush}
use supercell_common.AtomicPipe.Spec.{Pipe, flushed_out}
use supercell_common.AtomicPipe.Relation.{Represents, same_place-slot}

module _ {ℓ} {T : Type ℓ} (n : ℕ) (p : AtomicPipe T) (s : Pipe T) (a b : ℕ)
    (chunk pos : ℕ → ℕ) where
  -- The shared pointer is the writer's just if the reader is not asleep.
  shared-w : Represents n p s a b chunk pos → same_place p.c p.w ≡ not s.asleep
  unfolding same_place
  shared-w re = elim (Bool-cases s.asleep) [
    | inl z ↦ ground (arith, z, re.c_at, re.w_at)
    | inr z ↦ ground (arith, z, re.c_at, re.w_at)
  ]

  w-f : Represents n p s a b chunk pos → same_place p.w p.f ≡ (s.flushed == s.completed)
  w-f re = ground (
    arith,
    re.w_at,
    re.f_at,
    re.count,
    re.flushed_first,
    re.completed_first,
    same_place-slot (a + s.flushed) (a + s.completed) re.is_queue.layout,
  )

  flush-none : Represents n p s a b chunk pos → s.flushed ≡ s.completed → flush p ≡ (true, p)
  unfolding flush
  flush-none re e = rw (w-f re, eq→== s.flushed s.completed e) refl

  -- The pipe after a flush of what is complete.
  abbrev let_out : AtomicPipe T
  let_out = record p { c = p.f; w = p.f }

  flush-some :
      Represents n p s a b chunk pos → s.flushed ≢ s.completed → flush p ≡ (not s.asleep, let_out)
  unfolding flush swapped_in
  flush-some re ne =
      let differ : same_place p.w p.f ≡ false = w-f re ∙ ne→ne s.flushed s.completed ne in
      elim (Bool-cases s.asleep) [
        | inl z ↦ rw (differ, shared-w re ∙ ap not z, ap not z) refl
        | inr z ↦ rw (differ, shared-w re ∙ ap not z, ap not z) refl
      ]

  let_out-Represents :
      Represents n p s a b chunk pos
      → Represents n let_out (record s { flushed = s.completed; asleep = false }) a b chunk pos
  let_out-Represents re = record {
    is_queue = re.is_queue;
    has_back = re.has_back;
    count = re.count;
    flushed_first = omega arith;
    completed_first = re.completed_first;
    w_at = re.f_at;
    f_at = re.f_at;
    c_at = re.f_at;
    asleep_empty = λ h. absurd (ground (arith, h));
    r_at = elim re.r_at [
      | inl e ↦ inl e
      | inr (k, le, e) ↦ inr (k, omega (arith, re.flushed_first), e)
    ];
    holds = re.holds;
  }

  -- flush() of a pipe tells what the promised pipe tells, and leaves a pipe that represents it.
  pub flush_lem :
      Represents n p s a b chunk pos
      → ((flush p).0 ≡ (flushed_out s).0) × Represents n (flush p).1 (flushed_out s).1 a b chunk pos
  unfolding flushed_out
  flush_lem re = elim (eq_or_ne s.flushed s.completed) [
    | inl e ↦ rw (flush-none re e, eq→== s.flushed s.completed e) (refl, re)
    | inr ne ↦ rw (flush-some re ne, ne→ne s.flushed s.completed ne) (refl, let_out-Represents re)
  ]
