-- ===== src/AtomicPipe/Unwrite.antt =====
-- unwrite() of AtomicPipe in include/core/AtomicQueue.h.
use supercell_common.Common.{
  ℕ, zero, suc, ◌+◌, ◌-◌, ◌≤◌, ◌≡◌, ◌≢◌, refl, sym, ap, ◌∙◌, some, arith, length, take, get_elem?,
  ◌==◌, ok, inl, inr, eq_or_ne, eq→==, ne→ne, get_elem?-take, length-take,
}
use supercell_common.AtomicQueue.{AtomicQueue, has}
use supercell_common.AtomicQueue.Layout.{IsQueue, HasBack, value}
use supercell_common.AtomicQueue.Unpush.{unpush_lem}
use supercell_common.AtomicQueue.Slots.{back_lem}
use supercell_common.AtomicPipe.{AtomicPipe, same_place, unwrite}
use supercell_common.AtomicPipe.Spec.{Pipe, unwritten}
use supercell_common.AtomicPipe.Relation.{slot, Represents, same_place-slot, back_place_lem}

module _ {ℓ} {T : Type ℓ} (n : ℕ) (p : AtomicPipe T) (s : Pipe T) (a : ℕ) (chunk pos : ℕ → ℕ) where
  f-back :
      (b : ℕ)
      → Represents n p s a b chunk pos
      → same_place p.f (slot chunk pos b) ≡ (s.completed == length s.items)
  f-back b re = ground (
    arith,
    re.f_at,
    re.count,
    re.completed_first,
    same_place-slot (a + s.completed) b re.is_queue.layout,
  )

  -- The pipe without its last value.
  abbrev shorter : Pipe T
  shorter = record s { items = take (length s.items - 1) s.items }

  shorter-Represents :
      (b : ℕ) (q : AtomicQueue T)
      → Represents n p s a (suc b) chunk pos
      → s.completed ≢ length s.items
      → IsQueue n q a (suc b) chunk pos
      → HasBack q b chunk pos
      → q.heap.values ≡ p.queue.heap.values
      → Represents n (record p { queue = q }) shorter a b chunk pos
  shorter-Represents b q re ne is has same =
      let size = length-take (length s.items - 1) s.items in
      record {
        is_queue = is;
        has_back = has;
        count = omega (arith, re.count, size, re.completed_first);
        flushed_first = re.flushed_first;
        completed_first = omega (arith, re.completed_first, size);
        w_at = re.w_at;
        f_at = re.f_at;
        c_at = re.c_at;
        asleep_empty = re.asleep_empty;
        r_at = re.r_at;
        holds = λ i h.
            get_elem?-take (length s.items - 1) s.items i (omega (arith, size))
            ∙ re.holds i (omega (arith, size))
            ∙ ap (λ v. some (v (chunk (a + i)) (pos (a + i)))) (sym same);
      }

  -- What unwrite() gives.
  abbrev pub Unwrites : Type ℓ
  Unwrites =
      (x : AtomicPipe T) × (b' : ℕ) × (unwrite n p ≡ ok ((unwritten s).0, x))
      × Represents n x (unwritten s).1 a b' chunk pos

  unwrite-none : (b : ℕ) → Represents n p s a b chunk pos → s.completed ≡ length s.items → Unwrites
  unfolding unwrite unwritten
  unwrite-none b re all = (
    p,
    b,
    rw
        (
          back_place_lem b re.is_queue re.has_back (omega (arith, re.count)) (omega arith),
          f-back b re,
          eq→== s.completed (length s.items) all,
        )
        refl,
    rw (eq→== s.completed (length s.items) all) re,
  )

  -- unwrite() of a pipe gives what the promised pipe gives, and leaves a pipe that represents it.
  pub unwrite_lem : (b : ℕ) → Represents n p s a b chunk pos → Unwrites
  unfolding unwrite unwritten
  unwrite_lem zero re = unwrite-none zero re (omega (arith, re.count, re.completed_first))
  unwrite_lem (suc b) re = elim (eq_or_ne s.completed (length s.items)) [
    | inl all ↦ unwrite-none (suc b) re all
    | inr ne ↦
        let here : a ≤ b = omega (arith, re.count, re.completed_first) in
        let (q, runs, is, has, same) =
          unpush_lem n p.queue a b chunk pos re.is_queue re.has_back here in
        let at_b : a + (length s.items - 1) ≡ b = omega (arith, re.count) in
        let last : get_elem? s.items (length s.items - 1) ≡ some (value q chunk pos b) =
          re.holds (length s.items - 1) (omega (arith, re.completed_first))
          ∙ ap (λ i. some (value p.queue chunk pos i)) at_b
          ∙ ap (λ v. some (v (chunk b) (pos b))) (sym same) in
        (
          record p { queue = q },
          b,
          rw
              (
                back_place_lem (suc b) re.is_queue re.has_back (omega arith) (omega arith),
                f-back (suc b) re,
                ne→ne s.completed (length s.items) ne,
                runs,
                back_lem n q a (suc b) chunk pos b is has here (omega arith),
                last,
              )
              refl,
          rw (ne→ne s.completed (length s.items) ne) (shorter-Represents b q re ne is has same),
        )
  ]
