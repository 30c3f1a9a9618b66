-- ===== src/Transaction/Next.antt =====
-- next() and waitForCompletion() of include/core/Transaction.h.
use supercell_common.Common.{
  ℕ, ◌<◌, ◌≡◌, refl, ap, ◌∙◌, true, false, none, some, length, take, All, arith, inl, inr, lt_or_le,
  lt→ltb, le→ltb, take-length,
}
use supercell_common.Transaction.{
  Outcome, returned, threw, Counter, finished, at, Transaction, run_at, next, next_at,
  wait_for_completion,
}
use supercell_common.Transaction.Atomic.{performed, IsUndone, Reached, Ends, run_at-Ends}

module _ {ℓ κ} {S : Type ℓ} {E : Type κ} where
  -- Taking the future's value changes nothing that `Ends` is about.
  Ends-taken :
      (s₀ : S) (t : Transaction S E) (x : Outcome E × Transaction S E)
      → Ends s₀ t x
      → Ends s₀ t (x.0, record (x.1) { result = none })
  Ends-taken s₀ t (returned true, t') h = h
  Ends-taken s₀ t (returned false, t') h = h
  Ends-taken s₀ t (threw e, t') h = h

  next-at :
      (s₀ : S) (t : Transaction S E) (c : Counter)
      → All IsUndone t.routines
      → t.counter ≡ c
      → Reached s₀ c t.routines t.state
      → Ends s₀ t (next_at true c t)
  unfolding next_at
  next-at s₀ t finished laws c reached = (c, reached)
  next-at s₀ t (at k) laws c (le, reached) = elim (lt_or_le k (length t.routines)) [
    | inl less ↦
        rw (lt→ltb k (length t.routines) less)
          (Ends-taken s₀ t (run_at (at k) t) (run_at-Ends s₀ t laws (at k) c (le, reached)).0)
    | inr all ↦ rw (le→ltb k (length t.routines) all) (
      refl,
      reached
          ∙ ap (λ rs. performed rs s₀)
              (ap (λ i. take i t.routines) (omega arith) ∙ take-length t.routines),
    )
  ]

  -- next() that waits ends as a run does: if each rollback restores, it finishes, pauses further on,
  -- or throws with the state and the counter back at the start.
  pub next-Ends :
      (s₀ : S) (t : Transaction S E)
      → All IsUndone t.routines
      → Reached s₀ t.counter t.routines t.state
      → Ends s₀ t (next true t)
  unfolding next
  next-Ends s₀ t laws reached = next-at s₀ t t.counter laws refl reached

  -- With a routine at the counter, next() that does not wait, followed by waitForCompletion(), gives
  -- the outcome and the transaction that next() gives that does.
  pub wait_for_completion-next :
      (t : Transaction S E) (k : ℕ)
      → t.counter ≡ at k
      → k < length t.routines
      → wait_for_completion (next false t).1 ≡ (some (next true t).0, (next true t).1)
  unfolding next next_at wait_for_completion
  wait_for_completion-next t k c less = rw (c, lt→ltb k (length t.routines) less) refl
