-- ===== src/Transaction/Atomic.antt =====
-- Atomicity of the transactions of include/core/Transaction.h: a run that throws leaves the state
-- as it was before the first action.
use supercell_common.Common.{
  ℕ, zero, suc, ◌+◌, ◌≤◌, ◌<◌, ◌≡◌, refl, sym, ap, ◌∙◌, true, false, List, [], ◌∷◌, length, take,
  drop, reverse, reverse_aux, All, min, arith, inl, inr, lt_or_le, length-drop, take-length, lt→ne,
  eq→==, All-take, All-drop,
}
use supercell_common.Transaction.{
  Outcome, returned, threw, Routine, Counter, finished, at, Transaction, Stop, stopped, failed,
  unwind, turn, run_loop, settle, run_at, run,
}

module _ {ℓ κ} {S : Type ℓ} {E : Type κ} where
  -- The state after the actions, whether they pause or not.
  unfoldable pub performed : List (Routine S E) → S → S
  performed [] s = s
  performed (r ∷ rs) s = performed rs (r.action s).1

  -- A rollback restores the state, however its action ended.
  unfoldable pub IsUndone : Routine S E → Type ℓ
  IsUndone r = (s : S) → (r.undo (r.action s).1).1 ≡ s

  -- A transaction that began at `s₀` has performed the actions before its counter.
  abbrev pub Reached : S → Counter → List (Routine S E) → S → Type ℓ
  Reached s₀ finished rs s = s ≡ performed rs s₀
  Reached s₀ (at k) rs s = (k ≤ length rs) × (s ≡ performed (take k rs) s₀)

  -- What the loop may end with over `rest`, begun at `s`.
  abbrev Stops : S → List (Routine S E) → ℕ → S → Stop E × S → Type ℓ
  Stops s₀ rest pc s (stopped j, s') =
      (n : ℕ) × (j ≡ pc + n)
      × (n ≤ length rest)
      × (min 1 (length rest) ≤ n)
      × (s' ≡ performed (take n rest) s)
  Stops s₀ rest pc s (failed e, s') = s' ≡ s₀

  Stops-later :
      (r : Routine S E) (s₀ : S) (rest : List (Routine S E)) (pc : ℕ) (s : S) (x : Stop E × S)
      → Stops s₀ rest (pc + 1) (r.action s).1 x
      → Stops s₀ (r ∷ rest) pc s x
  unfolding performed
  Stops-later r s₀ rest pc s (stopped j, s') (n, e, le, some_ran, same) =
      (suc n, omega arith, omega arith, omega arith, same)
  Stops-later r s₀ rest pc s (failed e, s') same = same

  turn-Stops :
      (r : Routine S E) (s₀ : S) (rest passed : List (Routine S E)) (pc : ℕ) (s : S)
      (outcome : Outcome E) (later : Stop E × S)
      → unwind (r ∷ passed) (r.action s).1 ≡ s₀
      → Stops s₀ rest (pc + 1) (r.action s).1 later
      → Stops s₀ (r ∷ rest) pc s (turn (r ∷ passed) (pc + 1) outcome (r.action s).1 later)
  unfolding turn performed
  turn-Stops r s₀ rest passed pc s (returned true) later u h = Stops-later r s₀ rest pc s later h
  turn-Stops r s₀ rest passed pc s (returned false) later u h =
      (suc zero, omega arith, omega arith, omega arith, refl)
  turn-Stops r s₀ rest passed pc s (threw e) later u h = u

  run_loop-Stops :
      (s₀ : S) (rest passed : List (Routine S E)) (pc : ℕ) (s : S)
      → All IsUndone rest
      → unwind passed s ≡ s₀
      → Stops s₀ rest pc s (run_loop passed pc rest s)
  unfolding run_loop unwind performed IsUndone
  run_loop-Stops s₀ [] passed pc s laws u = (0, omega arith, omega arith, omega arith, refl)
  run_loop-Stops s₀ (r ∷ rest) passed pc s (law, laws) u =
      let back : unwind (r ∷ passed) (r.action s).1 ≡ s₀ = ap (unwind passed) (law s) ∙ u in
      turn-Stops r s₀ rest passed pc s (r.action s).0
        (run_loop (r ∷ passed) (pc + 1) rest (r.action s).1) back
        (run_loop-Stops s₀ rest (r ∷ passed) (pc + 1) (r.action s).1 laws back)

  performed-take :
      (k n j : ℕ) (rs : List (Routine S E)) (s : S)
      → j ≡ k + n
      → performed (take j rs) s ≡ performed (take n (drop k rs)) (performed (take k rs) s)
  unfolding performed
  performed-take zero n j rs s e = ap (λ i. performed (take i rs) s) (omega arith)
  performed-take (suc k) n zero rs s e = absurd (omega arith)
  performed-take (suc k) zero (suc j) [] s e = refl
  performed-take (suc k) (suc n) (suc j) [] s e = refl
  performed-take (suc k) n (suc j) (r ∷ rs) s e =
      performed-take k n j rs (r.action s).1 (omega arith)

  pub unwind-performed :
      (rs passed : List (Routine S E)) (s₀ s : S)
      → All IsUndone rs
      → unwind passed s ≡ s₀
      → unwind (reverse_aux rs passed) (performed rs s) ≡ s₀
  unfolding unwind performed IsUndone
  unwind-performed [] passed s₀ s laws u = u
  unwind-performed (r ∷ rs) passed s₀ s (law, laws) u =
      unwind-performed rs (r ∷ passed) s₀ (r.action s).1 laws (ap (unwind passed) (law s) ∙ u)

  -- How a call of run() may end, by what it returns.
  abbrev pub Ends : S → Transaction S E → Outcome E × Transaction S E → Type ℓ
  Ends s₀ t (returned true, t') = (t'.counter ≡ finished) × Reached s₀ finished t.routines t'.state
  Ends s₀ t (returned false, t') =
      (k : ℕ) × (j : ℕ) × (t.counter ≡ at k)
      × (t'.counter ≡ at j)
      × (k < j)
      × (j < length t.routines)
      × Reached s₀ (at j) t.routines t'.state
  Ends s₀ t (threw e, t') = (t'.counter ≡ at 0) × (t'.state ≡ s₀)

  settle-Ends :
      (s₀ : S) (t : Transaction S E) (k : ℕ) (x : Stop E × S)
      → t.counter ≡ at k
      → k ≤ length t.routines
      → t.state ≡ performed (take k t.routines) s₀
      → Stops s₀ (drop k t.routines) k t.state x
      → Ends s₀ t (settle t x) × ((settle t x).1.routines ≡ t.routines)
  unfolding settle
  settle-Ends s₀ t k (failed e, s) c le reached same = ((refl, same), refl)
  settle-Ends s₀ t k (stopped j, s) c le reached (n, e, most, some_ran, same) =
      let there : s ≡ performed (take j t.routines) s₀ =
        same
        ∙ ap (performed (take n (drop k t.routines))) reached
        ∙ sym (performed-take k n j t.routines s₀ e) in
      elim (lt_or_le j (length t.routines)) [
        | inl less ↦ rw (lt→ne j (length t.routines) less) (
          (k, j, c, refl, ground (arith, length-drop k t.routines), less, (ground arith, there)),
          refl,
        )
        | inr all ↦
            let last : j ≡ length t.routines = ground (arith, length-drop k t.routines) in
            rw (eq→== j (length t.routines) last) (
              (
                refl,
                there
                    ∙ ap (λ rs. performed rs s₀)
                        (ap (λ i. take i t.routines) last ∙ take-length t.routines),
              ),
              refl,
            )
      ]

  pub run_at-Ends :
      (s₀ : S) (t : Transaction S E)
      → All IsUndone t.routines
      → (c : Counter) → t.counter ≡ c
      → Reached s₀ c t.routines t.state
      → Ends s₀ t (run_at c t) × ((run_at c t).1.routines ≡ t.routines)
  unfolding run_at unwind
  run_at-Ends s₀ t laws finished e reached = ((e, reached), refl)
  run_at-Ends s₀ t laws (at k) e (le, reached) = settle-Ends s₀ t k _ e le reached (
      run_loop-Stops s₀ (drop k t.routines) (reverse (take k t.routines)) k t.state
        (All-drop IsUndone k t.routines laws)
        (ap (unwind (reverse (take k t.routines))) reached
          ∙ unwind-performed (take k t.routines) [] s₀ s₀ (All-take IsUndone k t.routines laws)
              refl))

  -- If each rollback restores what its action has changed, run() of a transaction that has
  -- performed the actions before its counter, on `s₀`, either finishes with all actions performed, or
  -- pauses further on with the ones before the new counter performed, or throws with the counter at
  -- the start and the state `s₀`.
  pub run-Ends :
      (s₀ : S) (t : Transaction S E)
      → All IsUndone t.routines
      → Reached s₀ t.counter t.routines t.state
      → Ends s₀ t (run t) × ((run t).1.routines ≡ t.routines)
  unfolding run
  run-Ends s₀ t laws reached = run_at-Ends s₀ t laws t.counter refl reached
