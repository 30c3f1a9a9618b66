-- ===== src/Transaction/Completion.antt =====
-- The transactions of include/core/Transaction.h to their end: repeated runs finish, and what
-- rollback() undoes.
use supercell_common.Common.{
  ℕ, zero, suc, ◌+◌, ◌-◌, ◌≤◌, ◌≡◌, refl, ap, ◌∙◌, Bool, true, false, none, some, List, [], ◌∷◌,
  ◌++◌, length, take, drop, reverse, All, arith, inl, inr, Bool-cases, ◌==◌, All-drop,
  All-reverse_aux, drop_append_length, take_append_length,
}
use supercell_common.Transaction.{
  Outcome, returned, threw, Routine, Counter, finished, at, Transaction, Stop, stopped, unwind,
  turn, run_loop, settle, run_at, run, rolled, roll, roll_turn, rollback, rolled_routines, roll_end,
  roll_all, from_counter,
}
use supercell_common.Transaction.Atomic.{
  performed, IsUndone, Reached, Ends, run-Ends, unwind-performed,
}

-- The runs that are left at most.
abbrev runs_left : Counter → ℕ → ℕ
runs_left finished size = 0
runs_left (at k) size = size + 1 - k

module _ {ℓ κ} {S : Type ℓ} {E : Type κ} where
  -- An action that returns from every state, and a rollback that does.
  unfoldable pub ReturnsAlways : Routine S E → Type (ℓ ⊔ κ)
  ReturnsAlways r = (s : S) → (b : Bool) × ((r.action s).0 ≡ returned b)

  unfoldable pub UndoReturns : Routine S E → Type (ℓ ⊔ κ)
  UndoReturns r = (s : S) → (r.undo s).0 ≡ none

  unfoldable pub runs : ℕ → Transaction S E → Transaction S E
  runs zero t = t
  runs (suc n) t = runs n (run t).1

  turn-stopped :
      (passed rest : List (Routine S E)) (pc : ℕ) (o : Outcome E) (b : Bool) (s : S)
      (later : Stop E × S)
      → o ≡ returned b
      → (j : ℕ) × (later.0 ≡ stopped j)
      → (j : ℕ) × ((turn passed pc o s later).0 ≡ stopped j)
  unfolding turn
  turn-stopped passed rest pc o true s later e (j, h) = (j, rw e h)
  turn-stopped passed rest pc o false s later e (j, h) = (pc, rw e refl)

  run_loop-stopped :
      (rest passed : List (Routine S E)) (pc : ℕ) (s : S)
      → All ReturnsAlways rest
      → (j : ℕ) × ((run_loop passed pc rest s).0 ≡ stopped j)
  unfolding run_loop ReturnsAlways
  run_loop-stopped [] passed pc s h = (pc, refl)
  run_loop-stopped (r ∷ rest) passed pc s (h, hs) =
      let (b, e) = h s in
      turn-stopped (r ∷ passed) rest (pc + 1) (r.action s).0 b (r.action s).1 _ e
        (run_loop-stopped rest (r ∷ passed) (pc + 1) (r.action s).1 hs)

  settle-returned :
      (t : Transaction S E) (j : ℕ) (x : Stop E × S)
      → x.0 ≡ stopped j
      → (b : Bool) × ((settle t x).0 ≡ returned b)
  unfolding settle
  settle-returned t j (x, s) e = elim (Bool-cases (j == length t.routines)) [
    | inl h ↦ (true, rw (e, h) refl)
    | inr h ↦ (false, rw (e, h) refl)
  ]

  run_at-returned :
      (t : Transaction S E) (c : Counter)
      → All ReturnsAlways t.routines
      → (b : Bool) × ((run_at c t).0 ≡ returned b)
  unfolding run_at
  run_at-returned t finished h = (true, refl)
  run_at-returned t (at k) h =
      let (j, e) =
        run_loop-stopped (drop k t.routines) (reverse (take k t.routines)) k t.state
          (All-drop ReturnsAlways k t.routines h) in
      settle-returned t j _ e

  Ends-step :
      (s₀ : S) (t : Transaction S E) (x : Outcome E × Transaction S E) (n : ℕ) (b : Bool)
      → Ends s₀ t x
      → x.0 ≡ returned b
      → runs_left t.counter (length t.routines) ≤ suc n
      → Reached s₀ x.1.counter t.routines x.1.state
        × (runs_left x.1.counter (length t.routines) ≤ n)
  Ends-step s₀ t (returned true, t') n b (c, reached) e left = rw c (reached, omega arith)
  Ends-step s₀ t (returned false, t') n b (k, j, before, c, further, inside, reached) e left =
      rw c (reached, ground (arith, before, left))
  Ends-step s₀ t (threw x, t') n b h e left = absurd (ground (arith, e))

  runs-finished :
      (s₀ : S) (rs : List (Routine S E)) (c : Counter) (s : S)
      → Reached s₀ c rs s
      → runs_left c (length rs) ≤ 0
      → (c ≡ finished) × (s ≡ performed rs s₀)
  runs-finished s₀ rs finished s reached left = (refl, reached)
  runs-finished s₀ rs (at k) s (le, reached) left = absurd (omega arith)

  runs-of :
      (n : ℕ) (s₀ : S) (rs : List (Routine S E)) (t : Transaction S E)
      → t.routines ≡ rs
      → All IsUndone rs
      → All ReturnsAlways rs
      → Reached s₀ t.counter rs t.state
      → runs_left t.counter (length rs) ≤ n
      → ((runs n t).counter ≡ finished) × ((runs n t).state ≡ performed rs s₀)
  unfolding runs run
  runs-of zero s₀ rs t e laws h reached left = runs-finished s₀ rs t.counter t.state reached left
  runs-of (suc n) s₀ rs t e laws h reached left =
      let (ends, same) = run-Ends s₀ t (rw e laws) (rw e reached) in
      let (b, outcome) = run_at-returned t t.counter (rw e h) in
      let (reached', left') = Ends-step s₀ t (run t) n b ends outcome (rw e left) in
      runs-of n s₀ rs (run t).1 (same ∙ e) laws h (rw (← e) reached') (rw (← e) left')

  -- If all actions return and each rollback restores, repeated runs of a transaction that has
  -- performed the actions before its counter finish it, with all actions performed, at the latest
  -- after one run more than there are actions left.
  pub runs_finish :
      (n : ℕ) (s₀ : S) (t : Transaction S E)
      → All IsUndone t.routines
      → All ReturnsAlways t.routines
      → Reached s₀ t.counter t.routines t.state
      → runs_left t.counter (length t.routines) ≤ n
      → ((runs n t).counter ≡ finished) × ((runs n t).state ≡ performed t.routines s₀)
  runs_finish n s₀ t laws h reached left = runs-of n s₀ t.routines t refl laws h reached left

  roll-unwind :
      (rs : List (Routine S E)) (s : S) → All UndoReturns rs → roll rs s ≡ (rolled, unwind rs s)
  unfolding roll roll_turn unwind UndoReturns
  roll-unwind [] s h = refl
  roll-unwind (r ∷ rs) s (h, hs) = rw (h s) (roll-unwind rs (r.undo s).1 hs)

  roll_all-unwind :
      (rs : List (Routine S E)) (t : Transaction S E)
      → All UndoReturns rs
      → roll_all (some rs) t ≡ (rolled, record t { counter = at 0; state = unwind rs t.state })
  unfolding roll_all roll_end
  roll_all-unwind rs t h = ap (roll_end t) (roll-unwind rs t.state h)

  rolled_routines-append :
      (done rest : List (Routine S E)) (r : Routine S E)
      → rolled_routines (at (length done)) (done ++ (r ∷ rest)) ≡ some (r ∷ reverse done)
  unfolding rolled_routines from_counter
  rolled_routines-append done rest r =
      ap (from_counter (take (length done) (done ++ (r ∷ rest))))
        (drop_append_length done (r ∷ rest))
      ∙ ap (λ earlier. some (r ∷ reverse earlier)) (take_append_length done (r ∷ rest))

  -- rollback() of a transaction that has finished on `s₀`, with rollbacks that restore and do not
  -- throw, gives `s₀` back and sets the counter to the start.
  pub rollback-finished :
      (s₀ : S) (t : Transaction S E)
      → All IsUndone t.routines
      → All UndoReturns t.routines
      → t.counter ≡ finished
      → Reached s₀ finished t.routines t.state
      → rollback t ≡ (rolled, record t { counter = at 0; state = s₀ })
  unfolding rollback rolled_routines unwind
  rollback-finished s₀ t laws h c reached =
      ap (λ k. roll_all (rolled_routines k t.routines) t) c
      ∙ roll_all-unwind (reverse t.routines) t (All-reverse_aux UndoReturns t.routines [] h tt)
      ∙ ap (λ s. (rolled, record t { counter = at 0; state = s }))
          (ap (unwind (reverse t.routines)) reached
            ∙ unwind-performed t.routines [] s₀ s₀ laws refl)

  -- rollback() of a transaction that is paused before the action of `r`, after those of `done`,
  -- whose rollbacks do not throw, first runs the rollback of `r`, which has not run, and rolls `done`
  -- back from there.
  pub rollback-paused :
      (done rest : List (Routine S E)) (r : Routine S E) (t : Transaction S E)
      → t.routines ≡ done ++ (r ∷ rest)
      → t.counter ≡ at (length done)
      → All UndoReturns done
      → UndoReturns r
      → rollback t
        ≡ (rolled, record t { counter = at 0; state = unwind (reverse done) (r.undo t.state).1 })
  unfolding rollback unwind
  rollback-paused done rest r t e c h k =
      ap (λ x. roll_all x t)
        (ap (λ i. rolled_routines i t.routines) c
          ∙ ap (rolled_routines (at (length done))) e
          ∙ rolled_routines-append done rest r)
      ∙ roll_all-unwind (r ∷ reverse done) t (k, All-reverse_aux UndoReturns done [] h tt)
