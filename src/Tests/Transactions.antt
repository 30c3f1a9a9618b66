-- ===== src/Tests/Transactions.antt =====
-- The theorems on include/core/Transaction.h at transactions that push numbers on a list.
use supercell_common.Common.{
  ℕ, ◌≡◌, refl, Bool, true, false, none, List, [], ◌∷◌, drop, arith, reverse,
}
use supercell_common.Transaction.{
  returned, threw, Routine, finished, at, Transaction, run, next, unwind, rolled, rollback,
}
use supercell_common.Transaction.Atomic.{performed, IsUndone, Ends, run-Ends}
use supercell_common.Transaction.Completion.{
  ReturnsAlways, UndoReturns, runs, runs_finish, rollback-paused,
}
use supercell_common.Transaction.Next.{next-Ends}

abbrev pushing : Bool → ℕ → Routine (List ℕ) ℕ
pushing b x = record { action = λ s. (returned b, x ∷ s); undo = λ s. (none, drop 1 s) }

-- It throws after it has pushed.
abbrev breaking : Routine (List ℕ) ℕ
breaking = record { action = λ s. (threw 7, 9 ∷ s); undo = λ s. (none, drop 1 s) }

-- Paused before the routine that throws.
abbrev doomed : Transaction (List ℕ) ℕ
doomed = record {
  routines = pushing true 1 ∷ pushing false 2 ∷ breaking ∷ [];
  counter = at 2;
  state = 2 ∷ 1 ∷ [];
  result = none;
}

run-Ends_example : Ends [] doomed (run doomed) × ((run doomed).1.routines ≡ doomed.routines)
unfolding performed IsUndone
run-Ends_example =
    run-Ends [] doomed ((λ s. refl), ((λ s. refl), ((λ s. refl), tt))) (omega arith, refl)

next-Ends_example : Ends [] doomed (next true doomed)
unfolding performed IsUndone
next-Ends_example =
    next-Ends [] doomed ((λ s. refl), ((λ s. refl), ((λ s. refl), tt))) (omega arith, refl)

abbrev paused : Transaction (List ℕ) ℕ
paused = record {
  routines = pushing true 1 ∷ pushing false 2 ∷ pushing true 3 ∷ [];
  counter = at 0;
  state = 5 ∷ [];
  result = none;
}

runs_finish_example :
    ((runs 4 paused).counter ≡ finished)
    × ((runs 4 paused).state ≡ performed paused.routines (5 ∷ []))
unfolding performed IsUndone ReturnsAlways
runs_finish_example =
    runs_finish 4 (5 ∷ []) paused ((λ s. refl), ((λ s. refl), ((λ s. refl), tt)))
      ((λ s. (true, refl)), ((λ s. (false, refl)), ((λ s. (true, refl)), tt))) (omega arith, refl)
      (omega arith)

abbrev all_done : Transaction (List ℕ) ℕ
all_done = record {
  routines = pushing true 1 ∷ pushing false 2 ∷ [];
  counter = finished;
  state = 2 ∷ 1 ∷ [];
  result = none;
}

-- The rollback of the third routine, which has not run, takes away the second one's number.
rollback-paused_example : rollback doomed ≡ (
  rolled,
  record doomed {
    counter = at 0;
    state = unwind (reverse (pushing true 1 ∷ pushing false 2 ∷ [])) (1 ∷ []);
  },
)
unfolding UndoReturns
rollback-paused_example =
    rollback-paused (pushing true 1 ∷ pushing false 2 ∷ []) [] breaking doomed refl refl
      ((λ s. refl), ((λ s. refl), tt)) (λ s. refl)
