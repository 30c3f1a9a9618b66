-- ===== src/Transaction.antt =====
-- Transaction of include/core/Transaction.h: actions that are run in order, may pause or throw, and
-- are rolled back. Each task that next() starts has ended before the next call.
pub mod Atomic
pub mod Completion
pub mod Next
use supercell_common.Common.{
  ℕ, ◌+◌, Bool, true, false, Option, none, some, List, [], ◌∷◌, ◌++◌, ltb, ◌==◌, length, take, drop,
  reverse, if◌then◌else◌,
}

-- How a call ends: it returns whether to go on, or throws an exception.
pub data Outcome {κ} (E : Type κ) : Type κ where
  returned : Bool → Outcome E
  threw : E → Outcome E

-- An action and its rollback, with the transaction's state passed through. What they have changed
-- before they throw stays changed.
pub record Routine {ℓ κ} (S : Type ℓ) (E : Type κ) : Type (ℓ ⊔ κ) where
  pub action : S → Outcome E × S
  pub undo : S → Option E × S

-- mProgramCounter: `finished` is -1.
pub data Counter : Type 0 where
  finished : Counter
  at : ℕ → Counter

-- `result` is the future that next() leaves in mResult, until its value is taken.
pub record Transaction {ℓ κ} (S : Type ℓ) (E : Type κ) : Type (ℓ ⊔ κ) where
  pub routines : List (Routine S E)
  pub counter : Counter
  pub state : S
  pub result : Option (Outcome E)

-- Where the loop of run() stops.
pub data Stop {κ} (E : Type κ) : Type κ where
  stopped : ℕ → Stop E
  failed : E → Stop E

-- How rollback() ends. `no_routine` is an index outside mTransactions.
pub data Rolled {κ} (E : Type κ) : Type κ where
  rolled no_routine : Rolled E
  raised : E → Rolled E

module _ {ℓ κ} {S : Type ℓ} {E : Type κ} where
  unfoldable pub begin : S → Transaction S E
  begin s = record { routines = []; counter = at 0; state = s; result = none }

  unfoldable pub add : Routine S E → Transaction S E → Transaction S E
  add r t = record t { routines = t.routines ++ (r ∷ []) }

  -- The rollbacks of a failed run: what they throw is caught.
  unfoldable pub unwind : List (Routine S E) → S → S
  unwind [] s = s
  unwind (r ∷ rs) s = unwind rs (r.undo s).1

  -- One turn of the loop: how an action has ended, and what the later turns would give.
  unfoldable pub turn : List (Routine S E) → ℕ → Outcome E → S → Stop E × S → Stop E × S
  turn passed pc (returned true) s later = later
  turn passed pc (returned false) s later = (stopped pc, s)
  turn passed pc (threw e) s later = (failed e, unwind passed s)

  -- The loop of run() over the routines from the counter on. Those before them are kept in reverse,
  -- as the rollbacks of a failure go through them.
  unfoldable pub run_loop : List (Routine S E) → ℕ → List (Routine S E) → S → Stop E × S
  unfolding turn
  run_loop passed pc [] s = (stopped pc, s)
  run_loop passed pc (r ∷ rs) s =
      let (outcome, s') = r.action s in
      let later = run_loop (r ∷ passed) (pc + 1) rs s' in
      turn (r ∷ passed) (pc + 1) outcome s' later

  -- What run() makes of the end of the loop.
  unfoldable pub settle : Transaction S E → Stop E × S → Outcome E × Transaction S E
  settle t (stopped pc, s) =
      if pc == length t.routines
      then (returned true, record t { counter = finished; state = s })
      else (returned false, record t { counter = at pc; state = s })
  settle t (failed e, s) = (threw e, record t { counter = at 0; state = s })

  unfoldable pub run_at : Counter → Transaction S E → Outcome E × Transaction S E
  unfolding settle
  run_at finished t = (returned true, t)
  run_at (at pc) t =
      settle t (run_loop (reverse (take pc t.routines)) pc (drop pc t.routines) t.state)

  unfoldable pub run : Transaction S E → Outcome E × Transaction S E
  run t = run_at t.counter t

  unfoldable pub next_at : Bool → Counter → Transaction S E → Outcome E × Transaction S E
  unfolding run_at
  next_at blocking finished t = (returned true, t)
  next_at blocking (at pc) t =
      let ran = run_at (at pc) t in
      if ltb pc (length t.routines)
      then (if blocking
          then (ran.0, record (ran.1) { result = none })
          else (returned false, record (ran.1) { result = some ran.0 }))
      else (returned true, record t { counter = finished })

  unfoldable pub next : Bool → Transaction S E → Outcome E × Transaction S E
  next blocking t = next_at blocking t.counter t

  -- waitForCompletion(): there is no outcome to wait for if none was left.
  unfoldable pub wait_for_completion : Transaction S E → Option (Outcome E) × Transaction S E
  wait_for_completion t = (t.result, record t { result = none })

  unfoldable pub restart : Transaction S E → Transaction S E
  restart t = record t { counter = at 0 }

  -- The loop of rollback(): what a rollback throws ends it.
  unfoldable pub roll_turn : Option E → S → Rolled E × S → Rolled E × S
  roll_turn none s later = later
  roll_turn (some e) s later = (raised e, s)

  unfoldable pub roll : List (Routine S E) → S → Rolled E × S
  unfolding roll_turn
  roll [] s = (rolled, s)
  roll (r ∷ rs) s =
      let (thrown, s') = r.undo s in let later = roll rs s' in roll_turn thrown s' later

  -- The routines that rollback() goes through: also the one at the counter, the first of `later`.
  unfoldable pub from_counter :
      List (Routine S E) → List (Routine S E) → Option (List (Routine S E))
  from_counter earlier [] = none
  from_counter earlier (r ∷ later) = some (r ∷ reverse earlier)

  unfoldable pub rolled_routines : Counter → List (Routine S E) → Option (List (Routine S E))
  unfolding from_counter
  rolled_routines finished rs = some (reverse rs)
  rolled_routines (at pc) rs = from_counter (take pc rs) (drop pc rs)

  -- The counter is set only if the loop ends.
  unfoldable pub roll_end : Transaction S E → Rolled E × S → Rolled E × Transaction S E
  roll_end t (rolled, s) = (rolled, record t { counter = at 0; state = s })
  roll_end t (raised e, s) = (raised e, record t { state = s })
  roll_end t (no_routine, s) = (no_routine, record t { state = s })

  unfoldable pub roll_all :
      Option (List (Routine S E)) → Transaction S E → Rolled E × Transaction S E
  unfolding roll_end
  roll_all none t = (no_routine, t)
  roll_all (some rs) t = roll_end t (roll rs t.state)

  unfoldable pub rollback : Transaction S E → Rolled E × Transaction S E
  rollback t = roll_all (rolled_routines t.counter t.routines) t
