-- ===== src/Tests/BoundedQueues.antt =====
-- The theorems on include/core/AtomicBoundedQueue.h at a queue of two cells.
use supercell_common.Common.{
  put_at, ℕ, ◌≡◌, refl, none, some, arith, List, [], ◌∷◌, ◌++◌, get_elem?,
}
use supercell_common.AtomicBoundedQueue.{
  System, Move, pushes, pops, goes, fails, move, moves, go, fail, call_push, call_pop, turn,
  new_system, pop_claimed, idle,
}
use supercell_common.AtomicBoundedQueue.Safe.{Apart}
use supercell_common.AtomicBoundedQueue.Delivery.{pops_what_was_pushed, claims_once}

-- Two threads push at once, of which the second is first to claim a position, and a third pops.
abbrev steps : List (Move ℕ)
steps =
    pushes 0 7
    ∷ pushes 1 8
    ∷ goes 0
    ∷ goes 1
    ∷ goes 1
    ∷ goes 0
    ∷ goes 1
    ∷ goes 1
    ∷ pops 2
    ∷ goes 2
    ∷ goes 0
    ∷ fails 2
    ∷ goes 2
    ∷ goes 2
    ∷ []

abbrev after : System ℕ
after = moves steps (new_system 2 (λ c. 0))

abbrev after_read : System ℕ
after_read = moves (steps ++ (goes 2 ∷ [])) (new_system 2 (λ c. 0))

given_test : after_read.given 0 ≡ some 8
unfolding moves move go fail call_push call_pop turn put_at
given_test = refl

pops_what_was_pushed_example : get_elem? after_read.entered 0 ≡ some 8
pops_what_was_pushed_example =
    pops_what_was_pushed 1 (λ c. 0) (steps ++ (goes 2 ∷ [])) 0 8 (omega arith) (omega arith)
      given_test

claimed_test : after.threads 2 ≡ pop_claimed 0
unfolding moves move go fail call_push call_pop turn put_at
claimed_test = refl

claims_once_example : (after.given 0 ≡ none) × Apart (pop_claimed 0) (after.threads 0)
claims_once_example =
    claims_once 1 (λ c. 0) steps 2 0 0 (omega arith) (omega arith) (omega arith) claimed_test

abbrev new : System ℕ
new = new_system 2 (λ c. 0)

abbrev push_alone : ℕ → List (Move ℕ)
push_alone v = pushes 0 v ∷ goes 0 ∷ goes 0 ∷ goes 0 ∷ goes 0 ∷ []

-- A push that finds no free cell and a pop that finds no value end at once.
full_test :
    (moves (push_alone 1 ++ push_alone 2 ++ (pushes 0 3 ∷ goes 0 ∷ [])) new).threads 0 ≡ idle
unfolding moves move go fail call_push call_pop turn put_at
full_test = refl

empty_test : (moves (pops 0 ∷ goes 0 ∷ []) new).threads 0 ≡ idle
unfolding moves move go fail call_push call_pop turn put_at
empty_test = refl
