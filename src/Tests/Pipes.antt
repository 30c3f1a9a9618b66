-- ===== src/Tests/Pipes.antt =====
-- The theorems on include/core/AtomicQueue.h at a pipe with chunks of two slots.
use supercell_common.Common.{
  ℕ, ◌+◌, ◌≤◌, ◌≡◌, refl, true, false, none, some, arith, List, [], ◌∷◌, ok, ◌>>=◌,
}
use supercell_common.AtomicQueue.{Heap, has}
use supercell_common.AtomicPipe.{new_pipe}
use supercell_common.AtomicPipe.Spec.{empty, written, unwritten, flushed_out, taken, tail}
use supercell_common.AtomicPipe.Refine.{
  Call, put, take_back, let_go, get, quiet, gave, told, call_spec, calls_spec, calls_pipe,
  calls_refine,
}

-- An address above all those in use.
unfoldable pub above : List ℕ → ℕ
above [] = 0
above (x ∷ xs) = x + 1 + above xs

below-above : (l : List ℕ) (x : ℕ) → above l ≤ x → has l x ≡ false
unfolding above
below-above [] x h = refl
below-above (y ∷ l) x h = ground (arith, below-above l x)

pub above-free : (l : List ℕ) → has l (above l) ≡ false
above-free l = below-above l (above l) (omega arith)

abbrev pub no_chunks : Heap ℕ
no_chunks = record { live = []; values = λ c p. 0; prev = λ c. none; next = λ c. none }

-- The reader looks before and after a flush, the writer takes a value back.
abbrev calls : List (Call ℕ)
calls =
    put 7 false
    ∷ get
    ∷ let_go
    ∷ get
    ∷ put 8 false
    ∷ put 9 true
    ∷ take_back
    ∷ let_go
    ∷ get
    ∷ get
    ∷ let_go
    ∷ []

calls_refine_example :
    (new_pipe above 2 no_chunks >>= calls_pipe above 2 calls) ≡ ok (calls_spec calls empty)
calls_refine_example = calls_refine above 2 above-free no_chunks calls (omega arith)

calls_spec_test :
    calls_spec calls empty
    ≡ quiet
      ∷ gave none
      ∷ told false
      ∷ gave (some 7)
      ∷ quiet
      ∷ quiet
      ∷ gave (some 9)
      ∷ told true
      ∷ gave (some 8)
      ∷ gave none
      ∷ told true
      ∷ []
unfolding calls_spec call_spec written unwritten flushed_out taken tail
calls_spec_test = refl
