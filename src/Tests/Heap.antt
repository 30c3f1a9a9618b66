-- ===== src/Tests/Heap.antt =====
-- An allocator that gives blocks of zeros, for the tests of include/core/Buffer.h.
use supercell_common.Common.{
  ℕ, ◌<◌, ◌≡◌, ◌∙◌, List, ◌++◌, length, nth, take, replicate, length-append, length-take,
  length-replicate, nth-take, nth-append-left, arith,
}
use supercell_common.Buffer.State.{Allocator, IsAllocator}

abbrev pub zeros : Allocator
zeros = record { malloc = λ n. replicate n 0; realloc = λ xs n. take n (xs ++ replicate n 0) }

length-realloc : (xs : List ℕ) (n : ℕ) → length (take n (xs ++ replicate n 0)) ≡ n
length-realloc xs n = omega (
  arith,
  length-take n (xs ++ replicate n 0),
  length-append xs (replicate n 0),
  length-replicate {A = ℕ} n 0,
)

nth-realloc :
    (xs : List ℕ) (n i : ℕ)
    → i < length xs
    → i < n
    → nth (take n (xs ++ replicate n 0)) i ≡ nth xs i
nth-realloc xs n i h k =
    nth-take n (xs ++ replicate n 0) i k ∙ nth-append-left xs (replicate n 0) i h

pub zeros-IsAllocator : IsAllocator zeros
zeros-IsAllocator = record {
  malloc_size = λ n. length-replicate {A = ℕ} n 0;
  realloc_size = length-realloc;
  realloc_keeps = nth-realloc;
}
