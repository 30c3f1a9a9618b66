-- ===== src/Tests/Fragments.antt =====
-- The theorems on include/core/FragmentFreeAllocator.h at a pool of four chunks.
use supercell_common.Common.{
  ℕ, ◌+◌, ◌-◌, ◌≤◌, ◌<◌, ◌^◌, ◌>>=◌, ◌≡◌, ◌≢◌, refl, sym, ap, ◌∙◌, true, false, none, some, Option,
  List, [], ◌∷◌, Result, ok, err, find, load, Store, assertion, addresses, arith,
}
use supercell_common.FragmentAllocator.{
  FragmentAllocator, new_allocator, allocate, deallocate, destroy, free_fragments, data_of,
  round_size,
}
use supercell_common.FragmentAllocator.Lists.{Block}
use supercell_common.FragmentAllocator.Segments.{Segment, give_back, held_bytes}
use supercell_common.FragmentAllocator.Serving.{Serves, Points}
use supercell_common.FragmentAllocator.Calls.{allocate-Serves, allocate-refused, deallocate-Serves}
use supercell_common.FragmentAllocator.RoundTrip.{new_allocator-Serves, deallocate-allocate}
use supercell_common.FragmentAllocator.Requests.{allocate_lem}
use supercell_common.FragmentAllocator.Destroy.{destroy_lem}
use supercell_common.FragmentAllocator.Returned.{all_given_back}
use supercell_common.FragmentAllocator.Sequences.{Call, take, give, calls, Holds, calls-Holds}
use supercell_common.Tests.Pipes.{above, above-free}

abbrev empty_pool : FragmentAllocator
empty_pool = record {
  num_chunks = 4;
  allocated_size = 0;
  base = 65536;
  blocks = record {
    store =
        (
          0,
          record {
            free = true;
            offset = 0;
            size = 4096;
            next_free = none;
            prev_free = none;
            next_block = none;
            prev_block = none;
            reference = none;
          },
        )
        ∷ [];
    head_free = some 0;
    head = some 0;
  };
  map = [];
  references = [];
  pointers = [];
}

abbrev whole : List Segment
whole = record { holder = none; offset = 0; size = 4096 } ∷ []

ok-eq : {A : Type 0} (a b : A) → ok a ≡ ok b → a ≡ b
ok-eq a b e = ap (λ r. elim r [ ok x ↦ x | err f ↦ a ]) e

made : new_allocator above 65536 4096 ≡ ok empty_pool
unfolding new_allocator above
made = refl

empty_pool-Serves : Serves empty_pool 4096 whole
empty_pool-Serves =
    let (s, e, S) = new_allocator-Serves above 65536 4096 refl in
    rw (ok-eq s empty_pool (sym e ∙ made)) at S

abbrev cut_pool : List Segment
cut_pool =
    record { holder = some 1; offset = 0; size = 1024 }
    ∷ record { holder = none; offset = 1024; size = 3072 }
    ∷ []

abbrev used_block : Option ℕ → Option ℕ → Block
used_block n r = record {
  free = false;
  offset = 0;
  size = 1024;
  next_free = none;
  prev_free = none;
  next_block = n;
  prev_block = none;
  reference = r;
}

abbrev free_block : ℕ → ℕ → Option ℕ → Block
free_block off size p = record {
  free = true;
  offset = off;
  size = size;
  next_free = none;
  prev_free = none;
  next_block = none;
  prev_block = p;
  reference = none;
}

-- The pool after a call allocate(&pointer, 1000).
abbrev used_pool : FragmentAllocator
used_pool = record {
  num_chunks = 4;
  allocated_size = 1024;
  base = 65536;
  blocks = record {
    store =
        (1, used_block (some 0) (some 0))
        ∷ (0, free_block 1024 3072 (some 1))
        ∷ (1, used_block (some 0) none)
        ∷ (0, free_block 0 4096 (some 1))
        ∷ (1, used_block none none)
        ∷ (0, free_block 0 4096 none)
        ∷ [];
    head_free = some 0;
    head = some 1;
  };
  map = (0, 1) ∷ [];
  references = (0, 65536) ∷ [];
  pointers = (0, record { target = some 0; shift = 0; owner = true }) ∷ [];
}

used : allocate above 1 1000 empty_pool ≡ ok (some 0, used_pool)
unfolding allocate above
used = refl

used_pool-Serves : Serves used_pool 4096 cut_pool × Points used_pool cut_pool 0 1
unfolding above round_size addresses
used_pool-Serves =
    let (s, e, S, P, keep) =
      allocate-Serves above above-free 1 1000 empty_pool 4096 whole (omega arith) (omega arith)
        empty_pool-Serves cut_pool refl in
    let same : s ≡ used_pool =
      ap (λ x. x.1) (ok-eq (some 0, s) (some 0, used_pool) (sym e ∙ used)) in
    (rw same at S, rw same at P)

allocate_lem_example :
    (s' : FragmentAllocator) × (allocate above 1 1000 empty_pool ≡ ok (some (above []), s'))
    × (1000 ≤ held_bytes (above (0 ∷ [])) cut_pool)
    × (held_bytes (above (0 ∷ [])) cut_pool < 1000 + 1024)
    × Serves s' 4096 cut_pool
    × Points s' cut_pool (above []) (above (0 ∷ []))
    × ((a cur : ℕ) → Points empty_pool whole a cur → Points s' cut_pool a cur)
unfolding above addresses
allocate_lem_example =
    allocate_lem above above-free 1 1000 1 empty_pool 4096 whole cut_pool (omega arith)
      (omega arith) empty_pool-Serves (omega arith) (omega arith) (omega arith) refl

allocate-refused_example : allocate above 1 5000 empty_pool ≡ ok (none, empty_pool)
unfolding above round_size
allocate-refused_example =
    allocate-refused above above-free 1 5000 empty_pool 4096 whole (omega arith) (omega arith)
      empty_pool-Serves refl

deallocate-Serves_example :
    (s' : FragmentAllocator) × (deallocate 2 (some 0) used_pool ≡ ok (true, s'))
    × Serves s' 4096 (give_back 1 cut_pool)
    × (find s'.pointers 0 ≡ none)
    × ((x c : ℕ) → c ≢ 1 → Points used_pool cut_pool x c → Points s' (give_back 1 cut_pool) x c)
deallocate-Serves_example =
    deallocate-Serves 2 0 1 used_pool 4096 cut_pool (omega arith) (omega arith) used_pool-Serves.0
      used_pool-Serves.1

deallocate-allocate_example :
    (a : ℕ) × (s' : FragmentAllocator) × (s″ : FragmentAllocator) × (allocate above 2 1000
        empty_pool
      ≡ ok (some a, s'))
    × (deallocate 2 (some a) s' ≡ ok (true, s″))
    × Serves s″ 4096 whole
unfolding above round_size addresses
deallocate-allocate_example =
    deallocate-allocate above above-free 2 1000 empty_pool 4096 whole cut_pool (omega arith)
      (omega arith) empty_pool-Serves refl

used_pool-destroyed : destroy 1 used_pool ≡ err assertion
unfolding destroy
used_pool-destroyed = refl

destroy_lem_example :
    (h : Store Block) × (destroy 1 empty_pool ≡ ok h) × ((a : ℕ) → find h a ≡ none)
destroy_lem_example = destroy_lem 1 empty_pool 4096 whole (omega arith) empty_pool-Serves refl refl

-- Of two blocks the first is released and the other is moved to the front. The offset of the block
-- is then 0, while data() of its pointer is still one chunk behind the start of the pool.
abbrev moved_block : Result (ℕ × ℕ)
moved_block = do
  r ← allocate above 2 1000 empty_pool
  t ← allocate above 2 1000 r.1
  u ← deallocate 3 r.0 t.1
  v ← free_fragments above 3 u.1
  a ← load v.1.map (some 1)
  b ← load v.1.blocks.store (some a)
  d ← data_of 1 v.1
  ok (b.offset, d)

moved : moved_block ≡ ok (0, 65536 + 1024)
unfolding allocate deallocate free_fragments data_of load above
moved = refl

-- A request within a chunk of 2 ^ 64 is rounded to no bytes.
wrapped : round_size (2 ^ 64 - 1) ≡ 0
unfolding round_size
wrapped = refl

abbrev four_calls : List Call
four_calls = take 1000 ∷ take 2000 ∷ give 0 ∷ take 500 ∷ []

calls-Holds_example :
    (s : FragmentAllocator) × (held : List ℕ) × (s' : FragmentAllocator) × (ss : List Segment)
    × (new_allocator above 65536 4096 ≡ ok s)
    × (calls above 5 four_calls ([], s) ≡ ok (held, s'))
    × Holds held s' 4096 ss
calls-Holds_example =
    calls-Holds above above-free 5 4096 (omega arith) 65536 four_calls refl (omega arith)

-- The bytes in use after the four calls.
four_calls-used :
    (calls above 5 four_calls ([], empty_pool) >>= λ r. ok (r.1.allocated_size)) ≡ ok (2048 + 1024)
unfolding calls above allocate deallocate
four_calls-used = refl

-- Two pointers are handed out and given back, the first of them first.
abbrev paired_calls : List Call
paired_calls = take 1000 ∷ take 2000 ∷ give 0 ∷ give 1 ∷ []

abbrev returned_pool : FragmentAllocator
returned_pool = elim (calls above 5 paired_calls ([], empty_pool)) [
  | ok r ↦ r.1
  | err f ↦ used_pool
]

returned : calls above 5 paired_calls ([], empty_pool) ≡ ok ([], returned_pool)
unfolding calls above allocate deallocate
returned = refl

all_given_back_example :
    (returned_pool.allocated_size ≡ 0)
    × (a : ℕ) × (b : Block) × (returned_pool.blocks.head ≡ some a)
    × (returned_pool.blocks.head_free ≡ some a)
    × (load returned_pool.blocks.store (some a) ≡ ok b)
    × (b.offset ≡ 0)
    × (b.size ≡ 4096)
all_given_back_example =
    all_given_back above above-free 5 4096 (omega arith) 65536 paired_calls empty_pool returned_pool
      refl (omega arith) made returned
