-- ===== src/FragmentAllocator/RoundTrip.antt =====
-- A new FragmentAllocator of include/core/FragmentFreeAllocator.h, and allocate() undone by
-- deallocate().
use supercell_common.Common.{
  ℕ, suc, ◌≤◌, ◌^◌, ◌/◌, ◌≡◌, refl, sym, ap, ◌∙◌, true, false, none, some, List, [], inl, inr, ◌∷◌,
  arith, length, eq→==, ok, find, put, load, load-some, addresses, ltb, eq_or_ne, ne→ne, ◌==◌,
}
use supercell_common.AtomicQueue.{has}
use supercell_common.FragmentAllocator.{
  chunk_size, FragmentAllocator, new_allocator, round_size, allocate, deallocate,
}
use supercell_common.FragmentAllocator.Lists.{Block, Blocks}
use supercell_common.FragmentAllocator.Chain.{block_of, Entry}
use supercell_common.FragmentAllocator.Giving.{segment, segments, vacant-segment}
use supercell_common.FragmentAllocator.Segments.{Segment, take_first, give_back, is_tidy, is_vacant}
use supercell_common.FragmentAllocator.Taking.{
  is_new, take_first-length, give_back-take_first, all_vacant, all_vacant-one,
}
use supercell_common.FragmentAllocator.Take.{free_entry, Represents}
use supercell_common.FragmentAllocator.Serving.{Serves, not-in-use, new-is_new}
use supercell_common.FragmentAllocator.Calls.{allocate-Serves, deallocate-Serves}

-- The constructor makes one vacant segment of the whole pool.
pub new_allocator-Serves :
    (malloc : List ℕ → ℕ) (pool size : ℕ)
    → ltb 0 size ≡ true
    → (s : FragmentAllocator) × (new_allocator malloc pool size ≡ ok s)
      × Serves s size (record { holder = none; offset = 0; size = size } ∷ [])
unfolding new_allocator put find
new_allocator-Serves malloc pool size p =
    let z : (size == 0) ≡ false = ground (arith, p) in
    let x = malloc [] in
    let s : FragmentAllocator = record {
      num_chunks = size / chunk_size;
      allocated_size = 0;
      base = pool;
      blocks = record {
        store = (x, block_of (free_entry x 0 size none) none none none none) ∷ [];
        head_free = some x;
        head = some x;
      };
      map = [];
      references = [];
      pointers = [];
    } in
    (
      s,
      rw z refl,
      record {
        refines = record {
          entries = free_entry x 0 size none ∷ [];
          is_pool = record {
            represents = record {
              list = record {
                chain = (rw (eq→== x x refl) refl, tt);
                apart = (refl, tt);
                nothing_else = λ a o. elim (eq_or_ne a x) [
                  | inl e ↦ absurd (ground (arith, o, e))
                  | inr ne ↦ rw (ne→ne a x ne) refl
                ];
              };
              first = refl;
              first_free = refl;
            };
            filled = (refl, omega arith);
            tidy = ground arith;
          };
          seen = refl;
        };
        counted = refl;
      },
    )

-- What allocate() has handed out, deallocate() takes back: the segments are the same as before.
pub deallocate-allocate :
    (malloc : List ℕ → ℕ)
    → ((xs : List ℕ) → has xs (malloc xs) ≡ false)
    → (n size : ℕ) (s : FragmentAllocator) (y : ℕ) (ss ts : List Segment) → suc y ≤ 2 ^ 64
    → suc (length ss) ≤ n
    → Serves s y ss
    → take_first (malloc (addresses s.blocks.store)) (round_size size) ss ≡ some ts
    → (a : ℕ) × (s' : FragmentAllocator) × (s″ : FragmentAllocator) × (allocate malloc n size s
        ≡ ok (some a, s'))
      × (deallocate n (some a) s' ≡ ok (true, s″))
      × Serves s″ y ss
deallocate-allocate malloc fresh n size s y ss ts small rounds S e =
    let new = malloc (addresses s.blocks.store) in
    let z = round_size size in
    let a = malloc (addresses s.pointers) in
    let (s', runs, S', P, keep) =
      allocate-Serves malloc fresh n size s y ss small (omega (arith, rounds)) S ts e in
    let (s″, runs', S″, gone, keep') =
      deallocate-Serves n a new s' y ts small
        (omega (arith, rounds, take_first-length new z ss ts e)) S' P in
    let new? : is_new new ss ≡ true =
      new-is_new s.blocks y ss new S.refines
        (not-in-use s.blocks.store new (fresh (addresses s.blocks.store))) in
    let back : give_back new ts ≡ ss =
      give_back-take_first new z ss ts e new?
        (ap is_tidy (sym S.refines.seen) ∙ S.refines.is_pool.tidy) in
    (a, s', s″, runs, runs', (rw back at S″))

one-free :
    (bs : Blocks) (y : ℕ) (es : List Entry)
    → Represents bs es
    → segments es ≡ record { holder = none; offset = 0; size = y } ∷ []
    → (a : ℕ) × (b : Block) × (bs.head ≡ some a)
      × (bs.head_free ≡ some a)
      × (load bs.store (some a) ≡ ok b)
      × (b.offset ≡ 0)
      × (b.size ≡ y)
one-free bs y [] R e = absurd (ground (arith, ap length e))
one-free bs y (l ∷ k ∷ es) R e = absurd (omega (arith, ap length e))
one-free bs y (l ∷ []) R e =
    let s₀ : Segment = segment l in
    let only = ap (λ ss. elim ss [ [] ↦ s₀ | s ∷ ts ↦ s ]) e in
    let free : l.free ≡ true = sym (vacant-segment l) ∙ ap (λ s. is_vacant s.holder) only in
    (
      l.addr,
      block_of l none none none none,
      R.first,
      R.first_free ∙ rw free refl,
      load-some bs.store l.addr (block_of l none none none none) R.list.chain.0,
      ap (λ s. s.offset) only,
      ap (λ s. s.size) only,
    )

-- Where no block is in use, the whole pool is one free block again, which is the first of both lists.
pub all_vacant-Serves :
    (s : FragmentAllocator) (y : ℕ) (ss : List Segment)
    → ltb 0 y ≡ true
    → Serves s y ss
    → all_vacant ss ≡ true
    → (a : ℕ) × (b : Block) × (s.blocks.head ≡ some a)
      × (s.blocks.head_free ≡ some a)
      × (load s.blocks.store (some a) ≡ ok b)
      × (b.offset ≡ 0)
      × (b.size ≡ y)
all_vacant-Serves s y ss p S v =
    let R = S.refines in
    let P = rw R.seen at R.is_pool.filled in
    one-free s.blocks y R.entries R.is_pool.represents
      (R.seen ∙ all_vacant-one ss y P (ap is_tidy (sym R.seen) ∙ R.is_pool.tidy) v p)
