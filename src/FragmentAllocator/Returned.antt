-- ===== src/FragmentAllocator/Returned.antt =====
-- The allocator of include/core/FragmentFreeAllocator.h when all that it gave has been given back.
use supercell_common.Common.{
  ℕ, suc, ◌≤◌, ◌^◌, ◌≡◌, sym, ap, ◌∙◌, true, false, some, List, [], inl, inr, arith, length, ok,
  err, load, ltb, Bool-cases,
}
use supercell_common.AtomicQueue.{has}
use supercell_common.FragmentAllocator.{FragmentAllocator, new_allocator}
use supercell_common.FragmentAllocator.Lists.{Block}
use supercell_common.FragmentAllocator.Segments.{Segment}
use supercell_common.FragmentAllocator.Taking.{is_new, all_vacant}
use supercell_common.FragmentAllocator.Owners.{unheld-all_vacant, all_vacant-used_bytes}
use supercell_common.FragmentAllocator.RoundTrip.{all_vacant-Serves}
use supercell_common.FragmentAllocator.Sequences.{Call, calls, Holds, calls-Holds}

ok-eq : {A : Type 0} (a b : A) → ok a ≡ ok b → a ≡ b
ok-eq a b e = ap (λ r. elim r [ ok x ↦ x | err f ↦ a ]) e

-- Where no pointer is held all segments are vacant.
Holds-all_vacant :
    (s : FragmentAllocator) (y : ℕ) (ss : List Segment) → Holds [] s y ss → all_vacant ss ≡ true
Holds-all_vacant s y ss H = unheld-all_vacant ss λ a. elim (Bool-cases (is_new a ss)) [
  | inl e ↦ e
  | inr e ↦ let (x, h, P) = H.owned a e in absurd (ground (arith, h))
]

-- After any sequence of at most n - 1 calls of allocate() and deallocate() on a new allocator of `y`
-- bytes, 0 < y < 2^64, at whose end every pointer that was handed out has been given back, no bytes
-- are counted as in use, and the whole pool is one free block again, which is the first of both lists.
pub all_given_back :
    (malloc : List ℕ → ℕ)
    → ((xs : List ℕ) → has xs (malloc xs) ≡ false)
    → (n y : ℕ) → suc y ≤ 2 ^ 64
    → (pool : ℕ) (cs : List Call) (s s' : FragmentAllocator) → ltb 0 y ≡ true
    → suc (length cs) ≤ n
    → new_allocator malloc pool y ≡ ok s
    → calls malloc n cs ([], s) ≡ ok ([], s')
    → (s'.allocated_size ≡ 0)
      × (a : ℕ) × (b : Block) × (s'.blocks.head ≡ some a)
      × (s'.blocks.head_free ≡ some a)
      × (load s'.blocks.store (some a) ≡ ok b)
      × (b.offset ≡ 0)
      × (b.size ≡ y)
all_given_back malloc fresh n y small pool cs s s' p le new runs =
    let (t, held, t', ss, new', runs', H) = calls-Holds malloc fresh n y small pool cs p le in
    let same : t ≡ s = ok-eq t s (sym new' ∙ new) in
    let end : (held, t') ≡ ([], s') =
      ok-eq (held, t') ([], s') (sym runs' ∙ ap (λ x. calls malloc n cs ([], x)) same ∙ runs) in
    let H' : Holds [] s' y ss = rw (ap (λ q. q.0) end, ap (λ q. q.1) end) at H in
    let v = Holds-all_vacant s' y ss H' in
    let (a, b, h, f, l, o, z) = all_vacant-Serves s' y ss p H'.serves v in
    (H'.serves.counted ∙ all_vacant-used_bytes ss v, a, b, h, f, l, o, z)
