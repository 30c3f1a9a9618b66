-- ===== src/FragmentAllocator/Serving.antt =====
-- allocate() and deallocate() of src/libzillians-common-core/core/FragmentFreeAllocator.cpp, with the
-- pointers that they hand out and take back.
use supercell_common.Common.{
  ℕ, ◌+◌, ◌≤◌, ◌≡◌, refl, sym, ap, ◌∙◌, true, false, Option, none, some, List, [], inl, inr, ◌∷◌,
  ◌++◌, arith, Bool-cases, eq→==, ok, Store, find, load, adjust, addresses, ◌==◌,
}
use supercell_common.AtomicQueue.{has}
use supercell_common.FragmentAllocator.{FragmentAllocator}
use supercell_common.FragmentAllocator.Lists.{Block, Blocks}
use supercell_common.FragmentAllocator.Chain.{
  Entry, addrs, first_or, last_or, first_or-append, first_free_or-append, block_of,
}
use supercell_common.FragmentAllocator.Parts.{IsList-Pieces, Pieces-IsList}
use supercell_common.FragmentAllocator.Steps.{adjust-middle, load-middle}
use supercell_common.FragmentAllocator.Merge.{used_entry}
use supercell_common.FragmentAllocator.Segments.{Segment, Fills, used_bytes, held_bytes}
use supercell_common.FragmentAllocator.Taking.{is_new}
use supercell_common.FragmentAllocator.Others.{held_start}
use supercell_common.FragmentAllocator.Giving.{segments, segments-append, other-holder}
use supercell_common.FragmentAllocator.Released.{apart-left}
use supercell_common.FragmentAllocator.FirstFit.{Held-in}
use supercell_common.FragmentAllocator.Refinement.{Refines}

-- The allocator has the segments `ss` of a pool of `y` bytes, and counts the bytes in use.
pub record Serves (s : FragmentAllocator) (y : ℕ) (ss : List Segment) : Type 0 where
  pub refines : Refines s.blocks y ss
  pub counted : s.allocated_size ≡ used_bytes ss

-- The pointer at `a` is to the start of the segment that `cur` holds.
pub record Points (s : FragmentAllocator) (ss : List Segment) (a cur : ℕ) : Type 0 where
  pub at_reference : ℕ
  pub pointer :
      find s.pointers a ≡ some (record { target = some at_reference; shift = 0; owner = true })
  pub mapped : find s.map at_reference ≡ some cur
  pub start : find s.references at_reference ≡ some (s.base + held_start cur ss)
  pub held : is_new cur ss ≡ false

pub not-in-use :
    {A : Type 0} (st : Store A) (a : ℕ) → has (addresses st) a ≡ false → find st a ≡ none
unfolding find addresses
not-in-use [] a h = refl
not-in-use ((x, o) ∷ st) a h = elim (Bool-cases (a == x)) [
  | inl e ↦ absurd (ground (arith, e, h))
  | inr e ↦ rw e (not-in-use st a (rw e at h))
]

pub used-le : (ss : List Segment) (x y : ℕ) → Fills x ss y → x + used_bytes ss ≤ y
used-le [] x y f = omega (arith, f)
used-le (s ∷ ss) x y (o, f) = ground (arith, used-le ss (x + s.size) y f)

held-split :
    (ls rs : List Entry) (a off sz : ℕ) (r : Option ℕ)
    → has (addrs ls) a ≡ false
    → held_bytes a (segments (ls ++ (used_entry a off sz r ∷ rs))) ≡ sz
held-split [] rs a off sz r o = rw (eq→== a a refl) refl
held-split (l ∷ ls) rs a off sz r o =
    rw (other-holder l a (ground (arith, o))) (held-split ls rs a off sz r (ground (arith, o)))

start-split :
    (ls rs : List Entry) (a off sz : ℕ) (r : Option ℕ)
    → has (addrs ls) a ≡ false
    → held_start a (segments (ls ++ (used_entry a off sz r ∷ rs))) ≡ off
start-split [] rs a off sz r o = rw (eq→== a a refl) refl
start-split (l ∷ ls) rs a off sz r o =
    rw (other-holder l a (ground (arith, o))) (start-split ls rs a off sz r (ground (arith, o)))

module _ (bs : Blocks) (y : ℕ) (ss : List Segment) (cur : ℕ) (R : Refines bs y ss)
    (n : is_new cur ss ≡ false) where
  -- The block that holds a segment has its size.
  pub held-block : (b : Block) × (load bs.store (some cur) ≡ ok b) × (b.size ≡ held_bytes cur ss)
  held-block =
      let H = Held-in R.entries cur (ap (is_new cur) R.seen ∙ n) in
      let U = used_entry cur H.start H.bytes H.reference in
      let I = rw H.split at R.is_pool.represents.list in
      let b = block_of U (last_or none H.before) none (first_or none H.after) none in
      (
        b,
        load-middle bs.store [] [] cur b
            (IsList-Pieces (find bs.store) H.before (U ∷ []) H.after I),
        sym (
              held-split H.before H.after cur H.start H.bytes H.reference (
                apart-left H.before (U ∷ H.after) cur I.apart (ground (arith, eq→== cur cur refl))))
            ∙ ap (λ es. held_bytes cur (segments es)) (sym H.split)
            ∙ ap (held_bytes cur) R.seen,
      )

  -- A block may be given another reference.
  pub referred :
      (q : Option ℕ)
      → (b : Block) × (h : Store Block) × (load bs.store (some cur) ≡ ok b)
        × (adjust (some cur) (λ b. record b { reference = q }) bs.store ≡ ok h)
        × (b.offset ≡ held_start cur ss)
        × Refines (record bs { store = h }) y ss
  referred q =
      let H = Held-in R.entries cur (ap (is_new cur) R.seen ∙ n) in
      let U = used_entry cur H.start H.bytes H.reference in
      let U' = used_entry cur H.start H.bytes q in
      let I = rw H.split at R.is_pool.represents in
      let b = block_of U (last_or none H.before) none (first_or none H.after) none in
      let P = IsList-Pieces (find bs.store) H.before (U ∷ []) H.after I.list in
      let t = adjust-middle bs.store [] [] cur b (λ b. record b { reference = q }) P in
      let g : segments (H.before ++ (U' ∷ H.after)) ≡ ss =
        segments-append H.before (U' ∷ H.after)
        ∙ sym (segments-append H.before (U ∷ H.after))
        ∙ ap segments (sym H.split)
        ∙ R.seen in
      (
        b,
        t.after,
        load-middle bs.store [] [] cur b P,
        t.runs,
        sym (
              start-split H.before H.after cur H.start H.bytes H.reference (
                apart-left H.before (U ∷ H.after) cur I.list.apart
                  (ground (arith, eq→== cur cur refl))))
            ∙ ap (λ es. held_start cur (segments es)) (sym H.split)
            ∙ ap (held_start cur) R.seen,
        record {
          entries = H.before ++ (U' ∷ H.after);
          is_pool = record {
            represents = record {
              list = Pieces-IsList (find t.after) H.before (U' ∷ []) H.after t.pieces;
              first =
                  I.first
                  ∙ first_or-append none H.before (U ∷ H.after)
                  ∙ sym (first_or-append none H.before (U' ∷ H.after));
              first_free =
                  I.first_free
                  ∙ first_free_or-append none H.before (U ∷ H.after)
                  ∙ sym (first_free_or-append none H.before (U' ∷ H.after));
            };
            filled = rw (g ∙ sym R.seen) R.is_pool.filled;
            tidy = rw (g ∙ sym R.seen) R.is_pool.tidy;
          };
          seen = g;
        },
      )

pub new-is_new :
    (bs : Blocks) (y : ℕ) (ss : List Segment) (a : ℕ)
    → Refines bs y ss
    → find bs.store a ≡ none
    → is_new a ss ≡ true
unfolding load
new-is_new bs y ss a R e = elim (Bool-cases (is_new a ss)) [
  | inl n ↦ n
  | inr n ↦ let (b, l, z) = held-block bs y ss a R n in absurd (ground (arith, (rw e at l)))
]
