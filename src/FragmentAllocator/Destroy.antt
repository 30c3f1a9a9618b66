-- ===== src/FragmentAllocator/Destroy.antt =====
-- The destructor of FragmentAllocator in src/libzillians-common-core/core/FragmentFreeAllocator.cpp.
use supercell_common.Common.{
  ℕ, zero, suc, ◌≤◌, ◌≡◌, ◌≢◌, refl, sym, ap, ◌∙◌, false, Option, none, some, List, [], inl, inr,
  ◌∷◌, arith, if◌then◌else◌, length, ok, Store, find, load-some, delete-some, drop_at, find-drop,
  put_at-here, put_at-other, eq_or_ne, ne→ne,
}
use supercell_common.AtomicQueue.{has}
use supercell_common.FragmentAllocator.{FragmentAllocator, destroy}
use supercell_common.FragmentAllocator.Lists.{Block}
use supercell_common.FragmentAllocator.Sweeps.{delete_all}
use supercell_common.FragmentAllocator.Chain.{
  Entry, addrs, first_or, first_free_or, block_of, Chain, Distinct, Chain-frame,
}
use supercell_common.FragmentAllocator.Pieces.{has-ne}
use supercell_common.FragmentAllocator.Segments.{Segment}
use supercell_common.FragmentAllocator.Refinement.{length-segments}
use supercell_common.FragmentAllocator.Serving.{Serves}

delete_all-lem :
    (n : ℕ) (h : Store Block) (p pf : Option ℕ) (es : List Entry)
    → length es ≤ n
    → Chain (find h) p pf es none none
    → Distinct (addrs es)
    → ((a : ℕ) → has (addrs es) a ≡ false → find h a ≡ none)
    → (h' : Store Block) × (delete_all n (first_or none es) h ≡ ok h')
      × ((a : ℕ) → find h' a ≡ none)
unfolding delete_all
delete_all-lem n h p pf [] le c d z = (h, refl, λ a. z a refl)
delete_all-lem zero h p pf (e ∷ es) le c d z = absurd (omega (arith, le))
delete_all-lem (suc n) h p pf (e ∷ es) le (c, cs) (d, ds) z =
    let h₁ = drop_at e.addr h in
    let b = block_of e p pf (first_or none es) (first_free_or none es) in
    let q : Option ℕ = if e.free then some e.addr else pf in
    let other : (a : ℕ) → a ≢ e.addr → find h₁ a ≡ find h a =
      λ a ne. ap (λ g. g a) (find-drop e.addr h) ∙ put_at-other e.addr a none (find h) ne in
    let gone : find h₁ (e.addr) ≡ none =
      ap (λ g. g (e.addr)) (find-drop e.addr h) ∙ put_at-here e.addr none (find h) in
    let (h', runs, empty) =
      delete_all-lem n h₁ (some e.addr) q es (omega (arith, le))
        (Chain-frame (find h) (find h₁) (some e.addr) q es none none
          (λ a i. other a (λ y. has-ne (addrs es) a e.addr i d (sym y))) cs)
        ds
        (λ a i. elim (eq_or_ne a e.addr) [
          | inl y ↦ ap (find h₁) y ∙ gone
          | inr ne ↦ other a ne ∙ z a (rw (ne→ne a e.addr ne) i)
        ]) in
    (h', rw (delete-some h e.addr b c, load-some h e.addr b c) runs, empty)

-- The destructor of an allocator of which nothing is in use deletes every block once, and no block
-- is left.
pub destroy_lem :
    (n : ℕ) (s : FragmentAllocator) (y : ℕ) (ss : List Segment)
    → length ss ≤ n
    → Serves s y ss
    → s.allocated_size ≡ 0
    → s.map ≡ []
    → (h : Store Block) × (destroy n s ≡ ok h) × ((a : ℕ) → find h a ≡ none)
unfolding destroy
destroy_lem n s y ss le S u m =
    let R = S.refines.is_pool.represents in
    let es = S.refines.entries in
    let (h, runs, empty) =
      delete_all-lem n s.blocks.store none none es
        (omega (arith, le, ap length S.refines.seen, length-segments es)) R.list.chain R.list.apart
        R.list.nothing_else in
    (h, rw (u, R.first, runs, m) refl, empty)
