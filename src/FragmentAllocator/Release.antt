-- ===== src/FragmentAllocator/Release.antt =====
-- deallocate() of include/core/FragmentFreeAllocator.h on the blocks, and the segments that it leaves.
use supercell_common.Common.{
  ℕ, ◌≡◌, refl, sym, Bool, true, false, Option, none, some, List, [], ◌∷◌, ◌++◌, if◌then◌else◌, ok,
  Store, find, load, load-some,
}
use supercell_common.FragmentAllocator.Lists.{Block, Blocks}
use supercell_common.FragmentAllocator.Joins.{is_free, release, release_in}
use supercell_common.FragmentAllocator.Chain.{
  Entry, first_or, last_or, first_free_or, last_free_or, Chain, Chain-split, block_of,
}
use supercell_common.FragmentAllocator.Take.{Represents, free_entry}
use supercell_common.FragmentAllocator.Merge.{used_entry}

abbrev pub last_is_free : Bool → List Entry → Bool
last_is_free b [] = b
last_is_free b (e ∷ es) = last_is_free e.free es

abbrev pub first_is_free : List Entry → Bool
first_is_free [] = false
first_is_free (e ∷ es) = e.free

module _ (h : Store Block) where
  is_free-last :
      (q : Option ℕ) (b : Bool) (p pf : Option ℕ) (ls : List Entry) (n nf : Option ℕ)
      → is_free q h ≡ ok b
      → Chain (find h) p pf ls n nf
      → is_free (last_or q ls) h ≡ ok (last_is_free b ls)
  unfolding is_free
  is_free-last q b p pf [] n nf e c = e
  is_free-last q b p pf (l ∷ ls) n nf e (c, cs) =
      is_free-last (some l.addr) l.free (some l.addr) (if l.free then some l.addr else pf) ls n nf
        (rw (load-some h l.addr (block_of l p pf (first_or n ls) (first_free_or nf ls)) c) refl) cs

  is_free-first :
      (p pf : Option ℕ) (rs : List Entry) (n nf : Option ℕ)
      → Chain (find h) p pf rs n nf
      → is_free (first_or none rs) h ≡ ok (first_is_free rs)
  unfolding is_free
  is_free-first p pf [] n nf c = refl
  is_free-first p pf (r ∷ rs) n nf (c, cs) =
      rw (load-some h r.addr (block_of r p pf (first_or n rs) (first_free_or nf rs)) c) refl

release-runs :
    (m cur : ℕ) (bs : Blocks) {c : Block} {l r : Bool}
    → load bs.store (some cur) ≡ ok c
    → is_free c.prev_block bs.store ≡ ok l
    → is_free c.next_block bs.store ≡ ok r
    → release m cur bs ≡ release_in m cur c.prev_block c.next_block l r bs
unfolding release
release-runs m cur bs e l r = rw (e, l, r) refl

module _ (m : ℕ) (bs : Blocks) (ls rs : List Entry) (cur off sz : ℕ) (r : Option ℕ)
    (R : Represents bs (ls ++ (used_entry cur off sz r ∷ rs))) where
  pub release-neighbours :
      release m cur bs
      ≡ release_in m cur
          (last_or none ls)
          (first_or none rs)
          (last_is_free false ls)
          (first_is_free rs)
          bs
  unfolding is_free
  release-neighbours =
      let U = used_entry cur off sz r in
      let (l, c) = Chain-split (find bs.store) none none ls (U ∷ rs) none none R.list.chain in
      release-runs m cur bs
        (load-some bs.store cur
          (block_of U (last_or none ls) (last_free_or none ls) (first_or none rs)
            (first_free_or none rs))
          c.0)
        (is_free-last bs.store none false none none ls (some cur) (first_free_or none (U ∷ rs)) refl
          l)
        (is_free-first bs.store (some cur) (last_free_or none ls) rs none none c.1)

pub free_entry-eq : (e : Entry) → e.free ≡ true → free_entry e.addr e.offset e.size e.reference ≡ e
free_entry-eq e f i = record e { free = sym f i }
