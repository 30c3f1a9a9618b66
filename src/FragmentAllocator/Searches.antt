-- ===== src/FragmentAllocator/Searches.antt =====
-- The searches for a free block in src/libzillians-common-core/core/FragmentFreeAllocator.cpp,
-- on the list of blocks.
use supercell_common.Common.{
  ℕ, zero, suc, ◌≤◌, ◌≡◌, refl, sym, ap, ◌∙◌, Option, none, some, List, [], inl, inr, ◌⊎◌, ◌∷◌,
  ◌++◌, arith, if◌then◌else◌, ok, Store, find, load, load-some, Bool-cases, length,
}
use supercell_common.FragmentAllocator.Lists.{Block}
use supercell_common.FragmentAllocator.Joins.{search_left, search_right}
use supercell_common.FragmentAllocator.Chain.{
  Entry, first_or, last_or, first_free_or, last_free_or, Chain, Chain-split, block_of, none_free,
  last_free_or-none_free, last_free_or-some, first_free_or-none_free,
}
use supercell_common.FragmentAllocator.Absent.{none-some}

-- A list is empty or has a last entry.
pub last-cases :
    (es : List Entry) → (es ≡ []) ⊎ ((fs : List Entry) × (l : Entry) × (es ≡ fs ++ (l ∷ [])))
last-cases [] = inl refl
last-cases (e ∷ es) = elim (last-cases es) [
  | inl z ↦ inr ([], e, ap (λ t. e ∷ t) z)
  | inr (fs, l, z) ↦ inr (e ∷ fs, l, ap (λ t. e ∷ t) z)
]

pub last_or-append :
    (p : Option ℕ) (ls : List Entry) (l : Entry) → last_or p (ls ++ (l ∷ [])) ≡ some l.addr
last_or-append p [] l = refl
last_or-append p (k ∷ ls) l = last_or-append (some k.addr) ls l

pub last_free_or-append :
    (p : Option ℕ) (ls : List Entry) (l : Entry)
    → last_free_or p (ls ++ (l ∷ [])) ≡ (if l.free then some l.addr else last_free_or p ls)
last_free_or-append p [] l = refl
last_free_or-append p (k ∷ ls) l = last_free_or-append (if k.free then some k.addr else p) ls l

length-append-one : (ls : List Entry) (l : Entry) → length (ls ++ (l ∷ [])) ≡ suc (length ls)
length-append-one [] l = refl
length-append-one (k ∷ ls) l = ap suc (length-append-one ls l)

module _ (h : Store Block) where
  -- The search to the left finds the last free block.
  pub search_left-last_free :
      (m : ℕ) (ls : List Entry) (n nf : Option ℕ)
      → length ls ≤ m
      → Chain (find h) none none ls n nf
      → search_left m (last_or none ls) h ≡ ok (last_free_or none ls)
  unfolding search_left
  search_left-last_free zero ls n nf le c = elim (last-cases ls) [
    | inl z ↦ rw z refl
    | inr (fs, l, z) ↦ absurd (omega (arith, le, ap length z, length-append-one fs l))
  ]
  search_left-last_free (suc m) ls n nf le c = elim (last-cases ls) [
    | inl z ↦ rw z refl
    | inr (fs, l, z) ↦
        let (cf, cl) = Chain-split (find h) none none fs (l ∷ []) n nf (rw z at c) in
        let b = block_of l (last_or none fs) (last_free_or none fs) n nf in
        let fewer : length fs ≤ m = omega (arith, le, ap length z, length-append-one fs l) in
        let there = load-some h l.addr b cl.0 in
        elim (Bool-cases l.free) [
          | inl t ↦ rw (z, last_or-append none fs l, last_free_or-append none fs l, there, t) refl
          | inr f ↦
              rw (z, last_or-append none fs l, last_free_or-append none fs l, there, f)
                (search_left-last_free m fs (first_or n (l ∷ [])) (first_free_or nf (l ∷ [])) fewer
                  cf)
        ]
  ]

  -- The search to the right finds the first free block.
  pub search_right-first_free :
      (m : ℕ) (p pf : Option ℕ) (rs : List Entry)
      → length rs ≤ m
      → Chain (find h) p pf rs none none
      → search_right m (first_or none rs) h ≡ ok (first_free_or none rs)
  unfolding search_right
  search_right-first_free m p pf [] le c = refl
  search_right-first_free zero p pf (r ∷ rs) le c = absurd (omega (arith, le))
  search_right-first_free (suc m) p pf (r ∷ rs) le (c, cs) = elim (Bool-cases r.free) [
    | inl t ↦
        rw (load-some h r.addr (block_of r p pf (first_or none rs) (first_free_or none rs)) c, t)
          refl
    | inr f ↦
        rw (load-some h r.addr (block_of r p pf (first_or none rs) (first_free_or none rs)) c, f)
          (search_right-first_free m (some r.addr) (if r.free then some r.addr else pf) rs
            (omega (arith, le)) cs)
  ]

  -- The last free block of the left and the first of the right, where there are any.
  pub last_free-block :
      (p pf : Option ℕ) (ls : List Entry) (n nf : Option ℕ) (x : ℕ)
      → Chain (find h) p pf ls n nf
      → last_free_or none ls ≡ some x
      → (b : Block) × (load h (some x) ≡ ok b) × (b.next_free ≡ nf)
  last_free-block p pf [] n nf x c e = absurd (none-some e)
  last_free-block p pf (l ∷ ls) n nf x (c, cs) e = elim (Bool-cases (none_free ls)) [
    | inl z ↦
        let last = sym (last_free_or-none_free (if l.free then some l.addr else none) ls z) ∙ e in
        elim (Bool-cases l.free) [
          | inl t ↦
              let b = block_of l p pf (first_or n ls) (first_free_or nf ls) in
              let same : some l.addr ≡ some x = rw t at last in
              (
                b,
                ap (load h) (sym same) ∙ load-some h l.addr b c,
                rw t (first_free_or-none_free nf ls z),
              )
          | inr f ↦ absurd (none-some (rw f at last))
        ]
    | inr z ↦
        last_free-block (some l.addr) (if l.free then some l.addr else pf) ls n nf x cs
          (last_free_or-some none (if l.free then some l.addr else none) ls z ∙ e)
  ]

  pub first_free-block :
      (p pf : Option ℕ) (rs : List Entry) (n nf : Option ℕ) (x : ℕ)
      → Chain (find h) p pf rs n nf
      → first_free_or none rs ≡ some x
      → (b : Block) × (load h (some x) ≡ ok b) × (b.prev_free ≡ pf)
  first_free-block p pf [] n nf x c e = absurd (none-some e)
  first_free-block p pf (r ∷ rs) n nf x (c, cs) e = elim (Bool-cases r.free) [
    | inl t ↦
        let b = block_of r p pf (first_or n rs) (first_free_or nf rs) in
        let same : some r.addr ≡ some x = rw t at e in
        (b, ap (load h) (sym same) ∙ load-some h r.addr b c, rw t refl)
    | inr f ↦ first_free-block (some r.addr) pf rs n nf x (rw f at cs) (rw f at e)
  ]
