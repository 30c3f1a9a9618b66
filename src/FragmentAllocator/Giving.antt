-- ===== src/FragmentAllocator/Giving.antt =====
-- What deallocate() of include/core/FragmentFreeAllocator.h promises on the segments of the pool,
-- where the segments are those of blocks.
use supercell_common.Common.{
  ℕ, ◌+◌, ◌≤◌, ◌≡◌, refl, sym, ap, ◌∙◌, true, false, ◌&&◌, none, some, List, [], inl, inr, ◌∷◌,
  ◌++◌, arith, if◌then◌else◌, Bool-cases, ◌==◌,
}
use supercell_common.AtomicQueue.{has}
use supercell_common.FragmentAllocator.Chain.{Entry, addrs}
use supercell_common.FragmentAllocator.Segments.{
  Segment, is_vacant, holds, give_back, Fills, is_tidy, tidy-give_back,
}
use supercell_common.FragmentAllocator.Release.{last_is_free}
use supercell_common.FragmentAllocator.Taking.{join-tidy}

abbrev pub segment : Entry → Segment
segment e = record {
  holder = if e.free then none else some e.addr;
  offset = e.offset;
  size = e.size;
}

abbrev pub segments : List Entry → List Segment
segments [] = []
segments (e ∷ es) = segment e ∷ segments es

pub segments-append : (ls rs : List Entry) → segments (ls ++ rs) ≡ segments ls ++ segments rs
segments-append [] rs = refl
segments-append (l ∷ ls) rs = ap (λ t. segment l ∷ t) (segments-append ls rs)

pub vacant-segment : (e : Entry) → is_vacant ((segment e).holder) ≡ e.free
vacant-segment e = elim (Bool-cases e.free) [ inl t ↦ rw t refl | inr f ↦ rw f refl ]

pub other-holder :
    (e : Entry) (a : ℕ) → (a == e.addr) ≡ false → holds ((segment e).holder) a ≡ false
other-holder e a n = elim (Bool-cases e.free) [
  | inl t ↦ rw t refl
  | inr f ↦ rw f (ground (arith, n))
]

pub tidy-right : (ss ts : List Segment) → is_tidy (ss ++ ts) ≡ true → is_tidy ts ≡ true
tidy-right [] ts t = t
tidy-right (s ∷ ss) ts t = tidy-right ss ts (ground (arith, t))

tidy-swap :
    (ls : List Entry) (t t' : Segment) (ts ts' : List Segment)
    → is_tidy (segments ls ++ (t ∷ ts)) ≡ true
    → is_tidy (t' ∷ ts') ≡ true
    → ((is_vacant t'.holder && last_is_free false ls) ≡ true → is_vacant t.holder ≡ true)
    → is_tidy (segments ls ++ (t' ∷ ts')) ≡ true
tidy-swap [] t t' ts ts' d d' v = d'
tidy-swap (l ∷ []) t t' ts ts' d d' v = ground (arith, d, d', v, vacant-segment l)
tidy-swap (l ∷ k ∷ ls) t t' ts ts' d d' v =
    ground (arith, d, tidy-swap (k ∷ ls) t t' ts ts' (ground (arith, d)) d' v)

give_back-onto :
    (ls : List Entry) (a : ℕ) (t t' : Segment) (ts ts' : List Segment)
    → has (addrs ls) a ≡ false
    → is_tidy (segments ls ++ (t' ∷ ts')) ≡ true
    → give_back a (t ∷ ts) ≡ t' ∷ ts'
    → give_back a (segments ls ++ (t ∷ ts)) ≡ segments ls ++ (t' ∷ ts')
give_back-onto [] a t t' ts ts' o d g = g
give_back-onto (l ∷ ls) a t t' ts ts' o d g =
    let rest = give_back-onto ls a t t' ts ts' (ground (arith, o)) (ground (arith, d)) g in
    rw (other-holder l a (ground (arith, o)), rest)
      (join-tidy (segment l) (segments ls ++ (t' ∷ ts')) d)

-- A part of the segments is given back, where what is in front stays as it is.
pub give_back-behind :
    (ls : List Entry) (a : ℕ) (t t' : Segment) (ts ts' : List Segment)
    → has (addrs ls) a ≡ false
    → is_tidy (segments ls ++ (t ∷ ts)) ≡ true
    → ((is_vacant t'.holder && last_is_free false ls) ≡ true → is_vacant t.holder ≡ true)
    → give_back a (t ∷ ts) ≡ t' ∷ ts'
    → give_back a (segments ls ++ (t ∷ ts)) ≡ segments ls ++ (t' ∷ ts')
give_back-behind ls a t t' ts ts' o d v g =
    give_back-onto ls a t t' ts ts' o
      (tidy-swap ls t t' ts ts' d
        (ap is_tidy (sym g) ∙ tidy-give_back a (t ∷ ts) (tidy-right (segments ls) (t ∷ ts) d)) v)
      g

pub Fills-le : (ss : List Segment) (x y : ℕ) → Fills x ss y → x ≤ y
Fills-le [] x y f = omega (arith, f)
Fills-le (s ∷ ss) x y (o, f) = omega (arith, Fills-le ss (x + s.size) y f)

pub Fills-right : (ss ts : List Segment) (x y : ℕ) → Fills x (ss ++ ts) y → (z : ℕ) × Fills z ts y
Fills-right [] ts x y f = (x, f)
Fills-right (s ∷ ss) ts x y (o, f) = Fills-right ss ts (x + s.size) y f
