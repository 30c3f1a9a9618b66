-- ===== src/FragmentAllocator/Owners.antt =====
-- Which blocks of include/core/FragmentFreeAllocator.h hold a segment after deallocate(), and what is
-- left where none does.
use supercell_common.Common.{
  ℕ, ◌≡◌, refl, sym, ap, ◌∙◌, true, false, none, some, Option, List, inl, inr, [], ◌∷◌, arith,
  Bool-cases, eq→==, eq_or_ne, ne→ne,
}
use supercell_common.AtomicQueue.{has}
use supercell_common.FragmentAllocator.Lists.{Blocks}
use supercell_common.FragmentAllocator.Chain.{Entry, addrs, Distinct}
use supercell_common.FragmentAllocator.Segments.{Segment, is_vacant, holds, give_back, used_bytes}
use supercell_common.FragmentAllocator.Taking.{is_new, all_vacant}
use supercell_common.FragmentAllocator.Others.{start-join}
use supercell_common.FragmentAllocator.Giving.{segment, segments, other-holder}
use supercell_common.FragmentAllocator.Refinement.{Refines}

other-is_new : (es : List Entry) (a : ℕ) → has (addrs es) a ≡ false → is_new a (segments es) ≡ true
other-is_new [] a n = refl
other-is_new (e ∷ es) a n =
    ground (arith, n, other-holder e a (ground (arith, n)), other-is_new es a (ground (arith, n)))

held-address : (e : Entry) (a : ℕ) → holds ((segment e).holder) a ≡ true → a ≡ e.addr
held-address e a h = elim (eq_or_ne a e.addr) [
  | inl z ↦ z
  | inr z ↦ absurd (ground (arith, h, other-holder e a (ne→ne a e.addr z)))
]

entries-give_back :
    (es : List Entry) (a : ℕ) → Distinct (addrs es) → is_new a (give_back a (segments es)) ≡ true
entries-give_back [] a d = refl
entries-give_back (e ∷ es) a (d, ds) = elim (Bool-cases (holds ((segment e).holder) a)) [
  | inl h ↦
      let (x, y) = start-join (record (segment e) { holder = none }) (segments es) a in
      let rest : is_new a (segments es) ≡ true =
        other-is_new es a (ap (has (addrs es)) (held-address e a h) ∙ d) in
      rw h (y ∙ rest)
  | inr h ↦
      let (x, y) = start-join (segment e) (give_back a (segments es)) a in
      rw h (y ∙ rw h (entries-give_back es a ds))
]

-- A block that gives its segment back holds no segment.
pub give_back-is_new :
    (bs : Blocks) (y : ℕ) (ss : List Segment) (a : ℕ)
    → Refines bs y ss
    → is_new a (give_back a ss) ≡ true
give_back-is_new bs y ss a R =
    ap (λ x. is_new a (give_back a x)) (sym R.seen)
    ∙ entries-give_back R.entries a R.is_pool.represents.list.apart

-- Segments that no block holds are vacant.
pub unheld-all_vacant : (ss : List Segment) → ((a : ℕ) → is_new a ss ≡ true) → all_vacant ss ≡ true
unheld-all_vacant [] f = refl
unheld-all_vacant (s ∷ ss) f = ground (
  arith,
  unheld (s.holder) (λ a. ground (arith, f a)),
  unheld-all_vacant ss (λ a. ground (arith, f a)),
)
  where
    unheld : (o : Option ℕ) → ((a : ℕ) → holds o a ≡ false) → is_vacant o ≡ true
    unheld none f = refl
    unheld (some x) f = absurd (ground (arith, f x, eq→== x x refl))

pub all_vacant-used_bytes : (ss : List Segment) → all_vacant ss ≡ true → used_bytes ss ≡ 0
all_vacant-used_bytes [] v = refl
all_vacant-used_bytes (s ∷ ss) v = ground (arith, v, all_vacant-used_bytes ss (ground (arith, v)))
