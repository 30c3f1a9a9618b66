-- ===== src/FragmentAllocator/Absent.antt =====
-- What is not in a list of blocks of include/core/FragmentFreeAllocator.h: an address, or an end.
use supercell_common.Common.{
  ℕ, ◌≡◌, refl, sym, ap, true, false, Option, none, some, List, [], inl, inr, ◌⊎◌, ◌∷◌, arith,
  if◌then◌else◌, Bool-cases,
}
use supercell_common.AtomicQueue.{has}
use supercell_common.FragmentAllocator.Lists.{Block}
use supercell_common.FragmentAllocator.Chain.{
  Entry, addrs, first_or, last_or, first_free_or, last_free_or, Chain, none_free,
}
use supercell_common.FragmentAllocator.Pieces.{keys, Cells}

pub Option-cases : {A : Type 0} (o : Option A) → (o ≡ none) ⊎ ((x : A) × (o ≡ some x))
Option-cases none = inl refl
Option-cases (some x) = inr (x, refl)

pub none-some : {x : ℕ} → ¬ (none ≡ some x)
none-some e = absurd (ground (arith, e))

pub Chain-fresh :
    (g : ℕ → Option Block) (p pf : Option ℕ) (es : List Entry) (n nf : Option ℕ) (x : ℕ)
    → Chain g p pf es n nf
    → g x ≡ none
    → has (addrs es) x ≡ false
Chain-fresh g p pf [] n nf x c e = refl
Chain-fresh g p pf (l ∷ es) n nf x (c, cs) e =
    let rest = Chain-fresh g (some l.addr) (if l.free then some l.addr else pf) es n nf x cs e in
    ground (arith, rest, c, e, ap g)

pub Cells-fresh :
    (g : ℕ → Option Block) (m : List (ℕ × Block)) (x : ℕ)
    → Cells g m
    → g x ≡ none
    → has (keys m) x ≡ false
Cells-fresh g [] x c e = refl
Cells-fresh g ((a, b) ∷ m) x (c, cs) e = ground (arith, Cells-fresh g m x cs e, c, e, ap g)

pub last_or-some : (y : ℕ) (es : List Entry) → ¬ (last_or (some y) es ≡ none)
last_or-some y [] e = none-some (sym e)
last_or-some y (l ∷ es) e = last_or-some l.addr es e

pub last_free_or-some : (y : ℕ) (es : List Entry) → ¬ (last_free_or (some y) es ≡ none)
last_free_or-some y [] e = none-some (sym e)
last_free_or-some y (l ∷ es) e = elim (Bool-cases l.free) [
  | inl t ↦ last_free_or-some l.addr es (rw t at e)
  | inr f ↦ last_free_or-some y es (rw f at e)
]

pub first_free_or-none : (es : List Entry) → first_free_or none es ≡ none → none_free es ≡ true
first_free_or-none [] e = refl
first_free_or-none (l ∷ es) e = elim (Bool-cases l.free) [
  | inl t ↦ absurd (none-some (sym (rw t at e)))
  | inr f ↦ rw f (first_free_or-none es (rw f at e))
]

pub Chain-last_or :
    (g : ℕ → Option Block) (p pf : Option ℕ) (es : List Entry) (n n' nf : Option ℕ)
    → last_or none es ≡ none
    → Chain g p pf es n nf
    → Chain g p pf es n' nf
Chain-last_or g p pf [] n n' nf e c = tt
Chain-last_or g p pf (l ∷ es) n n' nf e c = absurd (last_or-some l.addr es e)

pub Chain-first_or :
    (g : ℕ → Option Block) (p p' pf : Option ℕ) (es : List Entry) (n nf : Option ℕ)
    → first_or none es ≡ none
    → Chain g p pf es n nf
    → Chain g p' pf es n nf
Chain-first_or g p p' pf [] n nf e c = tt
Chain-first_or g p p' pf (l ∷ es) n nf e c = absurd (none-some (sym e))

pub last_free_or-none : (es : List Entry) → last_free_or none es ≡ none → none_free es ≡ true
last_free_or-none [] e = refl
last_free_or-none (l ∷ es) e = elim (Bool-cases l.free) [
  | inl t ↦ absurd (last_free_or-some l.addr es (rw t at e))
  | inr f ↦ rw f (last_free_or-none es (rw f at e))
]
