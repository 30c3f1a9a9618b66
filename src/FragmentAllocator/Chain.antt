-- ===== src/FragmentAllocator/Chain.antt =====
-- The lists of blocks of FragmentAllocator in include/core/FragmentFreeAllocator.h, in a store.
use supercell_common.Common.{
  ℕ, ◌≡◌, refl, sym, ap, ◌∙◌, Bool, true, false, Option, none, some, List, [], ◌∷◌, ◌++◌, arith,
  if◌then◌else◌, Bool-cases, inl, inr,
}
use supercell_common.AtomicQueue.{has}
use supercell_common.FragmentAllocator.Lists.{Block}

-- A block in its list: its address, and its members that are no links.
pub record Entry : Type 0 where
  pub addr : ℕ
  pub free : Bool
  pub offset : ℕ
  pub size : ℕ
  pub reference : Option ℕ

abbrev pub addrs : List Entry → List ℕ
addrs [] = []
addrs (e ∷ es) = e.addr ∷ addrs es

-- The address of the first and of the last entry, and of the first and of the last that is free.
abbrev pub first_or : Option ℕ → List Entry → Option ℕ
first_or n [] = n
first_or n (e ∷ es) = some e.addr

abbrev pub last_or : Option ℕ → List Entry → Option ℕ
last_or p [] = p
last_or p (e ∷ es) = last_or (some e.addr) es

abbrev pub first_free_or : Option ℕ → List Entry → Option ℕ
first_free_or n [] = n
first_free_or n (e ∷ es) = if e.free then some e.addr else first_free_or n es

abbrev pub last_free_or : Option ℕ → List Entry → Option ℕ
last_free_or p [] = p
last_free_or p (e ∷ es) = last_free_or (if e.free then some e.addr else p) es

-- The block of an entry, from its neighbours in both lists.
abbrev pub block_of : Entry → Option ℕ → Option ℕ → Option ℕ → Option ℕ → Block
block_of e p pf n nf = record {
  free = e.free;
  offset = e.offset;
  size = e.size;
  next_free = if e.free then nf else none;
  prev_free = if e.free then pf else none;
  next_block = n;
  prev_block = p;
  reference = e.reference;
}

-- The store has the entries, linked to each other and to their neighbours `p`, `pf`, `n` and `nf`.
abbrev pub Chain :
    (ℕ → Option Block) → Option ℕ → Option ℕ → List Entry → Option ℕ → Option ℕ → Type 0
Chain g p pf [] n nf = Unit
Chain g p pf (e ∷ es) n nf =
    (g e.addr ≡ some (block_of e p pf (first_or n es) (first_free_or nf es)))
    × Chain g (some e.addr) (if e.free then some e.addr else pf) es n nf

abbrev pub Distinct : List ℕ → Type 0
Distinct [] = Unit
Distinct (x ∷ xs) = (has xs x ≡ false) × Distinct xs

-- Another store with the same blocks at these addresses has the same chain.
pub Chain-frame :
    (g g' : ℕ → Option Block) (p pf : Option ℕ) (es : List Entry) (n nf : Option ℕ)
    → ((a : ℕ) → has (addrs es) a ≡ true → g' a ≡ g a)
    → Chain g p pf es n nf
    → Chain g' p pf es n nf
Chain-frame g g' p pf [] n nf same c = tt
Chain-frame g g' p pf (e ∷ es) n nf same (x, c) = (
  same e.addr (ground arith) ∙ x,
  Chain-frame g g' (some e.addr) (if e.free then some e.addr else pf) es n nf
      (λ a i. same a (ground (arith, i))) c,
)

pub first_or-append :
    (n : Option ℕ) (ls rs : List Entry) → first_or n (ls ++ rs) ≡ first_or (first_or n rs) ls
first_or-append n [] rs = refl
first_or-append n (l ∷ ls) rs = refl

pub first_free_or-append :
    (n : Option ℕ) (ls rs : List Entry)
    → first_free_or n (ls ++ rs) ≡ first_free_or (first_free_or n rs) ls
first_free_or-append n [] rs = refl
first_free_or-append n (l ∷ ls) rs =
    ap (λ x. if l.free then some l.addr else x) (first_free_or-append n ls rs)

block_of-append :
    (l : Entry) (p pf : Option ℕ) (ls rs : List Entry) (n nf : Option ℕ)
    → block_of l p pf (first_or n (ls ++ rs)) (first_free_or nf (ls ++ rs))
      ≡ block_of l p pf (first_or (first_or n rs) ls) (first_free_or (first_free_or nf rs) ls)
block_of-append l p pf ls rs n nf i =
    block_of l p pf (first_or-append n ls rs i) (first_free_or-append nf ls rs i)

pub Chain-split :
    (g : ℕ → Option Block) (p pf : Option ℕ) (ls rs : List Entry) (n nf : Option ℕ)
    → Chain g p pf (ls ++ rs) n nf
    → Chain g p pf ls (first_or n rs) (first_free_or nf rs)
      × Chain g (last_or p ls) (last_free_or pf ls) rs n nf
Chain-split g p pf [] rs n nf c = (tt, c)
Chain-split g p pf (l ∷ ls) rs n nf (x, c) =
    let (left, right) =
      Chain-split g (some l.addr) (if l.free then some l.addr else pf) ls rs n nf c in
    ((x ∙ ap some (block_of-append l p pf ls rs n nf), left), right)

pub Chain-join :
    (g : ℕ → Option Block) (p pf : Option ℕ) (ls rs : List Entry) (n nf : Option ℕ)
    → Chain g p pf ls (first_or n rs) (first_free_or nf rs)
    → Chain g (last_or p ls) (last_free_or pf ls) rs n nf
    → Chain g p pf (ls ++ rs) n nf
Chain-join g p pf [] rs n nf c c' = c'
Chain-join g p pf (l ∷ ls) rs n nf (x, c) c' = (
  x ∙ ap some (sym (block_of-append l p pf ls rs n nf)),
  Chain-join g (some l.addr) (if l.free then some l.addr else pf) ls rs n nf c c',
)

-- Whether no entry is free.
abbrev pub none_free : List Entry → Bool
none_free [] = true
none_free (e ∷ es) = if e.free then false else none_free es

pub first_free_or-none_free :
    (z : Option ℕ) (es : List Entry) → none_free es ≡ true → first_free_or z es ≡ z
first_free_or-none_free z [] h = refl
first_free_or-none_free z (e ∷ es) h = ground (arith, h, first_free_or-none_free z es)

pub last_free_or-none_free :
    (z : Option ℕ) (es : List Entry) → none_free es ≡ true → last_free_or z es ≡ z
last_free_or-none_free z [] h = refl
last_free_or-none_free z (e ∷ es) h = ground (arith, h, last_free_or-none_free z es)

-- Where some entry is free, the first and the last are among the entries.
pub first_free_or-some :
    (y z : Option ℕ) (es : List Entry)
    → none_free es ≡ false
    → first_free_or y es ≡ first_free_or z es
first_free_or-some y z [] h = absurd (ground (arith, h))
first_free_or-some y z (e ∷ es) h = ground (arith, h, first_free_or-some y z es)

pub last_free_or-some :
    (y z : Option ℕ) (es : List Entry)
    → none_free es ≡ false
    → last_free_or y es ≡ last_free_or z es
last_free_or-some y z [] h = absurd (ground (arith, h))
last_free_or-some y z (e ∷ es) h = elim (Bool-cases e.free) [
  | inl t ↦ rw t refl
  | inr f ↦ rw f (last_free_or-some y z es (rw f at h))
]

-- Where no entry is free, the neighbours among the free blocks do not matter.
pub Chain-none_free :
    (g : ℕ → Option Block) (p pf pf' : Option ℕ) (es : List Entry) (n nf nf' : Option ℕ)
    → none_free es ≡ true
    → Chain g p pf es n nf
    → Chain g p pf' es n nf'
Chain-none_free g p pf pf' [] n nf nf' h c = tt
Chain-none_free g p pf pf' (e ∷ es) n nf nf' h (c, cs) = elim (Bool-cases e.free) [
  | inl t ↦ absurd (ground (arith, h, t))
  | inr f ↦ (
    rw f (rw f at c),
    rw f (Chain-none_free g (some e.addr) pf pf' es n nf nf' (rw f at h) (rw f at cs)),
  )
]
