-- ===== src/FragmentAllocator/Parts.antt =====
-- The blocks of FragmentAllocator in include/core/FragmentFreeAllocator.h: a block that is new or that
-- is deleted, and the list of all blocks taken apart and put together.
use supercell_common.Common.{
  ℕ, ◌≡◌, refl, ap, false, Option, none, some, List, [], ◌∷◌, ◌++◌, arith, if◌then◌else◌,
}
use supercell_common.AtomicQueue.{has}
use supercell_common.FragmentAllocator.Lists.{Block}
use supercell_common.FragmentAllocator.Chain.{
  Entry, addrs, first_or, last_or, first_free_or, last_free_or, Chain, Distinct, Chain-split,
  Chain-join, block_of,
}
use supercell_common.FragmentAllocator.Pieces.{keys, Cells, Disjoint, Pieces, has-append}

-- All blocks of a store are in one list.
pub record IsList (g : ℕ → Option Block) (es : List Entry) : Type 0 where
  pub chain : Chain g none none es none none
  pub apart : Distinct (addrs es)
  pub nothing_else : (a : ℕ) → has (addrs es) a ≡ false → g a ≡ none

-- The blocks of entries, by their addresses.
abbrev pub cells : Option ℕ → Option ℕ → List Entry → Option ℕ → Option ℕ → List (ℕ × Block)
cells p pf [] n nf = []
cells p pf (e ∷ es) n nf =
    (e.addr, block_of e p pf (first_or n es) (first_free_or nf es))
    ∷ cells (some e.addr) (if e.free then some e.addr else pf) es n nf

keys-cells :
    (p pf : Option ℕ) (es : List Entry) (n nf : Option ℕ) → keys (cells p pf es n nf) ≡ addrs es
keys-cells p pf [] n nf = refl
keys-cells p pf (e ∷ es) n nf =
    ap (λ t. e.addr ∷ t) (keys-cells (some e.addr) (if e.free then some e.addr else pf) es n nf)

Chain-Cells :
    (g : ℕ → Option Block) (p pf : Option ℕ) (es : List Entry) (n nf : Option ℕ)
    → Chain g p pf es n nf
    → Cells g (cells p pf es n nf)
Chain-Cells g p pf [] n nf c = tt
Chain-Cells g p pf (e ∷ es) n nf (x, c) =
    (x, Chain-Cells g (some e.addr) (if e.free then some e.addr else pf) es n nf c)

Cells-Chain :
    (g : ℕ → Option Block) (p pf : Option ℕ) (es : List Entry) (n nf : Option ℕ)
    → Cells g (cells p pf es n nf)
    → Chain g p pf es n nf
Cells-Chain g p pf [] n nf c = tt
Cells-Chain g p pf (e ∷ es) n nf (x, c) =
    (x, Cells-Chain g (some e.addr) (if e.free then some e.addr else pf) es n nf c)

addrs-append : (ls rs : List Entry) → addrs (ls ++ rs) ≡ addrs ls ++ addrs rs
addrs-append [] rs = refl
addrs-append (l ∷ ls) rs = ap (λ t. l.addr ∷ t) (addrs-append ls rs)

keys-append : (m m' : List (ℕ × Block)) → keys (m ++ m') ≡ keys m ++ keys m'
keys-append [] m' = refl
keys-append (k ∷ m) m' = ap (λ t. k.0 ∷ t) (keys-append m m')

has-false-left : (xs ys : List ℕ) (a : ℕ) → has (xs ++ ys) a ≡ false → has xs a ≡ false
has-false-left xs ys a h = ground (arith, has-append xs ys a, h)

has-false-right : (xs ys : List ℕ) (a : ℕ) → has (xs ++ ys) a ≡ false → has ys a ≡ false
has-false-right xs ys a h = ground (arith, has-append xs ys a, h)

has-append-false :
    (xs ys : List ℕ) (a : ℕ) → has xs a ≡ false → has ys a ≡ false → has (xs ++ ys) a ≡ false
has-append-false xs ys a h k = ground (arith, has-append xs ys a, h, k)

Distinct-split :
    (xs ys : List ℕ) → Distinct (xs ++ ys) → (Distinct xs × Distinct ys) × Disjoint xs ys
Distinct-split [] ys d = ((tt, d), λ a h. absurd (ground (arith, h)))
Distinct-split (x ∷ xs) ys (d, ds) =
    let ((l, r), apart) = Distinct-split xs ys ds in
    (
      ((has-false-left xs ys x d, l), r),
      λ a h. ground (arith, h, apart a, has-false-right xs ys x d),
    )

Distinct-join : (xs ys : List ℕ) → Distinct xs → Distinct ys → Disjoint xs ys → Distinct (xs ++ ys)
Distinct-join [] ys l r apart = r
Distinct-join (x ∷ xs) ys (d, l) r apart = (
  has-append-false xs ys x d (apart x (ground arith)),
  Distinct-join xs ys l r (λ a h. apart a (ground (arith, h))),
)

module _ (g : ℕ → Option Block) (ls ms rs : List Entry) where
  -- The list of all blocks, taken apart around `ms`.
  pub IsList-Pieces :
      IsList g (ls ++ (ms ++ rs))
      → Pieces g ls
          (first_or none (ms ++ rs))
          (first_free_or none (ms ++ rs))
          (cells
            (last_or none ls)
            (last_free_or none ls)
            ms
            (first_or none rs)
            (first_free_or none rs))
          (last_or (last_or none ls) ms)
          (last_free_or (last_free_or none ls) ms)
          rs
  IsList-Pieces I =
      let p = last_or none ls in
      let pf = last_free_or none ls in
      let (l, mr) = Chain-split g none none ls (ms ++ rs) none none I.chain in
      let (m, r) = Chain-split g p pf ms rs none none mr in
      let k = keys-cells p pf ms (first_or none rs) (first_free_or none rs) in
      let d : Distinct (addrs ls ++ (addrs ms ++ addrs rs)) =
        rw (addrs-append ls (ms ++ rs), addrs-append ms rs) at (I.apart) in
      let ((dl, dmr), lmr) = Distinct-split (addrs ls) (addrs ms ++ addrs rs) d in
      let ((dm, dr), mr') = Distinct-split (addrs ms) (addrs rs) dmr in
      record {
        left = l;
        middle = Chain-Cells g p pf ms (first_or none rs) (first_free_or none rs) m;
        right = r;
        left_apart = dl;
        middle_apart = rw k dm;
        right_apart = dr;
        left_middle = λ a h. rw k (has-false-left (addrs ms) (addrs rs) a (lmr a h));
        left_right = λ a h. has-false-right (addrs ms) (addrs rs) a (lmr a h);
        middle_right = λ a h. mr' a (rw k at h);
        nothing_else = λ a x y z. I.nothing_else a (
            rw (addrs-append ls (ms ++ rs), addrs-append ms rs)
              (has-append-false (addrs ls) (addrs ms ++ addrs rs) a x
                (has-append-false (addrs ms) (addrs rs) a (rw k at y) z)));
      }

  -- The list put together again.
  pub Pieces-IsList :
      Pieces g ls
        (first_or none (ms ++ rs))
        (first_free_or none (ms ++ rs))
        (cells
          (last_or none ls)
          (last_free_or none ls)
          ms
          (first_or none rs)
          (first_free_or none rs))
        (last_or (last_or none ls) ms)
        (last_free_or (last_free_or none ls) ms)
        rs
      → IsList g (ls ++ (ms ++ rs))
  Pieces-IsList P =
      let p = last_or none ls in
      let pf = last_free_or none ls in
      let k = keys-cells p pf ms (first_or none rs) (first_free_or none rs) in
      let dmr : Distinct (addrs ms ++ addrs rs) =
        Distinct-join (addrs ms) (addrs rs) (rw k at (P.middle_apart)) P.right_apart
          (λ a h. P.middle_right a (rw k h)) in
      record {
        chain = Chain-join g none none ls (ms ++ rs) none none P.left (
            Chain-join g p pf ms rs none none
              (Cells-Chain g p pf ms (first_or none rs) (first_free_or none rs) P.middle) P.right);
        apart =
            rw (addrs-append ls (ms ++ rs), addrs-append ms rs)
              (Distinct-join (addrs ls) (addrs ms ++ addrs rs) P.left_apart dmr (λ a h.
                has-append-false (addrs ms) (addrs rs) a (rw k at (P.left_middle a h))
                  (P.left_right a h)));
        nothing_else = λ a h.
            let h' : has (addrs ls ++ (addrs ms ++ addrs rs)) a ≡ false =
              rw (addrs-append ls (ms ++ rs), addrs-append ms rs) at h in
            let t = has-false-right (addrs ls) (addrs ms ++ addrs rs) a h' in
            P.nothing_else a (has-false-left (addrs ls) (addrs ms ++ addrs rs) a h')
              (rw k (has-false-left (addrs ms) (addrs rs) a t))
              (has-false-right (addrs ms) (addrs rs) a t);
      }
