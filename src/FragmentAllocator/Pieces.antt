-- ===== src/FragmentAllocator/Pieces.antt =====
-- The blocks of FragmentAllocator in include/core/FragmentFreeAllocator.h while an operation works on
-- some of them: the list on their left, the blocks themselves, and the list on their right.
use supercell_common.Common.{
  ℕ, ◌≡◌, ◌≢◌, refl, sym, ap, ◌∙◌, true, false, Option, none, some, List, [], ◌∷◌, ◌++◌, arith,
  put_at, put_at-here, put_at-other, if◌then◌else◌, ◌==◌, inl, inr, eq_or_ne, ne→ne,
}
use supercell_common.AtomicQueue.{has}
use supercell_common.FragmentAllocator.Lists.{Block}
use supercell_common.FragmentAllocator.Chain.{Entry, addrs, Chain, Distinct, Chain-frame}

abbrev pub keys : List (ℕ × Block) → List ℕ
keys [] = []
keys ((a, b) ∷ m) = a ∷ keys m

abbrev pub Cells : (ℕ → Option Block) → List (ℕ × Block) → Type 0
Cells g [] = Unit
Cells g ((a, b) ∷ m) = (g a ≡ some b) × Cells g m

abbrev pub Disjoint : List ℕ → List ℕ → Type 0
Disjoint xs ys = (a : ℕ) → has xs a ≡ true → has ys a ≡ false

pub record Pieces (g : ℕ → Option Block) (ls : List Entry) (n nf : Option ℕ)
    (mid : List (ℕ × Block)) (p pf : Option ℕ) (rs : List Entry) : Type 0 where
  pub left : Chain g none none ls n nf
  pub middle : Cells g mid
  pub right : Chain g p pf rs none none
  pub left_apart : Distinct (addrs ls)
  pub middle_apart : Distinct (keys mid)
  pub right_apart : Distinct (addrs rs)
  pub left_middle : Disjoint (addrs ls) (keys mid)
  pub left_right : Disjoint (addrs ls) (addrs rs)
  pub middle_right : Disjoint (keys mid) (addrs rs)
  pub nothing_else :
      (a : ℕ)
      → has (addrs ls) a ≡ false
      → has (keys mid) a ≡ false
      → has (addrs rs) a ≡ false
      → g a ≡ none

pub has-ne : (xs : List ℕ) (x a : ℕ) → has xs x ≡ true → has xs a ≡ false → a ≢ x
has-ne xs x a i o e = absurd (ground (arith, i, o, ap (has xs) e))

pub has-append : (xs ys : List ℕ) (a : ℕ) → has (xs ++ ys) a ≡ (if has xs a then true else has ys a)
has-append [] ys a = refl
has-append (x ∷ xs) ys a = ground (arith, has-append xs ys a)

pub Cells-frame :
    (g g' : ℕ → Option Block) (m : List (ℕ × Block))
    → ((a : ℕ) → has (keys m) a ≡ true → g' a ≡ g a)
    → Cells g m
    → Cells g' m
Cells-frame g g' [] same c = tt
Cells-frame g g' ((a, b) ∷ m) same (x, c) =
    (same a (ground arith) ∙ x, Cells-frame g g' m (λ a i. same a (ground (arith, i))) c)

pub Cells-at :
    (g : ℕ → Option Block) (m m' : List (ℕ × Block)) (a : ℕ) (b : Block)
    → Cells g (m ++ (a, b) ∷ m')
    → g a ≡ some b
Cells-at g [] m' a b (x, c) = x
Cells-at g (k ∷ m) m' a b (x, c) = Cells-at g m m' a b c

keys-replace :
    (m m' : List (ℕ × Block)) (a : ℕ) (b b' : Block)
    → keys (m ++ (a, b) ∷ m') ≡ keys (m ++ (a, b') ∷ m')
keys-replace [] m' a b b' = refl
keys-replace (k ∷ m) m' a b b' = ap (λ t. k.0 ∷ t) (keys-replace m m' a b b')

keys-has : (m m' : List (ℕ × Block)) (a : ℕ) (b : Block) → has (keys (m ++ (a, b) ∷ m')) a ≡ true
keys-has [] m' a b = ground arith
keys-has (k ∷ m) m' a b = ground (arith, keys-has m m' a b)

Cells-put :
    (g : ℕ → Option Block) (m m' : List (ℕ × Block)) (a : ℕ) (b b' : Block)
    → Distinct (keys (m ++ (a, b) ∷ m'))
    → Cells g (m ++ (a, b) ∷ m')
    → Cells (put_at a (some b') g) (m ++ (a, b') ∷ m')
Cells-put g [] m' a b b' (d, ds) (x, c) = (
  put_at-here a (some b') g,
  Cells-frame g (put_at a (some b') g) m'
      (λ y i. put_at-other a y (some b') g (λ e. has-ne (keys m') y a i d (sym e))) c,
)
Cells-put g (k ∷ m) m' a b b' (d, ds) (x, c) = (
  put_at-other a (k.0) (some b') g (has-ne (keys (m ++ (a, b) ∷ m')) a (k.0) (keys-has m m' a b) d)
      ∙ x,
  Cells-put g m m' a b b' ds c,
)

-- The keys without one of them.
has-keys :
    (m m' : List (ℕ × Block)) (a : ℕ) (b : Block) (y : ℕ)
    → has (keys (m ++ (a, b) ∷ m')) y ≡ (if y == a then true else has (keys (m ++ m')) y)
has-keys [] m' a b y = refl
has-keys (k ∷ m) m' a b y = ground (arith, has-keys m m' a b y)

Distinct-drop :
    (m m' : List (ℕ × Block)) (a : ℕ) (b : Block)
    → Distinct (keys (m ++ (a, b) ∷ m'))
    → Distinct (keys (m ++ m'))
Distinct-drop [] m' a b (d, ds) = ds
Distinct-drop (k ∷ m) m' a b (d, ds) =
    (ground (arith, has-keys m m' a b (k.0), d), Distinct-drop m m' a b ds)

Cells-drop :
    (g : ℕ → Option Block) (m m' : List (ℕ × Block)) (a : ℕ) (b : Block)
    → Distinct (keys (m ++ (a, b) ∷ m'))
    → Cells g (m ++ (a, b) ∷ m')
    → Cells (put_at a none g) (m ++ m')
Cells-drop g [] m' a b (d, ds) (x, c) =
    Cells-frame g (put_at a none g) m'
      (λ y i. put_at-other a y none g (λ e. has-ne (keys m') y a i d (sym e))) c
Cells-drop g (k ∷ m) m' a b (d, ds) (x, c) = (
  put_at-other a (k.0) none g (has-ne (keys (m ++ (a, b) ∷ m')) a (k.0) (keys-has m m' a b) d) ∙ x,
  Cells-drop g m m' a b ds c,
)

module _ {g : ℕ → Option Block} {ls rs : List Entry} {n nf p pf : Option ℕ} where
  -- A block of the left, of the right and of the middle is written.
  pub put-left :
      {mid : List (ℕ × Block)} (n' nf' : Option ℕ) (x : ℕ) (o : Block)
      → Pieces g ls n nf mid p pf rs
      → has (addrs ls) x ≡ true
      → Chain (put_at x (some o) g) none none ls n' nf'
      → Pieces (put_at x (some o) g) ls n' nf' mid p pf rs
  put-left {mid} n' nf' x o P i c = record {
    left = c;
    middle =
        Cells-frame g (put_at x (some o) g) mid
          (λ a j.
            put_at-other x a (some o) g (λ e. has-ne (keys mid) a x j (P.left_middle x i) (sym e)))
          P.middle;
    right =
        Chain-frame g (put_at x (some o) g) p pf rs none none
          (λ a j.
            put_at-other x a (some o) g (λ e. has-ne (addrs rs) a x j (P.left_right x i) (sym e)))
          P.right;
    left_apart = P.left_apart;
    middle_apart = P.middle_apart;
    right_apart = P.right_apart;
    left_middle = P.left_middle;
    left_right = P.left_right;
    middle_right = P.middle_right;
    nothing_else =
        λ a l m r. put_at-other x a (some o) g (has-ne (addrs ls) x a i l) ∙ P.nothing_else a l m r;
  }

  pub put-right :
      {mid : List (ℕ × Block)} (p' pf' : Option ℕ) (x : ℕ) (o : Block)
      → Pieces g ls n nf mid p pf rs
      → has (addrs rs) x ≡ true
      → Chain (put_at x (some o) g) p' pf' rs none none
      → Pieces (put_at x (some o) g) ls n nf mid p' pf' rs
  put-right {mid} p' pf' x o P i c = record {
    left =
        Chain-frame g (put_at x (some o) g) none none ls n nf
          (λ a j. put_at-other x a (some o) g (λ e. has-ne (addrs rs) x a i (P.left_right a j) e))
          P.left;
    middle =
        Cells-frame g (put_at x (some o) g) mid
          (λ a j. put_at-other x a (some o) g (λ e. has-ne (addrs rs) x a i (P.middle_right a j) e))
          P.middle;
    right = c;
    left_apart = P.left_apart;
    middle_apart = P.middle_apart;
    right_apart = P.right_apart;
    left_middle = P.left_middle;
    left_right = P.left_right;
    middle_right = P.middle_right;
    nothing_else =
        λ a l m r. put_at-other x a (some o) g (has-ne (addrs rs) x a i r) ∙ P.nothing_else a l m r;
  }

  pub put-middle :
      (m m' : List (ℕ × Block)) (a : ℕ) (b b' : Block)
      → Pieces g ls n nf (m ++ (a, b) ∷ m') p pf rs
      → Pieces (put_at a (some b') g) ls n nf (m ++ (a, b') ∷ m') p pf rs
  put-middle m m' a b b' P =
      let i : has (keys (m ++ (a, b) ∷ m')) a ≡ true = keys-has m m' a b in
      let k : keys (m ++ (a, b') ∷ m') ≡ keys (m ++ (a, b) ∷ m') = keys-replace m m' a b' b in
      record {
        left =
            Chain-frame g (put_at a (some b') g) none none ls n nf
              (λ y j.
                put_at-other a y (some b') g
                  (λ e. has-ne (keys (m ++ (a, b) ∷ m')) a y i (P.left_middle y j) e))
              P.left;
        middle = Cells-put g m m' a b b' P.middle_apart P.middle;
        right =
            Chain-frame g (put_at a (some b') g) p pf rs none none
              (λ y j.
                put_at-other a y (some b') g
                  (λ e. has-ne (addrs rs) y a j (P.middle_right a i) (sym e)))
              P.right;
        left_apart = P.left_apart;
        middle_apart = rw k (P.middle_apart);
        right_apart = P.right_apart;
        left_middle = λ y j. rw k (P.left_middle y j);
        left_right = P.left_right;
        middle_right = λ y j. P.middle_right y (rw k at j);
        nothing_else = λ y l j r.
            put_at-other a y (some b') g (has-ne (keys (m ++ (a, b) ∷ m')) a y i (rw k at j))
            ∙ P.nothing_else y l (rw k at j) r;
      }

  pub drop-middle :
      (m m' : List (ℕ × Block)) (a : ℕ) (b : Block)
      → Pieces g ls n nf (m ++ (a, b) ∷ m') p pf rs
      → Pieces (put_at a none g) ls n nf (m ++ m') p pf rs
  drop-middle m m' a b P =
      let i : has (keys (m ++ (a, b) ∷ m')) a ≡ true = keys-has m m' a b in
      let ks = keys (m ++ (a, b) ∷ m') in
      let k = has-keys m m' a b in
      let frame : (y : ℕ) → y ≢ a → put_at a none g y ≡ g y = λ y ne. put_at-other a y none g ne in
      record {
        left =
            Chain-frame g (put_at a none g) none none ls n nf
              (λ y j. frame y (λ e. has-ne ks a y i (P.left_middle y j) e)) P.left;
        middle = Cells-drop g m m' a b P.middle_apart P.middle;
        right =
            Chain-frame g (put_at a none g) p pf rs none none
              (λ y j. frame y (λ e. has-ne (addrs rs) y a j (P.middle_right a i) (sym e))) P.right;
        left_apart = P.left_apart;
        middle_apart = Distinct-drop m m' a b P.middle_apart;
        right_apart = P.right_apart;
        left_middle = λ y j. ground (arith, k y, P.left_middle y j);
        left_right = P.left_right;
        middle_right = λ y j. P.middle_right y (ground (arith, k y, j));
        nothing_else = λ y l j r. elim (eq_or_ne y a) [
          | inl e ↦ rw e (put_at-here a none g)
          | inr ne ↦ frame y ne ∙ P.nothing_else y l (k y ∙ rw (ne→ne y a ne) j) r
        ];
      }
