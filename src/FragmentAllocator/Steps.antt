-- ===== src/FragmentAllocator/Steps.antt =====
-- The assignments of the operations of FragmentAllocator in include/core/FragmentFreeAllocator.h, on
-- blocks that are in pieces.
use supercell_common.Common.{
  ℕ, ◌≡◌, refl, sym, ap, ◌∙◌, Option, none, some, List, inl, inr, ◌∷◌, ◌++◌, arith, put_at,
  put_at-here, put_at-other, Result, ok, Store, find, put, drop_at, load, adjust, adjust_if, delete,
  find-put, find-drop, load-some, adjust-some, delete-some,
}
use supercell_common.AtomicQueue.{has}
use supercell_common.FragmentAllocator.Lists.{
  Block, set_next_block, set_prev_block, set_next_free, set_prev_free,
}
use supercell_common.FragmentAllocator.Chain.{
  Entry, addrs, first_or, last_or, first_free_or, last_free_or, Chain, Chain-frame, Chain-none_free,
}
use supercell_common.FragmentAllocator.Ends.{
  IsEnd, last_or-IsEnd, first_or-IsEnd, first_free_or-IsEnd, last_free_or-IsEnd,
}
use supercell_common.FragmentAllocator.Pieces.{
  keys, Pieces, has-ne, Cells-frame, Cells-at, put-left, put-right, put-middle, drop-middle,
}
use supercell_common.FragmentAllocator.Absent.{
  Option-cases, Chain-fresh, Cells-fresh, first_free_or-none, Chain-last_or, Chain-first_or,
  last_free_or-none,
}

-- A run ends with a store whose blocks are in these pieces.
pub record Gives (r : Result (Store Block)) (ls : List Entry) (n nf : Option ℕ)
    (mid : List (ℕ × Block)) (p pf : Option ℕ) (rs : List Entry) : Type 0 where
  pub after : Store Block
  pub runs : r ≡ ok after
  pub pieces : Pieces (find after) ls n nf mid p pf rs

module _ (h : Store Block) {ls rs : List Entry} {n nf p pf : Option ℕ}
    {mid : List (ℕ × Block)} where
  -- A new block.
  pub new_block :
      (x : ℕ) (o : Block)
      → find h x ≡ none
      → Pieces (find h) ls n nf mid p pf rs
      → Pieces (find (put x o h)) ls n nf ((x, o) ∷ mid) p pf rs
  new_block x o e P =
      let l = Chain-fresh (find h) none none ls n nf x P.left e in
      let m = Cells-fresh (find h) mid x P.middle e in
      let r = Chain-fresh (find h) p pf rs none none x P.right e in
      rw (find-put x o h) record {
        left =
            Chain-frame (find h) (put_at x (some o) (find h)) none none ls n nf
              (λ a j. put_at-other x a (some o) (find h) (λ z. has-ne (addrs ls) a x j l (sym z)))
              P.left;
        middle = (
          put_at-here x (some o) (find h),
          Cells-frame (find h) (put_at x (some o) (find h)) mid
              (λ a j. put_at-other x a (some o) (find h) (λ z. has-ne (keys mid) a x j m (sym z)))
              P.middle,
        );
        right =
            Chain-frame (find h) (put_at x (some o) (find h)) p pf rs none none
              (λ a j. put_at-other x a (some o) (find h) (λ z. has-ne (addrs rs) a x j r (sym z)))
              P.right;
        left_apart = P.left_apart;
        middle_apart = (m, P.middle_apart);
        right_apart = P.right_apart;
        left_middle = λ a j. ground (arith, j, l, ap (has (addrs ls)), P.left_middle a j);
        left_right = P.left_right;
        middle_right = λ a j. ground (arith, j, r, ap (has (addrs rs)), P.middle_right a);
        nothing_else = λ a i j k.
            put_at-other x a (some o) (find h) (λ z. absurd (ground (arith, j, z)))
            ∙ P.nothing_else a i (ground (arith, j)) k;
      }

  pub left-Chain :
      {n' nf' : Option ℕ}
      → Pieces (find h) ls n nf mid p pf rs
      → Chain (find h) none none ls n' nf'
      → Pieces (find h) ls n' nf' mid p pf rs
  left-Chain P c = record {
    left = c;
    right = P.right;
    middle = P.middle;
    left_apart = P.left_apart;
    middle_apart = P.middle_apart;
    right_apart = P.right_apart;
    left_middle = P.left_middle;
    left_right = P.left_right;
    middle_right = P.middle_right;
    nothing_else = P.nothing_else;
  }

  pub right-Chain :
      {p' pf' : Option ℕ}
      → Pieces (find h) ls n nf mid p pf rs
      → Chain (find h) p' pf' rs none none
      → Pieces (find h) ls n nf mid p' pf' rs
  right-Chain P c = record {
    left = P.left;
    right = c;
    middle = P.middle;
    left_apart = P.left_apart;
    middle_apart = P.middle_apart;
    right_apart = P.right_apart;
    left_middle = P.left_middle;
    left_right = P.left_right;
    middle_right = P.middle_right;
    nothing_else = P.nothing_else;
  }

  adjust-left :
      (x : ℕ) (f : Option ℕ → Block → Block) (C : Option ℕ → (ℕ → Option Block) → Type 0)
      (q n' nf' : Option ℕ)
      → Pieces (find h) ls n nf mid p pf rs
      → IsEnd (find h) ls x f C
      → ((g : ℕ → Option Block) → C q g → Chain g none none ls n' nf')
      → Gives (adjust (some x) (f q) h) ls n' nf' mid p pf rs
  adjust-left x f C q n' nf' P E c = record {
    after = put x (f q E.block) h;
    runs = adjust-some h x E.block (f q) E.there;
    pieces = rw (find-put x (f q E.block) h) (
        put-left n' nf' x (f q E.block) P E.inside
          (c (put_at x (some (f q E.block)) (find h)) (E.relinked q)));
  }

  adjust-right :
      (x : ℕ) (f : Option ℕ → Block → Block) (C : Option ℕ → (ℕ → Option Block) → Type 0)
      (q p' pf' : Option ℕ)
      → Pieces (find h) ls n nf mid p pf rs
      → IsEnd (find h) rs x f C
      → ((g : ℕ → Option Block) → C q g → Chain g p' pf' rs none none)
      → Gives (adjust (some x) (f q) h) ls n nf mid p' pf' rs
  adjust-right x f C q p' pf' P E c = record {
    after = put x (f q E.block) h;
    runs = adjust-some h x E.block (f q) E.there;
    pieces = rw (find-put x (f q E.block) h) (
        put-right p' pf' x (f q E.block) P E.inside
          (c (put_at x (some (f q E.block)) (find h)) (E.relinked q)));
  }

  -- if (pointer) pointer->link = ..., for the four links at the ends.
  pub link-left :
      (q : Option ℕ)
      → Pieces (find h) ls n nf mid p pf rs
      → Gives (adjust_if (last_or none ls) (set_next_block q) h) ls q nf mid p pf rs
  unfolding adjust_if
  link-left q P = elim (Option-cases (last_or none ls)) [
    | inl e ↦ rw e record {
      after = h;
      runs = refl;
      pieces = left-Chain P (Chain-last_or (find h) none none ls n q nf e P.left);
    }
    | inr (x, e) ↦ rw e (
        adjust-left x set_next_block (λ q g. Chain g none none ls q nf) q q nf P
          (last_or-IsEnd (find h) none none ls n nf x P.left P.left_apart e) (λ g c. c))
  ]

  pub link-left_free :
      (q : Option ℕ)
      → Pieces (find h) ls n nf mid p pf rs
      → Gives (adjust_if (last_free_or none ls) (set_next_free q) h) ls n q mid p pf rs
  unfolding adjust_if
  link-left_free q P = elim (Option-cases (last_free_or none ls)) [
    | inl e ↦ rw e record {
      after = h;
      runs = refl;
      pieces =
          left-Chain P
            (Chain-none_free (find h) none none none ls n nf q (last_free_or-none ls e) P.left);
    }
    | inr (x, e) ↦ rw e (
        adjust-left x set_next_free (λ q g. Chain g none none ls n q) q n q P
          (last_free_or-IsEnd (find h) none none ls n nf x P.left P.left_apart e) (λ g c. c))
  ]

  pub link-right :
      (q : Option ℕ)
      → Pieces (find h) ls n nf mid p pf rs
      → Gives (adjust_if (first_or none rs) (set_prev_block q) h) ls n nf mid q pf rs
  unfolding adjust_if
  link-right q P = elim (Option-cases (first_or none rs)) [
    | inl e ↦ rw e record {
      after = h;
      runs = refl;
      pieces = right-Chain P (Chain-first_or (find h) p q pf rs none none e P.right);
    }
    | inr (x, e) ↦ rw e (
        adjust-right x set_prev_block (λ q g. Chain g q pf rs none none) q q pf P
          (first_or-IsEnd (find h) p pf rs none none x P.right P.right_apart e) (λ g c. c))
  ]

  pub link-right_free :
      (q : Option ℕ)
      → Pieces (find h) ls n nf mid p pf rs
      → Gives (adjust_if (first_free_or none rs) (set_prev_free q) h) ls n nf mid p q rs
  unfolding adjust_if
  link-right_free q P = elim (Option-cases (first_free_or none rs)) [
    | inl e ↦ rw e record {
      after = h;
      runs = refl;
      pieces =
          right-Chain P
            (Chain-none_free (find h) p pf q rs none none none (first_free_or-none rs e) P.right);
    }
    | inr (x, e) ↦ rw e (
        adjust-right x set_prev_free (λ q g. Chain g p q rs none none) q p q P
          (first_free_or-IsEnd (find h) p pf rs none none x P.right P.right_apart e) (λ g c. c))
  ]

module _ (h : Store Block) {ls rs : List Entry} {n nf p pf : Option ℕ} where
  -- A block of the middle is read and written.
  pub load-middle :
      (m m' : List (ℕ × Block)) (a : ℕ) (b : Block)
      → Pieces (find h) ls n nf (m ++ (a, b) ∷ m') p pf rs
      → load h (some a) ≡ ok b
  load-middle m m' a b P = load-some h a b (Cells-at (find h) m m' a b P.middle)

  pub adjust-middle :
      (m m' : List (ℕ × Block)) (a : ℕ) (b : Block) (f : Block → Block)
      → Pieces (find h) ls n nf (m ++ (a, b) ∷ m') p pf rs
      → Gives (adjust (some a) f h) ls n nf (m ++ (a, f b) ∷ m') p pf rs
  adjust-middle m m' a b f P = record {
    after = put a (f b) h;
    runs = adjust-some h a b f (Cells-at (find h) m m' a b P.middle);
    pieces = rw (find-put a (f b) h) (put-middle m m' a b (f b) P);
  }

  pub delete-middle :
      (m m' : List (ℕ × Block)) (a : ℕ) (b : Block)
      → Pieces (find h) ls n nf (m ++ (a, b) ∷ m') p pf rs
      → Gives (delete a h) ls n nf (m ++ m') p pf rs
  delete-middle m m' a b P = record {
    after = drop_at a h;
    runs = delete-some h a b (Cells-at (find h) m m' a b P.middle);
    pieces = rw (find-drop a h) (drop-middle m m' a b P);
  }
