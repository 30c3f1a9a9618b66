-- ===== src/FragmentAllocator/Take.antt =====
-- allocate() of include/core/FragmentFreeAllocator.h on the list of blocks.
use supercell_common.Common.{
  ℕ, ◌≡◌, refl, sym, ◌∙◌, true, false, Option, none, some, List, [], inl, inr, ◌∷◌, ◌++◌, arith,
  if◌then◌else◌, Result, ok, Store, find, put, adjust_if, ◌==◌, eq→==, ne→ne, add_size, sub_size,
  Bool-cases,
}
use supercell_common.AtomicQueue.{has}
use supercell_common.FragmentAllocator.Lists.{
  Block, Blocks, points_to, insert_left, through, unlink, take_block, set_next_block,
  set_prev_block,
}
use supercell_common.FragmentAllocator.Chain.{
  Entry, addrs, first_or, last_or, first_free_or, last_free_or, first_or-append,
  first_free_or-append, block_of,
}
use supercell_common.FragmentAllocator.Pieces.{Pieces, keys}
use supercell_common.FragmentAllocator.Parts.{IsList, IsList-Pieces, Pieces-IsList}
use supercell_common.FragmentAllocator.Steps.{
  Gives, new_block, link-left, link-left_free, link-right, link-right_free, load-middle,
  adjust-middle, delete-middle,
}

-- The blocks are the entries in one list, and the two heads are its first and its first free one.
pub record Represents (bs : Blocks) (es : List Entry) : Type 0 where
  pub list : IsList (find bs.store) es
  pub first : bs.head ≡ first_or none es
  pub first_free : bs.head_free ≡ first_free_or none es

-- A run ends with blocks that are the entries.
pub record Becomes (r : Result Blocks) (es : List Entry) : Type 0 where
  pub after : Blocks
  pub runs : r ≡ ok after
  pub represents : Represents after es

pub Becomes-from : {r r' : Result Blocks} {es : List Entry} → r ≡ r' → Becomes r' es → Becomes r es
Becomes-from e B = record { after = B.after; runs = e ∙ B.runs; represents = B.represents }

-- A head that is moved on from the block at `x`, which is behind `ls`.
pub head-moved :
    (ls : List Entry) (x : ℕ) (q o : Option ℕ)
    → has (addrs ls) x ≡ false
    → o ≡ first_or (some x) ls
    → (if points_to o x then q else o) ≡ first_or q ls
head-moved [] x q o a e = rw (e, eq→== x x refl) refl
head-moved (l ∷ ls) x q o a e = rw (e, ne→ne l.addr x (λ z. absurd (ground (arith, a, z)))) refl

pub head_free-moved :
    (ls : List Entry) (x : ℕ) (q o : Option ℕ)
    → has (addrs ls) x ≡ false
    → o ≡ first_free_or (some x) ls
    → (if points_to o x then q else o) ≡ first_free_or q ls
head_free-moved [] x q o a e = rw (e, eq→== x x refl) refl
head_free-moved (l ∷ ls) x q o a e = elim (Bool-cases l.free) [
  | inl t ↦
      let e' : o ≡ some l.addr = rw t at e in
      rw (t, e', ne→ne l.addr x (λ z. absurd (ground (arith, a, z)))) refl
  | inr f ↦ rw f (head_free-moved ls x q o (ground (arith, a)) (rw f at e))
]

-- The new block before it has a reference.
abbrev pub taken : ℕ → ℕ → ℕ → Entry
taken new off size = record {
  addr = new;
  free = false;
  offset = off;
  size = size;
  reference = none;
}

abbrev pub free_entry : ℕ → ℕ → ℕ → Option ℕ → Entry
free_entry a off size r = record { addr = a; free = true; offset = off; size = size; reference = r }

-- What becomes of a free block of which `size` bytes are taken.
abbrev pub taken_from : ℕ → ℕ → Entry → List Entry
taken_from new size e =
    if e.size == size
    then taken new e.offset size ∷ []
    else taken new e.offset size
      ∷ (record e { offset = add_size e.offset size; size = sub_size e.size size })
      ∷ []

pub not-in-left :
    (g : ℕ → Option Block) (ls : List Entry) (n nf : Option ℕ) (x : ℕ) (m : List (ℕ × Block))
    (p pf : Option ℕ) (rs : List Entry)
    → Pieces g ls n nf m p pf rs
    → has (keys m) x ≡ true
    → has (addrs ls) x ≡ false
not-in-left g ls n nf x m p pf rs P i = ground (arith, i, P.left_middle x)

module _ (h : Store Block) (ls rs : List Entry) (new cur off sz : ℕ) (r : Option ℕ) (size : ℕ) where
  insert_left-Gives :
      find h new ≡ none
      → IsList (find h) (ls ++ (free_entry cur off sz r ∷ rs))
      → Gives
          (insert_left new cur size h)
          ls
          (some new)
          (some cur)
          ((new, block_of (taken new off size) (last_or none ls) none (some cur) none)
            ∷ (
              cur,
              block_of
                  (free_entry cur off sz r)
                  (some new)
                  (last_free_or none ls)
                  (first_or none rs)
                  (first_free_or none rs),
            )
            ∷ [])
          (some cur)
          (some cur)
          rs
  unfolding insert_left through
  insert_left-Gives fresh I =
      let e = free_entry cur off sz r in
      let p = last_or none ls in
      let b = block_of e p (last_free_or none ls) (first_or none rs) (first_free_or none rs) in
      let nb = block_of (taken new off size) p none none none in
      let P₀ = IsList-Pieces (find h) ls (e ∷ []) rs I in
      let P₁ = new_block h new nb fresh P₀ in
      let s₂ = link-left (put new nb h) (some new) P₁ in
      let s₃ =
        adjust-middle s₂.after ((new, nb) ∷ []) [] cur b (set_prev_block (some new)) s₂.pieces in
      let s₄ =
        adjust-middle s₃.after [] ((cur, set_prev_block (some new) b) ∷ []) new nb
          (set_next_block (some cur)) s₃.pieces in
      record {
        after = s₄.after;
        runs =
            rw
              (
                load-middle h [] [] cur b P₀,
                load-middle (put new nb h) ((new, nb) ∷ []) [] cur b P₁,
                s₂.runs,
                s₃.runs,
              )
              (s₄.runs);
        pieces = s₄.pieces;
      }

  -- unlink() of the block behind a block that is not free.
  unlink-Gives :
      (hd hf : Option ℕ) (p pf : Option ℕ)
      → Pieces
          (find h)
          ls
          (some new)
          (some cur)
          ((new, block_of (taken new off size) p none (some cur) none)
            ∷ (
              cur,
              block_of
                  (free_entry cur off sz r)
                  (some new)
                  (last_free_or none ls)
                  (first_or none rs)
                  (first_free_or none rs),
            )
            ∷ [])
          (some cur)
          (some cur)
          rs
      → (after : Store Block) × (unlink cur (record { store = h; head_free = hf; head = hd })
          ≡ ok (record {
            store = after;
            head_free = if points_to hf cur then first_free_or none rs else hf;
            head = hd;
          }))
        × Pieces
            (find after)
            ls
            (some new)
            (first_free_or none rs)
            ((new, block_of (taken new off size) p none (first_or none rs) none) ∷ [])
            (some new)
            (last_free_or none ls)
            rs
  unfolding unlink through adjust_if
  unlink-Gives hd hf p pf P₀ =
      let e = free_entry cur off sz r in
      let n = first_or none rs in
      let nf = first_free_or none rs in
      let lf = last_free_or none ls in
      let b = block_of e (some new) lf n nf in
      let nb = block_of (taken new off size) p none (some cur) none in
      let nb' = block_of (taken new off size) p none n none in
      let s₁ = link-left_free h nf P₀ in
      let s₂ = link-right_free s₁.after lf s₁.pieces in
      let s₃ = adjust-middle s₂.after [] ((cur, b) ∷ []) new nb (set_next_block n) s₂.pieces in
      let s₄ = link-right s₃.after (some new) s₃.pieces in
      let s₅ = delete-middle s₄.after ((new, nb') ∷ []) [] cur b s₄.pieces in
      (
        s₅.after,
        rw
            (
              load-middle h ((new, nb) ∷ []) [] cur b P₀,
              s₁.runs,
              load-middle s₁.after ((new, nb) ∷ []) [] cur b s₁.pieces,
              s₂.runs,
              load-middle s₂.after ((new, nb) ∷ []) [] cur b s₂.pieces,
              s₃.runs,
              load-middle s₃.after ((new, nb') ∷ []) [] cur b s₃.pieces,
              s₄.runs,
              s₅.runs,
              load-middle s₄.after ((new, nb') ∷ []) [] cur b s₄.pieces,
            )
            refl,
        s₅.pieces,
      )

-- The block found is split, or taken whole where it is as large as that.
pub take_block-Becomes :
    (bs : Blocks) (ls rs : List Entry) (new cur off sz : ℕ) (r : Option ℕ) (size : ℕ)
    → find bs.store new ≡ none
    → Represents bs (ls ++ (free_entry cur off sz r ∷ rs))
    → Becomes
        (take_block new cur size bs)
        (ls ++ (taken_from new size (free_entry cur off sz r) ++ rs))
unfolding take_block unlink through
take_block-Becomes bs ls rs new cur off sz r size fresh R =
    let e = free_entry cur off sz r in
    let h = bs.store in
    let s₁ = insert_left-Gives h ls rs new cur off sz r size fresh R.list in
    let p = last_or none ls in
    let lf = last_free_or none ls in
    let n = first_or none rs in
    let nf = first_free_or none rs in
    let b = block_of e (some new) lf n nf in
    let nb = block_of (taken new off size) p none (some cur) none in
    let out : has (addrs ls) cur ≡ false =
      not-in-left (find s₁.after) ls (some new) (some cur) cur ((new, nb) ∷ (cur, b) ∷ [])
        (some cur) (some cur) rs s₁.pieces (ground arith) in
    let hd = if points_to bs.head cur then some new else bs.head in
    let first : hd ≡ first_or (some new) ls =
      head-moved ls cur (some new) bs.head out (R.first ∙ first_or-append none ls (e ∷ rs)) in
    let ff : bs.head_free ≡ first_free_or (some cur) ls =
      R.first_free ∙ first_free_or-append none ls (e ∷ rs) in
    let cur-eq = load-middle s₁.after ((new, nb) ∷ []) [] cur b s₁.pieces in
    elim (Bool-cases (sz == size)) [
      | inl t ↦
          let s₂ =
            unlink-Gives s₁.after ls rs new cur off sz r size hd bs.head_free p none s₁.pieces in
          rw t record {
            after = record {
              store = s₂.0;
              head_free = if points_to bs.head_free cur then nf else bs.head_free;
              head = hd;
            };
            runs = rw (s₁.runs, cur-eq, t) (rw cur-eq at (s₂.1));
            represents = record {
              list = Pieces-IsList (find s₂.0) ls (taken new off size ∷ []) rs s₂.2;
              first = first ∙ sym (first_or-append none ls (taken new off size ∷ rs));
              first_free =
                  head_free-moved ls cur nf bs.head_free out ff
                  ∙ sym (first_free_or-append none ls (taken new off size ∷ rs));
            };
          }
      | inr f ↦
          let e' = free_entry cur (add_size off size) (sub_size sz size) r in
          let s₂ =
            adjust-middle s₁.after ((new, nb) ∷ []) [] cur b
              (λ b. record b { offset = add_size b.offset size; size = sub_size b.size size })
              s₁.pieces in
          rw f record {
            after = record { store = s₂.after; head_free = bs.head_free; head = hd };
            runs = rw (s₁.runs, s₂.runs, cur-eq, f) refl;
            represents = record {
              list = Pieces-IsList (find s₂.after) ls (taken new off size ∷ e' ∷ []) rs s₂.pieces;
              first = first ∙ sym (first_or-append none ls (taken new off size ∷ e' ∷ rs));
              first_free = ff ∙ sym (first_free_or-append none ls (taken new off size ∷ e' ∷ rs));
            };
          }
    ]
