-- ===== src/FragmentAllocator/Merge.antt =====
-- deallocate() of include/core/FragmentFreeAllocator.h where both neighbours of the block are free.
use supercell_common.Common.{
  ℕ, ◌≡◌, refl, sym, ap, ◌∙◌, true, false, Option, none, some, List, [], inl, inr, ◌∷◌, ◌++◌, arith,
  if◌then◌else◌, ok, Store, find, load, adjust, adjust_if, delete, add_size, Bool-cases,
}
use supercell_common.AtomicQueue.{has}
use supercell_common.FragmentAllocator.Lists.{
  Block, Blocks, points_to, is_null, through, set_next_block, set_prev_block, set_next_free,
  set_prev_free,
}
use supercell_common.FragmentAllocator.Joins.{merge_both}
use supercell_common.FragmentAllocator.Chain.{
  Entry, addrs, first_or, last_or, first_free_or, last_free_or, first_or-append,
  first_free_or-append, block_of,
}
use supercell_common.FragmentAllocator.Pieces.{Pieces}
use supercell_common.FragmentAllocator.Parts.{IsList-Pieces, Pieces-IsList}
use supercell_common.FragmentAllocator.Steps.{
  link-left, link-left_free, link-right, link-right_free, load-middle, adjust-middle, delete-middle,
}
use supercell_common.FragmentAllocator.Take.{
  Represents, Becomes, head-moved, head_free-moved, free_entry, not-in-left,
}

abbrev pub used_entry : ℕ → ℕ → ℕ → Option ℕ → Entry
used_entry a off size r = record {
  addr = a;
  free = false;
  offset = off;
  size = size;
  reference = r;
}

pub first_free-not-null : (x : ℕ) (ls : List Entry) → is_null (first_free_or (some x) ls) ≡ false
first_free-not-null x [] = refl
first_free-not-null x (l ∷ ls) = elim (Bool-cases l.free) [
  | inl t ↦ rw t refl
  | inr f ↦ rw f (first_free-not-null x ls)
]

merge_both-runs :
    (bs : Blocks) (prev cur next : ℕ) {l r : Block} {h₁ h₂ h₃ h₄ h₅ h₆ h₇ h₈ : Store Block}
    → is_null bs.head_free ≡ false
    → load bs.store (some prev) ≡ ok l
    → load bs.store (some next) ≡ ok r
    → adjust
        (some cur)
        (λ b. record b {
          prev_free = l.prev_free;
          next_free = r.next_free;
          prev_block = l.prev_block;
          next_block = r.next_block;
        })
        bs.store
      ≡ ok h₁
    → load h₁ (some prev) ≡ ok l
    → adjust_if l.prev_free (set_next_free (some cur)) h₁ ≡ ok h₂
    → load h₂ (some next) ≡ ok r
    → adjust_if r.next_free (set_prev_free (some cur)) h₂ ≡ ok h₃
    → load h₃ (some prev) ≡ ok l
    → adjust_if l.prev_block (set_next_block (some cur)) h₃ ≡ ok h₄
    → load h₄ (some next) ≡ ok r
    → adjust_if r.next_block (set_prev_block (some cur)) h₄ ≡ ok h₅
    → load h₅ (some prev) ≡ ok l
    → load h₅ (some next) ≡ ok r
    → adjust
        (some cur)
        (λ b. record b {
          free = true;
          offset = l.offset;
          size = add_size (add_size l.size b.size) r.size;
        })
        h₅
      ≡ ok h₆
    → delete prev h₆ ≡ ok h₇
    → delete next h₇ ≡ ok h₈
    → merge_both cur prev next bs
      ≡ ok (record {
        store = h₈;
        head_free = if points_to bs.head_free prev then some cur else bs.head_free;
        head = if points_to bs.head prev then some cur else bs.head;
      })
unfolding merge_both through
merge_both-runs bs prev cur next ff l₀ k₀ a₁ l₁ a₂ k₂ a₃ l₃ a₄ k₄ a₅ l₅ k₅ a₆ d₇ d₈ =
    rw (l₀, k₀, a₁, l₁, a₂, k₂, a₃, l₃, a₄, k₄, a₅, l₅, k₅, a₆, ff, d₇, d₈) refl

module _ (bs : Blocks) (ls rs : List Entry) where
  pub merge_both-Becomes :
      (prev o₁ s₁ : ℕ) (r₁ : Option ℕ) (cur off sz : ℕ) (r : Option ℕ) (next o₂ s₂ : ℕ)
      (r₂ : Option ℕ)
      → Represents bs (
          ls
          ++ (free_entry prev o₁ s₁ r₁ ∷ used_entry cur off sz r ∷ free_entry next o₂ s₂ r₂ ∷ rs))
      → Becomes
          (merge_both cur prev next bs)
          (ls ++ (free_entry cur o₁ (add_size (add_size s₁ sz) s₂) r ∷ rs))
  merge_both-Becomes prev o₁ s₁ r₁ cur off sz r next o₂ s₂ r₂ R =
      let L = free_entry prev o₁ s₁ r₁ in
      let U = used_entry cur off sz r in
      let K = free_entry next o₂ s₂ r₂ in
      let p = last_or none ls in
      let lf = last_free_or none ls in
      let n = first_or none rs in
      let nf = first_free_or none rs in
      let bl = block_of L p lf (some cur) (some next) in
      let bu = block_of U (some prev) none (some next) none in
      let bk = block_of K (some cur) (some prev) n nf in
      let bu' = record bu { prev_free = lf; next_free = nf; prev_block = p; next_block = n } in
      let bu″ = block_of (free_entry cur o₁ (add_size (add_size s₁ sz) s₂) r) p lf n nf in
      let P₀ = IsList-Pieces (find bs.store) ls (L ∷ U ∷ K ∷ []) rs R.list in
      let out : has (addrs ls) prev ≡ false =
        not-in-left (find bs.store) ls (some prev) (some prev) prev
          ((prev, bl) ∷ (cur, bu) ∷ (next, bk) ∷ []) (some next) (some next) rs P₀ (ground arith) in
      let t₁ =
        adjust-middle bs.store ((prev, bl) ∷ []) ((next, bk) ∷ []) cur bu
          (λ b. record b { prev_free = lf; next_free = nf; prev_block = p; next_block = n }) P₀ in
      let t₂ = link-left_free t₁.after (some cur) t₁.pieces in
      let t₃ = link-right_free t₂.after (some cur) t₂.pieces in
      let t₄ = link-left t₃.after (some cur) t₃.pieces in
      let t₅ = link-right t₄.after (some cur) t₄.pieces in
      let t₆ =
        adjust-middle t₅.after ((prev, bl) ∷ []) ((next, bk) ∷ []) cur bu'
          (λ b. record b { free = true; offset = o₁; size = add_size (add_size s₁ b.size) s₂ })
          t₅.pieces in
      let t₇ = delete-middle t₆.after [] ((cur, bu″) ∷ (next, bk) ∷ []) prev bl t₆.pieces in
      let t₈ = delete-middle t₇.after ((cur, bu″) ∷ []) [] next bk t₇.pieces in
      let ll =
        λ (h : Store Block) (n : Option ℕ) (nf : Option ℕ) (bu : Block) (p : Option ℕ)
            (pf : Option ℕ)
            (P : Pieces (find h) ls n nf ((prev, bl) ∷ (cur, bu) ∷ (next, bk) ∷ []) p pf rs).
          load-middle h [] ((cur, bu) ∷ (next, bk) ∷ []) prev bl P in
      let lk =
        λ (h : Store Block) (n : Option ℕ) (nf : Option ℕ) (bu : Block) (p : Option ℕ)
            (pf : Option ℕ)
            (P : Pieces (find h) ls n nf ((prev, bl) ∷ (cur, bu) ∷ (next, bk) ∷ []) p pf rs).
          load-middle h ((prev, bl) ∷ (cur, bu) ∷ []) [] next bk P in
      let ff : bs.head_free ≡ first_free_or (some prev) ls =
        R.first_free ∙ first_free_or-append none ls (L ∷ U ∷ K ∷ rs) in
      record {
        after = record {
          store = t₈.after;
          head_free = if points_to bs.head_free prev then some cur else bs.head_free;
          head = if points_to bs.head prev then some cur else bs.head;
        };
        runs =
            merge_both-runs bs prev cur next (ap is_null ff ∙ first_free-not-null prev ls)
              (ll bs.store (some prev) (some prev) bu (some next) (some next) P₀)
              (lk bs.store (some prev) (some prev) bu (some next) (some next) P₀) t₁.runs
              (ll t₁.after (some prev) (some prev) bu' (some next) (some next) t₁.pieces) t₂.runs
              (lk t₂.after (some prev) (some cur) bu' (some next) (some next) t₂.pieces) t₃.runs
              (ll t₃.after (some prev) (some cur) bu' (some next) (some cur) t₃.pieces) t₄.runs
              (lk t₄.after (some cur) (some cur) bu' (some next) (some cur) t₄.pieces) t₅.runs
              (ll t₅.after (some cur) (some cur) bu' (some cur) (some cur) t₅.pieces)
              (lk t₅.after (some cur) (some cur) bu' (some cur) (some cur) t₅.pieces) t₆.runs
              t₇.runs t₈.runs;
        represents = record {
          list =
              Pieces-IsList (find t₈.after) ls
                (free_entry cur o₁ (add_size (add_size s₁ sz) s₂) r ∷ []) rs t₈.pieces;
          first =
              head-moved ls prev (some cur) bs.head out
                (R.first ∙ first_or-append none ls (L ∷ U ∷ K ∷ rs))
              ∙ sym (
                  first_or-append none ls
                    (free_entry cur o₁ (add_size (add_size s₁ sz) s₂) r ∷ rs));
          first_free =
              head_free-moved ls prev (some cur) bs.head_free out ff
              ∙ sym (
                  first_free_or-append none ls
                    (free_entry cur o₁ (add_size (add_size s₁ sz) s₂) r ∷ rs));
        };
      }
