-- ===== src/FragmentAllocator/Absorb.antt =====
-- deallocate() of include/core/FragmentFreeAllocator.h where one neighbour of the block is free.
use supercell_common.Common.{
  ℕ, ◌≡◌, ◌≢◌, refl, sym, ap, ◌∙◌, false, Option, none, some, List, [], inl, inr, ◌∷◌, ◌++◌, arith,
  if◌then◌else◌, ok, Store, find, load, adjust, adjust_if, delete, ne→ne, add_size, Bool-cases,
}
use supercell_common.AtomicQueue.{has}
use supercell_common.FragmentAllocator.Lists.{
  Block, Blocks, points_to, is_null, set_next_block, set_prev_block,
}
use supercell_common.FragmentAllocator.Joins.{merge_left, merge_right}
use supercell_common.FragmentAllocator.Chain.{
  Entry, addrs, first_or, last_or, first_free_or, last_free_or, first_or-append,
  first_free_or-append, block_of,
}
use supercell_common.FragmentAllocator.Parts.{IsList-Pieces, Pieces-IsList}
use supercell_common.FragmentAllocator.Steps.{
  link-left, link-right, load-middle, adjust-middle, delete-middle,
}
use supercell_common.FragmentAllocator.Take.{
  Represents, Becomes, head-moved, free_entry, not-in-left,
}
use supercell_common.FragmentAllocator.Merge.{used_entry, first_free-not-null}

first-not-at :
    (x y : ℕ) (ls : List Entry)
    → has (addrs ls) x ≡ false
    → y ≢ x
    → points_to (first_or (some y) ls) x ≡ false
first-not-at x y [] o ne = ne→ne y x ne
first-not-at x y (l ∷ ls) o ne = ne→ne l.addr x (λ z. absurd (ground (arith, o, z)))

first_free-not-at :
    (x y : ℕ) (ls : List Entry)
    → has (addrs ls) x ≡ false
    → y ≢ x
    → points_to (first_free_or (some y) ls) x ≡ false
first_free-not-at x y [] o ne = ne→ne y x ne
first_free-not-at x y (l ∷ ls) o ne = elim (Bool-cases l.free) [
  | inl t ↦ rw t (ne→ne l.addr x (λ z. absurd (ground (arith, o, z))))
  | inr f ↦ rw f (first_free-not-at x y ls (ground (arith, o)) ne)
]

merge_left-runs :
    (bs : Blocks) (prev cur : ℕ) (next : Option ℕ) {c : Block} {h₁ h₂ h₃ h₄ : Store Block}
    → is_null bs.head_free ≡ false
    → points_to bs.head_free cur ≡ false
    → points_to bs.head cur ≡ false
    → adjust (some prev) (set_next_block next) bs.store ≡ ok h₁
    → adjust_if next (set_prev_block (some prev)) h₁ ≡ ok h₂
    → load h₂ (some cur) ≡ ok c
    → adjust (some prev) (λ b. record b { size = add_size b.size c.size }) h₂ ≡ ok h₃
    → delete cur h₃ ≡ ok h₄
    → merge_left cur prev next bs ≡ ok (record bs { store = h₄ })
unfolding merge_left
merge_left-runs bs prev cur next n n' n″ a₁ a₂ l a₃ d = rw (a₁, a₂, l, a₃, n, n', n″, d) refl

merge_right-runs :
    (bs : Blocks) (cur : ℕ) (prev : Option ℕ) (next : ℕ) {c : Block} {h₁ h₂ h₃ h₄ : Store Block}
    → is_null bs.head_free ≡ false
    → points_to bs.head_free cur ≡ false
    → adjust (some next) (set_prev_block prev) bs.store ≡ ok h₁
    → adjust_if prev (set_next_block (some next)) h₁ ≡ ok h₂
    → load h₂ (some cur) ≡ ok c
    → adjust (some next) (λ b. record b { offset = c.offset; size = add_size b.size c.size }) h₂
      ≡ ok h₃
    → delete cur h₃ ≡ ok h₄
    → merge_right cur prev next bs
      ≡ ok
          (record bs { store = h₄; head = if points_to bs.head cur then c.next_block else bs.head })
unfolding merge_right
merge_right-runs bs cur prev next n n' a₁ a₂ l a₃ d = rw (a₁, a₂, l, a₃, n, n', d) refl

module _ (bs : Blocks) (ls rs : List Entry) (cur off sz : ℕ) (r : Option ℕ) where
  pub merge_left-Becomes :
      (prev o₁ s₁ : ℕ) (r₁ : Option ℕ)
      → Represents bs (ls ++ (free_entry prev o₁ s₁ r₁ ∷ used_entry cur off sz r ∷ rs))
      → Becomes
          (merge_left cur prev (first_or none rs) bs)
          (ls ++ (free_entry prev o₁ (add_size s₁ sz) r₁ ∷ rs))
  merge_left-Becomes prev o₁ s₁ r₁ R =
      let L = free_entry prev o₁ s₁ r₁ in
      let U = used_entry cur off sz r in
      let L' = free_entry prev o₁ (add_size s₁ sz) r₁ in
      let p = last_or none ls in
      let lf = last_free_or none ls in
      let n = first_or none rs in
      let nf = first_free_or none rs in
      let bl = block_of L p lf (some cur) nf in
      let bu = block_of U (some prev) none n nf in
      let P₀ = IsList-Pieces (find bs.store) ls (L ∷ U ∷ []) rs R.list in
      let out : has (addrs ls) cur ≡ false =
        not-in-left (find bs.store) ls (some prev) (some prev) cur ((prev, bl) ∷ (cur, bu) ∷ [])
          (some cur) (some prev) rs P₀ (ground arith) in
      let ne : prev ≢ cur = λ z. absurd (ground (arith, P₀.middle_apart.0, z)) in
      let t₁ = adjust-middle bs.store [] ((cur, bu) ∷ []) prev bl (set_next_block n) P₀ in
      let t₂ = link-right t₁.after (some prev) t₁.pieces in
      let t₃ =
        adjust-middle t₂.after [] ((cur, bu) ∷ []) prev (block_of L p lf n nf)
          (λ b. record b { size = add_size b.size sz }) t₂.pieces in
      let t₄ = delete-middle t₃.after ((prev, block_of L' p lf n nf) ∷ []) [] cur bu t₃.pieces in
      let first : bs.head ≡ first_or (some prev) ls =
        R.first ∙ first_or-append none ls (L ∷ U ∷ rs) in
      let ff : bs.head_free ≡ first_free_or (some prev) ls =
        R.first_free ∙ first_free_or-append none ls (L ∷ U ∷ rs) in
      record {
        after = record bs { store = t₄.after };
        runs =
            merge_left-runs bs prev cur n (ap is_null ff ∙ first_free-not-null prev ls)
              (ap (λ o. points_to o cur) ff ∙ first_free-not-at cur prev ls out ne)
              (ap (λ o. points_to o cur) first ∙ first-not-at cur prev ls out ne) t₁.runs t₂.runs
              (load-middle t₂.after ((prev, block_of L p lf n nf) ∷ []) [] cur bu t₂.pieces) t₃.runs
              t₄.runs;
        represents = record {
          list = Pieces-IsList (find t₄.after) ls (L' ∷ []) rs t₄.pieces;
          first = first ∙ sym (first_or-append none ls (L' ∷ rs));
          first_free = ff ∙ sym (first_free_or-append none ls (L' ∷ rs));
        };
      }

  pub merge_right-Becomes :
      (next o₂ s₂ : ℕ) (r₂ : Option ℕ)
      → Represents bs (ls ++ (used_entry cur off sz r ∷ free_entry next o₂ s₂ r₂ ∷ rs))
      → Becomes
          (merge_right cur (last_or none ls) next bs)
          (ls ++ (free_entry next off (add_size s₂ sz) r₂ ∷ rs))
  merge_right-Becomes next o₂ s₂ r₂ R =
      let U = used_entry cur off sz r in
      let K = free_entry next o₂ s₂ r₂ in
      let K' = free_entry next off (add_size s₂ sz) r₂ in
      let p = last_or none ls in
      let lf = last_free_or none ls in
      let n = first_or none rs in
      let nf = first_free_or none rs in
      let bu = block_of U p none (some next) none in
      let bk = block_of K (some cur) lf n nf in
      let P₀ = IsList-Pieces (find bs.store) ls (U ∷ K ∷ []) rs R.list in
      let out : has (addrs ls) cur ≡ false =
        not-in-left (find bs.store) ls (some cur) (some next) cur ((cur, bu) ∷ (next, bk) ∷ [])
          (some next) (some next) rs P₀ (ground arith) in
      let ne : next ≢ cur = λ z. absurd (ground (arith, P₀.middle_apart.0, z)) in
      let t₁ = adjust-middle bs.store ((cur, bu) ∷ []) [] next bk (set_prev_block p) P₀ in
      let t₂ = link-left t₁.after (some next) t₁.pieces in
      let t₃ =
        adjust-middle t₂.after ((cur, bu) ∷ []) [] next (block_of K p lf n nf)
          (λ b. record b { offset = off; size = add_size b.size sz }) t₂.pieces in
      let t₄ = delete-middle t₃.after [] ((next, block_of K' p lf n nf) ∷ []) cur bu t₃.pieces in
      let ff : bs.head_free ≡ first_free_or (some next) ls =
        R.first_free ∙ first_free_or-append none ls (U ∷ K ∷ rs) in
      record {
        after = record bs {
          store = t₄.after;
          head = if points_to bs.head cur then some next else bs.head;
        };
        runs =
            merge_right-runs bs cur p next (ap is_null ff ∙ first_free-not-null next ls)
              (ap (λ o. points_to o cur) ff ∙ first_free-not-at cur next ls out ne) t₁.runs t₂.runs
              (load-middle t₂.after [] ((next, block_of K p lf n nf) ∷ []) cur bu t₂.pieces) t₃.runs
              t₄.runs;
        represents = record {
          list = Pieces-IsList (find t₄.after) ls (K' ∷ []) rs t₄.pieces;
          first =
              head-moved ls cur (some next) bs.head out
                (R.first ∙ first_or-append none ls (U ∷ K ∷ rs))
              ∙ sym (first_or-append none ls (K' ∷ rs));
          first_free = ff ∙ sym (first_free_or-append none ls (K' ∷ rs));
        };
      }
