-- ===== src/FragmentAllocator/Insert.antt =====
-- deallocate() of include/core/FragmentFreeAllocator.h where no neighbour of the block is free.
use supercell_common.Common.{
  ℕ, ◌≤◌, ◌≡◌, refl, sym, ◌∙◌, true, false, Option, none, some, List, [], inl, inr, ◌∷◌, ◌++◌, ok,
  Store, find, load, adjust, adjust_if, Bool-cases, length,
}
use supercell_common.FragmentAllocator.Lists.{Block, Blocks, set_next_free, set_prev_free}
use supercell_common.FragmentAllocator.Joins.{
  search_left, search_right, link_after, link_before, link_at, make_free,
}
use supercell_common.FragmentAllocator.Chain.{
  Entry, first_or, last_or, first_free_or, last_free_or, first_or-append, Chain-none_free,
  first_free_or-append, block_of, first_free_or-none_free, first_free_or-some,
  last_free_or-none_free, none_free,
}
use supercell_common.FragmentAllocator.Parts.{IsList-Pieces, Pieces-IsList}
use supercell_common.FragmentAllocator.Absent.{
  Option-cases, none-some, last_free_or-none, first_free_or-none,
}
use supercell_common.FragmentAllocator.Steps.{
  left-Chain, right-Chain, link-left_free, link-right_free, adjust-middle,
}
use supercell_common.FragmentAllocator.Take.{Represents, Becomes, free_entry}
use supercell_common.FragmentAllocator.Merge.{used_entry}
use supercell_common.FragmentAllocator.Searches.{
  search_left-last_free, search_right-first_free, last_free-block, first_free-block,
}

module _ (m cur : ℕ) (prev next q nf : Option ℕ) (bs : Blocks) {h : Store Block} where
  after-runs :
      {x : ℕ} {l : Block} {h₁ h₂ h₃ : Store Block}
      → q ≡ some x
      → adjust (some cur) (λ b. record b { free = true }) bs.store ≡ ok h
      → search_left m prev h ≡ ok q
      → load h (some x) ≡ ok l
      → l.next_free ≡ nf
      → adjust_if q (set_next_free (some cur)) h ≡ ok h₁
      → adjust (some cur) (λ b. record b { prev_free = q; next_free = nf }) h₁ ≡ ok h₂
      → adjust_if nf (set_prev_free (some cur)) h₂ ≡ ok h₃
      → make_free m cur prev next bs ≡ ok (record bs { store = h₃ })
  unfolding make_free link_at link_after adjust_if
  after-runs e a s l n a₁ a₂ a₃ = rw (a, s, e, (rw e at a₁), l, n, (rw e at a₂), a₃) refl

  alone-runs :
      {h₁ h₂ : Store Block}
      → q ≡ none
      → nf ≡ none
      → adjust (some cur) (λ b. record b { free = true }) bs.store ≡ ok h
      → search_left m prev h ≡ ok q
      → adjust (some cur) (set_prev_free q) h ≡ ok h₁
      → search_right m next h₁ ≡ ok nf
      → adjust (some cur) (set_next_free nf) h₁ ≡ ok h₂
      → make_free m cur prev next bs ≡ ok (record bs { store = h₂; head_free = some cur })
  unfolding make_free link_at link_before
  alone-runs e z a s a₁ s₁ a₂ = rw (a, s, e, (rw e at a₁), s₁, z, (rw z at a₂)) refl

  before-runs :
      {x : ℕ} {r : Block} {h₁ h₂ h₃ : Store Block}
      → q ≡ none
      → nf ≡ some x
      → adjust (some cur) (λ b. record b { free = true }) bs.store ≡ ok h
      → search_left m prev h ≡ ok q
      → adjust (some cur) (set_prev_free q) h ≡ ok h₁
      → search_right m next h₁ ≡ ok nf
      → load h₁ (some x) ≡ ok r
      → r.prev_free ≡ q
      → adjust_if nf (set_prev_free (some cur)) h₁ ≡ ok h₂
      → adjust (some cur) (λ b. record b { prev_free = q; next_free = nf }) h₂ ≡ ok h₃
      → make_free m cur prev next bs ≡ ok (record bs { store = h₃; head_free = some cur })
  unfolding make_free link_at link_before adjust_if
  before-runs e z a s a₁ s₁ r p a₂ a₃ =
      rw (a, s, e, (rw e at a₁), s₁, z, (rw z at a₂), r, (p ∙ e), (rw (e, z) at a₃)) refl

some_free : (ls : List Entry) (x : ℕ) → last_free_or none ls ≡ some x → none_free ls ≡ false
some_free ls x e = elim (Bool-cases (none_free ls)) [
  | inl t ↦ absurd (none-some (sym (last_free_or-none_free none ls t) ∙ e))
  | inr f ↦ f
]

module _ (bs : Blocks) (ls rs : List Entry) (cur off sz : ℕ) (r : Option ℕ) (m : ℕ) where
  pub make_free-Becomes :
      length ls ≤ m
      → length rs ≤ m
      → Represents bs (ls ++ (used_entry cur off sz r ∷ rs))
      → Becomes
          (make_free m cur (last_or none ls) (first_or none rs) bs)
          (ls ++ (free_entry cur off sz r ∷ rs))
  make_free-Becomes left_le right_le R =
      let U = used_entry cur off sz r in
      let F = free_entry cur off sz r in
      let p = last_or none ls in
      let lf = last_free_or none ls in
      let n = first_or none rs in
      let nf = first_free_or none rs in
      let bf = record (block_of U p lf n nf) { free = true } in
      let t₀ =
        adjust-middle bs.store [] [] cur (block_of U p lf n nf) (λ b. record b { free = true })
          (IsList-Pieces (find bs.store) ls (U ∷ []) rs R.list) in
      let h = t₀.after in
      let sl = search_left-last_free h m ls (some cur) nf left_le t₀.pieces.left in
      let first =
        R.first ∙ first_or-append none ls (U ∷ rs) ∙ sym (first_or-append none ls (F ∷ rs)) in
      elim (Option-cases lf) [
        | inr (x, e) ↦
            let (l, there, ln) = last_free-block h none none ls (some cur) nf x t₀.pieces.left e in
            let t₁ = link-left_free h (some cur) t₀.pieces in
            let t₂ =
              adjust-middle t₁.after [] [] cur bf (λ b. record b { prev_free = lf; next_free = nf })
                t₁.pieces in
            let t₃ = link-right_free t₂.after (some cur) t₂.pieces in
            record {
              after = record bs { store = t₃.after };
              runs = after-runs m cur p n lf nf bs e t₀.runs sl there ln t₁.runs t₂.runs t₃.runs;
              represents = record {
                list = Pieces-IsList (find t₃.after) ls (F ∷ []) rs t₃.pieces;
                first = first;
                first_free =
                    R.first_free
                    ∙ first_free_or-append none ls (U ∷ rs)
                    ∙ first_free_or-some nf (some cur) ls (some_free ls x e)
                    ∙ sym (first_free_or-append none ls (F ∷ rs));
              };
            }
        | inl e ↦
            let z = last_free_or-none ls e in
            let P = left-Chain h t₀.pieces (
              Chain-none_free (find h) none none none ls (some cur) nf (some cur) z
                t₀.pieces.left) in
            let t₁ = adjust-middle h [] [] cur bf (set_prev_free lf) P in
            let sr = search_right-first_free t₁.after m (some cur) lf rs right_le t₁.pieces.right in
            let ff =
              sym (first_free_or-none_free (some cur) ls z)
              ∙ sym (first_free_or-append none ls (F ∷ rs)) in
            elim (Option-cases nf) [
              | inl k ↦
                  let t₂ =
                    adjust-middle t₁.after [] [] cur (set_prev_free lf bf) (set_next_free nf)
                      t₁.pieces in
                  record {
                    after = record bs { store = t₂.after; head_free = some cur };
                    runs = alone-runs m cur p n lf nf bs e k t₀.runs sl t₁.runs sr t₂.runs;
                    represents = record {
                      list = Pieces-IsList (find t₂.after) ls (F ∷ []) rs (
                          right-Chain t₂.after t₂.pieces (
                            Chain-none_free (find t₂.after) (some cur) lf (some cur) rs none none
                              none (first_free_or-none rs k) t₂.pieces.right));
                      first = first;
                      first_free = ff;
                    };
                  }
              | inr (x, k) ↦
                  let (l, there, lp) =
                    first_free-block t₁.after (some cur) lf rs none none x t₁.pieces.right k in
                  let t₂ = link-right_free t₁.after (some cur) t₁.pieces in
                  let t₃ =
                    adjust-middle t₂.after [] [] cur (set_prev_free lf bf)
                      (λ b. record b { prev_free = lf; next_free = nf }) t₂.pieces in
                  record {
                    after = record bs { store = t₃.after; head_free = some cur };
                    runs =
                        before-runs m cur p n lf nf bs e k t₀.runs sl t₁.runs sr there lp t₂.runs
                          t₃.runs;
                    represents = record {
                      list = Pieces-IsList (find t₃.after) ls (F ∷ []) rs t₃.pieces;
                      first = first;
                      first_free = ff;
                    };
                  }
            ]
      ]
