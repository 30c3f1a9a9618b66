-- ===== src/FragmentAllocator/Ends.antt =====
-- The four links that FragmentAllocator of include/core/FragmentFreeAllocator.h changes at the ends of
-- a list of blocks.
use supercell_common.Common.{
  ℕ, ◌≡◌, ◌≢◌, sym, ap, ◌∙◌, true, false, Option, none, some, List, [], ◌∷◌, arith, if◌then◌else◌,
  put_at, put_at-here, put_at-other, Bool-cases, inl, inr,
}
use supercell_common.AtomicQueue.{has}
use supercell_common.FragmentAllocator.Lists.{
  Block, set_next_block, set_prev_block, set_next_free, set_prev_free,
}
use supercell_common.FragmentAllocator.Chain.{
  Entry, addrs, first_or, last_or, first_free_or, last_free_or, block_of, Chain, Distinct,
  Chain-frame, none_free, first_free_or-none_free, last_free_or-none_free, first_free_or-some,
  last_free_or-some, Chain-none_free,
}

-- The block at `x` is one of the entries, and with its link set to `q` the entries are a chain.
pub record IsEnd (g : ℕ → Option Block) (es : List Entry) (x : ℕ) (f : Option ℕ → Block → Block)
    (C : Option ℕ → (ℕ → Option Block) → Type 0) : Type 0 where
  pub inside : has (addrs es) x ≡ true
  pub block : Block
  pub there : g x ≡ some block
  pub relinked : (q : Option ℕ) → C q (put_at x (some (f q block)) g)

other_addr :
    (es : List Entry) (x y : ℕ) → has (addrs es) x ≡ true → has (addrs es) y ≡ false → y ≢ x
other_addr es x y i o e = absurd (ground (arith, i, o, ap (has (addrs es)) e))

some-eq : (a b : ℕ) → some a ≡ some b → a ≡ b
some-eq a b e = ap (λ o. elim o [ none ↦ a | some c ↦ c ]) e

none-some : {x : ℕ} → ¬ (none ≡ some x)
none-some e = absurd (ground (arith, e))

module _ (g : ℕ → Option Block) where
  pub last_or-IsEnd :
      (p pf : Option ℕ) (es : List Entry) (n nf : Option ℕ) (x : ℕ)
      → Chain g p pf es n nf
      → Distinct (addrs es)
      → last_or none es ≡ some x
      → IsEnd g es x set_next_block (λ q g'. Chain g' p pf es q nf)
  last_or-IsEnd p pf [] n nf x c d e = absurd (none-some e)
  last_or-IsEnd p pf (l ∷ []) n nf x c d e =
      let same : l.addr ≡ x = some-eq l.addr x e in
      record {
        inside = ground (arith, same);
        block = block_of l p pf n nf;
        there = ap g (sym same) ∙ c.0;
        relinked = λ q. (rw same (put_at-here x (some (block_of l p pf q nf)) g), tt);
      }
  last_or-IsEnd p pf (l ∷ k ∷ es) n nf x (c, cs) (d, ds) e =
      let r =
        last_or-IsEnd (some l.addr) (if l.free then some l.addr else pf) (k ∷ es) n nf x cs ds e in
      let ne : l.addr ≢ x = other_addr (k ∷ es) x l.addr r.inside d in
      record {
        inside = ground (arith, r.inside);
        block = r.block;
        there = r.there;
        relinked =
            λ q. (put_at-other x l.addr (some (set_next_block q r.block)) g ne ∙ c, r.relinked q);
      }

  pub first_or-IsEnd :
      (p pf : Option ℕ) (es : List Entry) (n nf : Option ℕ) (x : ℕ)
      → Chain g p pf es n nf
      → Distinct (addrs es)
      → first_or none es ≡ some x
      → IsEnd g es x set_prev_block (λ q g'. Chain g' q pf es n nf)
  first_or-IsEnd p pf [] n nf x c d e = absurd (none-some e)
  first_or-IsEnd p pf (l ∷ es) n nf x (c, cs) (d, ds) e =
      let same : l.addr ≡ x = some-eq l.addr x e in
      let b = block_of l p pf (first_or n es) (first_free_or nf es) in
      record {
        inside = ground (arith, same);
        block = b;
        there = ap g (sym same) ∙ c;
        relinked = λ q. (
          rw same (put_at-here x (some (set_prev_block q b)) g),
          Chain-frame g (put_at x (some (set_prev_block q b)) g) (some l.addr)
              (if l.free then some l.addr else pf) es n nf
              (λ a i.
                put_at-other x a (some (set_prev_block q b)) g
                  (λ z. other_addr es a l.addr i d (same ∙ sym z)))
              cs,
        );
      }

  pub first_free_or-IsEnd :
      (p pf : Option ℕ) (es : List Entry) (n nf : Option ℕ) (x : ℕ)
      → Chain g p pf es n nf
      → Distinct (addrs es)
      → first_free_or none es ≡ some x
      → IsEnd g es x set_prev_free (λ q g'. Chain g' p q es n nf)
  first_free_or-IsEnd p pf [] n nf x c d e = absurd (none-some e)
  first_free_or-IsEnd p pf (l ∷ es) n nf x (c, cs) (d, ds) e = elim (Bool-cases l.free) [
    | inl t ↦
        let same : l.addr ≡ x = some-eq l.addr x (rw t at e) in
        let b = block_of l p pf (first_or n es) (first_free_or nf es) in
        record {
          inside = ground (arith, same);
          block = b;
          there = ap g (sym same) ∙ c;
          relinked = λ q. (
            rw (t, same) (rw t at (put_at-here x (some (set_prev_free q b)) g)),
            rw t (
                Chain-frame g (put_at x (some (set_prev_free q b)) g) (some l.addr) (some l.addr) es
                  n nf
                  (λ a i.
                    put_at-other x a (some (set_prev_free q b)) g
                      (λ z. other_addr es a l.addr i d (same ∙ sym z)))
                  (rw t at cs)),
          );
        }
    | inr f ↦
        let r = first_free_or-IsEnd (some l.addr) pf es n nf x (rw f at cs) ds (rw f at e) in
        record {
          inside = ground (arith, r.inside);
          block = r.block;
          there = r.there;
          relinked = λ q. (
            rw f (
                put_at-other x l.addr (some (set_prev_free q r.block)) g
                  (other_addr es x l.addr r.inside d)
                ∙ (rw f at c)),
            rw f (r.relinked q),
          );
        }
  ]

  pub last_free_or-IsEnd :
      (p pf : Option ℕ) (es : List Entry) (n nf : Option ℕ) (x : ℕ)
      → Chain g p pf es n nf
      → Distinct (addrs es)
      → last_free_or none es ≡ some x
      → IsEnd g es x set_next_free (λ q g'. Chain g' p pf es n q)
  last_free_or-IsEnd p pf [] n nf x c d e = absurd (none-some e)
  last_free_or-IsEnd p pf (l ∷ es) n nf x (c, cs) (d, ds) e = elim (Bool-cases (none_free es)) [
    | inl h ↦ elim (Bool-cases l.free) [
      | inl t ↦
          let same : l.addr ≡ x =
            some-eq l.addr x (sym (last_free_or-none_free (some l.addr) es h) ∙ (rw t at e)) in
          let b = block_of l p pf (first_or n es) (first_free_or nf es) in
          record {
            inside = ground (arith, same);
            block = b;
            there = ap g (sym same) ∙ c;
            relinked = λ q. (
              rw (t, first_free_or-none_free q es h, same)
                  (rw t at (put_at-here x (some (set_next_free q b)) g)),
              rw t (
                  Chain-none_free (put_at x (some (set_next_free q b)) g) (some l.addr)
                    (some l.addr) (some l.addr) es n nf q h
                    (Chain-frame g (put_at x (some (set_next_free q b)) g) (some l.addr)
                      (some l.addr) es n nf
                      (λ a i.
                        put_at-other x a (some (set_next_free q b)) g
                          (λ z. other_addr es a l.addr i d (same ∙ sym z)))
                      (rw t at cs))),
            );
          }
      | inr f ↦ absurd (none-some (sym (last_free_or-none_free none es h) ∙ (rw f at e)))
    ]
    | inr h ↦
        let pf' : Option ℕ = if l.free then some l.addr else pf in
        let r =
          last_free_or-IsEnd (some l.addr) pf' es n nf x cs ds
            (last_free_or-some none (if l.free then some l.addr else none) es h ∙ e) in
        record {
          inside = ground (arith, r.inside);
          block = r.block;
          there = r.there;
          relinked = λ q. (
            put_at-other x l.addr (some (set_next_free q r.block)) g
                  (other_addr es x l.addr r.inside d)
                ∙ c
                ∙ ap (λ y. some (block_of l p pf (first_or n es) y)) (first_free_or-some nf q es h),
            r.relinked q,
          );
        }
  ]
