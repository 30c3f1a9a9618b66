-- ===== src/AtomicBoundedQueue/Frames.antt =====
-- What a step of one thread of include/core/AtomicBoundedQueue.h leaves of what another knows.
use supercell_common.Common.{
  put_at, put_at-other, ℕ, ◌+◌, ◌<◌, ◌≡◌, ◌≢◌, sym, ap, ◌∙◌, arith, List, [], ◌∷◌, ◌++◌, length,
  get_elem?-append, Option, none, some, Bool, true, false,
}
use supercell_common.AtomicBoundedQueue.{
  Cell, Thread, idle, push_at, push_free, push_claimed, push_stored, pop_at, pop_full, pop_claimed,
  pop_read,
}
use supercell_common.AtomicBoundedQueue.Safe.{KnowsOf, pos_of, pushes_to, pops_from}

is_some : {T : Type 0} → Option T → Bool
is_some none = false
is_some (some x) = true

pub none-some : {T : Type 0} {x : T} → ¬ (none ≡ some x)
unfolding is_some
none-some e = absurd (ground (arith, ap is_some e))

pub some-injective : {T : Type 0} (x y : T) → some x ≡ some y → x ≡ y
some-injective x y e = ap (λ o. elim o [ none ↦ x | some z ↦ z ]) e

module _ {T : Type 0} (e d : ℕ) (xs : List T) (g : ℕ → Option T) (c : Cell T) where
  -- A value enters at the end.
  pub KnowsOf-enter :
      (v : T) (l : Thread T)
      → length xs ≡ e
      → KnowsOf e d xs g c l
      → KnowsOf (e + 1) d (xs ++ (v ∷ [])) g c l
  unfolding KnowsOf
  KnowsOf-enter v idle n k = tt
  KnowsOf-enter v (push_at w p) n k = tt
  KnowsOf-enter v (push_free w p) n k = λ x. k (omega (arith, x))
  KnowsOf-enter v (push_claimed w p) n (x, y, z) =
      (omega (arith, x), y, get_elem?-append xs (v ∷ []) p (omega (arith, x, n)) ∙ z)
  KnowsOf-enter v (push_stored w p) n (x, y, z, u) =
      (omega (arith, x), y, get_elem?-append xs (v ∷ []) p (omega (arith, x, n)) ∙ z, u)
  KnowsOf-enter v (pop_at p) n k = tt
  KnowsOf-enter v (pop_full p) n k = k
  KnowsOf-enter v (pop_claimed p) n k = k
  KnowsOf-enter v (pop_read w p) n k = k

  -- A position is claimed for a pop.
  pub KnowsOf-dequeue : (l : Thread T) → KnowsOf e d xs g c l → KnowsOf e (d + 1) xs g c l
  unfolding KnowsOf
  KnowsOf-dequeue idle k = tt
  KnowsOf-dequeue (push_at w p) k = tt
  KnowsOf-dequeue (push_free w p) k = k
  KnowsOf-dequeue (push_claimed w p) k = k
  KnowsOf-dequeue (push_stored w p) k = k
  KnowsOf-dequeue (pop_at p) k = tt
  KnowsOf-dequeue (pop_full p) k = λ x. k (omega (arith, x))
  KnowsOf-dequeue (pop_claimed p) (x, y, z) = (omega (arith, x), y, z)
  KnowsOf-dequeue (pop_read w p) (x, y) = (omega (arith, x), y)

  -- A value is copied into the cell, at the position `q`.
  pub KnowsOf-store :
      (q : ℕ) (v : T) (l : Thread T)
      → c.sequence ≡ q
      → pushes_to l ≢ some q
      → KnowsOf e d xs g c l
      → KnowsOf e d xs g (record c { value = v }) l
  unfolding KnowsOf pushes_to
  KnowsOf-store q v idle s ne k = tt
  KnowsOf-store q v (push_at w p) s ne k = tt
  KnowsOf-store q v (push_free w p) s ne k = k
  KnowsOf-store q v (push_claimed w p) s ne k = k
  KnowsOf-store q v (push_stored w p) s ne (x, y, z, u) = absurd (ne (ap some (sym y ∙ s)))
  KnowsOf-store q v (pop_at p) s ne k = tt
  KnowsOf-store q v (pop_full p) s ne k = k
  KnowsOf-store q v (pop_claimed p) s ne k = k
  KnowsOf-store q v (pop_read w p) s ne k = k

  -- The cell becomes full for the position `q`, and gets the sequence `n`.
  pub KnowsOf-fill :
      (q n : ℕ) (l : Thread T)
      → c.sequence ≡ q
      → q < e
      → pushes_to l ≢ some q
      → pos_of l + 1 ≢ q
      → KnowsOf e d xs g c l
      → KnowsOf e d xs g (record c { sequence = n }) l
  unfolding KnowsOf pushes_to pos_of
  KnowsOf-fill q n idle s x ne o k = tt
  KnowsOf-fill q n (push_at w p) s x ne o k = tt
  KnowsOf-fill q n (push_free w p) s x ne o k = λ y. absurd (omega (arith, s, k y, x, y))
  KnowsOf-fill q n (push_claimed w p) s x ne o (a, b, z) = absurd (ne (ap some (sym b ∙ s)))
  KnowsOf-fill q n (push_stored w p) s x ne o (a, b, z, u) = absurd (ne (ap some (sym b ∙ s)))
  KnowsOf-fill q n (pop_at p) s x ne o k = tt
  KnowsOf-fill q n (pop_full p) s x ne o k = λ y. absurd (o (sym (k y) ∙ s))
  KnowsOf-fill q n (pop_claimed p) s x ne o (a, b, z) = absurd (o (sym b ∙ s))
  KnowsOf-fill q n (pop_read w p) s x ne o (a, b) = absurd (o (sym b ∙ s))

  -- The cell becomes free after the position `q`, and gets the sequence `n`.
  pub KnowsOf-empty :
      (q n : ℕ) (l : Thread T)
      → c.sequence ≡ q + 1
      → q < d
      → pops_from l ≢ some q
      → pos_of l ≢ q + 1
      → KnowsOf e d xs g c l
      → KnowsOf e d xs g (record c { sequence = n }) l
  unfolding KnowsOf pops_from pos_of
  KnowsOf-empty q n idle s x ne o k = tt
  KnowsOf-empty q n (push_at w p) s x ne o k = tt
  KnowsOf-empty q n (push_free w p) s x ne o k = λ y. absurd (o (sym (k y) ∙ s))
  KnowsOf-empty q n (push_claimed w p) s x ne o (a, b, z) = absurd (o (sym b ∙ s))
  KnowsOf-empty q n (push_stored w p) s x ne o (a, b, z, u) = absurd (o (sym b ∙ s))
  KnowsOf-empty q n (pop_at p) s x ne o k = tt
  KnowsOf-empty q n (pop_full p) s x ne o k = λ y. absurd (omega (arith, s, k y, x, y))
  KnowsOf-empty q n (pop_claimed p) s x ne o (a, b, z) = absurd (ne (ap some (omega (arith, b, s))))
  KnowsOf-empty q n (pop_read w p) s x ne o (a, b) = absurd (ne (ap some (omega (arith, b, s))))

  -- The value at the position `q` is given out.
  pub KnowsOf-give :
      (q : ℕ) (v : T) (l : Thread T)
      → pops_from l ≢ some q
      → KnowsOf e d xs g c l
      → KnowsOf e d xs (put_at q (some v) g) c l
  unfolding KnowsOf pops_from
  KnowsOf-give q v idle ne k = tt
  KnowsOf-give q v (push_at w p) ne k = tt
  KnowsOf-give q v (push_free w p) ne k = k
  KnowsOf-give q v (push_claimed w p) ne k = k
  KnowsOf-give q v (push_stored w p) ne k = k
  KnowsOf-give q v (pop_at p) ne k = tt
  KnowsOf-give q v (pop_full p) ne k = k
  KnowsOf-give q v (pop_claimed p) ne (x, y, z) =
      (x, y, put_at-other q p (some v) g (λ i. ne (ap some i)) ∙ z)
  KnowsOf-give q v (pop_read w p) ne k = k

  -- A position that is claimed is behind the next one.
  pub pushes_to-below : (l : Thread T) (q : ℕ) → KnowsOf e d xs g c l → pushes_to l ≡ some q → q < e
  unfolding KnowsOf pushes_to
  pushes_to-below idle q k n = absurd (none-some n)
  pushes_to-below (push_at v p) q k n = absurd (none-some n)
  pushes_to-below (push_free v p) q k n = absurd (none-some n)
  pushes_to-below (push_claimed v p) q (x, y, z) n = omega (arith, x, some-injective p q n)
  pushes_to-below (push_stored v p) q (x, y, z, u) n = omega (arith, x, some-injective p q n)
  pushes_to-below (pop_at p) q k n = absurd (none-some n)
  pushes_to-below (pop_full p) q k n = absurd (none-some n)
  pushes_to-below (pop_claimed p) q k n = absurd (none-some n)
  pushes_to-below (pop_read v p) q k n = absurd (none-some n)

  pub pops_from-below : (l : Thread T) (q : ℕ) → KnowsOf e d xs g c l → pops_from l ≡ some q → q < d
  unfolding KnowsOf pops_from
  pops_from-below idle q k n = absurd (none-some n)
  pops_from-below (push_at v p) q k n = absurd (none-some n)
  pops_from-below (push_free v p) q k n = absurd (none-some n)
  pops_from-below (push_claimed v p) q k n = absurd (none-some n)
  pops_from-below (push_stored v p) q k n = absurd (none-some n)
  pops_from-below (pop_at p) q k n = absurd (none-some n)
  pops_from-below (pop_full p) q k n = absurd (none-some n)
  pops_from-below (pop_claimed p) q (x, y, z) n = omega (arith, x, some-injective p q n)
  pops_from-below (pop_read v p) q (x, y) n = omega (arith, x, some-injective p q n)
