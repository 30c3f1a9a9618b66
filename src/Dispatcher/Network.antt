-- ===== src/Dispatcher/Network.antt =====
-- The state of the dispatcher of include/threading that holds the mail between its threads.
use supercell_common.Common.{
  put_at, put_at-here, put_at-other, ℕ, suc, ◌+◌, ◌*◌, ◌≤◌, ◌<◌, ◌≡◌, ◌≢◌, refl, sym, ap, ◌∙◌, true,
  some, arith, List, [], ok, eq→==, ne→ne, lt→ltb, lt_or_le, eq_or_ne, inl, inr, ◌⊎◌,
}
use native.Mathlib.Nat.{mul-le-mul_right, suc-mul}
use supercell_common.AtomicPipe.{AtomicPipe}
use supercell_common.Dispatcher.{Dispatcher, index, pipe_at, signaler_at}
use supercell_common.Dispatcher.Signals.{Bitmap, Signaler}
use supercell_common.Dispatcher.Mail.{Mail, put_at2}
use supercell_common.Dispatcher.Lane.{IsLane}

-- Each pipe of the dispatcher `d` holds the mail of its two threads, and each thread that mail is
-- ready for has the bit of its source set in `bits`.
pub record IsNetwork {ℓ} {T : Type ℓ} (d : Dispatcher T) (m : Mail T) : Type ℓ where
  pub few : d.max_threads ≤ 63
  pub lanes :
      (s t : ℕ)
      → s < d.max_threads
      → t < d.max_threads
      → IsLane (d.pipes (index d s t)) (m.ready s t) (m.held s t)

-- Each source that has mail ready for the thread `t` has its bit set.
unfoldable pub IsMarked {ℓ} : {T : Type ℓ} → ℕ → Mail T → ℕ → Bitmap → Type ℓ
IsMarked n m t b = (s : ℕ) → s < n → m.ready s t ≢ [] → b s ≡ true

-- Each thread has a signaler in which the sources that have mail ready for it are marked.
unfoldable pub IsSignalled {ℓ} : {T : Type ℓ} → Dispatcher T → Mail T → Type ℓ
unfolding IsMarked
IsSignalled d m =
    (t : ℕ)
    → t < d.max_threads
    → (g : Signaler) × (d.signalers t ≡ some g) × IsMarked d.max_threads m t g.bitmap

pub same_or_other : (s t i j : ℕ) → ((i ≡ s) × (j ≡ t)) ⊎ ((i ≢ s) ⊎ (j ≢ t))
same_or_other s t i j = elim (eq_or_ne i s) [
  | inl e ↦ elim (eq_or_ne j t) [ inl e' ↦ inl (e, e') | inr ne ↦ inr (inr ne) ]
  | inr ne ↦ inr (inl ne)
]

module _ {ℓ} {A : Type ℓ} where
  pub put_at2-here : (s t : ℕ) (x : A) (f : ℕ → ℕ → A) → put_at2 s t x f s t ≡ x
  unfolding put_at2
  put_at2-here s t x f = rw (eq→== s s refl, eq→== t t refl) refl

  pub put_at2-other :
      (s t i j : ℕ) (x : A) (f : ℕ → ℕ → A) → (i ≢ s) ⊎ (j ≢ t) → put_at2 s t x f i j ≡ f i j
  unfolding put_at2
  put_at2-other s t i j x f (inl ne) = rw (ne→ne i s ne) refl
  put_at2-other s t i j x f (inr ne) = elim (eq_or_ne i s) [
    | inl e ↦ rw (eq→== i s e, ne→ne j t ne) refl
    | inr other ↦ rw (ne→ne i s other) refl
  ]

  pub put_at2-kept : (s t i j : ℕ) (f : ℕ → ℕ → A) → put_at2 s t (f s t) f i j ≡ f i j
  put_at2-kept s t i j f = elim (eq_or_ne i s) [
    | inl e ↦ elim (eq_or_ne j t) [
      | inl e' ↦ rw (e, e') (put_at2-here s t (f s t) f)
      | inr ne ↦ put_at2-other s t i j (f s t) f (inr ne)
    ]
    | inr ne ↦ put_at2-other s t i j (f s t) f (inl ne)
  ]

  -- Storing what is there changes nothing.
  pub put_at2-same : (s t : ℕ) (f : ℕ → ℕ → A) → put_at2 s t (f s t) f ≡ f
  put_at2-same s t f k i j = put_at2-kept s t i j f k

  put_at2-again :
      (s t i j : ℕ) (x y : A) (f : ℕ → ℕ → A)
      → put_at2 s t x (put_at2 s t y f) i j ≡ put_at2 s t x f i j
  put_at2-again s t i j x y f = elim (same_or_other s t i j) [
    | inl (e, e') ↦ rw (e, e', put_at2-here s t x f) (put_at2-here s t x (put_at2 s t y f))
    | inr ne ↦
        put_at2-other s t i j x (put_at2 s t y f) ne
        ∙ put_at2-other s t i j y f ne
        ∙ sym (put_at2-other s t i j x f ne)
  ]

  -- The second of two values stored at one place stays.
  pub put_at2-twice :
      (s t : ℕ) (x y : A) (f : ℕ → ℕ → A) → put_at2 s t x (put_at2 s t y f) ≡ put_at2 s t x f
  put_at2-twice s t x y f k i j = put_at2-again s t i j x y f k

-- The pipes of different pairs of threads have different places.
row-below : (n s s' t t' : ℕ) → t < n → s < s' → s * n + t < s' * n + t'
row-below n s s' t t' x y =
    let rows : suc s * n ≤ s' * n = mul-le-mul_right n y in omega (arith, rows, suc-mul s n)

other_row : (n s t s' t' : ℕ) → t < n → t' < n → s ≢ s' → s * n + t ≢ s' * n + t'
other_row n s t s' t' x y ne e = elim (lt_or_le s s') [
  | inl l ↦ omega (arith, row-below n s s' t t' x l, e)
  | inr l ↦ omega (arith, row-below n s' s t' t y (omega (arith, ne)), e)
]

pub index-apart : (n s t s' t' : ℕ) → t < n → t' < n → (s ≢ s') ⊎ (t ≢ t') → s * n + t ≢ s' * n + t'
index-apart n s t s' t' x y (inl ne) e = other_row n s t s' t' x y ne e
index-apart n s t s' t' x y (inr ne) e = elim (eq_or_ne s s') [
  | inl same ↦ ne (omega (arith, e, ap (λ i. i * n) same))
  | inr other ↦ other_row n s t s' t' x y other e
]

pub index-below : (n s t : ℕ) → s < n → t < n → s * n + t < n * n
index-below n s t x y = omega (arith, row-below n s n t 0 y x)

module _ {ℓ} {T : Type ℓ} (d : Dispatcher T) where
  -- The pipe of two threads is in the array.
  pub pipe_at_lem :
      (s t : ℕ)
      → s < d.max_threads
      → t < d.max_threads
      → pipe_at d (index d s t) ≡ ok (d.pipes (index d s t))
  unfolding pipe_at
  pipe_at_lem s t x y =
      rw (lt→ltb (index d s t) (d.max_threads * d.max_threads) (index-below d.max_threads s t x y))
        refl

  pub signaler_at_lem :
      (t : ℕ) (g : Signaler) → t < d.max_threads → d.signalers t ≡ some g → signaler_at d t ≡ ok g
  unfolding signaler_at
  signaler_at_lem t g x e = rw (lt→ltb t d.max_threads x, e) refl

  -- A pipe stored at the place of two threads, which then have other mail.
  pub store-IsLane :
      (m : Mail T) (s t : ℕ) (p : AtomicPipe T) (xs ys : List T)
      → s < d.max_threads
      → t < d.max_threads
      → IsNetwork d m
      → IsLane p xs ys
      → (i j : ℕ) → i < d.max_threads
      → j < d.max_threads
      → IsLane
          (put_at (index d s t) p d.pipes (index d i j))
          (put_at2 s t xs m.ready i j)
          (put_at2 s t ys m.held i j)
  store-IsLane m s t p xs ys x y w l i j x' y' = elim (same_or_other s t i j) [
    | inl (e, e') ↦
        rw
          (
            e,
            e',
            put_at-here (index d s t) p d.pipes,
            put_at2-here s t xs m.ready,
            put_at2-here s t ys m.held,
          )
          l
    | inr ne ↦
        rw
          (
            put_at-other (index d s t) (index d i j) p d.pipes
                (index-apart d.max_threads i j s t y' y ne),
            put_at2-other s t i j xs m.ready ne,
            put_at2-other s t i j ys m.held ne,
          )
          (w.lanes i j x' y')
  ]
