-- ===== src/FragmentAllocator/Taking.antt =====
-- What allocate() of include/core/FragmentFreeAllocator.h promises on the segments of the pool.
use supercell_common.Common.{
  ℕ, suc, ◌+◌, ◌-◌, ◌≤◌, ◌≡◌, refl, sym, ap, ◌∙◌, Bool, true, false, not, ◌&&◌, Option, none, some,
  List, [], inl, inr, ◌∷◌, ◌++◌, arith, ltb, ◌==◌, Bool-cases, eq→==, length,
}
use supercell_common.FragmentAllocator.Segments.{
  Segment, is_vacant, holds, cut, fits, take_first, join, give_back, Fills, starts_vacant, is_tidy,
  used_bytes,
}
use supercell_common.FragmentAllocator.Absent.{Option-cases}

-- The two ways in which segments are taken.
pub data Taken (new size : ℕ) : List Segment → List Segment → Type 0 where
  here :
      (s : Segment) (ss : List Segment)
      → fits size s ≡ true
      → Taken new size (s ∷ ss) (cut new size s ++ ss)
  there :
      (s : Segment) (ss ts : List Segment) → Taken new size ss ts → Taken new size (s ∷ ss) (s ∷ ts)

pub none-some : {A : Type 0} {x : A} → ¬ (none ≡ some x)
none-some {x} e = absurd (ground (arith, e))

pub some-eq : {A : Type 0} (a b : A) → some a ≡ some b → a ≡ b
some-eq a b e = ap (λ o. elim o [ none ↦ a | some c ↦ c ]) e

pub take_first-Taken :
    (new size : ℕ) (ss ts : List Segment) → take_first new size ss ≡ some ts → Taken new size ss ts
take_first-Taken new size [] ts e = absurd (none-some e)
take_first-Taken new size (s ∷ ss) ts e = elim (Bool-cases (fits size s)) [
  | inl f ↦ rw (sym (some-eq (cut new size s ++ ss) ts (rw f at e))) (here s ss f)
  | inr f ↦ elim (Option-cases (take_first new size ss)) [
    | inl n ↦ absurd (none-some (rw (f, n) at e))
    | inr (us, n) ↦
        rw (sym (some-eq (s ∷ us) ts (rw (f, n) at e)))
          (there s ss us (take_first-Taken new size ss us n))
  ]
]

Fills-Taken :
    (new size : ℕ) (ss ts : List Segment) (x y : ℕ)
    → Taken new size ss ts
    → Fills x ss y
    → Fills x ts y
Fills-Taken new size _ _ x y (here s ss f) (o, c) = elim (Bool-cases (s.size == size)) [
  | inl e ↦ let same : s.size ≡ size = ground (arith, e) in rw e (o, (rw same at c))
  | inr e ↦
      let le : size ≤ s.size = ground (arith, f) in
      let sums : x + size + (s.size - size) ≡ x + s.size = omega (arith, le) in
      rw e (o, (ap (λ o. o + size) o, rw sums c))
]
Fills-Taken new size _ _ x y (there s ss ts t) (o, c) =
    (o, Fills-Taken new size ss ts (x + s.size) y t c)

starts-Taken :
    (new size : ℕ) (ss ts : List Segment)
    → Taken new size ss ts
    → starts_vacant ss ≡ false
    → starts_vacant ts ≡ false
starts-Taken new size _ _ (here s ss f) e = absurd (ground (arith, f, e))
starts-Taken new size _ _ (there s ss ts t) e = e

tidy-Taken :
    (new size : ℕ) (ss ts : List Segment)
    → Taken new size ss ts
    → is_tidy ss ≡ true
    → is_tidy ts ≡ true
tidy-Taken new size _ _ (here s ss f) t = elim (Bool-cases (s.size == size)) [
  | inl e ↦ rw e (ground (arith, t, f))
  | inr e ↦ rw e (ground (arith, t, f))
]
tidy-Taken new size _ _ (there s ss ts t) d =
    ground (arith, tidy-Taken new size ss ts t, d, starts-Taken new size ss ts t)

used-Taken :
    (new size : ℕ) (ss ts : List Segment)
    → Taken new size ss ts
    → used_bytes ts ≡ used_bytes ss + size
used-Taken new size _ _ (here s ss f) = elim (Bool-cases (s.size == size)) [
  | inl e ↦ rw e (ground (arith, f))
  | inr e ↦ rw e (ground (arith, f))
]
used-Taken new size _ _ (there s ss ts t) = omega (arith, used-Taken new size ss ts t)

-- No segment is held by `a`.
abbrev pub is_new : ℕ → List Segment → Bool
is_new a [] = true
is_new a (s ∷ ss) = not (holds s.holder a) && is_new a ss

pub join-tidy : (s : Segment) (ss : List Segment) → is_tidy (s ∷ ss) ≡ true → join s ss ≡ s ∷ ss
join-tidy s [] t = refl
join-tidy s (u ∷ us) t = elim (Bool-cases (is_vacant s.holder && is_vacant u.holder)) [
  | inl e ↦ absurd (ground (arith, e, t))
  | inr e ↦ rw e refl
]

vacant-none : (o : Option ℕ) → is_vacant o ≡ true → o ≡ none
vacant-none none e = refl
vacant-none (some x) e = absurd (ground (arith, e))

vacant_segment :
    (size : ℕ) (s : Segment)
    → none ≡ s.holder
    → size ≡ s.size
    → record { holder = none; offset = s.offset; size = size } ≡ s
vacant_segment size s h e i = record s { holder = h i; size = e i }

give_back-Taken :
    (new size : ℕ) (ss ts : List Segment)
    → Taken new size ss ts
    → is_new new ss ≡ true
    → is_tidy ss ≡ true
    → give_back new ts ≡ ss
give_back-Taken new size _ _ (here s ss f) n t =
    let vacant : none ≡ s.holder = sym (vacant-none s.holder (ground (arith, f))) in
    let le : size ≤ s.size = ground (arith, f) in
    let self : (new == new) ≡ true = eq→== new new refl in
    elim (Bool-cases (s.size == size)) [
      | inl e ↦
          let same : size ≡ s.size = ground (arith, e) in
          rw (e, self) (ap (λ u. join u ss) (vacant_segment size s vacant same) ∙ join-tidy s ss t)
      | inr e ↦
          let sums : size + (s.size - size) ≡ s.size = omega (arith, le) in
          rw (e, self) (ap (λ u. u ∷ ss) (vacant_segment (size + (s.size - size)) s vacant sums))
    ]
give_back-Taken new size _ _ (there s ss ts d) n t =
    let rest = give_back-Taken new size ss ts d (ground (arith, n)) (ground (arith, t)) in
    let other : holds s.holder new ≡ false = ground (arith, n) in
    rw (other, rest) (join-tidy s ss t)

held-Taken : (new size : ℕ) (ss ts : List Segment) → Taken new size ss ts → is_new new ts ≡ false
held-Taken new size _ _ (here s ss f) = elim (Bool-cases (s.size == size)) [
  | inl e ↦ rw (e, eq→== new new refl) refl
  | inr e ↦ rw (e, eq→== new new refl) refl
]
held-Taken new size _ _ (there s ss ts t) = ground (arith, held-Taken new size ss ts t)

length-Taken :
    (new size : ℕ) (ss ts : List Segment) → Taken new size ss ts → length ts ≤ suc (length ss)
length-Taken new size _ _ (here s ss f) = elim (Bool-cases (s.size == size)) [
  | inl e ↦ rw e (omega arith)
  | inr e ↦ rw e (omega arith)
]
length-Taken new size _ _ (there s ss ts t) = omega (arith, length-Taken new size ss ts t)

module _ (new size : ℕ) (ss ts : List Segment) (e : take_first new size ss ≡ some ts) where
  -- What is taken leaves the pool without a gap and without two vacant neighbours, and counts.
  pub take_first-Fills : (x y : ℕ) → Fills x ss y → Fills x ts y
  take_first-Fills x y = Fills-Taken new size ss ts x y (take_first-Taken new size ss ts e)

  pub take_first-tidy : is_tidy ss ≡ true → is_tidy ts ≡ true
  take_first-tidy = tidy-Taken new size ss ts (take_first-Taken new size ss ts e)

  pub take_first-used : used_bytes ts ≡ used_bytes ss + size
  take_first-used = used-Taken new size ss ts (take_first-Taken new size ss ts e)

  pub take_first-held : is_new new ts ≡ false
  take_first-held = held-Taken new size ss ts (take_first-Taken new size ss ts e)

  pub take_first-length : length ts ≤ suc (length ss)
  take_first-length = length-Taken new size ss ts (take_first-Taken new size ss ts e)

  -- Giving back what was just taken restores the segments.
  pub give_back-take_first : is_new new ss ≡ true → is_tidy ss ≡ true → give_back new ts ≡ ss
  give_back-take_first = give_back-Taken new size ss ts (take_first-Taken new size ss ts e)

abbrev pub all_vacant : List Segment → Bool
all_vacant [] = true
all_vacant (s ∷ ss) = is_vacant s.holder && all_vacant ss

-- A pool that is filled, that nothing holds and that has no vacant neighbours is one segment.
pub all_vacant-one :
    (ss : List Segment) (y : ℕ)
    → Fills 0 ss y
    → is_tidy ss ≡ true
    → all_vacant ss ≡ true
    → ltb 0 y ≡ true
    → ss ≡ record { holder = none; offset = 0; size = y } ∷ []
all_vacant-one [] y f t v p = absurd (ground (arith, f, p))
all_vacant-one (s ∷ []) y (o, f) t v p =
    let size : s.size ≡ y = omega (arith, f) in
    λ i.
      record { holder = vacant-none s.holder (ground (arith, v)) i; offset = o i; size = size i }
      ∷ []
all_vacant-one (s ∷ u ∷ us) y f t v p = absurd (ground (arith, t, v))
