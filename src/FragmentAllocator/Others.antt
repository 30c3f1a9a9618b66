-- ===== src/FragmentAllocator/Others.antt =====
-- The segments that a call of include/core/FragmentFreeAllocator.h is not about stay where they are.
use supercell_common.Common.{
  ℕ, ◌≡◌, ◌≢◌, refl, sym, ◌∙◌, true, false, ◌&&◌, Option, none, some, List, [], inl, inr, ◌∷◌,
  arith, if◌then◌else◌, ◌==◌, Bool-cases, ne→ne,
}
use supercell_common.FragmentAllocator.Segments.{
  Segment, is_vacant, holds, take_first, join, give_back,
}
use supercell_common.FragmentAllocator.Taking.{Taken, here, there, take_first-Taken, is_new}

-- Where the segment of `a` starts.
abbrev pub held_start : ℕ → List Segment → ℕ
held_start a [] = 0
held_start a (s ∷ ss) = if holds s.holder a then s.offset else held_start a ss

vacant-holds : (o : Option ℕ) (a : ℕ) → is_vacant o ≡ true → holds o a ≡ false
vacant-holds none a v = refl
vacant-holds (some x) a v = absurd (ground (arith, v))

start-Taken :
    (new size : ℕ) (ss ts : List Segment) (a : ℕ)
    → a ≢ new
    → Taken new size ss ts
    → (held_start a ts ≡ held_start a ss) × (is_new a ts ≡ is_new a ss)
start-Taken new size _ _ a ne (here s ss f) =
    let out = vacant-holds s.holder a (ground (arith, f)) in
    let other : (new == a) ≡ false = ne→ne new a (λ e. ne (sym e)) in
    elim (Bool-cases (s.size == size)) [
      | inl e ↦ rw (e, out, other) (refl, refl)
      | inr e ↦ rw (e, out, other) (refl, refl)
    ]
start-Taken new size _ _ a ne (there s ss ts t) =
    let (x, y) = start-Taken new size ss ts a ne t in (rw x refl, rw y refl)

pub start-join :
    (s : Segment) (ss : List Segment) (a : ℕ)
    → (held_start a (join s ss) ≡ held_start a (s ∷ ss))
      × (is_new a (join s ss) ≡ is_new a (s ∷ ss))
start-join s [] a = (refl, refl)
start-join s (t ∷ ts) a = elim (Bool-cases (is_vacant s.holder && is_vacant t.holder)) [
  | inl e ↦
      let out = vacant-holds s.holder a (ground (arith, e)) in
      let out' = vacant-holds t.holder a (ground (arith, e)) in rw (e, out, out') (refl, refl)
  | inr e ↦ rw e (refl, refl)
]

pub start-give_back :
    (cur : ℕ) (ss : List Segment) (a : ℕ)
    → a ≢ cur
    → (held_start a (give_back cur ss) ≡ held_start a ss)
      × (is_new a (give_back cur ss) ≡ is_new a ss)
start-give_back cur [] a ne = (refl, refl)
start-give_back cur (s ∷ ss) a ne = elim (Bool-cases (holds s.holder cur)) [
  | inl e ↦
      let (x, y) = start-join (record s { holder = none }) ss a in
      let out : holds s.holder a ≡ false = other-holds s.holder cur a ne e in
      rw (e, x, y, out) (refl, refl)
  | inr e ↦
      let (x, y) = start-join s (give_back cur ss) a in
      let (x', y') = start-give_back cur ss a ne in rw (e, x, y, x', y') (refl, refl)
]
  where
    other-holds : (o : Option ℕ) (cur a : ℕ) → a ≢ cur → holds o cur ≡ true → holds o a ≡ false
    other-holds none cur a ne h = refl
    other-holds (some x) cur a ne h = ne→ne x a (λ e. ne (sym e ∙ ground (arith, h)))

pub start-take_first :
    (new size : ℕ) (ss ts : List Segment) (a : ℕ)
    → a ≢ new
    → take_first new size ss ≡ some ts
    → (held_start a ts ≡ held_start a ss) × (is_new a ts ≡ is_new a ss)
start-take_first new size ss ts a ne e =
    start-Taken new size ss ts a ne (take_first-Taken new size ss ts e)
