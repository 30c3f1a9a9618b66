-- ===== src/FragmentAllocator/Segments.antt =====
-- What FragmentAllocator of include/core/FragmentFreeAllocator.h promises: the pool is cut into
-- segments, of which a call takes the first that is large enough, and gives one back.
use supercell_common.Common.{
  ℕ, ◌+◌, ◌-◌, ◌≡◌, refl, Bool, true, false, not, ◌&&◌, Option, none, some, List, [], inl, inr, ◌∷◌,
  ◌++◌, arith, if◌then◌else◌, leb, ◌==◌, Bool-cases,
}

-- `holder` is the block that is in use there, if one is.
pub record Segment : Type 0 where
  pub holder : Option ℕ
  pub offset : ℕ
  pub size : ℕ

abbrev pub is_vacant : Option ℕ → Bool
is_vacant none = true
is_vacant (some a) = false

abbrev pub holds : Option ℕ → ℕ → Bool
holds none a = false
holds (some x) a = x == a

-- `size` bytes of a segment.
abbrev pub cut : ℕ → ℕ → Segment → List Segment
cut new size s =
    if s.size == size
    then record { holder = some new; offset = s.offset; size = size } ∷ []
    else record { holder = some new; offset = s.offset; size = size }
      ∷ record { holder = none; offset = s.offset + size; size = s.size - size }
      ∷ []

abbrev pub fits : ℕ → Segment → Bool
fits size s = is_vacant s.holder && leb size s.size

-- The first vacant segment of at least `size` bytes is cut, where there is one.
abbrev pub take_first : ℕ → ℕ → List Segment → Option (List Segment)
take_first new size [] = none
take_first new size (s ∷ ss) =
    let rest = take_first new size ss in
    if fits size s
    then some (cut new size s ++ ss)
    else (elim rest [ none ↦ none | some ts ↦ some (s ∷ ts) ])

-- A segment in front of others; of two that are vacant one is made.
abbrev pub join : Segment → List Segment → List Segment
join s [] = s ∷ []
join s (t ∷ ts) =
    if is_vacant s.holder && is_vacant t.holder
    then record { holder = none; offset = s.offset; size = s.size + t.size } ∷ ts
    else s ∷ t ∷ ts

-- The segment of `a` becomes vacant.
abbrev pub give_back : ℕ → List Segment → List Segment
give_back a [] = []
give_back a (s ∷ ss) =
    let rest = give_back a ss in
    if holds s.holder a then join (record s { holder = none }) ss else join s rest

-- The segments fill the pool from `x` to `y`, without a gap.
abbrev pub Fills : ℕ → List Segment → ℕ → Type 0
Fills x [] y = x ≡ y
Fills x (s ∷ ss) y = (s.offset ≡ x) × Fills (x + s.size) ss y

abbrev pub starts_vacant : List Segment → Bool
starts_vacant [] = false
starts_vacant (s ∷ ss) = is_vacant s.holder

-- No two neighbours are vacant.
abbrev pub is_tidy : List Segment → Bool
is_tidy [] = true
is_tidy (s ∷ ss) = not (is_vacant s.holder && starts_vacant ss) && is_tidy ss

abbrev pub used_bytes : List Segment → ℕ
used_bytes [] = 0
used_bytes (s ∷ ss) = (if is_vacant s.holder then 0 else s.size) + used_bytes ss

-- The number of bytes that `a` holds.
abbrev pub held_bytes : ℕ → List Segment → ℕ
held_bytes a [] = 0
held_bytes a (s ∷ ss) = if holds s.holder a then s.size else held_bytes a ss

pub Fills-join :
    (s : Segment) (ss : List Segment) (x y : ℕ) → Fills x (s ∷ ss) y → Fills x (join s ss) y
Fills-join s [] x y f = f
Fills-join s (t ∷ ts) x y (o, (o', f)) =
    let sums : x + (s.size + t.size) ≡ x + s.size + t.size = omega arith in
    elim (Bool-cases (is_vacant s.holder && is_vacant t.holder)) [
      | inl e ↦ rw e (o, rw sums f)
      | inr e ↦ rw e (o, (o', f))
    ]

pub Fills-give_back :
    (a : ℕ) (ss : List Segment) (x y : ℕ) → Fills x ss y → Fills x (give_back a ss) y
Fills-give_back a [] x y f = f
Fills-give_back a (s ∷ ss) x y (o, f) = elim (Bool-cases (holds s.holder a)) [
  | inl e ↦ rw e (Fills-join (record s { holder = none }) ss x y (o, f))
  | inr e ↦ rw e (Fills-join s (give_back a ss) x y (o, Fills-give_back a ss (x + s.size) y f))
]

tidy-join : (s : Segment) (ss : List Segment) → is_tidy ss ≡ true → is_tidy (join s ss) ≡ true
tidy-join s [] t = ground arith
tidy-join s (u ∷ us) t = elim (Bool-cases (is_vacant s.holder && is_vacant u.holder)) [
  | inl e ↦ rw e (ground (arith, e, t))
  | inr e ↦ rw e (ground (arith, e, t))
]

pub tidy-give_back :
    (a : ℕ) (ss : List Segment) → is_tidy ss ≡ true → is_tidy (give_back a ss) ≡ true
tidy-give_back a [] t = refl
tidy-give_back a (s ∷ ss) t = elim (Bool-cases (holds s.holder a)) [
  | inl e ↦ rw e (tidy-join (record s { holder = none }) ss (ground (arith, t)))
  | inr e ↦ rw e (tidy-join s (give_back a ss) (tidy-give_back a ss (ground (arith, t))))
]

used-join : (s : Segment) (ss : List Segment) → used_bytes (join s ss) ≡ used_bytes (s ∷ ss)
used-join s [] = refl
used-join s (t ∷ ts) = elim (Bool-cases (is_vacant s.holder && is_vacant t.holder)) [
  | inl e ↦ rw e (ground (arith, e))
  | inr e ↦ rw e refl
]

pub used-give_back :
    (a : ℕ) (ss : List Segment) → used_bytes (give_back a ss) + held_bytes a ss ≡ used_bytes ss
used-give_back a [] = refl
used-give_back a (s ∷ ss) = elim (Bool-cases (holds s.holder a)) [
  | inl e ↦ rw e (ground (arith, used-join (record s { holder = none }) ss, e))
  | inr e ↦ rw e (ground (arith, used-join s (give_back a ss), used-give_back a ss))
]
