-- ===== src/InvertedArray/Erase.antt =====
-- erase() of include/core/InvertedArray.h.
use mathlib.Core.Option.{some-injective}
use supercell_common.Common.{
  ℕ, ◌+◌, ◌-◌, ◌<◌, ◌≡◌, ◌≢◌, refl, sym, ap, ◌∙◌, Option, none, some, length, take, get_elem?,
  set_at, arith, inl, inr, lt_or_le, eq_or_ne, lt→ltb, get_elem?-take, get_elem?-set_at,
  get_elem?-set_at_other, length-set_at, get_elem?-some, get_elem?-below, length-take,
  get_elem?-beyond, ltb, le→ltb, ◌==◌, if◌then◌else◌, eq→==, ne→ne,
}
use supercell_common.InvertedArray.{InvertedArray, set_index, back, erase_by, erase}
use supercell_common.InvertedArray.Indices.{Holds, IsIndexed, set_index-other, set_index-same}

-- The array after erase(i), of which `last` is the last item.
abbrev pub erased : ℕ → Option ℕ → InvertedArray → InvertedArray
erased i last a = record a {
  items = take (length a.items - 1) (set_at i last a.items);
  index_of = set_index last i a.index_of;
}

erase-ok :
    (i : ℕ) (last : Option ℕ) (a : InvertedArray)
    → i < length a.items
    → get_elem? a.items (length a.items - 1) ≡ some last
    → erase i a ≡ some (erased i last a)
unfolding erase erase_by back
erase-ok i last a h e = rw (e, lt→ltb i (length a.items) h) refl

-- What stands at `j` after erase(i), in terms of the array before.
abbrev pub moved : ℕ → InvertedArray → ℕ → Option (Option ℕ)
moved i a j =
    if ltb j (length a.items - 1)
    then get_elem? a.items (if j == i then length a.items - 1 else j)
    else none

-- What the array holds after erase(i): at `i` the last item, elsewhere what it held.
erased-at :
    (i : ℕ) (last : Option ℕ) (a : InvertedArray)
    → i < length a.items - 1
    → get_elem? (erased i last a).items i ≡ some last
erased-at i last a h =
    get_elem?-take (length a.items - 1) (set_at i last a.items) i h
    ∙ get_elem?-set_at i last a.items (omega arith)

erased-elsewhere :
    (i j : ℕ) (last : Option ℕ) (a : InvertedArray)
    → j < length a.items - 1
    → i ≢ j
    → get_elem? (erased i last a).items j ≡ get_elem? a.items j
erased-elsewhere i j last a h ne =
    get_elem?-take (length a.items - 1) (set_at i last a.items) j h
    ∙ get_elem?-set_at_other i j last a.items ne

erased-length :
    (i : ℕ) (last : Option ℕ) (a : InvertedArray)
    → i < length a.items
    → length (erased i last a).items + 1 ≡ length a.items
erased-length i last a h =
    omega (
      arith,
      length-take (length a.items - 1) (set_at i last a.items),
      length-set_at i last a.items,
    )

erased-IsIndexed :
    (i : ℕ) (last : Option ℕ) (a : InvertedArray)
    → IsIndexed a
    → i < length a.items
    → get_elem? a.items (length a.items - 1) ≡ some last
    → IsIndexed (erased i last a)
unfolding IsIndexed
erased-IsIndexed i last a ok inside e j y h =
    let below : j < length (erased i last a).items =
      get_elem?-below (erased i last a).items j (some y) h in
    let size : length (erased i last a).items + 1 ≡ length a.items =
      erased-length i last a inside in
    elim (eq_or_ne i j) [
      | inl at_i ↦
          let held : last ≡ some y = some-injective _ _ (
            sym (erased-at i last a (omega arith))
            ∙ ap (get_elem? (erased i last a).items) at_i
            ∙ h) in
          ap (λ l. set_index l i a.index_of y) held ∙ set_index-same y i a.index_of ∙ ap some at_i
      | inr ne ↦
          let held : Holds a j y = sym (erased-elsewhere i j last a (omega arith) ne) ∙ h in
          set_index-other last i y a.index_of (λ l.
            let clash : length a.items - 1 ≡ j =
              some-injective _ _ (sym (ok (length a.items - 1) y (e ∙ ap some l)) ∙ ok j y held) in
            absurd (omega arith))
          ∙ ok j y held
    ]

erased-each :
    (i j : ℕ) (last : Option ℕ) (a : InvertedArray)
    → i < length a.items
    → get_elem? a.items (length a.items - 1) ≡ some last
    → get_elem? (erased i last a).items j ≡ moved i a j
erased-each i j last a inside e =
    let size : length (erased i last a).items + 1 ≡ length a.items =
      erased-length i last a inside in
    elim (lt_or_le j (length a.items - 1)) [
      | inl below ↦ elim (eq_or_ne j i) [
        | inl at_i ↦
            rw (lt→ltb j (length a.items - 1) below, eq→== j i at_i)
              (ap (get_elem? (erased i last a).items) at_i
                ∙ erased-at i last a (omega arith)
                ∙ sym e)
        | inr ne ↦
            rw (lt→ltb j (length a.items - 1) below, ne→ne j i ne)
              (erased-elsewhere i j last a below (λ x. ne (sym x)))
      ]
      | inr beyond ↦
          rw (le→ltb j (length a.items - 1) beyond)
            (get_elem?-beyond (erased i last a).items j (omega arith))
    ]

-- erase(i) of an index inside the array gives an array with one item less, in which the last item
-- has taken the place of the one erased, the others stay where they are, and every index is right.
pub erase_lem :
    (i : ℕ) (a : InvertedArray)
    → IsIndexed a
    → i < length a.items
    → (a' : InvertedArray) × (erase i a ≡ some a')
      × IsIndexed a'
      × (length a'.items + 1 ≡ length a.items)
      × ((j : ℕ) → get_elem? a'.items j ≡ moved i a j)
erase_lem i a ok inside =
    let (last, e) = get_elem?-some a.items (length a.items - 1) (omega arith) in
    (
      erased i last a,
      erase-ok i last a inside e,
      erased-IsIndexed i last a ok inside e,
      erased-length i last a inside,
      λ j. erased-each i j last a inside e,
    )
