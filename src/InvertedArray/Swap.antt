-- ===== src/InvertedArray/Swap.antt =====
-- swap() of include/core/InvertedArray.h.
use mathlib.Core.Option.{some-injective, none-ne-some}
use supercell_common.Common.{
  ℕ, ◌<◌, ◌≡◌, ◌≢◌, refl, sym, ap, ◌∙◌, Bool, false, Option, none, some, length, get_elem?, set_at,
  arith, inl, inr, eq_or_ne, get_elem?-set_at, get_elem?-set_at_other, length-set_at,
  get_elem?-some, ◌==◌, if◌then◌else◌, ◌⊎◌, eq→==, ne→ne,
}
use supercell_common.InvertedArray.{InvertedArray, set_index, swap_by, swap}
use supercell_common.InvertedArray.Indices.{Holds, IsIndexed, set_index-other, set_index-same}

-- The array after swap(i, j) of the pointers `u` and `v`.
abbrev swapped : ℕ → ℕ → Option ℕ → Option ℕ → InvertedArray → InvertedArray
swapped i j u v a = record a {
  items = set_at j u (set_at i v a.items);
  index_of = set_index v i (set_index u j a.index_of);
}

swapped-at :
    (i j k : ℕ) (u v : Option ℕ) (a : InvertedArray)
    → i < length a.items
    → j < length a.items
    → get_elem? a.items i ≡ some u
    → get_elem? a.items j ≡ some v
    → get_elem? (swapped i j u v a).items k
      ≡ get_elem? a.items (if k == j then i else if k == i then j else k)
swapped-at i j k u v a hi hj eu ev = elim (eq_or_ne k j) [
  | inl at_j ↦ rw (eq→== k j at_j) (
      ap (get_elem? (swapped i j u v a).items) at_j
      ∙ get_elem?-set_at j u (set_at i v a.items) (omega (arith, length-set_at i v a.items))
      ∙ sym eu)
  | inr not_j ↦ elim (eq_or_ne k i) [
    | inl at_i ↦
        rw (ne→ne k j not_j, eq→== k i at_i)
          (get_elem?-set_at_other j k u (set_at i v a.items) (λ e. not_j (sym e))
            ∙ ap (get_elem? (set_at i v a.items)) at_i
            ∙ get_elem?-set_at i v a.items hi
            ∙ sym ev)
    | inr not_i ↦
        rw (ne→ne k j not_j, ne→ne k i not_i)
          (get_elem?-set_at_other j k u (set_at i v a.items) (λ e. not_j (sym e))
            ∙ get_elem?-set_at_other i k v a.items (λ e. not_i (sym e)))
  ]
]

one_place : (a : InvertedArray) (i j y : ℕ) → IsIndexed a → Holds a i y → Holds a j y → i ≡ j
unfolding IsIndexed
one_place a i j y ok hi hj = some-injective _ _ (sym (ok i y hi) ∙ ok j y hj)

is_or_not : (v : Option ℕ) (y : ℕ) → (v ≡ some y) ⊎ (v ≢ some y)
is_or_not none y = inr (none-ne-some y)
is_or_not (some x) y = elim (eq_or_ne x y) [
  | inl e ↦ inl (ap some e)
  | inr ne ↦ inr (λ e. ne (some-injective _ _ e))
]

swapped-IsIndexed :
    (i j : ℕ) (u v : Option ℕ) (a : InvertedArray)
    → IsIndexed a
    → i < length a.items
    → j < length a.items
    → get_elem? a.items i ≡ some u
    → get_elem? a.items j ≡ some v
    → IsIndexed (swapped i j u v a)
unfolding IsIndexed
swapped-IsIndexed i j u v a ok hi hj eu ev k y h =
    let held = sym (swapped-at i j k u v a hi hj eu ev) ∙ h in
    let from : Bool → Bool → Option (Option ℕ) =
      λ b c. get_elem? a.items (if b then i else if c then j else k) in
    elim (eq_or_ne k j) [
      | inl at_j ↦
          let here : Holds a i y = sym (ap (λ b. from b (k == i)) (eq→== k j at_j)) ∙ held in
          let is_u : u ≡ some y = some-injective _ _ (sym eu ∙ here) in
          elim (is_or_not v y) [
            | inl is_v ↦
                ap (λ l. set_index l i (set_index u j a.index_of) y) is_v
                ∙ set_index-same y i (set_index u j a.index_of)
                ∙ ap some (one_place a i j y ok here (ev ∙ ap some is_v) ∙ sym at_j)
            | inr not_v ↦
                set_index-other v i y (set_index u j a.index_of) not_v
                ∙ ap (λ l. set_index l j a.index_of y) is_u
                ∙ set_index-same y j a.index_of
                ∙ ap some (sym at_j)
          ]
      | inr not_j ↦ elim (eq_or_ne k i) [
        | inl at_i ↦
            let here : Holds a j y =
              sym (ap (λ b. from b (k == i)) (ne→ne k j not_j) ∙ ap (from false) (eq→== k i at_i))
              ∙ held in
            ap (λ l. set_index l i (set_index u j a.index_of) y)
              (some-injective _ _ (sym ev ∙ here))
            ∙ set_index-same y i (set_index u j a.index_of)
            ∙ ap some (sym at_i)
        | inr not_i ↦
            let here : Holds a k y =
              sym (ap (λ b. from b (k == i)) (ne→ne k j not_j) ∙ ap (from false) (ne→ne k i not_i))
              ∙ held in
            set_index-other v i y (set_index u j a.index_of)
              (λ e. not_j (one_place a k j y ok here (ev ∙ ap some e)))
            ∙ set_index-other u j y a.index_of
                (λ e. not_i (one_place a k i y ok here (eu ∙ ap some e)))
            ∙ ok k y here
      ]
    ]

-- swap(i, j) of two indices inside the array gives an array in which the two items have changed
-- places, the others stay where they are, and every index is right.
pub swap_lem :
    (i j : ℕ) (a : InvertedArray)
    → IsIndexed a
    → i < length a.items
    → j < length a.items
    → (a' : InvertedArray) × (swap i j a ≡ some a')
      × IsIndexed a'
      × ((k : ℕ)
          → get_elem? a'.items k
            ≡ get_elem? a.items (if k == j then i else if k == i then j else k))
unfolding swap swap_by
swap_lem i j a ok hi hj =
    let (u, eu) = get_elem?-some a.items i hi in
    let (v, ev) = get_elem?-some a.items j hj in
    (
      swapped i j u v a,
      rw (eu, ev) refl,
      swapped-IsIndexed i j u v a ok hi hj eu ev,
      λ k. swapped-at i j k u v a hi hj eu ev,
    )
