-- ===== src/InvertedArray/Indices.antt =====
-- Each item of the array of include/core/InvertedArray.h knows its index.
use mathlib.Core.Option.{some-injective}
use supercell_common.Common.{
  ℕ, ◌-◌, ◌<◌, ◌≡◌, ◌≢◌, refl, sym, ap, ◌∙◌, Option, none, some, [], ◌∷◌, length, get_elem?, arith,
  inl, inr, lt_or_le, get_elem?-append, get_elem?-append_end, get_elem?-below, eq→==, ne→ne,
}
use supercell_common.InvertedArray.{InvertedArray, set_index, push_back}

-- There is the item `x` at the index `i`.
abbrev pub Holds : InvertedArray → ℕ → ℕ → Type 0
Holds a i x = get_elem? a.items i ≡ some (some x)

unfoldable pub IsIndexed : InvertedArray → Type 0
IsIndexed a = (i x : ℕ) → Holds a i x → a.index_of x ≡ some i

pub set_index-other :
    (last : Option ℕ) (i y : ℕ) (f : ℕ → Option ℕ) → last ≢ some y → set_index last i f y ≡ f y
unfolding set_index
set_index-other none i y f ne = refl
set_index-other (some x) i y f ne = rw (ne→ne y x (λ e. ne (ap some (sym e)))) refl

pub set_index-same : (x i : ℕ) (f : ℕ → Option ℕ) → set_index (some x) i f x ≡ some i
unfolding set_index
set_index-same x i f = rw (eq→== x x refl) refl

-- pushBack of an item that the array does not hold keeps every index right.
pub push_back-IsIndexed :
    (x : ℕ) (a : InvertedArray)
    → IsIndexed a
    → ((i : ℕ) → ¬ Holds a i x)
    → IsIndexed (push_back (some x) a)
unfolding IsIndexed push_back
push_back-IsIndexed x a ok absent i y h = elim (lt_or_le i (length a.items)) [
  | inl less ↦
      let held : Holds a i y = sym (get_elem?-append a.items _ i less) ∙ h in
      set_index-other (some x) (length a.items) y a.index_of
        (λ e. absent i (held ∙ ap some (sym e)))
      ∙ ok i y held
  | inr more ↦
      let added : get_elem? (some x ∷ []) (i - length a.items) ≡ some (some y) =
        sym (get_elem?-append_end a.items _ i more) ∙ h in
      let first : i - length a.items < 1 = get_elem?-below (some x ∷ []) _ (some y) added in
      let zeroth : i - length a.items ≡ 0 = omega arith in
      let same : x ≡ y =
        some-injective _ _
          (some-injective _ _ (sym (ap (get_elem? (some x ∷ [])) zeroth) ∙ added)) in
      ap (set_index (some x) (length a.items) a.index_of) (sym same)
      ∙ set_index-same x (length a.items) a.index_of
      ∙ ap some (omega arith)
]
