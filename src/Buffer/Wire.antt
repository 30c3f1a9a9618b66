-- ===== src/Buffer/Wire.antt =====
-- The wire format of include/core/Buffer.h, apart from any buffer: the bytes that stand for a value.
use supercell_common.Common.{
  ℕ, zero, suc, ◌/◌, ◌^◌, ◌≤◌, ◌<◌, ◌≡◌, refl, ap, List, [], ◌∷◌, ◌++◌, length, All, arith,
  if◌then◌else◌,
}
use native.Mathlib.Nat.{pow-suc}
use supercell_common.Buffer.Values.{
  Ty, number, boolean, string, error_code, vector, linked_list, pair, Value, Category, system,
  generic, unknown, bytes_of, number_of,
}

-- Each element's bytes in order.
unfoldable pub encode_each {ℓ} : {A : Type ℓ} → (A → List ℕ) → List A → List ℕ
encode_each f [] = []
encode_each f (x ∷ xs) = f x ++ encode_each f xs

abbrev pub category_code : Category → ℕ
category_code system = 0
category_code generic = 1
category_code unknown = 0

-- The bytes of a value: numbers little end first, and before a text or a sequence its length.
unfoldable pub encode : (t : Ty) → Value t → List ℕ
unfolding encode_each
encode (number w) v = bytes_of w v
encode boolean v = bytes_of 1 (if v then 1 else 0)
encode string v = bytes_of 4 (length v) ++ v
encode error_code (code, category) = bytes_of 4 code ++ bytes_of 4 (category_code category)
encode (vector t) v = bytes_of 4 (length v) ++ encode_each (encode t) v
encode (linked_list t) v = bytes_of 4 (length v) ++ encode_each (encode t) v
encode (pair s t) (x, y) = encode s x ++ encode t y

abbrev pub IsKnown : Category → Type 0
IsKnown unknown = ⊥
IsKnown _ = Unit

-- The values that the format can carry: numbers fit their width, texts and sequences are within the
-- limits, and the category of an error code is one of the two.
abbrev pub WellFormed : (t : Ty) → Value t → Type 0
WellFormed (number w) v = v < 256 ^ w
WellFormed boolean v = Unit
WellFormed string v = length v ≤ 8192
WellFormed error_code (code, category) = (code < 256 ^ 4) × IsKnown category
WellFormed (vector t) v = (length v ≤ 65536) × All (WellFormed t) v
WellFormed (linked_list t) v = (length v ≤ 65536) × All (WellFormed t) v
WellFormed (pair s t) (x, y) = WellFormed s x × WellFormed t y

pub length-bytes_of : (w v : ℕ) → length (bytes_of w v) ≡ w
unfolding bytes_of
length-bytes_of zero v = refl
length-bytes_of (suc w) v = ap suc (length-bytes_of w (v / 256))

-- A number that fits is read back from its bytes.
pub number_of-bytes_of : (w v : ℕ) → v < 256 ^ w → number_of (bytes_of w v) ≡ v
unfolding bytes_of number_of
number_of-bytes_of zero v h = omega arith
number_of-bytes_of (suc w) v h =
    omega (arith, pow-suc 256 w, number_of-bytes_of w (v / 256) (omega (arith, pow-suc 256 w)))
