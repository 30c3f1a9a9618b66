-- ===== src/Buffer/Measure.antt =====
-- probeSize of include/core/Buffer.h against the wire format: for which types it gives the number of
-- bytes that are written, and one kind of sequence for which it does not.
use supercell_common.Common.{
  ℕ, suc, ◌+◌, ◌*◌, ◌%◌, ◌^◌, ◌<◌, ◌≡◌, ◌≢◌, refl, sym, ◌∙◌, true, false, List, [], ◌∷◌, ◌++◌,
  length, length-append, add_size, arith, ◌⊎◌, inl, inr,
}
use supercell_common.Buffer.Values.{
  Ty, number, boolean, string, error_code, vector, linked_list, pair, Value, Category, bytes_of,
  is_variable_type, probe_elements, probe_size,
}
use supercell_common.Buffer.Wire.{encode_each, encode, category_code, length-bytes_of}

-- Types all of whose values take the same number of bytes.
abbrev pub HasFixedSize : Ty → Type 0
HasFixedSize (number w) = Unit
HasFixedSize boolean = Unit
HasFixedSize string = ⊥
HasFixedSize error_code = Unit
HasFixedSize (vector t) = ⊥
HasFixedSize (linked_list t) = ⊥
HasFixedSize (pair s t) = HasFixedSize s × HasFixedSize t

-- Types in which the elements of each sequence have a fixed size, or one that is added up.
abbrev pub IsMeasured : Ty → Type 0
IsMeasured (number w) = Unit
IsMeasured boolean = Unit
IsMeasured string = Unit
IsMeasured error_code = Unit
IsMeasured (vector t) = IsMeasured t × (HasFixedSize t ⊎ (is_variable_type t ≡ true))
IsMeasured (linked_list t) = IsMeasured t × (HasFixedSize t ⊎ (is_variable_type t ≡ true))
IsMeasured (pair s t) = IsMeasured s × IsMeasured t

fixed-ne-variable : (t : Ty) → HasFixedSize t → is_variable_type t ≡ false
unfolding is_variable_type
fixed-ne-variable (number w) h = refl
fixed-ne-variable boolean h = refl
fixed-ne-variable string h = absurd h
fixed-ne-variable error_code h = refl
fixed-ne-variable (vector t) h = absurd h
fixed-ne-variable (linked_list t) h = absurd h
fixed-ne-variable (pair s t) h = refl

length-code : (c : ℕ) (x : Category) → length (bytes_of 4 c ++ bytes_of 4 (category_code x)) ≡ 8
length-code c x = omega (
  arith,
  length-append (bytes_of 4 c) (bytes_of 4 (category_code x)),
  length-bytes_of 4 c,
  length-bytes_of 4 (category_code x),
)

length-encode-fixed :
    (t : Ty) → HasFixedSize t → (x y : Value t) → length (encode t x) ≡ length (encode t y)
unfolding encode
length-encode-fixed (number w) h x y = length-bytes_of w x ∙ sym (length-bytes_of w y)
length-encode-fixed boolean h x y = length-bytes_of 1 _ ∙ sym (length-bytes_of 1 _)
length-encode-fixed string h x y = absurd h
length-encode-fixed error_code h (c, x) (d, y) = length-code c x ∙ sym (length-code d y)
length-encode-fixed (vector t) h x y = absurd h
length-encode-fixed (linked_list t) h x y = absurd h
length-encode-fixed (pair s t) h (a, b) (c, d) = omega (
  arith,
  length-append (encode s a) (encode t b),
  length-append (encode s c) (encode t d),
  length-encode-fixed s h.0 a c,
  length-encode-fixed t h.1 b d,
)

module _ {ℓ} {A : Type ℓ} (size : A → ℕ) (enc : A → List ℕ) where
  -- Sizes that are added up.
  probe-variable :
      ((x : A) → length (enc x) < 2 ^ 64 → size x ≡ length (enc x))
      → (xs : List A) → length (encode_each enc xs) < 2 ^ 64
      → probe_elements true size xs ≡ length (encode_each enc xs)
  unfolding encode_each
  probe-variable h [] k = refl
  probe-variable h (x ∷ xs) k =
      let e = length-append (enc x) (encode_each enc xs) in
      let i = h x (omega arith) in let j = probe-variable h xs (omega arith) in omega (arith, i, j)

  encode_each-fixed :
      (n : ℕ)
      → ((x : A) → length (enc x) ≡ n)
      → (xs : List A) → length (encode_each enc xs) ≡ length xs * n
  unfolding encode_each
  encode_each-fixed n h [] = omega arith
  encode_each-fixed n h (x ∷ xs) =
      grind (arith, length-append (enc x) (encode_each enc xs), h x, encode_each-fixed n h xs)

  -- The size of the first element for all.
  probe-fixed :
      ((x : A) → length (enc x) < 2 ^ 64 → size x ≡ length (enc x))
      → ((x y : A) → length (enc x) ≡ length (enc y))
      → (xs : List A) → length (encode_each enc xs) < 2 ^ 64
      → probe_elements false size xs ≡ length (encode_each enc xs)
  unfolding encode_each
  probe-fixed h same [] k = refl
  probe-fixed h same (x ∷ xs) k =
      let total : length (encode_each enc (x ∷ xs)) ≡ suc (length xs) * length (enc x) =
        encode_each-fixed (length (enc x)) (λ y. same y x) (x ∷ xs) in
      let first : size x ≡ length (enc x) =
        h x (omega (arith, length-append (enc x) (encode_each enc xs))) in
      rw first (sum (suc (length xs) * length (enc x)) total)
    where
      sum :
          (n : ℕ)
          → length (encode_each enc (x ∷ xs)) ≡ n
          → n % 2 ^ 64 ≡ length (encode_each enc (x ∷ xs))
      sum n e = omega arith

probe-sequence :
    (t : Ty)
    → ((x : Value t) → length (encode t x) < 2 ^ 64 → probe_size t x ≡ length (encode t x))
    → HasFixedSize t ⊎ (is_variable_type t ≡ true)
    → (xs : List (Value t)) → length (bytes_of 4 (length xs) ++ encode_each (encode t) xs) < 2 ^ 64
    → add_size 4 (probe_elements (is_variable_type t) (probe_size t) xs)
      ≡ length (bytes_of 4 (length xs) ++ encode_each (encode t) xs)
probe-sequence t h (inl fixed) xs k =
    let e = length-append (bytes_of 4 (length xs)) (encode_each (encode t) xs) in
    let i =
      probe-fixed (probe_size t) (encode t) h (length-encode-fixed t fixed) xs (omega arith) in
    rw (fixed-ne-variable t fixed) (omega (arith, i, length-bytes_of 4 (length xs)))
probe-sequence t h (inr variable) xs k =
    let e = length-append (bytes_of 4 (length xs)) (encode_each (encode t) xs) in
    let i = probe-variable (probe_size t) (encode t) h xs (omega arith) in
    rw variable (omega (arith, i, length-bytes_of 4 (length xs)))

-- For a measured type probeSize gives the number of bytes that a value takes in a buffer, if that
-- is a 64-bit number.
pub probe_size-eq-length :
    (t : Ty)
    → IsMeasured t
    → (v : Value t) → length (encode t v) < 2 ^ 64
    → probe_size t v ≡ length (encode t v)
unfolding probe_size encode
probe_size-eq-length (number w) m v k = sym (length-bytes_of w v)
probe_size-eq-length boolean m v k = sym (length-bytes_of 1 _)
probe_size-eq-length string m v k =
    omega (arith, length-append (bytes_of 4 (length v)) v, length-bytes_of 4 (length v))
probe_size-eq-length error_code m (c, x) k = sym (length-code c x)
probe_size-eq-length (vector t) m v k = probe-sequence t (probe_size-eq-length t m.0) m.1 v k
probe_size-eq-length (linked_list t) m v k = probe-sequence t (probe_size-eq-length t m.0) m.1 v k
probe_size-eq-length (pair s t) m (x, y) k =
    let e = length-append (encode s x) (encode t y) in
    let i = probe_size-eq-length s m.0 x (omega arith) in
    let j = probe_size-eq-length t m.1 y (omega arith) in omega (arith, i, j)

length-named :
    (w a : ℕ) (s : List ℕ) → length (encode (pair string (number w)) (s, a)) ≡ 4 + length s + w
unfolding encode
length-named w a s = omega (
  arith,
  length-append (bytes_of 4 (length s) ++ s) (bytes_of w a),
  length-append (bytes_of 4 (length s)) s,
  length-bytes_of 4 (length s),
  length-bytes_of w a,
)

length-two :
    (t : Ty) (x y : Value t)
    → length (encode (vector t) (x ∷ y ∷ [])) ≡ 4 + length (encode t x) + length (encode t y)
unfolding encode
length-two t x y = omega (
  arith,
  length-append (bytes_of 4 2) (encode t x ++ (encode t y ++ [])),
  length-append (encode t x) (encode t y ++ []),
  length-append (encode t y) [],
  length-bytes_of 4 2,
)

probe-two :
    (w a b : ℕ) (s t : List ℕ)
    → w < 2 ^ 60
    → length s < 2 ^ 60
    → probe_size (vector (pair string (number w))) ((s, a) ∷ (t, b) ∷ [])
      ≡ 4 + 2 * (4 + length s + w)
unfolding probe_size is_variable_type
probe-two w a b s t hw hs = omega arith

-- A std::pair with a std::string is not a variable type, so that the first element's size stands for
-- all: for two such pairs whose strings differ in length probeSize is not the number of bytes
-- written.
pub probe_size-ne-length :
    (w a b : ℕ) (s t : List ℕ)
    → w < 2 ^ 60
    → length s < 2 ^ 60
    → length s ≢ length t
    → let v : Value (vector (pair string (number w))) = (s, a) ∷ (t, b) ∷ [] in
      probe_size (vector (pair string (number w))) v
      ≢ length (encode (vector (pair string (number w))) v)
probe_size-ne-length w a b s t hw hs ne e = ne (
    omega (
      arith,
      e,
      probe-two w a b s t hw hs,
      length-two (pair string (number w)) (s, a) (t, b),
      length-named w a s,
      length-named w b t,
    ))
