-- ===== src/Buffer/RoundTrip.antt =====
-- Typed reads and writes of include/core/Buffer.h against the wire format: a write adds the bytes of
-- its value, and a read takes them off again.
use native.Mathlib.Nat.{zero-add}
use supercell_common.Common.{
  ℕ, ◌+◌, ◌%◌, ◌^◌, ◌≤◌, ◌≡◌, refl, sym, ap, ◌∙◌, List, [], ◌∷◌, ◌++◌, length, length-append, All,
  arith, if◌then◌else◌, Result, ok, ◌>>=◌, append_assoc, append-nil, le→leb, take-length,
}
use supercell_common.Buffer.State.{Mode, Buffer, Allocator, IsAllocator}
use supercell_common.Buffer.Block.{write_array}
use supercell_common.Buffer.Contents.{contents, IsValid}
use supercell_common.Buffer.Room.{Ready}
use supercell_common.Buffer.Write.{Wrote, write_array_lem, write_direct_lem}
use supercell_common.Buffer.Values.{
  Ty, number, boolean, string, error_code, vector, linked_list, pair, bytes_of, write_each,
  write_number, write_value, system, generic, unknown, write_elements, write_string,
  write_error_code,
}
use supercell_common.Buffer.Wire.{encode_each, encode, WellFormed}

-- Writing a value that satisfies `P` adds the bytes `enc` of it.
abbrev Writes {ℓ κ} :
    {A : Type ℓ} → Mode → (A → Buffer → Result Buffer) → (A → List ℕ) → (A → Type κ) → Type (ℓ ⊔ κ)
Writes {A} m f enc P =
    (x : A) (rest : ℕ) (b : Buffer)
    → P x
    → IsValid m b
    → Ready m (length (enc x) + rest) b
    → (b' : Buffer) × (f x b ≡ ok b') × Wrote m (enc x) rest b b'

-- One write after another.
Wrote-append :
    (m : Mode) (xs ys : List ℕ) (j k : ℕ) (b b' b'' : Buffer)
    → Wrote m xs j b b'
    → Wrote m ys k b' b''
    → Wrote m (xs ++ ys) k b b''
Wrote-append m xs ys j k b b' b'' w w' = record {
  valid = w'.valid;
  appended = w'.appended ∙ ap (λ zs. zs ++ ys) w.appended ∙ append_assoc (contents b) xs ys;
  ready = w'.ready;
}

split-Ready :
    (m : Mode) (xs ys : List ℕ) (k : ℕ) (b : Buffer)
    → Ready m (length (xs ++ ys) + k) b
    → Ready m (length xs + (length ys + k)) b
split-Ready m xs ys k b r =
    let e : length (xs ++ ys) + k ≡ length xs + (length ys + k) =
      omega (arith, length-append xs ys) in
    rw e at r

-- Two writes in a row, the second from where the first ends.
write_then :
    (m : Mode) (xs ys : List ℕ) (k : ℕ) (b : Buffer) (f g : Buffer → Result Buffer)
    → ((j : ℕ) → Ready m (length xs + j) b → (b' : Buffer) × (f b ≡ ok b') × Wrote m xs j b b')
    → ((b' : Buffer)
        → IsValid m b'
        → Ready m (length ys + k) b'
        → (b'' : Buffer) × (g b' ≡ ok b'') × Wrote m ys k b' b'')
    → Ready m (length (xs ++ ys) + k) b
    → (b'' : Buffer) × ((f b >>= g) ≡ ok b'') × Wrote m (xs ++ ys) k b b''
write_then m xs ys k b f g first second r =
    let (b', e, w) = first (length ys + k) (split-Ready m xs ys k b r) in
    let (b'', e', w') = second b' w.valid w.ready in
    (b'', rw e e', Wrote-append m xs ys (length ys + k) k b b' b'' w w')

write_each-Writes {ℓ κ} :
    {A : Type ℓ} (m : Mode) (f : A → Buffer → Result Buffer) (enc : A → List ℕ) (P : A → Type κ)
    → Writes m f enc P
    → Writes m (write_each f) (encode_each enc) (All P)
unfolding write_each encode_each
write_each-Writes m f enc P h [] rest b p v r = (
  b,
  refl,
  record { valid = v; appended = sym (append-nil (contents b)); ready = rw zero-add at r },
)
write_each-Writes m f enc P h (x ∷ xs) rest b p v r =
    write_then m (enc x) (encode_each enc xs) rest b (f x) (write_each f xs)
      (λ j r'. h x j b p.0 v r') (λ b' v' r'. write_each-Writes m f enc P h xs rest b' p.1 v' r') r

module _ (heap : Allocator) (laws : IsAllocator heap) (m : Mode) where
  write_number-Writes : (w : ℕ) → Writes m (write_number heap m w) (bytes_of w) (λ v. Unit {0})
  unfolding write_number
  write_number-Writes w v rest b p valid r =
      write_direct_lem heap laws m (bytes_of w v) rest b valid r

  -- A length prefix and what follows it.
  with_prefix :
      (n rest : ℕ) (body : List ℕ) (b : Buffer) (g : Buffer → Result Buffer)
      → ((b' : Buffer)
          → IsValid m b'
          → Ready m (length body + rest) b'
          → (b'' : Buffer) × (g b' ≡ ok b'') × Wrote m body rest b' b'')
      → IsValid m b
      → Ready m (length (bytes_of 4 n ++ body) + rest) b
      → (b'' : Buffer) × ((write_number heap m 4 n b >>= g) ≡ ok b'')
        × Wrote m (bytes_of 4 n ++ body) rest b b''
  with_prefix n rest body b g second valid r =
      write_then m (bytes_of 4 n) body rest b (write_number heap m 4 n) g
        (λ j r'. write_number-Writes 4 n j b tt valid r') second r

  write_elements-Writes {ℓ κ} :
      {A : Type ℓ} (f : A → Buffer → Result Buffer) (enc : A → List ℕ) (P : A → Type κ)
      → Writes m f enc P
      → Writes m
          (write_elements heap m f)
          (λ xs. bytes_of 4 (length xs) ++ encode_each enc xs)
          (λ xs. (length xs ≤ 65536) × All P xs)
  unfolding write_elements
  write_elements-Writes f enc P h xs rest b p valid r =
      let (b', e, w) =
        with_prefix (length xs) rest (encode_each enc xs) b (write_each f xs)
          (λ b' v' r'. write_each-Writes m f enc P h xs rest b' p.1 v' r') valid r in
      let cut : length xs % 2 ^ 32 ≡ length xs = omega arith in
      (b', rw cut (rw (le→leb (length xs) 65536 p.0) e), w)

  write_string-Writes :
      Writes m (write_string heap m) (λ v. bytes_of 4 (length v) ++ v) (λ v. length v ≤ 8192)
  unfolding write_string
  write_string-Writes v rest b p valid r =
      let (b', e, w) =
        with_prefix (length v) rest v b (write_array heap m v)
          (λ b' v' r'. write_array_lem heap laws m v rest b' v' r') valid r in
      let cut : length v % 2 ^ 32 ≡ length v = omega arith in
      (b', rw cut (rw (le→leb (length v) 8192 p, take-length v) e), w)

  write_error_code-Writes :
      Writes m (write_error_code heap m) (encode error_code) (WellFormed error_code)
  unfolding write_error_code encode
  write_error_code-Writes (code, system) rest b p valid r =
      with_prefix code rest (bytes_of 4 0) b (write_number heap m 4 0)
        (λ b' v' r'. write_number-Writes 4 0 rest b' tt v' r') valid r
  write_error_code-Writes (code, generic) rest b p valid r =
      with_prefix code rest (bytes_of 4 1) b (write_number heap m 4 1)
        (λ b' v' r'. write_number-Writes 4 1 rest b' tt v' r') valid r
  write_error_code-Writes (code, unknown) rest b p valid r = absurd p.1

  -- write() of a value that the wire format can carry, into a valid buffer that is ready for its
  -- bytes, succeeds and adds exactly those bytes.
  pub write_value-Writes : (t : Ty) → Writes m (write_value heap m t) (encode t) (WellFormed t)
  unfolding write_value encode
  write_value-Writes (number w) v rest b p valid r = write_number-Writes w v rest b tt valid r
  write_value-Writes boolean v rest b p valid r =
      write_number-Writes 1 (if v then 1 else 0) rest b tt valid r
  write_value-Writes string v rest b p valid r = write_string-Writes v rest b p valid r
  write_value-Writes error_code v rest b p valid r = write_error_code-Writes v rest b p valid r
  write_value-Writes (vector t) v rest b p valid r =
      write_elements-Writes (write_value heap m t) (encode t) (WellFormed t) (write_value-Writes t)
        v rest b p valid r
  write_value-Writes (linked_list t) v rest b p valid r =
      write_elements-Writes (write_value heap m t) (encode t) (WellFormed t) (write_value-Writes t)
        v rest b p valid r
  write_value-Writes (pair s t) (x, y) rest b p valid r =
      write_then m (encode s x) (encode t y) rest b (write_value heap m s x)
        (write_value heap m t y) (λ j r'. write_value-Writes s x j b p.0 valid r')
        (λ b' v' r'. write_value-Writes t y rest b' p.1 v' r') r
