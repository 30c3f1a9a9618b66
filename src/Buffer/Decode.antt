-- ===== src/Buffer/Decode.antt =====
-- Typed reads of include/core/Buffer.h against the wire format: where the bytes held begin with those
-- of a value, a read gives the value and leaves the others.
use supercell_common.Common.{
  ℕ, ◌^◌, ◌≤◌, ◌<◌, ◌≡◌, refl, ap, ◌∙◌, true, false, List, [], ◌∷◌, ◌++◌, length, length-append,
  All, arith, Result, ok, ◌>>=◌, append_assoc, le→leb, take, drop, take_append_length,
  drop_append_length,
}
use supercell_common.Buffer.State.{Mode, plain, circular, Buffer}
use supercell_common.Buffer.Block.{get_direct}
use supercell_common.Buffer.Contents.{filled, contents, IsValid, length-contents}
use supercell_common.Buffer.Copies.{get_direct_lem}
use supercell_common.Buffer.Skips.{rskip_lem, skipped, skipped-IsValid, contents-skipped}
use supercell_common.Buffer.Read.{Took, read_direct-prefix}
use supercell_common.Buffer.Values.{
  Ty, number, boolean, string, error_code, vector, linked_list, pair, system, generic, unknown,
  bytes_of, read_each, read_number, read_text, read_string, read_error_code, read_elements,
  read_value,
}
use supercell_common.Buffer.Wire.{
  encode_each, encode, WellFormed, length-bytes_of, number_of-bytes_of,
}

-- Reading takes off the bytes `enc` of a value that satisfies `P`.
abbrev Reads {ℓ κ} :
    {A : Type ℓ}
    → Mode
    → (Buffer → Result (A × Buffer))
    → (A → List ℕ)
    → (A → Type κ)
    → Type (ℓ ⊔ κ)
Reads {A} m f enc P =
    (x : A) (rest : List ℕ) (b : Buffer)
    → P x
    → IsValid m b
    → contents b ≡ enc x ++ rest
    → (b' : Buffer) × (f b ≡ ok (x, b')) × Took m rest b'

read_number-Reads : (m : Mode) (w : ℕ) → Reads m (read_number m w) (bytes_of w) (λ v. v < 256 ^ w)
unfolding read_number
read_number-Reads m w v rest b p valid e =
    let (b', r, took) = read_direct-prefix m (bytes_of w v) rest b valid e in
    let r' = rw (length-bytes_of w v) at r in
    (b', rw r' (ap (λ n. ok (n, b')) (number_of-bytes_of w v p)), took)

-- A number and what is read behind it.
number_then {ℓ} :
    {A : Type ℓ} (m : Mode) (w v : ℕ) (body rest : List ℕ) (x : A) (b : Buffer)
    (g : ℕ × Buffer → Result (A × Buffer))
    → v < 256 ^ w
    → ((b' : Buffer)
        → IsValid m b'
        → contents b' ≡ body ++ rest
        → (b'' : Buffer) × (g (v, b') ≡ ok (x, b'')) × Took m rest b'')
    → IsValid m b
    → contents b ≡ (bytes_of w v ++ body) ++ rest
    → (b'' : Buffer) × ((read_number m w b >>= g) ≡ ok (x, b'')) × Took m rest b''
number_then m w v body rest x b g p second valid e =
    let (b', r, took) =
      read_number-Reads m w v (body ++ rest) b p valid
        (e ∙ append_assoc (bytes_of w v) body rest) in
    let (b'', r', took') = second b' took.valid took.left in (b'', rw r r', took')

read_each-Reads {ℓ κ} :
    {A : Type ℓ} (m : Mode) (f : Buffer → Result (A × Buffer)) (enc : A → List ℕ) (P : A → Type κ)
    → Reads m f enc P
    → (xs : List A) (rest : List ℕ) (b : Buffer) → All P xs
    → IsValid m b
    → contents b ≡ encode_each enc xs ++ rest
    → (b' : Buffer) × (read_each f (length xs) b ≡ ok (xs, b')) × Took m rest b'
unfolding read_each encode_each
read_each-Reads m f enc P h [] rest b p valid e = (b, refl, record { valid = valid; left = e })
read_each-Reads m f enc P h (x ∷ xs) rest b p valid e =
    let (b', r, took) =
      h x (encode_each enc xs ++ rest) b p.0 valid
        (e ∙ append_assoc (enc x) (encode_each enc xs) rest) in
    let (b'', r', took') = read_each-Reads m f enc P h xs rest b' p.1 took.valid took.left in
    (b'', simp (r, r'), took')

read_elements-Reads {ℓ κ} :
    {A : Type ℓ} (m : Mode) (limit : ℕ) (f : Buffer → Result (A × Buffer)) (enc : A → List ℕ)
    (P : A → Type κ)
    → limit ≤ 65536
    → Reads m f enc P
    → Reads m
        (read_elements m limit f)
        (λ xs. bytes_of 4 (length xs) ++ encode_each enc xs)
        (λ xs. (length xs ≤ limit) × All P xs)
unfolding read_elements
read_elements-Reads m limit f enc P small h xs rest b p valid e =
    number_then m 4 (length xs) (encode_each enc xs) rest xs b _ (omega arith)
      (λ b' v' e'.
        let (b'', r, took) = read_each-Reads m f enc P h xs rest b' p.1 v' e' in
        (b'', rw (le→leb (length xs) limit p.0) r, took))
      valid e

read_text-eq-get_direct :
    (m : Mode) (n : ℕ) (b : Buffer) → read_text m n b ≡ get_direct m b b.read_pos n
unfolding read_text get_direct
read_text-eq-get_direct plain n b = refl
read_text-eq-get_direct circular n b = ground arith

read_string-Reads :
    (m : Mode) → Reads m (read_string m) (λ v. bytes_of 4 (length v) ++ v) (λ v. length v ≤ 8192)
unfolding read_string
read_string-Reads m v rest b p valid e =
    number_then m 4 (length v) v rest v b _ (omega arith)
      (λ b' v' e'.
        let k : length v ≤ filled b' =
          omega (arith, length-append v rest, ap length e', length-contents b') in
        let t : read_text m (length v) b' ≡ ok v =
          read_text-eq-get_direct m (length v) b'
          ∙ get_direct_lem m b' (length v) v' k
          ∙ ap (λ xs. ok (take (length v) xs)) e'
          ∙ ap ok (take_append_length v rest) in
        (
          skipped m b' (length v),
          rw (le→leb (length v) 8192 p, t, rskip_lem m b' (length v) v' k),
          record {
            valid = skipped-IsValid m b' (length v) v' k;
            left =
                contents-skipped m b' (length v) v' k
                ∙ ap (drop (length v)) e'
                ∙ drop_append_length v rest;
          },
        ))
      valid e

read_error_code-Reads :
    (m : Mode) → Reads m (read_error_code m) (encode error_code) (WellFormed error_code)
unfolding read_error_code encode
read_error_code-Reads m (code, system) rest b p valid e =
    number_then m 4 code (bytes_of 4 0) rest (code, system) b _ p.0
      (λ b' v' e'.
        let (b'', r, took) = read_number-Reads m 4 0 rest b' (omega arith) v' e' in
        (b'', rw r refl, took))
      valid e
read_error_code-Reads m (code, generic) rest b p valid e =
    number_then m 4 code (bytes_of 4 1) rest (code, generic) b _ p.0
      (λ b' v' e'.
        let (b'', r, took) = read_number-Reads m 4 1 rest b' (omega arith) v' e' in
        (b'', rw r refl, took))
      valid e
read_error_code-Reads m (code, unknown) rest b p valid e = absurd p.1

read_boolean-Reads :
    (m : Mode) → Reads m (read_value m boolean) (encode boolean) (WellFormed boolean)
unfolding read_value encode
read_boolean-Reads m true rest b p valid e =
    let (b', r, took) = read_number-Reads m 1 1 rest b (omega arith) valid e in
    (b', rw r refl, took)
read_boolean-Reads m false rest b p valid e =
    let (b', r, took) = read_number-Reads m 1 0 rest b (omega arith) valid e in
    (b', rw r refl, took)

-- read() of a valid buffer whose bytes begin with those of a value gives that value.
pub read_value-Reads : (m : Mode) (t : Ty) → Reads m (read_value m t) (encode t) (WellFormed t)
unfolding read_value encode
read_value-Reads m (number w) v rest b p valid e = read_number-Reads m w v rest b p valid e
read_value-Reads m boolean v rest b p valid e = read_boolean-Reads m v rest b p valid e
read_value-Reads m string v rest b p valid e = read_string-Reads m v rest b p valid e
read_value-Reads m error_code v rest b p valid e = read_error_code-Reads m v rest b p valid e
read_value-Reads m (vector t) v rest b p valid e =
    read_elements-Reads m 65536 (read_value m t) (encode t) (WellFormed t) (omega arith)
      (read_value-Reads m t) v rest b p valid e
read_value-Reads m (linked_list t) v rest b p valid e =
    read_elements-Reads m 65536 (read_value m t) (encode t) (WellFormed t) (omega arith)
      (read_value-Reads m t) v rest b p valid e
read_value-Reads m (pair s t) (x, y) rest b p valid e =
    let (b', r, took) =
      read_value-Reads m s x (encode t y ++ rest) b p.0 valid
        (e ∙ append_assoc (encode s x) (encode t y) rest) in
    let (b'', r', took') = read_value-Reads m t y rest b' p.1 took.valid took.left in
    (b'', simp (r, r'), took')
