-- ===== src/Buffer/Read.antt =====
-- readDirect and readArray of include/core/Buffer.h: a read takes the oldest bytes held.
use supercell_common.Common.{
  ℕ, ◌≤◌, ◌<◌, ◌≡◌, ap, ◌∙◌, List, ◌++◌, ok, err, assertion, length, take, drop, arith,
  length-append, take_append_length, drop_append_length,
}
use supercell_common.Buffer.State.{Mode, Buffer}
use supercell_common.Buffer.Block.{get_array, read_direct, read_array}
use supercell_common.Buffer.Contents.{filled, contents, IsValid, length-contents}
use supercell_common.Buffer.Copies.{get_direct_lem}
use supercell_common.Buffer.Skips.{
  data_size_lem, rskip_lem, skipped, skipped-IsValid, contents-skipped,
}

pub read_array-skipped :
    (m : Mode) (n : ℕ) (b : Buffer)
    → IsValid m b
    → n ≤ length (contents b)
    → read_array m n b ≡ ok (take n (contents b), skipped m b n)
unfolding read_array get_array
read_array-skipped m n b v h =
    let k : n ≤ filled b = omega (arith, length-contents b) in
    ground (arith, data_size_lem m b v, get_direct_lem m b n v k, rskip_lem m b n v k)

-- readArray of at most the bytes held succeeds: it gives the oldest bytes in order, leaves the
-- others, and keeps the buffer valid.
pub read_array_lem :
    (m : Mode) (n : ℕ) (b : Buffer)
    → IsValid m b
    → n ≤ length (contents b)
    → (b' : Buffer) × (read_array m n b ≡ ok (take n (contents b), b'))
      × IsValid m b'
      × (contents b' ≡ drop n (contents b))
read_array_lem m n b v h =
    let k : n ≤ filled b = omega (arith, length-contents b) in
    (
      skipped m b n,
      read_array-skipped m n b v h,
      skipped-IsValid m b n v k,
      contents-skipped m b n v k,
    )

-- readDirect, which all numbers are read by, does the same.
pub read_direct_lem :
    (m : Mode) (n : ℕ) (b : Buffer)
    → IsValid m b
    → n ≤ length (contents b)
    → (b' : Buffer) × (read_direct m n b ≡ ok (take n (contents b), b'))
      × IsValid m b'
      × (contents b' ≡ drop n (contents b))
unfolding read_direct
read_direct_lem m n b v h =
    let k : n ≤ filled b = omega (arith, length-contents b) in
    (
      skipped m b n,
      ground (arith, get_direct_lem m b n v k, rskip_lem m b n v k),
      skipped-IsValid m b n v k,
      contents-skipped m b n v k,
    )

-- What a read of the bytes `bs` leaves, where they are followed by `rest`.
pub record Took (m : Mode) (rest : List ℕ) (b' : Buffer) : Type 0 where
  pub valid : IsValid m b'
  pub left : contents b' ≡ rest

pub read_direct-prefix :
    (m : Mode) (bs rest : List ℕ) (b : Buffer)
    → IsValid m b
    → contents b ≡ bs ++ rest
    → (b' : Buffer) × (read_direct m (length bs) b ≡ ok (bs, b')) × Took m rest b'
read_direct-prefix m bs rest b v e =
    let h : length bs ≤ length (contents b) = rw e (omega (arith, length-append bs rest)) in
    let (b', r, v', left) = read_direct_lem m (length bs) b v h in
    (
      b',
      r
          ∙ ap (λ xs. ok (take (length bs) xs, b')) e
          ∙ ap (λ xs. ok (xs, b')) (take_append_length bs rest),
      record { valid = v'; left = left ∙ ap (drop (length bs)) e ∙ drop_append_length bs rest },
    )

-- A circular buffer refuses to read more than it holds.
pub read_array-beyond :
    (m : Mode) (n : ℕ) (b : Buffer)
    → IsValid m b
    → length (contents b) < n
    → read_array m n b ≡ err assertion
unfolding read_array get_array
read_array-beyond m n b v h = ground (arith, data_size_lem m b v, length-contents b)
