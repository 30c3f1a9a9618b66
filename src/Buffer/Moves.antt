-- ===== src/Buffer/Moves.antt =====
-- The moves back and the marks of include/core/Buffer.h: each undoes what it is meant to.
use supercell_common.Common.{
  ℕ, ◌≤◌, ◌<◌, ◌≡◌, refl, ap, ok, err, length_error, length, arith, ◌>>=◌,
}
use supercell_common.Buffer.State.{Mode, plain, circular, Buffer}
use supercell_common.Buffer.Positions.{
  rskip, wskip, rrev, wrev, mark, reset, data_size, free_size, allocated_size,
}
use supercell_common.Buffer.Contents.{filled, contents, IsValid, length-contents}
use supercell_common.Buffer.Stores.{HasRoom}
use supercell_common.Buffer.Skips.{rskip_lem, skipped}

rrev-skipped :
    (m : Mode) (b : Buffer) (n : ℕ) → IsValid m b → n ≤ filled b → rrev m n (skipped m b n) ≡ ok b
unfolding rrev
rrev-skipped plain b n v h = ground arith
rrev-skipped circular b n v h = ground arith

-- rrev after an rskip of the bytes held gives back the buffer.
pub rrev-rskip :
    (m : Mode) (b : Buffer) (n : ℕ)
    → IsValid m b
    → n ≤ length (contents b)
    → (rskip m n b >>= rrev m n) ≡ ok b
rrev-rskip m b n v h =
    let k : n ≤ filled b = omega (arith, length-contents b) in
    rw (rskip_lem m b n v k) (rrev-skipped m b n v k)

-- wrev after a wskip into free space gives back the buffer.
pub wrev-wskip :
    (m : Mode) (b : Buffer) (n : ℕ)
    → IsValid m b
    → HasRoom m n b
    → (wskip m n b >>= wrev m n) ≡ ok b
unfolding wskip wrev free_size allocated_size data_size
wrev-wskip plain b n v h = ground arith
wrev-wskip circular b n v h = ground arith

-- A circular buffer refuses by an exception to skip bytes that it does not hold, if they are fewer
-- than its capacity.
pub rskip-beyond :
    (b : Buffer) (n : ℕ)
    → IsValid circular b
    → length (contents b) < n
    → n < b.allocated
    → rskip circular n b ≡ err length_error
unfolding rskip data_size
rskip-beyond b n v h k = ground (arith, length-contents b)

mark-IsValid : (m : Mode) (b : Buffer) → IsValid m b → IsValid m (mark b)
unfolding mark
mark-IsValid plain b v = omega arith
mark-IsValid circular b v = omega arith

contents-mark : (b : Buffer) → contents (mark b) ≡ contents b
unfolding contents mark
contents-mark b = refl

contents-reset :
    (m : Mode) (b : Buffer) (n : ℕ) → contents (reset (skipped m (mark b) n)) ≡ contents b
unfolding contents mark reset
contents-reset m b n = refl

-- reset() after mark() and any number of skipped bytes gives back all bytes that were held.
pub reset-rskip-mark :
    (m : Mode) (b : Buffer) (n : ℕ)
    → IsValid m b
    → n ≤ length (contents b)
    → (b' : Buffer) × (rskip m n (mark b) ≡ ok b') × (contents (reset b') ≡ contents b)
reset-rskip-mark m b n v h =
    let k : n ≤ filled (mark b) =
      omega (arith, length-contents (mark b), ap length (contents-mark b)) in
    (skipped m (mark b) n, rskip_lem m (mark b) n (mark-IsValid m b v) k, contents-reset m b n)
