-- ===== src/Buffer/Contents.antt =====
-- What a buffer holds: the bytes from the read position to the write position, going round the end
-- of the block. This is the abstract view of a BufferBase of include/core/Buffer.h, with the
-- representation invariant, and what the copies out of and into a block do at each byte.
use supercell_common.Common.{
  ℕ, ◌+◌, ◌-◌, ◌^◌, ◌≤◌, ◌<◌, ◌≡◌, ◌∙◌, List, ok, ltb, length, nth, take, drop, splice, tabulate,
  length-tabulate, nth-tabulate, length-take, length-drop, nth-take, nth-drop, le→leb, arith,
  if◌then◌else◌, list_ext,
}
use supercell_common.Buffer.State.{Mode, plain, circular, Buffer, load, store}

-- The number of bytes from the read position to the write position.
abbrev pub filled : Buffer → ℕ
filled b =
    if ltb b.write_pos b.read_pos
    then b.allocated - b.read_pos + b.write_pos
    else b.write_pos - b.read_pos

abbrev pub around : ℕ → ℕ → ℕ
around n j = if ltb j n then j else j - n

unfoldable pub contents : Buffer → List ℕ
contents b = tabulate (filled b) (λ i. nth b.mem (around b.allocated (b.read_pos + i)))

-- A plain buffer may be read up to the write position; a circular one keeps one byte free.
abbrev pub InRange : Mode → Buffer → Type 0
InRange plain b = (b.read_pos ≤ b.write_pos) × (b.write_pos ≤ b.allocated)
InRange circular b = (b.read_pos ≤ b.allocated - 1) × (b.write_pos ≤ b.allocated - 1)

-- The block is all there, no larger than half the address space, and the positions lie in it.
pub record IsValid (m : Mode) (b : Buffer) : Type 0 where
  pub block : b.allocated ≤ length b.mem
  pub small : b.allocated ≤ 2 ^ 63
  pub positions : InRange m b

pub length-contents : (b : Buffer) → length (contents b) ≡ filled b
unfolding contents
length-contents b = length-tabulate (filled b) _

pub nth-contents :
    (b : Buffer) (i : ℕ)
    → i < filled b
    → nth (contents b) i ≡ nth b.mem (around b.allocated (b.read_pos + i))
unfolding contents
nth-contents b i h = nth-tabulate (filled b) _ i h

pub load_lem :
    (mem : List ℕ) (p n : ℕ) → p + n ≤ length mem → load mem p n ≡ ok (take n (drop p mem))
unfolding load
load_lem mem p n h = ground (arith, le→leb (p + n) (length mem))

pub store_lem :
    (mem : List ℕ) (p : ℕ) (bs : List ℕ)
    → p + length bs ≤ length mem
    → store mem p bs ≡ ok (splice p bs mem)
unfolding store
store_lem mem p bs h = ground (arith, le→leb (p + length bs) (length mem))

-- A slice of a block.
pub length-slice : (mem : List ℕ) (p n : ℕ) → p + n ≤ length mem → length (take n (drop p mem)) ≡ n
length-slice mem p n h = omega (arith, length-take n (drop p mem), length-drop p mem)

pub nth-slice :
    (mem : List ℕ) (p n i j : ℕ) → i < n → j ≡ p + i → nth (take n (drop p mem)) i ≡ nth mem j
nth-slice mem p n i j h e = nth-take n (drop p mem) i h ∙ nth-drop p mem i j e

-- A buffer whose bytes are known at each index holds them.
pub contents_ext :
    (b : Buffer) (xs : List ℕ)
    → filled b ≡ length xs
    → ((i : ℕ) → i < length xs → nth b.mem (around b.allocated (b.read_pos + i)) ≡ nth xs i)
    → contents b ≡ xs
contents_ext b xs e h = list_ext (contents b) xs (length-contents b ∙ e) (λ i hi.
    nth-contents b i (omega (arith, length-contents b)) ∙ h i (omega (arith, length-contents b)))
