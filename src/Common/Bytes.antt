-- ===== src/Common/Bytes.antt =====
-- Blocks of memory as lists of bytes: reading and overwriting a range, and how each shows at an
-- index. Two blocks are equal when they agree at each index.
use Prim.Native.Nat.{ℕ, zero, suc, ◌+◌, ◌≤◌, ◌<◌}
use mathlib.Core.Path.{◌≡◌, refl, ap, ap₂}
use mathlib.Core.List.{List, [], ◌∷◌, ◌++◌}
use native.Mathlib.Omega.{arith}
use supercell_common.Common.Lists.{length, get_or, take, drop}

-- The byte at an index, 0 past the end.
abbrev pub nth : List ℕ → ℕ → ℕ
nth xs i = get_or xs i 0

-- The first `n` values of a function.
abbrev pub tabulate : ℕ → (ℕ → ℕ) → List ℕ
tabulate zero f = []
tabulate (suc n) f = f 0 ∷ tabulate n (λ i. f (suc i))

-- Overwrite the bytes from index `p` on by `bs`; what reaches past the end is dropped.
abbrev pub splice : ℕ → List ℕ → List ℕ → List ℕ
splice p [] mem = mem
splice p (b ∷ bs) [] = []
splice zero (b ∷ bs) (x ∷ mem) = b ∷ splice zero bs mem
splice (suc p) (b ∷ bs) (x ∷ mem) = x ∷ splice p (b ∷ bs) mem

pub length-tabulate : (n : ℕ) (f : ℕ → ℕ) → length (tabulate n f) ≡ n
length-tabulate zero f = refl
length-tabulate (suc n) f = ap suc (length-tabulate n (λ i. f (suc i)))

pub nth-tabulate : (n : ℕ) (f : ℕ → ℕ) (i : ℕ) → i < n → nth (tabulate n f) i ≡ f i
nth-tabulate zero f i h = absurd (omega arith)
nth-tabulate (suc n) f zero h = refl
nth-tabulate (suc n) f (suc i) h = nth-tabulate n (λ i. f (suc i)) i (omega arith)

pub length-splice : (p : ℕ) (bs mem : List ℕ) → length (splice p bs mem) ≡ length mem
length-splice p [] mem = refl
length-splice p (b ∷ bs) [] = refl
length-splice zero (b ∷ bs) (x ∷ mem) = ap suc (length-splice zero bs mem)
length-splice (suc p) (b ∷ bs) (x ∷ mem) = ap suc (length-splice p (b ∷ bs) mem)

pub nth-take : (n : ℕ) (xs : List ℕ) (i : ℕ) → i < n → nth (take n xs) i ≡ nth xs i
nth-take zero xs i h = absurd (omega arith)
nth-take (suc n) [] i h = refl
nth-take (suc n) (x ∷ xs) zero h = refl
nth-take (suc n) (x ∷ xs) (suc i) h = nth-take n xs i (omega arith)

pub nth-past : (xs : List ℕ) (i : ℕ) → length xs ≤ i → nth xs i ≡ 0
nth-past [] i h = refl
nth-past (x ∷ xs) zero h = absurd (omega arith)
nth-past (x ∷ xs) (suc i) h = nth-past xs i (omega arith)

pub nth-drop : (n : ℕ) (xs : List ℕ) (i j : ℕ) → j ≡ n + i → nth (drop n xs) i ≡ nth xs j
nth-drop zero xs i j e = ap (nth xs) (omega arith)
nth-drop (suc n) [] i j e = refl
nth-drop (suc n) (x ∷ xs) i zero e = absurd (omega arith)
nth-drop (suc n) (x ∷ xs) i (suc j) e = nth-drop n xs i j (omega arith)

pub nth-append-left : (xs ys : List ℕ) (i : ℕ) → i < length xs → nth (xs ++ ys) i ≡ nth xs i
nth-append-left [] ys i h = absurd (omega arith)
nth-append-left (x ∷ xs) ys zero h = refl
nth-append-left (x ∷ xs) ys (suc i) h = nth-append-left xs ys i (omega arith)

pub nth-append-right : (xs ys : List ℕ) (i j : ℕ) → i ≡ length xs + j → nth (xs ++ ys) i ≡ nth ys j
nth-append-right [] ys i j e = ap (nth ys) (omega arith)
nth-append-right (x ∷ xs) ys zero j e = absurd (omega arith)
nth-append-right (x ∷ xs) ys (suc i) j e = nth-append-right xs ys i j (omega arith)

pub nth-splice-below :
    (p : ℕ) (bs mem : List ℕ) (i : ℕ) → i < p → nth (splice p bs mem) i ≡ nth mem i
nth-splice-below p [] mem i h = refl
nth-splice-below p (b ∷ bs) [] i h = refl
nth-splice-below zero (b ∷ bs) (x ∷ mem) i h = absurd (omega arith)
nth-splice-below (suc p) (b ∷ bs) (x ∷ mem) zero h = refl
nth-splice-below (suc p) (b ∷ bs) (x ∷ mem) (suc i) h =
    nth-splice-below p (b ∷ bs) mem i (omega arith)

pub nth-splice-inside :
    (p : ℕ) (bs mem : List ℕ) (i j : ℕ)
    → i ≡ p + j
    → j < length bs
    → i < length mem
    → nth (splice p bs mem) i ≡ nth bs j
nth-splice-inside p [] mem i j e hj hi = absurd (omega arith)
nth-splice-inside p (b ∷ bs) [] i j e hj hi = absurd (omega arith)
nth-splice-inside zero (b ∷ bs) (x ∷ mem) zero zero e hj hi = refl
nth-splice-inside zero (b ∷ bs) (x ∷ mem) (suc i) zero e hj hi = absurd (omega arith)
nth-splice-inside zero (b ∷ bs) (x ∷ mem) zero (suc j) e hj hi = absurd (omega arith)
nth-splice-inside zero (b ∷ bs) (x ∷ mem) (suc i) (suc j) e hj hi =
    nth-splice-inside zero bs mem i j (omega arith) (omega arith) (omega arith)
nth-splice-inside (suc p) (b ∷ bs) (x ∷ mem) zero j e hj hi = absurd (omega arith)
nth-splice-inside (suc p) (b ∷ bs) (x ∷ mem) (suc i) j e hj hi =
    nth-splice-inside p (b ∷ bs) mem i j (omega arith) (omega arith) (omega arith)

pub nth-splice-above :
    (p : ℕ) (bs mem : List ℕ) (i : ℕ) → p + length bs ≤ i → nth (splice p bs mem) i ≡ nth mem i
nth-splice-above p [] mem i h = refl
nth-splice-above p (b ∷ bs) [] i h = refl
nth-splice-above zero (b ∷ bs) (x ∷ mem) zero h = absurd (omega arith)
nth-splice-above zero (b ∷ bs) (x ∷ mem) (suc i) h = nth-splice-above zero bs mem i (omega arith)
nth-splice-above (suc p) (b ∷ bs) (x ∷ mem) zero h = absurd (omega arith)
nth-splice-above (suc p) (b ∷ bs) (x ∷ mem) (suc i) h =
    nth-splice-above p (b ∷ bs) mem i (omega arith)

-- Lists of one length that agree at each index are equal.
pub list_ext :
    (xs ys : List ℕ)
    → length xs ≡ length ys
    → ((i : ℕ) → i < length xs → nth xs i ≡ nth ys i)
    → xs ≡ ys
list_ext [] [] e h = refl
list_ext [] (y ∷ ys) e h = absurd (omega arith)
list_ext (x ∷ xs) [] e h = absurd (omega arith)
list_ext (x ∷ xs) (y ∷ ys) e h =
    ap₂ ◌∷◌ (h 0 (omega arith)) (list_ext xs ys (omega arith) (λ i hi. h (suc i) (omega arith)))
