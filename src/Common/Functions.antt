-- ===== src/Common/Functions.antt =====
-- Functions of an index, changed at one place.
use Prim.Native.Nat.{ℕ}
use mathlib.Core.Path.{◌≡◌, refl}
use mathlib.Core.Logic.{◌≢◌}
use supercell_common.Common.Tests.{◌==◌, if◌then◌else◌, eq→==, ne→ne}

-- A function changed at one index.
unfoldable pub put_at {ℓ} : {A : Type ℓ} → ℕ → A → (ℕ → A) → ℕ → A
put_at k x f i = if i == k then x else f i

module _ {ℓ} {A : Type ℓ} where
  pub put_at-here : (k : ℕ) (x : A) (f : ℕ → A) → put_at k x f k ≡ x
  unfolding put_at
  put_at-here k x f = rw (eq→== k k refl) refl

  pub put_at-other : (k i : ℕ) (x : A) (f : ℕ → A) → i ≢ k → put_at k x f i ≡ f i
  unfolding put_at
  put_at-other k i x f ne = rw (ne→ne i k ne) refl
