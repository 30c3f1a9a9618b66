-- ===== src/Common/Objects.antt =====
-- Objects at addresses, of one type.
use Prim.Native.Nat.{ℕ}
use mathlib.Core.Path.{◌≡◌, refl, sym, ◌∙◌}
use mathlib.Core.Logic.{inl, inr}
use mathlib.Core.Option.{Option, none, some}
use mathlib.Core.List.{List, [], ◌∷◌}
use supercell_common.Common.Tests.{◌==◌, if◌then◌else◌, eq→==, ne→ne, eq_or_ne}
use supercell_common.Common.Outcome.{Result, ok, err, bad_access, ◌>>=◌}
use supercell_common.Common.Functions.{put_at}

-- The objects that are allocated, the latest first; of two with one address the first counts.
abbrev pub Store {ℓ} : Type ℓ → Type ℓ
Store A = List (ℕ × A)

module _ {ℓ} {A : Type ℓ} where
  unfoldable pub find : Store A → ℕ → Option A
  find [] a = none
  find ((x, o) ∷ s) a = if a == x then some o else find s a

  -- The addresses that are in use.
  unfoldable pub addresses : Store A → List ℕ
  addresses [] = []
  addresses ((x, o) ∷ s) = x ∷ addresses s

  unfoldable pub put : ℕ → A → Store A → Store A
  put a o s = (a, o) ∷ s

  unfoldable pub drop_at : ℕ → Store A → Store A
  drop_at a [] = []
  drop_at a ((x, o) ∷ s) = let rest = drop_at a s in if x == a then rest else (x, o) ∷ rest

  abbrev pub demand : Option A → Result A
  demand none = err bad_access
  demand (some o) = ok o

  -- The object that a pointer points to. NULL and an address that is not in use are faults.
  unfoldable pub load : Store A → Option ℕ → Result A
  unfolding find
  load s none = err bad_access
  load s (some a) = demand (find s a)

  -- The object that a pointer points to, changed.
  unfoldable pub adjust : Option ℕ → (A → A) → Store A → Result (Store A)
  unfolding find put
  adjust none f s = err bad_access
  adjust (some a) f s = demand (find s a) >>= λ o. ok (put a (f o) s)

  -- The same where the pointer is tested for NULL first.
  unfoldable pub adjust_if : Option ℕ → (A → A) → Store A → Result (Store A)
  unfolding adjust
  adjust_if none f s = ok s
  adjust_if (some a) f s = adjust (some a) f s

  -- delete
  unfoldable pub delete : ℕ → Store A → Result (Store A)
  unfolding find drop_at
  delete a s = demand (find s a) >>= λ o. ok (drop_at a s)

  find-put-at :
      (a : ℕ) (o : A) (s : Store A) (b : ℕ) → find (put a o s) b ≡ put_at a (some o) (find s) b
  unfolding find put put_at
  find-put-at a o s b = refl

  pub find-put : (a : ℕ) (o : A) (s : Store A) → find (put a o s) ≡ put_at a (some o) (find s)
  find-put a o s i b = find-put-at a o s b i

  find-drop-at : (a : ℕ) (s : Store A) (b : ℕ) → find (drop_at a s) b ≡ put_at a none (find s) b
  unfolding find drop_at put_at
  find-drop-at a [] b = elim (eq_or_ne b a) [
    | inl e ↦ rw (eq→== b a e) refl
    | inr ne ↦ rw (ne→ne b a ne) refl
  ]
  find-drop-at a ((x, o) ∷ s) b = elim (eq_or_ne x a) [
    | inl e ↦ elim (eq_or_ne b a) [
      | inl same ↦ rw (eq→== x a e) (find-drop-at a s b ∙ rw (eq→== b a same) refl)
      | inr other ↦
          rw (eq→== x a e)
            (find-drop-at a s b ∙ rw (ne→ne b a other, ne→ne b x (λ z. other (z ∙ e))) refl)
    ]
    | inr ne ↦ elim (eq_or_ne b x) [
      | inl same ↦ rw (ne→ne x a ne, eq→== b x same, ne→ne b a (λ z. ne (sym same ∙ z))) refl
      | inr other ↦ rw (ne→ne x a ne, ne→ne b x other) (find-drop-at a s b)
    ]
  ]

  pub find-drop : (a : ℕ) (s : Store A) → find (drop_at a s) ≡ put_at a none (find s)
  find-drop a s i b = find-drop-at a s b i

  -- What is at an address that is in use can be loaded, changed and deleted.
  pub load-some : (s : Store A) (a : ℕ) (o : A) → find s a ≡ some o → load s (some a) ≡ ok o
  unfolding load
  load-some s a o e = rw e refl

  pub adjust-some :
      (s : Store A) (a : ℕ) (o : A) (f : A → A)
      → find s a ≡ some o
      → adjust (some a) f s ≡ ok (put a (f o) s)
  unfolding adjust
  adjust-some s a o f e = rw e refl

  pub delete-some :
      (s : Store A) (a : ℕ) (o : A) → find s a ≡ some o → delete a s ≡ ok (drop_at a s)
  unfolding delete
  delete-some s a o e = rw e refl
