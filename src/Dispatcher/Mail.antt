-- ===== src/Dispatcher/Mail.antt =====
-- What the dispatcher of include/threading promises: for each pair of threads the messages that are
-- ready to be read and those that are held until a complete one follows.
use supercell_common.Common.{
  ℕ, zero, suc, ◌+◌, ◌-◌, Bool, List, [], ◌∷◌, ◌++◌, map, take, drop, length, ◌==◌, ◌&&◌,
  if◌then◌else◌,
}

-- A function of two indices changed at one place.
unfoldable pub put_at2 {ℓ} : {A : Type ℓ} → ℕ → ℕ → A → (ℕ → ℕ → A) → ℕ → ℕ → A
put_at2 s t x f i j = if (i == s) && (j == t) then x else f i j

-- The messages from a source to a destination, in the order of their sending.
pub record Mail {ℓ} (T : Type ℓ) : Type ℓ where
  pub ready : ℕ → ℕ → List T
  pub held : ℕ → ℕ → List T

module _ {ℓ} {T : Type ℓ} where
  abbrev pub no_mail : Mail T
  no_mail = record { ready = λ i j. []; held = λ i j. [] }

  -- A message sent: an incomplete one is held, a complete one makes all that are held ready.
  unfoldable pub posted : ℕ → ℕ → T → Bool → Mail T → Mail T
  unfolding put_at2
  posted s t v incomplete m =
      if incomplete
      then record m { held = put_at2 s t (m.held s t ++ (v ∷ [])) m.held }
      else record m {
        ready = put_at2 s t (m.ready s t ++ (m.held s t ++ (v ∷ []))) m.ready;
        held = put_at2 s t [] m.held;
      }

  -- The messages `v` and those of `vs` sent together: they are ready with all that are held.
  unfoldable pub posted_all : ℕ → ℕ → T → List T → Mail T → Mail T
  unfolding put_at2
  posted_all s t v vs m = record m {
    ready = put_at2 s t (m.ready s t ++ (m.held s t ++ (v ∷ vs))) m.ready;
    held = put_at2 s t [] m.held;
  }

  -- At most `n` ready messages of the `k` sources from `i` on, those of a lower source first.
  unfoldable pub collected : ℕ → ℕ → ℕ → ℕ → Mail T → List (ℕ × T) × Mail T
  unfolding put_at2
  collected zero i n t m = ([], m)
  collected (suc k) i n t m =
      let rest =
        collected k (i + 1) (n - length (take n (m.ready i t))) t
          (record m { ready = put_at2 i t (drop n (m.ready i t)) m.ready }) in
      (map (λ v. (i, v)) (take n (m.ready i t)) ++ rest.0, rest.1)
