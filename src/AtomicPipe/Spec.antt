-- ===== src/AtomicPipe/Spec.antt =====
-- What the pipe of include/core/AtomicQueue.h promises: values in the order of their writing, of
-- which the reader sees those that were flushed, the writer can take back those that are not
-- complete, and a flush tells if the reader has found the pipe empty since the last one.
use supercell_common.Common.{
  ℕ, suc, ◌+◌, ◌-◌, Bool, true, false, Option, none, List, [], ◌∷◌, ◌++◌, length, take, get_elem?,
  ◌==◌, not, if◌then◌else◌, ◌≡◌, ◌≢◌, refl, arith, ne→ne, eq→==, eq_or_ne, inl, inr,
}

-- `items` are the values written and not read. The first `flushed` of them are for the reader, and
-- the first `completed` are complete.
pub record Pipe {ℓ} (T : Type ℓ) : Type ℓ where
  pub items : List T
  pub flushed : ℕ
  pub completed : ℕ
  pub asleep : Bool

module _ {ℓ} {T : Type ℓ} where
  -- A new pipe.
  abbrev pub empty : Pipe T
  empty = record { items = []; flushed = 0; completed = 0; asleep = false }

  unfoldable pub written : T → Bool → Pipe T → Pipe T
  written v incomplete s = record s {
    items = s.items ++ (v ∷ []);
    completed = if incomplete then s.completed else length s.items + 1;
  }

  -- The last value, unless all are complete.
  unfoldable pub unwritten : Pipe T → Option T × Pipe T
  unwritten s = if s.completed == length s.items then (none, s) else (
    get_elem? s.items (length s.items - 1),
    record s { items = take (length s.items - 1) s.items },
  )

  unfoldable pub flushed_out : Pipe T → Bool × Pipe T
  flushed_out s =
      if s.flushed == s.completed
      then (true, s)
      else (not s.asleep, record s { flushed = s.completed; asleep = false })

  unfoldable pub tail : List T → List T
  tail [] = []
  tail (x ∷ xs) = xs

  -- The first value, if it is flushed; else the reader sleeps.
  unfoldable pub taken : Pipe T → Option T × Pipe T
  unfolding tail
  taken s = if s.flushed == 0 then (none, record s { asleep = true }) else (
    get_elem? s.items 0,
    record s { items = tail s.items; flushed = s.flushed - 1; completed = s.completed - 1 },
  )

  pub length-tail : (xs : List T) → length (tail xs) ≡ length xs - 1
  unfolding tail
  length-tail [] = omega arith
  length-tail (x ∷ xs) = omega arith

  pub get_elem?-tail : (xs : List T) (i : ℕ) → get_elem? (tail xs) i ≡ get_elem? xs (suc i)
  unfolding tail
  get_elem?-tail [] i = refl
  get_elem?-tail (x ∷ xs) i = refl

  -- A pipe without its first value.
  abbrev pub rest : Pipe T → Pipe T
  rest s = record s { items = tail s.items; flushed = s.flushed - 1; completed = s.completed - 1 }

  pub taken-some : (s : Pipe T) → s.flushed ≢ 0 → taken s ≡ (get_elem? s.items 0, rest s)
  unfolding taken
  taken-some s ne = rw (ne→ne s.flushed 0 ne) refl

  pub taken-none : (s : Pipe T) → s.flushed ≡ 0 → taken s ≡ (none, record s { asleep = true })
  unfolding taken
  taken-none s z = rw (eq→== s.flushed 0 z) refl

  -- After a flush all that is complete is flushed.
  pub flushed_out_all :
      (s : Pipe T)
      → ((flushed_out s).1.items ≡ s.items)
        × ((flushed_out s).1.flushed ≡ s.completed)
        × ((flushed_out s).1.completed ≡ s.completed)
  unfolding flushed_out
  flushed_out_all s = elim (eq_or_ne s.flushed s.completed) [
    | inl e ↦ rw (eq→== s.flushed s.completed e) (refl, e, refl)
    | inr ne ↦ rw (ne→ne s.flushed s.completed ne) (refl, refl, refl)
  ]
