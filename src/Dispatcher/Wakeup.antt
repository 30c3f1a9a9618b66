-- ===== src/Dispatcher/Wakeup.antt =====
-- A thread that polls the signaler of include/threading/DispatcherThreadSignaler.h while others
-- signal it, in any order of these steps.
use supercell_common.Common.{
  ℕ, ◌-◌, ◌<◌, ◌≡◌, ◌≢◌, refl, sym, ap, Bool, true, false, none, some, arith, eq_or_ne, inl, inr,
  ◌⊎◌, Bool-cases, eq→==, ne→ne,
}
use supercell_common.Dispatcher.Signals.{
  Bitmap, Signaler, signal, poll_start, poll_end, check, bit_or, any_bit, no_bits, with_bit,
  wait_signal, new_signaler,
}

-- The signaler, and whether its thread waits inside poll().
pub record Poller : Type 0 where
  pub signaler : Signaler
  pub waits : Bool

abbrev pub at_rest : Signaler → Poller
at_rest g = record { signaler = g; waits = false }

abbrev pub waiting : Signaler → Poller
waiting g = record { signaler = g; waits = true }

-- A step of another thread, or of the thread itself.
pub data Step : Poller → Poller → Type 0 where
  signalled : (i : ℕ) (p : Poller) → i < 63 → Step p (record p { signaler = signal i p.signaler })
  polls_on :
      (g g' : Signaler) (b : Bitmap) → poll_start g ≡ (some b, g') → Step (at_rest g) (at_rest g')
  polls_waits : (g g' : Signaler) → poll_start g ≡ (none, g') → Step (at_rest g) (waiting g')
  wakes : (g g' : Signaler) (b : Bitmap) → poll_end g ≡ some (b, g') → Step (waiting g) (at_rest g')
  checks : (g : Signaler) → Step (at_rest g) (at_rest (check g).1)
  puts_back : (g : Signaler) (b : Bitmap) → b 63 ≡ false → Step (at_rest g) (at_rest (bit_or b g))

pub data IsReachable : Poller → Type 0 where
  start : IsReachable (at_rest new_signaler)
  then_step : (p p' : Poller) → IsReachable p → Step p p' → IsReachable p'

-- Either the thread has to be woken and no signal has come, or it has been woken for a signal.
unfoldable WaitsWell : Signaler → Type 0
WaitsWell g =
    ((g.bitmap 63 ≡ true) × (g.posts ≡ 0) × ((i : ℕ) → i < 63 → g.bitmap i ≡ false))
    ⊎ ((g.bitmap 63 ≡ false) × (g.posts ≡ 1) × (i : ℕ) × (i < 63) × (g.bitmap i ≡ true))

-- What the wait of a thread comes to.
unfoldable pub Waited : Signaler → Type 0
unfolding poll_end
Waited g =
    (((i : ℕ) → i < 63 → g.bitmap i ≡ false) × (poll_end g ≡ none))
    ⊎ ((i : ℕ) × (i < 63) × (g.bitmap i ≡ true) × (poll_end g ≡ some (g.bitmap, new_signaler)))

false-true : ¬ (false ≡ true)
false-true e = absurd (ground (arith, e))

none-some {ℓ} : {A : Type ℓ} {a : A} → ¬ (none ≡ some a)
none-some e = absurd (false-true (ap (λ o. elim o [ none ↦ false | some x ↦ true ]) e))

-- A thread at rest has no post to take and no wish to be woken.
unfoldable IsQuiet : Signaler → Type 0
IsQuiet g = (g.bitmap 63 ≡ false) × (g.posts ≡ 0)

unfoldable IsWell : Poller → Type 0
unfolding WaitsWell IsQuiet
IsWell p = (p.waits ≡ true → WaitsWell p.signaler) × (p.waits ≡ false → IsQuiet p.signaler)

signal-WaitsWell : (i : ℕ) (g : Signaler) → i < 63 → WaitsWell g → WaitsWell (signal i g)
unfolding WaitsWell signal
signal-WaitsWell i g x (inl (waits, posts, none_set)) =
    inr (refl, rw (waits, posts) refl, i, x, ground (arith, x))
signal-WaitsWell i g x (inr (reset, posts, j, y, set)) =
    inr (refl, rw (reset) posts, j, y, ground (arith, y, set))

signal-IsWell :
    (i : ℕ) (p : Poller) → i < 63 → IsWell p → IsWell (record p { signaler = signal i p.signaler })
unfolding IsWell IsQuiet signal
signal-IsWell i p x (w, r) =
    (λ e. signal-WaitsWell i p.signaler x (w e), λ e. (refl, rw (r e).0 ((r e).1)))

poll_start-on :
    (g g' : Signaler) (b : Bitmap)
    → poll_start g ≡ (some b, g')
    → g' ≡ record g { bitmap = no_bits }
unfolding poll_start
poll_start-on g g' b e = elim (Bool-cases (any_bit 64 g.bitmap)) [
  | inl set ↦ sym (ap (λ t. t.1) (rw set at e))
  | inr reset ↦ absurd (none-some (ap (λ t. t.0) (rw reset at e)))
]

poll_start-waits :
    (g g' : Signaler)
    → poll_start g ≡ (none, g')
    → g' ≡ record g { bitmap = with_bit wait_signal true no_bits }
unfolding poll_start
poll_start-waits g g' e = elim (Bool-cases (any_bit 64 g.bitmap)) [
  | inl set ↦ absurd (none-some (sym (ap (λ t. t.0) (rw set at e))))
  | inr reset ↦ sym (ap (λ t. t.1) (rw reset at e))
]

-- What a wait that ends leaves.
poll_end-some :
    (g g' : Signaler) (b : Bitmap)
    → poll_end g ≡ some (b, g')
    → (g.posts ≢ 0) × (g' ≡ record { bitmap = no_bits; posts = g.posts - 1 })
unfolding poll_end
poll_end-some g g' b e = elim (eq_or_ne g.posts 0) [
  | inl z ↦ absurd (none-some (rw (eq→== g.posts 0 z) at e))
  | inr ne ↦ (ne, sym (ap (λ o. elim o [ none ↦ g | some t ↦ t.1 ]) (rw (ne→ne g.posts 0 ne) at e)))
]

poll_end-IsQuiet :
    (g g' : Signaler) (b : Bitmap) → poll_end g ≡ some (b, g') → WaitsWell g → IsQuiet g'
unfolding WaitsWell IsQuiet
poll_end-IsQuiet g g' b e (inl (x, y, n)) = absurd ((poll_end-some g g' b e).0 y)
poll_end-IsQuiet g g' b e (inr (x, y, i, z, n)) =
    rw ((poll_end-some g g' b e).1, y) (refl, omega arith)

poll_start-WaitsWell : (g g' : Signaler) → poll_start g ≡ (none, g') → IsQuiet g → WaitsWell g'
unfolding WaitsWell IsQuiet
poll_start-WaitsWell g g' e (x, y) =
    rw (poll_start-waits g g' e) (inl (refl, y, λ i z. ground (arith, z)))

step-IsWell : {p p' : Poller} → Step p p' → IsWell p → IsWell p'
unfolding IsWell IsQuiet bit_or check
step-IsWell (signalled i p x) w = signal-IsWell i p x w
step-IsWell (polls_on g g' b e) (w, r) =
    (λ z. absurd (false-true z), λ z. rw (poll_start-on g g' b e) (refl, (r refl).1))
step-IsWell (polls_waits g g' e) (w, r) =
    (λ z. poll_start-WaitsWell g g' e (r refl), λ z. absurd (false-true (sym z)))
step-IsWell (wakes g g' b e) (w, r) =
    (λ z. absurd (false-true z), λ z. poll_end-IsQuiet g g' b e (w refl))
step-IsWell (checks g) (w, r) = (λ z. absurd (false-true z), λ z. (refl, (r refl).1))
step-IsWell (puts_back g b x) (w, r) =
    (λ z. absurd (false-true z), λ z. (rw ((r refl).0, x) refl, (r refl).1))

reachable-IsWell : {p : Poller} → IsReachable p → IsWell p
unfolding IsWell IsQuiet
reachable-IsWell start = (λ z. absurd (false-true z), λ z. (refl, refl))
reachable-IsWell (then_step q p' r s) = step-IsWell s (reachable-IsWell r)

woken : (g : Signaler) → WaitsWell g → Waited g
unfolding WaitsWell Waited poll_end
woken g (inl (x, y, n)) = inl (n, rw y refl)
woken g (inr (x, y, i, z, n)) = inr (
  i,
  z,
  n,
  rw y (ap (λ k. some (g.bitmap, record { bitmap = no_bits; posts = k })) (omega arith)),
)

-- In every order of the steps of the threads that signal, below 63, and of the thread that polls,
-- checks and puts back signals: while the thread waits, either no signal is set and the wait does not
-- end, or some signal is set, the wait ends, gives all the signals that are set, and leaves the
-- signaler as it was when new.
pub wait_lem : (p : Poller) → IsReachable p → p.waits ≡ true → Waited p.signaler
unfolding IsWell
wait_lem p r e = woken p.signaler ((reachable-IsWell r).0 e)
