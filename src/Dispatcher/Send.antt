-- ===== src/Dispatcher/Send.antt =====
-- Dispatcher::write of include/threading/Dispatcher.h on a network that holds mail.
use supercell_common.Common.{
  put_at, put_at-here, put_at-other, ℕ, ◌≤◌, ◌<◌, ◌≡◌, refl, sym, ap, ◌∙◌, Bool, true, false, some,
  arith, List, [], ◌∷◌, ◌++◌, ok, eq_or_ne, inl, inr,
}
use supercell_common.AtomicQueue.{has}
use supercell_common.AtomicPipe.{AtomicPipe, flush}
use supercell_common.Dispatcher.{Dispatcher, index, send}
use supercell_common.Dispatcher.Signals.{Signaler, signal}
use supercell_common.Dispatcher.Mail.{Mail, put_at2, posted}
use supercell_common.Dispatcher.Lane.{hold-IsLane, send-IsLane}
use supercell_common.Dispatcher.Network.{
  IsNetwork, IsMarked, IsSignalled, pipe_at_lem, signaler_at_lem, store-IsLane, put_at2-other,
  put_at2-kept,
}

-- A signal sets the bit of its source and no other bit of a source is lost.
pub signal-own : (s : ℕ) (g : Signaler) → s < 63 → (signal s g).bitmap s ≡ true
unfolding signal
signal-own s g x = ground arith

pub signal-others :
    (s i : ℕ) (g : Signaler) → i < 63 → g.bitmap i ≡ true → (signal s g).bitmap i ≡ true
unfolding signal
signal-others s i g x e = ground (arith, e)

module _ {ℓ} {T : Type ℓ} where
  -- After a signal the destination has the bit of the source set too, and all others stay.
  signal-IsSignalled :
      (d : Dispatcher T) (m : Mail T) (s t : ℕ) (xs : List T) (h : Signaler) (f : ℕ → AtomicPipe T)
      → d.max_threads ≤ 63
      → s < d.max_threads
      → IsMarked d.max_threads m t h.bitmap
      → IsSignalled d m
      → IsSignalled
          (record d { pipes = f; signalers = put_at t (some (signal s h)) d.signalers })
          (record m { ready = put_at2 s t xs m.ready; held = put_at2 s t [] m.held })
  unfolding IsSignalled IsMarked
  signal-IsSignalled d m s t xs h f few x marked g t' y' = elim (eq_or_ne t' t) [
    | inl e ↦ (
      signal s h,
      rw e (put_at-here t (some (signal s h)) d.signalers),
      λ s' x' ne. elim (eq_or_ne s' s) [
        | inl e' ↦ rw e' (signal-own s h (omega (arith, few, x)))
        | inr other ↦ signal-others s s' h (omega (arith, few, x')) (
            marked s' x'
              (λ z. ne (put_at2-other s t s' t' xs m.ready (inl other) ∙ ap (m.ready s') e ∙ z)))
      ],
    )
    | inr ne ↦
        let (h', at', marked') = g t' y' in
        (
          h',
          put_at-other t t' (some (signal s h)) d.signalers ne ∙ at',
          λ s' x' n. marked' s' x' (λ z. n (put_at2-other s t s' t' xs m.ready (inr ne) ∙ z)),
        )
  ]

  module _ (malloc : List ℕ → ℕ) (fresh : (l : List ℕ) → has l (malloc l) ≡ false) where
    -- write() leaves a network that holds the message too.
    pub send_lem :
        (d : Dispatcher T) (m : Mail T) (s t : ℕ) (v : T) (incomplete : Bool)
        → s < d.max_threads
        → t < d.max_threads
        → IsNetwork d m
        → IsSignalled d m
        → (d' : Dispatcher T) × (send malloc s t v incomplete d ≡ ok d')
          × (d'.max_threads ≡ d.max_threads)
          × IsNetwork d' (posted s t v incomplete m)
          × IsSignalled d' (posted s t v incomplete m)
    unfolding send posted IsSignalled IsMarked
    send_lem d m s t v true x y w g =
        let ys = m.held s t ++ (v ∷ []) in
        let (p', run, l) =
          hold-IsLane malloc fresh (d.pipes (index d s t)) (m.ready s t) (m.held s t) v
            (w.lanes s t x y) in
        (
          record d { pipes = put_at (index d s t) p' d.pipes },
          rw (pipe_at_lem d s t x y, run) refl,
          refl,
          record {
            few = w.few;
            lanes = λ i j x' y'.
                rw (sym (put_at2-kept s t i j m.ready))
                  (store-IsLane d m s t p' (m.ready s t) ys x y w l i j x' y');
          },
          g,
        )
    send_lem d m s t v false x y w g =
        let xs = m.ready s t ++ (m.held s t ++ (v ∷ [])) in
        let (p', run, l) =
          send-IsLane malloc fresh (d.pipes (index d s t)) (m.ready s t) (m.held s t) v
            (w.lanes s t x y) in
        let (h, at, marked) = g t y in
        let f = put_at (index d s t) (flush p').1 d.pipes in
        (
          record d { pipes = f; signalers = put_at t (some (signal s h)) d.signalers },
          rw (pipe_at_lem d s t x y, run, signaler_at_lem d t h y at) refl,
          refl,
          record { few = w.few; lanes = store-IsLane d m s t (flush p').1 xs [] x y w l },
          signal-IsSignalled d m s t xs h f w.few x marked g,
        )
