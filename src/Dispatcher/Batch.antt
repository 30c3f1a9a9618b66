-- ===== src/Dispatcher/Batch.antt =====
-- DispatcherDestination::write of include/threading for an array of messages, on a network that
-- holds mail.
use supercell_common.Common.{
  ℕ, ◌<◌, ◌≡◌, refl, ◌∙◌, true, false, List, [], ◌∷◌, ◌++◌, append_assoc, ok,
}
use supercell_common.AtomicQueue.{has}
use supercell_common.Dispatcher.{Dispatcher, send_all}
use supercell_common.Dispatcher.Mail.{Mail, posted, posted_all}
use supercell_common.Dispatcher.Network.{IsNetwork, IsSignalled, put_at2-here, put_at2-twice}
use supercell_common.Dispatcher.Send.{send_lem}

module _ {ℓ} {T : Type ℓ} where
  posted-posted_all :
      (s t : ℕ) (v w : T) (vs : List T) (m : Mail T)
      → posted_all s t w vs (posted s t v true m) ≡ posted_all s t v (w ∷ vs) m
  unfolding posted posted_all
  posted-posted_all s t v w vs m =
      rw
        (
          put_at2-here s t (m.held s t ++ (v ∷ [])) m.held,
          append_assoc (m.held s t) (v ∷ []) (w ∷ vs),
          put_at2-twice s t [] (m.held s t ++ (v ∷ [])) m.held,
        )
        refl

  module _ (malloc : List ℕ → ℕ) (fresh : (l : List ℕ) → has l (malloc l) ≡ false) where
    -- write() of some messages leaves a network in which all of them are ready at once.
    pub send_all_lem :
        (d : Dispatcher T) (m : Mail T) (s t : ℕ) (v : T) (vs : List T)
        → s < d.max_threads
        → t < d.max_threads
        → IsNetwork d m
        → IsSignalled d m
        → (d' : Dispatcher T) × (send_all malloc s t (v ∷ vs) d ≡ ok d')
          × (d'.max_threads ≡ d.max_threads)
          × IsNetwork d' (posted_all s t v vs m)
          × IsSignalled d' (posted_all s t v vs m)
    unfolding send_all posted posted_all
    send_all_lem d m s t v [] x y w g = send_lem malloc fresh d m s t v false x y w g
    send_all_lem d m s t v (u ∷ vs) x y w g =
        let (d₁, run, size, w₁, g₁) = send_lem malloc fresh d m s t v true x y w g in
        let (d₂, run', size', w₂, g₂) =
          send_all_lem d₁ (posted s t v true m) s t u vs (rw size x) (rw size y) w₁ g₁ in
        (
          d₂,
          rw run run',
          size' ∙ size,
          rw (posted-posted_all s t v u vs m) at w₂,
          rw (posted-posted_all s t v u vs m) at g₂,
        )
