-- ===== src/Dispatcher/Refine.antt =====
-- Sequences of calls of the dispatcher in include/threading against the mail that it promises. The
-- calls of the threads may come in any order.
use supercell_common.Common.{
  ℕ, ◌≤◌, ◌<◌, ◌≡◌, refl, ◌∙◌, Bool, false, Option, none, some, List, [], ◌∷◌, All, Result, ok,
  ◌>>=◌,
}
use supercell_common.AtomicQueue.{Heap, has}
use supercell_common.Dispatcher.{Dispatcher, send, send_all, receive, new_dispatcher}
use supercell_common.Dispatcher.Mail.{Mail, no_mail, posted, posted_all, collected}
use supercell_common.Dispatcher.Network.{IsNetwork, IsSignalled}
use supercell_common.Dispatcher.Open.{create_contexts, open_lem}
use supercell_common.Dispatcher.Send.{send_lem}
use supercell_common.Dispatcher.Batch.{send_all_lem}
use supercell_common.Dispatcher.Receive.{receive_lem}

-- A call of a thread: a message sent, some messages sent together, or a read of at most so many
-- messages.
pub data Call {ℓ} (T : Type ℓ) : Type ℓ where
  post : ℕ → ℕ → T → Bool → Call T
  post_all : ℕ → ℕ → T → List T → Call T
  fetch : ℕ → ℕ → Call T

module _ {ℓ} {T : Type ℓ} where
  -- The threads of a call are among the first `max`.
  unfoldable pub InRange : ℕ → Call T → Type 0
  InRange max (post s t v incomplete) = (s < max) × (t < max)
  InRange max (post_all s t v vs) = (s < max) × (t < max)
  InRange max (fetch n t) = t < max

  unfoldable pub call_mail : ℕ → Call T → Mail T → Option (List (ℕ × T)) × Mail T
  call_mail max (post s t v incomplete) m = (none, posted s t v incomplete m)
  call_mail max (post_all s t v vs) m = (none, posted_all s t v vs m)
  call_mail max (fetch n t) m = let (vs, m') = collected max 0 n t m in (some vs, m')

  unfoldable pub calls_mail : ℕ → List (Call T) → Mail T → List (Option (List (ℕ × T)))
  unfolding call_mail
  calls_mail max [] m = []
  calls_mail max (c ∷ cs) m = let (o, m') = call_mail max c m in o ∷ calls_mail max cs m'

  module _ (malloc : List ℕ → ℕ) where
    unfoldable pub call_dispatcher :
        Call T → Dispatcher T → Result (Option (List (ℕ × T)) × Dispatcher T)
    call_dispatcher (post s t v incomplete) d =
        send malloc s t v incomplete d >>= λ d'. ok (none, d')
    call_dispatcher (post_all s t v vs) d = send_all malloc s t (v ∷ vs) d >>= λ d'. ok (none, d')
    call_dispatcher (fetch n t) d = receive n t d >>= λ r. ok (some r.0, r.1)

    unfoldable pub calls_dispatcher :
        List (Call T) → Dispatcher T → Result (List (Option (List (ℕ × T))))
    unfolding call_dispatcher
    calls_dispatcher [] d = ok []
    calls_dispatcher (c ∷ cs) d =
        call_dispatcher c d >>= λ r. calls_dispatcher cs r.1 >>= λ os. ok (r.0 ∷ os)

    module _ (fresh : (l : List ℕ) → has l (malloc l) ≡ false) where
      call_lem :
          (c : Call T) (d : Dispatcher T) (m : Mail T)
          → InRange d.max_threads c
          → IsNetwork d m
          → IsSignalled d m
          → (d' : Dispatcher T) × (call_dispatcher c d ≡ ok ((call_mail d.max_threads c m).0, d'))
            × (d'.max_threads ≡ d.max_threads)
            × IsNetwork d' (call_mail d.max_threads c m).1
            × IsSignalled d' (call_mail d.max_threads c m).1
      unfolding call_dispatcher call_mail InRange
      call_lem (post s t v incomplete) d m (x, y) w g =
          let (d', run, size, w', g') = send_lem malloc fresh d m s t v incomplete x y w g in
          (d', rw run refl, size, w', g')
      call_lem (post_all s t v vs) d m (x, y) w g =
          let (d', run, size, w', g') = send_all_lem malloc fresh d m s t v vs x y w g in
          (d', rw run refl, size, w', g')
      call_lem (fetch n t) d m y w g =
          let r = receive_lem n t d m y w g in
          (r.after, rw r.runs refl, r.same_size, r.network, r.signalled)

      calls_lem :
          (max : ℕ) (cs : List (Call T)) (d : Dispatcher T) (m : Mail T)
          → d.max_threads ≡ max
          → All (InRange max) cs
          → IsNetwork d m
          → IsSignalled d m
          → calls_dispatcher cs d ≡ ok (calls_mail max cs m)
      unfolding calls_dispatcher calls_mail
      calls_lem max [] d m e r w g = refl
      calls_lem max (c ∷ cs) d m e (r, rs) w g =
          let (d', run, size, w', g') = call_lem c d m (rw e r) w g in
          let rest = calls_lem max cs d' (call_mail d.max_threads c m).1 (size ∙ e) rs w' g' in
          rw (run, rest, e) refl

      -- If malloc never gives a chunk that is in use, then on a new dispatcher for at most 63 threads,
      -- whose contexts are all created, every sequence of calls of the threads succeeds: no context is
      -- missing and no chunk is used that is freed or NULL. Each read returns the messages that are
      -- ready for its thread, as many as it has room for, those of a lower source first and those of
      -- one source in the order of their sending, each of them once.
      pub network_refines :
          (h : Heap T) (max : ℕ) (cs : List (Call T))
          → max ≤ 63
          → All (InRange max) cs
          → ((new_dispatcher malloc h max >>= create_contexts max) >>= calls_dispatcher cs)
            ≡ ok (calls_mail max cs no_mail)
      network_refines h max cs few rs =
          let (d, run, size, w, g) = open_lem malloc h max fresh few in
          rw run (calls_lem max cs d no_mail size rs w g)
