-- ===== src/Dispatcher.antt =====
-- Dispatcher, DispatcherThreadContext and DispatcherDestination of include/threading: messages
-- between threads, over one AtomicPipe for each pair of threads.
pub mod Signals
pub mod Wakeup
pub mod Mail
pub mod Lane
pub mod Network
pub mod Send
pub mod Drain
pub mod Scan
pub mod Receive
pub mod Batch
pub mod Open
pub mod Refine
pub mod Fetch
use supercell_common.Common.{
  put_at, ℕ, zero, suc, ◌+◌, ◌-◌, ◌*◌, Bool, true, false, Option, none, some, List, [], ◌∷◌, ◌++◌,
  map, Result, ok, err, assertion, bad_access, assert, not, ltb, leb, ◌==◌, length, if◌then◌else◌,
  ◌>>=◌, ◌>>◌,
}
use supercell_common.AtomicQueue.{Heap}
use supercell_common.AtomicPipe.{AtomicPipe, write, flush, read, new_pipe}
use supercell_common.Dispatcher.Signals.{
  Bitmap, Signaler, with_bit, no_bits, any_bit, new_signaler, signal, check, bit_or,
}

-- ZILLIANS_DISPATCHER_PIPE_CHUNK_SIZE
abbrev pub chunk_size : ℕ
chunk_size = 256

-- `pipes` is mPipes, an array of max_threads * max_threads pipes; `signalers` is mSignalers, with the
-- object that a pointer points to, in the thread's context; `attached` is mAttachedFlags.
pub record Dispatcher {ℓ} (T : Type ℓ) : Type ℓ where
  pub max_threads : ℕ
  pub pipes : ℕ → AtomicPipe T
  pub signalers : ℕ → Option Signaler
  pub attached : ℕ → Bool

module _ {ℓ} {T : Type ℓ} where
  abbrev pub index : Dispatcher T → ℕ → ℕ → ℕ
  index d source destination = source * d.max_threads + destination

  -- mPipes[k], if the array has it.
  unfoldable pub pipe_at : Dispatcher T → ℕ → Result (AtomicPipe T)
  pipe_at d k = if ltb k (d.max_threads * d.max_threads) then ok (d.pipes k) else err bad_access

  -- *mSignalers[i], if there is one.
  unfoldable pub signaler_at : Dispatcher T → ℕ → Result Signaler
  signaler_at d i =
      if ltb i d.max_threads
      then (elim (d.signalers i) [ none ↦ err bad_access | some s ↦ ok s ])
      else err bad_access

  -- createThreadContext(): the first context that is not attached, at or after `i`, of `n` more.
  unfoldable pub first_free : ℕ → ℕ → Dispatcher T → Option ℕ
  first_free zero i d = none
  first_free (suc n) i d =
      let rest = first_free n (i + 1) d in if d.attached i then rest else some i

  unfoldable pub attach : ℕ → Dispatcher T → Result (ℕ × Dispatcher T)
  unfolding put_at
  attach i d = do
    assert (not (d.attached i))
    ok (
      i,
      record d {
        attached = put_at i true d.attached;
        signalers = put_at i (some new_signaler) d.signalers;
      },
    )

  -- The context that the loop has found, if it has.
  unfoldable pub attach_found : Option ℕ → Dispatcher T → Result (ℕ × Dispatcher T)
  unfolding attach
  attach_found none d = err assertion
  attach_found (some i) d = attach i d

  -- createThreadContext(contextId), where `none` is -1.
  unfoldable pub create_context : Option ℕ → Dispatcher T → Result (ℕ × Dispatcher T)
  unfolding attach attach_found
  create_context (some i) d = if ltb i d.max_threads then attach i d else err bad_access
  create_context none d = attach_found (first_free d.max_threads 0 d) d

  unfoldable pub destroy_context : ℕ → Dispatcher T → Result (Dispatcher T)
  unfolding put_at
  destroy_context i d = do
    assert (d.attached i)
    ok (record d { attached = put_at i false d.attached; signalers = put_at i none d.signalers })

  -- Dispatcher::read
  unfoldable pub read_from : ℕ → ℕ → Dispatcher T → Result (Option T × Dispatcher T)
  unfolding pipe_at put_at
  read_from source destination d = do
    p ← pipe_at d (index d source destination)
    r ← read chunk_size p
    ok (r.0, record d { pipes = put_at (index d source destination) r.1 d.pipes })

  -- The inner loop of DispatcherThreadContext::read: at most `n` messages of one source, and whether
  -- the source may have more.
  unfoldable pub drain : ℕ → ℕ → ℕ → Dispatcher T → Result (List T × (Bool × Dispatcher T))
  unfolding read_from
  drain zero source self d = ok ([], (true, d))
  drain (suc n) source self d = read_from source self d >>= λ r. elim r.0 [
    | none ↦ ok ([], (false, r.1))
    | some v ↦ drain n source self r.1 >>= λ s. ok (v ∷ s.0, s.1)
  ]

  -- The outer loop, over the sources from `i` on, of which there are `k`; there is room for `n`
  -- messages. It gives the messages with their sources, and the signals that are left.
  unfoldable pub scan :
      ℕ → ℕ → ℕ → ℕ → Bitmap → Dispatcher T → Result (List (ℕ × T) × (Bitmap × Dispatcher T))
  unfolding drain
  scan zero i n self signals d = ok ([], (signals, d))
  scan (suc k) i n self signals d =
      if n == 0
      then ok ([], (signals, d))
      else if signals i
      then (drain n i self d >>= λ r.
          scan k (i + 1) (n - length r.0) self (if r.1.0 then signals else with_bit i false signals)
            r.1.1
          >>= λ s. ok (map (λ v. (i, v)) r.0 ++ s.0, s.1))
      else scan k (i + 1) n self signals d

  -- DispatcherThreadContext::read once it has its signals, for at most `n` messages.
  unfoldable pub read_signals : ℕ → ℕ → Bitmap → Dispatcher T → Result (List (ℕ × T) × Dispatcher T)
  unfolding bit_or
  read_signals n self signals d =
      if any_bit 64 signals
      then (scan d.max_threads 0 n self signals d >>= λ r. signaler_at r.1.1 self >>= λ s. ok (
        r.0,
        record (r.1.1) { signalers = put_at self (some (bit_or r.1.0 s)) (r.1.1).signalers },
      ))
      else ok ([], d)

  -- DispatcherThreadContext::read that does not block.
  unfoldable pub receive : ℕ → ℕ → Dispatcher T → Result (List (ℕ × T) × Dispatcher T)
  unfolding check
  receive n self d = do
    s ← signaler_at d self
    read_signals n self (check s).0
        (record d { signalers = put_at self (some (check s).1) d.signalers })

  -- DispatcherDestination::read that does not block: each message goes to messages[0], which holds
  -- `last` before. The loop has read `n` and may read as many as `left` more; the result is whether
  -- any was read, with messages[0].
  unfoldable pub read_loop :
      (left n source destination : ℕ)
      → Option T
      → Dispatcher T
      → Result (ℕ × Option T × Dispatcher T)
  unfolding read_from
  read_loop zero n source destination last d = ok (n, last, d)
  read_loop (suc left) n source destination last d = read_from source destination d >>= λ r.
      elim r.0 [
        | none ↦ ok (n, last, r.1)
        | some v ↦ read_loop left (n + 1) source destination (some v) r.1
      ]

  unfoldable pub read_all :
      (count source destination : ℕ)
      → Option T
      → Dispatcher T
      → Result (Bool × Option T × Dispatcher T)
  unfolding read_loop
  read_all count source destination last d = do
    (n, first, d') ← read_loop count 0 source destination last d
    ok (ltb 0 n, first, d')

module _ {ℓ} {T : Type ℓ} (malloc : List ℕ → ℕ) where
  -- Dispatcher(), where each pipe has chunks of its own.
  unfoldable pub new_dispatcher : Heap T → ℕ → Result (Dispatcher T)
  unfolding new_pipe
  new_dispatcher h n = do
    assert (leb n 63)
    p ← new_pipe malloc chunk_size h
    ok (record { max_threads = n; pipes = λ k. p; signalers = λ i. none; attached = λ i. false })

  -- Dispatcher::write
  unfoldable pub send : ℕ → ℕ → T → Bool → Dispatcher T → Result (Dispatcher T)
  unfolding pipe_at signaler_at signal put_at
  send source destination v incomplete d = do
    p ← pipe_at d (index d source destination)
    p' ← write malloc chunk_size v incomplete p
    if incomplete
        then ok (record d { pipes = put_at (index d source destination) p' d.pipes })
        else (do
          s ← signaler_at d destination
          ok (record d {
            pipes = put_at (index d source destination) (flush p').1 d.pipes;
            signalers = put_at destination (some (signal source s)) d.signalers;
          }))

  -- DispatcherDestination::write for an array of messages. With no message, count - 1 wraps around
  -- and the first access is past the array's end.
  unfoldable pub send_all : ℕ → ℕ → List T → Dispatcher T → Result (Dispatcher T)
  unfolding send
  send_all source destination [] d = err bad_access
  send_all source destination (v ∷ []) d = send source destination v false d
  send_all source destination (v ∷ w ∷ vs) d = do
    d' ← send source destination v true d
    send_all source destination (w ∷ vs) d'
