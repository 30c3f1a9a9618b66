-- ===== src/Dispatcher/Receive.antt =====
-- DispatcherThreadContext::read of include/threading on a network that holds mail.
use supercell_common.Common.{
  put_at, put_at-here, put_at-other, ℕ, zero, suc, ◌≤◌, ◌<◌, ◌≡◌, refl, ap, ◌∙◌, Bool, true, false,
  some, arith, List, [], Result, ok, ◌||◌, eq_or_ne, inl, inr, Bool-cases,
}
use supercell_common.AtomicPipe.{AtomicPipe}
use supercell_common.Dispatcher.{Dispatcher, read_signals, receive}
use supercell_common.Dispatcher.Signals.{Bitmap, Signaler, any_bit, bit_or, no_bits}
use supercell_common.Dispatcher.Mail.{Mail, collected}
use supercell_common.Dispatcher.Network.{IsNetwork, IsMarked, IsSignalled, signaler_at_lem}
use supercell_common.Dispatcher.Scan.{Scans, scan_lem, collected-nothing, collected-other, unmarked}

-- Where no bit is set, each bit is reset.
any_bit-none : (n : ℕ) (b : Bitmap) → any_bit n b ≡ false → (i : ℕ) → i < n → b i ≡ false
unfolding any_bit
any_bit-none zero b e i x = absurd (omega arith)
any_bit-none (suc n) b e i x = elim (Bool-cases (b n)) [
  | inl set ↦ absurd (ground (arith, set, e))
  | inr reset ↦ elim (eq_or_ne i n) [
    | inl same ↦ rw same reset
    | inr other ↦ any_bit-none n b (rw reset at e) i (omega (arith, x, other))
  ]
]

or-true : (b c : Bool) → c ≡ true → (b || c) ≡ true
or-true true c e = refl
or-true false c e = e

module _ {ℓ} {T : Type ℓ} where
  -- The dispatcher and the mail after a read by the thread `t`.
  pub record Receives (n t : ℕ) (d : Dispatcher T) (m : Mail T)
      (r : Result (List (ℕ × T) × Dispatcher T)) : Type ℓ where
    pub after : Dispatcher T
    pub runs : r ≡ ok ((collected d.max_threads 0 n t m).0, after)
    pub same_size : after.max_threads ≡ d.max_threads
    pub network : IsNetwork after (collected d.max_threads 0 n t m).1
    pub signalled : IsSignalled after (collected d.max_threads 0 n t m).1

  -- The signals that were left are put back, and those of the other threads stay.
  put_back-IsSignalled :
      (d : Dispatcher T) (m : Mail T) (n t : ℕ) (left : Bitmap) (g h : Signaler)
      (f : ℕ → AtomicPipe T)
      → IsSignalled d m
      → IsMarked d.max_threads (collected d.max_threads 0 n t m).1 t left
      → IsSignalled
          (record d {
            pipes = f;
            signalers = put_at t (some (bit_or left g)) (put_at t (some h) d.signalers);
          })
          (collected d.max_threads 0 n t m).1
  unfolding IsSignalled IsMarked bit_or
  put_back-IsSignalled d m n t left g h f s marked t' y = elim (eq_or_ne t' t) [
    | inl e ↦ (
      bit_or left g,
      rw e (put_at-here t (some (bit_or left g)) (put_at t (some h) d.signalers)),
      λ i x ne.
          or-true (g.bitmap i) (left i)
            (marked i x (λ z. ne (ap ((collected d.max_threads 0 n t m).1.ready i) e ∙ z))),
    )
    | inr ne ↦
        let (g', at', marked') = s t' y in
        (
          g',
          put_at-other t t' (some (bit_or left g)) (put_at t (some h) d.signalers) ne
              ∙ put_at-other t t' (some h) d.signalers ne
              ∙ at',
          λ i x nonempty.
              marked' i x (λ z. nonempty (collected-other d.max_threads 0 n t m i t' ne ∙ z)),
        )
  ]

  -- Where no signal is set, nothing is ready.
  nothing_ready :
      (d : Dispatcher T) (m : Mail T) (n t : ℕ) (signals : Bitmap)
      → d.max_threads ≤ 63
      → IsMarked d.max_threads m t signals
      → any_bit 64 signals ≡ false
      → collected d.max_threads 0 n t m ≡ ([], m)
  unfolding IsMarked
  nothing_ready d m n t signals few marked e = collected-nothing d.max_threads 0 n t m (λ s x.
      unmarked (signals s) (m.ready s t) (marked s (omega (arith, x)))
        (any_bit-none 64 signals e s (omega (arith, x, few))))

  cleared-IsSignalled :
      (d : Dispatcher T) (m : Mail T) (t : ℕ) (signals : Bitmap) (h : Signaler)
      → IsSignalled d m
      → ((s : ℕ) → s < d.max_threads → m.ready s t ≡ [])
      → IsSignalled (record d { signalers = put_at t (some h) d.signalers }) m
  unfolding IsSignalled IsMarked
  cleared-IsSignalled d m t signals h s nothing t' y = elim (eq_or_ne t' t) [
    | inl e ↦ (
      h,
      rw e (put_at-here t (some h) d.signalers),
      λ i x ne. absurd (ne (ap (m.ready i) e ∙ nothing i x)),
    )
    | inr ne ↦
        let (g', at', marked') = s t' y in
        (g', put_at-other t t' (some h) d.signalers ne ∙ at', marked')
  ]

  read_signals-some :
      (d : Dispatcher T) (m : Mail T) (n t : ℕ) (signals : Bitmap) (h : Signaler)
      → t < d.max_threads
      → any_bit 64 signals ≡ true
      → d.signalers t ≡ some h
      → (r : Scans d.max_threads 0 n t signals d m)
      → read_signals n t signals d
        ≡ ok (
          (collected d.max_threads 0 n t m).0,
          record d { pipes = r.pipes'; signalers = put_at t (some (bit_or r.left h)) d.signalers },
        )
  unfolding read_signals
  read_signals-some d m n t signals h y e at r =
      rw (e, r.runs, signaler_at_lem (record d { pipes = r.pipes' }) t h y at) refl

  read_signals-none :
      (d : Dispatcher T) (n t : ℕ) (signals : Bitmap)
      → any_bit 64 signals ≡ false
      → read_signals n t signals d ≡ ok ([], d)
  unfolding read_signals
  read_signals-none d n t signals e = rw e refl

  pub receive_lem :
      (n t : ℕ) (d : Dispatcher T) (m : Mail T)
      → t < d.max_threads
      → IsNetwork d m
      → IsSignalled d m
      → Receives n t d m (receive n t d)
  unfolding receive IsSignalled
  receive_lem n t d m y w s =
      let (g, at, marked) = s t y in
      let cleared : Signaler = record g { bitmap = no_bits } in
      let d₀ : Dispatcher T = record d { signalers = put_at t (some cleared) d.signalers } in
      let w₀ : IsNetwork d₀ m = record { few = w.few; lanes = w.lanes } in
      elim (Bool-cases (any_bit 64 g.bitmap)) [
        | inl e ↦
            let r = scan_lem d.max_threads 0 n t g.bitmap d₀ m (omega arith) y w₀ marked in
            record {
              after = record d {
                pipes = r.pipes';
                signalers =
                    put_at t (some (bit_or r.left cleared)) (put_at t (some cleared) d.signalers);
              };
              runs = rw (signaler_at_lem d t g y at) (
                  read_signals-some d₀ m n t g.bitmap cleared y e
                    (put_at-here t (some cleared) d.signalers) r);
              same_size = refl;
              network = record { few = w.few; lanes = r.network.lanes };
              signalled = put_back-IsSignalled d m n t r.left cleared cleared r.pipes' s r.marked;
            }
        | inr e ↦
            let c = nothing_ready d m n t g.bitmap w.few marked e in
            record {
              after = d₀;
              runs = rw (signaler_at_lem d t g y at, c) (read_signals-none d₀ n t g.bitmap e);
              same_size = refl;
              network = rw c w₀;
              signalled = rw c (
                  cleared-IsSignalled d m t g.bitmap cleared s (λ i x.
                    unmarked (g.bitmap i) (m.ready i t) (marked i x)
                      (any_bit-none 64 g.bitmap e i (omega (arith, x, w.few)))));
            }
      ]
