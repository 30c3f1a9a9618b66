-- ===== src/Dispatcher/Scan.antt =====
-- The outer loop of DispatcherThreadContext::read in include/threading: the sources in turn.
use supercell_common.Common.{
  ℕ, zero, suc, ◌+◌, ◌-◌, ◌<◌, ◌≡◌, ◌≢◌, refl, sym, ap, ◌∙◌, Bool, true, false, arith, List, [],
  ◌∷◌, take, drop, length, ok, if◌then◌else◌, ne→ne, eq_or_ne, inl, inr, Bool-cases,
}
use supercell_common.AtomicPipe.{AtomicPipe}
use supercell_common.Dispatcher.{Dispatcher, scan}
use supercell_common.Dispatcher.Signals.{Bitmap, with_bit}
use supercell_common.Dispatcher.Mail.{Mail, collected}
use supercell_common.Dispatcher.Network.{IsNetwork, IsMarked, put_at2-here, put_at2-other}
use supercell_common.Dispatcher.Drain.{drain_lem, with_ready, with_ready-same}

take-nil {ℓ} : {T : Type ℓ} (n : ℕ) → take {A = T} n [] ≡ []
take-nil zero = refl
take-nil (suc n) = refl

drop-nil {ℓ} : {T : Type ℓ} (n : ℕ) → drop {A = T} n [] ≡ []
drop-nil zero = refl
drop-nil (suc n) = refl

-- The bits after the inner loop: that of its source is reset if the source has nothing more.
abbrev bits_left : ℕ → Bool → Bitmap → Bitmap
bits_left i more signals = if more then signals else with_bit i false signals

module _ {ℓ} {T : Type ℓ} where
  pub unmarked : (b : Bool) (xs : List T) → (xs ≢ [] → b ≡ true) → b ≡ false → xs ≡ []
  unmarked b [] h e = refl
  unmarked b (x ∷ xs) h e = absurd (ground (arith, e, h (λ z. absurd (ground (arith, z)))))

  -- A source that has nothing ready is passed over.
  collected-pass :
      (k i n t : ℕ) (m : Mail T)
      → m.ready i t ≡ []
      → collected (suc k) i n t m ≡ collected k (i + 1) n t m
  unfolding collected
  collected-pass k i n t m e =
      let nothing : with_ready i t [] m ≡ m =
        ap (λ xs. with_ready i t xs m) (sym e) ∙ with_ready-same i t m in
      let room : n - 0 ≡ n = omega arith in
      rw (e, take-nil {T = T} n, drop-nil {T = T} n, nothing, room) refl

  -- Nothing is collected where nothing is ready, or where there is no room.
  pub collected-nothing :
      (k i n t : ℕ) (m : Mail T)
      → ((s : ℕ) → s < i + k → m.ready s t ≡ [])
      → collected k i n t m ≡ ([], m)
  unfolding collected
  collected-nothing zero i n t m h = refl
  collected-nothing (suc k) i n t m h =
      collected-pass k i n t m (h i (omega arith))
      ∙ collected-nothing k (i + 1) n t m (λ s x. h s (omega arith))

  collected-full : (k i t : ℕ) (m : Mail T) → collected k i 0 t m ≡ ([], m)
  unfolding collected
  collected-full zero i t m = refl
  collected-full (suc k) i t m = rw (with_ready-same i t m, collected-full k (i + 1) t m) refl

  -- The mail for other threads stays.
  pub collected-other :
      (k i n t : ℕ) (m : Mail T) (s j : ℕ) → j ≢ t → (collected k i n t m).1.ready s j ≡ m.ready s j
  unfolding collected
  collected-other zero i n t m s j ne = refl
  collected-other (suc k) i n t m s j ne =
      collected-other k (i + 1) (n - length (take n (m.ready i t))) t
        (with_ready i t (drop n (m.ready i t)) m) s j ne
      ∙ put_at2-other i t s j (drop n (m.ready i t)) m.ready (inr ne)

  -- What the outer loop does to the mail for the thread `t`, from the source `i` on.
  pub record Scans (k i n t : ℕ) (signals : Bitmap) (d : Dispatcher T) (m : Mail T) : Type ℓ where
    pub left : Bitmap
    pub pipes' : ℕ → AtomicPipe T
    pub runs :
        scan k i n t signals d ≡ ok ((collected k i n t m).0, (left, record d { pipes = pipes' }))
    pub network : IsNetwork (record d { pipes = pipes' }) (collected k i n t m).1
    pub marked : IsMarked d.max_threads (collected k i n t m).1 t left

  -- The outer loop ends at once where nothing is collected.
  stay :
      (k i n t : ℕ) (signals : Bitmap) (d : Dispatcher T) (m : Mail T)
      → collected k i n t m ≡ ([], m)
      → scan k i n t signals d ≡ ok ([], (signals, d))
      → IsNetwork d m
      → IsMarked d.max_threads m t signals
      → Scans k i n t signals d m
  stay k i n t signals d m c run w g = record {
    left = signals;
    pipes' = d.pipes;
    runs = rw c run;
    network = rw c w;
    marked = rw c g;
  }

  -- The outer loop passes over a source whose bit is not set.
  pass :
      (k i n t : ℕ) (signals : Bitmap) (d : Dispatcher T) (m : Mail T)
      → n ≢ 0
      → signals i ≡ false
      → m.ready i t ≡ []
      → Scans k (i + 1) n t signals d m
      → Scans (suc k) i n t signals d m
  unfolding scan
  pass k i n t signals d m room e nothing rest =
      let c = collected-pass k i n t m nothing in
      record {
        left = rest.left;
        pipes' = rest.pipes';
        runs = rw (ne→ne n 0 room, e, c) rest.runs;
        network = rw c rest.network;
        marked = rw c rest.marked;
      }

  drained-IsMarked :
      (more : Bool) (i n t max : ℕ) (signals : Bitmap) (m : Mail T) (xs : List T)
      → IsMarked max m t signals
      → (more ≡ false → xs ≡ [])
      → signals i ≡ true
      → IsMarked max (with_ready i t xs m) t (bits_left i more signals)
  unfolding IsMarked
  drained-IsMarked true i n t max signals m xs g ex e s x ne = elim (eq_or_ne s i) [
    | inl same ↦ rw same e
    | inr other ↦ g s x (λ z. ne (put_at2-other i t s t xs m.ready (inl other) ∙ z))
  ]
  drained-IsMarked false i n t max signals m xs g ex e s x ne = elim (eq_or_ne s i) [
    | inl same ↦ absurd (ne (rw same (put_at2-here i t xs m.ready ∙ ex refl)))
    | inr other ↦
        rw (ne→ne s i other) (g s x (λ z. ne (put_at2-other i t s t xs m.ready (inl other) ∙ z)))
  ]

  pub scan_lem :
      (k i n t : ℕ) (signals : Bitmap) (d : Dispatcher T) (m : Mail T)
      → i + k ≡ d.max_threads
      → t < d.max_threads
      → IsNetwork d m
      → IsMarked d.max_threads m t signals
      → Scans k i n t signals d m
  unfolding scan collected IsMarked
  scan_lem zero i n t signals d m x y w g = record {
    left = signals;
    pipes' = d.pipes;
    runs = refl;
    network = w;
    marked = g;
  }
  scan_lem (suc k) i n t signals d m x y w g = elim (eq_or_ne n 0) [
    | inl full ↦ rw full (stay (suc k) i 0 t signals d m (collected-full (suc k) i t m) refl w g)
    | inr room ↦ elim (Bool-cases (signals i)) [
      | inl e ↦
          let here : i < d.max_threads = omega (arith, x) in
          let r = drain_lem n i t d m (m.ready i t) here y refl w in
          let xs = drop n (m.ready i t) in
          let after : Dispatcher T = record d { pipes = r.pipes' } in
          let rest =
            scan_lem k (i + 1) (n - length (take n (m.ready i t))) t (bits_left i r.more signals)
              after (with_ready i t xs m) (omega (arith, x)) y r.network
              (drained-IsMarked r.more i n t d.max_threads signals m xs g r.exhausted e) in
          record {
            left = rest.left;
            pipes' = rest.pipes';
            runs = rw (ne→ne n 0 room, e, r.runs, rest.runs) refl;
            network = rest.network;
            marked = rest.marked;
          }
      | inr e ↦
          pass k i n t signals d m room e
            (unmarked (signals i) (m.ready i t) (g i (omega (arith, x))) e)
            (scan_lem k (i + 1) n t signals d m (omega (arith, x)) y w g)
    ]
  ]
