-- ===== src/Dispatcher/Drain.antt =====
-- The inner loop of DispatcherThreadContext::read in include/threading: the messages of one source.
use supercell_common.Common.{
  put_at, ℕ, zero, suc, ◌<◌, ◌≡◌, refl, sym, ap, Bool, true, false, arith, List, [], ◌∷◌, take,
  drop, get_elem?, ok,
}
use supercell_common.AtomicPipe.{AtomicPipe}
use supercell_common.AtomicPipe.Spec.{tail}
use supercell_common.Dispatcher.{Dispatcher, index, read_from, drain}
use supercell_common.Dispatcher.Mail.{Mail, put_at2}
use supercell_common.Dispatcher.Lane.{read-IsLane}
use supercell_common.Dispatcher.Network.{
  IsNetwork, pipe_at_lem, store-IsLane, put_at2-here, put_at2-same, put_at2-kept, put_at2-twice,
}

module _ {ℓ} {T : Type ℓ} where
  -- Mail with other messages ready from one source to one destination.
  abbrev pub with_ready : ℕ → ℕ → List T → Mail T → Mail T
  with_ready s t xs m = record m { ready = put_at2 s t xs m.ready }

  pub with_ready-same : (s t : ℕ) (m : Mail T) → with_ready s t (m.ready s t) m ≡ m
  with_ready-same s t m = ap (λ f. record m { ready = f }) (put_at2-same s t m.ready)

  pub with_ready-twice :
      (s t : ℕ) (xs ys : List T) (m : Mail T)
      → with_ready s t xs (with_ready s t ys m) ≡ with_ready s t xs m
  with_ready-twice s t xs ys m = ap (λ f. record m { ready = f }) (put_at2-twice s t xs ys m.ready)

  -- Dispatcher::read gives the first ready message, which is gone then.
  pub read_from_lem :
      (d : Dispatcher T) (m : Mail T) (s t : ℕ)
      → s < d.max_threads
      → t < d.max_threads
      → IsNetwork d m
      → (pipes' : ℕ → AtomicPipe T) × (read_from s t d
          ≡ ok (get_elem? (m.ready s t) 0, record d { pipes = pipes' }))
        × IsNetwork (record d { pipes = pipes' }) (with_ready s t (tail (m.ready s t)) m)
  unfolding read_from
  read_from_lem d m s t x y w =
      let (p', run, l) =
        read-IsLane (d.pipes (index d s t)) (m.ready s t) (m.held s t) (w.lanes s t x y) in
      (
        put_at (index d s t) p' d.pipes,
        rw (pipe_at_lem d s t x y, run) refl,
        record {
          few = w.few;
          lanes = λ i j x' y'.
              rw (sym (put_at2-kept s t i j m.held))
                (store-IsLane d m s t p' (tail (m.ready s t)) (m.held s t) x y w l i j x' y');
        },
      )

  -- What the inner loop leaves of the messages `xs` that are ready.
  pub record Drains (n s t : ℕ) (d : Dispatcher T) (m : Mail T) (xs : List T) : Type ℓ where
    pub more : Bool
    pub pipes' : ℕ → AtomicPipe T
    pub runs : drain n s t d ≡ ok (take n xs, (more, record d { pipes = pipes' }))
    pub network : IsNetwork (record d { pipes = pipes' }) (with_ready s t (drop n xs) m)
    pub exhausted : more ≡ false → drop n xs ≡ []

  pub drain_lem :
      (n s t : ℕ) (d : Dispatcher T) (m : Mail T) (xs : List T)
      → s < d.max_threads
      → t < d.max_threads
      → m.ready s t ≡ xs
      → IsNetwork d m
      → Drains n s t d m xs
  unfolding drain tail
  drain_lem zero s t d m xs x y e w = record {
    more = true;
    pipes' = d.pipes;
    runs = refl;
    network = rw (sym e, with_ready-same s t m) w;
    exhausted = λ z. absurd (ground (arith, z));
  }
  drain_lem (suc n) s t d m [] x y e w =
      let (pipes', run, w') = read_from_lem d m s t x y w in
      record {
        more = false;
        pipes' = pipes';
        runs = rw (run, e) refl;
        network = rw e at w';
        exhausted = λ z. refl;
      }
  drain_lem (suc n) s t d m (v ∷ vs) x y e w =
      let (pipes', run, w') = read_from_lem d m s t x y w in
      let r =
        drain_lem n s t (record d { pipes = pipes' }) (with_ready s t vs m) vs x y
          (put_at2-here s t vs m.ready) (rw e at w') in
      record {
        more = r.more;
        pipes' = r.pipes';
        runs = rw (run, e, r.runs) refl;
        network = rw (sym (with_ready-twice s t (drop n vs) vs m)) r.network;
        exhausted = r.exhausted;
      }
