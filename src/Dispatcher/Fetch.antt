-- ===== src/Dispatcher/Fetch.antt =====
-- DispatcherDestination::read of include/threading/DispatcherDestination.h on a network that holds
-- mail.
use supercell_common.Common.{
  ℕ, zero, suc, ◌<◌, ◌≡◌, refl, sym, Option, some, List, [], ◌∷◌, take, drop, ok, length, ltb, ◌+◌,
  ap, ◌∙◌, arith,
}
use supercell_common.AtomicPipe.{AtomicPipe}
use supercell_common.AtomicPipe.Spec.{tail}
use supercell_common.Dispatcher.{Dispatcher, read_loop, read_all}
use supercell_common.Dispatcher.Mail.{Mail}
use supercell_common.Dispatcher.Network.{IsNetwork, put_at2-here}
use supercell_common.Dispatcher.Drain.{read_from_lem, with_ready, with_ready-same, with_ready-twice}

module _ {ℓ} {T : Type ℓ} where
  -- The last value of a list, or else `o`.
  unfoldable pub last_or : Option T → List T → Option T
  last_or o [] = o
  last_or o (x ∷ xs) = last_or (some x) xs

  read_loop_lem :
      (n k s t : ℕ) (o : Option T) (d : Dispatcher T) (m : Mail T) (xs : List T)
      → s < d.max_threads
      → t < d.max_threads
      → m.ready s t ≡ xs
      → IsNetwork d m
      → (pipes' : ℕ → AtomicPipe T) × (read_loop n k s t o d
          ≡ ok (k + length (take n xs), last_or o (take n xs), record d { pipes = pipes' }))
        × IsNetwork (record d { pipes = pipes' }) (with_ready s t (drop n xs) m)
  unfolding read_loop last_or tail
  read_loop_lem zero k s t o d m xs x y e w =
      (d.pipes, ap (λ c. ok (c, o, d)) (omega arith), rw (sym e, with_ready-same s t m) w)
  read_loop_lem (suc n) k s t o d m [] x y e w =
      let (pipes', run, w') = read_from_lem d m s t x y w in
      (
        pipes',
        rw (run, e) (ap (λ c. ok (c, o, record d { pipes = pipes' })) (omega arith)),
        rw e at w',
      )
  read_loop_lem (suc n) k s t o d m (v ∷ vs) x y e w =
      let (pipes₁, run, w₁) = read_from_lem d m s t x y w in
      let (pipes₂, run', w₂) =
        read_loop_lem n (k + 1) s t (some v) (record d { pipes = pipes₁ }) (with_ready s t vs m) vs
          x y (put_at2-here s t vs m.ready) (rw e at w₁) in
      (
        pipes₂,
        rw (run, e)
            (run'
              ∙ ap (λ c. ok (c, last_or (some v) (take n vs), record d { pipes = pipes₂ }))
                  (omega arith)),
        rw (sym (with_ready-twice s t (drop n vs) vs m)) w₂,
      )

  -- On a network that holds mail, a read of at most `n` messages that does not block takes that many
  -- of the messages that are ready, and what is in the first place of the array afterwards is the
  -- last of them, or what was there before if none is ready: of several messages that are taken only
  -- one is given. It returns true just if it took one.
  pub read_all_lem :
      (n s t : ℕ) (o : Option T) (d : Dispatcher T) (m : Mail T)
      → s < d.max_threads
      → t < d.max_threads
      → IsNetwork d m
      → (pipes' : ℕ → AtomicPipe T) × (read_all n s t o d
          ≡ ok (
            ltb 0 (length (take n (m.ready s t))),
            last_or o (take n (m.ready s t)),
            record d { pipes = pipes' },
          ))
        × IsNetwork (record d { pipes = pipes' }) (with_ready s t (drop n (m.ready s t)) m)
  unfolding read_all
  read_all_lem n s t o d m x y w =
      let (pipes', run, w') = read_loop_lem n 0 s t o d m (m.ready s t) x y refl w in
      (
        pipes',
        rw run (
            ap (λ c. ok (ltb 0 c, last_or o (take n (m.ready s t)), record d { pipes = pipes' }))
              (omega arith)),
        w',
      )
