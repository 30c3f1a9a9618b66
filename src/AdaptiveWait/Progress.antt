-- ===== src/AdaptiveWait/Progress.antt =====
-- When the state machine of include/threading/AdaptiveWait.h enters and leaves the waiting state.
use supercell_common.Common.{
  ℕ, zero, suc, ◌+◌, ◌-◌, ◌≤◌, ◌<◌, ◌≡◌, refl, ap, ◌∙◌, true, false, List, [], ◌∷◌, arith, inl, inr,
  ◌⊎◌, Bool-cases, replicate, leb,
}
use supercell_common.AdaptiveWait.{
  Config, AdaptiveWait, Signal, slow, fast, start, slowdown, speedup, signalled, after,
}
use supercell_common.AdaptiveWait.Bounds.{IsSound, InBounds, speedup-InBounds}

-- The slow signals of a sequence.
unfoldable pub slow_count : List Signal → ℕ
slow_count [] = 0
slow_count (slow ∷ ss) = 1 + slow_count ss
slow_count (fast ∷ ss) = slow_count ss

-- How many fast signals a waiting thread can get before it stops waiting.
unfoldable pub patience : Config → AdaptiveWait → ℕ
patience c w = w.time_to_wait - c.min_wait + (c.leave_signals - w.signals_before_leave)

module _ (c : Config) (sound : IsSound c) where
  counting :
      (ss : List Signal) (n : ℕ)
      → n + slow_count ss < c.enter_signals
      → after c ss (record (start c) { signals_before_enter = n })
        ≡ record (start c) { signals_before_enter = n + slow_count ss }
  unfolding after start slowdown speedup slow_count
  counting [] n h = ground arith
  counting (slow ∷ ss) n h = ground (arith, counting ss (n + 1))
  counting (fast ∷ ss) n h = ground (arith, counting ss n)

  -- With sound parameters, from the start a thread does not wait before as many slow signals as the parameter asks for,
  -- whatever fast ones come between them, and a further slow one makes it wait just if it is the
  -- last of these; the time to wait is then still the least one.
  pub waits_after :
      (ss : List Signal)
      → slow_count ss < c.enter_signals
      → ((after c ss (start c)).waiting ≡ false)
        × ((slowdown c (after c ss (start c))).waiting ≡ leb c.enter_signals (1 + slow_count ss))
        × ((slowdown c (after c ss (start c))).time_to_wait ≡ c.min_wait)
  unfolding start slowdown
  waits_after ss h = ground (arith, counting ss 0 (omega arith))

  speedup-stays : (w : AdaptiveWait) → w.waiting ≡ false → speedup c w ≡ w
  unfolding speedup
  speedup-stays w e = ground arith

  speedup-patience :
      (w : AdaptiveWait)
      → InBounds c w
      → w.waiting ≡ true
      → 1 ≤ c.speed_up_step
      → ((speedup c w).waiting ≡ false) ⊎ (patience c (speedup c w) < patience c w)
  unfolding speedup patience
  speedup-patience w b e h = ground arith

  idle : (n : ℕ) (w : AdaptiveWait) → w.waiting ≡ false → after c (replicate n fast) w ≡ w
  unfolding after signalled
  idle zero w e = refl
  idle (suc n) w e = ap (after c (replicate n fast)) (speedup-stays w e) ∙ idle n w e

  -- With sound parameters a waiting thread within its bounds stops waiting by as many fast signals as its patience is,
  -- if each makes the time to wait shorter.
  pub stops_waiting :
      (n : ℕ) (w : AdaptiveWait)
      → InBounds c w
      → 1 ≤ c.speed_up_step
      → patience c w ≤ n
      → (after c (replicate n fast) w).waiting ≡ false
  unfolding after signalled patience
  stops_waiting zero w b h p = absurd (ground arith)
  stops_waiting (suc n) w b h p = elim (Bool-cases w.waiting) [
    | inl e ↦ elim (speedup-patience w b e h) [
      | inl e' ↦ ap (λ v. v.waiting) (idle n (speedup c w) e') ∙ e'
      | inr less ↦ stops_waiting n (speedup c w) (speedup-InBounds c sound w b) h (omega arith)
    ]
    | inr e ↦ ap (λ v. v.waiting) (idle (suc n) w e) ∙ e
  ]
