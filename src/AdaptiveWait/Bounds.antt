-- ===== src/AdaptiveWait/Bounds.antt =====
-- The bounds that every state of include/threading/AdaptiveWait.h keeps.
use supercell_common.Common.{
  ◌+◌, ◌^◌, ◌≤◌, ◌<◌, ◌≡◌, true, false, List, [], ◌∷◌, arith, inl, inr, ◌⊎◌, Bool-cases,
}
use supercell_common.AdaptiveWait.{
  Config, AdaptiveWait, Signal, slow, fast, start, slowdown, speedup, after, wait_time,
}

-- Parameters with which no sum wraps.
pub record IsSound (c : Config) : Type 0 where
  pub enters : 1 ≤ c.enter_signals
  pub enters_word : c.enter_signals < 2 ^ 32
  pub leaves : 1 ≤ c.leave_signals
  pub leaves_word : c.leave_signals < 2 ^ 32
  pub ordered : c.min_wait ≤ c.max_wait
  pub slow_word : c.max_wait + c.slow_down_step < 2 ^ 32
  pub fast_word : c.min_wait + c.speed_up_step < 2 ^ 32

pub record InBounds (c : Config) (w : AdaptiveWait) : Type 0 where
  pub low : c.min_wait ≤ w.time_to_wait
  pub high : w.time_to_wait ≤ c.max_wait
  pub entering : w.signals_before_enter < c.enter_signals
  pub leaving : w.signals_before_leave < c.leave_signals

module _ (c : Config) (sound : IsSound c) where
  start-InBounds : InBounds c (start c)
  unfolding start
  start-InBounds = ground arith

  slowdown-InBounds : (w : AdaptiveWait) → InBounds c w → InBounds c (slowdown c w)
  unfolding slowdown
  slowdown-InBounds w b = ground arith

  pub speedup-InBounds : (w : AdaptiveWait) → InBounds c w → InBounds c (speedup c w)
  unfolding speedup
  speedup-InBounds w b = ground arith

  after-InBounds : (ss : List Signal) (w : AdaptiveWait) → InBounds c w → InBounds c (after c ss w)
  unfolding after
  after-InBounds [] w b = b
  after-InBounds (slow ∷ ss) w b = after-InBounds ss (slowdown c w) (slowdown-InBounds w b)
  after-InBounds (fast ∷ ss) w b = after-InBounds ss (speedup c w) (speedup-InBounds w b)

  -- With sound parameters (each count of signals at least 1, the least time to wait not above the
  -- greatest, no sum of a time and its step 2^32 or more), after any signals the time to wait is 0, or
  -- the thread waits and it is in the bounds.
  pub wait_time-bounds :
      (ss : List Signal)
      → let w = after c ss (start c) in
        ((w.waiting ≡ false) × (wait_time w ≡ 0))
        ⊎ ((w.waiting ≡ true) × (c.min_wait ≤ wait_time w) × (wait_time w ≤ c.max_wait))
  unfolding wait_time
  wait_time-bounds ss = elim (Bool-cases (after c ss (start c)).waiting) [
    | inl e ↦ inr (ground (arith, after-InBounds ss (start c) start-InBounds))
    | inr e ↦ inl (ground arith)
  ]
