-- ===== src/AdaptiveWait.antt =====
-- AdaptiveWait of include/threading/AdaptiveWait.h: the state machine by which a polling thread
-- backs off.
pub mod Bounds
pub mod Progress
use supercell_common.Common.{
  ℕ, ◌+◌, ◌-◌, ◌%◌, ◌^◌, Bool, true, false, List, [], ◌∷◌, ltb, leb, if◌then◌else◌,
}

-- The template's parameters, of type uint32.
pub record Config : Type 0 where
  pub enter_signals : ℕ
  pub leave_signals : ℕ
  pub min_wait : ℕ
  pub max_wait : ℕ
  pub slow_down_step : ℕ
  pub speed_up_step : ℕ

pub record AdaptiveWait : Type 0 where
  pub waiting : Bool
  pub signals_before_enter : ℕ
  pub signals_before_leave : ℕ
  pub time_to_wait : ℕ

pub data Signal : Type 0 where
  slow fast : Signal

-- Sums and differences of uint32.
abbrev add32 : ℕ → ℕ → ℕ
add32 a b = (a + b) % 2 ^ 32

abbrev sub32 : ℕ → ℕ → ℕ
sub32 a b = (a + 2 ^ 32 - b) % 2 ^ 32

module _ (c : Config) where
  unfoldable pub start : AdaptiveWait
  start = record {
    waiting = false;
    signals_before_enter = 0;
    signals_before_leave = 0;
    time_to_wait = c.min_wait;
  }

  unfoldable pub slowdown : AdaptiveWait → AdaptiveWait
  slowdown w =
      let signals = add32 w.signals_before_enter 1 in
      let time = add32 w.time_to_wait c.slow_down_step in
      if w.waiting
      then record w { time_to_wait = if leb c.max_wait time then c.max_wait else time }
      else if leb c.enter_signals signals
      then record w { waiting = true; time_to_wait = c.min_wait; signals_before_enter = 0 }
      else record w { signals_before_enter = signals }

  unfoldable pub speedup : AdaptiveWait → AdaptiveWait
  speedup w =
      let signals = add32 w.signals_before_leave 1 in
      if w.waiting
      then (if ltb (add32 c.min_wait c.speed_up_step) w.time_to_wait
          then record w { time_to_wait = sub32 w.time_to_wait c.speed_up_step }
          else if leb c.leave_signals signals
          then record w { time_to_wait = c.min_wait; waiting = false; signals_before_leave = 0 }
          else record w { time_to_wait = c.min_wait; signals_before_leave = signals })
      else w

  unfoldable pub signalled : Signal → AdaptiveWait → AdaptiveWait
  unfolding slowdown speedup
  signalled slow w = slowdown w
  signalled fast w = speedup w

  -- The state after a sequence of signals.
  unfoldable pub after : List Signal → AdaptiveWait → AdaptiveWait
  unfolding signalled
  after [] w = w
  after (s ∷ ss) w = after ss (signalled s w)

-- time_to_wait()
unfoldable pub wait_time : AdaptiveWait → ℕ
wait_time w = if w.waiting then w.time_to_wait else 0
