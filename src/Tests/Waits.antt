-- ===== src/Tests/Waits.antt =====
-- The theorems on include/threading/AdaptiveWait.h at concrete parameters and signals.
use supercell_common.Common.{
  ◌+◌, ◌≤◌, ◌≡◌, refl, true, false, List, [], ◌∷◌, ◌⊎◌, replicate, leb, arith,
}
use supercell_common.AdaptiveWait.{
  Config, AdaptiveWait, Signal, slow, fast, start, slowdown, speedup, signalled, after, wait_time,
}
use supercell_common.AdaptiveWait.Bounds.{IsSound, wait_time-bounds}
use supercell_common.AdaptiveWait.Progress.{slow_count, patience, waits_after, stops_waiting}

abbrev config : Config
config = record {
  enter_signals = 3;
  leave_signals = 2;
  min_wait = 100;
  max_wait = 500;
  slow_down_step = 150;
  speed_up_step = 120;
}

abbrev config-IsSound : IsSound config
config-IsSound = record {
  enters = omega arith;
  enters_word = omega arith;
  leaves = omega arith;
  leaves_word = omega arith;
  ordered = omega arith;
  slow_word = omega arith;
  fast_word = omega arith;
}

abbrev signals : List Signal
signals = slow ∷ slow ∷ fast ∷ slow ∷ slow ∷ slow ∷ []

wait_time-bounds_example :
    let w = after config signals (start config) in
    ((w.waiting ≡ false) × (wait_time w ≡ 0))
    ⊎ ((w.waiting ≡ true) × (100 ≤ wait_time w) × (wait_time w ≤ 500))
wait_time-bounds_example = wait_time-bounds config config-IsSound signals

-- Two steps up from the least time.
wait_time_test : wait_time (after config signals (start config)) ≡ 400
unfolding after signalled start slowdown speedup wait_time
wait_time_test = refl

waits_after_example :
    ((after config (slow ∷ fast ∷ slow ∷ []) (start config)).waiting ≡ false)
    × ((slowdown config (after config (slow ∷ fast ∷ slow ∷ []) (start config))).waiting
        ≡ leb 3 (1 + slow_count (slow ∷ fast ∷ slow ∷ [])))
    × ((slowdown config (after config (slow ∷ fast ∷ slow ∷ []) (start config))).time_to_wait ≡ 100)
unfolding slow_count
waits_after_example = waits_after config config-IsSound (slow ∷ fast ∷ slow ∷ []) (omega arith)

abbrev backed_off : AdaptiveWait
backed_off = record {
  waiting = true;
  signals_before_enter = 0;
  signals_before_leave = 0;
  time_to_wait = 400;
}

stops_waiting_example : (after config (replicate 302 fast) backed_off).waiting ≡ false
unfolding patience
stops_waiting_example =
    stops_waiting config config-IsSound 302 backed_off
      (record {
        low = omega arith;
        high = omega arith;
        entering = omega arith;
        leaving = omega arith;
      })
      (omega arith) (omega arith)
