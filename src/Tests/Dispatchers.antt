-- ===== src/Tests/Dispatchers.antt =====
-- The theorems on the dispatcher of include/threading at networks of two threads.
use supercell_common.Common.{
  ℕ, ◌≡◌, refl, true, false, none, some, arith, List, [], ◌∷◌, take, drop, ok, ◌>>=◌,
}
use supercell_common.Dispatcher.{Dispatcher, new_dispatcher, read_all}
use supercell_common.Dispatcher.Signals.{signal, poll_start, new_signaler, any_bit}
use supercell_common.Dispatcher.Mail.{no_mail, posted, posted_all, collected, put_at2}
use supercell_common.Dispatcher.Network.{IsNetwork}
use supercell_common.Dispatcher.Open.{create_contexts, open_lem}
use supercell_common.Dispatcher.Batch.{send_all_lem}
use supercell_common.Dispatcher.Fetch.{last_or, read_all_lem}
use supercell_common.Dispatcher.Wakeup.{
  Poller, IsReachable, start, then_step, signalled, polls_waits, waiting, Waited, wait_lem,
}
use supercell_common.Dispatcher.Refine.{
  Call, post, post_all, fetch, call_mail, calls_mail, calls_dispatcher, network_refines, InRange,
}
use supercell_common.AtomicPipe.{AtomicPipe}
use supercell_common.Dispatcher.Drain.{with_ready}
use supercell_common.Tests.Pipes.{above, above-free, no_chunks}

-- A held message, some sent together, and reads that do not have room for all.
abbrev calls : List (Call ℕ)
calls =
    post 0 1 7 true
    ∷ fetch 4 1
    ∷ post_all 1 1 5 (6 ∷ [])
    ∷ post 0 1 8 false
    ∷ fetch 1 1
    ∷ fetch 2 1
    ∷ fetch 4 1
    ∷ fetch 4 0
    ∷ []

network_refines_example :
    ((new_dispatcher above no_chunks 2 >>= create_contexts 2) >>= calls_dispatcher above calls)
    ≡ ok (calls_mail 2 calls no_mail)
unfolding InRange
network_refines_example = network_refines above above-free no_chunks 2 calls (omega arith) (
  (omega arith, omega arith),
  (
    omega arith,
    (
      (omega arith, omega arith),
      ((omega arith, omega arith), (omega arith, (omega arith, (omega arith, (omega arith, tt))))),
    ),
  ),
)

calls_mail_test :
    calls_mail 2 calls no_mail
    ≡ none
      ∷ some []
      ∷ none
      ∷ none
      ∷ some ((0, 7) ∷ [])
      ∷ some ((0, 8) ∷ (1, 5) ∷ [])
      ∷ some ((1, 6) ∷ [])
      ∷ some []
      ∷ []
unfolding calls_mail call_mail posted posted_all collected put_at2
calls_mail_test = refl

-- A thread that waits while another signals it.
abbrev signalled_once : Poller
signalled_once = waiting (signal 5 (poll_start new_signaler).1)

signalled_once-IsReachable : IsReachable signalled_once
unfolding poll_start any_bit
signalled_once-IsReachable =
    then_step _ _ (then_step _ _ start (polls_waits new_signaler (poll_start new_signaler).1 refl))
      (signalled 5 _ (omega arith))

wait_lem_example : Waited (signal 5 (poll_start new_signaler).1)
wait_lem_example = wait_lem signalled_once signalled_once-IsReachable refl

-- A network of two threads with three messages from the first to the second.
opened :
    (d : Dispatcher ℕ) × IsNetwork d (posted_all 0 1 7 (8 ∷ 9 ∷ []) no_mail) × (2 ≡ d.max_threads)
opened =
    let (d, run, size, w, g) = open_lem above no_chunks 2 above-free (omega arith) in
    let (d', run', size', w', g') =
      send_all_lem above above-free d no_mail 0 1 7 (8 ∷ 9 ∷ []) (omega (arith, size))
        (omega (arith, size)) w g in
    (d', w', omega (arith, size, size'))

read_all_lem_example :
    (pipes' : ℕ → AtomicPipe ℕ) × (read_all 2 0 1 none opened.0
      ≡ ok (
        true,
        last_or none (take 2 ((posted_all 0 1 7 (8 ∷ 9 ∷ []) no_mail).ready 0 1)),
        record (opened.0) { pipes = pipes' },
      ))
    × IsNetwork
        (record (opened.0) { pipes = pipes' })
        (with_ready 0 1
          (drop 2 ((posted_all 0 1 7 (8 ∷ 9 ∷ []) no_mail).ready 0 1))
          (posted_all 0 1 7 (8 ∷ 9 ∷ []) no_mail))
unfolding posted_all
read_all_lem_example =
    read_all_lem 2 0 1 none opened.0 (posted_all 0 1 7 (8 ∷ 9 ∷ []) no_mail)
      (omega (arith, opened.2)) (omega (arith, opened.2)) opened.1
