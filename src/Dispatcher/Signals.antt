-- ===== src/Dispatcher/Signals.antt =====
-- DispatcherThreadSignaler of include/threading/DispatcherThreadSignaler.h, on the bitmap operations
-- of include/core/Atomic.h.
use supercell_common.Common.{
  ℕ, zero, suc, ◌+◌, ◌-◌, Bool, true, false, Option, none, some, ◌||◌, ◌==◌, if◌then◌else◌,
}

-- A bitmap of type uint64, as the function that gives its 64 bits.
abbrev pub Bitmap : Type 0
Bitmap = ℕ → Bool

abbrev pub no_bits : Bitmap
no_bits i = false

abbrev pub with_bit : ℕ → Bool → Bitmap → Bitmap
with_bit i x b j = if j == i then x else b j

-- Whether one of the first `n` bits is set.
unfoldable pub any_bit : ℕ → Bitmap → Bool
any_bit zero b = false
any_bit (suc n) b = b n || any_bit n b

-- mWaitSignal
abbrev pub wait_signal : ℕ
wait_signal = 63

-- `posts` is the count of the semaphore.
pub record Signaler : Type 0 where
  pub bitmap : Bitmap
  pub posts : ℕ

abbrev pub new_signaler : Signaler
new_signaler = record { bitmap = no_bits; posts = 0 }

-- bitmap_btsr sets a bit, resets another, and tells if that one was set.
unfoldable pub signal : ℕ → Signaler → Signaler
signal i s = record {
  bitmap = with_bit wait_signal false (with_bit i true s.bitmap);
  posts = if s.bitmap wait_signal then s.posts + 1 else s.posts;
}

-- poll() up to the wait for the semaphore: the bits, or none if the thread has to wait.
unfoldable pub poll_start : Signaler → Option Bitmap × Signaler
poll_start s =
    if any_bit 64 s.bitmap
    then (some s.bitmap, record s { bitmap = no_bits })
    else (none, record s { bitmap = with_bit wait_signal true no_bits })

-- The end of a poll() that waits: sem_wait returns only when there is a post to take.
unfoldable pub poll_end : Signaler → Option (Bitmap × Signaler)
poll_end s =
    if s.posts == 0 then none else some (s.bitmap, record { bitmap = no_bits; posts = s.posts - 1 })

unfoldable pub check : Signaler → Bitmap × Signaler
check s = (s.bitmap, record s { bitmap = no_bits })

unfoldable pub bit_or : Bitmap → Signaler → Signaler
bit_or b s = record s { bitmap = λ i. s.bitmap i || b i }
