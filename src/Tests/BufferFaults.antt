-- ===== src/Tests/BufferFaults.antt =====
-- Where include/core/Buffer.h reaches too far, at concrete buffers.
use supercell_common.Common.{
  ℕ, ◌≤◌, ◌<◌, ◌≡◌, ◌≢◌, refl, ap, inl, false, List, [], ◌∷◌, ok, err, bad_access, length, take,
  drop, replicate, ◌-◌, arith,
}
use supercell_common.Buffer.State.{plain, circular, Buffer, default_buffer}
use supercell_common.Buffer.Positions.{data_size}
use supercell_common.Buffer.Block.{append, zero_free, read_direct}
use supercell_common.Buffer.Contents.{contents, IsValid}
use supercell_common.Buffer.Values.{Value, number, string, vector, pair, probe_size}
use supercell_common.Buffer.Wire.{encode}
use supercell_common.Buffer.Measure.{probe_size-ne-length}
use supercell_common.Buffer.Sharing.{append-wrapped}
use supercell_common.Buffer.Overrun.{zero_free_lem, zero_free-overrun, read_direct-beyond}
use supercell_common.Tests.Heap.{zeros, zeros-IsAllocator}

-- Three bytes have been written and two of them read.
abbrev used : Buffer
used = record default_buffer {
  mem = 1 ∷ 2 ∷ 3 ∷ 4 ∷ [];
  allocated = 4;
  on_demand = false;
  read_pos = 2;
  write_pos = 3;
}

used-IsValid : IsValid plain used
used-IsValid = record { block = omega arith; small = omega arith; positions = omega arith }

contents-used : contents used ≡ 3 ∷ []
unfolding contents
contents-used = refl

zero_free-overrun_example : zero_free plain used ≡ err bad_access
zero_free-overrun_example =
    zero_free-overrun plain used used-IsValid refl (omega arith) (omega arith)

read_direct-beyond_example :
    (bytes : List ℕ) × (b' : Buffer) × (read_direct plain 2 used ≡ ok (bytes, b'))
    × (b'.write_pos < b'.read_pos)
    × (b'.allocated ≤ data_size plain b')
read_direct-beyond_example =
    read_direct-beyond used 2 used-IsValid (omega (arith, ap length contents-used)) (omega arith)

abbrev unread : Buffer
unread = record used { read_pos = 0 }

zero_free_lem_example :
    (b' : Buffer) × (zero_free plain unread ≡ ok b')
    × IsValid plain b'
    × (contents b' ≡ contents unread)
    × (take (4 - 3) (drop 3 b'.mem) ≡ replicate (4 - 3) 0)
zero_free_lem_example =
    zero_free_lem unread
      (record { block = omega arith; small = omega arith; positions = omega arith }) refl

-- A circular buffer whose three bytes go round the end of the block.
abbrev wrapped : Buffer
wrapped = record default_buffer {
  mem = 10 ∷ 11 ∷ 12 ∷ 13 ∷ 14 ∷ [];
  allocated = 5;
  read_pos = 3;
  write_pos = 1;
}

contents-wrapped : contents wrapped ≡ 13 ∷ 14 ∷ 10 ∷ []
unfolding contents
contents-wrapped = refl

append-wrapped_example : append zeros plain default_buffer circular wrapped 3 ≡ err bad_access
append-wrapped_example =
    append-wrapped zeros zeros-IsAllocator plain default_buffer wrapped 3
      (record { block = omega arith; small = omega arith; positions = omega arith })
      (record { writable = refl; small = omega arith; room = inl refl })
      (record { block = omega arith; small = omega arith; positions = omega arith }) refl
      (omega (arith, ap length contents-wrapped)) (omega arith)

probe_size-ne-length_example :
    let v : Value (vector (pair string (number 4))) = (b'a' ∷ [], 1) ∷ (b'b' ∷ b'c' ∷ [], 2) ∷ [] in
    probe_size (vector (pair string (number 4))) v
    ≢ length (encode (vector (pair string (number 4))) v)
probe_size-ne-length_example =
    probe_size-ne-length 4 1 2 (b'a' ∷ []) (b'b' ∷ b'c' ∷ []) (omega arith) (omega arith)
      (omega arith)
