-- ===== src/Tests/Fixtures.antt =====
-- Buffers for the tests of include/core/Buffer.h.
use supercell_common.Common.{◌≡◌, refl, inl, false, [], ◌∷◌, arith}
use supercell_common.Buffer.State.{plain, circular, Buffer, default_buffer}
use supercell_common.Buffer.Contents.{contents, IsValid}
use supercell_common.Buffer.Room.{Ready}

-- A circular buffer of capacity 4 that holds 13, 14 and, round the end, 10.
abbrev pub ring : Buffer
ring = record default_buffer {
  mem = 10 ∷ 11 ∷ 12 ∷ 13 ∷ 14 ∷ [];
  allocated = 5;
  read_pos = 3;
  write_pos = 1;
}

pub ring-IsValid : IsValid circular ring
ring-IsValid = record { block = omega arith; small = omega arith; positions = omega arith }

pub contents-ring : contents ring ≡ 13 ∷ 14 ∷ 10 ∷ []
unfolding contents
contents-ring = refl

-- A plain buffer of 4 bytes, of which one has been read, that does not grow.
abbrev pub flat : Buffer
flat = record default_buffer {
  mem = 1 ∷ 2 ∷ 3 ∷ 4 ∷ [];
  allocated = 4;
  on_demand = false;
  read_pos = 1;
  write_pos = 3;
}

pub flat-IsValid : IsValid plain flat
flat-IsValid = record { block = omega arith; small = omega arith; positions = omega arith }

pub contents-flat : contents flat ≡ 2 ∷ 3 ∷ []
unfolding contents
contents-flat = refl

pub ring-Ready : Ready circular 100 ring
ring-Ready = record { writable = refl; small = omega arith; room = inl refl }
