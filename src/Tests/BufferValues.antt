-- ===== src/Tests/BufferValues.antt =====
-- The theorems on typed values in include/core/Buffer.h at concrete values.
use supercell_common.Common.{◌≡◌, refl, inl, [], ◌∷◌, ok, length, arith}
use supercell_common.Buffer.State.{circular, Buffer, default_buffer}
use supercell_common.Buffer.Contents.{contents, IsValid}
use supercell_common.Buffer.Write.{Wrote}
use supercell_common.Buffer.Read.{Took}
use supercell_common.Buffer.Values.{
  Ty, number, string, vector, pair, read_value, write_value, probe_size,
}
use supercell_common.Buffer.Exchange.{write_value_lem, read_value_lem, read_value-write_value}
use supercell_common.Buffer.Measure.{probe_size-eq-length}
use supercell_common.Buffer.Wire.{encode}
use supercell_common.Buffer.Values.{bytes_of, Value}
use supercell_common.Tests.Heap.{zeros, zeros-IsAllocator}
use supercell_common.Tests.Fixtures.{ring, ring-IsValid}

abbrev names : Ty
names = vector (pair string (number 2))

abbrev two_names : Value names
two_names = (b'a' ∷ [], 7) ∷ (b'b' ∷ b'c' ∷ [], 300) ∷ []

write_value_lem_example :
    (b' : Buffer) × (write_value zeros circular names two_names ring ≡ ok b')
    × Wrote circular (encode names two_names) 10 ring b'
unfolding encode bytes_of
write_value_lem_example =
    write_value_lem zeros zeros-IsAllocator circular names two_names 10 ring
      (omega arith, ((omega arith, omega arith), ((omega arith, omega arith), tt))) ring-IsValid
      (record { writable = refl; small = omega arith; room = inl refl })

-- A circular buffer that holds the bytes of the number 0x0d0e, round the end of the block.
abbrev holding : Buffer
holding = record default_buffer {
  mem = 13 ∷ 0 ∷ 0 ∷ 0 ∷ 14 ∷ [];
  allocated = 5;
  read_pos = 4;
  write_pos = 1;
}

holding-IsValid : IsValid circular holding
holding-IsValid = record { block = omega arith; small = omega arith; positions = omega arith }

contents-holding : contents holding ≡ encode (number 2) 0x0d0e
unfolding contents encode bytes_of
contents-holding = refl

read_value_lem_example :
    (b' : Buffer) × (read_value circular (number 2) holding ≡ ok (0x0d0e, b')) × Took circular [] b'
unfolding contents encode bytes_of
read_value_lem_example =
    read_value_lem circular (number 2) 0x0d0e [] holding (omega arith) holding-IsValid refl

read_value-write_value_example :
    (b1 b2 b3 : Buffer) × (write_value zeros circular names two_names holding ≡ ok b1)
    × (read_value circular (number 2) b1 ≡ ok (0x0d0e, b2))
    × (read_value circular names b2 ≡ ok (two_names, b3))
    × (contents b3 ≡ [])
    × IsValid circular b3
unfolding encode bytes_of
read_value-write_value_example =
    read_value-write_value zeros zeros-IsAllocator circular (number 2) names 0x0d0e two_names
      holding (omega arith)
      (omega arith, ((omega arith, omega arith), ((omega arith, omega arith), tt))) holding-IsValid
      contents-holding (record { writable = refl; small = omega arith; room = inl refl })

abbrev numbers : Ty
numbers = pair (vector (number 4)) string

probe_size-eq-length_example :
    probe_size numbers (1 ∷ 2 ∷ 3 ∷ [], b'x' ∷ [])
    ≡ length (encode numbers (1 ∷ 2 ∷ 3 ∷ [], b'x' ∷ []))
unfolding encode bytes_of
probe_size-eq-length_example =
    probe_size-eq-length numbers ((tt, inl tt), tt) (1 ∷ 2 ∷ 3 ∷ [], b'x' ∷ []) (omega arith)
