-- ===== src/Buffer/Exchange.antt =====
-- Typed values through a BufferBase (include/core/Buffer.h): the writes, the reads and both together.
use supercell_common.Common.{ℕ, ◌+◌, ◌≡◌, sym, ap, ◌∙◌, List, [], ◌++◌, ok, length, append-nil}
use native.Mathlib.Nat.{add-zero}
use supercell_common.Buffer.State.{Mode, Buffer, Allocator, IsAllocator}
use supercell_common.Buffer.Contents.{contents, IsValid}
use supercell_common.Buffer.Room.{Ready}
use supercell_common.Buffer.Write.{Wrote}
use supercell_common.Buffer.Read.{Took}
use supercell_common.Buffer.Values.{Ty, Value, read_value, write_value}
use supercell_common.Buffer.Wire.{encode, WellFormed}
use supercell_common.Buffer.RoundTrip.{write_value-Writes}
use supercell_common.Buffer.Decode.{read_value-Reads}

-- write() of a value that the wire format can carry into a valid buffer that is ready for its bytes:
-- it succeeds, adds exactly the bytes of the format, and the buffer stays valid and ready for the
-- rest.
pub write_value_lem :
    (heap : Allocator) (laws : IsAllocator heap) (m : Mode) (t : Ty) (v : Value t) (rest : ℕ)
    (b : Buffer)
    → WellFormed t v
    → IsValid m b
    → Ready m (length (encode t v) + rest) b
    → (b' : Buffer) × (write_value heap m t v b ≡ ok b') × Wrote m (encode t v) rest b b'
write_value_lem heap laws m t v rest b p valid r =
    write_value-Writes heap laws m t v rest b p valid r

-- read() of a valid buffer whose bytes begin with those of a value gives the value, leaves the other
-- bytes, and keeps the buffer valid.
pub read_value_lem :
    (m : Mode) (t : Ty) (v : Value t) (rest : List ℕ) (b : Buffer)
    → WellFormed t v
    → IsValid m b
    → contents b ≡ encode t v ++ rest
    → (b' : Buffer) × (read_value m t b ≡ ok (v, b')) × Took m rest b'
read_value_lem m t v rest b p valid e = read_value-Reads m t v rest b p valid e

-- Values come out in the order in which they went in: where a buffer holds the bytes of one value
-- and another is written, the reads give the first and then the second, and nothing is left.
pub read_value-write_value :
    (heap : Allocator) (laws : IsAllocator heap) (m : Mode) (s t : Ty) (u : Value s) (v : Value t)
    (b : Buffer)
    → WellFormed s u
    → WellFormed t v
    → IsValid m b
    → contents b ≡ encode s u
    → Ready m (length (encode t v)) b
    → (b1 b2 b3 : Buffer) × (write_value heap m t v b ≡ ok b1)
      × (read_value m s b1 ≡ ok (u, b2))
      × (read_value m t b2 ≡ ok (v, b3))
      × (contents b3 ≡ [])
      × IsValid m b3
read_value-write_value heap laws m s t u v b p q valid e r =
    let r' = rw (← add-zero (length (encode t v))) at r in
    let (b1, w, wrote) = write_value_lem heap laws m t v 0 b q valid r' in
    let (b2, x, took) =
      read_value_lem m s u (encode t v) b1 p wrote.valid
        (wrote.appended ∙ ap (λ xs. xs ++ encode t v) e) in
    let (b3, y, took') =
      read_value_lem m t v [] b2 q took.valid (took.left ∙ sym (append-nil (encode t v))) in
    (b1, b2, b3, w, x, y, took'.left, took'.valid)
