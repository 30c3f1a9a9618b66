-- ===== src/Buffer/Write.antt =====
-- writeDirect and writeArray of include/core/Buffer.h: a write adds its bytes after the bytes held.
use supercell_common.Common.{
  ℕ, ◌+◌, ◌^◌, ◌≤◌, ◌<◌, ◌≡◌, refl, ap, ◌∙◌, true, false, List, ◌++◌, ok, err, assertion, length,
  arith,
}
use supercell_common.Buffer.State.{Mode, plain, circular, Buffer, Allocator, IsAllocator}
use supercell_common.Buffer.Positions.{allocated_size, data_size, free_size}
use supercell_common.Buffer.Block.{set_direct, set_array, make_room, write_direct, write_array}
use supercell_common.Buffer.Contents.{contents, IsValid}
use supercell_common.Buffer.Stores.{HasRoom, extended, set_direct_lem}
use supercell_common.Buffer.Skips.{
  wskip-written, extended-IsValid, contents-extended, filled-extended,
}
use supercell_common.Buffer.Room.{taken, Ready, Roomy, Ready-fewer, make_room_lem, make_room-full}

-- The sizes that the buffer reports add up to its capacity.
pub free_size-add-data_size :
    (m : Mode) (b : Buffer)
    → IsValid m b
    → 0 < b.allocated
    → free_size m b + data_size m b ≡ allocated_size m b
unfolding free_size allocated_size
free_size-add-data_size plain b v h = ground arith
free_size-add-data_size circular b v h = ground arith

set_array_lem :
    (m : Mode) (b : Buffer) (bs : List ℕ)
    → IsValid m b
    → HasRoom m (length bs) b
    → set_array m b b.write_pos bs ≡ set_direct m b b.write_pos bs
unfolding set_array free_size allocated_size data_size
set_array_lem plain b bs v h = ground arith
set_array_lem circular b bs v h = ground arith

-- What a write of `bs` leaves, with room for `rest` more bytes.
pub record Wrote (m : Mode) (bs : List ℕ) (rest : ℕ) (b b' : Buffer) : Type 0 where
  pub valid : IsValid m b'
  pub appended : contents b' ≡ contents b ++ bs
  pub ready : Ready m rest b'

extended-Ready :
    (m : Mode) (bs : List ℕ) (rest : ℕ) (b b' : Buffer)
    → Ready m (length bs + rest) b
    → Roomy m (length bs) b b'
    → Ready m rest (extended m b' bs)
extended-Ready plain bs rest b b' r y = ground arith
extended-Ready circular bs rest b b' r y =
    ground (arith, filled-extended circular b' bs y.valid y.room)

module _ (heap : Allocator) (laws : IsAllocator heap) where
  Roomy-Wrote :
      (m : Mode) (bs : List ℕ) (rest : ℕ) (b b' : Buffer)
      → Ready m (length bs + rest) b
      → Roomy m (length bs) b b'
      → Wrote m bs rest b (extended m b' bs)
  Roomy-Wrote m bs rest b b' r y = record {
    valid = extended-IsValid m b' bs y.valid y.room;
    appended = contents-extended m b' bs y.valid y.room ∙ ap (λ xs. xs ++ bs) y.same;
    ready = extended-Ready m bs rest b b' r y;
  }

  write_array-ok :
      (m : Mode) (bs : List ℕ) (b b' : Buffer)
      → b.read_only ≡ false
      → make_room heap m (length bs) b ≡ ok b'
      → IsValid m b'
      → HasRoom m (length bs) b'
      → write_array heap m bs b ≡ ok (extended m b' bs)
  unfolding write_array
  write_array-ok m bs b b' w e v h =
      simp (w, e, set_array_lem m b' bs v h, set_direct_lem m b' bs v h) (wskip-written m b' bs v h)

  write_direct-ok :
      (m : Mode) (bs : List ℕ) (b b' : Buffer)
      → b.read_only ≡ false
      → make_room heap m (length bs) b ≡ ok b'
      → IsValid m b'
      → HasRoom m (length bs) b'
      → write_direct heap m bs b ≡ ok (extended m b' bs)
  unfolding write_direct
  write_direct-ok m bs b b' w e v h =
      simp (w, e, set_direct_lem m b' bs v h) (wskip-written m b' bs v h)

  -- writeArray of a valid buffer that is ready for the bytes succeeds, whether or not it has to grow.
  -- The buffer stays valid, the bytes stand behind those held before, and it is ready for the rest.
  pub write_array_lem :
      (m : Mode) (bs : List ℕ) (rest : ℕ) (b : Buffer)
      → IsValid m b
      → Ready m (length bs + rest) b
      → (b' : Buffer) × (write_array heap m bs b ≡ ok b') × Wrote m bs rest b b'
  write_array_lem m bs rest b v r =
      let fewer = Ready-fewer m (length bs + rest) (length bs) b (omega arith) r in
      let (b', e, y) = make_room_lem heap laws m b (length bs) v fewer in
      (
        extended m b' bs,
        write_array-ok m bs b b' r.writable e y.valid y.room,
        Roomy-Wrote m bs rest b b' r y,
      )

  -- writeDirect, which all numbers are written by, does the same with the bytes of the number.
  pub write_direct_lem :
      (m : Mode) (bs : List ℕ) (rest : ℕ) (b : Buffer)
      → IsValid m b
      → Ready m (length bs + rest) b
      → (b' : Buffer) × (write_direct heap m bs b ≡ ok b') × Wrote m bs rest b b'
  write_direct_lem m bs rest b v r =
      let fewer = Ready-fewer m (length bs + rest) (length bs) b (omega arith) r in
      let (b', e, y) = make_room_lem heap laws m b (length bs) v fewer in
      (
        extended m b' bs,
        write_direct-ok m bs b b' r.writable e y.valid y.room,
        Roomy-Wrote m bs rest b b' r y,
      )

  -- Without growth on demand a write for which there is no room fails an assertion.
  pub write_array-full :
      (m : Mode) (bs : List ℕ) (b : Buffer)
      → IsValid m b
      → taken m b + length bs ≤ 2 ^ 62
      → b.on_demand ≡ false
      → ¬ HasRoom m (length bs) b
      → write_array heap m bs b ≡ err assertion
  unfolding write_array
  write_array-full m bs b v small d full =
      ground (arith, make_room-full heap laws m b (length bs) v small d full)

  -- A read-only buffer refuses every write.
  pub write_array-read_only :
      (m : Mode) (bs : List ℕ) (b : Buffer)
      → b.read_only ≡ true
      → write_array heap m bs b ≡ err assertion
  unfolding write_array
  write_array-read_only m bs b h = rw h refl
