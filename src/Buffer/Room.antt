-- ===== src/Buffer/Room.antt =====
-- The room check of writeDirect and writeArray in include/core/Buffer.h: growth keeps the bytes
-- held, and after the check there is room for what is to be written.
use native.Mathlib.Nat.{le_refl}
use supercell_common.Common.{
  ℕ, zero, suc, ◌+◌, ◌^◌, ◌≤◌, ◌<◌, ◌≡◌, refl, true, false, ok, err, assertion, inl, inr, arith,
  ◌⊎◌,
}
use supercell_common.BitTrick.{round_up_to_nearest_power_of_two}
use supercell_common.BitTrick.PowerOfTwo.{round_up_to_nearest_power_of_two_lem, round_up_of_zero}
use supercell_common.Buffer.State.{Mode, plain, circular, Buffer, Allocator, IsAllocator}
use supercell_common.Buffer.Block.{make_room}
use supercell_common.Buffer.Contents.{filled, contents, IsValid}
use supercell_common.Buffer.Stores.{HasRoom}
use supercell_common.Buffer.Skips.{data_size_lem}
use supercell_common.Buffer.Resize.{resized, contents-resized, resized-IsValid, resize-ok}

-- The bytes that a write has to find room for, beyond the position that it counts from: a plain
-- buffer counts from the write position, a circular one from the bytes held.
abbrev pub taken : Mode → Buffer → ℕ
taken plain b = b.write_pos
taken circular b = filled b

module _ (heap : Allocator) (laws : IsAllocator heap) where
  -- The block that the room check asks for.
  abbrev target : Mode → Buffer → ℕ → ℕ
  target plain b n = round_up_to_nearest_power_of_two (b.write_pos + n)
  target circular b n = round_up_to_nearest_power_of_two (filled b + n) + 1

  make_room-stay :
      (m : Mode) (b : Buffer) (n : ℕ)
      → IsValid m b
      → taken m b + n ≤ 2 ^ 62
      → HasRoom m n b
      → make_room heap m n b ≡ ok b
  unfolding make_room
  make_room-stay plain b n v small room = ground arith
  make_room-stay circular b n v small room = ground (arith, data_size_lem circular b v)

  -- Without growth there is room or an assertion fails.
  pub make_room-full :
      (m : Mode) (b : Buffer) (n : ℕ)
      → IsValid m b
      → taken m b + n ≤ 2 ^ 62
      → b.on_demand ≡ false
      → ¬ HasRoom m n b
      → make_room heap m n b ≡ err assertion
  unfolding make_room
  make_room-full plain b n v small d full = ground arith
  make_room-full circular b n v small d full = ground (arith, data_size_lem circular b v)

round_up-bounds :
    (s : ℕ)
    → s ≤ 2 ^ 62
    → (s ≤ round_up_to_nearest_power_of_two s) × (round_up_to_nearest_power_of_two s < 2 ^ 63)
round_up-bounds zero h = (omega (arith, round_up_of_zero), omega (arith, round_up_of_zero))
round_up-bounds (suc s) h =
    let (k, e, lo, hi) = round_up_to_nearest_power_of_two_lem (suc s) (omega arith) (omega arith) in
    (lo, omega arith)

-- What a write of `n` bytes needs: a buffer that may be written, sizes that do not wrap, and room or
-- growth on demand.
pub record Ready (m : Mode) (n : ℕ) (b : Buffer) : Type 0 where
  pub writable : b.read_only ≡ false
  pub small : taken m b + n ≤ 2 ^ 62
  pub room : (b.on_demand ≡ true) ⊎ HasRoom m n b

-- Less is needed for fewer bytes.
pub Ready-fewer : (m : Mode) (n k : ℕ) (b : Buffer) → k ≤ n → Ready m n b → Ready m k b
Ready-fewer plain n k b h r = ground arith
Ready-fewer circular n k b h r = ground arith

HasRoom-dec : (m : Mode) (n : ℕ) (b : Buffer) → HasRoom m n b ⊎ (¬ HasRoom m n b)
HasRoom-dec plain n b = grind arith
HasRoom-dec circular n b = grind arith

-- What the room check leaves.
pub record Roomy (m : Mode) (n : ℕ) (b b' : Buffer) : Type 0 where
  pub valid : IsValid m b'
  pub same : contents b' ≡ contents b
  pub room : HasRoom m n b'
  pub taken_same : taken m b' ≡ taken m b
  pub on_demand_same : b'.on_demand ≡ b.on_demand
  pub read_only_same : b'.read_only ≡ b.read_only
  pub no_smaller : b.allocated ≤ b'.allocated

module _ (heap : Allocator) (laws : IsAllocator heap) where
  make_room-grow :
      (m : Mode) (b : Buffer) (n : ℕ)
      → IsValid m b
      → taken m b + n ≤ 2 ^ 62
      → b.on_demand ≡ true
      → ¬ HasRoom m n b
      → (make_room heap m n b ≡ ok (resized heap laws m b (target heap laws m b n)))
        × Roomy m n b (resized heap laws m b (target heap laws m b n))
  unfolding make_room
  make_room-grow plain b n v small d full =
      let (lo, hi) = round_up-bounds (b.write_pos + n) small in
      let size : ℕ = target heap laws plain b n in
      (
        ground (arith, resize-ok heap laws plain b size v d),
        record {
          valid = resized-IsValid heap laws plain b size v (omega arith) (omega arith);
          same = contents-resized heap laws plain b size v (omega arith);
          room = omega arith;
          taken_same = refl;
          on_demand_same = refl;
          read_only_same = refl;
          no_smaller = omega arith;
        },
      )
  make_room-grow circular b n v small d full =
      let (lo, hi) = round_up-bounds (filled b + n) small in
      let size : ℕ = target heap laws circular b n in
      (
        ground (arith, data_size_lem circular b v, resize-ok heap laws circular b size v d),
        record {
          valid = resized-IsValid heap laws circular b size v (omega arith) (omega arith);
          same = contents-resized heap laws circular b size v (omega arith);
          room = ground arith;
          taken_same = ground arith;
          on_demand_same = refl;
          read_only_same = refl;
          no_smaller = omega arith;
        },
      )

  -- A buffer that is ready has room after the check, and holds the same bytes.
  pub make_room_lem :
      (m : Mode) (b : Buffer) (n : ℕ)
      → IsValid m b
      → Ready m n b
      → (b' : Buffer) × (make_room heap m n b ≡ ok b') × Roomy m n b b'
  make_room_lem m b n v r = elim (HasRoom-dec m n b) [
    | inl room ↦ (
      b,
      make_room-stay heap laws m b n v r.small room,
      record {
        valid = v;
        same = refl;
        room = room;
        taken_same = refl;
        on_demand_same = refl;
        read_only_same = refl;
        no_smaller = le_refl b.allocated;
      },
    )
    | inr full ↦ elim r.room [
      | inl d ↦
          let (e, roomy) = make_room-grow m b n v r.small d full in
          (resized heap laws m b (target heap laws m b n), e, roomy)
      | inr room ↦ absurd (full room)
    ]
  ]
