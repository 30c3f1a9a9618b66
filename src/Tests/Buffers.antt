-- ===== src/Tests/Buffers.antt =====
-- The theorems on the raw operations of include/core/Buffer.h at concrete buffers.
use supercell_common.Common.{
  ℕ, ◌+◌, ◌≡◌, refl, ap, inl, true, false, List, [], ◌∷◌, ◌++◌, ok, err, assertion, length, take,
  drop, arith,
}
use supercell_common.Buffer.State.{plain, circular, Buffer, copy_buffer, assign_buffer}
use supercell_common.Buffer.Positions.{wskip, get_data_ranges, data_size, free_size, allocated_size}
use supercell_common.Buffer.Block.{read_array, write_array, crunch, resize, append}
use supercell_common.Buffer.Contents.{contents, IsValid}
use supercell_common.Buffer.Resize.{resize_lem}
use supercell_common.Buffer.Growth.{crunch_lem}
use supercell_common.Buffer.Write.{Wrote, write_array_lem, free_size-add-data_size}
use supercell_common.Buffer.Read.{read_array_lem}
use supercell_common.Buffer.Queue.{put, get, run, run_queue, view, run_refines}
use supercell_common.Buffer.Ranges.{slices, get_data_ranges_lem}
use supercell_common.Buffer.Sharing.{IsDuplicate, append_lem, copy_and_assign}
use supercell_common.BitTrick.{round_up_to_nearest_power_of_two, smear}
use supercell_common.Buffer.Block.{make_room, set_array, set_direct}
use supercell_common.Buffer.State.{load, store}
use supercell_common.Buffer.Queue.{put_total}
use supercell_common.Buffer.State.{move_buffer, move_assign}
use supercell_common.Buffer.Construct.{IsMoved, move_buffer-left}
use supercell_common.Tests.Heap.{zeros, zeros-IsAllocator}
use supercell_common.Tests.Fixtures.{
  ring, flat, ring-IsValid, flat-IsValid, contents-ring, contents-flat, ring-Ready,
}

run_refines_example :
    view (run zeros circular (put (1 ∷ 2 ∷ []) ∷ get 4 ∷ get 2 ∷ []) ring)
    ≡ run_queue (put (1 ∷ 2 ∷ []) ∷ get 4 ∷ get 2 ∷ []) (contents ring)
unfolding put_total
run_refines_example =
    run_refines zeros zeros-IsAllocator circular (put (1 ∷ 2 ∷ []) ∷ get 4 ∷ get 2 ∷ []) ring
      ring-IsValid (record { writable = refl; small = omega arith; room = inl refl })

-- What the queue does at that input: the second read wants more than there is.
run_queue_stops :
    run_queue (put (1 ∷ 2 ∷ []) ∷ get 4 ∷ get 2 ∷ []) (13 ∷ 14 ∷ 10 ∷ []) ≡ err assertion
unfolding run_queue
run_queue_stops = refl

-- The buffer grows to eight bytes and one.
write_grows :
    write_array zeros circular (1 ∷ 2 ∷ []) ring
    ≡ ok (record ring {
      mem = 13 ∷ 14 ∷ 10 ∷ 1 ∷ 2 ∷ 0 ∷ 0 ∷ 0 ∷ 0 ∷ [];
      allocated = 9;
      read_pos = 0;
      write_pos = 5;
    })
unfolding write_array make_room resize crunch set_array set_direct wskip free_size allocated_size
    data_size load store round_up_to_nearest_power_of_two smear
write_grows = refl

write_array_lem_example :
    (b' : Buffer) × (write_array zeros circular (1 ∷ 2 ∷ []) ring ≡ ok b')
    × Wrote circular (1 ∷ 2 ∷ []) 98 ring b'
write_array_lem_example =
    write_array_lem zeros zeros-IsAllocator circular (1 ∷ 2 ∷ []) 98 ring ring-IsValid ring-Ready

read_array_lem_example :
    (b' : Buffer) × (read_array circular 2 ring ≡ ok (take 2 (contents ring), b'))
    × IsValid circular b'
    × (contents b' ≡ drop 2 (contents ring))
read_array_lem_example =
    read_array_lem circular 2 ring ring-IsValid (omega (arith, ap length contents-ring))

resize_lem_example :
    (b' : Buffer) × (resize zeros circular 9 ring ≡ ok b')
    × IsValid circular b'
    × (contents b' ≡ contents ring)
    × (b'.allocated ≡ 9)
resize_lem_example =
    resize_lem zeros zeros-IsAllocator circular ring 9 ring-IsValid refl (omega arith) (omega arith)

crunch_lem_example :
    (b' : Buffer) × (crunch circular ring ≡ ok b')
    × IsValid circular b'
    × (contents b' ≡ contents ring)
    × (b'.allocated ≡ 5)
crunch_lem_example = crunch_lem circular ring ring-IsValid

free_size-add-data_size_example :
    free_size circular ring + data_size circular ring ≡ allocated_size circular ring
free_size-add-data_size_example = free_size-add-data_size circular ring ring-IsValid (omega arith)

get_data_ranges_lem_example :
    (new : List (ℕ × ℕ)) × (get_data_ranges circular ring ((0, 1) ∷ [])
      ≡ ((0, 1) ∷ [] ++ new, length (contents ring)))
    × (slices ring.mem new ≡ contents ring)
get_data_ranges_lem_example = get_data_ranges_lem circular ring ((0, 1) ∷ []) ring-IsValid

append_lem_example :
    (b' s' : Buffer) × (append zeros circular ring plain flat 1 ≡ ok (b', s'))
    × Wrote circular (take 1 (contents flat)) 99 ring b'
    × IsValid plain s'
    × (contents s' ≡ drop 1 (contents flat))
append_lem_example =
    append_lem zeros zeros-IsAllocator circular plain ring flat 1 99 ring-IsValid flat-IsValid
      ring-Ready (omega (arith, ap length contents-flat)) (omega arith)

copy_and_assign_example :
    (c a : Buffer) × (copy_buffer zeros ring ≡ ok c)
    × (assign_buffer zeros flat ring ≡ ok a)
    × (IsDuplicate circular ring c × (c.on_demand ≡ true))
    × (IsDuplicate circular ring a × (a.on_demand ≡ false))
copy_and_assign_example =
    copy_and_assign zeros zeros-IsAllocator circular flat ring ring-IsValid refl

move_buffer-left_example :
    IsMoved zeros zeros-IsAllocator circular ring (move_buffer ring).1 (move_buffer ring).0
    × IsMoved zeros zeros-IsAllocator circular ring
        (move_assign flat ring).1
        (move_assign flat ring).0
move_buffer-left_example = move_buffer-left zeros zeros-IsAllocator circular ring flat
