-- ===== src/Buffer/Sharing.antt =====
-- Copies of whole buffers in include/core/Buffer.h: the copy constructor, the copy assignment and
-- append().
use supercell_common.Common.{
  ℕ, ◌+◌, ◌≤◌, ◌<◌, ◌≡◌, refl, sym, ap, ◌∙◌, Bool, true, false, List, ok, err, bad_access, length,
  take, drop, nth, arith, splice, le→leb, lt→leb, length-take, length-splice, nth-splice-inside,
}
use supercell_common.Buffer.State.{
  Mode, plain, circular, Buffer, Allocator, IsAllocator, load, copy_buffer, assign_buffer,
}
use supercell_common.Buffer.Positions.{wskip, data_size, free_size, allocated_size}
use supercell_common.Buffer.Block.{
  append, write_from, write_array, set_array, set_direct, make_room,
}
use supercell_common.Buffer.Contents.{
  filled, around, contents, IsValid, length-contents, nth-contents, contents_ext, load_lem,
  store_lem, length-slice, nth-slice,
}
use supercell_common.Common.{leb, Result, assert, not, ◌>>=◌, ◌>>◌}
use supercell_common.Buffer.Copies.{slice-eq-take}
use supercell_common.Buffer.Skips.{
  rskip_lem, skipped, skipped-IsValid, contents-skipped, data_size_lem,
}
use supercell_common.Buffer.Room.{Ready, make_room_lem}
use supercell_common.Buffer.Stores.{HasRoom}
use supercell_common.Buffer.Write.{Wrote, write_array_lem}

-- The index of a byte held lies in the block.
around-lt :
    (m : Mode) (b : Buffer) (i : ℕ)
    → IsValid m b
    → i < filled b
    → around b.allocated (b.read_pos + i) < b.allocated
around-lt plain b i v h = ground arith
around-lt circular b i v h = ground arith

-- A buffer with the bytes of another, in a block of its own that may be written.
pub record IsDuplicate (m : Mode) (b c : Buffer) : Type 0 where
  pub valid : IsValid m c
  pub same : contents c ≡ contents b
  pub owns : c.owner ≡ true
  pub writable : c.read_only ≡ false
  pub size : c.allocated ≡ b.allocated

assert_assoc :
    {A B : Type 0} (c : Bool) (r : Result A) (f : A → Result B)
    → (assert c >> (r >>= f)) ≡ ((assert c >> r) >>= f)
assert_assoc true r f = refl
assert_assoc false r f = refl

-- Where there is room for bytes they pass the check of setArray.
free_size-room :
    (m : Mode) (n : ℕ) (b : Buffer) → IsValid m b → HasRoom m n b → leb n (free_size m b) ≡ true
unfolding free_size allocated_size data_size
free_size-room plain n b v h = ground arith
free_size-room circular n b v h = ground arith

module _ (heap : Allocator) (laws : IsAllocator heap) where
  cloned : Buffer → List ℕ
  cloned b = splice 0 (take b.allocated (drop 0 b.mem)) (heap.malloc b.allocated)

  length-cloned : (b : Buffer) → length (cloned b) ≡ b.allocated
  unfolding cloned
  length-cloned b =
      length-splice 0 (take b.allocated (drop 0 b.mem)) (heap.malloc b.allocated)
      ∙ laws.malloc_size b.allocated

  nth-cloned :
      (b : Buffer) (i : ℕ)
      → b.allocated ≤ length b.mem
      → i < b.allocated
      → nth (cloned b) i ≡ nth b.mem i
  unfolding cloned
  nth-cloned b i h k = ground (
    arith,
    laws.malloc_size b.allocated,
    length-slice b.mem 0 b.allocated,
    nth-splice-inside 0 (take b.allocated (drop 0 b.mem)) (heap.malloc b.allocated) i i,
    nth-slice b.mem 0 b.allocated i i,
  )

  abbrev clone : Buffer → Bool → Buffer
  clone b d = record b { mem = cloned b; owner = true; read_only = false; on_demand = d }

  contents-clone :
      (m : Mode) (b : Buffer) (d : Bool) → IsValid m b → contents (clone b d) ≡ contents b
  contents-clone m b d v = contents_ext (clone b d) (contents b) (sym (length-contents b)) λ i hi.
      let h : i < filled b = omega (arith, length-contents b) in
      nth-cloned b (around b.allocated (b.read_pos + i)) v.block (around-lt m b i v h)
      ∙ sym (nth-contents b i h)

  clone-IsValid : (m : Mode) (b : Buffer) (d : Bool) → IsValid m b → IsValid m (clone b d)
  clone-IsValid plain b d v = omega (arith, length-cloned b)
  clone-IsValid circular b d v = omega (arith, length-cloned b)

  clone-IsDuplicate : (m : Mode) (b : Buffer) (d : Bool) → IsValid m b → IsDuplicate m b (clone b d)
  clone-IsDuplicate m b d v = record {
    valid = clone-IsValid m b d v;
    same = contents-clone m b d v;
    owns = refl;
    writable = refl;
    size = refl;
  }

  copy-owner :
      (b : Buffer)
      → b.allocated ≤ length b.mem
      → b.owner ≡ true
      → copy_buffer heap b ≡ ok (clone b b.on_demand)
  unfolding copy_buffer cloned
  copy-owner b h o = ground (
    arith,
    load_lem b.mem 0 b.allocated,
    length-slice b.mem 0 b.allocated,
    laws.malloc_size b.allocated,
    store_lem (heap.malloc b.allocated) 0 (take b.allocated (drop 0 b.mem)),
  )

  assign-owner :
      (target b : Buffer)
      → b.allocated ≤ length b.mem
      → b.owner ≡ true
      → assign_buffer heap target b ≡ ok (clone b target.on_demand)
  unfolding assign_buffer cloned
  assign-owner target b h o = ground (
    arith,
    load_lem b.mem 0 b.allocated,
    length-slice b.mem 0 b.allocated,
    laws.malloc_size b.allocated,
    store_lem (heap.malloc b.allocated) 0 (take b.allocated (drop 0 b.mem)),
  )

  -- The copy constructor and the copy assignment of an owner: both new buffers are valid, hold the
  -- bytes of the original, own their block of the same size and may be written; the copy grows on
  -- demand where the original does, the target of the assignment where it did before.
  pub copy_and_assign :
      (m : Mode) (target b : Buffer)
      → IsValid m b
      → b.owner ≡ true
      → (c a : Buffer) × (copy_buffer heap b ≡ ok c)
        × (assign_buffer heap target b ≡ ok a)
        × (IsDuplicate m b c × (c.on_demand ≡ b.on_demand))
        × (IsDuplicate m b a × (a.on_demand ≡ target.on_demand))
  copy_and_assign m target b v o = (
    clone b b.on_demand,
    clone b target.on_demand,
    copy-owner b v.block o,
    assign-owner target b v.block o,
    (clone-IsDuplicate m b b.on_demand v, refl),
    (clone-IsDuplicate m b target.on_demand v, refl),
  )

  -- A write from another block is writeArray of its bytes.
  write_from-load :
      (m : Mode) (mem : List ℕ) (p n : ℕ) (b : Buffer) (bytes : List ℕ)
      → load mem p n ≡ ok bytes
      → length bytes ≡ n
      → write_from heap m mem p n b ≡ write_array heap m bytes b
  unfolding write_from write_array set_array
  write_from-load m mem p n b bytes e len =
      rw (e, len)
        λ i.
          assert (not b.read_only)
          >> (make_room heap m n b >>= λ b'.
              assert_assoc (leb n (free_size m b')) (set_direct m b' b'.write_pos bytes)
                (λ b''. wskip m n b'') i)

  -- append() of bytes that stand in one piece in the source: they move from the front of the source
  -- to the end of the target, and both stay valid. The modes of the two may differ.
  pub append_lem :
      (m k : Mode) (b source : Buffer) (n rest : ℕ)
      → IsValid m b
      → IsValid k source
      → Ready m (n + rest) b
      → n ≤ length (contents source)
      → source.read_pos + n ≤ source.allocated
      → (b' s' : Buffer) × (append heap m b k source n ≡ ok (b', s'))
        × Wrote m (take n (contents source)) rest b b'
        × IsValid k s'
        × (contents s' ≡ drop n (contents source))
  unfolding append
  append_lem m k b source n rest v w r h piece =
      let hn : n ≤ filled source = omega (arith, length-contents source) in
      let len : length (take n (contents source)) ≡ n =
        omega (arith, length-take n (contents source)) in
      let read : load source.mem source.read_pos n ≡ ok (take n (contents source)) =
        load_lem source.mem source.read_pos n (omega (arith, w.block))
        ∙ ap ok (slice-eq-take source n w.block hn piece) in
      let r' : Ready m (length (take n (contents source)) + rest) b = rw len r in
      let (b', e, wrote) = write_array_lem heap laws m (take n (contents source)) rest b v r' in
      (
        b',
        skipped k source n,
        simp (
          data_size_lem k source w,
          le→leb n (filled source) hn,
          write_from-load m source.mem source.read_pos n b (take n (contents source)) read len ∙ e,
          rskip_lem k source n w hn,
        ),
        wrote,
        skipped-IsValid k source n w hn,
        contents-skipped k source n w hn,
      )

-- append() from a circular source whose bytes go round the end of its block, to a target that is
-- valid and ready for them, reads past the source's block: that block has no more bytes than it says.
pub append-wrapped :
    (heap : Allocator) (laws : IsAllocator heap) (m : Mode) (b source : Buffer) (n : ℕ)
    → IsValid m b
    → Ready m n b
    → IsValid circular source
    → length source.mem ≡ source.allocated
    → n ≤ length (contents source)
    → source.allocated < source.read_pos + n
    → append heap m b circular source n ≡ err bad_access
unfolding append write_from load
append-wrapped heap laws m b source n v r w full h wrapped =
    let hn : n ≤ filled source = omega (arith, length-contents source) in
    let e : leb n (data_size circular source) ≡ true =
      ap (leb n) (data_size_lem circular source w) ∙ le→leb n (filled source) hn in
    let (b', run, roomy) = make_room_lem heap laws m b n v r in
    simp (
      e,
      r.writable,
      run,
      free_size-room m n b' roomy.valid roomy.room,
      lt→leb (source.read_pos + n) (length source.mem) (omega arith),
    )
