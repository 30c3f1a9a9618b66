-- ===== src/FragmentAllocator/Calls.antt =====
-- The calls allocate() and deallocate() of src/libzillians-common-core/core/FragmentFreeAllocator.cpp
-- from one state to the next.
use supercell_common.Common.{
  ℕ, suc, ◌+◌, ◌≤◌, ◌^◌, ◌≡◌, ◌≢◌, refl, sym, ap, ◌∙◌, true, false, none, some, List, arith, length,
  ok, Store, find, put, drop_at, load, adjust, addresses, add_size, sub_size, put_at-here,
  put_at-other, find-put, find-drop, load-some, delete-some,
}
use supercell_common.AtomicQueue.{has}
use supercell_common.FragmentAllocator.{
  MutablePointer, FragmentAllocator, round_size, hand_out, allocate, allocate_in, deallocate,
  deallocate_target, deallocate_found, deallocate_at, delete_pointer,
}
use supercell_common.FragmentAllocator.Lists.{Block, Blocks, find_free, take_block}
use supercell_common.FragmentAllocator.Joins.{release}
use supercell_common.FragmentAllocator.Segments.{Segment, take_first, give_back, used-give_back}
use supercell_common.FragmentAllocator.Taking.{
  is_new, take_first-used, take_first-held, some-eq, none-some,
}
use supercell_common.FragmentAllocator.Others.{held_start, start-take_first, start-give_back}
use supercell_common.FragmentAllocator.Refinement.{release-Refines, take-Refines, search-Refines}
use supercell_common.FragmentAllocator.Serving.{
  Serves, Points, not-in-use, used-le, held-block, referred, new-is_new,
}

-- The allocator after allocate().
abbrev pub handed :
    (new reference pointer size : ℕ) → Block → Blocks → FragmentAllocator → FragmentAllocator
handed new reference pointer size b bs s = record s {
  allocated_size = add_size s.allocated_size size;
  blocks = bs;
  map = put reference new s.map;
  references = put reference (s.base + b.offset) s.references;
  pointers = put pointer (record { target = some reference; shift = 0; owner = true }) s.pointers;
}

allocate-runs :
    (malloc : List ℕ → ℕ) (n size : ℕ) (s : FragmentAllocator) {cur : ℕ} {bs : Blocks} {b : Block}
    {h : Store Block}
    → find_free n (round_size size) s.blocks.head_free s.blocks.store ≡ ok (some cur)
    → take_block (malloc (addresses s.blocks.store)) cur (round_size size) s.blocks ≡ ok bs
    → load bs.store (some (malloc (addresses s.blocks.store))) ≡ ok b
    → adjust
        (some (malloc (addresses s.blocks.store)))
        (λ b. record b { reference = some (malloc (addresses s.references)) })
        bs.store
      ≡ ok h
    → allocate malloc n size s
      ≡ ok (
        some (malloc (addresses s.pointers)),
        handed
            (malloc (addresses s.blocks.store))
            (malloc (addresses s.references))
            (malloc (addresses s.pointers))
            (round_size size)
            b
            (record bs { store = h })
            s,
      )
unfolding allocate allocate_in hand_out
allocate-runs malloc n size s e t l a = rw (e, t, a, l) refl

find-put-here : {A : Type 0} (st : Store A) (k : ℕ) (o : A) → find (put k o st) k ≡ some o
find-put-here st k o = ap (λ g. g k) (find-put k o st) ∙ put_at-here k (some o) (find st)

find-put-other :
    {A : Type 0} (st : Store A) (k a : ℕ) (o : A) → a ≢ k → find (put k o st) a ≡ find st a
find-put-other st k a o ne =
    ap (λ g. g a) (find-put k o st) ∙ put_at-other k a (some o) (find st) ne

find-put-old :
    {A : Type 0} (st : Store A) (k a : ℕ) (o v : A)
    → find st k ≡ none
    → find st a ≡ some v
    → find (put k o st) a ≡ some v
find-put-old st k a o v n e =
    find-put-other st k a o (λ i. absurd (none-some (sym n ∙ ap (find st) (sym i) ∙ e))) ∙ e

find-drop-old :
    {A : Type 0} (st : Store A) (k a : ℕ) (v : A)
    → a ≢ k
    → find st a ≡ some v
    → find (drop_at k st) a ≡ some v
find-drop-old st k a v ne e =
    ap (λ g. g a) (find-drop k st) ∙ put_at-other k a none (find st) ne ∙ e

module _ (malloc : List ℕ → ℕ) (fresh : (xs : List ℕ) → has xs (malloc xs) ≡ false) (n size : ℕ)
    (s : FragmentAllocator) (y : ℕ) (ss : List Segment) (small : suc y ≤ 2 ^ 64)
    (rounds : length ss ≤ n) (S : Serves s y ss) where
  -- allocate() cuts the first vacant segment of at least the rounded size, and its pointer is to the
  -- start of that segment. Every other pointer is to the same place as before.
  pub allocate-Serves :
      (ts : List Segment)
      → take_first (malloc (addresses s.blocks.store)) (round_size size) ss ≡ some ts
      → (s' : FragmentAllocator) × (allocate malloc n size s
          ≡ ok (some (malloc (addresses s.pointers)), s'))
        × Serves s' y ts
        × Points s' ts (malloc (addresses s.pointers)) (malloc (addresses s.blocks.store))
        × ((a cur : ℕ) → Points s ss a cur → Points s' ts a cur)
  allocate-Serves ts e =
      let new = malloc (addresses s.blocks.store) in
      let q = malloc (addresses s.references) in
      let p = malloc (addresses s.pointers) in
      let z = round_size size in
      let (cur, search, (bs, runs, R)) =
        take-Refines n s.blocks y small new z ss ts rounds S.refines
          (not-in-use s.blocks.store new (fresh (addresses s.blocks.store))) e in
      let (b, h, l, a, o, R') = referred bs y ts new R (take_first-held new z ss ts e) (some q) in
      let used = take_first-used new z ss ts e in
      let le = used-le ts 0 y (rw R.seen at R.is_pool.filled) in
      (
        handed new q p z b (record bs { store = h }) s,
        allocate-runs malloc n size s search runs l a,
        record { refines = R'; counted = omega (arith, S.counted, used, le, small) },
        record {
          at_reference = q;
          pointer =
              find-put-here s.pointers p (record { target = some q; shift = 0; owner = true });
          mapped = find-put-here s.map q new;
          start = find-put-here s.references q (s.base + b.offset) ∙ ap (λ x. some (s.base + x)) o;
          held = take_first-held new z ss ts e;
        },
        λ x c P.
            let new? : is_new new ss ≡ true =
              new-is_new s.blocks y ss new S.refines
                (not-in-use s.blocks.store new (fresh (addresses s.blocks.store))) in
            let ne : c ≢ new =
              λ i. absurd (ground (arith, P.held, new?, ap (λ k. is_new k ss) i)) in
            let (st, nw) = start-take_first new z ss ts c ne e in
            let nq = not-in-use s.references q (fresh (addresses s.references)) in
            record {
              at_reference = P.at_reference;
              pointer =
                  find-put-old s.pointers p x (record { target = some q; shift = 0; owner = true })
                    (record { target = some (P.at_reference); shift = 0; owner = true })
                    (not-in-use s.pointers p (fresh (addresses s.pointers))) P.pointer;
              mapped =
                  find-put-other s.map q (P.at_reference) new
                    (λ i. absurd (none-some (sym nq ∙ ap (find s.references) (sym i) ∙ P.start)))
                  ∙ P.mapped;
              start =
                  find-put-old s.references q (P.at_reference) (s.base + b.offset)
                    (s.base + held_start c ss) nq P.start
                  ∙ ap (λ k. some (s.base + k)) (sym st);
              held = nw ∙ P.held;
            },
      )

  -- Where no vacant segment is large enough, allocate() returns false and changes nothing.
  pub allocate-refused :
      take_first (malloc (addresses s.blocks.store)) (round_size size) ss ≡ none
      → allocate malloc n size s ≡ ok (none, s)
  unfolding allocate allocate_in
  allocate-refused e =
      rw
        (search-Refines n s.blocks y small (malloc (addresses s.blocks.store)) (round_size size) ss
          rounds S.refines e)
        refl

deallocate-runs :
    (n a : ℕ) (s : FragmentAllocator) {r k cur d : ℕ} {b : Block} {bs : Blocks}
    → find s.pointers a ≡ some (record { target = some r; shift = k; owner = true })
    → find s.map r ≡ some cur
    → find s.references r ≡ some d
    → load s.blocks.store (some cur) ≡ ok b
    → release n cur s.blocks ≡ ok bs
    → deallocate n (some a) s
      ≡ ok (
        true,
        record s {
          allocated_size = sub_size s.allocated_size b.size;
          blocks = bs;
          map = drop_at r s.map;
          references = drop_at r s.references;
          pointers = drop_at a s.pointers;
        },
      )
unfolding deallocate deallocate_target deallocate_found deallocate_at delete_pointer
deallocate-runs n a s {r} {k} {cur} {d} p m q l e =
    rw
      (
        load-some s.pointers a (record { target = some r; shift = k; owner = true }) p,
        m,
        delete-some s.map r cur m,
        delete-some s.references r d q,
        delete-some s.pointers a (record { target = some r; shift = k; owner = true }) p,
        e,
        l,
      )
      refl

-- The pointer that owns the reference at `r`.
abbrev owner_of : ℕ → MutablePointer
owner_of r = record { target = some r; shift = 0; owner = true }

pub reference-eq : (r r' : ℕ) → some (owner_of r) ≡ some (owner_of r') → r ≡ r'
reference-eq r r' e =
    ap (λ o. elim o [ none ↦ r | some p ↦ (elim p.target [ none ↦ r | some x ↦ x ]) ]) e

-- deallocate() gives the segment of its pointer back, and forgets the pointer. Every pointer to
-- another segment is to the same place as before.
pub deallocate-Serves :
    (n a cur : ℕ) (s : FragmentAllocator) (y : ℕ) (ss : List Segment)
    → suc y ≤ 2 ^ 64
    → length ss ≤ n
    → Serves s y ss
    → Points s ss a cur
    → (s' : FragmentAllocator) × (deallocate n (some a) s ≡ ok (true, s'))
      × Serves s' y (give_back cur ss)
      × (find s'.pointers a ≡ none)
      × ((x c : ℕ) → c ≢ cur → Points s ss x c → Points s' (give_back cur ss) x c)
deallocate-Serves n a cur s y ss small rounds S P =
    let held = P.held in
    let (b, l, z) = held-block s.blocks y ss cur S.refines held in
    let (bs, e, R) = release-Refines n s.blocks y small ss cur rounds S.refines held in
    let used = used-give_back cur ss in
    let le = used-le ss 0 y (rw S.refines.seen at S.refines.is_pool.filled) in
    (
      record s {
        allocated_size = sub_size s.allocated_size b.size;
        blocks = bs;
        map = drop_at P.at_reference s.map;
        references = drop_at P.at_reference s.references;
        pointers = drop_at a s.pointers;
      },
      deallocate-runs n a s P.pointer P.mapped P.start l e,
      record { refines = R; counted = omega (arith, S.counted, used, le, z, small) },
      ap (λ g. g a) (find-drop a s.pointers) ∙ put_at-here a none (find s.pointers),
      λ x c ne Q.
          let other : Q.at_reference ≢ P.at_reference =
            λ i. ne (some-eq c cur (sym Q.mapped ∙ ap (find s.map) i ∙ P.mapped)) in
          let away : x ≢ a = λ i. other (
            reference-eq (Q.at_reference) (P.at_reference)
              (sym Q.pointer ∙ ap (find s.pointers) i ∙ P.pointer)) in
          let (st, nw) = start-give_back cur ss c ne in
          record {
            at_reference = Q.at_reference;
            pointer =
                find-drop-old s.pointers a x
                  (record { target = some (Q.at_reference); shift = 0; owner = true }) away
                  Q.pointer;
            mapped = find-drop-old s.map (P.at_reference) (Q.at_reference) c other Q.mapped;
            start =
                find-drop-old s.references (P.at_reference) (Q.at_reference)
                  (s.base + held_start c ss) other Q.start
                ∙ ap (λ k. some (s.base + k)) (sym st);
            held = nw ∙ Q.held;
          },
    )
