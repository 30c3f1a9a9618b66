-- ===== src/FragmentAllocator/Sequences.antt =====
-- Any sequence of calls of allocate() and deallocate() of include/core/FragmentFreeAllocator.h.
use supercell_common.Common.{
  ℕ, suc, ◌+◌, ◌≤◌, ◌^◌, ◌≡◌, ◌≢◌, refl, sym, ap, ◌∙◌, true, false, none, some, List, [], ◌∷◌, inl,
  inr, arith, length, ok, Result, find, addresses, ◌>>=◌, if◌then◌else◌, Bool-cases, eq_or_ne,
  ne→ne, eq→==, ltb, ◌&&◌,
}
use supercell_common.AtomicQueue.{has, remove}
use supercell_common.AtomicQueue.Layout.{has-remove}
use supercell_common.FragmentAllocator.{
  FragmentAllocator, round_size, new_allocator, allocate, deallocate,
}
use supercell_common.FragmentAllocator.Segments.{
  Segment, take_first, give_back, join, holds, is_vacant,
}
use supercell_common.FragmentAllocator.Taking.{is_new, take_first-length, some-eq}
use supercell_common.FragmentAllocator.Absent.{Option-cases}
use supercell_common.FragmentAllocator.Others.{start-take_first, start-give_back}
use supercell_common.FragmentAllocator.Owners.{give_back-is_new}
use supercell_common.FragmentAllocator.Serving.{Serves, Points, new-is_new, not-in-use}
use supercell_common.FragmentAllocator.Calls.{
  allocate-Serves, allocate-refused, deallocate-Serves, reference-eq,
}
use supercell_common.FragmentAllocator.RoundTrip.{new_allocator-Serves}

-- allocate(&pointer, size), or deallocate(pointer) of a pointer that is held.
pub data Call : Type 0 where
  take give : ℕ → Call

module _ (malloc : List ℕ → ℕ) (n : ℕ) where
  -- A call, with the pointers that are held. One that is not held is not given back.
  unfoldable pub call : Call → List ℕ × FragmentAllocator → Result (List ℕ × FragmentAllocator)
  unfolding allocate deallocate remove
  call (take size) (held, s) = allocate malloc n size s >>= λ r. elim r.0 [
    | none ↦ ok (held, r.1)
    | some a ↦ ok (a ∷ held, r.1)
  ]
  call (give a) (held, s) =
      if has held a
      then (deallocate n (some a) s >>= λ r. ok (remove a held, r.1))
      else ok (held, s)

  unfoldable pub calls :
      List Call → List ℕ × FragmentAllocator → Result (List ℕ × FragmentAllocator)
  unfolding call
  calls [] p = ok p
  calls (c ∷ cs) p = call c p >>= calls cs

-- Each pointer held is to a segment of its own, and each segment in use has a pointer that is held.
pub record Holds (held : List ℕ) (s : FragmentAllocator) (y : ℕ) (ss : List Segment) : Type 0 where
  pub serves : Serves s y ss
  pub points : (a : ℕ) → has held a ≡ true → (cur : ℕ) × Points s ss a cur
  pub apart :
      (a b cur : ℕ)
      → has held a ≡ true
      → has held b ≡ true
      → Points s ss a cur
      → Points s ss b cur
      → a ≡ b
  pub owned : (cur : ℕ) → is_new cur ss ≡ false → (a : ℕ) × (has held a ≡ true) × Points s ss a cur

-- A pointer is to one segment only.
Points-eq :
    (s : FragmentAllocator) (ss : List Segment) (a c d : ℕ)
    → Points s ss a c
    → Points s ss a d
    → c ≡ d
Points-eq s ss a c d P Q = some-eq c d (
    sym P.mapped
    ∙ ap (find s.map) (reference-eq (P.at_reference) (Q.at_reference) (sym P.pointer ∙ Q.pointer))
    ∙ Q.mapped)

length-join : (s : Segment) (ss : List Segment) → length (join s ss) ≤ suc (length ss)
length-join s [] = omega arith
length-join s (t ∷ ts) = elim (Bool-cases (is_vacant s.holder && is_vacant t.holder)) [
  | inl e ↦ rw e (omega arith)
  | inr e ↦ rw e (omega arith)
]

length-give_back : (a : ℕ) (ss : List Segment) → length (give_back a ss) ≤ length ss
length-give_back a [] = omega arith
length-give_back a (s ∷ ss) = elim (Bool-cases (holds s.holder a)) [
  | inl e ↦ rw e (length-join (record s { holder = none }) ss)
  | inr e ↦ rw e (omega (arith, length-join s (give_back a ss), length-give_back a ss))
]

module _ (malloc : List ℕ → ℕ) (fresh : (xs : List ℕ) → has xs (malloc xs) ≡ false) (n y : ℕ)
    (small : suc y ≤ 2 ^ 64) where
  take-Holds :
      (size : ℕ) (held : List ℕ) (s : FragmentAllocator) (ss : List Segment)
      → length ss ≤ n
      → Holds held s y ss
      → (held' : List ℕ) × (s' : FragmentAllocator) × (ts : List Segment) × (call malloc n
            (take size)
            (held, s)
          ≡ ok (held', s'))
        × Holds held' s' y ts
        × (length ts ≤ suc (length ss))
  unfolding call
  take-Holds size held s ss le H =
      let new = malloc (addresses s.blocks.store) in
      let p = malloc (addresses s.pointers) in
      elim (Option-cases (take_first new (round_size size) ss)) [
        | inl e ↦ (
          held,
          s,
          ss,
          rw (allocate-refused malloc fresh n size s y ss small le H.serves e) refl,
          H,
          omega arith,
        )
        | inr (ts, e) ↦
            let (s', runs, S, P, keep) =
              allocate-Serves malloc fresh n size s y ss small le H.serves ts e in
            let old : (b c : ℕ) → has held b ≡ true → Points s' ts b c → Points s ss b c =
              λ b c i B.
                let (d, Q) = H.points b i in rw (Points-eq s' ts b d c (keep b d Q) B) at Q in
            let new? : is_new new ss ≡ true =
              new-is_new s.blocks y ss new H.serves.refines
                (not-in-use s.blocks.store new (fresh (addresses s.blocks.store))) in
            let other : (b c : ℕ) → Points s ss b c → c ≢ new =
              λ b c Q z. absurd (ground (arith, Q.held, new?, ap (λ k. is_new k ss) z)) in
            let only : (a c : ℕ) → a ≡ p → Points s' ts a c → c ≡ new =
              λ a c z A. Points-eq s' ts p c new (rw z at A) P in
            (
              p ∷ held,
              s',
              ts,
              rw runs refl,
              record {
                serves = S;
                points = λ a i. elim (eq_or_ne a p) [
                  | inl z ↦ (new, rw z P)
                  | inr ne ↦ let (c, Q) = H.points a (rw (ne→ne a p ne) at i) in (c, keep a c Q)
                ];
                apart = λ a b c i j A B. elim (eq_or_ne a p) [
                  | inl z ↦ elim (eq_or_ne b p) [
                    | inl w ↦ z ∙ sym w
                    | inr w ↦ absurd (other b c (old b c (rw (ne→ne b p w) at j) B) (only a c z A))
                  ]
                  | inr z ↦ elim (eq_or_ne b p) [
                    | inl w ↦ absurd (other a c (old a c (rw (ne→ne a p z) at i) A) (only b c w B))
                    | inr w ↦
                        let i' = rw (ne→ne a p z) at i in
                        let j' = rw (ne→ne b p w) at j in
                        H.apart a b c i' j' (old a c i' A) (old b c j' B)
                  ]
                ];
                owned = λ c u. elim (eq_or_ne c new) [
                  | inl z ↦ (p, rw (eq→== p p refl) refl, (rw z P))
                  | inr z ↦
                      let (st, nw) = start-take_first new (round_size size) ss ts c z e in
                      let (a, i, Q) = H.owned c (sym nw ∙ u) in (a, ground (arith, i), keep a c Q)
                ];
              },
              take_first-length new (round_size size) ss ts e,
            )
      ]

  give-Holds :
      (a : ℕ) (held : List ℕ) (s : FragmentAllocator) (ss : List Segment)
      → length ss ≤ n
      → Holds held s y ss
      → (held' : List ℕ) × (s' : FragmentAllocator) × (ts : List Segment) × (call malloc n
            (give a)
            (held, s)
          ≡ ok (held', s'))
        × Holds held' s' y ts
        × (length ts ≤ suc (length ss))
  unfolding call
  give-Holds a held s ss le H = elim (Bool-cases (has held a)) [
    | inr e ↦ (held, s, ss, rw e refl, H, omega arith)
    | inl e ↦
        let (cur, P) = H.points a e in
        let (s', runs, S, gone, keep) = deallocate-Serves n a cur s y ss small le H.serves P in
        let ts = give_back cur ss in
        let not-a : (x : ℕ) → has (remove a held) x ≡ true → (x ≢ a) × (has held x ≡ true) = λ x i.
          (
            λ z. absurd (ground (arith, z, i, has-remove a held x)),
            ground (arith, i, has-remove a held x),
          ) in
        let kept : (x : ℕ)
            → has (remove a held) x ≡ true
            → (c : ℕ) × Points s ss x c × Points s' ts x c =
          λ x i.
            let (ne, j) = not-a x i in
            let (c, Q) = H.points x j in
            (c, Q, keep x c (λ z. ne (H.apart x a cur j e (rw z at Q) P)) Q) in
        let old : (x c : ℕ) → has (remove a held) x ≡ true → Points s' ts x c → Points s ss x c =
          λ x c i B. let (d, Q, Q') = kept x i in rw (Points-eq s' ts x d c Q' B) at Q in
        (
          remove a held,
          s',
          ts,
          rw (e, runs) refl,
          record {
            serves = S;
            points = λ x i. let (c, Q, Q') = kept x i in (c, Q');
            apart = λ x z c i j X Z.
                H.apart x z c ((not-a x i).1) ((not-a z j).1) (old x c i X) (old z c j Z);
            owned = λ c u.
                let ne : c ≢ cur = λ i. absurd (
                  ground (
                    arith,
                    u,
                    give_back-is_new s.blocks y ss cur H.serves.refines,
                    ap (λ k. is_new k ts) i,
                  )) in
                let (st, nw) = start-give_back cur ss c ne in
                let (x, i, Q) = H.owned c (sym nw ∙ u) in
                let away : x ≢ a = λ z. ne (Points-eq s ss a c cur (rw z at Q) P) in
                (x, has-remove a held x ∙ rw (ne→ne x a away) i, keep x c ne Q);
          },
          omega (arith, length-give_back cur ss),
        )
  ]

  call-Holds :
      (c : Call) (held : List ℕ) (s : FragmentAllocator) (ss : List Segment)
      → length ss ≤ n
      → Holds held s y ss
      → (held' : List ℕ) × (s' : FragmentAllocator) × (ts : List Segment) × (call malloc n c
            (held, s)
          ≡ ok (held', s'))
        × Holds held' s' y ts
        × (length ts ≤ suc (length ss))
  call-Holds (take size) held s ss le H = take-Holds size held s ss le H
  call-Holds (give a) held s ss le H = give-Holds a held s ss le H

  calls-from :
      (cs : List Call) (held : List ℕ) (s : FragmentAllocator) (ss : List Segment)
      → length ss + length cs ≤ n
      → Holds held s y ss
      → (held' : List ℕ) × (s' : FragmentAllocator) × (ts : List Segment) × (calls malloc n cs
            (held, s)
          ≡ ok (held', s'))
        × Holds held' s' y ts
  unfolding calls
  calls-from [] held s ss le H = (held, s, ss, refl, H)
  calls-from (c ∷ cs) held s ss le H =
      let (held', s', ts, e, H', le') = call-Holds c held s ss (omega (arith, le)) H in
      let (held″, s″, us, e', H″) = calls-from cs held' s' ts (omega (arith, le, le')) H' in
      (held″, s″, us, rw e e', H″)

  -- Any sequence of calls on a new allocator of `y` bytes, of at most n - 1 calls, has no fault and no
  -- failed assertion. The segments fill the pool at its end, no two neighbours are vacant, the bytes
  -- in use are counted, and each pointer held is to the start of a segment of its own.
  pub calls-Holds :
      (pool : ℕ) (cs : List Call)
      → ltb 0 y ≡ true
      → suc (length cs) ≤ n
      → (s : FragmentAllocator) × (held : List ℕ) × (s' : FragmentAllocator) × (ss : List Segment)
        × (new_allocator malloc pool y ≡ ok s)
        × (calls malloc n cs ([], s) ≡ ok (held, s'))
        × Holds held s' y ss
  calls-Holds pool cs p le =
      let (s, e, S) = new_allocator-Serves malloc pool y p in
      let (held, s', ss, e', H) =
        calls-from cs [] s (record { holder = none; offset = 0; size = y } ∷ []) (omega (arith, le))
          (record {
            serves = S;
            points = λ a i. absurd (ground (arith, i));
            apart = λ a b c i j A B. absurd (ground (arith, i));
            owned = λ c u. absurd (ground (arith, u));
          }) in
      (s, held, s', ss, e, e', H)
