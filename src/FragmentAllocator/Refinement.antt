-- ===== src/FragmentAllocator/Refinement.antt =====
-- The blocks of FragmentAllocator in src/libzillians-common-core/core/FragmentFreeAllocator.cpp refine
-- the segments of the pool.
use supercell_common.Common.{
  ℕ, suc, ◌≤◌, ◌^◌, ◌≡◌, refl, sym, ap, ◌∙◌, true, false, Option, none, some, List, [], inl, inr,
  ◌∷◌, ◌++◌, arith, Bool-cases, length, ok, find,
}
use supercell_common.FragmentAllocator.Lists.{Blocks, find_free, take_block}
use supercell_common.FragmentAllocator.Joins.{release}
use supercell_common.FragmentAllocator.Chain.{Entry}
use supercell_common.FragmentAllocator.Take.{free_entry, taken_from, take_block-Becomes}
use supercell_common.FragmentAllocator.Merge.{used_entry}
use supercell_common.FragmentAllocator.Searches.{last-cases}
use supercell_common.FragmentAllocator.Absent.{Option-cases}
use supercell_common.FragmentAllocator.Segments.{
  Segment, take_first, give_back, Fills-give_back, tidy-give_back,
}
use supercell_common.FragmentAllocator.Taking.{
  is_new, take_first-Fills, take_first-tidy, some-eq, none-some,
}
use supercell_common.FragmentAllocator.Release.{last_is_free, first_is_free, free_entry-eq}
use supercell_common.FragmentAllocator.Giving.{segments}
use supercell_common.FragmentAllocator.Released.{
  Released, IsPool, Released-both, Released-left, Released-right, Released-alone,
  last_is_free-append,
}
use supercell_common.FragmentAllocator.FirstFit.{
  first_fit, find_free-first_fit, first_fit-some, first_fit-none, Held-in,
}

-- The blocks are the segments `ss` of a pool of `y` bytes, which fill it and are tidy.
pub record Refines (bs : Blocks) (y : ℕ) (ss : List Segment) : Type 0 where
  pub entries : List Entry
  pub is_pool : IsPool bs y entries
  pub seen : segments entries ≡ ss

pub length-segments : (es : List Entry) → length (segments es) ≡ length es
length-segments [] = refl
length-segments (e ∷ es) = ap suc (length-segments es)

length-left : (ls rs : List Entry) → length ls ≤ length (ls ++ rs)
length-left [] rs = omega arith
length-left (l ∷ ls) rs = omega (arith, length-left ls rs)

length-right : (ls rs : List Entry) → length rs ≤ length (ls ++ rs)
length-right [] rs = omega arith
length-right (l ∷ ls) rs = omega (arith, length-right ls rs)

-- The last entry, where it is free.
FreeLast : List Entry → Type 0
FreeLast ls =
    (fs : List Entry) × (a : ℕ) × (o : ℕ) × (s : ℕ) × (r : Option ℕ) × (ls
      ≡ fs ++ (free_entry a o s r ∷ []))

free-last : (ls : List Entry) → last_is_free false ls ≡ true → FreeLast ls
unfolding FreeLast
free-last ls t = elim (last-cases ls) [
  | inl z ↦ absurd (ground (arith, (rw z at t)))
  | inr (fs, l, z) ↦
      let f : l.free ≡ true = sym (last_is_free-append false fs l) ∙ (rw z at t) in
      (
        fs,
        l.addr,
        l.offset,
        l.size,
        l.reference,
        z ∙ ap (λ k. fs ++ (k ∷ [])) (sym (free_entry-eq l f)),
      )
]

FreeFirst : List Entry → Type 0
FreeFirst rs =
    (a : ℕ) × (o : ℕ) × (s : ℕ) × (r : Option ℕ) × (ts : List Entry) × (rs
      ≡ free_entry a o s r ∷ ts)

free-first : (rs : List Entry) → first_is_free rs ≡ true → FreeFirst rs
unfolding FreeFirst
free-first [] t = absurd (ground (arith, t))
free-first (e ∷ es) t =
    (e.addr, e.offset, e.size, e.reference, es, ap (λ k. k ∷ es) (sym (free_entry-eq e t)))

module _ (m : ℕ) (bs : Blocks) (y : ℕ) (small : suc y ≤ 2 ^ 64) where
  released :
      (ls rs : List Entry) (cur off sz : ℕ) (r : Option ℕ)
      → length ls ≤ m
      → length rs ≤ m
      → IsPool bs y (ls ++ (used_entry cur off sz r ∷ rs))
      → Released m cur bs (ls ++ (used_entry cur off sz r ∷ rs))
  unfolding FreeLast FreeFirst
  released ls rs cur off sz r le le' P = elim (Bool-cases (last_is_free false ls)) [
    | inl t ↦
        let (fs, a, o, s, q, z) = free-last ls t in
        elim (Bool-cases (first_is_free rs)) [
          | inl u ↦
              let (a', o', s', q', ts, z') = free-first rs u in
              rw (z, z')
                (Released-both m bs y small cur off sz r fs ts a o s q a' o' s' q'
                  (rw (z, z') at P))
          | inr u ↦ rw z (Released-left m bs y small cur off sz r fs rs a o s q u (rw z at P))
        ]
    | inr t ↦ elim (Bool-cases (first_is_free rs)) [
      | inl u ↦
          let (a', o', s', q', ts, z') = free-first rs u in
          rw z' (Released-right m bs y small cur off sz r ls ts a' o' s' q' t (rw z' at P))
      | inr u ↦ Released-alone m bs y small cur off sz r ls rs le le' t u P
    ]
  ]

  -- A block in use is released within `m` rounds, and its segment is given back.
  pub release-Refines :
      (ss : List Segment) (cur : ℕ)
      → length ss ≤ m
      → Refines bs y ss
      → is_new cur ss ≡ false
      → (bs' : Blocks) × (release m cur bs ≡ ok bs') × Refines bs' y (give_back cur ss)
  release-Refines ss cur le R n =
      let es = R.entries in
      let H = Held-in es cur (ap (is_new cur) R.seen ∙ n) in
      let U = used_entry cur H.start H.bytes H.reference in
      let le' : length es ≤ m = omega (arith, le, ap length R.seen, length-segments es) in
      let z = ap length H.split in
      let D =
        released H.before H.after cur H.start H.bytes H.reference
          (omega (arith, le', z, length-left H.before (U ∷ H.after)))
          (omega (arith, le', z, length-right H.before (U ∷ H.after))) (rw H.split at R.is_pool) in
      let g : segments D.entries ≡ give_back cur ss =
        D.given ∙ ap (λ k. give_back cur (segments k)) (sym H.split) ∙ ap (give_back cur) R.seen in
      (
        D.becomes.after,
        D.becomes.runs,
        record {
          entries = D.entries;
          is_pool = record {
            represents = D.becomes.represents;
            filled = rw g (Fills-give_back cur ss 0 y (rw R.seen at R.is_pool.filled));
            tidy = rw g (tidy-give_back cur ss (rw R.seen at R.is_pool.tidy));
          };
          seen = g;
        },
      )

  -- The search and the cut, where a free block is large enough.
  pub take-Refines :
      (new size : ℕ) (ss ts : List Segment)
      → length ss ≤ m
      → Refines bs y ss
      → find bs.store new ≡ none
      → take_first new size ss ≡ some ts
      → (cur : ℕ) × (find_free m size bs.head_free bs.store ≡ ok (some cur))
        × ((bs' : Blocks) × (take_block new cur size bs ≡ ok bs') × Refines bs' y ts)
  take-Refines new size ss ts le R fresh e =
      let es = R.entries in
      let I = R.is_pool.represents in
      let le' : length es ≤ m = omega (arith, le, ap length R.seen, length-segments es) in
      let search =
        ap (λ p. find_free m size p bs.store) I.first_free
        ∙ find_free-first_fit bs.store size m none none es le' I.list.chain in
      elim (Option-cases (first_fit size es)) [
        | inl z ↦
            absurd
              (none-some (sym (first_fit-none new size es z) ∙ ap (take_first new size) R.seen ∙ e))
        | inr (cur, z) ↦
            let F = first_fit-some new size es 0 y cur small R.is_pool.filled z in
            let K = free_entry cur F.start F.bytes F.reference in
            let es' = F.before ++ (taken_from new size K ++ F.after) in
            let D =
              take_block-Becomes bs F.before F.after new cur F.start F.bytes F.reference size fresh
                (rw F.split at I) in
            let g : segments es' ≡ ts =
              some-eq (segments es') ts (sym F.taken ∙ ap (take_first new size) R.seen ∙ e) in
            (
              cur,
              search ∙ ap ok z,
              (
                D.after,
                D.runs,
                record {
                  entries = es';
                  is_pool = record {
                    represents = D.represents;
                    filled =
                        rw g
                          (take_first-Fills new size ss ts e 0 y (rw R.seen at R.is_pool.filled));
                    tidy = rw g (take_first-tidy new size ss ts e (rw R.seen at R.is_pool.tidy));
                  };
                  seen = g;
                },
              ),
            )
      ]

  -- The search, where none is.
  pub search-Refines :
      (new size : ℕ) (ss : List Segment)
      → length ss ≤ m
      → Refines bs y ss
      → take_first new size ss ≡ none
      → find_free m size bs.head_free bs.store ≡ ok none
  search-Refines new size ss le R e =
      let es = R.entries in
      let I = R.is_pool.represents in
      let le' : length es ≤ m = omega (arith, le, ap length R.seen, length-segments es) in
      let search =
        ap (λ p. find_free m size p bs.store) I.first_free
        ∙ find_free-first_fit bs.store size m none none es le' I.list.chain in
      elim (Option-cases (first_fit size es)) [
        | inl z ↦ search ∙ ap ok z
        | inr (cur, z) ↦
            let F = first_fit-some new size es 0 y cur small R.is_pool.filled z in
            absurd (none-some (sym e ∙ ap (take_first new size) (sym R.seen) ∙ F.taken))
      ]
