-- ===== src/FragmentAllocator/FirstFit.antt =====
-- The search of allocate() in src/libzillians-common-core/core/FragmentFreeAllocator.cpp on the list
-- of blocks, and the block that a segment is.
use supercell_common.Common.{
  ℕ, zero, suc, ◌+◌, ◌≤◌, ◌^◌, ◌-◌, ◌≡◌, refl, sym, ap, ◌∙◌, true, false, ◌&&◌, Option, none, some,
  List, [], inl, inr, ◌∷◌, ◌++◌, arith, if◌then◌else◌, Bool-cases, leb, ◌==◌, length, add_size,
  sub_size, ok, Store, find, load-some,
}
use supercell_common.FragmentAllocator.Lists.{Block, find_free}
use supercell_common.FragmentAllocator.Chain.{Entry, Chain, first_or, first_free_or, block_of}
use supercell_common.FragmentAllocator.Take.{free_entry, taken_from}
use supercell_common.FragmentAllocator.Merge.{used_entry}
use supercell_common.FragmentAllocator.Segments.{holds, fits, take_first, Fills}
use supercell_common.FragmentAllocator.Taking.{is_new, some-eq, none-some}
use supercell_common.FragmentAllocator.Release.{free_entry-eq}
use supercell_common.FragmentAllocator.Giving.{vacant-segment, segment, segments, Fills-le}

abbrev pub first_fit : ℕ → List Entry → Option ℕ
first_fit size [] = none
first_fit size (e ∷ es) = if e.free && leb size e.size then some e.addr else first_fit size es

module _ (h : Store Block) (size : ℕ) where
  -- The search goes through the free blocks only, and needs a round for each of them at most.
  pub find_free-first_fit :
      (m : ℕ) (p pf : Option ℕ) (es : List Entry)
      → length es ≤ m
      → Chain (find h) p pf es none none
      → find_free m size (first_free_or none es) h ≡ ok (first_fit size es)
  unfolding find_free
  find_free-first_fit zero p pf [] le c = refl
  find_free-first_fit (suc m) p pf [] le c = refl
  find_free-first_fit zero p pf (e ∷ es) le c = absurd (omega (arith, le))
  find_free-first_fit (suc m) p pf (e ∷ es) le (c, cs) = elim (Bool-cases e.free) [
    | inl t ↦
        let rest =
          find_free-first_fit m (some e.addr) (if e.free then some e.addr else pf) es
            (omega (arith, le)) cs in
        let there =
          load-some h e.addr (block_of e p pf (first_or none es) (first_free_or none es)) c in
        elim (Bool-cases (leb size e.size)) [
          | inl f ↦ rw (t, there, f) refl
          | inr f ↦ rw (t, there, f, t) rest
        ]
    | inr u ↦ rw u (
        find_free-first_fit (suc m) (some e.addr) (if e.free then some e.addr else pf) es
          (omega (arith, le)) cs)
  ]

-- The free block that is found.
pub record Fit (new size : ℕ) (es : List Entry) (cur : ℕ) : Type 0 where
  pub before : List Entry
  pub start : ℕ
  pub bytes : ℕ
  pub reference : Option ℕ
  pub after : List Entry
  pub split : es ≡ before ++ (free_entry cur start bytes reference ∷ after)
  pub taken :
      take_first new size (segments es)
      ≡ some (
          segments
            (before ++ (taken_from new size (free_entry cur start bytes reference) ++ after)))

Fit-here :
    (new size : ℕ) (e : Entry) (es : List Entry) (x y : ℕ)
    → suc y ≤ 2 ^ 64
    → Fills x (segments (e ∷ es)) y
    → e.free ≡ true
    → leb size e.size ≡ true
    → Fit new size (e ∷ es) e.addr
Fit-here new size e es x y small (o, f) t l =
    let le = Fills-le (segments es) (x + e.size) y f in
    let fits : size ≤ e.size = ground (arith, l) in
    let sum : add_size e.offset size ≡ e.offset + size = omega (arith, le, fits, small, o) in
    let rest : sub_size e.size size ≡ e.size - size = omega (arith, le, fits, small, o) in
    record {
      before = [];
      start = e.offset;
      bytes = e.size;
      reference = e.reference;
      after = es;
      split = ap (λ k. k ∷ es) (sym (free_entry-eq e t));
      taken = elim (Bool-cases (e.size == size)) [
        | inl q ↦ rw (t, l, q) refl
        | inr q ↦ rw (t, l, q, sum, rest) refl
      ];
    }

fits-segment : (size : ℕ) (e : Entry) → fits size (segment e) ≡ (e.free && leb size e.size)
fits-segment size e = ap (λ b. b && leb size e.size) (vacant-segment e)

pub first_fit-some :
    (new size : ℕ) (es : List Entry) (x y cur : ℕ)
    → suc y ≤ 2 ^ 64
    → Fills x (segments es) y
    → first_fit size es ≡ some cur
    → Fit new size es cur
first_fit-some new size [] x y cur small f e = absurd (ground (arith, e))
first_fit-some new size (k ∷ es) x y cur small (o, f) e =
    elim (Bool-cases (k.free && leb size k.size)) [
      | inl b ↦
          rw (sym (some-eq k.addr cur (rw b at e)))
            (Fit-here new size k es x y small (o, f) (ground (arith, b)) (ground (arith, b)))
      | inr b ↦
          let F = first_fit-some new size es (x + k.size) y cur small f (rw b at e) in
          record {
            before = k ∷ F.before;
            start = F.start;
            bytes = F.bytes;
            reference = F.reference;
            after = F.after;
            split = ap (λ t. k ∷ t) F.split;
            taken = rw (fits-segment size k ∙ b, F.taken) refl;
          }
    ]

pub first_fit-none :
    (new size : ℕ) (es : List Entry)
    → first_fit size es ≡ none
    → take_first new size (segments es) ≡ none
first_fit-none new size [] e = refl
first_fit-none new size (k ∷ es) e = elim (Bool-cases (k.free && leb size k.size)) [
  | inl b ↦ absurd (none-some (sym (rw b at e)))
  | inr b ↦ rw (fits-segment size k ∙ b, first_fit-none new size es (rw b at e)) refl
]

-- The block that holds a segment.
pub record Held (es : List Entry) (cur : ℕ) : Type 0 where
  pub before : List Entry
  pub start : ℕ
  pub bytes : ℕ
  pub reference : Option ℕ
  pub after : List Entry
  pub split : es ≡ before ++ (used_entry cur start bytes reference ∷ after)

pub Held-in : (es : List Entry) (cur : ℕ) → is_new cur (segments es) ≡ false → Held es cur
Held-in [] cur n = absurd (ground (arith, n))
Held-in (e ∷ es) cur n = elim (Bool-cases (holds ((segment e).holder) cur)) [
  | inl h ↦ elim (Bool-cases e.free) [
    | inl t ↦ absurd (ground (arith, (rw t at h)))
    | inr f ↦
        let same : e.addr ≡ cur = ground (arith, (rw f at h)) in
        record {
          before = [];
          start = e.offset;
          bytes = e.size;
          reference = e.reference;
          after = es;
          split = λ i. record e { addr = same i; free = f i } ∷ es;
        }
  ]
  | inr h ↦
      let H = Held-in es cur (ground (arith, n, h)) in
      record {
        before = e ∷ H.before;
        start = H.start;
        bytes = H.bytes;
        reference = H.reference;
        after = H.after;
        split = ap (λ t. e ∷ t) H.split;
      }
]
