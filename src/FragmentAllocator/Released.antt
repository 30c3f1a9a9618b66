-- ===== src/FragmentAllocator/Released.antt =====
-- The four cases of deallocate() in src/libzillians-common-core/core/FragmentFreeAllocator.cpp, as
-- segments that are given back.
use supercell_common.Common.{
  ℕ, suc, ◌+◌, ◌≤◌, ◌^◌, ◌≡◌, refl, sym, ap, ◌∙◌, Bool, true, false, ◌&&◌, Option, none, some, List,
  [], ◌∷◌, ◌++◌, arith, length, eq→==, add_size,
}
use supercell_common.AtomicQueue.{has}
use supercell_common.FragmentAllocator.Lists.{Blocks}
use supercell_common.FragmentAllocator.Joins.{
  release, release_in, merge_left, merge_right, make_free,
}
use supercell_common.FragmentAllocator.Chain.{Entry, addrs, Distinct, first_or, last_or}
use supercell_common.FragmentAllocator.Take.{Represents, Becomes, Becomes-from, free_entry}
use supercell_common.FragmentAllocator.Merge.{used_entry, merge_both-Becomes}
use supercell_common.FragmentAllocator.Absorb.{merge_left-Becomes, merge_right-Becomes}
use supercell_common.FragmentAllocator.Insert.{make_free-Becomes}
use supercell_common.FragmentAllocator.Searches.{last_or-append}
use supercell_common.FragmentAllocator.Segments.{
  Segment, is_vacant, join, give_back, Fills, is_tidy,
}
use supercell_common.FragmentAllocator.Release.{last_is_free, first_is_free, release-neighbours}
use supercell_common.FragmentAllocator.Giving.{
  segment, segments, segments-append, give_back-behind, Fills-le, Fills-right,
}

pub record Released (m cur : ℕ) (bs : Blocks) (es : List Entry) : Type 0 where
  pub entries : List Entry
  pub becomes : Becomes (release m cur bs) entries
  pub given : segments entries ≡ give_back cur (segments es)

append-one :
    (fs : List Entry) (l : Entry) (rs : List Entry) → (fs ++ (l ∷ [])) ++ rs ≡ fs ++ (l ∷ rs)
append-one [] l rs = refl
append-one (f ∷ fs) l rs = ap (λ t. f ∷ t) (append-one fs l rs)

pub last_is_free-append :
    (b : Bool) (fs : List Entry) (l : Entry) → last_is_free b (fs ++ (l ∷ [])) ≡ l.free
last_is_free-append b [] l = refl
last_is_free-append b (f ∷ fs) l = last_is_free-append f.free fs l

has-right : (ls rs : List Entry) (a : ℕ) → has (addrs rs) a ≡ true → has (addrs (ls ++ rs)) a ≡ true
has-right [] rs a i = i
has-right (l ∷ ls) rs a i = ground (arith, has-right ls rs a i)

pub apart-left :
    (ls rs : List Entry) (a : ℕ)
    → Distinct (addrs (ls ++ rs))
    → has (addrs rs) a ≡ true
    → has (addrs ls) a ≡ false
apart-left [] rs a d i = refl
apart-left (l ∷ ls) rs a (d, ds) i =
    ground (arith, apart-left ls rs a ds i, d, has-right ls rs a i, ap (has (addrs (ls ++ rs))))

-- No sum of the sizes of neighbours is too large.
no-wrap :
    (ls rs : List Entry) (y : ℕ)
    → suc y ≤ 2 ^ 64
    → Fills 0 (segments (ls ++ rs)) y
    → (z : ℕ) × Fills z (segments rs) y
no-wrap ls rs y b f = Fills-right (segments ls) (segments rs) 0 y (rw (segments-append ls rs) at f)

release_in-left :
    (m cur prev : ℕ) (next : Option ℕ) (bs : Blocks)
    → release_in m cur (some prev) next true false bs ≡ merge_left cur prev next bs
unfolding release_in
release_in-left m cur prev none bs = refl
release_in-left m cur prev (some x) bs = refl

release_in-right :
    (m cur : ℕ) (prev : Option ℕ) (next : ℕ) (bs : Blocks)
    → release_in m cur prev (some next) false true bs ≡ merge_right cur prev next bs
unfolding release_in
release_in-right m cur none next bs = refl
release_in-right m cur (some x) next bs = refl

release_in-alone :
    (m cur : ℕ) (prev next : Option ℕ) (bs : Blocks)
    → release_in m cur prev next false false bs ≡ make_free m cur prev next bs
unfolding release_in
release_in-alone m cur none none bs = refl
release_in-alone m cur none (some y) bs = refl
release_in-alone m cur (some x) none bs = refl
release_in-alone m cur (some x) (some y) bs = refl

join-used :
    (s : Segment) (rs : List Entry)
    → first_is_free rs ≡ false
    → join s (segments rs) ≡ s ∷ segments rs
join-used s [] e = refl
join-used s (r ∷ rs) e = rw e (ground (arith))

-- The blocks are those of a pool of `y` bytes, without a gap and without two free neighbours.
pub record IsPool (bs : Blocks) (y : ℕ) (es : List Entry) : Type 0 where
  pub represents : Represents bs es
  pub filled : Fills 0 (segments es) y
  pub tidy : is_tidy (segments es) ≡ true

module _ (m : ℕ) (bs : Blocks) (y : ℕ) (small : suc y ≤ 2 ^ 64) (cur off sz : ℕ)
    (r : Option ℕ) where
  given_behind :
      (ls rs : List Entry) (l n : Entry) (ts : List Entry)
      → IsPool bs y (ls ++ (l ∷ rs))
      → has (addrs (l ∷ rs)) cur ≡ true
      → ((is_vacant ((segment n).holder) && last_is_free false ls) ≡ true
          → is_vacant ((segment l).holder) ≡ true)
      → give_back cur (segments (l ∷ rs)) ≡ segments (n ∷ ts)
      → segments (ls ++ (n ∷ ts)) ≡ give_back cur (segments (ls ++ (l ∷ rs)))
  given_behind ls rs l n ts P i v g =
      rw (segments-append ls (n ∷ ts), segments-append ls (l ∷ rs))
        (sym (
          give_back-behind ls cur (segment l) (segment n) (segments rs) (segments ts)
            (apart-left ls (l ∷ rs) cur P.represents.list.apart i)
            (rw (segments-append ls (l ∷ rs)) at (P.tidy)) v g))

  pub Released-both :
      (fs rs : List Entry) (prev o₁ s₁ : ℕ) (r₁ : Option ℕ) (next o₂ s₂ : ℕ) (r₂ : Option ℕ)
      → IsPool bs y (
          (fs ++ (free_entry prev o₁ s₁ r₁ ∷ []))
          ++ (used_entry cur off sz r ∷ free_entry next o₂ s₂ r₂ ∷ rs))
      → Released m cur bs (
          (fs ++ (free_entry prev o₁ s₁ r₁ ∷ []))
          ++ (used_entry cur off sz r ∷ free_entry next o₂ s₂ r₂ ∷ rs))
  unfolding release_in
  Released-both fs rs prev o₁ s₁ r₁ next o₂ s₂ r₂ P =
      let L = free_entry prev o₁ s₁ r₁ in
      let U = used_entry cur off sz r in
      let K = free_entry next o₂ s₂ r₂ in
      let e = append-one fs L (U ∷ K ∷ rs) in
      let N = free_entry cur o₁ (add_size (add_size s₁ sz) s₂) r in
      let P' : IsPool bs y (fs ++ (L ∷ U ∷ K ∷ rs)) = rw e at P in
      let (z, (a, (b, (c, t)))) = no-wrap fs (L ∷ U ∷ K ∷ rs) y small P'.filled in
      let le = Fills-le (segments rs) (z + s₁ + sz + s₂) y t in
      let sums : add_size (add_size s₁ sz) s₂ ≡ s₁ + (sz + s₂) = omega (arith, le, small) in
      record {
        entries = fs ++ (N ∷ rs);
        becomes =
            Becomes-from
              (rw (last_or-append none fs L, last_is_free-append false fs L) at
                (release-neighbours m bs (fs ++ (L ∷ [])) (K ∷ rs) cur off sz r P.represents))
              (merge_both-Becomes bs fs rs prev o₁ s₁ r₁ cur off sz r next o₂ s₂ r₂ P'.represents);
        given = rw e (
            given_behind fs (U ∷ K ∷ rs) L N rs P' (ground (arith, eq→== cur cur refl)) (λ v. refl)
              (rw (eq→== cur cur refl, sums) refl));
      }

  pub Released-left :
      (fs rs : List Entry) (prev o₁ s₁ : ℕ) (r₁ : Option ℕ)
      → first_is_free rs ≡ false
      → IsPool bs y ((fs ++ (free_entry prev o₁ s₁ r₁ ∷ [])) ++ (used_entry cur off sz r ∷ rs))
      → Released m cur bs
          ((fs ++ (free_entry prev o₁ s₁ r₁ ∷ [])) ++ (used_entry cur off sz r ∷ rs))
  Released-left fs rs prev o₁ s₁ r₁ u P =
      let L = free_entry prev o₁ s₁ r₁ in
      let U = used_entry cur off sz r in
      let e = append-one fs L (U ∷ rs) in
      let N = free_entry prev o₁ (add_size s₁ sz) r₁ in
      let P' : IsPool bs y (fs ++ (L ∷ U ∷ rs)) = rw e at P in
      let (z, (a, (b, t))) = no-wrap fs (L ∷ U ∷ rs) y small P'.filled in
      let le = Fills-le (segments rs) (z + s₁ + sz) y t in
      let sums : add_size s₁ sz ≡ s₁ + sz = omega (arith, le, small) in
      record {
        entries = fs ++ (N ∷ rs);
        becomes =
            Becomes-from
              ((rw (last_or-append none fs L, last_is_free-append false fs L, u) at
                  (release-neighbours m bs (fs ++ (L ∷ [])) rs cur off sz r P.represents))
                ∙ release_in-left m cur prev (first_or none rs) bs)
              (merge_left-Becomes bs fs rs cur off sz r prev o₁ s₁ r₁ P'.represents);
        given = rw e (
            given_behind fs (U ∷ rs) L N rs P' (ground (arith, eq→== cur cur refl)) (λ v. refl)
              (rw (eq→== cur cur refl, sums)
                (ap (join (segment L)) (join-used (record (segment U) { holder = none }) rs u))));
      }

  pub Released-right :
      (ls rs : List Entry) (next o₂ s₂ : ℕ) (r₂ : Option ℕ)
      → last_is_free false ls ≡ false
      → IsPool bs y (ls ++ (used_entry cur off sz r ∷ free_entry next o₂ s₂ r₂ ∷ rs))
      → Released m cur bs (ls ++ (used_entry cur off sz r ∷ free_entry next o₂ s₂ r₂ ∷ rs))
  Released-right ls rs next o₂ s₂ r₂ u P =
      let U = used_entry cur off sz r in
      let K = free_entry next o₂ s₂ r₂ in
      let N = free_entry next off (add_size s₂ sz) r₂ in
      let (z, (a, (b, t))) = no-wrap ls (U ∷ K ∷ rs) y small P.filled in
      let le = Fills-le (segments rs) (z + sz + s₂) y t in
      let sums : add_size s₂ sz ≡ sz + s₂ = omega (arith, le, small) in
      record {
        entries = ls ++ (N ∷ rs);
        becomes =
            Becomes-from
              ((rw u at (release-neighbours m bs ls (K ∷ rs) cur off sz r P.represents))
                ∙ release_in-right m cur (last_or none ls) next bs)
              (merge_right-Becomes bs ls rs cur off sz r next o₂ s₂ r₂ P.represents);
        given =
            given_behind ls (K ∷ rs) U N rs P (ground (arith, eq→== cur cur refl))
              (λ v. absurd (ground (arith, u, v))) (rw (eq→== cur cur refl, sums) refl);
      }

  pub Released-alone :
      (ls rs : List Entry)
      → length ls ≤ m
      → length rs ≤ m
      → last_is_free false ls ≡ false
      → first_is_free rs ≡ false
      → IsPool bs y (ls ++ (used_entry cur off sz r ∷ rs))
      → Released m cur bs (ls ++ (used_entry cur off sz r ∷ rs))
  Released-alone ls rs le le' u u' P =
      let U = used_entry cur off sz r in
      let N = free_entry cur off sz r in
      record {
        entries = ls ++ (N ∷ rs);
        becomes =
            Becomes-from
              ((rw (u, u') at (release-neighbours m bs ls rs cur off sz r P.represents))
                ∙ release_in-alone m cur (last_or none ls) (first_or none rs) bs)
              (make_free-Becomes bs ls rs cur off sz r m le le' P.represents);
        given =
            given_behind ls rs U N rs P (ground (arith, eq→== cur cur refl))
              (λ v. absurd (ground (arith, u, v)))
              (rw (eq→== cur cur refl) (join-used (record (segment U) { holder = none }) rs u'));
      }
