-- ===== src/AtomicQueue/Unpush.antt =====
-- unpush() of AtomicQueue in include/core/AtomicQueue.h takes the last slot away.
use supercell_common.Common.{
  ℕ, suc, ◌+◌, ◌-◌, ◌≤◌, ◌≡◌, ◌≢◌, refl, none, some, arith, ok, inl, inr, eq_or_ne,
}
use supercell_common.AtomicQueue.{
  Heap, AtomicQueue, remove, update, deref, free, step_back, step_end, unpush,
}
use supercell_common.AtomicQueue.Layout.{Layout, IsQueue, HasBack, Reaches, has-remove, narrow}

module _ {ℓ} {T : Type ℓ} where
  -- The state after step_back, and after step_end within a chunk and out of the chunk `c`.
  abbrev back_to : AtomicQueue T → ℕ → ℕ → AtomicQueue T
  back_to q c p = record q { back_chunk = some c; back_pos = p }

  abbrev end_within : AtomicQueue T → AtomicQueue T
  end_within q = record q { end_pos = q.end_pos - 1 }

  abbrev end_out : ℕ → AtomicQueue T → ℕ → ℕ → AtomicQueue T
  end_out n q c d = record q {
    heap = record (q.heap) { live = remove c q.heap.live; next = update d none q.heap.next };
    end_chunk = some d;
    end_pos = n - 1;
  }

  module _ (n : ℕ) (q : AtomicQueue T) (a b : ℕ) (chunk pos : ℕ → ℕ) where
    -- The slot before one that stands first in its chunk is the last of its own.
    before-first :
        (e : ℕ) (h : Heap T)
        → Layout n h a e chunk pos
        → a ≤ b
        → suc b ≤ e
        → pos (suc b) ≡ 0
        → pos b + 1 ≡ n
    before-first e h l o k z = elim (eq_or_ne (pos b + 1) n) [
      | inl full ↦ full
      | inr more ↦ absurd (ground (arith, l.stays b))
    ]

    before-other :
        (e : ℕ) (h : Heap T)
        → Layout n h a e chunk pos
        → a ≤ b
        → suc b ≤ e
        → pos (suc b) ≢ 0
        → (chunk (suc b) ≡ chunk b) × (pos (suc b) ≡ pos b + 1)
    before-other e h l o k z = elim (eq_or_ne (pos b + 1) n) [
      | inl full ↦ absurd (z (l.turns b o k full).0)
      | inr more ↦ l.stays b o k more
    ]

    -- The back slot moves from `b + 1` to `b`.
    step_back_lem :
        (e : ℕ)
        → IsQueue n q a e chunk pos
        → HasBack q (suc b) chunk pos
        → a ≤ b
        → suc b ≤ e
        → step_back n q ≡ ok (back_to q (chunk b) (pos b))
    unfolding step_back deref
    step_back_lem e is has o k = elim (eq_or_ne (pos (suc b)) 0) [
      | inl z ↦ ground (
        arith,
        has.back_at,
        has.back_pos,
        before-first e q.heap is.layout o k z,
        is.layout.turns b,
        is.layout.allocated (suc b),
      )
      | inr z ↦ ground (arith, has.back_at, has.back_pos, before-other e q.heap is.layout o k z)
    ]

    -- The end moves from `b + 1` to `b`.
    abbrev pub Ended : AtomicQueue T → Type ℓ
    Ended q' = Reaches n (step_end n q) q q' a b chunk pos

    end_within-IsQueue :
        IsQueue n q a (suc b) chunk pos
        → a ≤ b
        → pos (suc b) ≢ 0
        → IsQueue n (end_within q) a b chunk pos
    end_within-IsQueue is o z = record {
      layout = narrow a b (omega arith) (omega arith) is.layout;
      ordered = o;
      begins = is.begins;
      begins_at = is.begins_at;
      ends = ground (arith, is.ends, before-other (suc b) q.heap is.layout o);
      ends_at = ground (arith, is.ends_at, before-other (suc b) q.heap is.layout o);
      spare_live = is.spare_live;
      spare_apart = λ s i x y w. is.spare_apart s i x y (omega arith);
    }

    end_out-IsQueue :
        IsQueue n q a (suc b) chunk pos
        → a ≤ b
        → pos (suc b) ≡ 0
        → pos b + 1 ≡ n
        → IsQueue n (end_out n q (chunk (suc b)) (chunk b)) a b chunk pos
    unfolding update
    end_out-IsQueue is o z full = record {
      layout = record {
        allocated = λ i x y. ground (
          arith,
          has-remove (chunk (suc b)) q.heap.live (chunk i),
          is.layout.allocated i,
          is.layout.apart i (suc b),
        );
        inside = λ i x y. is.layout.inside i x (omega arith);
        apart = λ i j x y w v. is.layout.apart i j x (omega arith) w (omega arith);
        stays = λ i x y. is.layout.stays i x (omega arith);
        turns = λ i x y c. ground (arith, is.layout.turns i, is.layout.apart i b);
      };
      ordered = o;
      begins = is.begins;
      begins_at = is.begins_at;
      ends = refl;
      ends_at = omega arith;
      spare_live = λ s x. ground (
        arith,
        has-remove (chunk (suc b)) q.heap.live s,
        is.spare_live s x,
        is.spare_apart s (suc b) x,
      );
      spare_apart = λ s i x y w. is.spare_apart s i x y (omega arith);
    }

    step_end-within :
        IsQueue n q a (suc b) chunk pos → pos (suc b) ≢ 0 → step_end n q ≡ ok (end_within q)
    unfolding step_end
    step_end-within is z = ground (arith, is.ends_at)

    step_end-out :
        IsQueue n q a (suc b) chunk pos
        → a ≤ b
        → pos (suc b) ≡ 0
        → pos b + 1 ≡ n
        → step_end n q ≡ ok (end_out n q (chunk (suc b)) (chunk b))
    unfolding step_end deref free
    step_end-out is o z full = ground (
      arith,
      is.ends,
      is.ends_at,
      is.layout.turns b,
      is.layout.allocated b,
      is.layout.allocated (suc b),
    )

    step_end_lem : IsQueue n q a (suc b) chunk pos → a ≤ b → (q' : AtomicQueue T) × Ended q'
    step_end_lem is o = elim (eq_or_ne (pos (suc b)) 0) [
      | inl z ↦
          let full = before-first (suc b) q.heap is.layout o (omega arith) z in
          (
            end_out n q (chunk (suc b)) (chunk b),
            record {
              runs = step_end-out is o z full;
              is_queue = end_out-IsQueue is o z full;
              same_values = refl;
              same_back = refl;
              same_back_pos = refl;
            },
          )
      | inr z ↦ (
        end_within q,
        record {
          runs = step_end-within is z;
          is_queue = end_within-IsQueue is o z;
          same_values = refl;
          same_back = refl;
          same_back_pos = refl;
        },
      )
    ]

module _ {ℓ} {T : Type ℓ} where
  -- unpush() of a queue with a slot before the back one.
  pub unpush_lem :
      (n : ℕ) (q : AtomicQueue T) (a b : ℕ) (chunk pos : ℕ → ℕ)
      → IsQueue n q a (suc (suc b)) chunk pos
      → HasBack q (suc b) chunk pos
      → a ≤ b
      → (q' : AtomicQueue T) × (unpush n q ≡ ok q')
        × IsQueue n q' a (suc b) chunk pos
        × HasBack q' b chunk pos
        × (q'.heap.values ≡ q.heap.values)
  unfolding unpush
  unpush_lem n q a b chunk pos is has o =
      let q₁ : AtomicQueue T = back_to q (chunk b) (pos b) in
      let moved : IsQueue n q₁ a (suc (suc b)) chunk pos = record {
        layout = is.layout;
        ordered = is.ordered;
        begins = is.begins;
        begins_at = is.begins_at;
        ends = is.ends;
        ends_at = is.ends_at;
        spare_live = is.spare_live;
        spare_apart = is.spare_apart;
      } in
      let (q', r) = step_end_lem n q₁ a (suc b) chunk pos moved (omega arith) in
      (
        q',
        rw (step_back_lem n q a b chunk pos (suc (suc b)) is has o (omega arith)) r.runs,
        r.is_queue,
        record { back_at = r.same_back; back_pos = r.same_back_pos },
        r.same_values,
      )
