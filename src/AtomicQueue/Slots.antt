-- ===== src/AtomicQueue/Slots.antt =====
-- front() and back() of AtomicQueue in include/core/AtomicQueue.h.
use supercell_common.Common.{ℕ, ◌≤◌, ◌≡◌, ◌≢◌, arith, ok}
use supercell_common.AtomicQueue.{AtomicQueue, update, deref, front, back, set_back}
use supercell_common.AtomicQueue.Layout.{IsQueue, HasBack, value}

module _ {ℓ} {T : Type ℓ} (n : ℕ) (q : AtomicQueue T) (a e : ℕ) (chunk pos : ℕ → ℕ) where
  pub front_lem : IsQueue n q a e chunk pos → front q ≡ ok (value q chunk pos a)
  unfolding front deref
  front_lem is = ground (arith, is.begins, is.begins_at, is.layout.allocated a, is.ordered)

  pub back_lem :
      (b : ℕ)
      → IsQueue n q a e chunk pos
      → HasBack q b chunk pos
      → a ≤ b
      → b ≤ e
      → back q ≡ ok (value q chunk pos b)
  unfolding back deref
  back_lem b is has x y = ground (arith, has.back_at, has.back_pos, is.layout.allocated b)

  -- The queue with `v` in the slot at `p` of the chunk `c`.
  abbrev pub put_at : ℕ → ℕ → T → AtomicQueue T
  put_at c p v = record q {
    heap = record (q.heap) { values = update c (update p v (q.heap.values c)) q.heap.values };
  }

  pub set_back-ok :
      (v : T) (b : ℕ)
      → IsQueue n q a e chunk pos
      → HasBack q b chunk pos
      → a ≤ b
      → b ≤ e
      → set_back v q ≡ ok (put_at (chunk b) (pos b) v)
  unfolding set_back deref
  set_back-ok v b is has x y = ground (arith, has.back_at, has.back_pos, is.layout.allocated b)

  pub put_at-IsQueue :
      (c p : ℕ) (v : T) → IsQueue n q a e chunk pos → IsQueue n (put_at c p v) a e chunk pos
  put_at-IsQueue c p v is = record {
    layout = record {
      allocated = is.layout.allocated;
      inside = is.layout.inside;
      apart = is.layout.apart;
      stays = is.layout.stays;
      turns = is.layout.turns;
    };
    ordered = is.ordered;
    begins = is.begins;
    begins_at = is.begins_at;
    ends = is.ends;
    ends_at = is.ends_at;
    spare_live = is.spare_live;
    spare_apart = is.spare_apart;
  }

  -- The slot has the value, and no other slot has changed.
  pub value-put_at : (v : T) (b : ℕ) → value (put_at (chunk b) (pos b) v) chunk pos b ≡ v
  unfolding update
  value-put_at v b = ground arith

  pub value-put_at_other :
      (v : T) (b i : ℕ)
      → IsQueue n q a e chunk pos
      → a ≤ b
      → b ≤ e
      → a ≤ i
      → i ≤ e
      → i ≢ b
      → value (put_at (chunk b) (pos b) v) chunk pos i ≡ value q chunk pos i
  unfolding update
  value-put_at_other v b i is x y z w ne = ground (arith, is.layout.apart i b)
