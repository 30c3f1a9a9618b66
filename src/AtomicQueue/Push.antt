-- ===== src/AtomicQueue/Push.antt =====
-- push() of AtomicQueue in include/core/AtomicQueue.h adds one slot at the end.
use supercell_common.Common.{
  ℕ, suc, ◌+◌, ◌≤◌, ◌≡◌, ◌≢◌, refl, true, false, Option, none, some, List, ◌∷◌, arith, ok, inl, inr,
  eq_or_ne,
}
use supercell_common.AtomicQueue.{AtomicQueue, has, update, deref, extend, add_chunk, push}
use supercell_common.AtomicQueue.Layout.{Layout, IsQueue, HasBack, linked, extend_stay, extend_turn}

-- What a call that changes slots only at the end keeps: the slots up to `k`, and all values.
pub record Keeps {ℓ} {T : Type ℓ} (k : ℕ) (q q' : AtomicQueue T) (c p c' p' : ℕ → ℕ) : Type ℓ where
  pub chunks : (i : ℕ) → i ≤ k → c' i ≡ c i
  pub places : (i : ℕ) → i ≤ k → p' i ≡ p i
  pub all_values : q'.heap.values ≡ q.heap.values

module _ {ℓ} {T : Type ℓ} (malloc : List ℕ → ℕ) where
  -- The state after push() with the chunk of the end not full.
  abbrev stayed : AtomicQueue T → AtomicQueue T
  stayed q = record q { back_chunk = q.end_chunk; back_pos = q.end_pos; end_pos = q.end_pos + 1 }

  -- The state after push() that joins the chunk `p` to `c`, where `l` are the chunks allocated.
  abbrev turned : AtomicQueue T → List ℕ → ℕ → ℕ → AtomicQueue T
  turned q l c p = record q {
    heap = linked (record (q.heap) { live = l }) c p;
    back_chunk = q.end_chunk;
    back_pos = q.end_pos;
    end_chunk = some p;
    end_pos = 0;
    spare_chunk = none;
  }

  module _ (n : ℕ) (q : AtomicQueue T) (a e : ℕ) (chunk pos : ℕ → ℕ) where
    push-stay : IsQueue n q a e chunk pos → pos e + 1 ≢ n → push malloc n q ≡ ok (stayed q)
    unfolding push
    push-stay is more = ground (arith, is.ends_at)

    stayed-IsQueue :
        IsQueue n q a e chunk pos
        → pos e + 1 ≢ n
        → IsQueue n
            (stayed q)
            a
            (suc e)
            (update (suc e) (chunk e) chunk)
            (update (suc e) (pos e + 1) pos)
    unfolding update
    stayed-IsQueue is more = record {
      layout = extend_stay is.layout is.ordered (ground (arith, is.layout.inside e, is.ordered));
      ordered = ground (arith, is.ordered);
      begins = ground (arith, is.begins, is.ordered);
      begins_at = ground (arith, is.begins_at, is.ordered);
      ends = ground (arith, is.ends);
      ends_at = ground (arith, is.ends_at);
      spare_live = is.spare_live;
      spare_apart = λ s i x y z. ground (arith, is.spare_apart s i, is.spare_apart s e, is.ordered);
    }

    push-spare :
        (s : ℕ)
        → IsQueue n q a e chunk pos
        → pos e + 1 ≡ n
        → q.spare_chunk ≡ some s
        → push malloc n q ≡ ok (turned q q.heap.live (chunk e) s)
    unfolding push add_chunk extend deref
    push-spare s is full sp =
        ground (arith, is.ends_at, is.ends, is.spare_live s, is.layout.allocated e, is.ordered, sp)

    push-new :
        IsQueue n q a e chunk pos
        → pos e + 1 ≡ n
        → q.spare_chunk ≡ none
        → has q.heap.live (malloc q.heap.live) ≡ false
        → push malloc n q
          ≡ ok (turned q (malloc q.heap.live ∷ q.heap.live) (chunk e) (malloc q.heap.live))
    unfolding push add_chunk extend deref
    push-new is full sp m =
        ground (arith, is.ends_at, is.ends, is.layout.allocated e, is.ordered, sp, m)

    -- More chunks are allocated than before.
    relive :
        (l : List ℕ)
        → ((x : ℕ) → has q.heap.live x ≡ true → has l x ≡ true)
        → Layout n q.heap a e chunk pos
        → Layout n (record (q.heap) { live = l }) a e chunk pos
    relive l more y = record {
      allocated = λ i p r. more (chunk i) (y.allocated i p r);
      inside = y.inside;
      apart = y.apart;
      stays = y.stays;
      turns = y.turns;
    }

    turned-IsQueue :
        (l : List ℕ) (p : ℕ)
        → IsQueue n q a e chunk pos
        → pos e + 1 ≡ n
        → ((x : ℕ) → has q.heap.live x ≡ true → has l x ≡ true)
        → has l p ≡ true
        → ((i : ℕ) → a ≤ i → i ≤ e → chunk i ≢ p)
        → IsQueue n
            (turned q l (chunk e) p)
            a
            (suc e)
            (update (suc e) p chunk)
            (update (suc e) 0 pos)
    unfolding update
    turned-IsQueue l p is full more live fresh = record {
      layout = extend_turn p (relive l more is.layout) is.ordered full live fresh;
      ordered = ground (arith, is.ordered);
      begins = ground (arith, is.begins, is.ordered);
      begins_at = ground (arith, is.begins_at, is.ordered);
      ends = ground arith;
      ends_at = ground arith;
      spare_live = λ s x. ground (arith, x);
      spare_apart = λ s i x y z. ground (arith, x);
    }

    -- What push() gives: one slot more, and the end before it as the back slot.
    abbrev pub Pushed : AtomicQueue T → (ℕ → ℕ) → (ℕ → ℕ) → Type ℓ
    Pushed q' c' p' =
        (push malloc n q ≡ ok q')
        × IsQueue n q' a (suc e) c' p'
        × HasBack q' e chunk pos
        × Keeps e q q' chunk pos c' p'

    kept :
        (q' : AtomicQueue T) (x y : ℕ)
        → q'.heap.values ≡ q.heap.values
        → Keeps e q q' chunk pos (update (suc e) x chunk) (update (suc e) y pos)
    unfolding update
    kept q' x y same = record {
      chunks = λ i h. ground arith;
      places = λ i h. ground arith;
      all_values = same;
    }

    push_turn :
        IsQueue n q a e chunk pos
        → pos e + 1 ≡ n
        → has q.heap.live (malloc q.heap.live) ≡ false
        → (s : Option ℕ) → q.spare_chunk ≡ s
        → (q' : AtomicQueue T) × (c' p' : ℕ → ℕ) × Pushed q' c' p'
    unfolding update
    push_turn is full m (some s) sp = (
      turned q q.heap.live (chunk e) s,
      update (suc e) s chunk,
      update (suc e) 0 pos,
      (
        push-spare s is full sp,
        turned-IsQueue q.heap.live s is full (λ x y. y) (is.spare_live s sp)
            (λ i x y. is.spare_apart s i sp x y),
        record { back_at = is.ends; back_pos = is.ends_at },
        kept _ s 0 refl,
      ),
    )
    push_turn is full m none sp =
        let p : ℕ = malloc q.heap.live in
        (
          turned q (p ∷ q.heap.live) (chunk e) p,
          update (suc e) p chunk,
          update (suc e) 0 pos,
          (
            push-new is full sp m,
            turned-IsQueue (p ∷ q.heap.live) p is full (λ x y. ground (arith, y)) (ground arith)
                (λ i x y same. ground (arith, is.layout.allocated i x y, m, same)),
            record { back_at = is.ends; back_pos = is.ends_at },
            kept _ p 0 refl,
          ),
        )

    pub push_lem :
        IsQueue n q a e chunk pos
        → has q.heap.live (malloc q.heap.live) ≡ false
        → (q' : AtomicQueue T) × (c' p' : ℕ → ℕ) × Pushed q' c' p'
    push_lem is m = elim (eq_or_ne (pos e + 1) n) [
      | inl full ↦ push_turn is full m q.spare_chunk refl
      | inr more ↦ (
        stayed q,
        update (suc e) (chunk e) chunk,
        update (suc e) (pos e + 1) pos,
        (
          push-stay is more,
          stayed-IsQueue is more,
          record { back_at = is.ends; back_pos = is.ends_at },
          kept _ (chunk e) (pos e + 1) refl,
        ),
      )
    ]
