-- ===== src/AtomicQueue/Pop.antt =====
-- pop() of AtomicQueue in include/core/AtomicQueue.h takes the first slot away.
use supercell_common.Common.{
  ℕ, suc, ◌+◌, ◌≤◌, ◌<◌, ◌≡◌, ◌≢◌, refl, true, Option, none, some, List, arith, ok, inl, inr,
  eq_or_ne,
}
use supercell_common.AtomicQueue.{AtomicQueue, has, remove, update, deref, free, free_if, pop}
use supercell_common.AtomicQueue.Layout.{IsQueue, Reaches, has-remove, narrow}

-- The chunks allocated after the spare one is freed.
abbrev pub without : Option ℕ → List ℕ → List ℕ
without none l = l
without (some s) l = remove s l

module _ {ℓ} {T : Type ℓ} where
  -- The state after pop() within a chunk, and after one that goes from the chunk `o` to `c`.
  abbrev stepped : AtomicQueue T → AtomicQueue T
  stepped q = record q { begin_pos = q.begin_pos + 1 }

  abbrev passed : AtomicQueue T → List ℕ → ℕ → ℕ → AtomicQueue T
  passed q l o c = record q {
    heap = record (q.heap) { prev = update c none q.heap.prev; live = l };
    begin_chunk = some c;
    begin_pos = 0;
    spare_chunk = some o;
  }

  module _ (n : ℕ) (q : AtomicQueue T) (a e : ℕ) (chunk pos : ℕ → ℕ) where
    -- What pop() gives: one slot less.
    abbrev pub Popped : AtomicQueue T → Type ℓ
    Popped q' = Reaches n (pop n q) q q' (suc a) e chunk pos

    pop-step : IsQueue n q a e chunk pos → pos a + 1 ≢ n → pop n q ≡ ok (stepped q)
    unfolding pop
    pop-step is more = ground (arith, is.begins_at)

    stepped-IsQueue :
        IsQueue n q a e chunk pos
        → a < e
        → pos a + 1 ≢ n
        → IsQueue n (stepped q) (suc a) e chunk pos
    stepped-IsQueue is some_left more = record {
      layout = narrow (suc a) e (omega arith) (omega arith) is.layout;
      ordered = some_left;
      begins = ground (arith, is.begins, is.layout.stays a);
      begins_at = ground (arith, is.begins_at, is.layout.stays a);
      ends = is.ends;
      ends_at = is.ends_at;
      spare_live = is.spare_live;
      spare_apart = λ s i x y z. is.spare_apart s i x (omega arith) z;
    }

    pop-pass :
        IsQueue n q a e chunk pos
        → a < e
        → pos a + 1 ≡ n
        → (s : Option ℕ) → q.spare_chunk ≡ s
        → pop n q ≡ ok (passed q (without s q.heap.live) (chunk a) (chunk (suc a)))
    unfolding pop deref free free_if
    pop-pass is left full none sp = ground (
      arith,
      is.begins,
      is.begins_at,
      is.layout.allocated a,
      is.layout.allocated (suc a),
      is.layout.turns a,
      sp,
    )
    pop-pass is left full (some s) sp = ground (
      arith,
      is.begins,
      is.begins_at,
      is.layout.allocated a,
      is.layout.allocated (suc a),
      is.layout.turns a,
      sp,
      is.spare_live s sp,
    )

    passed-IsQueue :
        (l : List ℕ)
        → IsQueue n q a e chunk pos
        → a < e
        → pos a + 1 ≡ n
        → ((i : ℕ) → a ≤ i → i ≤ e → has l (chunk i) ≡ true)
        → IsQueue n (passed q l (chunk a) (chunk (suc a))) (suc a) e chunk pos
    unfolding update
    passed-IsQueue l is left full live = record {
      layout = record {
        allocated = λ i x y. live i (omega arith) y;
        inside = λ i x y. is.layout.inside i (omega arith) y;
        apart = λ i j x y z w. is.layout.apart i j (omega arith) y (omega arith) w;
        stays = λ i x y. is.layout.stays i (omega arith) y;
        turns = λ i x y c.
            ground (arith, is.layout.turns i, is.layout.turns a, is.layout.apart (suc i) (suc a));
      };
      ordered = left;
      begins = refl;
      begins_at = ground (arith, is.layout.turns a);
      ends = is.ends;
      ends_at = is.ends_at;
      spare_live = λ s x. ground (arith, x, live a);
      spare_apart = λ s i x y z. ground (arith, x, is.layout.apart i a, is.layout.inside i);
    }

    pop_pass :
        IsQueue n q a e chunk pos
        → a < e
        → pos a + 1 ≡ n
        → (s : Option ℕ) → q.spare_chunk ≡ s
        → (q' : AtomicQueue T) × Popped q'
    unfolding update
    pop_pass is left full none sp = (
      passed q q.heap.live (chunk a) (chunk (suc a)),
      record {
        runs = pop-pass is left full none sp;
        is_queue = passed-IsQueue q.heap.live is left full is.layout.allocated;
        same_values = refl;
        same_back = refl;
        same_back_pos = refl;
      },
    )
    pop_pass is left full (some s) sp = (
      passed q (remove s q.heap.live) (chunk a) (chunk (suc a)),
      record {
        runs = pop-pass is left full (some s) sp;
        is_queue = passed-IsQueue (remove s q.heap.live) is left full (λ i x y. ground (
          arith,
          has-remove s q.heap.live (chunk i),
          is.layout.allocated i x y,
          is.spare_apart s i sp x y,
        ));
        same_values = refl;
        same_back = refl;
        same_back_pos = refl;
      },
    )

    pub pop_lem : IsQueue n q a e chunk pos → a < e → (q' : AtomicQueue T) × Popped q'
    pop_lem is left = elim (eq_or_ne (pos a + 1) n) [
      | inl full ↦ pop_pass is left full q.spare_chunk refl
      | inr more ↦ (
        stepped q,
        record {
          runs = pop-step is more;
          is_queue = stepped-IsQueue is left more;
          same_values = refl;
          same_back = refl;
          same_back_pos = refl;
        },
      )
    ]
