-- ===== src/AtomicQueue.antt =====
-- AtomicQueue of include/core/AtomicQueue.h: a queue of slots in a chain of chunks of N slots.
pub mod Layout
pub mod Push
pub mod Pop
pub mod Unpush
pub mod Slots
use supercell_common.Common.{
  ℕ, ◌+◌, ◌-◌, Bool, true, false, Option, none, some, List, [], ◌∷◌, Result, ok, err, bad_access,
  assert, ◌==◌, if◌then◌else◌, ◌>>=◌, ◌>>◌,
}

-- The chunks: the addresses of those that are allocated, and the members of each by its address. A
-- pointer is NULL or an address.
pub record Heap {ℓ} (T : Type ℓ) : Type ℓ where
  pub live : List ℕ
  pub values : ℕ → ℕ → T
  pub prev : ℕ → Option ℕ
  pub next : ℕ → Option ℕ

-- A function changed at one address.
unfoldable pub update {ℓ} : {A : Type ℓ} → ℕ → A → (ℕ → A) → ℕ → A
update p x f a = if a == p then x else f a

abbrev pub has : List ℕ → ℕ → Bool
has [] a = false
has (x ∷ xs) a = if a == x then true else has xs a

unfoldable pub remove : ℕ → List ℕ → List ℕ
remove a [] = []
remove a (x ∷ xs) = let rest = remove a xs in if x == a then rest else x ∷ rest

-- The state of the queue, with the heap that its chunks are in.
pub record AtomicQueue {ℓ} (T : Type ℓ) : Type ℓ where
  pub heap : Heap T
  pub begin_chunk : Option ℕ
  pub begin_pos : ℕ
  pub back_chunk : Option ℕ
  pub back_pos : ℕ
  pub end_chunk : Option ℕ
  pub end_pos : ℕ
  pub spare_chunk : Option ℕ

module _ {ℓ} {T : Type ℓ} where
  -- The address that a pointer to an allocated chunk holds.
  unfoldable pub deref : Heap T → Option ℕ → Result ℕ
  deref h none = err bad_access
  deref h (some p) = if has h.live p then ok p else err bad_access

  unfoldable pub free : Heap T → Option ℕ → Result (Heap T)
  unfolding deref remove
  free h p = do a ← deref h p; ok (record h { live = remove a h.live })

  unfoldable pub free_if : Heap T → Option ℕ → Result (Heap T)
  unfolding free
  free_if h none = ok h
  free_if h (some p) = free h (some p)

  unfoldable pub front : AtomicQueue T → Result T
  unfolding deref
  front q = do c ← deref q.heap q.begin_chunk; ok (q.heap.values c q.begin_pos)

  unfoldable pub back : AtomicQueue T → Result T
  unfolding deref
  back q = do c ← deref q.heap q.back_chunk; ok (q.heap.values c q.back_pos)

  -- back() = value
  unfoldable pub set_back : T → AtomicQueue T → Result (AtomicQueue T)
  unfolding deref update
  set_back v q = do
    c ← deref q.heap q.back_chunk
    ok (record q {
      heap = record (q.heap) {
        values = update c (update q.back_pos v (q.heap.values c)) q.heap.values;
      };
    })

  -- end_chunk->next = p; p->prev = end_chunk; end_chunk = end_chunk->next; end_pos = 0
  unfoldable pub extend : ℕ → AtomicQueue T → Result (AtomicQueue T)
  unfolding deref update
  extend p q = do
    c ← deref q.heap q.end_chunk
    a ← deref q.heap (some p)
    ok (record q {
      heap = record (q.heap) {
        next = update c (some a) q.heap.next;
        prev = update a (some c) q.heap.prev;
      };
      end_chunk = some a;
      end_pos = 0;
    })

  -- unpush(): the move back of the back slot, and of the end, which frees a chunk that it leaves.
  unfoldable pub step_back : ℕ → AtomicQueue T → Result (AtomicQueue T)
  unfolding deref
  step_back size q =
      if q.back_pos == 0
      then (do
        c ← deref q.heap q.back_chunk
        ok (record q { back_pos = size - 1; back_chunk = q.heap.prev c }))
      else ok (record q { back_pos = q.back_pos - 1 })

  unfoldable pub step_end : ℕ → AtomicQueue T → Result (AtomicQueue T)
  unfolding deref free update
  step_end size q =
      if q.end_pos == 0
      then (do
        c ← deref q.heap q.end_chunk
        d ← deref q.heap (q.heap.prev c)
        h ← free q.heap (q.heap.next d)
        ok (record q {
          heap = record h { next = update d none h.next };
          end_pos = size - 1;
          end_chunk = some d;
        }))
      else ok (record q { end_pos = q.end_pos - 1 })

  unfoldable pub unpush : ℕ → AtomicQueue T → Result (AtomicQueue T)
  unpush size q = do q' ← step_back size q; step_end size q'

  unfoldable pub pop : ℕ → AtomicQueue T → Result (AtomicQueue T)
  unfolding deref free_if update
  pop size q =
      if q.begin_pos + 1 == size
      then (do
        o ← deref q.heap q.begin_chunk
        c ← deref q.heap (q.heap.next o)
        h ← free_if (record (q.heap) { prev = update c none q.heap.prev }) q.spare_chunk
        ok (record q { heap = h; begin_chunk = some c; begin_pos = 0; spare_chunk = some o }))
      else ok (record q { begin_pos = q.begin_pos + 1 })

-- malloc of a chunk: an address, by which ones are in use. What a new chunk holds is not determined.
module _ {ℓ} {T : Type ℓ} (malloc : List ℕ → ℕ) where
  -- AtomicQueue()
  unfoldable pub new_queue : Heap T → AtomicQueue T
  new_queue h =
      let p = malloc h.live in
      record {
        heap = record h { live = p ∷ h.live };
        begin_chunk = some p;
        begin_pos = 0;
        back_chunk = none;
        back_pos = 0;
        end_chunk = some p;
        end_pos = 0;
        spare_chunk = none;
      }

  -- The chunk that push() puts at the end: the spare one, or a new one.
  unfoldable pub add_chunk : Option ℕ → AtomicQueue T → Result (AtomicQueue T)
  unfolding extend
  add_chunk (some s) q = extend s (record q { spare_chunk = none })
  add_chunk none q =
      let p = malloc q.heap.live in
      extend p (record q { heap = record (q.heap) { live = p ∷ q.heap.live } })

  unfoldable pub push : ℕ → AtomicQueue T → Result (AtomicQueue T)
  unfolding add_chunk
  push size q =
      let q' = record q {
        back_chunk = q.end_chunk;
        back_pos = q.end_pos;
        end_pos = q.end_pos + 1;
      } in
      if q.end_pos + 1 == size then add_chunk q.spare_chunk q' else ok q'
