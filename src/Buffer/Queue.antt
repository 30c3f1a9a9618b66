-- ===== src/Buffer/Queue.antt =====
-- A sequence of raw reads and writes of a BufferBase (include/core/Buffer.h) against a queue of
-- bytes: growth, the moves round the end of the block and the positions are not seen.
use supercell_common.Common.{
  ℕ, ◌+◌, ◌≤◌, ◌≡◌, refl, ap, ◌∙◌, List, [], ◌∷◌, ◌++◌, Result, ok, err, leb, assertion, length,
  take, drop, inl, inr, arith, if◌then◌else◌, le→leb, lt→leb, lt_or_le, ◌>>=◌, map_ok,
}
use supercell_common.Buffer.State.{Mode, plain, circular, Buffer, Allocator, IsAllocator}
use supercell_common.Buffer.Block.{write_array, read_array}
use supercell_common.Buffer.Contents.{filled, contents, IsValid, length-contents}
use supercell_common.Buffer.Skips.{skipped, skipped-IsValid, contents-skipped}
use supercell_common.Buffer.Room.{Ready}
use supercell_common.Buffer.Write.{write_array_lem}
use supercell_common.Buffer.Read.{read_array-skipped, read_array-beyond}

pub data Op : Type 0 where
  put : List ℕ → Op
  get : ℕ → Op

-- The bytes that the writes of a sequence add.
unfoldable pub put_total : List Op → ℕ
put_total [] = 0
put_total (put xs ∷ ops) = length xs + put_total ops
put_total (get n ∷ ops) = put_total ops

-- The calls in order, until one stops: what the reads give, and the buffer at the end.
unfoldable pub run : Allocator → Mode → List Op → Buffer → Result (List (List ℕ) × Buffer)
run heap m [] b = ok ([], b)
run heap m (put xs ∷ ops) b = write_array heap m xs b >>= run heap m ops
run heap m (get n ∷ ops) b =
    read_array m n b >>= λ r. run heap m ops r.1 >>= λ s. ok (r.0 ∷ s.0, s.1)

-- The same calls on a queue of bytes: a read of more than there is stops by an assertion.
unfoldable pub run_queue : List Op → List ℕ → Result (List (List ℕ) × List ℕ)
run_queue [] q = ok ([], q)
run_queue (put xs ∷ ops) q = run_queue ops (q ++ xs)
run_queue (get n ∷ ops) q =
    let rest = run_queue ops (drop n q) in
    if leb n (length q) then (rest >>= λ s. ok (take n q ∷ s.0, s.1)) else err assertion

abbrev pub view : Result (List (List ℕ) × Buffer) → Result (List (List ℕ) × List ℕ)
view = map_ok (λ s. (s.0, contents s.1))

skipped-Ready :
    (m : Mode) (b : Buffer) (n k : ℕ)
    → IsValid m b
    → n ≤ filled b
    → Ready m k b
    → Ready m k (skipped m b n)
skipped-Ready plain b n k v h r = ground arith
skipped-Ready circular b n k v h r = ground arith

view-get :
    (xs : List ℕ) (r : Result (List (List ℕ) × Buffer))
    → view (r >>= λ s. ok (xs ∷ s.0, s.1)) ≡ (view r >>= λ s. ok (xs ∷ s.0, s.1))
view-get xs (ok s) = refl
view-get xs (err e) = refl

-- A valid buffer that is ready for all bytes that a sequence of writes and reads puts into it
-- behaves as the queue of the bytes that it holds: the reads give the same, the calls stop at the
-- same place, and at the end the buffer holds what the queue does.
pub run_refines :
    (heap : Allocator) (laws : IsAllocator heap) (m : Mode) (ops : List Op) (b : Buffer)
    → IsValid m b
    → Ready m (put_total ops) b
    → view (run heap m ops b) ≡ run_queue ops (contents b)
unfolding run run_queue put_total
run_refines heap laws m [] b v r = refl
run_refines heap laws m (put xs ∷ ops) b v r =
    let (b', e, w) = write_array_lem heap laws m xs (put_total ops) b v r in
    rw (e, ← w.appended) (run_refines heap laws m ops b' w.valid w.ready)
run_refines heap laws m (get n ∷ ops) b v r = elim (lt_or_le (length (contents b)) n) [
  | inl beyond ↦ rw (read_array-beyond m n b v beyond, lt→leb n (length (contents b)) beyond) refl
  | inr inside ↦
      let k : n ≤ filled b = omega (arith, length-contents b) in
      let ih =
        run_refines heap laws m ops (skipped m b n) (skipped-IsValid m b n v k)
          (skipped-Ready m b n (put_total ops) v k r) in
      rw (read_array-skipped m n b v inside, le→leb n (length (contents b)) inside)
        (view-get (take n (contents b)) (run heap m ops (skipped m b n))
          ∙ ap (λ s. s >>= λ s. ok (take n (contents b) ∷ s.0, s.1))
              (ih ∙ ap (run_queue ops) (contents-skipped m b n v k)))
]
