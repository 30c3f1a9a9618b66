-- ===== src/AtomicPipe/Refine.antt =====
-- Sequences of calls of AtomicPipe in include/core/AtomicQueue.h against the promised pipe. The
-- calls of the writer and of the reader may come in any order.
use supercell_common.Common.{
  ℕ, suc, ◌≤◌, ◌≡◌, refl, sym, ap, ◌∙◌, Bool, false, Option, some, arith, List, [], ◌∷◌, Result, ok,
  ◌>>=◌, inr,
}
use supercell_common.AtomicQueue.{Heap, AtomicQueue, has, new_queue}
use supercell_common.AtomicQueue.Layout.{IsQueue, HasBack}
use supercell_common.AtomicPipe.{AtomicPipe, unwrite, flush, read, write, new_pipe}
use supercell_common.AtomicPipe.Spec.{Pipe, empty, written, unwritten, flushed_out, taken}
use supercell_common.AtomicPipe.Relation.{slot, Represents, back_place_lem}
use supercell_common.AtomicQueue.Push.{push_lem}
use supercell_common.AtomicPipe.Write.{write_lem}
use supercell_common.AtomicPipe.Unwrite.{unwrite_lem}
use supercell_common.AtomicPipe.Flush.{flush_lem}
use supercell_common.AtomicPipe.Reader.{read_lem}

-- A call of the writer, or of the reader.
pub data Call {ℓ} (T : Type ℓ) : Type ℓ where
  put : T → Bool → Call T
  take_back let_go get : Call T

-- What a call returns: a value or none, or for a flush whether the reader is awake.
pub data Reply {ℓ} (T : Type ℓ) : Type ℓ where
  quiet : Reply T
  gave : Option T → Reply T
  told : Bool → Reply T

module _ {ℓ} {T : Type ℓ} where
  unfoldable pub call_spec : Call T → Pipe T → Reply T × Pipe T
  call_spec (put v incomplete) s = (quiet, written v incomplete s)
  call_spec take_back s = let (o, s') = unwritten s in (gave o, s')
  call_spec let_go s = let (o, s') = flushed_out s in (told o, s')
  call_spec get s = let (o, s') = taken s in (gave o, s')

  unfoldable pub calls_spec : List (Call T) → Pipe T → List (Reply T)
  unfolding call_spec
  calls_spec [] s = []
  calls_spec (c ∷ cs) s = let (o, s') = call_spec c s in o ∷ calls_spec cs s'

  module _ (malloc : List ℕ → ℕ) (n : ℕ) where
    unfoldable pub call_pipe : Call T → AtomicPipe T → Result (Reply T × AtomicPipe T)
    call_pipe (put v incomplete) p = do p' ← write malloc n v incomplete p; ok (quiet, p')
    call_pipe take_back p = unwrite n p >>= λ r. ok (gave r.0, r.1)
    call_pipe let_go p = ok (told (flush p).0, (flush p).1)
    call_pipe get p = read n p >>= λ r. ok (gave r.0, r.1)

    unfoldable pub calls_pipe : List (Call T) → AtomicPipe T → Result (List (Reply T))
    unfolding call_pipe
    calls_pipe [] p = ok []
    calls_pipe (c ∷ cs) p = call_pipe c p >>= λ r. calls_pipe cs r.1 >>= λ os. ok (r.0 ∷ os)

    -- The pipe represents `s`, with some slots.
    abbrev pub Is : AtomicPipe T → Pipe T → Type ℓ
    Is p s = (a : ℕ) × (b : ℕ) × (chunk : ℕ → ℕ) × (pos : ℕ → ℕ) × Represents n p s a b chunk pos

    call_pipe_lem :
        ((l : List ℕ) → has l (malloc l) ≡ false)
        → (c : Call T) (p : AtomicPipe T) (s : Pipe T) → Is p s
        → (p' : AtomicPipe T) × (call_pipe c p ≡ ok ((call_spec c s).0, p'))
          × Is p' (call_spec c s).1
    unfolding call_pipe call_spec
    call_pipe_lem fresh (put v incomplete) p s (a, b, chunk, pos, re) =
        let (x, c', p', e, re') = write_lem n p s a b chunk pos malloc fresh v incomplete re in
        (x, rw e refl, (a, suc b, c', p', re'))
    call_pipe_lem fresh take_back p s (a, b, chunk, pos, re) =
        let (x, b', e, re') = unwrite_lem n p s a chunk pos b re in
        (x, rw e refl, (a, b', chunk, pos, re'))
    call_pipe_lem fresh let_go p s (a, b, chunk, pos, re) =
        let (e, re') = flush_lem n p s a b chunk pos re in
        ((flush p).1, ap (λ o. ok (told o, (flush p).1)) e, (a, b, chunk, pos, re'))
    call_pipe_lem fresh get p s (a, b, chunk, pos, re) =
        let (x, a', e, re') = read_lem n p s a b chunk pos re in
        (x, rw e refl, (a', b, chunk, pos, re'))

    calls_pipe_lem :
        ((l : List ℕ) → has l (malloc l) ≡ false)
        → (cs : List (Call T)) (p : AtomicPipe T) (s : Pipe T) → Is p s
        → calls_pipe cs p ≡ ok (calls_spec cs s)
    unfolding calls_pipe calls_spec
    calls_pipe_lem fresh [] p s is = refl
    calls_pipe_lem fresh (c ∷ cs) p s is =
        let (p', e, is') = call_pipe_lem fresh c p s is in
        rw (e, calls_pipe_lem fresh cs p' (call_spec c s).1 is') refl

    new_queue-IsQueue :
        (h : Heap T) → 1 ≤ n → IsQueue n (new_queue malloc h) 0 0 (λ i. malloc h.live) (λ i. 0)
    unfolding new_queue
    new_queue-IsQueue h some_slots = record {
      layout = record {
        allocated = λ i x y. ground arith;
        inside = λ i x y. some_slots;
        apart = λ i j x y z w c. omega arith;
        stays = λ i x y. absurd (omega arith);
        turns = λ i x y. absurd (omega arith);
      };
      ordered = omega arith;
      begins = refl;
      begins_at = refl;
      ends = refl;
      ends_at = refl;
      spare_live = λ s x. absurd (ground (arith, x));
      spare_apart = λ s i x. absurd (ground (arith, x));
    }

    pub new_pipe_lem :
        ((l : List ℕ) → has l (malloc l) ≡ false)
        → (h : Heap T) → 1 ≤ n
        → (p : AtomicPipe T) × (new_pipe malloc n h ≡ ok p) × Is p empty
    unfolding new_pipe
    new_pipe_lem fresh h some_slots =
        let q₀ : AtomicQueue T = new_queue malloc h in
        let p₀ : ℕ → ℕ = λ i. 0 in
        let (q, c', p', pushed) =
          push_lem malloc n q₀ 0 0 (λ i. malloc h.live) p₀ (new_queue-IsQueue h some_slots)
            (fresh q₀.heap.live) in
        let (runs, is, has_back, keeps) = pushed in
        let back : HasBack q 0 c' p' = record {
          back_at = has_back.back_at ∙ ap some (sym (keeps.chunks 0 (omega arith)));
          back_pos = has_back.back_pos ∙ sym (keeps.places 0 (omega arith));
        } in
        (
          record {
            queue = q;
            w = slot c' p' 0;
            r = slot c' p' 0;
            f = slot c' p' 0;
            c = slot c' p' 0;
          },
          rw (runs, back_place_lem 0 is back (omega arith) (omega arith)) refl,
          (
            0,
            0,
            c',
            p',
            record {
              is_queue = is;
              has_back = back;
              count = omega arith;
              flushed_first = omega arith;
              completed_first = omega arith;
              w_at = ap (slot c' p') (omega arith);
              f_at = ap (slot c' p') (omega arith);
              c_at = ap (slot c' p') (omega arith);
              asleep_empty = λ x. refl;
              r_at = inr (0, omega arith, ap (slot c' p') (omega arith));
              holds = λ i x. absurd (omega arith);
            },
          ),
        )

    -- If malloc never gives a chunk that is in use, then on a new pipe with chunks of at least one
    -- slot every sequence of calls of the writer and of the reader succeeds, with no access to a
    -- chunk that is freed or NULL, and each call returns what the promised pipe returns.
    pub calls_refine :
        ((l : List ℕ) → has l (malloc l) ≡ false)
        → (h : Heap T) (cs : List (Call T)) → 1 ≤ n
        → (new_pipe malloc n h >>= calls_pipe cs) ≡ ok (calls_spec cs empty)
    calls_refine fresh h cs some_slots =
        let (p, e, is) = new_pipe_lem fresh h some_slots in
        rw e (calls_pipe_lem fresh cs p empty is)
