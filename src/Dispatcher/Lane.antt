-- ===== src/Dispatcher/Lane.antt =====
-- The pipe between two threads of the dispatcher in include/threading: the messages that are ready
-- in it and those that are held.
use supercell_common.Common.{
  ℕ, suc, ◌+◌, ◌≡◌, refl, sym, ap, ◌∙◌, true, false, arith, List, [], ◌∷◌, ◌++◌, length, get_elem?,
  length-append, append_assoc, append-nil, ok,
}
use supercell_common.AtomicQueue.{has, Heap}
use supercell_common.AtomicPipe.{AtomicPipe, write, flush, read, new_pipe}
use supercell_common.AtomicPipe.Spec.{
  Pipe, written, flushed_out, taken, taken-some, taken-none, tail, flushed_out_all, empty,
}
use supercell_common.AtomicPipe.Relation.{Represents}
use supercell_common.AtomicPipe.Write.{write_lem}
use supercell_common.AtomicPipe.Flush.{flush_lem}
use supercell_common.AtomicPipe.Reader.{read_lem}
use supercell_common.AtomicPipe.Refine.{new_pipe_lem}
use supercell_common.Dispatcher.{chunk_size}

module _ {ℓ} {T : Type ℓ} where
  -- The pipe represents the promised pipe `s`, with some slots.
  abbrev pub Shows : AtomicPipe T → Pipe T → Type ℓ
  Shows p s =
      (a : ℕ) × (b : ℕ) × (chunk : ℕ → ℕ) × (pos : ℕ → ℕ) × Represents chunk_size p s a b chunk pos

  pub record IsLane (p : AtomicPipe T) (xs ys : List T) : Type ℓ where
    pub pipe : Pipe T
    pub shows : Shows p pipe
    pub items_are : pipe.items ≡ xs ++ ys
    pub flushed_is : pipe.flushed ≡ length xs
    pub completed_is : pipe.completed ≡ length xs

  -- read() gives the first ready message, which is gone then.
  pub read-IsLane :
      (p : AtomicPipe T) (xs ys : List T)
      → IsLane p xs ys
      → (p' : AtomicPipe T) × (read chunk_size p ≡ ok (get_elem? xs 0, p')) × IsLane p' (tail xs) ys
  unfolding tail
  read-IsLane p [] ys l =
      let (a, b, c, r, re) = l.shows in
      let (p', a', run, re') = read_lem chunk_size p l.pipe a b c r re in
      let e = taken-none l.pipe l.flushed_is in
      (
        p',
        run ∙ ap (λ t. ok (t.0, p')) e,
        record {
          pipe = (taken l.pipe).1;
          shows = (a', b, c, r, re');
          items_are = ap (λ t. t.1.items) e ∙ l.items_are;
          flushed_is = ap (λ t. t.1.flushed) e ∙ l.flushed_is;
          completed_is = ap (λ t. t.1.completed) e ∙ l.completed_is;
        },
      )
  read-IsLane p (v ∷ vs) ys l =
      let (a, b, c, r, re) = l.shows in
      let (p', a', run, re') = read_lem chunk_size p l.pipe a b c r re in
      let e = taken-some l.pipe (λ z. absurd (omega (arith, z, l.flushed_is))) in
      (
        p',
        run ∙ ap (λ t. ok (t.0, p')) e ∙ ap (λ t. ok (get_elem? t 0, p')) l.items_are,
        record {
          pipe = (taken l.pipe).1;
          shows = (a', b, c, r, re');
          items_are = ap (λ t. t.1.items) e ∙ ap tail l.items_are;
          flushed_is = ap (λ t. t.1.flushed) e ∙ omega (arith, l.flushed_is);
          completed_is = ap (λ t. t.1.completed) e ∙ omega (arith, l.completed_is);
        },
      )

  module _ (malloc : List ℕ → ℕ) (fresh : (l : List ℕ) → has l (malloc l) ≡ false) where
    -- write() of a message that is not complete holds it.
    pub hold-IsLane :
        (p : AtomicPipe T) (xs ys : List T) (v : T)
        → IsLane p xs ys
        → (p' : AtomicPipe T) × (write malloc chunk_size v true p ≡ ok p')
          × IsLane p' xs (ys ++ (v ∷ []))
    unfolding written
    hold-IsLane p xs ys v l =
        let (a, b, c, r, re) = l.shows in
        let (p', c', r', run, re') = write_lem chunk_size p l.pipe a b c r malloc fresh v true re in
        (
          p',
          run,
          record {
            pipe = written v true l.pipe;
            shows = (a, suc b, c', r', re');
            items_are = ap (λ t. t ++ (v ∷ [])) l.items_are ∙ append_assoc xs ys (v ∷ []);
            flushed_is = l.flushed_is;
            completed_is = l.completed_is;
          },
        )

    -- write() of a complete message and flush() make it ready, with all that are held.
    pub send-IsLane :
        (p : AtomicPipe T) (xs ys : List T) (v : T)
        → IsLane p xs ys
        → (p' : AtomicPipe T) × (write malloc chunk_size v false p ≡ ok p')
          × IsLane (flush p').1 (xs ++ (ys ++ (v ∷ []))) []
    unfolding written
    send-IsLane p xs ys v l =
        let (a, b, c, r, re) = l.shows in
        let (p', c', r', run, re') =
          write_lem chunk_size p l.pipe a b c r malloc fresh v false re in
        let s = written v false l.pipe in
        let (items_kept, flushed_all, completed_kept) = flushed_out_all s in
        let all : (xs ++ (ys ++ (v ∷ []))) ++ [] ≡ (xs ++ ys) ++ (v ∷ []) =
          append-nil (xs ++ (ys ++ (v ∷ []))) ∙ sym (append_assoc xs ys (v ∷ [])) in
        let count : length l.pipe.items + 1 ≡ length (xs ++ (ys ++ (v ∷ []))) =
          ap (λ t. length t + 1) l.items_are
          ∙ sym (length-append (xs ++ ys) (v ∷ []))
          ∙ ap length (append_assoc xs ys (v ∷ [])) in
        let (told, re'') = flush_lem chunk_size p' s a (suc b) c' r' re' in
        (
          p',
          run,
          record {
            pipe = (flushed_out s).1;
            shows = (a, suc b, c', r', re'');
            items_are = items_kept ∙ ap (λ t. t ++ (v ∷ [])) l.items_are ∙ sym all;
            flushed_is = flushed_all ∙ count;
            completed_is = completed_kept ∙ count;
          },
        )

    pub new-IsLane :
        (h : Heap T) → (p : AtomicPipe T) × (new_pipe malloc chunk_size h ≡ ok p) × IsLane p [] []
    new-IsLane h =
        let (p, run, (a, b, c, r, re)) = new_pipe_lem malloc chunk_size fresh h (omega arith) in
        (
          p,
          run,
          record {
            pipe = empty;
            shows = (a, b, c, r, re);
            items_are = refl;
            flushed_is = refl;
            completed_is = refl;
          },
        )
