-- ===== src/AtomicPipe/Write.antt =====
-- write() of AtomicPipe in include/core/AtomicQueue.h.
use supercell_common.Common.{
  ℕ, suc, ◌+◌, ◌-◌, ◌≤◌, ◌<◌, ◌≡◌, refl, sym, ap, ◌∙◌, Bool, true, false, none, some, arith, List,
  [], ◌∷◌, ◌++◌, length, get_elem?, if◌then◌else◌, ok, inl, inr, lt_or_le, get_elem?-append,
  get_elem?-append_end, length-append,
}
use supercell_common.AtomicQueue.{AtomicQueue, has}
use supercell_common.AtomicQueue.Layout.{IsQueue, HasBack, value}
use supercell_common.AtomicQueue.Push.{Keeps, push_lem}
use supercell_common.AtomicQueue.Slots.{
  put_at, set_back-ok, put_at-IsQueue, value-put_at, value-put_at_other,
}
use supercell_common.AtomicPipe.{Place, AtomicPipe, write}
use supercell_common.AtomicPipe.Spec.{Pipe, written}
use supercell_common.AtomicPipe.Relation.{slot, Represents, back_place_lem}

module _ {ℓ} {T : Type ℓ} (n : ℕ) (p : AtomicPipe T) (s : Pipe T) (a b : ℕ)
    (chunk pos : ℕ → ℕ) where
  -- The pipe after a write, with the queue `q'`.
  abbrev wrote : Bool → Place → AtomicQueue T → AtomicPipe T
  wrote incomplete last q' = record p { queue = q'; f = if incomplete then p.f else last }

  module _ (v : T) (incomplete : Bool) (q' : AtomicQueue T) (c' p' : ℕ → ℕ) where
    abbrev put : AtomicQueue T
    put = put_at n p.queue a (suc b) chunk pos (chunk b) (pos b) v

    slots_kept :
        Keeps (suc b) put q' chunk pos c' p' → (i : ℕ) → i ≤ suc b → slot chunk pos i ≡ slot c' p' i
    slots_kept keeps i h = ground (arith, keeps.chunks i h, keeps.places i h)

    values_kept :
        Keeps (suc b) put q' chunk pos c' p'
        → (i : ℕ) → i ≤ suc b
        → value put chunk pos i ≡ value q' c' p' i
    values_kept keeps i h = sym (
        ap (λ x. x (c' i) (p' i)) keeps.all_values
        ∙ ap (λ x. put.heap.values x (p' i)) (keeps.chunks i h)
        ∙ ap (put.heap.values (chunk i)) (keeps.places i h))

    wrote-holds :
        Represents n p s a b chunk pos
        → Keeps (suc b) put q' chunk pos c' p'
        → (i : ℕ) → i < length (s.items ++ (v ∷ []))
        → get_elem? (s.items ++ (v ∷ [])) i ≡ some (value q' c' p' (a + i))
    wrote-holds re keeps i h =
        let size : length (s.items ++ (v ∷ [])) ≡ length s.items + 1 =
          length-append s.items (v ∷ []) in
        elim (lt_or_le i (length s.items)) [
          | inl old ↦
              get_elem?-append s.items (v ∷ []) i old
              ∙ re.holds i old
              ∙ ap some (
                  sym (
                    value-put_at_other n p.queue a (suc b) chunk pos v b (a + i) re.is_queue
                      (omega (arith, re.count)) (omega arith) (omega arith)
                      (omega (arith, re.count)) (omega (arith, re.count)))
                  ∙ values_kept keeps (a + i) (omega (arith, re.count)))
          | inr new ↦
              let here : a + i ≡ b = omega (arith, re.count) in
              let zeroth : i - length s.items ≡ 0 = omega arith in
              get_elem?-append_end s.items (v ∷ []) i new
              ∙ ap (get_elem? (v ∷ [])) zeroth
              ∙ ap some (
                  sym (value-put_at n p.queue a (suc b) chunk pos v b)
                  ∙ values_kept keeps b (omega arith)
                  ∙ ap (value q' c' p') (sym here))
        ]

    wrote-f_at :
        Represents n p s a b chunk pos
        → Keeps (suc b) put q' chunk pos c' p'
        → (if incomplete then p.f else slot c' p' (suc b))
          ≡ slot c' p' (a + (if incomplete then s.completed else length s.items + 1))
    wrote-f_at re keeps =
        elim incomplete
          as (λ z.
            (if z then p.f else slot c' p' (suc b))
            ≡ slot c' p' (a + (if z then s.completed else length s.items + 1))) [
              | true ↦
                  re.f_at
                  ∙ slots_kept keeps (a + s.completed) (omega (arith, re.count, re.completed_first))
              | false ↦ ap (slot c' p') (omega (arith, re.count))
            ]

    wrote-Represents :
        Represents n p s a b chunk pos
        → Keeps (suc b) put q' chunk pos c' p'
        → IsQueue n q' a (suc (suc b)) c' p'
        → HasBack q' (suc b) chunk pos
        → Represents n
            (wrote incomplete (slot c' p' (suc b)) q')
            (written v incomplete s)
            a
            (suc b)
            c'
            p'
    unfolding written
    wrote-Represents re keeps is has =
        let size : length (s.items ++ (v ∷ [])) ≡ length s.items + 1 =
          length-append s.items (v ∷ []) in
        record {
          is_queue = is;
          has_back = record {
            back_at = has.back_at ∙ ap some (sym (keeps.chunks (suc b) (omega arith)));
            back_pos = has.back_pos ∙ sym (keeps.places (suc b) (omega arith));
          };
          count = omega (arith, re.count);
          flushed_first = ground (arith, re.flushed_first, re.completed_first);
          completed_first = ground (arith, size, re.completed_first);
          w_at =
              re.w_at
              ∙ slots_kept keeps (a + s.flushed)
                  (omega (arith, re.count, re.flushed_first, re.completed_first));
          f_at = wrote-f_at re keeps;
          c_at =
              re.c_at
              ∙ ap (λ x. if s.asleep then none else x)
                  (slots_kept keeps (a + s.flushed)
                    (omega (arith, re.count, re.flushed_first, re.completed_first)));
          asleep_empty = re.asleep_empty;
          r_at = elim re.r_at [
            | inl e ↦ inl e
            | inr (k, le, e) ↦ inr (
              k,
              le,
              e
                  ∙ slots_kept keeps (a + k)
                      (omega (arith, re.count, re.flushed_first, re.completed_first)),
            )
          ];
          holds = wrote-holds re keeps;
        }

  -- write() of a pipe leaves a pipe that represents what the promised pipe is after it.
  pub write_lem :
      (malloc : List ℕ → ℕ)
      → ((l : List ℕ) → has l (malloc l) ≡ false)
      → (v : T) (incomplete : Bool) → Represents n p s a b chunk pos
      → (x : AtomicPipe T) × (c' : ℕ → ℕ) × (p' : ℕ → ℕ) × (write malloc n v incomplete p ≡ ok x)
        × Represents n x (written v incomplete s) a (suc b) c' p'
  unfolding write
  write_lem malloc fresh v incomplete re =
      let here : a ≤ b = omega (arith, re.count) in
      let q₁ : AtomicQueue T = put_at n p.queue a (suc b) chunk pos (chunk b) (pos b) v in
      let is₁ : IsQueue n q₁ a (suc b) chunk pos =
        put_at-IsQueue n p.queue a (suc b) chunk pos (chunk b) (pos b) v re.is_queue in
      let (q', c', p', pushed) =
        push_lem malloc n q₁ a (suc b) chunk pos is₁ (fresh q₁.heap.live) in
      let (runs, is, has, keeps) = pushed in
      let re' = wrote-Represents v incomplete q' c' p' re keeps is has in
      (
        wrote incomplete (slot c' p' (suc b)) q',
        c',
        p',
        rw
            (
              set_back-ok n p.queue a (suc b) chunk pos v b re.is_queue re.has_back here
                  (omega arith),
              runs,
              back_place_lem (suc b) is re'.has_back (omega arith) (omega arith),
            )
            refl,
        re',
      )
