-- ===== src/AtomicPipe/Reader.antt =====
-- read() of AtomicPipe in include/core/AtomicQueue.h gives the first flushed value.
use native.Mathlib.Nat.{le_refl}
use supercell_common.Common.{
  ℕ, zero, suc, ◌+◌, ◌-◌, ◌≤◌, ◌<◌, ◌≡◌, ◌≢◌, refl, sym, ap, ◌∙◌, true, false, Option, none, some,
  arith, ◌⊎◌, get_elem?, ◌==◌, ◌&&◌, not, if◌then◌else◌, Result, ok, inl, inr, eq_or_ne, eq→==,
  ne→ne, Bool-cases,
}
use supercell_common.AtomicQueue.{AtomicQueue, pop}
use supercell_common.AtomicQueue.Layout.{Reaches, value}
use supercell_common.AtomicQueue.Pop.{pop_lem}
use supercell_common.AtomicQueue.Slots.{front_lem}
use supercell_common.AtomicPipe.{
  AtomicPipe, same_place, is_null, swapped_in, check_at, check_read, take_front, read,
}
use supercell_common.AtomicPipe.Spec.{
  Pipe, taken, rest, length-tail, get_elem?-tail, taken-some, taken-none,
}
use supercell_common.AtomicPipe.Relation.{slot, Represents, same_place-slot, front_place_lem}

module _ {ℓ} {T : Type ℓ} (n : ℕ) (p : AtomicPipe T) (s : Pipe T) (a b : ℕ)
    (chunk pos : ℕ → ℕ) where
  -- The pipe after a check that looks at the shared pointer.
  abbrev looked : AtomicPipe T
  looked = record p { r = p.c; c = swapped_in none (slot chunk pos a) p.c }

  -- The reader has seen values that it has not read.
  check_at-seen :
      (k : ℕ)
      → Represents n p s a b chunk pos
      → p.r ≡ slot chunk pos (a + suc k)
      → k < s.flushed
      → check_at (slot chunk pos a) p ≡ (true, p)
  unfolding check_at is_null
  check_at-seen k re e less = ground (
    arith,
    e,
    same_place-slot a (a + suc k) re.is_queue.layout,
    re.count,
    re.flushed_first,
    re.completed_first,
  )

  -- The reader has not seen any.
  Unseen : Type 0
  Unseen = (p.r ≡ none) ⊎ (p.r ≡ slot chunk pos a)

  nothing_seen : Unseen → (not (same_place (slot chunk pos a) p.r) && not (is_null p.r)) ≡ false
  unfolding Unseen is_null same_place
  nothing_seen (inl e) = ground (arith, e)
  nothing_seen (inr e) = ground (arith, e)

  -- The shared pointer is neither NULL nor that of the front just if something is flushed.
  shared :
      Represents n p s a b chunk pos
      → (not (same_place (slot chunk pos a) p.c) && not (is_null p.c)) ≡ not (s.flushed == 0)
  unfolding is_null
  shared re = elim (Bool-cases s.asleep) [
    | inl z ↦ ground (arith, z, re.c_at, re.asleep_empty z)
    | inr z ↦ ground (
      arith,
      z,
      re.c_at,
      same_place-slot a (a + s.flushed) re.is_queue.layout,
      re.count,
      re.flushed_first,
      re.completed_first,
    )
  ]

  check_at-look :
      Represents n p s a b chunk pos
      → Unseen
      → check_at (slot chunk pos a) p ≡ (not (s.flushed == 0), looked)
  unfolding check_at
  check_at-look re u = rw (nothing_seen u, shared re) refl

  -- What the shared pointer is after the check.
  swapped :
      Represents n p s a b chunk pos
      → swapped_in none (slot chunk pos a) p.c
        ≡ (if s.flushed == 0 then none else slot chunk pos (a + s.flushed))
  unfolding swapped_in same_place
  swapped re = elim (Bool-cases s.asleep) [
    | inl z ↦ ground (arith, z, re.c_at, re.asleep_empty z)
    | inr z ↦ ground (
      arith,
      z,
      re.c_at,
      re.is_queue.layout.apart a (a + s.flushed),
      re.count,
      re.flushed_first,
      re.completed_first,
    )
  ]

  -- What the reader's pointer is after the check.
  seen :
      Represents n p s a b chunk pos
      → (p.c ≡ none) ⊎ ((k : ℕ) × (k ≤ s.flushed) × (p.c ≡ slot chunk pos (a + k)))
  seen re = elim (Bool-cases s.asleep) [
    | inl z ↦ inl (ground (arith, z, re.c_at))
    | inr z ↦ inr (s.flushed, le_refl s.flushed, ground (arith, z, re.c_at))
  ]

  -- After a check that finds nothing flushed the reader sleeps.
  slept :
      Represents n p s a b chunk pos
      → s.flushed ≡ 0
      → Represents n looked (record s { asleep = true }) a b chunk pos
  slept re z = record {
    is_queue = re.is_queue;
    has_back = re.has_back;
    count = re.count;
    flushed_first = re.flushed_first;
    completed_first = re.completed_first;
    w_at = re.w_at;
    f_at = re.f_at;
    c_at = ground (arith, z, swapped re);
    asleep_empty = λ h. z;
    r_at = seen re;
    holds = re.holds;
  }

  -- Else it has seen all that is flushed.
  awake : Represents n p s a b chunk pos → s.flushed ≢ 0 → s.asleep ≡ false
  awake re ne = elim (Bool-cases s.asleep) [ inl z ↦ absurd (ne (re.asleep_empty z)) | inr z ↦ z ]

  woke : Represents n p s a b chunk pos → s.flushed ≢ 0 → Represents n looked s a b chunk pos
  woke re ne = record {
    is_queue = re.is_queue;
    has_back = re.has_back;
    count = re.count;
    flushed_first = re.flushed_first;
    completed_first = re.completed_first;
    w_at = re.w_at;
    f_at = re.f_at;
    c_at = ground (arith, awake re ne, swapped re, ne);
    asleep_empty = re.asleep_empty;
    r_at = seen re;
    holds = re.holds;
  }

  rest-Represents :
      (q : AtomicQueue T) (k : ℕ)
      → Represents n p s a b chunk pos
      → p.r ≡ slot chunk pos (a + suc k)
      → k < s.flushed
      → Reaches n (pop n p.queue) p.queue q (suc a) (suc b) chunk pos
      → Represents n (record p { queue = q }) (rest s) (suc a) b chunk pos
  rest-Represents q k re e less got =
      let ne : s.flushed ≢ 0 = omega arith in
      let at : a + s.flushed ≡ suc a + (s.flushed - 1) = omega arith in
      record {
        is_queue = got.is_queue;
        has_back = record {
          back_at = got.same_back ∙ re.has_back.back_at;
          back_pos = got.same_back_pos ∙ re.has_back.back_pos;
        };
        count = omega (arith, re.count, length-tail s.items, re.flushed_first, re.completed_first);
        flushed_first = omega (arith, re.flushed_first);
        completed_first = omega (arith, re.completed_first, length-tail s.items);
        w_at = re.w_at ∙ ap (slot chunk pos) at;
        f_at = re.f_at ∙ ap (slot chunk pos) (omega (arith, re.flushed_first));
        c_at = re.c_at ∙ ap (λ i. if s.asleep then none else slot chunk pos i) at;
        asleep_empty = λ h. absurd (ne (re.asleep_empty h));
        r_at = inr (k, omega arith, e ∙ ap (slot chunk pos) (omega arith));
        holds = λ i h.
            get_elem?-tail s.items i
            ∙ re.holds (suc i) (omega (arith, length-tail s.items))
            ∙ ap some (
                ap (value p.queue chunk pos) (omega arith)
                ∙ ap (λ v. v (chunk (suc a + i)) (pos (suc a + i))) (sym got.same_values));
      }

  -- What a read of a flushed value gives.
  TakesFirst : Result (Option T × AtomicPipe T) → Type ℓ
  TakesFirst x =
      (p' : AtomicPipe T) × (x ≡ ok ((taken s).0, p'))
      × Represents n p' (taken s).1 (suc a) b chunk pos

  take_front_lem :
      (k : ℕ)
      → Represents n p s a b chunk pos
      → p.r ≡ slot chunk pos (a + suc k)
      → k < s.flushed
      → TakesFirst (take_front n (true, p))
  unfolding TakesFirst take_front
  take_front_lem k re e less =
      let (q, got) = pop_lem n p.queue a (suc b) chunk pos re.is_queue (omega (arith, re.count)) in
      let ne : s.flushed ≢ 0 = omega arith in
      let first : get_elem? s.items 0 ≡ some (value p.queue chunk pos a) =
        re.holds 0 (omega (arith, re.flushed_first, re.completed_first))
        ∙ ap (λ i. some (value p.queue chunk pos i)) (omega arith) in
      (
        record p { queue = q },
        rw (front_lem n p.queue a (suc b) chunk pos re.is_queue, got.runs, taken-some s ne, first)
            refl,
        rw (taken-some s ne) (rest-Represents q k re e less got),
      )

  read-seen :
      (k : ℕ)
      → Represents n p s a b chunk pos
      → p.r ≡ slot chunk pos (a + suc k)
      → k < s.flushed
      → TakesFirst (read n p)
  unfolding read check_read
  read-seen k re e less =
      rw (front_place_lem re.is_queue, check_at-seen k re e less) (take_front_lem k re e less)

module _ {ℓ} {T : Type ℓ} (n : ℕ) (p : AtomicPipe T) (s : Pipe T) (a b : ℕ)
    (chunk pos : ℕ → ℕ) where
  read-unseen :
      Represents n p s a b chunk pos
      → Unseen n p s a b chunk pos
      → (p' : AtomicPipe T) × (a' : ℕ) × (read n p ≡ ok ((taken s).0, p'))
        × Represents n p' (taken s).1 a' b chunk pos
  unfolding read check_read TakesFirst take_front
  read-unseen re u = elim (eq_or_ne s.flushed 0) [
    | inl z ↦ (
      looked n p s a b chunk pos,
      a,
      rw
          (
            front_place_lem re.is_queue,
            check_at-look n p s a b chunk pos re u,
            eq→== s.flushed 0 z,
            taken-none s z,
          )
          refl,
      rw (taken-none s z) (slept n p s a b chunk pos re z),
    )
    | inr ne ↦
        let not_asleep : s.asleep ≡ false = awake n p s a b chunk pos re ne in
        let all_seen : p.c ≡ slot chunk pos (a + suc (s.flushed - 1)) =
          re.c_at
          ∙ ap (λ z. if z then none else slot chunk pos (a + s.flushed)) not_asleep
          ∙ ap (slot chunk pos) (omega arith) in
        let (p', e, re') =
          take_front_lem n (looked n p s a b chunk pos) s a b chunk pos (s.flushed - 1)
            (woke n p s a b chunk pos re ne) all_seen (omega arith) in
        (
          p',
          suc a,
          rw
              (
                front_place_lem re.is_queue,
                check_at-look n p s a b chunk pos re u,
                ne→ne s.flushed 0 ne,
              )
              e,
          re',
        )
  ]

  -- read() of a pipe gives what the promised pipe gives, and leaves a pipe that represents it.
  pub read_lem :
      Represents n p s a b chunk pos
      → (p' : AtomicPipe T) × (a' : ℕ) × (read n p ≡ ok ((taken s).0, p'))
        × Represents n p' (taken s).1 a' b chunk pos
  unfolding Unseen TakesFirst
  read_lem re = elim re.r_at [
    | inl e ↦ read-unseen re (inl e)
    | inr (zero, le, e) ↦ read-unseen re (inr (e ∙ ap (slot chunk pos) (omega arith)))
    | inr (suc k, le, e) ↦
        let (p', run, re') = read-seen n p s a b chunk pos k re e le in (p', suc a, run, re')
  ]
