-- ===== src/Dispatcher/Open.antt =====
-- The contexts of a new dispatcher of include/threading: createThreadContext gives each place once.
use supercell_common.Common.{
  put_at, put_at-here, put_at-other, ℕ, zero, suc, ◌+◌, ◌≤◌, ◌<◌, ◌≡◌, refl, sym, ap, ◌∙◌, Bool,
  true, false, Option, none, some, arith, List, Result, ok, ◌>>=◌, ltb, le→leb, lt→ltb, eq_or_ne,
  inl, inr, le→ltb,
}
use supercell_common.AtomicQueue.{Heap, has}
use supercell_common.Dispatcher.{
  Dispatcher, new_dispatcher, create_context, first_free, attach, attach_found,
}
use supercell_common.Dispatcher.Signals.{Signaler, new_signaler}
use supercell_common.Dispatcher.Mail.{no_mail}
use supercell_common.Dispatcher.Lane.{new-IsLane}
use supercell_common.Dispatcher.Network.{IsNetwork, IsMarked, IsSignalled}

module _ {ℓ} {T : Type ℓ} where
  -- So many contexts created, each at the first place that is free.
  unfoldable pub create_contexts : ℕ → Dispatcher T → Result (Dispatcher T)
  create_contexts zero d = ok d
  create_contexts (suc n) d = create_context none d >>= λ r. create_contexts n r.1

  -- The first `j` contexts are attached.
  record IsOpen (j : ℕ) (d : Dispatcher T) : Type ℓ where
    is_attached : (i : ℕ) → d.attached i ≡ ltb i j
    is_new : (i : ℕ) → i < j → d.signalers i ≡ some new_signaler

  first_free_lem :
      (n i j : ℕ) (d : Dispatcher T) → i ≤ j → j < i + n → IsOpen j d → first_free n i d ≡ some j
  unfolding first_free
  first_free_lem zero i j d x y o = absurd (omega arith)
  first_free_lem (suc n) i j d x y o = elim (eq_or_ne i j) [
    | inl e ↦ rw (o.is_attached i, le→ltb i j (omega (arith, e))) (ap some e)
    | inr ne ↦
        rw (o.is_attached i, lt→ltb i j (omega (arith, ne)))
          (first_free_lem n (i + 1) j d (omega (arith, ne)) (omega arith) o)
  ]

  attached-IsOpen :
      (j : ℕ) (d : Dispatcher T)
      → IsOpen j d
      → IsOpen (suc j) (record d {
        attached = put_at j true d.attached;
        signalers = put_at j (some new_signaler) d.signalers;
      })
  attached-IsOpen j d o = record {
    is_attached = λ i. elim (eq_or_ne i j) [
      | inl e ↦ rw e (put_at-here j true d.attached ∙ sym (lt→ltb j (suc j) (omega arith)))
      | inr ne ↦ put_at-other j i true d.attached ne ∙ o.is_attached i ∙ ground (arith, ne)
    ];
    is_new = λ i x. elim (eq_or_ne i j) [
      | inl e ↦ rw e (put_at-here j (some new_signaler) d.signalers)
      | inr ne ↦
          put_at-other j i (some new_signaler) d.signalers ne ∙ o.is_new i (omega (arith, x, ne))
    ];
  }

  attach_lem :
      (j : ℕ) (d : Dispatcher T)
      → IsOpen j d
      → attach j d
        ≡ ok (
          j,
          record d {
            attached = put_at j true d.attached;
            signalers = put_at j (some new_signaler) d.signalers;
          },
        )
  unfolding attach
  attach_lem j d o = rw (o.is_attached j, le→ltb j j (omega arith)) refl

  -- createThreadContext(-1) gives the first place that is free.
  create_context_lem :
      (j : ℕ) (d : Dispatcher T)
      → j < d.max_threads
      → IsOpen j d
      → create_context none d
        ≡ ok (
          j,
          record d {
            attached = put_at j true d.attached;
            signalers = put_at j (some new_signaler) d.signalers;
          },
        )
  unfolding create_context
  create_context_lem j d x o =
      let found = first_free_lem d.max_threads 0 j d (omega arith) (omega (arith, x)) o in
      ap (λ i. attach_found i d) found ∙ attach_lem j d o

  create_contexts_lem :
      (n j : ℕ) (d : Dispatcher T)
      → j + n ≡ d.max_threads
      → IsOpen j d
      → (f : ℕ → Option Signaler) × (a : ℕ → Bool) × (create_contexts n d
          ≡ ok (record d { attached = a; signalers = f }))
        × IsOpen d.max_threads (record d { attached = a; signalers = f })
  unfolding create_contexts
  create_contexts_lem zero j d x o =
      let e : j ≡ d.max_threads = omega (arith, x) in (d.signalers, d.attached, refl, rw e at o)
  create_contexts_lem (suc n) j d x o =
      let d' : Dispatcher T = record d {
        attached = put_at j true d.attached;
        signalers = put_at j (some new_signaler) d.signalers;
      } in
      let (f, a, run, o') =
        create_contexts_lem n (suc j) d' (omega (arith, x)) (attached-IsOpen j d o) in
      (f, a, rw (create_context_lem j d (omega (arith, x)) o) run, o')

  -- A new dispatcher with all its contexts is a network without mail.
  pub open_lem :
      (malloc : List ℕ → ℕ) (h : Heap T) (n : ℕ)
      → ((l : List ℕ) → has l (malloc l) ≡ false)
      → n ≤ 63
      → (d : Dispatcher T) × ((new_dispatcher malloc h n >>= create_contexts n) ≡ ok d)
        × (d.max_threads ≡ n)
        × IsNetwork d no_mail
        × IsSignalled d no_mail
  unfolding new_dispatcher IsSignalled IsMarked
  open_lem malloc h n fresh few =
      let (p, run, l) = new-IsLane malloc fresh h in
      let d₀ : Dispatcher T = record {
        max_threads = n;
        pipes = λ k. p;
        signalers = λ i. none;
        attached = λ i. false;
      } in
      let (f, a, run', o) = create_contexts_lem n 0 d₀ (omega arith) (record {
        is_attached = λ i. sym (le→ltb i 0 (omega arith));
        is_new = λ i x. absurd (omega arith);
      }) in
      (
        record d₀ { attached = a; signalers = f },
        rw (le→leb n 63 few, run) run',
        refl,
        record { few = few; lanes = λ i j x y. l },
        λ t y. (new_signaler, o.is_new t y, λ s x ne. absurd (ne refl)),
      )
