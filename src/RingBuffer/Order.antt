-- ===== src/RingBuffer/Order.antt =====
-- include/coro/ring_buffer.hpp: the invariant along every interleaving.
use libcoro.Base.{
  ℕ, ◌+◌, ◌<◌, ◌≡◌, ◌≢◌, refl, inl, inr, Option, some, List, [], ◌∷◌, ◌++◌, map, append-nil, arith,
  ltb, ◌==◌, All, size_mod, Bool-cases,
}
use libcoro.RingBuffer.System.{
  System, told_all, given_all, wake_producers, wake_consumers, after_producer, after_consumer, step,
  produces, consumes, resumes_producers, resumes_consumers,
}
use libcoro.RingBuffer.Fifo.{Waits, IsEmpty, Inv, Inv-waiters, Inv-store, Inv-discard}
use libcoro.RingBuffer.{
  Produce, Consume, is_running, is_stopped, ProduceOperation, ConsumeOperation, RingBuffer, oldest,
  produce_operation, consume_operation, produce, consume, consume_resume, try_resume_producers,
  resume_producer, resume_consumer, try_resume_consumers, produce_result, consume_result,
}

module _ {A : Type 0} where
  abbrev pub SysInv : System A → Type 0
  SysInv s = Inv s.rb s.reported s.delivered

  -- Operations with a result other than `produced` report nothing; emptied ones deliver nothing.
  pub told_all-map :
      (r : Produce) (ops : List (ProduceOperation A))
      → r ≢ Produce.produced
      → told_all (map (produce_result r) ops) ≡ []
  told_all-map Produce.produced ops h = absurd (h refl)
  told_all-map Produce.notified [] h = refl
  told_all-map Produce.notified (op ∷ ops) h = told_all-map Produce.notified ops h
  told_all-map Produce.stopped [] h = refl
  told_all-map Produce.stopped (op ∷ ops) h = told_all-map Produce.stopped ops h

  pub given_all-map :
      (r : Consume) (ops : List (ConsumeOperation A))
      → All IsEmpty ops
      → given_all (map (consume_result r) ops) ≡ []
  unfolding consume_resume
  given_all-map r [] h = refl
  given_all-map r (op ∷ ops) h = rw (h.0) (given_all-map r ops h.1)

  module _ (s : System A) (v : SysInv s) where
    -- Nothing is reported or delivered, and the buffer keeps its elements.
    pub quiet :
        {rb : RingBuffer A} {r d : List (Option A)}
        → Inv rb s.reported s.delivered
        → r ≡ []
        → d ≡ []
        → Inv rb (s.reported ++ r) (s.delivered ++ d)
    quiet w e f = rw (e, f, append-nil s.reported, append-nil s.delivered) w

    pub produces-Inv : s.rb.front + 1 < size_mod → (c : ℕ) (x : A) → SysInv (step s (produces c x))
    unfolding step produce
    produces-Inv b c x = elim (Bool-cases (is_running s.rb.running_state)) [
      | inl e ↦ elim (Bool-cases (ltb s.rb.used s.rb.num_elements)) [
        | inl h ↦ rw (e, h) (Inv-store (some x) v (ground arith) b (x, refl))
        | inr h ↦
            rw (e, h)
              (Inv-waiters (produce_operation c x ∷ s.rb.produce_waiters) s.rb.consume_waiters
                s.rb.running_state ((refl, (x, refl)), v.producers) v.consumers v)
      ]
      | inr e ↦ rw (e, append-nil s.reported) v
    ]

    pub consumes-Inv : (c : ℕ) → SysInv (step s (consumes c))
    unfolding step consume wake_consumers consume_resume
    consumes-Inv c = elim (Bool-cases (is_stopped s.rb.running_state)) [
      | inl e ↦ rw (e, append-nil s.delivered) v
      | inr e ↦ elim (Bool-cases (ltb 0 s.rb.used)) [
        | inl h ↦ rw (e, h) (Inv-discard (consume_operation c) v (ground arith))
        | inr h ↦
            rw (e, h)
              (Inv-waiters s.rb.produce_waiters (consume_operation c ∷ s.rb.consume_waiters)
                s.rb.running_state v.producers (refl, v.consumers) v)
      ]
    ]

    resume_producer-Inv :
        (ops : List (ProduceOperation A))
        → s.rb.front + 1 < size_mod
        → s.rb.used < s.rb.num_elements
        → All Waits ops
        → s.rb.produce_waiters ≡ ops
        → SysInv (after_producer s (resume_producer s.rb ops))
    unfolding resume_producer wake_producers
    resume_producer-Inv [] b h w e = v
    resume_producer-Inv (op ∷ ops) b h w e = rw (w.0.0) (
        Inv-store op.e (Inv-waiters ops s.rb.consume_waiters s.rb.running_state w.1 v.consumers v) h
          b w.0.1)

    pub resumes_producers-Inv : s.rb.front + 1 < size_mod → SysInv (step s resumes_producers)
    unfolding step try_resume_producers
    resumes_producers-Inv b = elim (Bool-cases (s.resuming_producers == 0)) [
      | inl z ↦ rw z v
      | inr z ↦ elim (Bool-cases (ltb s.rb.used s.rb.num_elements)) [
        | inl h ↦
            rw (z, h) (resume_producer-Inv s.rb.produce_waiters b (ground arith) v.producers refl)
        | inr h ↦ rw (z, h) v
      ]
    ]

    resume_consumer-Inv :
        (ops : List (ConsumeOperation A))
        → 0 < s.rb.used
        → All IsEmpty ops
        → SysInv (after_consumer s (resume_consumer s.rb ops))
    unfolding resume_consumer wake_consumers oldest
    resume_consumer-Inv [] h w = v
    resume_consumer-Inv (op ∷ ops) h w =
        Inv-discard op (Inv-waiters s.rb.produce_waiters ops s.rb.running_state v.producers w.1 v) h

    pub resumes_consumers-Inv : SysInv (step s resumes_consumers)
    unfolding step try_resume_consumers
    resumes_consumers-Inv = elim (Bool-cases (s.resuming_consumers == 0)) [
      | inl z ↦ rw z v
      | inr z ↦ elim (Bool-cases (ltb 0 s.rb.used)) [
        | inl h ↦ rw (z, h) (resume_consumer-Inv s.rb.consume_waiters (ground arith) v.consumers)
        | inr h ↦ rw (z, h) v
      ]
    ]
