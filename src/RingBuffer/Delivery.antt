-- ===== src/RingBuffer/Delivery.antt =====
-- include/coro/ring_buffer.hpp: notification and shutdown, and the order of delivery in every
-- interleaving of all operations.
use libcoro.Base.{
  ℕ, ◌+◌, ◌≤◌, ◌<◌, ◌≡◌, refl, inl, inr, true, List, [], ◌∷◌, ◌++◌, append-nil, arith, ◌==◌, length,
  All, size_mod, Bool-cases,
}
use libcoro.RingBuffer.Contents.{IsValid, contents, init-IsValid}
use libcoro.RingBuffer.System.{
  System, Event, start, wake_producers, wake_consumers, step, run, produces, consumes,
  resumes_producers, resumes_consumers, notifies_producers, notifies_consumers, shuts_down,
  stops_waiters, drains,
}
use libcoro.RingBuffer.Fifo.{IsFull, Inv-waiters}
use libcoro.RingBuffer.Order.{
  SysInv, told_all-map, given_all-map, produces-Inv, consumes-Inv, resumes_producers-Inv,
  resumes_consumers-Inv,
}
use libcoro.RingBuffer.{
  Produce, Consume, RunningState, is_running, is_stopped, same_state, init, store, discard, produce,
  consume, try_resume_producers, try_resume_consumers, notify_producers, notify_consumers,
  shutdown_exchange, shutdown_waiters, shutdown_drain,
}

module _ {A : Type 0} where
  module _ (s : System A) (v : SysInv s) where
    notifies_producers-Inv : (r : RunningState) → SysInv (step s (notifies_producers r))
    unfolding step notify_producers wake_producers
    notifies_producers-Inv r = elim (Bool-cases (is_stopped r)) [
      | inl e ↦ rw (e, append-nil s.reported) v
      | inr e ↦
          rw
            (e, told_all-map Produce.notified s.rb.produce_waiters (λ p. cc), append-nil s.reported)
            (Inv-waiters [] s.rb.consume_waiters s.rb.running_state tt v.consumers v)
    ]

    notifies_consumers-Inv : (r : RunningState) → SysInv (step s (notifies_consumers r))
    unfolding step notify_consumers wake_consumers
    notifies_consumers-Inv r = elim (Bool-cases (is_stopped r)) [
      | inl e ↦ rw (e, append-nil s.delivered) v
      | inr e ↦
          rw
            (
              e,
              given_all-map Consume.notified s.rb.consume_waiters v.consumers,
              append-nil s.delivered,
            )
            (Inv-waiters s.rb.produce_waiters [] s.rb.running_state v.producers tt v)
    ]

    shuts_down-Inv : (r : RunningState) → SysInv (step s (shuts_down r))
    unfolding step shutdown_exchange
    shuts_down-Inv r = elim (Bool-cases (is_stopped r)) [
      | inl e ↦ rw e v
      | inr e ↦ elim (Bool-cases (same_state r s.rb.running_state)) [
        | inl h ↦
            rw (e, h)
              (Inv-waiters s.rb.produce_waiters s.rb.consume_waiters RunningState.stopped
                v.producers v.consumers v)
        | inr h ↦ rw (e, h) v
      ]
    ]

    stops_waiters-Inv : SysInv (step s stops_waiters)
    unfolding step shutdown_waiters wake_producers wake_consumers
    stops_waiters-Inv = elim (Bool-cases (s.stopping == 0)) [
      | inl e ↦ rw e v
      | inr e ↦
          rw
            (
              e,
              told_all-map Produce.stopped s.rb.produce_waiters (λ p. cc),
              given_all-map Consume.stopped s.rb.consume_waiters v.consumers,
              append-nil s.reported,
              append-nil s.delivered,
            )
            (Inv-waiters [] [] s.rb.running_state tt tt v)
    ]

    -- Draining keeps the order as long as no producer waits.
    drains-Inv :
        (is_running s.rb.running_state ≡ true → s.rb.produce_waiters ≡ []) → SysInv (step s drains)
    unfolding step shutdown_drain wake_producers
    drains-Inv h = elim (Bool-cases (is_running s.rb.running_state)) [
      | inl e ↦
          rw (e, h e, append-nil s.reported)
            (Inv-waiters [] s.rb.consume_waiters RunningState.draining tt v.consumers v)
      | inr e ↦ rw e v
    ]

  -- `shutdown_drain` does not meet a suspended producer.
  abbrev pub CalmStep : System A → Event A → Type 0
  CalmStep s drains = is_running s.rb.running_state ≡ true → s.rb.produce_waiters ≡ []
  CalmStep s _ = Unit {0}

  abbrev pub Calm : System A → List (Event A) → Type 0
  Calm s [] = Unit {0}
  Calm s (ev ∷ evs) = CalmStep s ev × Calm (step s ev) evs

  step-Inv :
      (s : System A) (ev : Event A)
      → SysInv s
      → s.rb.front + 1 < size_mod
      → CalmStep s ev
      → SysInv (step s ev)
  step-Inv s (produces c x) v b k = produces-Inv s v b c x
  step-Inv s (consumes c) v b k = consumes-Inv s v c
  step-Inv s resumes_producers v b k = resumes_producers-Inv s v b
  step-Inv s resumes_consumers v b k = resumes_consumers-Inv s v
  step-Inv s (notifies_producers r) v b k = notifies_producers-Inv s v r
  step-Inv s (notifies_consumers r) v b k = notifies_consumers-Inv s v r
  step-Inv s (shuts_down r) v b k = shuts_down-Inv s v r
  step-Inv s stops_waiters v b k = stops_waiters-Inv s v
  step-Inv s drains v b k = drains-Inv s v k

  -- A critical section fills one slot at most.
  front-step : (s : System A) (ev : Event A) → (step s ev).rb.front ≤ s.rb.front + 1
  unfolding step produce consume try_resume_producers try_resume_consumers notify_producers
      notify_consumers shutdown_exchange shutdown_waiters shutdown_drain wake_producers
      wake_consumers store discard
  front-step s (produces c x) = ground arith
  front-step s (consumes c) = ground arith
  front-step s resumes_producers = ground arith
  front-step s resumes_consumers = ground arith
  front-step s (notifies_producers r) = ground arith
  front-step s (notifies_consumers r) = ground arith
  front-step s (shuts_down r) = ground arith
  front-step s stops_waiters = ground arith
  front-step s drains = ground arith

  run-Inv :
      (s : System A) (evs : List (Event A))
      → SysInv s
      → s.rb.front + length evs < size_mod
      → Calm s evs
      → SysInv (run s evs)
  unfolding run
  run-Inv s [] v b k = v
  run-Inv s (ev ∷ evs) v b k =
      run-Inv (step s ev) evs (step-Inv s ev v (omega arith) k.0) (omega (arith, front-step s ev))
        k.1

  start-Inv : (n : ℕ) → 0 < n → n < size_mod → SysInv (start {A = A} n)
  unfolding start init
  start-Inv n p q = record {
    valid = init-IsValid n p q;
    full = tt;
    producers = tt;
    consumers = tt;
    fifo = refl;
  }

  -- For a capacity between 1 and 2 ^ 64 - 1, any interleaving of fewer than 2 ^ 64 critical sections
  -- in which `shutdown_drain` never meets a suspended producer: the elements for which `produce` has
  -- returned `produced` are, in that order, those that `consume` has returned and then those that are
  -- in the buffer, whose slots are all filled; and the representation is valid.
  pub run_delivers :
      (n : ℕ) (evs : List (Event A))
      → 0 < n
      → n < size_mod
      → length evs < size_mod
      → Calm (start n) evs
      → let s = run (start n) evs in
        (s.reported ≡ s.delivered ++ contents s.rb) × All IsFull (contents s.rb) × IsValid s.rb
  unfolding start init
  run_delivers n evs p q b k =
      let v : SysInv (run (start n) evs) =
        run-Inv (start n) evs (start-Inv n p q) (omega arith) k in
      (v.fifo, v.full, v.valid)
