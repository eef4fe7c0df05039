-- ===== src/RingBuffer/System.antt =====
-- include/coro/ring_buffer.hpp: a ring buffer with its callers. An event is one critical section of
-- one task, so a list of events is an interleaving. A task that has left `co_await` with a result
-- goes on to `try_resume_consumers` (a producer) or `try_resume_producers` (a consumer); the number
-- of tasks in each of these loops is part of the state. What the tasks are told is logged.
use libcoro.Base.{ℕ, ◌+◌, ◌-◌, Option, none, some, List, [], ◌∷◌, ◌++◌, ◌==◌, if◌then◌else◌, length}
use libcoro.RingBuffer.{
  Produce, Expected, value, unexpected, RunningState, ProduceOperation, ConsumeOperation,
  RingBuffer, init, produce, consume, consume_resume, try_resume_producers, try_resume_consumers,
  notify_producers, notify_consumers, shutdown_exchange, shutdown_waiters, shutdown_drain,
}

pub record System (A : Type 0) : Type 0 where
  pub rb : RingBuffer A
  pub resuming_consumers : ℕ
  pub resuming_producers : ℕ
  -- the `shutdown` calls between their two critical sections
  pub stopping : ℕ
  -- the elements whose `produce` has returned `produced`, and those that `consume` has returned
  pub reported : List (Option A)
  pub delivered : List (Option A)

pub data Event (A : Type 0) : Type 0 where
  produces : ℕ → A → Event A
  consumes : ℕ → Event A
  resumes_producers : Event A
  resumes_consumers : Event A
  -- with the running state that the call loaded before it took the lock
  notifies_producers : RunningState → Event A
  notifies_consumers : RunningState → Event A
  shuts_down : RunningState → Event A
  stops_waiters : Event A
  drains : Event A

module _ {A : Type 0} where
  unfoldable pub start : ℕ → System A
  start n = record {
    rb = init n;
    resuming_consumers = 0;
    resuming_producers = 0;
    stopping = 0;
    reported = [];
    delivered = [];
  }

  -- The log of a `produce` that returns the given result.
  abbrev pub told : Produce → Option A → List (Option A)
  told Produce.produced e = e ∷ []
  told _ e = []

  abbrev pub told_all : List (ProduceOperation A) → List (Option A)
  told_all [] = []
  told_all (op ∷ ops) = told op.result op.e ++ told_all ops

  abbrev pub given : Expected A → List (Option A)
  given (value x) = some x ∷ []
  given (unexpected r) = []

  abbrev pub given_all : List (ConsumeOperation A) → List (Option A)
  given_all [] = []
  given_all (op ∷ ops) = given (consume_resume op) ++ given_all ops

  -- Producers that are resumed return their result and go on to `try_resume_consumers`.
  unfoldable pub wake_producers : List (ProduceOperation A) → System A → System A
  wake_producers ops s = record s {
    resuming_consumers = s.resuming_consumers + length ops;
    reported = s.reported ++ told_all ops;
  }

  unfoldable pub wake_consumers : List (ConsumeOperation A) → System A → System A
  wake_consumers ops s = record s {
    resuming_producers = s.resuming_producers + length ops;
    delivered = s.delivered ++ given_all ops;
  }

  abbrev pub after_produce : System A → A → Option Produce × RingBuffer A → System A
  after_produce s x (none, rb) = record s { rb = rb }
  after_produce s x (some r, rb) = record s {
    rb = rb;
    resuming_consumers = s.resuming_consumers + 1;
    reported = s.reported ++ told r (some x);
  }

  abbrev pub after_consume : System A → Option (ConsumeOperation A) × RingBuffer A → System A
  after_consume s (none, rb) = record s { rb = rb }
  after_consume s (some op, rb) = wake_consumers (op ∷ []) (record s { rb = rb })

  -- A round of a loop: the task stays in it exactly if it resumed somebody.
  abbrev pub after_producer : System A → Option (ProduceOperation A) × RingBuffer A → System A
  after_producer s (none, rb) = record s { rb = rb; resuming_producers = s.resuming_producers - 1 }
  after_producer s (some op, rb) = wake_producers (op ∷ []) (record s { rb = rb })

  abbrev pub after_consumer : System A → Option (ConsumeOperation A) × RingBuffer A → System A
  after_consumer s (none, rb) = record s { rb = rb; resuming_consumers = s.resuming_consumers - 1 }
  after_consumer s (some op, rb) = wake_consumers (op ∷ []) (record s { rb = rb })

  abbrev pub after_drain : System A → Option (List (ProduceOperation A)) × RingBuffer A → System A
  after_drain s (none, rb) = record s { rb = rb }
  after_drain s (some ops, rb) = wake_producers ops (record s { rb = rb })

  unfoldable pub step : System A → Event A → System A
  step s (produces c x) = after_produce s x (produce s.rb c x)
  step s (consumes c) = after_consume s (consume s.rb c)
  step s resumes_producers =
      if s.resuming_producers == 0 then s else after_producer s (try_resume_producers s.rb)
  step s resumes_consumers =
      if s.resuming_consumers == 0 then s else after_consumer s (try_resume_consumers s.rb)
  step s (notifies_producers r) =
      let (ops, rb) = notify_producers r s.rb in wake_producers ops (record s { rb = rb })
  step s (notifies_consumers r) =
      let (ops, rb) = notify_consumers r s.rb in wake_consumers ops (record s { rb = rb })
  step s (shuts_down r) =
      let (goes_on, rb) = shutdown_exchange r s.rb in
      record s { rb = rb; stopping = if goes_on then s.stopping + 1 else s.stopping }
  step s stops_waiters =
      let (ps, cs, rb) = shutdown_waiters s.rb in
      if s.stopping == 0
      then s
      else wake_producers ps (wake_consumers cs (record s { rb = rb; stopping = s.stopping - 1 }))
  step s drains = after_drain s (shutdown_drain s.rb)

  unfoldable pub run : System A → List (Event A) → System A
  run s [] = s
  run s (ev ∷ evs) = run (step s ev) evs
