-- ===== src/RingBuffer/Tests.antt =====
-- include/coro/ring_buffer.hpp: runs at concrete inputs.
use libcoro.Base.{ℕ, none, some, List, [], ◌∷◌, ◌++◌, ◌≡◌, ◌≢◌, refl, arith, length, All}
use libcoro.RingBuffer.Contents.{IsValid, contents}
use libcoro.RingBuffer.System.{
  System, Event, start, step, run, produces, consumes, resumes_producers, resumes_consumers, drains,
  wake_producers, wake_consumers,
}
use libcoro.RingBuffer.Fifo.{IsFull}
use libcoro.RingBuffer.Delivery.{run_delivers}
use libcoro.RingBuffer.Shutdown.{drain_loses}
use libcoro.RingBuffer.Wrap.{store-store_wrapped}
use libcoro.RingBuffer.{
  RunningState, RingBuffer, init, store, oldest, discard, produce_operation, produce, consume,
  consume_resume, try_resume_producers, try_resume_consumers,
}

-- Two slots, a third producer waits until a slot is free.
abbrev crowded : List (Event ℕ)
crowded =
    produces 1 10
    ∷ produces 2 20
    ∷ produces 3 30
    ∷ consumes 4
    ∷ resumes_producers
    ∷ consumes 5
    ∷ resumes_producers
    ∷ resumes_producers
    ∷ resumes_consumers
    ∷ resumes_consumers
    ∷ resumes_consumers
    ∷ []

delivered-crowded : (run (start 2) crowded).delivered ≡ some 10 ∷ some 20 ∷ []
unfolding run step start init store oldest discard produce consume consume_resume
    try_resume_producers try_resume_consumers wake_producers wake_consumers
delivered-crowded = refl

contents-crowded : contents (run (start 2) crowded).rb ≡ some 30 ∷ []
unfolding run step start init store oldest discard produce consume consume_resume
    try_resume_producers try_resume_consumers wake_producers wake_consumers
contents-crowded = refl

run_delivers_example :
    let s = run (start 2) crowded in
    (s.reported ≡ s.delivered ++ contents s.rb) × All IsFull (contents s.rb) × IsValid s.rb
run_delivers_example =
    run_delivers 2 crowded (omega arith) (omega arith) (omega arith)
      (tt, (tt, (tt, (tt, (tt, (tt, (tt, (tt, (tt, (tt, (tt, tt)))))))))))

-- A full buffer of one slot with a suspended producer.
abbrev full_rb : RingBuffer ℕ
full_rb = record {
  num_elements = 1;
  elements = some 10 ∷ [];
  front = 1;
  back = 0;
  used = 1;
  produce_waiters = produce_operation 2 20 ∷ [];
  consume_waiters = [];
  running_state = RunningState.running;
}

abbrev full_system : System ℕ
full_system = record {
  rb = full_rb;
  resuming_consumers = 0;
  resuming_producers = 0;
  stopping = 0;
  reported = some 10 ∷ [];
  delivered = [];
}

drain_loses_example :
    ((step full_system drains).reported ≡ some 10 ∷ some 20 ∷ [])
    × (length (step full_system drains).reported ≡ 2)
    × (contents (step full_system drains).rb ≡ some 10 ∷ [])
    × ((step full_system drains).reported
        ≢ (step full_system drains).delivered ++ contents (step full_system drains).rb)
drain_loses_example =
    drain_loses full_system
      (record {
        valid = omega arith;
        full = ((10, refl), tt);
        producers = ((refl, (20, refl)), tt);
        consumers = tt;
        fifo = refl;
      })
      refl (λ e. cc)

abbrev worn_rb : RingBuffer ℕ
worn_rb = record {
  num_elements = 3;
  elements = none ∷ none ∷ none ∷ [];
  front = 18446744073709551615;
  back = 18446744073709551615;
  used = 0;
  produce_waiters = [];
  consume_waiters = [];
  running_state = RunningState.running;
}

store-store_wrapped_example :
    ((store (store worn_rb (some 1)) (some 2)).elements ≡ some 2 ∷ none ∷ none ∷ [])
    × ((store (store worn_rb (some 1)) (some 2)).used ≡ 2)
    × ((store (store worn_rb (some 1)) (some 2)).front ≡ 1)
store-store_wrapped_example =
    store-store_wrapped worn_rb (some 1) (some 2) (omega arith) (omega arith) (omega arith)
      (omega arith)
