-- ===== src/RingBuffer.antt =====
-- include/coro/ring_buffer.hpp: the buffer, its two awaitable operations and its tasks, each
-- critical section under `m_mutex` as one function.
pub mod Slots
pub mod Contents
pub mod System
pub mod Fifo
pub mod Order
pub mod Delivery
pub mod Wakeup
pub mod Shutdown
pub mod Wrap
pub mod Tests
use libcoro.Base.{
  ℕ, ◌%◌, Bool, true, false, Option, none, some, List, [], ◌∷◌, ltb, ◌==◌, not, ◌&&◌, map,
  if◌then◌else◌, fetch_add, fetch_sub, get_or, set, replicate,
}

-- `ring_buffer_result::produce`
pub data Produce : Type 0 where
  produced notified stopped : Produce

-- `ring_buffer_result::consume`
pub data Consume : Type 0 where
  notified stopped : Consume

-- `expected<element, ring_buffer_result::consume>`
pub data Expected (A : Type 0) : Type 0 where
  value : A → Expected A
  unexpected : Consume → Expected A

-- `running_state_t`
pub data RunningState : Type 0 where
  running draining stopped : RunningState

abbrev pub is_running : RunningState → Bool
is_running RunningState.running = true
is_running _ = false

abbrev pub is_draining : RunningState → Bool
is_draining RunningState.draining = true
is_draining _ = false

abbrev pub is_stopped : RunningState → Bool
is_stopped RunningState.stopped = true
is_stopped _ = false

abbrev pub same_state : RunningState → RunningState → Bool
same_state RunningState.running s = is_running s
same_state RunningState.draining s = is_draining s
same_state RunningState.stopped s = is_stopped s

-- A suspended `produce_operation`; `m_next` is the order of the list that holds it.
pub record ProduceOperation (A : Type 0) : Type 0 where
  pub awaiting_coroutine : ℕ
  pub result : Produce
  pub e : Option A

pub record ConsumeOperation (A : Type 0) : Type 0 where
  pub awaiting_coroutine : ℕ
  pub result : Consume
  pub e : Option A

pub record RingBuffer (A : Type 0) : Type 0 where
  pub num_elements : ℕ
  pub elements : List (Option A)
  pub front : ℕ
  pub back : ℕ
  pub used : ℕ
  pub produce_waiters : List (ProduceOperation A)
  pub consume_waiters : List (ConsumeOperation A)
  pub running_state : RunningState

module _ {A : Type 0} where
  -- The members' initialisers.
  unfoldable pub init : ℕ → RingBuffer A
  init n = record {
    num_elements = n;
    elements = replicate n none;
    front = 0;
    back = 0;
    used = 0;
    produce_waiters = [];
    consume_waiters = [];
    running_state = RunningState.running;
  }

  -- The constructors of the two operations, with the coroutine that will wait.
  abbrev pub produce_operation : ℕ → A → ProduceOperation A
  produce_operation c e = record { awaiting_coroutine = c; result = Produce.produced; e = some e }

  abbrev pub consume_operation : ℕ → ConsumeOperation A
  consume_operation c = record { awaiting_coroutine = c; result = Consume.stopped; e = none }

  -- The three statements that fill the slot at `m_front`.
  unfoldable pub store : RingBuffer A → Option A → RingBuffer A
  store rb e = record rb {
    elements = set rb.elements (rb.front % rb.num_elements) e;
    front = fetch_add rb.front 1;
    used = fetch_add rb.used 1;
  }

  -- The slot at `m_back`, and the four statements that empty it.
  unfoldable pub oldest : RingBuffer A → Option A
  oldest rb = get_or rb.elements (rb.back % rb.num_elements) none

  unfoldable pub discard : RingBuffer A → RingBuffer A
  discard rb = record rb {
    elements = set rb.elements (rb.back % rb.num_elements) none;
    back = fetch_add rb.back 1;
    used = fetch_sub rb.used 1;
  }

  -- `produce_operation::await_ready`
  unfoldable pub produce_ready :
      RingBuffer A → ProduceOperation A → Bool × ProduceOperation A × RingBuffer A
  produce_ready rb op =
      if is_running rb.running_state
      then (if ltb rb.used rb.num_elements then (true, op, store rb op.e) else (false, op, rb))
      else (true, record op { result = Produce.stopped }, rb)

  -- `produce_operation::await_suspend`
  unfoldable pub produce_suspend : RingBuffer A → ProduceOperation A → RingBuffer A
  produce_suspend rb op = record rb { produce_waiters = op ∷ rb.produce_waiters }

  -- `produce` up to its `co_await try_resume_consumers()`: the result, or `none` if it suspends.
  unfoldable pub produce : RingBuffer A → ℕ → A → Option Produce × RingBuffer A
  unfolding produce_ready produce_suspend
  produce rb c e =
      let (ready, op, rb') = produce_ready rb (produce_operation c e) in
      if ready then (some op.result, rb') else (none, produce_suspend rb' op)

  -- `consume_operation::await_ready`
  unfoldable pub consume_ready :
      RingBuffer A → ConsumeOperation A → Bool × ConsumeOperation A × RingBuffer A
  consume_ready rb op =
      if is_stopped rb.running_state
      then (true, record op { result = Consume.stopped }, rb)
      else if ltb 0 rb.used
      then (true, record op { e = oldest rb }, discard rb)
      else (false, op, rb)

  -- `consume_operation::await_suspend`
  unfoldable pub consume_suspend : RingBuffer A → ConsumeOperation A → RingBuffer A
  consume_suspend rb op = record rb { consume_waiters = op ∷ rb.consume_waiters }

  -- `consume_operation::await_resume`
  unfoldable pub consume_resume : ConsumeOperation A → Expected A
  consume_resume op = elim op.e [ some x ↦ value x | none ↦ unexpected op.result ]

  -- `consume` up to its `co_await try_resume_producers()`: the operation that completes, or `none`.
  unfoldable pub consume : RingBuffer A → ℕ → Option (ConsumeOperation A) × RingBuffer A
  unfolding consume_ready consume_suspend
  consume rb c =
      let (ready, op, rb') = consume_ready rb (consume_operation c) in
      if ready then (some op, rb') else (none, consume_suspend rb' op)

  -- One round of `try_resume_producers`: the operation that is resumed, or `none` at `co_return`.
  resume_producer :
      RingBuffer A → List (ProduceOperation A) → Option (ProduceOperation A) × RingBuffer A
  resume_producer rb [] = (none, rb)
  resume_producer rb (op ∷ ops) = (some op, store (record rb { produce_waiters = ops }) op.e)

  unfoldable pub try_resume_producers : RingBuffer A → Option (ProduceOperation A) × RingBuffer A
  unfolding resume_producer
  try_resume_producers rb =
      if ltb rb.used rb.num_elements then resume_producer rb rb.produce_waiters else (none, rb)

  -- One round of `try_resume_consumers`.
  resume_consumer :
      RingBuffer A → List (ConsumeOperation A) → Option (ConsumeOperation A) × RingBuffer A
  resume_consumer rb [] = (none, rb)
  resume_consumer rb (op ∷ ops) =
      (some (record op { e = oldest rb }), discard (record rb { consume_waiters = ops }))

  unfoldable pub try_resume_consumers : RingBuffer A → Option (ConsumeOperation A) × RingBuffer A
  unfolding resume_consumer
  try_resume_consumers rb =
      if ltb 0 rb.used then resume_consumer rb rb.consume_waiters else (none, rb)

  -- The assignment to `m_result` of an operation that is about to be resumed.
  abbrev pub produce_result : Produce → ProduceOperation A → ProduceOperation A
  produce_result r op = record op { result = r }

  abbrev pub consume_result : Consume → ConsumeOperation A → ConsumeOperation A
  consume_result r op = record op { result = r }

  -- `empty`, `full` and `is_shutdown`
  unfoldable pub empty : RingBuffer A → Bool
  empty rb = rb.used == 0

  unfoldable pub full : RingBuffer A → Bool
  full rb = rb.used == rb.num_elements

  unfoldable pub is_shutdown : RingBuffer A → Bool
  is_shutdown rb = not (is_running rb.running_state)

  -- `notify_producers`, given the state that it loaded: the operations that it resumes.
  unfoldable pub notify_producers :
      RunningState → RingBuffer A → List (ProduceOperation A) × RingBuffer A
  notify_producers expected rb = if is_stopped expected then ([], rb) else (
    map (produce_result Produce.notified) rb.produce_waiters,
    record rb { produce_waiters = [] },
  )

  -- `notify_consumers`
  unfoldable pub notify_consumers :
      RunningState → RingBuffer A → List (ConsumeOperation A) × RingBuffer A
  notify_consumers expected rb = if is_stopped expected then ([], rb) else (
    map (consume_result Consume.notified) rb.consume_waiters,
    record rb { consume_waiters = [] },
  )

  -- `shutdown` up to `lk.unlock()`, given the state that it loaded; the flag says whether it goes on.
  unfoldable pub shutdown_exchange : RunningState → RingBuffer A → Bool × RingBuffer A
  shutdown_exchange expected rb =
      if is_stopped expected
      then (false, rb)
      else if same_state expected rb.running_state
      then (true, record rb { running_state = RunningState.stopped })
      else (false, rb)

  -- The rest of `shutdown`: the operations that it resumes.
  unfoldable pub shutdown_waiters :
      RingBuffer A → List (ProduceOperation A) × List (ConsumeOperation A) × RingBuffer A
  shutdown_waiters rb = (
    map (produce_result Produce.stopped) rb.produce_waiters,
    map (consume_result Consume.stopped) rb.consume_waiters,
    record rb { produce_waiters = []; consume_waiters = [] },
  )

  -- `shutdown_drain` up to its loop: the operations that it resumes, or `none` if it returns.
  unfoldable pub shutdown_drain : RingBuffer A → Option (List (ProduceOperation A)) × RingBuffer A
  shutdown_drain rb =
      if is_running rb.running_state
      then (
        some rb.produce_waiters,
        record rb { produce_waiters = []; running_state = RunningState.draining },
      )
      else (none, rb)

  -- The test of that loop: while it holds, the caller yields.
  unfoldable pub draining_waits : RingBuffer A → Bool
  unfolding empty
  draining_waits rb = not (empty rb) && is_draining rb.running_state
