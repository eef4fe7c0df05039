-- ===== src/Queue.antt =====
-- include/coro/queue.hpp: the queue, its awaiter and its tasks, each critical section under
-- `m_mutex` as one function.
pub mod System
pub mod Order
pub mod Tests
use libcoro.Base.{
  ℕ, Bool, true, false, Option, none, some, List, [], ◌∷◌, ◌++◌, ◌==◌, not, ◌&&◌, if◌then◌else◌,
  length,
}

-- `queue_produce_result`
pub data ProduceResult : Type 0 where
  produced stopped : ProduceResult

-- `queue_consume_result`
pub data ConsumeResult : Type 0 where
  stopped try_lock_failure empty : ConsumeResult

-- `expected<element_type, queue_consume_result>`
pub data Expected (A : Type 0) : Type 0 where
  value : A → Expected A
  unexpected : ConsumeResult → Expected A

-- `running_state_t`
pub data RunningState : Type 0 where
  running draining stopped : RunningState

abbrev pub is_running : RunningState → Bool
is_running RunningState.running = true
is_running _ = false

abbrev pub is_draining : RunningState → Bool
is_draining RunningState.draining = true
is_draining _ = false

abbrev pub is_stopped : RunningState → Bool
is_stopped RunningState.stopped = true
is_stopped _ = false

abbrev pub same_state : RunningState → RunningState → Bool
same_state RunningState.running s = is_running s
same_state RunningState.draining s = is_draining s
same_state RunningState.stopped s = is_stopped s

-- `awaiter`; `m_next` is the order of the list that holds it.
pub record Awaiter (A : Type 0) : Type 0 where
  pub awaiting_coroutine : ℕ
  pub element : Option A

pub record Queue (A : Type 0) : Type 0 where
  pub waiters : List (Awaiter A)
  -- `std::queue`, front first
  pub elements : List A
  pub running_state : RunningState

module _ {A : Type 0} where
  -- The members' initialisers.
  unfoldable pub init : Queue A
  init = record { waiters = []; elements = []; running_state = RunningState.running }

  unfoldable pub size : Queue A → ℕ
  size q = length q.elements

  unfoldable pub is_empty : Queue A → Bool
  unfolding size
  is_empty q = size q == 0

  unfoldable pub is_shutdown : Queue A → Bool
  is_shutdown q = not (is_running q.running_state)

  abbrev pub awaiter : ℕ → Awaiter A
  awaiter c = record { awaiting_coroutine = c; element = none }

  -- `m_elements.front()` and `m_elements.pop()`, where the queue is not empty.
  abbrev pub take_front : Queue A → List A → Option A × Queue A
  take_front q [] = (none, q)
  take_front q (x ∷ xs) = (some x, record q { elements = xs })

  abbrev pub front_value : Queue A → List A → Expected A × Queue A
  front_value q [] = (unexpected ConsumeResult.empty, q)
  front_value q (x ∷ xs) = (value x, record q { elements = xs })

  -- `awaiter::await_ready`
  unfoldable pub await_ready : Queue A → Awaiter A → Bool × Awaiter A × Queue A
  unfolding is_empty
  await_ready q w =
      if is_stopped q.running_state
      then (true, w, q)
      else if not (is_empty q)
      then (let (e, q') = take_front q q.elements in (true, record w { element = e }, q'))
      else (false, w, q)

  -- `awaiter::await_suspend`
  unfoldable pub await_suspend : Queue A → Awaiter A → Queue A
  await_suspend q w = record q { waiters = w ∷ q.waiters }

  -- `awaiter::await_resume`
  unfoldable pub await_resume : Awaiter A → Expected A
  await_resume w = elim w.element [ some x ↦ value x | none ↦ unexpected ConsumeResult.stopped ]

  -- `pop`: the awaiter that completes, or `none` if it suspends.
  unfoldable pub pop : Queue A → ℕ → Option (Awaiter A) × Queue A
  unfolding await_ready await_suspend
  pop q c =
      let (ready, w, q') = await_ready q (awaiter c) in
      if ready then (some w, q') else (none, await_suspend q' w)

  -- The body of `push` and `emplace` after the test: the waiter that is resumed, if there is one.
  abbrev pub hand_over : Queue A → A → List (Awaiter A) → Option (Awaiter A) × Queue A
  hand_over q x [] = (none, record q { elements = q.elements ++ x ∷ [] })
  hand_over q x (w ∷ ws) = (some (record w { element = some x }), record q { waiters = ws })

  unfoldable pub push : Queue A → A → ProduceResult × Option (Awaiter A) × Queue A
  push q x =
      if is_running q.running_state
      then (let (w, q') = hand_over q x q.waiters in (ProduceResult.produced, w, q'))
      else (ProduceResult.stopped, none, q)

  -- `try_pop`, given whether `m_mutex.try_lock()` succeeds.
  unfoldable pub try_pop : Bool → Queue A → Expected A × Queue A
  unfolding is_empty
  try_pop locked q =
      if locked
      then (if is_stopped q.running_state
          then (unexpected ConsumeResult.stopped, q)
          else if is_empty q
          then (unexpected ConsumeResult.empty, q)
          else front_value q q.elements)
      else (unexpected ConsumeResult.try_lock_failure, q)

  -- `shutdown`, given the state that it loaded before it took the lock: the awaiters it resumes.
  unfoldable pub shutdown : RunningState → Queue A → List (Awaiter A) × Queue A
  shutdown expected q =
      if is_stopped expected
      then ([], q)
      else if same_state expected q.running_state
      then (q.waiters, record q { waiters = []; running_state = RunningState.stopped })
      else ([], q)

  -- `shutdown_drain` up to its loop; the flag says whether it goes on.
  unfoldable pub shutdown_drain : Queue A → Bool × Queue A
  shutdown_drain q =
      if is_running q.running_state
      then (true, record q { running_state = RunningState.draining })
      else (false, q)

  -- The test of that loop: while it holds, the caller yields.
  unfoldable pub draining_waits : Queue A → Bool
  unfolding is_empty
  draining_waits q = not (is_empty q) && is_draining q.running_state
