-- ===== src/WhenAll/Tasks.antt =====
-- include/coro/when_all.hpp: the tasks that `when_all` makes of its awaitables, with their promises. An
-- awaitable is what it gives in the end, a value or an exception.
use libcoro.Base.{
  ℕ, zero, suc, ◌==◌, Bool, true, false, not, ◌&&◌, Option, none, some, List, [], ◌∷◌, map, length,
  if◌then◌else◌,
}
use libcoro.Task.{Result, returned, thrown}
use libcoro.WhenAll.System
use libcoro.WhenAll.System.{System, Phase, starting}
pub mod Results
pub mod Tests

-- Whether a task's coroutine has not been resumed, is under way, or is suspended at its end.
pub data State : Type 0 where
  waiting running completed : State

abbrev pub is_waiting : State → Bool
is_waiting waiting = true
is_waiting _ = false

abbrev pub is_running : State → Bool
is_running running = true
is_running _ = false

-- A `when_all_task` with the fields of its promise; `none` is a null pointer.
pub record WhenAllTask (A E : Type 0) : Type 0 where
  pub awaitable : Result A E
  pub state : State
  pub exception : Option E
  pub return_value : Option A

module _ {A E : Type 0} where
  unfoldable pub make_when_all_task : Result A E → WhenAllTask A E
  make_when_all_task a = record {
    awaitable = a;
    state = waiting;
    exception = none;
    return_value = none;
  }

  -- The coroutine's body, `co_yield co_await a`, from the end of its `co_await` on: `yield_value` or
  -- `unhandled_exception`.
  abbrev pub store_result : Result A E → WhenAllTask A E → WhenAllTask A E
  store_result (returned v) t = record t { return_value = some v; state = completed }
  store_result (thrown e) t = record t { exception = some e; state = completed }

  abbrev pub finish : WhenAllTask A E → WhenAllTask A E
  finish t = store_result t.awaitable t

  -- `when_all_task_promise::result`, by the exception and the return value; `none` where it would
  -- dereference a null pointer.
  abbrev pub stored_result : Option E → Option A → Option (Result A E)
  stored_result (some e) v = some (thrown e)
  stored_result none (some v) = some (returned v)
  stored_result none none = none

  abbrev pub return_value_of : WhenAllTask A E → Option (Result A E)
  return_value_of t = stored_result t.exception t.return_value

  -- `when_all` of a range
  unfoldable pub when_all : List (Result A E) → List (WhenAllTask A E)
  unfolding make_when_all_task
  when_all [] = []
  when_all (a ∷ rs) = make_when_all_task a ∷ when_all rs

  -- The next turn of the loop in `when_all_ready_awaitable::try_await`: `task.start(m_latch)`.
  unfoldable pub start_next : List (WhenAllTask A E) → List (WhenAllTask A E)
  start_next [] = []
  start_next (t ∷ ts) =
      let rest = start_next ts in
      if is_waiting t.state then record t { state = running } ∷ ts else t ∷ rest

  -- Task `i` is under way.
  abbrev pub runs_at : ℕ → List (WhenAllTask A E) → Bool
  runs_at i [] = false
  runs_at zero (t ∷ ts) = is_running t.state
  runs_at (suc i) (t ∷ ts) = runs_at i ts

  unfoldable pub finish_at : ℕ → List (WhenAllTask A E) → List (WhenAllTask A E)
  finish_at i [] = []
  finish_at zero (t ∷ ts) = finish t ∷ ts
  finish_at (suc i) (t ∷ ts) = t ∷ finish_at i ts

-- The tasks with the latch and the awaiting coroutine.
pub record Awaiting (A E : Type 0) : Type 0 where
  pub system : System
  pub tasks : List (WhenAllTask A E)

pub data Move : Type 0 where
  starts stores counts_down : Move
  completes : ℕ → Move

abbrev pub is_starting : Phase → Bool
is_starting starting = true
is_starting _ = false

module _ {A E : Type 0} where
  unfoldable pub start : List (Result A E) → Awaiting A E
  unfolding when_all System.start
  start rs = record { system = System.start (length rs); tasks = when_all rs }

  abbrev pub moves : ℕ → Awaiting A E → System.Move → System
  moves c s m = System.step c s.system s.system.phase m

  -- The awaiting coroutine is `c`; a task that completes is named by its index.
  unfoldable pub step : ℕ → Awaiting A E → Move → Awaiting A E
  unfolding start_next finish_at System.step
  step c s starts =
      if is_starting s.system.phase && not (s.system.waiting == 0)
      then record { system = moves c s System.starts; tasks = start_next s.tasks }
      else s
  step c s (completes i) =
      if runs_at i s.tasks
      then record { system = moves c s System.completes; tasks = finish_at i s.tasks }
      else s
  step c s stores = record s { system = moves c s System.stores }
  step c s counts_down = record s { system = moves c s System.counts_down }

  unfoldable pub run : ℕ → Awaiting A E → List Move → Awaiting A E
  run c s [] = s
  run c s (m ∷ ms) = run c (step c s m) ms
