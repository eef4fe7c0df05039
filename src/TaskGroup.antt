-- ===== src/TaskGroup.antt =====
-- include/coro/task_group.hpp, over the event of include/coro/event.hpp. Each access to `m_size` or
-- `m_on_empty_event` is a function.
use libcoro.Base.{ℕ, Bool, true, false, List, [], ◌∷◌, ◌++◌, ◌==◌, fetch_add, fetch_sub}
use libcoro.Event
use libcoro.Event.{Event, lifo}
pub mod System
pub mod Waiting
pub mod Tests

pub record TaskGroup : Type 0 where
  pub size : ℕ
  pub on_empty_event : Event

-- The members' initialisers.
unfoldable pub init : TaskGroup
init = record { size = 0; on_empty_event = Event.make_event true }

-- `task_group::empty`
unfoldable pub empty : TaskGroup → Bool
empty g = g.size == 0

-- `task_group::start`: `m_on_empty_event.reset()`, and then `m_size.fetch_add(1)`.
unfoldable pub start_reset : TaskGroup → TaskGroup
start_reset g = record g { on_empty_event = Event.reset g.on_empty_event }

unfoldable pub start_add : TaskGroup → TaskGroup
start_add g = record g { size = fetch_add g.size 1 }

-- `task_group::count_down`: the decrement, and whether the event is to be set.
unfoldable pub count_down : TaskGroup → Bool × TaskGroup
count_down g = (g.size == 1, record g { size = fetch_sub g.size 1 })

-- `m_on_empty_event.set()` in `count_down`: the coroutines that it resumes.
unfoldable pub count_down_set : TaskGroup → List ℕ × TaskGroup
count_down_set g =
    let (cs, e) = Event.set lifo g.on_empty_event in (cs, record g { on_empty_event = e })

-- `co_await` on the group, past `await_ready`: whether the coroutine is suspended.
unfoldable pub await_group : TaskGroup → ℕ → Bool × TaskGroup
await_group g c =
    let (b, e) = Event.await_suspend g.on_empty_event c in (b, record g { on_empty_event = e })
