-- ===== src/Event.antt =====
-- include/coro/event.hpp and src/event.cpp. `m_state` is the event itself (set), or the list of
-- suspended awaiters, the latest first. An exchange loop is the one change that it makes when its
-- exchange succeeds; the accesses of such a loop are modelled one by one in Mutex.
use libcoro.Base.{ℕ, Bool, true, false, List, [], ◌∷◌, reverse}
pub mod Order
pub mod Tests

pub data ResumeOrderPolicy : Type 0 where
  lifo fifo : ResumeOrderPolicy

-- Awaiters are given by their coroutines.
pub data Event : Type 0 where
  set_state : Event
  awaiters : List ℕ → Event

-- `event::event`
unfoldable pub make_event : Bool → Event
make_event true = set_state
make_event false = awaiters []

-- `event::is_set` and `awaiter::await_ready`
unfoldable pub is_set : Event → Bool
is_set set_state = true
is_set (awaiters ws) = false

-- `awaiter::await_suspend`: whether the coroutine is suspended.
unfoldable pub await_suspend : Event → ℕ → Bool × Event
await_suspend set_state c = (false, set_state)
await_suspend (awaiters ws) c = (true, awaiters (c ∷ ws))

abbrev pub in_order : ResumeOrderPolicy → List ℕ → List ℕ
in_order lifo ws = ws
in_order fifo ws = reverse ws

-- `event::set`: the coroutines that it resumes, in their order. (The overload with an executor
-- hands the same coroutines to `executor::resume`.)
unfoldable pub set : ResumeOrderPolicy → Event → List ℕ × Event
set policy set_state = ([], set_state)
set policy (awaiters ws) = (in_order policy ws, set_state)

-- `event::reset`
unfoldable pub reset : Event → Event
reset set_state = awaiters []
reset (awaiters ws) = awaiters ws
