-- ===== src/WhenAny.antt =====
-- include/coro/when_any.hpp: the atomic flag, the event and the return value that the tasks of one
-- `when_any` share. `A` is the type of the results, a variant in the overloads on several types.
use libcoro.Base.{ℕ, Bool, true, false, Option, none, some, List, [], if◌then◌else◌}
use libcoro.Event
use libcoro.Event.{lifo}
pub mod System
pub mod First
pub mod Tests

pub record WhenAny (A : Type 0) : Type 0 where
  pub first_completed : Bool
  pub return_value : Option A
  pub notify : Event.Event

module _ {A : Type 0} where
  unfoldable pub make_when_any : WhenAny A
  make_when_any = record {
    first_completed = false;
    return_value = none;
    notify = Event.make_event false;
  }

  -- `make_when_any_task`: `first_completed.compare_exchange_strong(expected, true)`
  unfoldable pub exchange_first : WhenAny A → Bool × WhenAny A
  exchange_first w =
      if w.first_completed then (false, w) else (true, record w { first_completed = true })

  -- `return_value = std::move(result)`
  unfoldable pub store_result : WhenAny A → A → WhenAny A
  store_result w x = record w { return_value = some x }

  -- `notify.set()`: the coroutines that it resumes.
  unfoldable pub notify_set : WhenAny A → List ℕ × WhenAny A
  notify_set w = let (cs, e) = Event.set lifo w.notify in (cs, record w { notify = e })

  -- `co_await notify` in `when_any`: whether the coroutine is suspended.
  unfoldable pub await_notify : WhenAny A → ℕ → Bool × WhenAny A
  await_notify w c = let (b, e) = Event.await_suspend w.notify c in (b, record w { notify = e })
