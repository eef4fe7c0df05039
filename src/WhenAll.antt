-- ===== src/WhenAll.antt =====
-- include/coro/when_all.hpp: `detail::when_all_latch`, and how `when_all_ready_awaitable` starts its
-- tasks and waits for them.
use libcoro.Base.{
  ℕ, zero, suc, ◌+◌, ◌%◌, Bool, true, false, Option, none, some, ◌==◌, ltb, if◌then◌else◌, size_mod,
  fetch_sub,
}
pub mod System
pub mod Once
pub mod Tasks
pub mod Tests

pub record WhenAllLatch : Type 0 where
  pub count : ℕ
  pub awaiting_coroutine : Option ℕ

-- `when_all_latch::when_all_latch`
unfoldable pub make_latch : ℕ → WhenAllLatch
make_latch count = record { count = (count + 1) % size_mod; awaiting_coroutine = none }

-- `when_all_latch::try_await`: the store of `m_awaiting_coroutine`, and then the decrement with
-- whether the coroutine is suspended.
unfoldable pub store_awaiting : WhenAllLatch → ℕ → WhenAllLatch
store_awaiting l c = record l { awaiting_coroutine = some c }

unfoldable pub await_count_down : WhenAllLatch → Bool × WhenAllLatch
await_count_down l = (ltb 1 l.count, record l { count = fetch_sub l.count 1 })

-- What a completing task resumes: nothing, or `m_awaiting_coroutine`, which may be null.
pub data Resumption : Type 0 where
  nothing null_coroutine : Resumption
  coroutine : ℕ → Resumption

abbrev pub resumption : Option ℕ → Resumption
resumption none = null_coroutine
resumption (some c) = coroutine c

-- `when_all_latch::notify_awaitable_completed`
unfoldable pub notify_awaitable_completed : WhenAllLatch → Resumption × WhenAllLatch
notify_awaitable_completed l = (
  if l.count == 1 then resumption l.awaiting_coroutine else nothing,
  record l { count = fetch_sub l.count 1 },
)
