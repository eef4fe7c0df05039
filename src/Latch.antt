-- ===== src/Latch.antt =====
-- include/coro/latch.hpp, over the event of include/coro/event.hpp. `m_count` is an `int64_t`, kept
-- as its bit pattern.
use libcoro.Base.{ℕ, Bool, List, [], ◌∷◌, ◌++◌, if◌then◌else◌, fetch_sub, signed_leb}
use libcoro.Event
use libcoro.Event.{Event, lifo}
pub mod Opening
pub mod Tests

pub record Latch : Type 0 where
  pub count : ℕ
  pub event : Event

-- `latch::latch`
unfoldable pub make_latch : ℕ → Latch
make_latch n = record { count = n; event = Event.make_event (signed_leb n 0) }

-- `latch::is_ready`
unfoldable pub is_ready : Latch → Bool
is_ready l = Event.is_set l.event

-- `latch::remaining`: the cast to `std::size_t` keeps the bits.
unfoldable pub remaining : Latch → ℕ
remaining l = l.count

-- `latch::count_down`: the coroutines that it resumes. `m_count.fetch_sub(n) <= n` tests the old
-- value.
unfoldable pub count_down : Latch → ℕ → List ℕ × Latch
count_down l n =
    let l' = record l { count = fetch_sub l.count n } in
    if signed_leb l.count n
    then (let (cs, e) = Event.set lifo l.event in (cs, record l' { event = e }))
    else ([], l')

-- `co_await` on the latch, past `await_ready`: whether the coroutine is suspended.
unfoldable pub await_latch : Latch → ℕ → Bool × Latch
await_latch l c = let (b, e) = Event.await_suspend l.event c in (b, record l { event = e })
