-- ===== src/Semaphore.antt =====
-- include/coro/semaphore.hpp, each critical section under `m_mutex` as one function. `m_counter` is
-- a `std::ptrdiff_t`, kept as its bit pattern.
use libcoro.Base.{
  ℕ, Bool, true, false, Option, none, some, List, [], ◌∷◌, ◌==◌, if◌then◌else◌, fetch_add,
  fetch_sub, signed_leb,
}
pub mod System
pub mod Permits
pub mod Tests

-- `semaphore_acquire_result`
pub data AcquireResult : Type 0 where
  acquired shutdown : AcquireResult

-- The waiters are given by their coroutines, the latest first.
pub record Semaphore : Type 0 where
  pub max : ℕ
  pub counter : ℕ
  pub acquire_waiters : List ℕ
  pub is_shutdown : Bool

-- `semaphore::semaphore`, with the template's `max_value`.
unfoldable pub make_semaphore : ℕ → ℕ → Semaphore
make_semaphore max n = record { max = max; counter = n; acquire_waiters = []; is_shutdown = false }

-- `semaphore::try_acquire`, at the load that sees no permit or the exchange that succeeds.
unfoldable pub try_acquire : Semaphore → Bool × Semaphore
try_acquire s =
    if signed_leb s.counter 0
    then (false, s)
    else (true, record s { counter = fetch_sub s.counter 1 })

-- `acquire_operation::await_ready`: whether it is ready, and whether it has taken a permit.
unfoldable pub await_ready : Semaphore → Bool × Bool × Semaphore
unfolding try_acquire
await_ready s =
    if s.is_shutdown
    then (true, false, s)
    else (let (taken, s') = try_acquire s in if taken then (true, true, s') else (false, false, s'))

-- `acquire_operation::await_suspend`, which asks `await_ready` once more: whether it suspends.
unfoldable pub await_suspend : Semaphore → ℕ → Bool × Bool × Semaphore
unfolding await_ready
await_suspend s c =
    let (ready, taken, s') = await_ready s in
    if ready
    then (false, taken, s')
    else (true, false, record s' { acquire_waiters = c ∷ s'.acquire_waiters })

-- `acquire_operation::await_resume`
unfoldable pub await_resume : Semaphore → AcquireResult
await_resume s = if s.is_shutdown then shutdown else acquired

-- `semaphore::acquire`: whether the coroutine suspends, and whether it has taken a permit.
unfoldable pub acquire : Semaphore → ℕ → Bool × Bool × Semaphore
unfolding await_ready await_suspend
acquire s c =
    let (ready, taken, s') = await_ready s in
    if ready then (false, taken, s') else await_suspend s' c

abbrev pub resume_waiter : Semaphore → List ℕ → Option ℕ × Semaphore
resume_waiter s [] = (none, record s { counter = fetch_add s.counter 1 })
resume_waiter s (c ∷ cs) = (some c, record s { acquire_waiters = cs })

-- `semaphore::release`: whether it gives a permit back, and the coroutine that it resumes with it.
unfoldable pub release : Semaphore → Bool × Option ℕ × Semaphore
release s =
    if s.counter == s.max
    then (false, none, s)
    else (let (c, s') = resume_waiter s s.acquire_waiters in (true, c, s'))

-- `semaphore::shutdown`, past the test of `is_shutdown()`: the coroutines that it resumes.
unfoldable pub shut_down : Semaphore → List ℕ × Semaphore
shut_down s =
    if s.is_shutdown
    then ([], s)
    else (s.acquire_waiters, record s { acquire_waiters = []; is_shutdown = true })
