-- ===== src/ThreadPool.antt =====
-- include/coro/thread_pool.hpp and src/thread_pool.cpp. Each access to `m_size` or
-- `m_shutdown_requested`, and each critical section under `m_wait_mutex`, is a function.
use libcoro.Base.{
  ℕ, suc, ◌+◌, Bool, true, false, Option, none, some, List, [], ◌∷◌, ◌++◌, ltb, if◌then◌else◌, not,
  length, fetch_add, fetch_sub,
}
pub mod System
pub mod Counting
pub mod Draining
pub mod Stranded
pub mod Tests

-- `std::coroutine_handle<>` other than `nullptr`, with what `done()` answers.
pub record Handle : Type 0 where
  pub coroutine : ℕ
  pub done : Bool

pub record ThreadPool : Type 0 where
  pub queue : List Handle
  pub size : ℕ
  pub shutdown_requested : Bool

-- The members' initialisers.
unfoldable pub init : ThreadPool
init = record { queue = []; size = 0; shutdown_requested = false }

-- `m_size.fetch_add(1)` in `schedule`, `spawn_detached` and `resume`
unfoldable pub add_size : ThreadPool → ThreadPool
add_size p = record p { size = fetch_add p.size 1 }

-- `m_size.fetch_sub(1)`
unfoldable pub sub_size : ThreadPool → ThreadPool
sub_size p = record p { size = fetch_sub p.size 1 }

-- The load in `schedule` and `resume`: whether a coroutine may still be queued.
unfoldable pub may_queue : ThreadPool → Bool
may_queue p = not p.shutdown_requested

-- The first test of `resume` and of `schedule_impl`, with `none` for `nullptr`.
unfoldable pub resumable : Option Handle → Bool
resumable none = false
resumable (some h) = not h.done

abbrev pub enqueue : ThreadPool → Option Handle → ThreadPool
enqueue p none = p
enqueue p (some h) = record p { queue = p.queue ++ h ∷ [] }

-- `schedule_impl`
unfoldable pub schedule_impl : ThreadPool → Option Handle → ThreadPool
unfolding resumable
schedule_impl p h = if resumable h then enqueue p h else p

-- `resume` of a range: `m_size.fetch_add(std::size(handles))`
unfoldable pub range_add : ThreadPool → ℕ → ThreadPool
range_add p n = record p { size = fetch_add p.size n }

-- Its loop: the handles that are not `nullptr`, and the number of those that are. Neither `done()`
-- nor `m_shutdown_requested` is asked.
unfoldable pub range_handles : List (Option Handle) → List Handle × ℕ
range_handles [] = ([], 0)
range_handles (none ∷ hs) = let (queued, nulls) = range_handles hs in (queued, suc nulls)
range_handles (some h ∷ hs) = let (queued, nulls) = range_handles hs in (h ∷ queued, nulls)

unfoldable pub range_queue : ThreadPool → List (Option Handle) → ThreadPool
range_queue p hs = record p { queue = p.queue ++ (range_handles hs).0 }

-- `m_size.fetch_sub(null_handles)`
unfoldable pub range_sub : ThreadPool → ℕ → ThreadPool
range_sub p nulls = record p { size = fetch_sub p.size nulls }

-- `shutdown`: the exchange, and whether this call is the first.
unfoldable pub shutdown : ThreadPool → Bool × ThreadPool
shutdown p = (not p.shutdown_requested, record p { shutdown_requested = true })

-- Where a worker thread stands in `executor`.
pub data Worker : Type 0 where
  -- before the test of the first loop
  serving : Worker
  -- in `m_wait_cv.wait`
  waiting : Worker
  -- in `handle.resume()` of the first loop
  executing : Handle → Worker
  -- before the test of the second loop
  draining : Worker
  -- past that test
  polling : Worker
  -- in `handle.resume()` of the second loop
  finishing : Handle → Worker
  -- past both loops
  stopped : Worker

-- `m_queue.front()` and `pop_front()`, or where the worker goes if the queue is empty.
abbrev pub take_front : ThreadPool → List Handle → (Handle → Worker) → Worker → Worker × ThreadPool
take_front p [] next idle = (idle, p)
take_front p (h ∷ hs) next idle = (next h, record p { queue = hs })

-- The next access of a worker. A wait whose condition is false goes on.
unfoldable pub executor : ThreadPool → Worker → Worker × ThreadPool
executor p serving = (if p.shutdown_requested then draining else waiting, p)
executor p waiting =
    take_front p p.queue executing (if p.shutdown_requested then serving else waiting)
executor p (executing h) = (serving, record p { size = fetch_sub p.size 1 })
executor p draining = (if ltb 0 p.size then polling else stopped, p)
executor p polling = take_front p p.queue finishing stopped
executor p (finishing h) = (draining, record p { size = fetch_sub p.size 1 })
executor p stopped = (stopped, p)
