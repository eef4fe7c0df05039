-- ===== src/Task.antt =====
-- include/coro/task.hpp, with include/coro/sync_wait.hpp and src/sync_wait.cpp: tasks that await tasks,
-- and the thread that waits for one. A coroutine's body is what the compiler makes of the user's
-- code: it returns, throws, awaits a new task, or suspends in an awaiter of another kind, whose
-- owner resumes it later. All bodies return values of `A` and throw exceptions of `E`. Coroutine
-- frames are numbers; frame 0 is the one that `sync_wait` makes.
pub mod Frames
pub mod Evaluation
pub mod SyncWait
pub mod Handle
pub mod Tests
use libcoro.Base.{
  ℕ, zero, suc, ◌+◌, ◌==◌, Bool, true, false, ◌||◌, Option, none, some, if◌then◌else◌,
}

-- What `result()` returns or throws.
pub data Result (A E : Type 0) : Type 0 where
  returned : A → Result A E
  thrown : E → Result A E

-- `promise::m_storage`
pub data Storage (A E : Type 0) : Type 0 where
  unset_return_value : Storage A E
  stored : A → Storage A E
  exception : E → Storage A E

pub data Body (A E : Type 0) : Type 0 where
  co_return : A → Body A E
  throws : E → Body A E
  co_await_task : Body A E → (Result A E → Body A E) → Body A E
  suspends : Body A E → Body A E

-- Where a frame is suspended: before what is left of its body, at a `co_await` of the task in
-- another frame, or at its end; or it has been destroyed.
pub data Point (A E : Type 0) : Type 0 where
  before : Body A E → Point A E
  awaits : ℕ → (Result A E → Body A E) → Point A E
  done destroyed : Point A E

-- What the promise does at its end: a task's resumes `m_continuation`, that of `sync_wait` sets its
-- event.
pub data Final : Type 0 where
  continuation : Option ℕ → Final
  sets_event : Final

pub record Frame (A E : Type 0) : Type 0 where
  pub point : Point A E
  pub final : Final
  pub storage : Storage A E

-- What the thread does: it runs a frame; a frame waits for its awaiter's owner; or it has come to a
-- `noop_coroutine`.
pub data Control : Type 0 where
  running suspended : ℕ → Control
  idle : Control

pub record Machine (A E : Type 0) : Type 0 where
  pub frames : ℕ → Frame A E
  -- the next frame that is allocated
  pub next : ℕ
  pub control : Control
  -- `sync_wait_event::m_set`
  pub event_set : Bool

-- `co_return co_await a`
abbrev pub co_return_result : {A E : Type 0} → Result A E → Body A E
co_return_result (returned a) = co_return a
co_return_result (thrown e) = throws e

module _ {A E : Type 0} (never_set : E) where
  -- `promise::result`; it throws a runtime_error where no value was set.
  unfoldable pub result : Storage A E → Result A E
  result unset_return_value = thrown never_set
  result (stored a) = returned a
  result (exception e) = thrown e

  abbrev pub set_frame : Machine A E → ℕ → Frame A E → Machine A E
  set_frame m f fr = record m { frames = λ g. if g == f then fr else m.frames g }

  -- `get_return_object`: a task in a new frame, suspended at its start
  abbrev pub make_task : Body A E → Frame A E
  make_task b = record { point = before b; final = continuation none; storage = unset_return_value }

  -- `final_awaitable::await_suspend`, or `completion_notifier::await_suspend`
  unfoldable pub final_suspend : Machine A E → Final → Machine A E
  final_suspend m (continuation (some g)) = record m { control = running g }
  final_suspend m (continuation none) = record m { control = idle }
  final_suspend m sets_event = record m { control = idle; event_set = true }

  -- A body ends with what `return_value` or `unhandled_exception` stores.
  abbrev pub finish : Machine A E → ℕ → Storage A E → Machine A E
  finish m f s =
      final_suspend
        (set_frame m f (record { point = done; final = (m.frames f).final; storage = s }))
        (m.frames f).final

  abbrev pub set_point : Machine A E → ℕ → Point A E → Machine A E
  set_point m f p =
      set_frame m f
        (record { point = p; final = (m.frames f).final; storage = (m.frames f).storage })

  -- `co_await` of a new task: `awaitable_base::await_suspend` stores the continuation and transfers
  -- to the task's frame.
  abbrev pub await_task : Machine A E → ℕ → Body A E → (Result A E → Body A E) → Machine A E
  await_task m f b k =
      let n = m.next in
      let m' = set_point m f (awaits n k) in
      let m'' = set_frame m' n (record {
        point = before b;
        final = continuation (some f);
        storage = unset_return_value;
      }) in
      record m'' { next = n + 1; control = running n }

  -- `await_resume` takes the result of the awaited task, and the task's destructor its frame.
  abbrev pub await_resume : Machine A E → ℕ → ℕ → (Result A E → Body A E) → Machine A E
  await_resume m f n k =
      let r = result (m.frames n).storage in set_point (set_point m n destroyed) f (before (k r))

  abbrev pub resume_body : Machine A E → ℕ → Body A E → Machine A E
  resume_body m f (co_return a) = finish m f (stored a)
  resume_body m f (throws e) = finish m f (exception e)
  resume_body m f (co_await_task b k) = await_task m f b k
  resume_body m f (suspends b) =
      let m' = set_point m f (before b) in record m' { control = suspended f }

  abbrev pub resume_point : Machine A E → ℕ → Point A E → Machine A E
  resume_point m f (before b) = resume_body m f b
  resume_point m f (awaits n k) = await_resume m f n k
  resume_point m f done = m
  resume_point m f destroyed = m

  abbrev pub resume : Machine A E → Control → Machine A E
  resume m (running f) = resume_point m f (m.frames f).point
  resume m (suspended f) = record m { control = running f }
  resume m idle = m

  unfoldable pub step : Machine A E → Machine A E
  unfolding result final_suspend
  step m = resume m m.control

  unfoldable pub run : ℕ → Machine A E → Machine A E
  run zero m = m
  run (suc n) m = run n (step m)

  -- `sync_wait` of a task up to `start`: the frame of `make_sync_wait_task`, resumed.
  abbrev pub sync_wait_start : Body A E → Machine A E
  sync_wait_start b = record {
    frames = λ g. record {
      point = before (co_await_task b co_return_result);
      final = sets_event;
      storage = unset_return_value;
    };
    next = 1;
    control = running 0;
    event_set = false;
  }

  -- `sync_wait`, by the number of steps that the threads have made: `none` while `wait` blocks.
  unfoldable pub sync_wait : ℕ → Body A E → Option (Result A E)
  unfolding run
  sync_wait fuel b =
      let m = run fuel (sync_wait_start b) in
      if m.event_set then some (result (m.frames 0).storage) else none
