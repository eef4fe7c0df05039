-- ===== src/WhenAll/System.antt =====
-- include/coro/when_all.hpp: a coroutine that awaits tasks, and the tasks. A move is one access to the
-- latch, so a list of moves is an interleaving.
use libcoro.Base.{ℕ, ◌+◌, ◌-◌, List, [], ◌∷◌, ◌++◌, ◌==◌, if◌then◌else◌}
use libcoro.WhenAll.{
  WhenAllLatch, make_latch, store_awaiting, await_count_down, Resumption, nothing,
  notify_awaitable_completed,
}

-- Where `when_all_ready_awaitable::try_await` stands.
pub data Phase : Type 0 where
  -- in its loop over the tasks
  starting : Phase
  -- after the store in `when_all_latch::try_await`
  stored : Phase
  -- past the decrement: the coroutine is suspended, or has gone on
  suspended went_on : Phase

pub record System : Type 0 where
  pub latch : WhenAllLatch
  pub phase : Phase
  -- the tasks that are not started yet, that run, and that have completed
  pub waiting : ℕ
  pub running : ℕ
  pub completed : ℕ
  -- what completing tasks have resumed
  pub resumed : List Resumption

pub data Move : Type 0 where
  starts completes stores counts_down : Move

unfoldable pub start : ℕ → System
start n = record {
  latch = make_latch n;
  phase = starting;
  waiting = n;
  running = 0;
  completed = 0;
  resumed = [];
}

abbrev pub log : Resumption → List Resumption
log nothing = []
log r = r ∷ []

-- A task that completes notifies the latch.
abbrev pub completes_one : System → System
completes_one s =
    let (r, l) = notify_awaitable_completed s.latch in
    if s.running == 0 then s else record s {
      latch = l;
      running = s.running - 1;
      completed = s.completed + 1;
      resumed = s.resumed ++ log r;
    }

-- The awaiting coroutine is `c`.
unfoldable pub step : ℕ → System → Phase → Move → System
step c s phase completes = completes_one s
step c s starting starts =
    if s.waiting == 0 then s else record s { waiting = s.waiting - 1; running = s.running + 1 }
step c s starting stores =
    if s.waiting == 0 then record s { latch = store_awaiting s.latch c; phase = stored } else s
step c s stored counts_down =
    let (suspends, l) = await_count_down s.latch in
    record s { latch = l; phase = if suspends then suspended else went_on }
step c s phase m = s

unfoldable pub run : ℕ → System → List Move → System
run c s [] = s
run c s (m ∷ ms) = run c (step c s s.phase m) ms
