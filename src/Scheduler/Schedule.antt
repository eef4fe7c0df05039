-- ===== src/Scheduler/Schedule.antt =====
-- include/coro/scheduler.hpp and src/scheduler.cpp: coroutines that are scheduled onto the event loop,
-- access by access, for the strategy process_tasks_inline. A coroutine is a number.
pub mod Order
use libcoro.Base.{
  ℕ, zero, suc, ◌+◌, ◌-◌, ltb, leb, Bool, true, false, List, [], ◌∷◌, ◌++◌, reverse, if◌then◌else◌,
}

-- Where `process_scheduled_execute_inline` is: the event loop is elsewhere; in the loop that reads the
-- pipe; past it; or past the exchange of the flag.
pub data Phase : Type 0 where
  elsewhere reading cleared untriggered : Phase

abbrev pub is_elsewhere : Phase → Bool
is_elsewhere elsewhere = true
is_elsewhere _ = false

pub record Schedule : Type 0 where
  -- `m_scheduled_ops`, the last one first
  pub scheduled_ops : List ℕ
  pub schedule_pipe_triggered : Bool
  -- the numbers that are in `m_schedule_pipe`
  pub schedule_pipe : ℕ
  pub phase : Phase
  pub handles_to_resume : List ℕ
  -- how many calls of await_suspend are before their exchange, and before their write
  pub pushing : ℕ
  pub writing : ℕ
  -- the coroutines that have been scheduled
  pub scheduled : List ℕ

-- `schedule_operation::await_suspend` up to `awaiter_list_push`
unfoldable pub push_operation : Schedule → ℕ → Schedule
push_operation s c = record s {
  scheduled_ops = c ∷ s.scheduled_ops;
  pushing = suc s.pushing;
  scheduled = s.scheduled ++ c ∷ [];
}

-- Its `compare_exchange_strong`
unfoldable pub trigger : Schedule → Schedule
trigger s =
    let s' = record s { pushing = s.pushing - 1 } in
    if s.schedule_pipe_triggered
    then s'
    else record s' { schedule_pipe_triggered = true; writing = suc s.writing }

-- Its `write`
unfoldable pub write_pipe : Schedule → Schedule
write_pipe s = record s { schedule_pipe = suc s.schedule_pipe; writing = s.writing - 1 }

-- `process_scheduled_execute_inline`: one turn of the loop, which reads up to four numbers and ends
-- when there are fewer.
unfoldable pub read_pipe : Schedule → Schedule
read_pipe s =
    if leb 4 s.schedule_pipe
    then record s { schedule_pipe = s.schedule_pipe - 4 }
    else record s { schedule_pipe = 0; phase = cleared }

unfoldable pub untrigger : Schedule → Schedule
untrigger s = record s { schedule_pipe_triggered = false; phase = untriggered }

-- `awaiter_list_pop_all`, `awaiter_list_reverse` and the loop over the operations
unfoldable pub take_operations : Schedule → Schedule
take_operations s = record s {
  scheduled_ops = [];
  handles_to_resume = s.handles_to_resume ++ reverse s.scheduled_ops;
  phase = elsewhere;
}

unfoldable pub start : Schedule
start = record {
  scheduled_ops = [];
  schedule_pipe_triggered = false;
  schedule_pipe = 0;
  phase = elsewhere;
  handles_to_resume = [];
  pushing = 0;
  writing = 0;
  scheduled = [];
}

-- A caller's next access, or the event loop's.
pub data Move : Type 0 where
  pushes : ℕ → Move
  triggers writes loops : Move

-- The event loop's next access; from elsewhere it comes when epoll reports the pipe as readable.
abbrev pub loop_step : Phase → Schedule → Schedule
loop_step elsewhere s = if ltb 0 s.schedule_pipe then record s { phase = reading } else s
loop_step reading s = read_pipe s
loop_step cleared s = untrigger s
loop_step untriggered s = take_operations s

unfoldable pub step : Schedule → Move → Schedule
unfolding push_operation trigger write_pipe read_pipe untrigger take_operations
step s (pushes c) = push_operation s c
step s triggers = if ltb 0 s.pushing then trigger s else s
step s writes = if ltb 0 s.writing then write_pipe s else s
step s loops = loop_step s.phase s

unfoldable pub run : Schedule → List Move → Schedule
run s [] = s
run s (m ∷ ms) = run (step s m) ms
