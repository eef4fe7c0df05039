-- ===== src/TaskGroup/System.antt =====
-- include/coro/task_group.hpp: a group with its callers. A move is one access of one task, so a list
-- of moves is an interleaving.
use libcoro.Base.{ℕ, ◌+◌, ◌-◌, List, [], ◌∷◌, ◌++◌, ◌==◌, if◌then◌else◌}
use libcoro.TaskGroup.{
  TaskGroup, init, start_reset, start_add, count_down, count_down_set, await_group,
}

pub record System : Type 0 where
  pub group : TaskGroup
  -- the `start` calls between `reset` and `fetch_add`
  pub starting : ℕ
  -- the tasks that are counted and have not counted down (an executor that refuses one counts it
  -- down at once)
  pub running : ℕ
  -- the `count_down` calls that are about to set the event
  pub setting : ℕ
  -- the coroutines that waited for the group and were resumed, with the number of tasks then
  pub resumed : List (ℕ × ℕ)

pub data Move : Type 0 where
  resets adds ends sets : Move
  awaits : ℕ → Move

abbrev pub tag : ℕ → List ℕ → List (ℕ × ℕ)
tag n [] = []
tag n (c ∷ cs) = (c, n) ∷ tag n cs

unfoldable pub start : System
start = record { group = init; starting = 0; running = 0; setting = 0; resumed = [] }

unfoldable pub step : System → Move → System
step s resets = record s { group = start_reset s.group; starting = s.starting + 1 }
step s adds =
    if s.starting == 0
    then s
    else record s { group = start_add s.group; starting = s.starting - 1; running = s.running + 1 }
step s ends =
    let (last, g) = count_down s.group in
    if s.running == 0 then s else record s {
      group = g;
      running = s.running - 1;
      setting = if last then s.setting + 1 else s.setting;
    }
step s sets =
    let (cs, g) = count_down_set s.group in
    if s.setting == 0
    then s
    else record s { group = g; setting = s.setting - 1; resumed = s.resumed ++ tag s.running cs }
step s (awaits c) = let (b, g) = await_group s.group c in record s { group = g }

unfoldable pub run : System → List Move → System
run s [] = s
run s (m ∷ ms) = run (step s m) ms
