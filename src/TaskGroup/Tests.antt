-- ===== src/TaskGroup/Tests.antt =====
-- include/coro/task_group.hpp: runs at concrete inputs.
use libcoro.Base.{◌+◌, ◌<◌, ◌⊎◌, ◌≡◌, refl, true, false, List, [], ◌∷◌, arith}
use libcoro.Event
use libcoro.Event.{awaiters}
use libcoro.TaskGroup.{init, start_reset, start_add, count_down, count_down_set, await_group}
use libcoro.TaskGroup.System.{System, Move, resets, adds, ends, sets, awaits, start, step, run}
use libcoro.TaskGroup.Waiting.{run_releases, start_races_count_down}

abbrev moves : List Move
moves = resets ∷ adds ∷ awaits 9 ∷ resets ∷ ends ∷ adds ∷ sets ∷ ends ∷ sets ∷ []

resumed-moves : (run start moves).resumed ≡ (9, 1) ∷ []
unfolding run step start init start_reset start_add count_down count_down_set await_group
    Event.make_event Event.reset Event.set Event.await_suspend
resumed-moves = refl

run_releases_example :
    let s = run start moves in
    (s.group.size ≡ s.running)
    × ((0 < s.starting + s.running + s.setting) ⊎ (Event.is_set s.group.on_empty_event ≡ true))
run_releases_example = run_releases moves (omega arith)

abbrev one_task : System
one_task = record {
  group = record { size = 1; on_empty_event = awaiters [] };
  starting = 0;
  running = 1;
  setting = 0;
  resumed = [];
}

start_races_count_down_example :
    let t = run one_task (resets ∷ ends ∷ sets ∷ adds ∷ []) in
    (t.running ≡ 1)
    × (Event.is_set t.group.on_empty_event ≡ true)
    × ((await_group t.group 5).0 ≡ false)
start_races_count_down_example = start_races_count_down one_task 5 refl refl
