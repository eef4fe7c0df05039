-- ===== src/WhenAll/Tasks/Tests.antt =====
-- include/coro/when_all.hpp: a run of three tasks at concrete inputs.
use libcoro.Base.{ℕ, ◌≡◌, ◌⊎◌, refl, some, List, [], ◌∷◌, map, arith}
use libcoro.Task.{Result, returned, thrown}
use libcoro.WhenAll.{make_latch, store_awaiting, await_count_down, notify_awaitable_completed}
use libcoro.WhenAll.System
use libcoro.WhenAll.Once.{continued}
use libcoro.WhenAll.Tasks.{
  return_value_of, make_when_all_task, when_all, start_next, finish_at, Move, starts, stores,
  counts_down, completes, start, step, run,
}
use libcoro.WhenAll.Tasks.Results.{gives_results}

abbrev awaitables : List (Result ℕ ℕ)
awaitables = returned 4 ∷ thrown 9 ∷ returned 6 ∷ []

-- The third task is done before the awaiting coroutine suspends, and the first is the last.
abbrev moves : List Move
moves =
    starts
    ∷ starts
    ∷ starts
    ∷ completes 2
    ∷ completes 2
    ∷ stores
    ∷ counts_down
    ∷ completes 1
    ∷ completes 0
    ∷ []

results-moves : map return_value_of (run 5 (start awaitables) moves).tasks ≡ map some awaitables
unfolding run step start when_all make_when_all_task start_next finish_at System.start
results-moves = refl

resumed-moves : let s = (run 5 (start awaitables) moves).system in continued s.phase s.resumed ≡ 1
unfolding run step start when_all make_when_all_task start_next finish_at System.start System.step
    make_latch store_awaiting await_count_down notify_awaitable_completed
resumed-moves = refl

gives_results_example :
    let s = run 5 (start awaitables) moves in
    (continued s.system.phase s.system.resumed ≡ 0)
    ⊎ (map return_value_of s.tasks ≡ map some awaitables)
gives_results_example = gives_results 5 awaitables moves (omega arith)
