-- ===== src/WhenAll/Tests.antt =====
-- include/coro/when_all.hpp: runs at concrete inputs.
use libcoro.Base.{◌≤◌, ◌<◌, ◌≡◌, ◌⊎◌, refl, false, List, [], ◌∷◌, arith}
use libcoro.WhenAll.{
  make_latch, store_awaiting, await_count_down, notify_awaitable_completed, coroutine,
}
use libcoro.WhenAll.System.{Move, starts, completes, stores, counts_down, start, step, run}
use libcoro.WhenAll.Once.{continued, decided, run_continues_once}

-- Two tasks; one completes before the other is started, and one after the coroutine has suspended.
abbrev moves : List Move
moves = starts ∷ completes ∷ starts ∷ stores ∷ counts_down ∷ completes ∷ []

resumed-moves : (run 5 (start 2) moves).resumed ≡ coroutine 5 ∷ []
unfolding run step start make_latch store_awaiting await_count_down notify_awaitable_completed
resumed-moves = refl

run_continues_once_example :
    let s = run 5 (start 2) moves in
    (continued s.phase s.resumed ≤ 1)
    × ((s.resumed ≡ []) ⊎ (s.resumed ≡ coroutine 5 ∷ []))
    × ((continued s.phase s.resumed ≡ 0) ⊎ (s.completed ≡ 2))
    × ((decided s.phase ≡ false) ⊎ ((s.completed < 2) ⊎ (continued s.phase s.resumed ≡ 1)))
run_continues_once_example = run_continues_once 2 5 moves (omega arith)
