-- ===== src/WhenAny/Tests.antt =====
-- include/coro/when_any.hpp: runs at concrete inputs.
use libcoro.Base.{ℕ, ◌≡◌, ◌⊎◌, refl, false, some, List, [], ◌∷◌}
use libcoro.Event
use libcoro.WhenAny.{make_when_any, exchange_first, store_result, notify_set, await_notify}
use libcoro.WhenAny.System.{Move, completes, stores, notifies, awaits, start, step, run}
use libcoro.WhenAny.First.{first, has_notified, has_asked, run_takes_first}

-- The caller suspends between the first task's exchange and its store, and a second task completes.
abbrev moves : List (Move ℕ)
moves = completes 10 ∷ awaits ∷ completes 20 ∷ stores ∷ notifies ∷ []

returned-moves : (run start moves).returned ≡ some 10 ∷ []
unfolding run step start make_when_any exchange_first store_result notify_set await_notify
    Event.make_event Event.set Event.await_suspend
returned-moves = refl

run_takes_first_example :
    let s = run start moves in
    ((s.returned ≡ []) ⊎ ((x : ℕ) × (first s.completed ≡ some x) × (s.returned ≡ some x ∷ [])))
    × ((has_notified s.winner ≡ false)
        ⊎ ((has_asked s.caller ≡ false)
            ⊎ ((x : ℕ) × (first s.completed ≡ some x) × (s.returned ≡ some x ∷ []))))
run_takes_first_example = run_takes_first moves
