-- ===== src/Queue/Tests.antt =====
-- include/coro/queue.hpp: runs at concrete inputs.
use libcoro.Base.{ℕ, true, false, List, [], ◌∷◌, ◌≡◌, refl}
use libcoro.Queue.System.{System, Event, start, step, run, pushes, pops, try_pops, drains}
use libcoro.Queue.{RunningState, init, await_resume, pop, push, try_pop, shutdown_drain}

-- Two consumers wait; two elements go to them and one stays.
abbrev busy : List (Event ℕ)
busy =
    pops 1
    ∷ pops 2
    ∷ pushes 10
    ∷ pushes 20
    ∷ pushes 30
    ∷ pushes 40
    ∷ try_pops false
    ∷ try_pops true
    ∷ drains
    ∷ pushes 50
    ∷ []

popped-busy : (run start busy).popped ≡ 10 ∷ 20 ∷ 30 ∷ []
unfolding run step start init push pop try_pop shutdown_drain await_resume
popped-busy = refl

pushed-busy : (run start busy).pushed ≡ 10 ∷ 20 ∷ 30 ∷ 40 ∷ []
unfolding run step start init push pop try_pop shutdown_drain await_resume
pushed-busy = refl

abbrev waiting : System ℕ
waiting = record {
  queue = record { waiters = []; elements = 7 ∷ []; running_state = RunningState.draining };
  pushed = 7 ∷ [];
  popped = [];
  asked = 0;
  answered = 0;
}
