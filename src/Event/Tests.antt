-- ===== src/Event/Tests.antt =====
-- src/event.cpp: runs at concrete inputs.
use libcoro.Base.{◌+◌, ◌≡◌, refl, false, List, [], ◌∷◌}
use libcoro.Event.{lifo, fifo, make_event, await_suspend, set, reset}
use libcoro.Event.Order.{
  Call, suspends, sets, resets, step, run, start, waiting, count, run_resumes_each,
}

abbrev calls : List Call
calls =
    suspends 1
    ∷ suspends 2
    ∷ sets lifo
    ∷ suspends 3
    ∷ resets
    ∷ suspends 4
    ∷ suspends 5
    ∷ sets fifo
    ∷ resets
    ∷ suspends 6
    ∷ []

resumed-calls : (run (start false) calls).resumed ≡ 2 ∷ 1 ∷ 4 ∷ 5 ∷ []
unfolding run step start make_event await_suspend set reset
resumed-calls = refl

run_resumes_each_example :
    let h = run (start false) calls in
    count 6 h.suspended ≡ count 6 h.resumed + count 6 (waiting h.event)
run_resumes_each_example = run_resumes_each 6 false calls

abbrev fair_calls : List Call
fair_calls = suspends 1 ∷ suspends 2 ∷ sets fifo ∷ resets ∷ suspends 3 ∷ []
