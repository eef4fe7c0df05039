-- ===== src/Latch/Tests.antt =====
-- include/coro/latch.hpp: runs at concrete inputs.
use libcoro.Base.{◌-◌, ◌≤◌, ◌≡◌, refl, true, List, [], ◌∷◌, arith}
use libcoro.Event.{make_event, await_suspend, set}
use libcoro.Latch.{make_latch, is_ready, remaining, count_down, await_latch}
use libcoro.Latch.Opening.{Call, counts_down, awaits, step, run, start, total, latch_opens}

abbrev work : List Call
work = counts_down 2 ∷ awaits 7 ∷ counts_down 1 ∷ awaits 8 ∷ counts_down 3 ∷ []

resumed-work : (run (start 5) work).resumed ≡ 8 ∷ 7 ∷ []
unfolding run step start make_latch count_down await_latch make_event await_suspend set
resumed-work = refl

latch_opens_example :
    let l = (run (start 5) work).latch in
    (is_ready l ≡ true) × (total work ≤ 5 → remaining l ≡ 5 - total work)
latch_opens_example = latch_opens 5 work (omega arith) (omega arith)
