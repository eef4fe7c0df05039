-- ===== src/ThreadPool/Tests.antt =====
-- include/coro/thread_pool.hpp: runs at concrete inputs.
use libcoro.Base.{ℕ, ◌≤◌, ◌≡◌, ◌⊎◌, refl, false, none, some, List, [], ◌∷◌, ◌++◌, arith, length}
use libcoro.ThreadPool.{
  Handle, init, add_size, sub_size, may_queue, resumable, schedule_impl, range_add, range_handles,
  range_queue, range_sub, shutdown, executor,
}
use libcoro.ThreadPool.System.{
  Move, works, adds, loads, shuts_down, queues, range_adds, range_queues, range_subs, start, total,
  at_end, step, run,
}
use libcoro.ThreadPool.Counting.{units}
use libcoro.ThreadPool.Draining.{run_drains}
use libcoro.ThreadPool.Stranded.{queues_stranded}

abbrev handle : ℕ → Handle
handle c = record { coroutine = c; done = false }

-- Two workers; one handle and a range with a null handle are queued, one is taken in each loop.
abbrev moves : List Move
moves =
    adds
    ∷ loads
    ∷ works 0
    ∷ queues (handle 7)
    ∷ works 0
    ∷ range_adds (some (handle 8) ∷ none ∷ [])
    ∷ range_queues (some (handle 8) ∷ none ∷ [])
    ∷ range_subs 1
    ∷ shuts_down
    ∷ works 1
    ∷ works 1
    ∷ works 1
    ∷ []

taken-moves : (run (start 2) moves).taken ≡ handle 7 ∷ handle 8 ∷ []
unfolding run step start init add_size sub_size may_queue schedule_impl resumable range_add
    range_handles range_queue range_sub shutdown executor
taken-moves = refl

run_drains_example :
    let s = run (start 2) moves in
    (s.pool.size ≡ units s)
    × (s.queued ≡ s.taken ++ s.pool.queue)
    × ((total at_end s.workers ≡ 0) ⊎ (length s.pool.queue ≤ s.late))
run_drains_example = run_drains 2 moves (omega arith)

-- A call is let through, the pool shuts down, and its only worker finds the queue empty.
abbrev closing : List Move
closing = adds ∷ loads ∷ shuts_down ∷ works 0 ∷ works 0 ∷ works 0 ∷ []

queues_stranded_example :
    let s = run (start 1) closing in
    ((step s (queues (handle 7))).pool.queue ≡ s.pool.queue ++ handle 7 ∷ [])
    × ((run s (queues (handle 7) ∷ works 0 ∷ [])).taken ≡ s.taken)
unfolding run step start init add_size may_queue shutdown executor
queues_stranded_example =
    queues_stranded (run (start 1) closing) (handle 7) (works 0 ∷ []) (refl, tt) (omega arith) refl
