-- ===== src/ThreadPool/Stranded.antt =====
-- src/thread_pool.cpp: a call that is let through before `shutdown` can queue its handle after the
-- workers have stopped.
use libcoro.Base.{
  ℕ, zero, suc, ◌<◌, ◌≡◌, refl, ◌∙◌, false, List, [], ◌∷◌, ◌++◌, arith, get_or, set, append-nil,
  All,
}
use libcoro.ThreadPool.{Handle, resumable, schedule_impl, Worker, stopped, executor}
use libcoro.ThreadPool.System.{
  System, Move, works, adds, loads, refuses, detaches, detached_ends, shuts_down, queues,
  range_adds, range_queues, range_subs, step, run,
}

abbrev pub AllStopped : List Worker → Type 0
AllStopped ws = All (λ w. w ≡ stopped) ws

get_or-AllStopped : (ws : List Worker) (i : ℕ) → AllStopped ws → get_or ws i stopped ≡ stopped
get_or-AllStopped [] i a = refl
get_or-AllStopped (w ∷ ws) zero a = a.0
get_or-AllStopped (w ∷ ws) (suc i) a = get_or-AllStopped ws i a.1

set-AllStopped : (ws : List Worker) (i : ℕ) → AllStopped ws → AllStopped (set ws i stopped)
set-AllStopped [] i a = a
set-AllStopped (w ∷ ws) zero a = (refl, a.1)
set-AllStopped (w ∷ ws) (suc i) a = (a.0, set-AllStopped ws i a.1)

step_stopped :
    (s : System) (m : Move)
    → AllStopped s.workers
    → ((step s m).taken ≡ s.taken) × AllStopped (step s m).workers
unfolding step executor
step_stopped s (works i) a =
    rw (get_or-AllStopped s.workers i a) (append-nil s.taken, set-AllStopped s.workers i a)
step_stopped s adds a = (refl, a)
step_stopped s loads a = ground (arith, a)
step_stopped s refuses a = ground (arith, a)
step_stopped s detaches a = (refl, a)
step_stopped s detached_ends a = ground (arith, a)
step_stopped s shuts_down a = (refl, a)
step_stopped s (queues h) a = ground (arith, a)
step_stopped s (range_adds hs) a = (refl, a)
step_stopped s (range_queues hs) a = ground (arith, a)
step_stopped s (range_subs n) a = ground (arith, a)

run_stopped : (s : System) (ms : List Move) → AllStopped s.workers → (run s ms).taken ≡ s.taken
unfolding run
run_stopped s [] a = refl
run_stopped s (m ∷ ms) a =
    let (same, rest) = step_stopped s m a in run_stopped (step s m) ms rest ∙ same

-- When every worker has stopped while a call that was let through has yet to queue its handle, that
-- handle is queued, and whatever happens then no worker takes it or any other.
pub queues_stranded :
    (s : System) (h : Handle) (ms : List Move)
    → AllStopped s.workers
    → 0 < s.admitted
    → h.done ≡ false
    → ((step s (queues h)).pool.queue ≡ s.pool.queue ++ h ∷ [])
      × ((run s (queues h ∷ ms)).taken ≡ s.taken)
unfolding step schedule_impl resumable
queues_stranded s h ms a p d = (ground (arith, p, d), run_stopped s (queues h ∷ ms) a)
