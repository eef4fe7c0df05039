-- ===== src/ThreadPool/Draining.antt =====
-- src/thread_pool.cpp: in every interleaving `m_size` counts the work there is, handles are taken in
-- order, and workers stop only when the queue is empty.
use libcoro.Base.{
  ℕ, zero, suc, ◌+◌, ◌≤◌, ◌<◌, ◌≡◌, ◌⊎◌, refl, ap, ◌∙◌, inl, Option, none, some, List, [], ◌∷◌,
  ◌++◌, arith, length, length-append, get_or, size_mod, append_assoc, replicate,
}
use libcoro.ThreadPool.{
  Handle, init, add_size, sub_size, may_queue, schedule_impl, range_add, range_handles, range_queue,
  range_sub, shutdown, Worker, serving, stopped,
}
use libcoro.ThreadPool.System.{
  System, Move, works, adds, loads, refuses, detaches, detached_ends, shuts_down, queues,
  range_adds, range_queues, range_subs, start, total, busy, at_end, lateness, step, run,
}
use libcoro.ThreadPool.Counting.{Inv, units, total-get_or, step-works, units-works, Works-executor}

-- The units of `m_size` that a move may add.
abbrev pub cost : Move → ℕ
cost (range_adds hs) = suc (length hs)
cost _ = 1

length-range_handles :
    (hs : List (Option Handle))
    → (let (queued, nulls) = range_handles hs in length queued + nulls ≡ length hs)
unfolding range_handles
length-range_handles [] = refl
length-range_handles (none ∷ hs) = omega (arith, length-range_handles hs)
length-range_handles (some h ∷ hs) = omega (arith, length-range_handles hs)

fifo-append : (a t q x : List Handle) → a ≡ t ++ q → a ++ x ≡ t ++ (q ++ x)
fifo-append a t q x e = ap (λ l. l ++ x) e ∙ append_assoc t q x

late-append :
    (s : System) (x : List Handle)
    → (total at_end s.workers ≡ 0) ⊎ (length s.pool.queue ≤ s.late)
    → (total at_end s.workers ≡ 0) ⊎ (length (s.pool.queue ++ x) ≤ lateness s (length x))
late-append s x d = ground (arith, d, length-append s.pool.queue x)

step-Inv : (s : System) (m : Move) → Inv s → units s + cost m < size_mod → Inv (step s m)
unfolding step add_size sub_size may_queue schedule_impl range_add range_queue range_sub shutdown
step-Inv s (works i) v b =
    let k =
      Works-executor s v (omega arith) (get_or s.workers i stopped)
        (total-get_or busy s.workers i refl) in
    step-works s i (get_or s.workers i stopped) _ _ v refl k
step-Inv s adds v b = ground (arith, v.counted, v.drained, v.fifo)
step-Inv s loads v b = ground (arith, v.counted, v.drained, v.fifo)
step-Inv s refuses v b = ground (arith, v.counted, v.drained, v.fifo)
step-Inv s detaches v b = ground (arith, v.counted, v.drained, v.fifo)
step-Inv s detached_ends v b = ground (arith, v.counted, v.drained, v.fifo)
step-Inv s shuts_down v b = ground (arith, v.counted, v.drained, v.fifo)
step-Inv s (queues h) v b = ground (
  arith,
  v.counted,
  late-append s (h ∷ []) v.drained,
  fifo-append s.queued s.taken s.pool.queue (h ∷ []) v.fifo,
  length-append s.pool.queue (h ∷ []),
)
step-Inv s (range_adds hs) v b = ground (arith, v.counted, v.drained, v.fifo)
step-Inv s (range_queues hs) v b = ground (
  arith,
  v.counted,
  late-append s (range_handles hs).0 v.drained,
  length-range_handles hs,
  fifo-append s.queued s.taken s.pool.queue (range_handles hs).0 v.fifo,
  length-append s.pool.queue (range_handles hs).0,
)
step-Inv s (range_subs n) v b = ground (arith, v.counted, v.drained, v.fifo)

units-step :
    (s : System) (m : Move) → Inv s → units s < size_mod → units (step s m) ≤ units s + cost m
unfolding step add_size sub_size may_queue schedule_impl range_add range_queue range_sub shutdown
units-step s (works i) v b =
    let k =
      Works-executor s v b (get_or s.workers i stopped) (total-get_or busy s.workers i refl) in
    omega (arith, units-works s i (get_or s.workers i stopped) _ _ refl k)
units-step s adds v b = omega arith
units-step s loads v b = ground arith
units-step s refuses v b = ground arith
units-step s detaches v b = ground arith
units-step s detached_ends v b = ground arith
units-step s shuts_down v b = ground arith
units-step s (queues h) v b = ground (arith, length-append s.pool.queue (h ∷ []))
units-step s (range_adds hs) v b = ground arith
units-step s (range_queues hs) v b =
    ground (arith, length-range_handles hs, length-append s.pool.queue (range_handles hs).0)
units-step s (range_subs n) v b = ground arith

run-Inv :
    (s : System) (ms : List Move) → Inv s → units s + total cost ms < size_mod → Inv (run s ms)
unfolding run
run-Inv s [] v b = v
run-Inv s (m ∷ ms) v b =
    run-Inv (step s m) ms (step-Inv s m v (omega arith))
      (omega (arith, units-step s m v (omega arith)))

total-replicate : (f : Worker → ℕ) (n : ℕ) → f serving ≡ 0 → total f (replicate n serving) ≡ 0
total-replicate f zero h = refl
total-replicate f (suc n) h = omega (arith, h, total-replicate f n h)

units-start : (n : ℕ) → units (start n) ≡ 0
unfolding start init
units-start n = omega (arith, total-replicate busy n refl)

start-Inv : (n : ℕ) → Inv (start n)
unfolding start init
start-Inv n = record {
  counted = omega (arith, total-replicate busy n refl);
  drained = inl (total-replicate at_end n refl);
  fifo = refl;
}

-- For any number of workers and any interleaving whose calls add fewer than 2 ^ 64 units: `m_size`
-- is the number of queued handles, of handles being resumed, of detached tasks that have not ended
-- and of units that calls under way hold; workers take the handles in the order in which they were
-- queued; and once a worker has stopped, the queue holds no more handles than have been queued since
-- the first did.
pub run_drains :
    (n : ℕ) (ms : List Move)
    → total cost ms < size_mod
    → let s = run (start n) ms in
      (s.pool.size ≡ units s)
      × (s.queued ≡ s.taken ++ s.pool.queue)
      × ((total at_end s.workers ≡ 0) ⊎ (length s.pool.queue ≤ s.late))
run_drains n ms b =
    let v : Inv (run (start n) ms) =
      run-Inv (start n) ms (start-Inv n) (omega (arith, units-start n)) in
    (v.counted, v.fifo, v.drained)
