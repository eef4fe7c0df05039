-- ===== src/ThreadPool/System.antt =====
-- src/thread_pool.cpp: a pool with its workers and callers. A move is one access of one of them, so a
-- list of moves is an interleaving.
use libcoro.Base.{
  ◌||◌, ℕ, ◌+◌, ◌-◌, Option, some, List, [], ◌∷◌, ◌++◌, ◌==◌, ltb, if◌then◌else◌, length, get_or,
  set, replicate,
}
use libcoro.ThreadPool.{
  Handle, ThreadPool, init, add_size, sub_size, may_queue, schedule_impl, range_add, range_handles,
  range_queue, range_sub, shutdown, Worker, serving, stopped, executing, finishing, executor,
}

pub record System : Type 0 where
  pub pool : ThreadPool
  pub workers : List Worker
  -- units of `m_size` that a `schedule` or `resume` holds: added, with the load to come; let through
  -- by it; and turned away by it
  pub adding : ℕ
  pub admitted : ℕ
  pub refused : ℕ
  -- those of `resume` on ranges: before the queueing, and the null handles after it
  pub ranging : ℕ
  pub nulls : ℕ
  -- those of the detached tasks that have not ended
  pub detached : ℕ
  -- the handles that have been queued, those that workers have taken, and how many have been queued
  -- since the first worker stopped
  pub queued : List Handle
  pub taken : List Handle
  pub late : ℕ

pub data Move : Type 0 where
  -- the worker with this index
  works : ℕ → Move
  adds loads refuses detaches detached_ends shuts_down : Move
  queues : Handle → Move
  range_adds range_queues : List (Option Handle) → Move
  range_subs : ℕ → Move

unfoldable pub start : ℕ → System
start thread_count = record {
  pool = init;
  workers = replicate thread_count serving;
  adding = 0;
  admitted = 0;
  refused = 0;
  ranging = 0;
  nulls = 0;
  detached = 0;
  queued = [];
  taken = [];
  late = 0;
}

-- The sum of a weight over a list.
abbrev pub total {ℓ} : {A : Type ℓ} → (A → ℕ) → List A → ℕ
total f [] = 0
total f (x ∷ xs) = f x + total f xs

-- The units of `m_size` that a worker holds.
abbrev pub busy : Worker → ℕ
busy (executing h) = 1
busy (finishing h) = 1
busy _ = 0

abbrev pub at_end : Worker → ℕ
at_end stopped = 1
at_end _ = 0

-- What a worker takes from the queue on going from one place to the next.
abbrev pub takes : Worker → Worker → List Handle
takes Worker.waiting (executing h) = h ∷ []
takes Worker.polling (finishing h) = h ∷ []
takes _ _ = []

abbrev pub lateness : System → ℕ → ℕ
lateness s n = if total at_end s.workers == 0 then s.late else s.late + n

unfoldable pub step : System → Move → System
step s (works i) =
    let (w, p) = executor s.pool (get_or s.workers i stopped) in
    record s {
      pool = p;
      workers = set s.workers i w;
      taken = s.taken ++ takes (get_or s.workers i stopped) w;
    }
step s adds = record s { pool = add_size s.pool; adding = s.adding + 1 }
step s loads =
    if s.adding == 0
    then s
    else if may_queue s.pool
    then record s { adding = s.adding - 1; admitted = s.admitted + 1 }
    else record s { adding = s.adding - 1; refused = s.refused + 1 }
step s refuses =
    if s.refused == 0 then s else record s { pool = sub_size s.pool; refused = s.refused - 1 }
step s (queues h) = if s.admitted == 0 || h.done then s else record s {
  pool = schedule_impl s.pool (some h);
  admitted = s.admitted - 1;
  queued = s.queued ++ h ∷ [];
  late = lateness s 1;
}
step s detaches = record s { pool = add_size s.pool; detached = s.detached + 1 }
step s detached_ends =
    if s.detached == 0 then s else record s { pool = sub_size s.pool; detached = s.detached - 1 }
step s (range_adds hs) = record s {
  pool = range_add s.pool (length hs);
  ranging = s.ranging + length hs;
}
step s (range_queues hs) =
    let (queued, nulls) = range_handles hs in
    if ltb s.ranging (length hs) then s else record s {
      pool = range_queue s.pool hs;
      ranging = s.ranging - length hs;
      nulls = s.nulls + nulls;
      queued = s.queued ++ queued;
      late = lateness s (length queued);
    }
step s (range_subs n) =
    if ltb s.nulls n then s else record s { pool = range_sub s.pool n; nulls = s.nulls - n }
step s shuts_down = record s { pool = (shutdown s.pool).1 }

unfoldable pub run : System → List Move → System
run s [] = s
run s (m ∷ ms) = run (step s m) ms
