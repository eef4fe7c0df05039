-- ===== src/Queue/System.antt =====
-- include/coro/queue.hpp: a queue with its callers. An event is one critical section, so a list of
-- events is an interleaving. What the callers are told is logged.
use libcoro.Base.{ℕ, ◌+◌, Bool, Option, none, some, List, [], ◌∷◌, ◌++◌, length}
use libcoro.Queue.{
  ProduceResult, Expected, value, unexpected, RunningState, Awaiter, Queue, init, await_resume, pop,
  push, try_pop, shutdown, shutdown_drain,
}

pub record System (A : Type 0) : Type 0 where
  pub queue : Queue A
  -- the elements whose `push` or `emplace` has returned `produced`
  pub pushed : List A
  -- the elements that `pop` and `try_pop` have returned
  pub popped : List A
  -- the calls of `pop`, and those of them whose coroutine has been resumed or was not suspended
  pub asked : ℕ
  pub answered : ℕ

pub data Event (A : Type 0) : Type 0 where
  pushes : A → Event A
  pops : ℕ → Event A
  -- with the answer of `m_mutex.try_lock()`
  try_pops : Bool → Event A
  -- with the running state that the call loaded before it took the lock
  shuts_down : RunningState → Event A
  drains : Event A

module _ {A : Type 0} where
  unfoldable pub start : System A
  start = record { queue = init; pushed = []; popped = []; asked = 0; answered = 0 }

  abbrev pub told : ProduceResult → A → List A
  told ProduceResult.produced x = x ∷ []
  told ProduceResult.stopped x = []

  abbrev pub given : Expected A → List A
  given (value x) = x ∷ []
  given (unexpected r) = []

  -- What the coroutines of these awaiters get when they are resumed.
  abbrev pub given_all : List (Awaiter A) → List A
  given_all [] = []
  given_all (w ∷ ws) = given (await_resume w) ++ given_all ws

  abbrev pub given_one : Option (Awaiter A) → List A
  given_one none = []
  given_one (some w) = given (await_resume w)

  abbrev pub count_one : Option (Awaiter A) → ℕ
  count_one none = 0
  count_one (some w) = 1

  unfoldable pub step : System A → Event A → System A
  step s (pushes x) =
      let (r, w, q) = push s.queue x in
      record s {
        queue = q;
        pushed = s.pushed ++ told r x;
        popped = s.popped ++ given_one w;
        answered = s.answered + count_one w;
      }
  step s (pops c) =
      let (w, q) = pop s.queue c in
      record s {
        queue = q;
        popped = s.popped ++ given_one w;
        asked = s.asked + 1;
        answered = s.answered + count_one w;
      }
  step s (try_pops locked) =
      let (r, q) = try_pop locked s.queue in record s { queue = q; popped = s.popped ++ given r }
  step s (shuts_down r) =
      let (ws, q) = shutdown r s.queue in
      record s { queue = q; popped = s.popped ++ given_all ws; answered = s.answered + length ws }
  step s drains = let (goes_on, q) = shutdown_drain s.queue in record s { queue = q }

  unfoldable pub run : System A → List (Event A) → System A
  run s [] = s
  run s (ev ∷ evs) = run (step s ev) evs
