-- ===== src/Queue/Order.antt =====
-- include/coro/queue.hpp: every interleaving delivers the pushed elements once and in order.
use libcoro.Base.{◌+◌, length, none, [], ◌++◌, ◌≡◌, ◌⊎◌, All}
use libcoro.Queue.System.{System}
use libcoro.Queue.{RunningState, Awaiter, Queue}

module _ {A : Type 0} where
  abbrev pub IsEmpty : Awaiter A → Type 0
  IsEmpty w = w.element ≡ none

  pub record Inv (s : System A) : Type 0 where
    pub fifo : s.pushed ≡ s.popped ++ s.queue.elements
    pub idle : (s.queue.waiters ≡ []) ⊎ (s.queue.elements ≡ [])
    pub waiters : All IsEmpty s.queue.waiters
    pub each : s.asked ≡ s.answered + length s.queue.waiters

  pub record IsStopped (q : Queue A) : Type 0 where
    pub state : q.running_state ≡ RunningState.stopped
    pub nobody : q.waiters ≡ []
