-- ===== src/RingBuffer/Wakeup.antt =====
-- include/coro/ring_buffer.hpp: no wake-up is lost.
use libcoro.Base.{◌≤◌, ◌<◌, ◌≡◌, ◌⊎◌, []}
use libcoro.RingBuffer.System.{System}

module _ {A : Type 0} where
  -- A consumer waits only on an empty buffer, or while some task is in `try_resume_consumers`; and
  -- a producer only on a full one, or while some task is in `try_resume_producers`.
  pub record IsAwake (s : System A) : Type 0 where
    pub consumers : (s.rb.used ≡ 0) ⊎ ((s.rb.consume_waiters ≡ []) ⊎ (0 < s.resuming_consumers))
    pub producers :
        (s.rb.num_elements ≤ s.rb.used) ⊎ ((s.rb.produce_waiters ≡ []) ⊎ (0 < s.resuming_producers))
