-- ===== src/RingBuffer/Shutdown.antt =====
-- include/coro/ring_buffer.hpp: what `shutdown` and `shutdown_drain` leave behind.
use libcoro.Base.{
  suc, ◌+◌, ◌≡◌, ◌≢◌, refl, ap, ◌∙◌, List, [], ◌∷◌, ◌++◌, arith, true, length, length-append,
  length-pos, All,
}
use libcoro.RingBuffer.Contents.{contents}
use libcoro.RingBuffer.Fifo.{Waits}
use libcoro.RingBuffer.Order.{SysInv}
use libcoro.RingBuffer.System.{System, told_all, wake_producers, step, drains}
use libcoro.RingBuffer.{RunningState, is_running, ProduceOperation, shutdown_drain}

module _ {A : Type 0} where
  -- Stopped, with nobody waiting.
  pub record IsStopped (s : System A) : Type 0 where
    pub state : s.rb.running_state ≡ RunningState.stopped
    pub producers : s.rb.produce_waiters ≡ []
    pub consumers : s.rb.consume_waiters ≡ []

  length-told_all :
      (ops : List (ProduceOperation A)) → All Waits ops → length (told_all ops) ≡ length ops
  length-told_all [] h = refl
  length-told_all (op ∷ ops) h = rw (h.0.0) (ap suc (length-told_all ops h.1))

  -- In a state where what has been reported is what has been delivered and then the contents, and
  -- some producer is suspended: `shutdown_drain` reports each suspended producer's element as
  -- produced although the contents stay as they were, so that this no longer holds.
  pub drain_loses :
      (s : System A)
      → SysInv s
      → is_running s.rb.running_state ≡ true
      → s.rb.produce_waiters ≢ []
      → let t = step s drains in
        (t.reported ≡ s.reported ++ told_all s.rb.produce_waiters)
        × (length t.reported ≡ length s.reported + length s.rb.produce_waiters)
        × (contents t.rb ≡ contents s.rb)
        × (t.reported ≢ t.delivered ++ contents t.rb)
  unfolding step shutdown_drain wake_producers
  drain_loses s v h w = rw h (refl, more, refl, lost)
    where
      more :
          length (s.reported ++ told_all s.rb.produce_waiters)
          ≡ length s.reported + length s.rb.produce_waiters
      more =
          length-append s.reported (told_all s.rb.produce_waiters)
          ∙ ap (◌+◌ (length s.reported)) (length-told_all s.rb.produce_waiters v.producers)

      lost : s.reported ++ told_all s.rb.produce_waiters ≢ s.delivered ++ contents s.rb
      lost e = omega (arith, more, ap length e, ap length v.fifo, length-pos s.rb.produce_waiters w)
