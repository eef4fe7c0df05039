-- ===== src/SharedMutex/Tests.antt =====
-- include/coro/shared_mutex.hpp: runs at concrete inputs.
use libcoro.Base.{ℕ, ◌+◌, ◌⊎◌, ◌≤◌, ◌<◌, ◌≡◌, refl, true, false, List, [], ◌∷◌, ◌++◌, arith}
use libcoro.SharedMutex.{
  SharedLockOperation, init, lock, try_lock, unlock_shared, unlock, wake_waiters,
}
use libcoro.SharedMutex.System.{Call, locks, unlocks_shared, unlocks, start, step, run}
use libcoro.SharedMutex.Exclusion.{run_excludes, waiting_writer_blocks}

abbrev reader : ℕ → SharedLockOperation
reader c = record { awaiting_coroutine = c; exclusive = false }

abbrev writer : ℕ → SharedLockOperation
writer c = record { awaiting_coroutine = c; exclusive = true }

-- A reader holds the lock, a writer and two readers queue, and the first two are done.
abbrev calls : List Call
calls =
    locks (reader 1)
    ∷ locks (writer 2)
    ∷ locks (reader 3)
    ∷ locks (reader 4)
    ∷ unlocks_shared
    ∷ unlocks
    ∷ []

readers-calls : (run start calls).readers ≡ 2
unfolding run step start init lock try_lock unlock_shared unlock wake_waiters
readers-calls = refl

run_excludes_example :
    let s = run start calls in
    (s.writers ≤ 1)
    × ((s.writers ≡ 0) ⊎ (s.readers ≡ 0))
    × ((0 < s.readers + s.writers) ⊎ (s.mutex.waiters ≡ []))
    × (s.queued ≡ s.woken ++ s.mutex.waiters)
run_excludes_example = run_excludes calls (omega arith)

abbrev held : List Call
held = locks (reader 1) ∷ locks (writer 2) ∷ []

waiting_writer_blocks_example : (try_lock true (run start held).mutex false).0 ≡ false
unfolding run step start init lock
waiting_writer_blocks_example = waiting_writer_blocks held true (omega arith) (omega arith)
