-- ===== src/SharedMutex/System.antt =====
-- include/coro/shared_mutex.hpp: a shared mutex with its callers. A call is one critical section, so
-- a list of calls is an interleaving. Only holders unlock.
use libcoro.Base.{ℕ, ◌+◌, ◌-◌, Bool, true, false, List, [], ◌∷◌, ◌++◌, ◌==◌, if◌then◌else◌}
use libcoro.SharedMutex.{
  SharedLockOperation, SharedMutex, init, lock, try_lock, unlock_shared, unlock,
}

pub record System : Type 0 where
  pub mutex : SharedMutex
  -- the tasks that hold the lock shared, and exclusively
  pub readers : ℕ
  pub writers : ℕ
  -- the operations that have been suspended, and those of them that have got the lock since
  pub queued : List SharedLockOperation
  pub woken : List SharedLockOperation

pub data Call : Type 0 where
  locks : SharedLockOperation → Call
  -- with the answer of `m_mutex.try_lock()`, and whether the attempt is exclusive
  tries : Bool → Bool → Call
  unlocks_shared unlocks : Call

unfoldable pub start : System
start = record { mutex = init; readers = 0; writers = 0; queued = []; woken = [] }

-- A task gets the lock.
abbrev pub enter : Bool → System → System
enter true s = record s { writers = s.writers + 1 }
enter false s = record s { readers = s.readers + 1 }

abbrev pub enter_all : List SharedLockOperation → System → System
enter_all [] s = s
enter_all (op ∷ ops) s =
    enter_all ops (enter op.exclusive (record s { woken = s.woken ++ op ∷ [] }))

unfoldable pub step : System → Call → System
step s (locks op) =
    let (got, m) = lock s.mutex op in
    if got
    then enter op.exclusive (record s { mutex = m })
    else record s { mutex = m; queued = s.queued ++ op ∷ [] }
step s (tries free exclusive) =
    let (got, m) = try_lock free s.mutex exclusive in
    if got then enter exclusive (record s { mutex = m }) else record s { mutex = m }
step s unlocks_shared =
    let (ops, m) = unlock_shared s.mutex in
    if s.readers == 0 then s else enter_all ops (record s { mutex = m; readers = s.readers - 1 })
step s unlocks =
    let (ops, m) = unlock s.mutex in
    if s.writers == 0 then s else enter_all ops (record s { mutex = m; writers = s.writers - 1 })

unfoldable pub run : System → List Call → System
run s [] = s
run s (k ∷ ks) = run (step s k) ks
