-- ===== src/SharedMutex.antt =====
-- include/coro/shared_mutex.hpp, each critical section under `m_mutex` as one function. The list of
-- waiting operations runs from `m_head_waiter` to `m_tail_waiter`.
use libcoro.Base.{
  ℕ, Bool, true, false, List, [], ◌∷◌, ◌++◌, ◌==◌, ◌&&◌, if◌then◌else◌, fetch_add, fetch_sub,
}
pub mod System
pub mod Shape
pub mod Invariant
pub mod Exclusion
pub mod Tests

-- `shared_mutex::state`
pub data State : Type 0 where
  unlocked locked_shared locked_exclusive : State

abbrev pub is_unlocked : State → Bool
is_unlocked unlocked = true
is_unlocked _ = false

abbrev pub is_locked_shared : State → Bool
is_locked_shared locked_shared = true
is_locked_shared _ = false

-- A waiting `shared_lock_operation`; `m_next` is the order of the list that holds it.
pub record SharedLockOperation : Type 0 where
  pub awaiting_coroutine : ℕ
  pub exclusive : Bool

pub record SharedMutex : Type 0 where
  pub state : State
  pub shared_users : ℕ
  pub exclusive_waiters : ℕ
  pub waiters : List SharedLockOperation

-- The members' initialisers.
unfoldable pub init : SharedMutex
init = record { state = unlocked; shared_users = 0; exclusive_waiters = 0; waiters = [] }

-- `try_lock_shared_locked`
unfoldable pub try_lock_shared_locked : SharedMutex → Bool × SharedMutex
try_lock_shared_locked m =
    if is_unlocked m.state
    then (true, record m { state = locked_shared; shared_users = fetch_add m.shared_users 1 })
    else if is_locked_shared m.state && m.exclusive_waiters == 0
    then (true, record m { shared_users = fetch_add m.shared_users 1 })
    else (false, m)

-- `try_lock_locked`
unfoldable pub try_lock_locked : SharedMutex → Bool × SharedMutex
try_lock_locked m =
    if is_unlocked m.state then (true, record m { state = locked_exclusive }) else (false, m)

-- `shared_lock_operation::await_ready`
unfoldable pub await_ready : SharedMutex → SharedLockOperation → Bool × SharedMutex
unfolding try_lock_locked try_lock_shared_locked
await_ready m op = if op.exclusive then try_lock_locked m else try_lock_shared_locked m

-- `shared_lock_operation::await_suspend`
unfoldable pub await_suspend : SharedMutex → SharedLockOperation → SharedMutex
await_suspend m op = record m {
  waiters = m.waiters ++ op ∷ [];
  exclusive_waiters = if op.exclusive then fetch_add m.exclusive_waiters 1 else m.exclusive_waiters;
}

-- `lock` and `lock_shared`: whether the operation has the lock at once.
unfoldable pub lock : SharedMutex → SharedLockOperation → Bool × SharedMutex
unfolding await_ready await_suspend
lock m op =
    let (ready, m') = await_ready m op in if ready then (true, m') else (false, await_suspend m' op)

-- `try_lock` and `try_lock_shared`, given whether `m_mutex.try_lock()` succeeds.
unfoldable pub try_lock : Bool → SharedMutex → Bool → Bool × SharedMutex
unfolding try_lock_locked try_lock_shared_locked
try_lock free m exclusive =
    if free then (if exclusive then try_lock_locked m else try_lock_shared_locked m) else (false, m)

-- The loop of `wake_waiters` over the shared operations at the head: those that are handed to the
-- executor, and the mutex.
unfoldable pub wake_shared :
    SharedMutex → List SharedLockOperation → List SharedLockOperation × SharedMutex
wake_shared m [] = ([], record m { waiters = [] })
wake_shared m (op ∷ ops) =
    let (woken, m') =
      wake_shared (record m { waiters = ops; shared_users = fetch_add m.shared_users 1 }) ops in
    if op.exclusive then ([], record m { waiters = op ∷ ops }) else (op ∷ woken, m')

-- `wake_waiters`, with the operations from `head_waiter` on.
unfoldable pub wake_waiters :
    SharedMutex
    → SharedLockOperation
    → List SharedLockOperation
    → List SharedLockOperation × SharedMutex
unfolding wake_shared
wake_waiters m head rest =
    if head.exclusive
    then (
      head ∷ [],
      record m {
        state = locked_exclusive;
        waiters = rest;
        exclusive_waiters = fetch_sub m.exclusive_waiters 1;
      },
    )
    else wake_shared (record m { state = locked_shared }) (head ∷ rest)

abbrev pub wake_or_unlock :
    SharedMutex → List SharedLockOperation → List SharedLockOperation × SharedMutex
wake_or_unlock m [] = ([], record m { state = unlocked })
wake_or_unlock m (op ∷ ops) = wake_waiters m op ops

-- `unlock_shared`: the operations that get the lock.
unfoldable pub unlock_shared : SharedMutex → List SharedLockOperation × SharedMutex
unlock_shared m =
    let m' = record m { shared_users = fetch_sub m.shared_users 1 } in
    if m.shared_users == 1 then wake_or_unlock m' m.waiters else ([], m')

-- `unlock`: the operations that get the lock.
unfoldable pub unlock : SharedMutex → List SharedLockOperation × SharedMutex
unlock m = wake_or_unlock m m.waiters
