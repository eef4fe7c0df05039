-- ===== src/SharedMutex/Shape.antt =====
-- include/coro/shared_mutex.hpp: the invariant, and what it says of the waiting operations.
use libcoro.Base.{
  ℕ, suc, ◌+◌, ◌≤◌, ◌<◌, ◌≡◌, refl, ◌∙◌, inl, inr, true, false, List, [], ◌∷◌, ◌++◌, arith,
  if◌then◌else◌, length, size_mod, Bool-cases, append_assoc, fetch_add,
}
use libcoro.SharedMutex.{
  State, unlocked, locked_shared, locked_exclusive, SharedLockOperation, SharedMutex, wake_shared,
}
use libcoro.SharedMutex.System.{System, enter_all}

abbrev pub count_exclusive : List SharedLockOperation → ℕ
count_exclusive [] = 0
count_exclusive (op ∷ ops) = if op.exclusive then suc (count_exclusive ops) else count_exclusive ops

-- The first operation, if there is one, is exclusive.
abbrev pub HeadExclusive : List SharedLockOperation → Type 0
HeadExclusive [] = Unit {0}
HeadExclusive (op ∷ ops) = op.exclusive ≡ true

-- The state against the holders and the waiting operations.
abbrev pub Fits : State → ℕ → ℕ → List SharedLockOperation → Type 0
Fits unlocked readers writers ops = (readers ≡ 0) × (writers ≡ 0) × (ops ≡ [])
Fits locked_shared readers writers ops = (0 < readers) × (writers ≡ 0) × HeadExclusive ops
Fits locked_exclusive readers writers ops = (readers ≡ 0) × (writers ≡ 1)

pub record Inv (s : System) : Type 0 where
  pub users : s.mutex.shared_users ≡ s.readers
  pub exclusive : s.mutex.exclusive_waiters ≡ count_exclusive s.mutex.waiters
  pub fits : Fits s.mutex.state s.readers s.writers s.mutex.waiters
  pub fifo : s.queued ≡ s.woken ++ s.mutex.waiters

-- The tasks that hold the lock or wait for it.
abbrev pub population : System → ℕ
population s = s.readers + s.writers + length s.mutex.waiters

pub count_exclusive-append :
    (ops : List SharedLockOperation) (op : SharedLockOperation)
    → count_exclusive (ops ++ op ∷ []) ≡ count_exclusive ops + (if op.exclusive then 1 else 0)
count_exclusive-append [] op = ground arith
count_exclusive-append (x ∷ ops) op = ground (arith, count_exclusive-append ops op)

pub count_exclusive-le : (ops : List SharedLockOperation) → count_exclusive ops ≤ length ops
count_exclusive-le [] = omega arith
count_exclusive-le (op ∷ ops) = ground (arith, count_exclusive-le ops)

pub HeadExclusive-append :
    (ops : List SharedLockOperation) (op : SharedLockOperation)
    → HeadExclusive ops
    → (ops ≡ [] → op.exclusive ≡ true)
    → HeadExclusive (ops ++ op ∷ [])
HeadExclusive-append [] op h k = k refl
HeadExclusive-append (x ∷ ops) op h k = h

-- The system after the loop of `wake_waiters` over `ops`, with every task that got the lock counted.
abbrev pub woken_shared : System → SharedMutex → List SharedLockOperation → System
woken_shared s m ops = let (w, m') = wake_shared m ops in enter_all w (record s { mutex = m' })

-- 1 if the first operation is a shared one.
abbrev pub shared_head : List SharedLockOperation → ℕ
shared_head [] = 0
shared_head (op ∷ ops) = if op.exclusive then 0 else 1

-- From `s`, shared operations at the head of `ops` have got the lock, which leads to `r`.
pub record Woken (s r : System) (state : State) (ops : List SharedLockOperation) : Type 0 where
  pub users : r.mutex.shared_users ≡ r.readers
  pub exclusive : r.mutex.exclusive_waiters ≡ count_exclusive r.mutex.waiters
  pub state_kept : r.mutex.state ≡ state
  pub writers : r.writers ≡ s.writers
  pub head : HeadExclusive r.mutex.waiters
  pub fifo : r.woken ++ r.mutex.waiters ≡ s.woken ++ ops
  pub queued : r.queued ≡ s.queued
  pub people : r.readers + length r.mutex.waiters ≡ s.readers + length ops
  pub more : s.readers + shared_head ops ≤ r.readers

pub wake_shared-Woken :
    (s : System) (m : SharedMutex) (ops : List SharedLockOperation)
    → m.shared_users ≡ s.readers
    → m.exclusive_waiters ≡ count_exclusive ops
    → s.readers + length ops < size_mod
    → Woken s (woken_shared s m ops) m.state ops
unfolding wake_shared
wake_shared-Woken s m [] u x b = record {
  users = u;
  exclusive = x;
  state_kept = refl;
  writers = refl;
  head = tt;
  fifo = refl;
  queued = refl;
  people = refl;
  more = omega arith;
}
wake_shared-Woken s m (op ∷ ops) u x b = elim (Bool-cases op.exclusive) [
  | inl e ↦ rw e (record {
    users = u;
    exclusive = x ∙ rw e;
    state_kept = refl;
    writers = refl;
    head = refl;
    fifo = refl;
    queued = refl;
    people = refl;
    more = omega arith;
  })
  | inr e ↦
      let reader : SharedLockOperation = record {
        awaiting_coroutine = op.awaiting_coroutine;
        exclusive = false;
      } in
      let s' : System = record s { readers = s.readers + 1; woken = s.woken ++ reader ∷ [] } in
      let m' : SharedMutex = record m {
        waiters = ops;
        shared_users = fetch_add m.shared_users 1;
      } in
      let r : Woken s' (woken_shared s' m' ops) m.state ops =
        wake_shared-Woken s' m' ops (omega arith) (x ∙ rw e) (omega arith) in
      rw e (record {
        users = r.users;
        exclusive = r.exclusive;
        state_kept = r.state_kept;
        writers = r.writers;
        head = r.head;
        fifo = r.fifo ∙ append_assoc s.woken (reader ∷ []) ops;
        queued = r.queued;
        people = omega (arith, r.people);
        more = omega (arith, r.more);
      })
]
