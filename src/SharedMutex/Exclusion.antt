-- ===== src/SharedMutex/Exclusion.antt =====
-- include/coro/shared_mutex.hpp: readers and writers exclude each other, and are served in order.
use libcoro.Base.{
  ◌⊎◌, ℕ, ◌+◌, ◌-◌, ◌≤◌, ◌<◌, ◌≡◌, refl, ap, inl, inr, Bool, false, List, [], ◌∷◌, ◌++◌, arith,
  ◌==◌, length, length-append, size_mod, Bool-cases, fetch_add, fetch_sub,
}
use libcoro.SharedMutex.{
  State, unlocked, locked_shared, locked_exclusive, SharedLockOperation, SharedMutex, init, lock,
  try_lock, unlock_shared, unlock, wake_shared, wake_waiters, wake_or_unlock,
}
use libcoro.SharedMutex.System.{
  System, Call, locks, tries, unlocks_shared, unlocks, start, step, run, enter_all,
}
use libcoro.SharedMutex.Shape.{count_exclusive, Fits, Inv, population}
use libcoro.SharedMutex.Invariant.{step-Inv}

-- Nobody enters or queues but in a call of his own.
wake_shared-population :
    (s : System) (m : SharedMutex) (ops : List SharedLockOperation)
    → (let (w, m') = wake_shared m ops in population (enter_all w (record s { mutex = m' })))
      ≡ s.readers + s.writers + length ops
unfolding wake_shared
wake_shared-population s m [] = refl
wake_shared-population s m (op ∷ ops) = elim (Bool-cases op.exclusive) [
  | inl e ↦ rw e
  | inr e ↦
      let reader : SharedLockOperation = record {
        awaiting_coroutine = op.awaiting_coroutine;
        exclusive = false;
      } in
      let r =
        wake_shared-population
          (record s { readers = s.readers + 1; woken = s.woken ++ reader ∷ [] })
          (record m { waiters = ops; shared_users = fetch_add m.shared_users 1 }) ops in
      rw e (omega (arith, r))
]

wake-population :
    (s : System) (m : SharedMutex) (ops : List SharedLockOperation)
    → m.waiters ≡ ops
    → (let (w, m') = wake_or_unlock m ops in population (enter_all w (record s { mutex = m' })))
      ≡ s.readers + s.writers + length ops
unfolding wake_waiters
wake-population s m [] e = rw e
wake-population s m (op ∷ ops) e = elim (Bool-cases op.exclusive) [
  | inl x ↦ rw x (omega arith)
  | inr x ↦ rw x (
      wake_shared-population s (record m { state = locked_shared })
        (record { awaiting_coroutine = op.awaiting_coroutine; exclusive = false } ∷ ops))
]

population-step : (s : System) (k : Call) → population (step s k) ≤ population s + 1
unfolding step lock try_lock unlock unlock_shared
population-step s (locks op) = ground (arith, length-append s.mutex.waiters (op ∷ []))
population-step s (tries free x) = ground arith
population-step s unlocks_shared = ground (
  arith,
  wake-population (record s { readers = s.readers - 1 })
      (record s.mutex { shared_users = fetch_sub s.mutex.shared_users 1 }) s.mutex.waiters refl,
)
population-step s unlocks =
    ground
      (arith, wake-population (record s { writers = s.writers - 1 }) s.mutex s.mutex.waiters refl)

run-Inv :
    (s : System) (ks : List Call) → Inv s → population s + length ks < size_mod → Inv (run s ks)
unfolding run
run-Inv s [] v b = v
run-Inv s (k ∷ ks) v b =
    run-Inv (step s k) ks (step-Inv s v (omega arith) k) (omega (arith, population-step s k))

start-Inv : Inv start
unfolding start init
start-Inv = record { users = refl; exclusive = refl; fits = (refl, refl, refl); fifo = refl }

excludes :
    (st : State) (r w : ℕ) (ops : List SharedLockOperation)
    → Fits st r w ops
    → (w ≤ 1) × ((w ≡ 0) ⊎ (r ≡ 0)) × ((0 < r + w) ⊎ (ops ≡ []))
excludes unlocked r w ops f = (omega arith, inl f.1, inr f.2)
excludes locked_shared r w ops f = (omega arith, inl f.1, inl (omega arith))
excludes locked_exclusive r w ops f = (omega arith, inr f.0, inl (omega arith))

-- After any interleaving of fewer than 2 ^ 64 critical sections in which only holders unlock: at
-- most one task holds the lock exclusively, and none holds it shared then; nobody waits while nobody
-- holds it; and the suspended operations get the lock in the order in which they came.
pub run_excludes :
    (ks : List Call)
    → length ks < size_mod
    → let s = run start ks in
      (s.writers ≤ 1)
      × ((s.writers ≡ 0) ⊎ (s.readers ≡ 0))
      × ((0 < s.readers + s.writers) ⊎ (s.mutex.waiters ≡ []))
      × (s.queued ≡ s.woken ++ s.mutex.waiters)
unfolding start init
run_excludes ks b =
    let v : Inv (run start ks) = run-Inv start ks start-Inv (omega arith) in
    let (one, alone, none_wait) =
      excludes (run start ks).mutex.state (run start ks).readers (run start ks).writers
        (run start ks).mutex.waiters v.fits in
    (one, alone, none_wait, v.fifo)

blocked :
    (m : SharedMutex) (free : Bool) (st : State) (r w : ℕ)
    → m.state ≡ st
    → Fits st r w m.waiters
    → m.exclusive_waiters ≡ count_exclusive m.waiters
    → 0 < count_exclusive m.waiters
    → (try_lock free m false).0 ≡ false
unfolding try_lock
blocked m free unlocked r w e f x h =
    let none : count_exclusive m.waiters ≡ 0 = ap count_exclusive f.2 in
    absurd (omega (arith, none))
blocked m free locked_shared r w e f x h =
    let some_wait : (m.exclusive_waiters == 0) ≡ false = ground arith in
    elim (Bool-cases free) [ inl t ↦ rw (t, e, some_wait) | inr t ↦ rw t ]
blocked m free locked_exclusive r w e f x h = elim (Bool-cases free) [
  | inl t ↦ rw (t, e)
  | inr t ↦ rw t
]

-- After any such interleaving: while an exclusive operation waits, a new attempt to lock shared
-- fails, so that readers cannot keep a writer out.
pub waiting_writer_blocks :
    (ks : List Call) (free : Bool)
    → length ks < size_mod
    → let m = (run start ks).mutex in
      0 < count_exclusive m.waiters → (try_lock free m false).0 ≡ false
unfolding start init
waiting_writer_blocks ks free b h =
    let v : Inv (run start ks) = run-Inv start ks start-Inv (omega arith) in
    blocked (run start ks).mutex free (run start ks).mutex.state (run start ks).readers
      (run start ks).writers refl v.fits v.exclusive h
