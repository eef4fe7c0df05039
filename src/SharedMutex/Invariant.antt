-- ===== src/SharedMutex/Invariant.antt =====
-- include/coro/shared_mutex.hpp: every critical section keeps the invariant.
use mathlib.Core.Path.{subst}
use libcoro.Base.{
  ℕ, ◌+◌, ◌-◌, ◌<◌, ◌≡◌, refl, sym, ◌∙◌, inl, inr, Bool, true, false, List, [], ◌∷◌, ◌++◌, arith,
  ◌==◌, length, size_mod, Bool-cases, append_assoc, fetch_sub,
}
use libcoro.SharedMutex.{
  State, unlocked, locked_shared, locked_exclusive, SharedLockOperation, SharedMutex, lock,
  try_lock, unlock_shared, unlock, wake_waiters, wake_or_unlock,
}
use libcoro.SharedMutex.System.{
  System, Call, locks, tries, unlocks_shared, unlocks, step, enter_all,
}
use libcoro.SharedMutex.Shape.{
  count_exclusive, Fits, Inv, population, count_exclusive-append, count_exclusive-le,
  HeadExclusive-append, Woken, woken_shared, wake_shared-Woken,
}

-- `ops` wait for a mutex that nobody holds any more.
record Free (t : System) (m : SharedMutex) (ops : List SharedLockOperation) : Type 0 where
  readers : t.readers ≡ 0
  writers : t.writers ≡ 0
  users : m.shared_users ≡ 0
  exclusive : m.exclusive_waiters ≡ count_exclusive ops
  waiters : m.waiters ≡ ops
  fifo : t.queued ≡ t.woken ++ ops
  few : length ops + 1 < size_mod

abbrev woken_by : System → SharedMutex → List SharedLockOperation → System
woken_by t m ops = let (w, m') = wake_or_unlock m ops in enter_all w (record t { mutex = m' })

wake_head-Inv :
    (t : System) (m : SharedMutex) (c : ℕ) (x : Bool) (ops : List SharedLockOperation)
    → let op : SharedLockOperation = record { awaiting_coroutine = c; exclusive = x } in
      Free t m (op ∷ ops) → Inv (woken_by t m (op ∷ ops))
unfolding wake_waiters
wake_head-Inv t m c true ops v = record {
  users = v.users ∙ sym v.readers;
  exclusive = omega (arith, v.exclusive, count_exclusive-le ops, v.few);
  fits = (v.readers, omega (arith, v.writers));
  fifo = v.fifo ∙ sym (append_assoc t.woken _ ops);
}
wake_head-Inv t m c false ops v = record {
  users = r.users;
  exclusive = r.exclusive;
  fits =
      subst (λ st. Fits st after.readers after.writers after.mutex.waiters) (sym r.state_kept)
        (some_reader, r.writers ∙ v.writers, r.head);
  fifo = r.queued ∙ v.fifo ∙ sym r.fifo;
}
  where
    reader : SharedLockOperation
    reader = record { awaiting_coroutine = c; exclusive = false }

    after : System
    after = woken_shared t (record m { state = locked_shared }) (reader ∷ ops)

    r : Woken t after locked_shared (reader ∷ ops)
    r =
        wake_shared-Woken t (record m { state = locked_shared }) (reader ∷ ops)
          (v.users ∙ sym v.readers) v.exclusive (omega (arith, v.few, v.readers))

    some_reader : 0 < after.readers
    some_reader = omega (arith, r.more)

wake-Inv :
    (t : System) (m : SharedMutex) (ops : List SharedLockOperation)
    → Free t m ops
    → Inv (woken_by t m ops)
wake-Inv t m [] v = record {
  users = v.users ∙ sym v.readers;
  exclusive = rw (v.waiters) v.exclusive;
  fits = (v.readers, v.writers, v.waiters);
  fifo = rw (v.waiters) v.fifo;
}
wake-Inv t m (op ∷ ops) v = wake_head-Inv t m op.awaiting_coroutine op.exclusive ops v

module _ (s : System) (v : Inv s) (b : population s + 1 < size_mod) where
  locks-Inv :
      (op : SharedLockOperation) (st : State)
      → s.mutex.state ≡ st
      → Fits st s.readers s.writers s.mutex.waiters
      → Inv (step s (locks op))
  unfolding step lock
  locks-Inv op unlocked e f = ground (arith, append_assoc s.woken s.mutex.waiters (op ∷ []))
  locks-Inv op locked_shared e f = ground (
    arith,
    append_assoc s.woken s.mutex.waiters (op ∷ []),
    count_exclusive-append s.mutex.waiters op,
    count_exclusive-le s.mutex.waiters,
    HeadExclusive-append s.mutex.waiters op,
  )
  locks-Inv op locked_exclusive e f = ground (
    arith,
    append_assoc s.woken s.mutex.waiters (op ∷ []),
    count_exclusive-append s.mutex.waiters op,
    count_exclusive-le s.mutex.waiters,
  )

  tries-Inv :
      (free x : Bool) (st : State)
      → s.mutex.state ≡ st
      → Fits st s.readers s.writers s.mutex.waiters
      → Inv (step s (tries free x))
  unfolding step try_lock
  tries-Inv free x unlocked e f = ground arith
  tries-Inv free x locked_shared e f = ground arith
  tries-Inv free x locked_exclusive e f = ground arith

  unlocks-Inv :
      (st : State)
      → s.mutex.state ≡ st
      → Fits st s.readers s.writers s.mutex.waiters
      → Inv (step s unlocks)
  unfolding step unlock
  unlocks-Inv unlocked e f =
      let none_left : (s.writers == 0) ≡ true = ground arith in rw none_left v
  unlocks-Inv locked_shared e f =
      let none_left : (s.writers == 0) ≡ true = ground arith in rw none_left v
  unlocks-Inv locked_exclusive e f =
      let one_left : (s.writers == 0) ≡ false = ground arith in
      rw one_left (
        wake-Inv (record s { writers = s.writers - 1 }) s.mutex s.mutex.waiters
          (record {
            readers = f.0;
            writers = omega arith;
            users = v.users ∙ f.0;
            exclusive = v.exclusive;
            waiters = refl;
            fifo = v.fifo;
            few = omega arith;
          }))

  last_reader-Inv :
      s.readers ≡ 1
      → s.writers ≡ 0
      → Inv (
          woken_by
            (record s { readers = s.readers - 1 })
            (record s.mutex { shared_users = fetch_sub s.mutex.shared_users 1 })
            s.mutex.waiters)
  last_reader-Inv r w =
      wake-Inv (record s { readers = s.readers - 1 })
        (record s.mutex { shared_users = fetch_sub s.mutex.shared_users 1 }) s.mutex.waiters
        (record {
          readers = omega arith;
          writers = w;
          users = omega (arith, v.users);
          exclusive = v.exclusive;
          waiters = refl;
          fifo = v.fifo;
          few = omega arith;
        })

  unlocks_shared-Inv :
      (st : State)
      → s.mutex.state ≡ st
      → Fits st s.readers s.writers s.mutex.waiters
      → Inv (step s unlocks_shared)
  unfolding step unlock_shared
  unlocks_shared-Inv unlocked e f =
      let none_left : (s.readers == 0) ≡ true = ground arith in rw none_left v
  unlocks_shared-Inv locked_exclusive e f =
      let none_left : (s.readers == 0) ≡ true = ground arith in rw none_left v
  unlocks_shared-Inv locked_shared e f =
      let some_left : (s.readers == 0) ≡ false = ground arith in
      elim (Bool-cases (s.mutex.shared_users == 1)) [
        | inl h ↦ rw (some_left, h) (last_reader-Inv (ground (arith, v.users)) f.1)
        | inr h ↦
            rw (some_left, h)
              (record {
                users = ground (arith, v.users);
                exclusive = v.exclusive;
                fits =
                    subst (λ st. Fits st (s.readers - 1) s.writers s.mutex.waiters) (sym e)
                      (ground (arith, v.users), f.1, f.2);
                fifo = v.fifo;
              })
      ]

  pub step-Inv : (k : Call) → Inv (step s k)
  step-Inv (locks op) = locks-Inv op s.mutex.state refl v.fits
  step-Inv (tries free x) = tries-Inv free x s.mutex.state refl v.fits
  step-Inv unlocks_shared = unlocks_shared-Inv s.mutex.state refl v.fits
  step-Inv unlocks = unlocks-Inv s.mutex.state refl v.fits
