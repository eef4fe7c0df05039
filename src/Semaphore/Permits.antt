-- ===== src/Semaphore/Permits.antt =====
-- include/coro/semaphore.hpp: the permits add up, and nobody waits while there is one.
use libcoro.Base.{ℕ, ◌+◌, ◌≤◌, ◌<◌, ◌≡◌, ◌⊎◌, true, false, List, [], ◌∷◌, ◌++◌, arith, sign_bit}
use libcoro.Semaphore.{try_acquire, acquire, release, shut_down}
use libcoro.Semaphore.System.{System, Call, acquires, tries, releases, shuts_down, step, run}

module _ (max n : ℕ) (small : max < sign_bit) where
  record Inv (s : System) : Type 0 where
    ledger : s.semaphore.counter + s.granted ≡ n + s.released
    capped : s.semaphore.counter ≤ max
    same_max : s.semaphore.max ≡ max
    waits : (s.semaphore.acquire_waiters ≡ []) ⊎ (s.semaphore.counter ≡ 0)

pub record IsShutdown (s : System) : Type 0 where
  pub flag : s.semaphore.is_shutdown ≡ true
  pub nobody : s.semaphore.acquire_waiters ≡ []

step-IsShutdown : (s : System) (k : Call) → IsShutdown s → IsShutdown (step s k)
unfolding step acquire try_acquire release shut_down
step-IsShutdown s (acquires c) v = ground arith
step-IsShutdown s tries v = ground arith
step-IsShutdown s releases v = ground arith
step-IsShutdown s shuts_down v = ground arith

run-IsShutdown : (s : System) (ks : List Call) → IsShutdown s → IsShutdown (run s ks)
unfolding run
run-IsShutdown s [] v = v
run-IsShutdown s (k ∷ ks) v = run-IsShutdown (step s k) ks (step-IsShutdown s k v)

-- The first `shutdown` resumes every suspended coroutine, and after it, whatever is called, nobody
-- is suspended.
pub shut_down-IsShutdown :
    (s : System) (ks : List Call)
    → s.semaphore.is_shutdown ≡ false
    → ((step s shuts_down).dismissed ≡ s.dismissed ++ s.semaphore.acquire_waiters)
      × IsShutdown (run s (shuts_down ∷ ks))
unfolding run step shut_down
shut_down-IsShutdown s ks h = (rw h, run-IsShutdown (step s shuts_down) ks (first s h))
  where
    first : (s : System) → s.semaphore.is_shutdown ≡ false → IsShutdown (step s shuts_down)
    first s h = record { flag = rw h; nobody = rw h }
