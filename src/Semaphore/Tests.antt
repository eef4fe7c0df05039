-- ===== src/Semaphore/Tests.antt =====
-- include/coro/semaphore.hpp: runs at concrete inputs.
use libcoro.Base.{◌≡◌, refl, false, List, [], ◌∷◌}
use libcoro.Semaphore.{make_semaphore, try_acquire, acquire, release, shut_down}
use libcoro.Semaphore.System.{System, Call, acquires, tries, releases, start, step, run}

abbrev busy : List Call
busy = acquires 1 ∷ acquires 2 ∷ acquires 3 ∷ releases ∷ tries ∷ releases ∷ releases ∷ releases ∷ []

counter-busy : (run (start 2 1) busy).semaphore.counter ≡ 2
unfolding run step start make_semaphore acquire try_acquire release shut_down
counter-busy = refl

abbrev crowded : System
crowded = record {
  semaphore = record { max = 2; counter = 0; acquire_waiters = 3 ∷ 2 ∷ []; is_shutdown = false };
  granted = 1;
  released = 0;
  dismissed = [];
}
