-- ===== src/Semaphore/System.antt =====
-- include/coro/semaphore.hpp: a semaphore with its callers. A call is one critical section, or one
-- `try_acquire`, so a list of calls is an interleaving.
use libcoro.Base.{ℕ, ◌+◌, Bool, true, false, Option, none, some, List, [], ◌∷◌, ◌++◌}
use libcoro.Semaphore.{Semaphore, make_semaphore, try_acquire, acquire, release, shut_down}

pub record System : Type 0 where
  pub semaphore : Semaphore
  -- the permits that callers have got, and those that they have given back
  pub granted : ℕ
  pub released : ℕ
  -- the coroutines resumed by `shutdown`
  pub dismissed : List ℕ

pub data Call : Type 0 where
  acquires : ℕ → Call
  tries releases shuts_down : Call

abbrev pub one : Bool → ℕ
one true = 1
one false = 0

abbrev pub handed : Option ℕ → ℕ
handed (some c) = 1
handed none = 0

unfoldable pub start : ℕ → ℕ → System
start max n = record { semaphore = make_semaphore max n; granted = 0; released = 0; dismissed = [] }

unfoldable pub step : System → Call → System
step s (acquires c) =
    let (suspended, taken, q) = acquire s.semaphore c in
    record s { semaphore = q; granted = s.granted + one taken }
step s tries =
    let (taken, q) = try_acquire s.semaphore in
    record s { semaphore = q; granted = s.granted + one taken }
step s releases =
    let (given, c, q) = release s.semaphore in
    record s { semaphore = q; granted = s.granted + handed c; released = s.released + one given }
step s shuts_down =
    let (cs, q) = shut_down s.semaphore in record s { semaphore = q; dismissed = s.dismissed ++ cs }

unfoldable pub run : System → List Call → System
run s [] = s
run s (k ∷ ks) = run (step s k) ks
