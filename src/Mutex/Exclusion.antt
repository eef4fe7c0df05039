-- ===== src/Mutex/Exclusion.antt =====
-- src/mutex.cpp: mutual exclusion in every interleaving.
use mathlib.Core.Path.{subst}
use libcoro.Base.{ℕ, ◌≡◌, ◌≢◌, refl, true, Option, none, some, List, [], ◌∷◌}
use libcoro.Mutex.{
  Word, Phase, idle, suspending, looping, linked, waiting, owning, unlocking, popping, popping_next,
  threw, crashed, Mutex, init, Turn, step, run,
}
use libcoro.Mutex.Chain.{In}
use libcoro.Mutex.Invariant.{Local, Inv, owns}
use libcoro.Mutex.Advance.{Holds, advance-Holds}

run-Holds : (m : Mutex) (us : List Turn) → Holds m → Holds (run m us)
unfolding run step
run-Holds m [] v = v
run-Holds m (u ∷ us) (o, ws, v) = run-Holds (step m u) us (
    advance-Holds m o ws u.operation u.tries u.spurious (m.phase u.operation) v
      (v.each u.operation))

init-Holds : Holds init
unfolding init
init-Holds = (
  none,
  [],
  record { shape = (refl, refl); distinct = tt; held = tt; each = λ u. (λ e. cc, λ i. i) },
)

owner_of :
    (next : ℕ → Word) (o : Option ℕ) (ws : List ℕ) (t : ℕ) (p : Phase)
    → Local next o ws t p
    → owns p ≡ true
    → o ≡ some t
owner_of next o ws t idle l e = cc
owner_of next o ws t suspending l e = cc
owner_of next o ws t (looping c) l e = cc
owner_of next o ws t (linked c) l e = cc
owner_of next o ws t waiting l e = cc
owner_of next o ws t owning l e = l.0
owner_of next o ws t (unlocking c) l e = l.0
owner_of next o ws t (popping c) l e = l.0
owner_of next o ws t (popping_next w a) l e = l.0
owner_of next o ws t threw l e = absurd l
owner_of next o ws t crashed l e = absurd l

waiter_owner :
    (m : Mutex) (o : Option ℕ) (ws : List ℕ) (t : ℕ)
    → Inv m o ws
    → In t ws
    → (h : ℕ) × (owns (m.phase h) ≡ true)
waiter_owner m none ws t v i = absurd (subst (In t) v.shape.1 i)
waiter_owner m (some h) ws t v i = (h, v.held)

-- No two operations own the lock, none has failed, and one that waits has an owner to wait for.
pub record IsExclusive (m : Mutex) : Type 0 where
  pub one_owner : (t u : ℕ) → owns (m.phase t) ≡ true → owns (m.phase u) ≡ true → t ≡ u
  pub no_throw : (t : ℕ) → m.phase t ≢ threw
  pub no_crash : (t : ℕ) → m.phase t ≢ crashed
  pub not_lost : (t : ℕ) → m.phase t ≡ waiting → (h : ℕ) × (owns (m.phase h) ≡ true)

Holds-IsExclusive : (m : Mutex) → Holds m → IsExclusive m
Holds-IsExclusive m (o, ws, v) = record {
  one_owner = λ t u a b. cc (
    owner_of m.next o ws t (m.phase t) (v.each t) a,
    owner_of m.next o ws u (m.phase u) (v.each u) b,
  );
  no_throw = λ t e. subst (Local m.next o ws t) e (v.each t);
  no_crash = λ t e. subst (Local m.next o ws t) e (v.each t);
  not_lost = λ t e. waiter_owner m o ws t v (subst (Local m.next o ws t) e (v.each t)).1;
}

-- From an unlocked mutex, after any interleaving of the accesses of any number of `lock`,
-- `try_lock` and `unlock` calls, in which only owners unlock and weak exchanges may fail at any
-- time: at most one operation owns the lock, no `unlock` has thrown or found no waiter to resume,
-- and while an operation is suspended some operation owns the lock.
pub run-IsExclusive : (us : List Turn) → IsExclusive (run init us)
run-IsExclusive us = Holds-IsExclusive (run init us) (run-Holds init us init-Holds)
