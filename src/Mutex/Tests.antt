-- ===== src/Mutex/Tests.antt =====
-- src/mutex.cpp: runs at concrete inputs.
use libcoro.Base.{
  ℕ, zero, suc, ◌≡◌, refl, some, List, [], ◌∷◌, inl, inr, arith, ◌≢◌, none, if◌then◌else◌, ◌==◌,
  Bool-cases,
}
use libcoro.Mutex.{
  Word, nullptr, operation, Phase, idle, waiting, owning, Mutex, init, Turn, step, run, advance,
  try_lock, suspend_loop, suspend_link, unlock_loop, pop_loop, pop_exchange,
}
use libcoro.Mutex.Chain.{Chain, In}
use libcoro.Mutex.Invariant.{Local, Inv}
use libcoro.Mutex.Exclusion.{IsExclusive, run-IsExclusive}
use libcoro.Mutex.Handover.{turn, unlock_lifo}
use libcoro.Mutex.ScopedLock.{Guards, move_assign_guard, move_assign-leaks}

-- Operation 1 locks, 2 and 3 queue, and 1 unlocks.
abbrev contended : List Turn
contended =
    turn 1
    ∷ turn 2
    ∷ turn 2
    ∷ turn 2
    ∷ turn 2
    ∷ turn 3
    ∷ turn 3
    ∷ turn 3
    ∷ turn 3
    ∷ turn 1
    ∷ turn 1
    ∷ turn 1
    ∷ turn 1
    ∷ []

phase-contended : (run init contended).phase 3 ≡ owning
unfolding run step advance init try_lock suspend_loop suspend_link unlock_loop pop_loop pop_exchange
phase-contended = refl

waiting-contended : (run init contended).phase 2 ≡ waiting
unfolding run step advance init try_lock suspend_loop suspend_link unlock_loop pop_loop pop_exchange
waiting-contended = refl

run-IsExclusive_example : IsExclusive (run init contended)
run-IsExclusive_example = run-IsExclusive contended

abbrev queued_phase : ℕ → Phase
queued_phase zero = idle
queued_phase (suc zero) = owning
queued_phase (suc (suc zero)) = waiting
queued_phase (suc (suc (suc zero))) = waiting
queued_phase (suc (suc (suc (suc u)))) = idle

abbrev queued_next : ℕ → Word
queued_next zero = nullptr
queued_next (suc zero) = nullptr
queued_next (suc (suc zero)) = nullptr
queued_next (suc (suc (suc u))) = operation 2

-- Operation 1 owns the lock, 2 and then 3 have queued.
abbrev queued : Mutex
queued = record { state = operation 3; next = queued_next; phase = queued_phase }

queued_each : (u : ℕ) → Local queued_next (some 1) (3 ∷ 2 ∷ []) u (queued_phase u)
queued_each zero = (λ e. cc e, absent)
  where
    absent : ¬ In zero (3 ∷ 2 ∷ [])
    absent (inl e) = omega arith
    absent (inr (inl e)) = omega arith
    absent (inr (inr i)) = i
queued_each (suc zero) = (refl, absent)
  where
    absent : ¬ In 1 (3 ∷ 2 ∷ [])
    absent (inl e) = omega arith
    absent (inr (inl e)) = omega arith
    absent (inr (inr i)) = i
queued_each (suc (suc zero)) = (λ e. cc e, inr (inl refl))
queued_each (suc (suc (suc zero))) = (λ e. cc e, inl refl)
queued_each (suc (suc (suc (suc u)))) = (λ e. cc e, absent)
  where
    absent : ¬ In (suc (suc (suc (suc u)))) (3 ∷ 2 ∷ [])
    absent (inl e) = omega arith
    absent (inr (inl e)) = omega arith
    absent (inr (inr i)) = i

queued-Inv : Inv queued (some 1) (3 ∷ 2 ∷ [])
queued-Inv = record {
  shape = (refl, (refl, refl));
  distinct = (absent, (λ i. i, tt));
  held = refl;
  each = queued_each;
}
  where
    absent : ¬ In 3 (2 ∷ [])
    absent (inl e) = omega arith
    absent (inr i) = i

unlock_lifo_example :
    let m' = run queued (turn 1 ∷ turn 1 ∷ turn 1 ∷ turn 1 ∷ []) in
    (m'.phase 3 ≡ owning) × (m'.phase 1 ≡ idle) × Chain m'.next m'.state (2 ∷ [])
unlock_lifo_example = unlock_lifo queued 1 3 (2 ∷ []) queued-Inv refl

-- Guard 1 holds mutex 7.
abbrev held_by_one : Guards
held_by_one = record { held = λ g. if g == 1 then some 7 else none; unlocks = [] }

move_assign-leaks_example :
    ((h : ℕ) → (move_assign_guard held_by_one 1 2).held h ≢ some 7)
    × ((move_assign_guard held_by_one 1 2).unlocks ≡ held_by_one.unlocks)
move_assign-leaks_example = move_assign-leaks held_by_one 1 2 7 (λ e. omega (arith, e)) refl alone
  where
    alone : (h : ℕ) → h ≢ 1 → held_by_one.held h ≢ some 7
    alone h ne = elim (Bool-cases (h == 1)) [
      | inl e ↦ absurd (ne (ground (arith, e)))
      | inr e ↦ simp e (λ q. cc q)
    ]
