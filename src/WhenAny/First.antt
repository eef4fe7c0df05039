-- ===== src/WhenAny/First.antt =====
-- include/coro/when_any.hpp: the caller goes on once, with the result of the first task.
use libcoro.Base.{
  ◌≡◌, ◌⊎◌, refl, inl, inr, Bool, true, false, Option, none, some, List, [], ◌∷◌, ◌++◌, arith,
}
use mathlib.Core.Path.{subst}
use libcoro.Event
use libcoro.Event.{Event, set_state, awaiters}
use libcoro.WhenAny.{make_when_any, exchange_first, store_result, notify_set, await_notify}
use libcoro.WhenAny.System.{
  System, Winner, nobody, exchanged, stored, notified, Caller, asking, suspended, went_on, Move,
  completes, stores, notifies, awaits, start, caller_id, wins, stores_one, notifies_one, awaits_one,
  step, run,
}

abbrev pub has_asked : Caller → Bool
has_asked asking = false
has_asked c = true

module _ {A : Type 0} where
  abbrev pub first : List A → Option A
  first [] = none
  first (x ∷ xs) = some x

  -- The event and the caller, when the winner has not notified.
  abbrev Pending : System A → Caller → Type 0
  Pending s asking = (s.shared.notify ≡ awaiters []) × (s.returned ≡ [])
  Pending s suspended = (s.shared.notify ≡ awaiters (caller_id ∷ [])) × (s.returned ≡ [])
  Pending s went_on = ⊥

  -- And when it has.
  abbrev Over : System A → A → Caller → Type 0
  Over s x asking = s.returned ≡ []
  Over s x suspended = ⊥
  Over s x went_on = s.returned ≡ some x ∷ []

  abbrev Fits : System A → Winner A → Type 0
  Fits s nobody = (s.completed ≡ []) × (s.shared.first_completed ≡ false) × Pending s s.caller
  Fits s (exchanged x) =
      (first s.completed ≡ some x) × (s.shared.first_completed ≡ true) × Pending s s.caller
  Fits s (stored x) =
      (first s.completed ≡ some x)
      × (s.shared.first_completed ≡ true)
      × (s.shared.return_value ≡ some x)
      × Pending s s.caller
  Fits s (notified x) =
      (first s.completed ≡ some x)
      × (s.shared.first_completed ≡ true)
      × (s.shared.return_value ≡ some x)
      × (s.shared.notify ≡ set_state)
      × Over s x s.caller

  first-append : (xs : List A) (x y : A) → first xs ≡ some x → first (xs ++ y ∷ []) ≡ some x
  first-append [] x y e = ground (arith, e)
  first-append (z ∷ xs) x y e = e

  wins-Fits :
      (s : System A) (y : A) (w : Winner A)
      → s.winner ≡ w
      → Fits s w
      → Fits (wins s y) (wins s y).winner
  unfolding exchange_first
  wins-Fits s y nobody e f = ground (arith, f, e)
  wins-Fits s y (exchanged x) e f = ground (arith, f, e, first-append s.completed x y)
  wins-Fits s y (stored x) e f = ground (arith, f, e, first-append s.completed x y)
  wins-Fits s y (notified x) e f = ground (arith, f, e, first-append s.completed x y)

  stores-Fits :
      (s : System A) (w : Winner A)
      → s.winner ≡ w
      → Fits s w
      → Fits (stores_one s w) (stores_one s w).winner
  unfolding store_result
  stores-Fits s nobody e f = rw e f
  stores-Fits s (exchanged x) e f = ground (arith, f)
  stores-Fits s (stored x) e f = rw e f
  stores-Fits s (notified x) e f = rw e f

  notified-Fits :
      (s : System A) (x : A) (k : Caller)
      → s.caller ≡ k
      → (first s.completed ≡ some x)
        × (s.shared.first_completed ≡ true)
        × (s.shared.return_value ≡ some x)
        × Pending s k
      → Fits (notifies_one s (stored x)) (notifies_one s (stored x)).winner
  unfolding notify_set Event.set
  notified-Fits s x asking k f = let (a, b, c, (q, r)) = f in rw (q, k) (a, b, c, refl, r)
  notified-Fits s x suspended k f =
      let (a, b, c, (q, r)) = f in rw q (a, b, c, refl, rw (r, c) refl)
  notified-Fits s x went_on k f = elim f.3 [ ]

  notifies-Fits :
      (s : System A) (w : Winner A)
      → s.winner ≡ w
      → Fits s w
      → Fits (notifies_one s w) (notifies_one s w).winner
  notifies-Fits s nobody e f = rw e f
  notifies-Fits s (exchanged x) e f = rw e f
  notifies-Fits s (stored x) e f = notified-Fits s x s.caller refl f
  notifies-Fits s (notified x) e f = rw e f

  awaits-Fits :
      (s : System A) (w : Winner A) (k : Caller)
      → s.winner ≡ w
      → s.caller ≡ k
      → Fits s w
      → Fits (awaits_one s k) (awaits_one s k).winner
  unfolding await_notify Event.await_suspend
  awaits-Fits s nobody asking e k f =
      let (a, b, p) = f in let (q, r) = subst (Pending s) k p in rw (q, e) (a, b, (refl, r))
  awaits-Fits s (exchanged x) asking e k f =
      let (a, b, p) = f in let (q, r) = subst (Pending s) k p in rw (q, e) (a, b, (refl, r))
  awaits-Fits s (stored x) asking e k f =
      let (a, b, c, p) = f in let (q, r) = subst (Pending s) k p in rw (q, e) (a, b, c, (refl, r))
  awaits-Fits s (notified x) asking e k f =
      let (a, b, c, q, p) = f in
      let r : s.returned ≡ [] = subst (Over s x) k p in rw (q, e) (a, b, c, refl, rw (r, c) refl)
  awaits-Fits s w suspended e k f = rw e f
  awaits-Fits s w went_on e k f = rw e f

  step-Fits : (s : System A) (m : Move A) → Fits s s.winner → Fits (step s m) (step s m).winner
  unfolding step
  step-Fits s (completes y) f = wins-Fits s y s.winner refl f
  step-Fits s stores f = stores-Fits s s.winner refl f
  step-Fits s notifies f = notifies-Fits s s.winner refl f
  step-Fits s awaits f = awaits-Fits s s.winner s.caller refl refl f

  run-Fits :
      (s : System A) (ms : List (Move A)) → Fits s s.winner → Fits (run s ms) (run s ms).winner
  unfolding run
  run-Fits s [] f = f
  run-Fits s (m ∷ ms) f = run-Fits (step s m) ms (step-Fits s m f)

  -- The task that completed first has notified.
  abbrev pub has_notified : Winner A → Bool
  has_notified (notified x) = true
  has_notified w = false

  none_yet : (s : System A) (k : Caller) → Pending s k → s.returned ≡ []
  none_yet s asking p = p.1
  none_yet s suspended p = p.1
  none_yet s went_on p = elim p [ ]

  took_first :
      (s : System A) (w : Winner A) (k : Caller)
      → s.caller ≡ k
      → Fits s w
      → ((s.returned ≡ []) ⊎ ((x : A) × (first s.completed ≡ some x) × (s.returned ≡ some x ∷ [])))
        × ((has_notified w ≡ false)
            ⊎ ((has_asked k ≡ false)
                ⊎ ((x : A) × (first s.completed ≡ some x) × (s.returned ≡ some x ∷ []))))
  took_first s nobody k e f = (inl (none_yet s k (subst (Pending s) e f.2)), inl refl)
  took_first s (exchanged x) k e f = (inl (none_yet s k (subst (Pending s) e f.2)), inl refl)
  took_first s (stored x) k e f = (inl (none_yet s k (subst (Pending s) e f.3)), inl refl)
  took_first s (notified x) asking e f = (inl (subst (Over s x) e f.4), inr (inl refl))
  took_first s (notified x) suspended e f = elim (subst (Over s x) e f.4) [ ]
  took_first s (notified x) went_on e f =
      let r : s.returned ≡ some x ∷ [] = subst (Over s x) e f.4 in
      (inr (x, f.0, r), inr (inr (x, f.0, r)))

  -- In any interleaving of the tasks' completions with the caller: the caller goes on at most once,
  -- and then with the result of the task that completed first; and it has gone on once it has asked
  -- and that task has notified.
  pub run_takes_first :
      (ms : List (Move A))
      → let s = run start ms in
        ((s.returned ≡ []) ⊎ ((x : A) × (first s.completed ≡ some x) × (s.returned ≡ some x ∷ [])))
        × ((has_notified s.winner ≡ false)
            ⊎ ((has_asked s.caller ≡ false)
                ⊎ ((x : A) × (first s.completed ≡ some x) × (s.returned ≡ some x ∷ []))))
  unfolding start make_when_any Event.make_event
  run_takes_first ms =
      let f = run-Fits start ms (refl, refl, (refl, refl)) in
      took_first (run start ms) (run start ms).winner (run start ms).caller refl f
