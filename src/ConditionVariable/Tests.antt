-- ===== src/ConditionVariable/Tests.antt =====
-- src/condition_variable.cpp: runs at concrete inputs.
use libcoro.Base.{ℕ, ◌≡◌, refl, true, false, none, List, [], ◌∷◌, leb}
use libcoro.ConditionVariable.{
  Awaiter, with_predicate, wait_hook, on_notify, notify_one, notify_all, notify_loop,
}
use libcoro.ConditionVariable.Notifying.{notify_one_asks_first}

-- The protected state is a number of items; a waiter wants at least so many.
abbrev wants : ℕ → ℕ → Awaiter ℕ
wants c n = record { awaiting_coroutine = c; kind = with_predicate (leb n); completed = false }

abbrev timed_out : ℕ → Awaiter ℕ
timed_out c = record { awaiting_coroutine = c; kind = wait_hook none none; completed = true }

abbrev waiters : List (Awaiter ℕ)
waiters = wants 1 5 ∷ timed_out 2 ∷ wants 3 2 ∷ wants 4 4 ∷ []

notify_all-waiters : notify_all 3 waiters ≡ (wants 3 2 ∷ [], wants 4 4 ∷ wants 1 5 ∷ [])
unfolding notify_all notify_loop on_notify
notify_all-waiters = refl

notify_one_asks_first_example :
    notify_one 3 (timed_out 2 ∷ wants 1 5 ∷ wants 3 2 ∷ []) ≡ ([], wants 1 5 ∷ wants 3 2 ∷ [])
unfolding on_notify
notify_one_asks_first_example =
    notify_one_asks_first 3 (timed_out 2 ∷ []) (wants 1 5) (wants 3 2 ∷ []) (refl, tt) refl
