-- ===== src/ConditionVariable/Notifying.antt =====
-- src/condition_variable.cpp: `notify_one` and `notify_all` against a description of whom they wake.
use libcoro.Base.{◌≡◌, refl, Bool, true, false, List, [], ◌∷◌, ◌++◌, arith, if◌then◌else◌, All}
use libcoro.ConditionVariable.{
  NotifyStatus, ready, not_ready, awaiter_dead, Awaiter, on_notify, is_dead, notify_one,
}

abbrev pub is_ready : NotifyStatus → Bool
is_ready ready = true
is_ready st = false

abbrev pub is_not_ready : NotifyStatus → Bool
is_not_ready not_ready = true
is_not_ready st = false

module _ {S : Type 0} where
  -- The awaiters whose status the test accepts.
  abbrev pub select : (NotifyStatus → Bool) → S → List (Awaiter S) → List (Awaiter S)
  select f s [] = []
  select f s (w ∷ ws) =
      let rest = select f s ws in if f (on_notify s w.kind w.completed) then w ∷ rest else rest

  -- A list put in front of another in the opposite order, as pushing one by one does.
  abbrev pub reverse_onto : List (Awaiter S) → List (Awaiter S) → List (Awaiter S)
  reverse_onto [] ys = ys
  reverse_onto (x ∷ xs) ys = reverse_onto xs (x ∷ ys)

  asks :
      (s : S) (w : Awaiter S) (ws : List (Awaiter S)) (st : NotifyStatus)
      → on_notify s w.kind w.completed ≡ st
      → is_dead st ≡ false
      → notify_one s (w ∷ ws) ≡ (if is_ready st then (w ∷ [], ws) else ([], w ∷ ws))
  unfolding notify_one
  asks s w ws ready e h = rw e refl
  asks s w ws not_ready e h = rw e refl
  asks s w ws awaiter_dead e h = ground (arith, h)

  -- `notify_one` passes over the dead awaiters at the head of the list and asks the first other one:
  -- it is woken if it is ready, and is put back otherwise, whoever else may be ready.
  pub notify_one_asks_first :
      (s : S) (ds : List (Awaiter S)) (w : Awaiter S) (ws : List (Awaiter S))
      → All (λ d. on_notify s d.kind d.completed ≡ awaiter_dead) ds
      → is_dead (on_notify s w.kind w.completed) ≡ false
      → notify_one s (ds ++ w ∷ ws)
        ≡ (if is_ready (on_notify s w.kind w.completed) then (w ∷ [], ws) else ([], w ∷ ws))
  unfolding notify_one
  notify_one_asks_first s [] w ws a h = asks s w ws (on_notify s w.kind w.completed) refl h
  notify_one_asks_first s (d ∷ ds) w ws a h = rw a.0 (notify_one_asks_first s ds w ws a.1 h)
