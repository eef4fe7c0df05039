-- ===== src/Event/Order.antt =====
-- src/event.cpp: who is resumed, and in which order.
use mathlib.Core.List.{reverse-cons}
use libcoro.Base.{
  ℕ, suc, ◌+◌, ◌≡◌, refl, Bool, true, false, List, [], ◌∷◌, ◌++◌, reverse, append-nil, arith, ◌==◌,
  if◌then◌else◌,
}
use libcoro.Event.{
  Event, ResumeOrderPolicy, lifo, fifo, set_state, awaiters, make_event, await_suspend, in_order,
  set, reset,
}

-- An event with what has happened: the coroutines that it has suspended and those that it has
-- resumed, each in order.
pub record History : Type 0 where
  pub event : Event
  pub suspended : List ℕ
  pub resumed : List ℕ

pub data Call : Type 0 where
  suspends : ℕ → Call
  sets : ResumeOrderPolicy → Call
  resets : Call

abbrev pub only : Bool → ℕ → List ℕ
only true c = c ∷ []
only false c = []

unfoldable pub step : History → Call → History
step h (suspends c) =
    let (b, e) = await_suspend h.event c in
    record h { event = e; suspended = h.suspended ++ only b c }
step h (sets policy) =
    let (cs, e) = set policy h.event in record h { event = e; resumed = h.resumed ++ cs }
step h resets = record h { event = reset h.event }

unfoldable pub run : History → List Call → History
run h [] = h
run h (c ∷ cs) = run (step h c) cs

unfoldable pub start : Bool → History
start b = record { event = make_event b; suspended = []; resumed = [] }

abbrev pub waiting : Event → List ℕ
waiting set_state = []
waiting (awaiters ws) = ws

abbrev pub count : ℕ → List ℕ → ℕ
count c [] = 0
count c (x ∷ xs) = if c == x then suc (count c xs) else count c xs

pub count-append : (c : ℕ) (xs ys : List ℕ) → count c (xs ++ ys) ≡ count c xs + count c ys
count-append c [] ys = omega arith
count-append c (x ∷ xs) ys = ground (arith, count-append c xs ys)

pub count-reverse : (c : ℕ) (xs : List ℕ) → count c (reverse xs) ≡ count c xs
count-reverse c [] = refl
count-reverse c (x ∷ xs) =
    rw (reverse-cons x xs)
      (ground (arith, count-append c (reverse xs) (x ∷ []), count-reverse c xs))

abbrev Balanced : ℕ → History → Type 0
Balanced c h = count c h.suspended ≡ count c h.resumed + count c (waiting h.event)

count-in_order :
    (c : ℕ) (p : ResumeOrderPolicy) (ws : List ℕ) → count c (in_order p ws) ≡ count c ws
count-in_order c lifo ws = refl
count-in_order c fifo ws = count-reverse c ws

suspend-Balanced :
    (c d : ℕ) (h : History) (e : Event)
    → h.event ≡ e
    → Balanced c h
    → Balanced c (step h (suspends d))
unfolding step await_suspend
suspend-Balanced c d h set_state q b = ground (arith, append-nil h.suspended)
suspend-Balanced c d h (awaiters ws) q b = ground (arith, count-append c h.suspended (d ∷ []))

set-Balanced :
    (c : ℕ) (p : ResumeOrderPolicy) (h : History) (e : Event)
    → h.event ≡ e
    → Balanced c h
    → Balanced c (step h (sets p))
unfolding step set
set-Balanced c p h set_state q b = ground (arith, append-nil h.resumed)
set-Balanced c p h (awaiters ws) q b =
    ground (arith, count-append c h.resumed (in_order p ws), count-in_order c p ws)

reset-Balanced :
    (c : ℕ) (h : History) (e : Event) → h.event ≡ e → Balanced c h → Balanced c (step h resets)
unfolding step reset
reset-Balanced c h set_state q b = ground arith
reset-Balanced c h (awaiters ws) q b = ground arith

step-Balanced : (c : ℕ) (h : History) (k : Call) → Balanced c h → Balanced c (step h k)
step-Balanced c h (suspends d) b = suspend-Balanced c d h h.event refl b
step-Balanced c h (sets p) b = set-Balanced c p h h.event refl b
step-Balanced c h resets b = reset-Balanced c h h.event refl b

run-Balanced : (c : ℕ) (h : History) (ks : List Call) → Balanced c h → Balanced c (run h ks)
unfolding run
run-Balanced c h [] b = b
run-Balanced c h (k ∷ ks) b = run-Balanced c (step h k) ks (step-Balanced c h k b)

-- Whatever calls are made, in any order and with any policies, each coroutine has been resumed as
-- often as it has been suspended, less the times that it is still on the event's list.
pub run_resumes_each :
    (c : ℕ) (initially_set : Bool) (ks : List Call)
    → let h = run (start initially_set) ks in
      count c h.suspended ≡ count c h.resumed + count c (waiting h.event)
unfolding start make_event
run_resumes_each c true ks = run-Balanced c (start true) ks refl
run_resumes_each c false ks = run-Balanced c (start false) ks refl

-- Every `set` is called with the policy `fifo`.
abbrev pub AllFifo : List Call → Type 0
AllFifo [] = Unit {0}
AllFifo (sets lifo ∷ ks) = ⊥
AllFifo (_ ∷ ks) = AllFifo ks

abbrev InOrder : History → Type 0
InOrder h = h.suspended ≡ h.resumed ++ reverse (waiting h.event)
