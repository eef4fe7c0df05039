-- ===== src/TaskGroup/Waiting.antt =====
-- include/coro/task_group.hpp: what `co_await` on a group waits for.
use libcoro.Base.{
  ◌⊎◌, ℕ, ◌+◌, ◌≤◌, ◌<◌, ◌≡◌, refl, ◌⊎◌, inl, inr, true, false, List, [], ◌∷◌, arith, length,
  size_mod,
}
use libcoro.Event
use libcoro.Event.{Event, set_state, awaiters}
use libcoro.TaskGroup.{
  TaskGroup, init, start_reset, start_add, count_down, count_down_set, await_group,
}
use libcoro.TaskGroup.System.{System, Move, resets, adds, ends, sets, awaits, start, step, run}

-- The group counts the running tasks; unless some call is under way, its event is unset only while
-- there are some.
record Inv (s : System) : Type 0 where
  counted : s.group.size ≡ s.running
  awake :
      (Event.is_set s.group.on_empty_event ≡ true)
      ⊎ ((0 < s.starting) ⊎ ((0 < s.running) ⊎ (0 < s.setting)))

step-Inv :
    (s : System) (m : Move) (e : Event)
    → s.group.on_empty_event ≡ e
    → s.running + 1 < size_mod
    → Inv s
    → Inv (step s m)
unfolding step start_reset start_add count_down count_down_set await_group Event.is_set Event.reset
    Event.set Event.await_suspend
step-Inv s resets set_state q b v = ground arith
step-Inv s resets (awaiters ws) q b v = ground arith
step-Inv s adds set_state q b v = ground arith
step-Inv s adds (awaiters ws) q b v = ground arith
step-Inv s ends set_state q b v = ground arith
step-Inv s ends (awaiters ws) q b v = ground arith
step-Inv s sets set_state q b v = ground arith
step-Inv s sets (awaiters ws) q b v = ground arith
step-Inv s (awaits c) set_state q b v = ground arith
step-Inv s (awaits c) (awaiters ws) q b v = ground arith

running-step : (s : System) (m : Move) → (step s m).running ≤ s.running + 1
unfolding step
running-step s resets = ground arith
running-step s adds = ground arith
running-step s ends = ground arith
running-step s sets = ground arith
running-step s (awaits c) = ground arith

run-Inv : (s : System) (ms : List Move) → s.running + length ms < size_mod → Inv s → Inv (run s ms)
unfolding run
run-Inv s [] b v = v
run-Inv s (m ∷ ms) b v =
    run-Inv (step s m) ms (omega (arith, running-step s m))
      (step-Inv s m s.group.on_empty_event refl (omega arith) v)

-- After any interleaving of fewer than 2 ^ 64 accesses: `size` is the number of tasks that have been
-- counted and have not counted down, and once no `start` or `count_down` is under way and no task is
-- left, the event is set, so that nobody waits on the group.
pub run_releases :
    (ms : List Move)
    → length ms < size_mod
    → let s = run start ms in
      (s.group.size ≡ s.running)
      × ((0 < s.starting + s.running + s.setting) ⊎ (Event.is_set s.group.on_empty_event ≡ true))
unfolding start init Event.make_event Event.is_set
run_releases ms b =
    let v : Inv (run start ms) =
      run-Inv start ms (omega arith) (record { counted = refl; awake = inl refl }) in
    (v.counted, still v.awake)
  where
    still : {P : Type 0} {a b c : ℕ} → P ⊎ ((0 < a) ⊎ ((0 < b) ⊎ (0 < c))) → (0 < a + b + c) ⊎ P
    still (inl p) = inr p
    still (inr (inl h)) = inl (omega arith)
    still (inr (inr (inl h))) = inl (omega arith)
    still (inr (inr (inr h))) = inl (omega arith)

set_is_set : (g : TaskGroup) → (count_down_set g).1.on_empty_event ≡ set_state
unfolding count_down_set Event.set
set_is_set g = Event-cases g.on_empty_event
  where
    Event-cases : (e : Event) → (Event.set Event.lifo e).1 ≡ set_state
    Event-cases set_state = refl
    Event-cases (awaiters ws) = refl

-- Whenever one task is running: if it counts down while another is being started, after the
-- latter's `reset` and before its `fetch_add`, then the new task is running with the event set, and a
-- coroutine that awaits the group is not suspended.
pub start_races_count_down :
    (s : System) (c : ℕ)
    → s.group.size ≡ 1
    → s.running ≡ 1
    → let t = run s (resets ∷ ends ∷ sets ∷ adds ∷ []) in
      (t.running ≡ 1)
      × (Event.is_set t.group.on_empty_event ≡ true)
      × ((await_group t.group c).0 ≡ false)
unfolding run step start_reset start_add count_down await_group Event.is_set Event.await_suspend
start_races_count_down s c p q = ground (
  arith,
  set_is_set (record s.group { size = 0; on_empty_event = Event.reset s.group.on_empty_event }),
)
