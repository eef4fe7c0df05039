-- ===== src/Scheduler/Schedule/Order.antt =====
-- include/coro/scheduler.hpp and src/scheduler.cpp: scheduled coroutines are handed over in order, and
-- the event loop is woken for them.
use mathlib.Core.List.{reverse-cons}
use libcoro.Base.{
  ◌+◌, ◌<◌, ◌≡◌, ◌⊎◌, refl, sym, ap, ◌∙◌, inl, inr, ltb, leb, Bool, true, false, List, [], ◌∷◌,
  ◌++◌, reverse, arith, Bool-cases, append-nil, append_assoc,
}
use libcoro.Scheduler.Schedule.{
  Phase, elsewhere, reading, cleared, untriggered, is_elsewhere, Schedule, push_operation, trigger,
  write_pipe, read_pipe, untrigger, take_operations, start, Move, pushes, triggers, writes, loops,
  loop_step, step, run,
}

-- The event loop will yet clear the flag, or take the operations.
abbrev unclear : Phase → Bool
unclear reading = true
unclear cleared = true
unclear _ = false

abbrev takes : Phase → Bool
takes untriggered = true
takes _ = false

record Inv (s : Schedule) : Type 0 where
  pub order : s.handles_to_resume ++ reverse s.scheduled_ops ≡ s.scheduled
  -- While the flag is set, a number is in the pipe or will be, or the flag will be cleared.
  pub flagged :
      (s.schedule_pipe_triggered ≡ false)
      ⊎ (0 < s.schedule_pipe + s.writing)
      ⊎ (unclear s.phase ≡ true)
  -- While an operation waits, the flag is set or will be, or the operations will be taken.
  pub waiting :
      (s.scheduled_ops ≡ [])
      ⊎ (0 < s.pushing)
      ⊎ (s.schedule_pipe_triggered ≡ true)
      ⊎ (takes s.phase ≡ true)

still : {b : Bool} {P Q : Type 0} → (b ≡ false) ⊎ P ⊎ Q → b ≡ true → (true ≡ false) ⊎ P ⊎ Q
still (inl f) t = absurd (cc (f, t))
still (inr q) t = inr q

no_clear : {b : Bool} {P Q : Type 0} → P ⊎ Q ⊎ (b ≡ true) → b ≡ false → P ⊎ Q ⊎ (false ≡ true)
no_clear (inl p) h = inl p
no_clear (inr (inl q)) h = inr (inl q)
no_clear (inr (inr t)) h = absurd (cc (t, h))

no_take :
    {b : Bool} {P Q R : Type 0} → P ⊎ Q ⊎ R ⊎ (b ≡ true) → b ≡ false → P ⊎ Q ⊎ R ⊎ (false ≡ true)
no_take (inl p) h = inl p
no_take (inr w) h = inr (no_clear w h)

loop-Inv : (p : Phase) (s : Schedule) → p ≡ s.phase → Inv s → Inv (loop_step p s)
unfolding read_pipe untrigger take_operations
loop-Inv elsewhere s e v = elim (Bool-cases (ltb 0 s.schedule_pipe)) [
  | inl h ↦ simp h (record {
    order = v.order;
    flagged = inr (inr refl);
    waiting = no_take v.waiting (ap takes (sym e));
  })
  | inr h ↦ simp h v
]
loop-Inv reading s e v = elim (Bool-cases (leb 4 s.schedule_pipe)) [
  | inl h ↦
      simp h
        (record { order = v.order; flagged = inr (inr (ap unclear (sym e))); waiting = v.waiting })
  | inr h ↦ simp h (record {
    order = v.order;
    flagged = inr (inr refl);
    waiting = no_take v.waiting (ap takes (sym e));
  })
]
loop-Inv cleared s e v = record {
  order = v.order;
  flagged = inl refl;
  waiting = inr (inr (inr refl));
}
loop-Inv untriggered s e v = record {
  order = append-nil _ ∙ v.order;
  flagged = no_clear v.flagged (ap unclear (sym e));
  waiting = inl refl;
}

step-Inv : (s : Schedule) (m : Move) → Inv s → Inv (step s m)
unfolding step push_operation trigger write_pipe
step-Inv s (pushes c) v = record {
  order =
      ap (λ l. s.handles_to_resume ++ l) (reverse-cons c s.scheduled_ops)
      ∙ sym (append_assoc s.handles_to_resume (reverse s.scheduled_ops) (c ∷ []))
      ∙ ap (λ l. l ++ c ∷ []) v.order;
  flagged = v.flagged;
  waiting = inr (inl (omega arith));
}
step-Inv s triggers v = elim (Bool-cases (ltb 0 s.pushing)) [
  | inl h ↦ elim (Bool-cases s.schedule_pipe_triggered) [
    | inl t ↦
        simp (h, t)
          (record { order = v.order; flagged = still v.flagged t; waiting = inr (inr (inl refl)) })
    | inr t ↦
        simp (h, t)
          (record {
            order = v.order;
            flagged = inr (inl (omega arith));
            waiting = inr (inr (inl refl));
          })
  ]
  | inr h ↦ simp h v
]
step-Inv s writes v = elim (Bool-cases (ltb 0 s.writing)) [
  | inl h ↦
      simp h (record { order = v.order; flagged = inr (inl (omega arith)); waiting = v.waiting })
  | inr h ↦ simp h v
]
step-Inv s loops v = loop-Inv s.phase s refl v

run-Inv : (s : Schedule) (ms : List Move) → Inv s → Inv (run s ms)
unfolding run
run-Inv s [] v = v
run-Inv s (m ∷ ms) v = run-Inv (step s m) ms (step-Inv s m v)

busy : (p : Phase) → (unclear p ≡ true) ⊎ (takes p ≡ true) → is_elsewhere p ≡ false
busy elsewhere (inl h) = absurd (cc h)
busy elsewhere (inr h) = absurd (cc h)
busy reading h = refl
busy cleared h = refl
busy untriggered h = refl

Inv-woken :
    (s : Schedule)
    → Inv s
    → (s.scheduled_ops ≡ [])
      ⊎ (0 < s.schedule_pipe)
      ⊎ (0 < s.pushing + s.writing)
      ⊎ (is_elsewhere s.phase ≡ false)
Inv-woken s v = elim v.waiting [
  | inl none_waits ↦ inl none_waits
  | inr (inl p) ↦ inr (inr (inl (omega (arith, p))))
  | inr (inr (inr t)) ↦ inr (inr (inr (busy s.phase (inr t))))
  | inr (inr (inl t)) ↦ elim v.flagged [
    | inl f ↦ absurd (cc (t, f))
    | inr (inr u) ↦ inr (inr (inr (busy s.phase (inl u))))
    | inr (inl p) ↦ elim (Bool-cases (ltb 0 s.schedule_pipe)) [
      | inl h ↦ inr (inl (ground (arith, h)))
      | inr h ↦ inr (inr (inl (ground (arith, h, p))))
    ]
  ]
]

-- After any interleaving of the accesses of callers that schedule coroutines and of the event loop:
-- the coroutines that have been handed over, then those that wait, are the scheduled ones in their
-- order; and if one waits, then the pipe is not empty, so that epoll wakes the event loop, or a
-- caller is not through with its call, or the event loop is at the scheduled operations.
pub run_schedules :
    (ms : List Move)
    → let s = run start ms in
      (s.handles_to_resume ++ reverse s.scheduled_ops ≡ s.scheduled)
      × ((s.scheduled_ops ≡ [])
          ⊎ (0 < s.schedule_pipe)
          ⊎ (0 < s.pushing + s.writing)
          ⊎ (is_elsewhere s.phase ≡ false))
unfolding start
run_schedules ms =
    let s = run start ms in
    let v : Inv s =
      run-Inv start ms (record { order = refl; flagged = inl refl; waiting = inl refl }) in
    (v.order, Inv-woken s v)
