-- ===== src/Scheduler/Resumes.antt =====
-- src/scheduler.cpp: whatever is polled for and happens, a coroutine is resumed once for a poll.
use libcoro.Base.{
  ℕ, ◌+◌, ◌≤◌, ◌≡◌, ◌⊎◌, refl, ap, ◌∙◌, inl, inr, Bool, true, false, Option, none, List, [], ◌∷◌,
  arith, ◌==◌, ltb, leb, if◌then◌else◌, Bool-cases,
}
use libcoro.Poll.{PollOp}
use libcoro.IoNotifier.{EventBits, decode_udata, bit}
use libcoro.Scheduler.{
  clean_up, Scheduler, PollInfo, set_info, new_info, add_timer_token, poll, yield_timed, yield_for,
  yield_until, next_event, RecentEvent, timer_event, info_event, process_event, process_all,
  process_events_execute,
}
use libcoro.Scheduler.System.{
  System, Move, polls, yields_for, yields_until, reports, rounds, start, step, run,
}
use libcoro.Scheduler.Once.{
  resumptions, resumptions-append, Inv, Steps, Steps-trans, Steps-quiet, add_quiet, ne-cases,
  process_timeout-Steps, process_event-Steps,
}
use libcoro.IoNotifier.{EpollCtl}

bit-le : (b : Bool) → bit b ≤ 1
bit-le true = omega arith
bit-le false = omega arith

module _ {E : Type 0} ⦃ctl : EpollCtl E⦄ where
  process_all-Steps : (s : Scheduler E) (evs : List RecentEvent) → Steps s (process_all s evs)
  unfolding process_all process_event
  process_all-Steps s [] = Steps-quiet s s refl refl
  process_all-Steps s (timer_event now later ∷ evs) =
      Steps-trans s _ _ (process_timeout-Steps s now later)
        (process_all-Steps (process_event s (timer_event now later)) evs)
  process_all-Steps s (info_event now i st ∷ evs) =
      Steps-trans s _ _ (process_event-Steps s now i st)
        (process_all-Steps (process_event s (info_event now i st)) evs)

  -- A poll_info of coroutine `i` that is not processed.
  fresh-Steps :
      (s : Scheduler E) (i : ℕ) (pi : PollInfo)
      → (s.infos i).processed ≡ false
      → pi.awaiting_coroutine ≡ i
      → pi.processed ≡ false
      → Steps s (set_info s i pi)
  fresh-Steps s i pi h own q = record {
    keeps = λ gone v j. elim (ne-cases j i) [
      | inl e ↦ rw e (ground (arith, own, q, h, (v i).once))
      | inr e ↦ ground (arith, e, (v j).own, (v j).once)
    ];
    final =
        λ j p. elim (ne-cases j i) [ inl e ↦ absurd (cc (p, h, ap s.infos e)) | inr e ↦ rw e refl ];
  }

  timer_added :
      (s : Scheduler E) (now tp i : ℕ) (b : Bool)
      → Steps s (if b then add_timer_token s now tp i else s)
  timer_added s now tp i true = add_quiet s now tp i
  timer_added s now tp i false = Steps-quiet s s refl refl

  poll-Steps :
      (s : Scheduler E) (now later i : ℕ) (fd : Option ℕ) (op : PollOp) (timeout : ℕ)
      (cancel : Option ℕ)
      → (s.infos i).processed ≡ false
      → Steps s (poll s now later i i fd op timeout cancel)
  unfolding poll
  poll-Steps s now later i fd op timeout cancel h =
      let pi = new_info i fd op (ltb 0 timeout) cancel in
      let t = set_info s i pi in
      let u = if ltb 0 timeout then add_timer_token t later (now + timeout) i else t in
      Steps-trans s t _ (fresh-Steps s i pi h refl refl) (
        Steps-trans t u _ (timer_added t later (now + timeout) i (ltb 0 timeout))
          (Steps-quiet u _ refl refl))

  yield-Steps :
      (s : Scheduler E) (later i tp : ℕ)
      → (s.infos i).processed ≡ false
      → Steps s (yield_timed s later i i tp)
  unfolding yield_timed
  yield-Steps s later i tp h =
      let pi = new_info i none PollOp.read false none in
      Steps-trans s (set_info s i pi) _ (fresh-Steps s i pi h refl refl)
        (add_quiet (set_info s i pi) later tp i)

  clean_up-Steps :
      (s : Scheduler E) (pi : PollInfo) (keep cancel : Bool) → Steps s (clean_up s pi keep cancel)
  clean_up-Steps s pi true cancel = Steps-quiet s _ refl refl
  clean_up-Steps s pi false true = Steps-quiet s _ refl refl
  clean_up-Steps s pi false false = Steps-quiet s _ refl refl

  next_event-Steps :
      (s : Scheduler E) (udata : ℕ) (bits : EventBits) → Steps s (next_event s udata bits).1
  unfolding next_event
  next_event-Steps s udata bits =
      let (keep, cancel, i) = decode_udata udata in clean_up-Steps s (s.infos i) keep cancel

  -- The same, for the scheduler with what its loop has resumed.
  record Moves (s s' : System E) : Type 0 where
    keeps : ((i : ℕ) → Inv s.scheduler s.resumed i) → (i : ℕ) → Inv s'.scheduler s'.resumed i
    final :
        (i : ℕ)
        → (s.scheduler.infos i).processed ≡ true
        → s'.scheduler.infos i ≡ s.scheduler.infos i

  Moves-Steps :
      (s : System E) (t : Scheduler E) → Steps s.scheduler t → Moves s (record s { scheduler = t })
  Moves-Steps s t p = record { keeps = p.keeps s.resumed; final = p.final }

  Moves-refl : (s : System E) → Moves s s
  Moves-refl s = record { keeps = λ v. v; final = λ i h. refl }

  rounds-Moves : (s : System E) (evs : List RecentEvent) → Moves s (step s (rounds evs))
  unfolding step process_events_execute
  rounds-Moves s evs =
      let p = process_all-Steps s.scheduler evs in
      let t = process_all s.scheduler evs in
      record {
        keeps = λ v i.
            let w : Inv t s.resumed i = p.keeps s.resumed v i in
            record {
              own = w.own;
              once = omega (arith, w.once, resumptions-append i s.resumed t.handles_to_resume);
            };
        final = p.final;
      }

  step-Moves : (s : System E) (m : Move) → Moves s (step s m)
  unfolding step yield_for yield_until
  step-Moves s (polls now later i fd op timeout cancel) =
      elim (Bool-cases (s.scheduler.infos i).processed) [
        | inl h ↦ simp h (Moves-refl s)
        | inr h ↦
            simp h (Moves-Steps s _ (poll-Steps s.scheduler now later i fd op timeout cancel h))
      ]
  step-Moves s (yields_for now later i time) = elim (Bool-cases (s.scheduler.infos i).processed) [
    | inl h ↦ simp h (Moves-refl s)
    | inr h ↦ elim (Bool-cases (time == 0)) [
      | inl z ↦ simp (h, z) (Moves-refl s)
      | inr z ↦ simp (h, z) (Moves-Steps s _ (yield-Steps s.scheduler later i _ h))
    ]
  ]
  step-Moves s (yields_until now later i time) = elim (Bool-cases (s.scheduler.infos i).processed) [
    | inl h ↦ simp h (Moves-refl s)
    | inr h ↦ elim (Bool-cases (leb time now)) [
      | inl z ↦ simp (h, z) (Moves-refl s)
      | inr z ↦ simp (h, z) (Moves-Steps s _ (yield-Steps s.scheduler later i _ h))
    ]
  ]
  step-Moves s (reports udata bits) = Moves-Steps s _ (next_event-Steps s.scheduler udata bits)
  step-Moves s (rounds evs) = rounds-Moves s evs

  run-Moves : (s : System E) (ms : List Move) → Moves s (run s ms)
  unfolding run
  run-Moves s [] = Moves-refl s
  run-Moves s (m ∷ ms) =
      let p = step-Moves s m in
      let q = run-Moves (step s m) ms in
      record {
        keeps = λ v. q.keeps (p.keeps v);
        final = λ i h. q.final i (ap (λ x. x.processed) (p.final i h) ∙ h) ∙ p.final i h;
      }

  -- After any sequence of polls, yields, reported events and rounds of the event loop: a coroutine has
  -- been resumed at most once for its poll, and exactly if its poll_info is processed and it is not
  -- about to be resumed; and what a processed poll_info holds, its status included, is not changed by
  -- any later event or timeout.
  pub run_resumes_once :
      (k : E) (ms ms' : List Move) (i : ℕ)
      → let s = run (start k) ms in
        let t = run s ms' in
        (resumptions i s.resumed + resumptions i s.scheduler.handles_to_resume
          ≡ bit (s.scheduler.infos i).processed)
        × (resumptions i s.resumed ≤ 1)
        × (((s.scheduler.infos i).processed ≡ false) ⊎ (t.scheduler.infos i ≡ s.scheduler.infos i))
  unfolding start
  run_resumes_once k ms ms' i =
      let s = run (start k) ms in
      let v : Inv s.scheduler s.resumed i =
        (run-Moves (start k) ms).keeps (λ j. record { own = refl; once = refl }) i in
      (
        v.once,
        omega (arith, v.once, bit-le (s.scheduler.infos i).processed),
        elim (Bool-cases (s.scheduler.infos i).processed) [
          | inl h ↦ inr ((run-Moves s ms').final i h)
          | inr h ↦ inl h
        ],
      )
