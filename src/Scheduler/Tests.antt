-- ===== src/Scheduler/Tests.antt =====
-- src/scheduler.cpp: runs at concrete inputs.
use libcoro.Base.{
  ℕ, ◌+◌, ◌≤◌, ◌<◌, ◌++◌, reverse, All, if◌then◌else◌, ◌≡◌, ◌⊎◌, refl, ap, ◌∙◌, ◌==◌, Option, inl,
  inr, Bool-cases, true, false, none, some, List, [], ◌∷◌, arith,
}
use libcoro.Poll.{PollOp, PollStatus}
use libcoro.IoNotifier
use libcoro.IoNotifier.{EventBits, EpollCtl, EpollLaws, or_else, bit}
use libcoro.Scheduler.{
  Scheduler, TimedEvent, update_timeout, add_timer_token, remove_timer_token, process_event_execute,
  time_out, time_out_all, process_timeout_execute, poll, yield_timed, yield_for, timer_event,
  info_event, process_event, process_all, process_events_execute,
}
use libcoro.Scheduler.System.{Move, polls, yields_for, rounds, start, step, run}
use libcoro.Scheduler.Once.{resumptions}
use libcoro.Scheduler.Expiry.{has, timed_out, process_timeout-splits}
use libcoro.Scheduler.Schedule
use libcoro.Scheduler.Schedule.Order.{run_schedules}
use libcoro.Scheduler.Resumes.{run_resumes_once}

-- epoll as a table of descriptors and user data.
abbrev lookup : ℕ → List (ℕ × ℕ) → Option ℕ
lookup g [] = none
lookup g ((fd, u) ∷ k) = if g == fd then some u else lookup g k

abbrev remove : ℕ → List (ℕ × ℕ) → List (ℕ × ℕ)
remove fd [] = []
remove fd ((gd, u) ∷ k) = let rest = remove fd k in if gd == fd then rest else (gd, u) ∷ rest

abbrev add_free : Option ℕ → ℕ → ℕ → List (ℕ × ℕ) → List (ℕ × ℕ)
add_free none fd u k = (fd, u) ∷ k
add_free (some v) fd u k = k

instance abbrev table : EpollCtl (List (ℕ × ℕ))
table = record { ctl_add = λ k fd u. add_free (lookup fd k) fd u k; ctl_del = λ k fd. remove fd k }

lookup-add_free :
    (k : List (ℕ × ℕ)) (fd u g : ℕ) (o : Option ℕ)
    → lookup fd k ≡ o
    → lookup g (add_free o fd u k) ≡ (if g == fd then some (or_else o u) else lookup g k)
lookup-add_free k fd u g none h = refl
lookup-add_free k fd u g (some v) h = elim (Bool-cases (g == fd)) [
  | inl e ↦ let same : g ≡ fd = ground (arith, e) in simp e (ap (λ x. lookup x k) same ∙ h)
  | inr e ↦ simp e refl
]

lookup-remove :
    (k : List (ℕ × ℕ)) (fd g : ℕ) → lookup g (remove fd k) ≡ (if g == fd then none else lookup g k)
lookup-remove [] fd g = ground arith
lookup-remove ((hd, u) ∷ k) fd g = let shorter = lookup-remove k fd g in ground (arith, shorter)

abbrev table_laws : EpollLaws table
table_laws = record {
  find = λ k g. lookup g k;
  find_add = λ k fd u g. lookup-add_free k fd u g (lookup fd k) refl;
  find_del = λ k fd g. lookup-remove k fd g;
}

abbrev nothing_watched : List (ℕ × ℕ)
nothing_watched = []

-- Coroutine 1 polls descriptor 5 with a timeout, coroutine 2 yields; in one round the timer has
-- expired for both and the descriptor is readable.
abbrev moves : List Move
moves =
    polls 10 10 1 (some 5) PollOp.read 50 none
    ∷ yields_for 20 20 2 30
    ∷ rounds (timer_event 70 71 ∷ info_event 71 1 PollStatus.read ∷ [])
    ∷ []

resumed-moves : (run (start nothing_watched) moves).resumed ≡ 2 ∷ 1 ∷ []
unfolding run step start update_timeout add_timer_token remove_timer_token process_event_execute
    time_out time_out_all process_timeout_execute poll yield_timed yield_for process_event
    process_all process_events_execute IoNotifier.watch_info IoNotifier.watch IoNotifier.unwatch
    IoNotifier.watch_timer
resumed-moves = refl

run_resumes_once_example :
    let s = run (start nothing_watched) moves in
    let t = run s (rounds (info_event 80 1 PollStatus.read ∷ []) ∷ []) in
    (resumptions 1 s.resumed + resumptions 1 s.scheduler.handles_to_resume
      ≡ bit (s.scheduler.infos 1).processed)
    × (resumptions 1 s.resumed ≤ 1)
    × (((s.scheduler.infos 1).processed ≡ false) ⊎ (t.scheduler.infos 1 ≡ s.scheduler.infos 1))
run_resumes_once_example =
    run_resumes_once nothing_watched moves (rounds (info_event 80 1 PollStatus.read ∷ []) ∷ []) 1

abbrev fresh : Scheduler (List (ℕ × ℕ))
fresh = (start nothing_watched).scheduler

-- Two entries of which one is due.
abbrev two_timed : Scheduler (List (ℕ × ℕ))
two_timed = record fresh {
  timed_events = record { time_point = 5; info = 1 } ∷ record { time_point = 9; info = 2 } ∷ [];
}

process_timeout-splits_example :
    let t = process_timeout_execute two_timed 7 8 in
    (due : List TimedEvent) × (due ++ t.timed_events ≡ two_timed.timed_events)
    × All (λ f. f.time_point ≤ 7) due
    × All (λ f. 7 < f.time_point) t.timed_events
    × ((i : ℕ)
        → t.infos i ≡ (if has i due then timed_out (two_timed.infos i) else two_timed.infos i))
unfolding start
process_timeout-splits_example = process_timeout-splits two_timed 7 8 ((omega arith, tt), (tt, tt))

abbrev readable : EventBits
readable = record {
  epollin = true;
  epollout = false;
  epollerr = false;
  epollrdhup = false;
  epollhup = false;
}

-- Two callers; the second one's push comes before the first one's write, and the event loop is woken
-- by the one number in the pipe.
abbrev accesses : List Schedule.Move
accesses =
    Schedule.pushes 3
    ∷ Schedule.triggers
    ∷ Schedule.pushes 4
    ∷ Schedule.triggers
    ∷ Schedule.writes
    ∷ Schedule.loops
    ∷ Schedule.loops
    ∷ Schedule.loops
    ∷ Schedule.pushes 5
    ∷ Schedule.loops
    ∷ Schedule.triggers
    ∷ []

run_schedules_example :
    let s = Schedule.run Schedule.start accesses in
    (s.handles_to_resume ++ reverse s.scheduled_ops ≡ s.scheduled)
    × ((s.scheduled_ops ≡ [])
        ⊎ (0 < s.schedule_pipe)
        ⊎ (0 < s.pushing + s.writing)
        ⊎ (Schedule.is_elsewhere s.phase ≡ false))
run_schedules_example = run_schedules accesses
