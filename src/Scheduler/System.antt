-- ===== src/Scheduler/System.antt =====
-- src/scheduler.cpp: a scheduler with the coroutines that poll and yield. A move is a call of one of
-- them, an event that epoll reports, or a round of the event loop. Poll_info `i` belongs to coroutine
-- `i`, and its frame is not used for another one.
use libcoro.Base.{ℕ, false, Option, none, some, List, [], ◌∷◌, ◌++◌, if◌then◌else◌}
use libcoro.Poll.{PollOp}
use libcoro.IoNotifier.{EventBits, EpollCtl}
use libcoro.Scheduler.{
  Scheduler, new_info, poll, yield_for, yield_until, next_event, RecentEvent,
  process_events_execute,
}

pub record System (E : Type 0) : Type 0 where
  pub scheduler : Scheduler E
  -- the coroutines that the event loop has resumed
  pub resumed : List ℕ

pub data Move : Type 0 where
  polls : (now later i : ℕ) → Option ℕ → PollOp → (timeout : ℕ) → Option ℕ → Move
  yields_for yields_until : (now later i time : ℕ) → Move
  reports : ℕ → EventBits → Move
  rounds : List RecentEvent → Move

module _ {E : Type 0} ⦃ctl : EpollCtl E⦄ where
  unfoldable pub start : E → System E
  start k = record {
    scheduler = record {
      infos = λ i. new_info i none PollOp.read false none;
      timed_events = [];
      timer = none;
      epoll = k;
      handles_to_resume = [];
    };
    resumed = [];
  }

  abbrev pub or_same : Scheduler E → Option (Scheduler E) → Scheduler E
  or_same s none = s
  or_same s (some s') = s'

  unfoldable pub step : System E → Move → System E
  step s (polls now later i fd op timeout cancel_trigger) =
      if (s.scheduler.infos i).processed
      then s
      else record s { scheduler = poll s.scheduler now later i i fd op timeout cancel_trigger }
  step s (yields_for now later i time) =
      if (s.scheduler.infos i).processed
      then s
      else record s { scheduler = or_same s.scheduler (yield_for s.scheduler now later i i time) }
  step s (yields_until now later i time) =
      if (s.scheduler.infos i).processed
      then s
      else record s { scheduler = or_same s.scheduler (yield_until s.scheduler now later i i time) }
  step s (reports udata bits) = record s { scheduler = (next_event s.scheduler udata bits).1 }
  step s (rounds evs) =
      let (cs, s') = process_events_execute s.scheduler evs in
      record { scheduler = s'; resumed = s.resumed ++ cs }

  unfoldable pub run : System E → List Move → System E
  run s [] = s
  run s (m ∷ ms) = run (step s m) ms
