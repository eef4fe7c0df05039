-- ===== src/Scheduler.antt =====
-- include/coro/scheduler.hpp, src/scheduler.cpp and include/coro/detail/poll_info.hpp: polls, their
-- timeouts, and the events of one round of the event loop. Coroutines, poll_infos and descriptors are
-- numbers, times are nanoseconds. The calls of src/detail/io_notifier_epoll.cpp are in IoNotifier.
pub mod System
pub mod Once
pub mod Resumes
pub mod Timers
pub mod Arming
pub mod Expiry
pub mod Epoll
pub mod Triggers
pub mod Schedule
pub mod Tests
use libcoro.Base.{
  ℕ, suc, ◌+◌, ◌-◌, ◌*◌, ◌/◌, ◌==◌, ltb, leb, Bool, true, false, not, ◌&&◌, ◌||◌, Option, none,
  some, List, [], ◌∷◌, ◌++◌, if◌then◌else◌,
}
use libcoro.Poll.{PollOp, PollStatus}
use libcoro.IoNotifier
use libcoro.IoNotifier.{EventBits, EpollCtl}

abbrev pub with_info : ℕ → Option PollStatus → Option (ℕ × PollStatus)
with_info i none = none
with_info i (some st) = some (i, st)

-- `poll_info`; `timer_pos` tells whether `m_timer_pos` is set.
pub record PollInfo : Type 0 where
  pub fd : Option ℕ
  pub op : PollOp
  pub timer_pos : Bool
  pub awaiting_coroutine : ℕ
  pub poll_status : PollStatus
  pub processed : Bool
  pub cancel_trigger : Option ℕ

-- An entry of `m_timed_events`, a `std::multimap`, which is sorted by time; a poll_info has at most
-- one, so that its iterator is given by the poll_info.
pub record TimedEvent : Type 0 where
  pub time_point : ℕ
  pub info : ℕ

-- `m_timed_events.emplace`: after the entries with the same time.
abbrev pub emplace : TimedEvent → List TimedEvent → List TimedEvent
emplace ev [] = ev ∷ []
emplace ev (f ∷ fs) =
    let rest = emplace ev fs in if ltb ev.time_point f.time_point then ev ∷ f ∷ fs else f ∷ rest

-- `m_timed_events.erase`
abbrev pub erase : ℕ → List TimedEvent → List TimedEvent
erase i [] = []
erase i (f ∷ fs) = let rest = erase i fs in if f.info == i then fs else f ∷ rest

-- Whether the entry of a poll_info is `m_timed_events.begin()`.
abbrev pub is_begin : ℕ → List TimedEvent → Bool
is_begin i [] = false
is_begin i (f ∷ fs) = f.info == i

-- The loop of `process_timeout_execute` that takes what is due from `m_timed_events`: the entries,
-- and the rest.
abbrev pub take_due : ℕ → List TimedEvent → List TimedEvent × List TimedEvent
take_due now [] = ([], [])
take_due now (f ∷ fs) =
    let (due, later) = take_due now fs in
    if leb f.time_point now then (f ∷ due, later) else ([], f ∷ fs)

abbrev pub new_info : ℕ → Option ℕ → PollOp → Bool → Option ℕ → PollInfo
new_info c fd op timed cancel_trigger = record {
  fd = fd;
  op = op;
  timer_pos = timed;
  awaiting_coroutine = c;
  poll_status = PollStatus.error;
  processed = false;
  cancel_trigger = cancel_trigger;
}

-- An entry of `m_recent_events`: the timer's, or a poll_info with a status. (The entries of the
-- shutdown pipe do nothing; those of the schedule pipe are in Schedule.)
pub data RecentEvent : Type 0 where
  timer_event : (now later : ℕ) → RecentEvent
  info_event : (now info : ℕ) → PollStatus → RecentEvent

pub record Scheduler (E : Type 0) : Type 0 where
  pub infos : ℕ → PollInfo
  pub timed_events : List TimedEvent
  -- when `m_timer` expires, if it is set
  pub timer : Option ℕ
  pub epoll : E
  pub handles_to_resume : List ℕ

module _ {E : Type 0} ⦃ctl : EpollCtl E⦄ where
  abbrev pub set_info : Scheduler E → ℕ → PollInfo → Scheduler E
  set_info s i pi = record s { infos = λ j. if j == i then pi else s.infos j }

  -- `update_timeout`
  unfoldable pub update_timeout : Scheduler E → ℕ → Scheduler E
  update_timeout s now = record s {
    timer = elim s.timed_events [
      | [] ↦ none
      | f ∷ fs ↦ some (IoNotifier.watch_timer now f.time_point)
    ];
  }

  -- `add_timer_token`
  unfoldable pub add_timer_token : Scheduler E → ℕ → ℕ → ℕ → Scheduler E
  add_timer_token s now tp i =
      let s' = record s {
        timed_events = emplace (record { time_point = tp; info = i }) s.timed_events;
      } in
      if is_begin i s'.timed_events then update_timeout s' now else s'

  -- `remove_timer_token`
  unfoldable pub remove_timer_token : Scheduler E → ℕ → ℕ → Scheduler E
  remove_timer_token s now i =
      let s' = record s { timed_events = erase i s.timed_events } in
      if is_begin i s.timed_events then update_timeout s' now else s'

  abbrev pub unwatch : Scheduler E → PollInfo → Scheduler E
  unwatch s pi = record s {
    epoll = elim pi.fd [ none ↦ s.epoll | some fd ↦ IoNotifier.unwatch s.epoll fd ];
  }

  abbrev pub unwatch_trigger : Scheduler E → PollInfo → Scheduler E
  unwatch_trigger s pi = record s {
    epoll = elim pi.cancel_trigger [ none ↦ s.epoll | some fd ↦ IoNotifier.unwatch s.epoll fd ];
  }

  -- What `io_notifier_epoll::next_events` takes out of epoll: the descriptor at an event of the cancel
  -- trigger, and the trigger at one of the descriptor.
  abbrev pub clean_up :
      Scheduler E → PollInfo → (keep_registered is_cancel_event : Bool) → Scheduler E
  clean_up s pi true is_cancel_event = s
  clean_up s pi false true = unwatch s pi
  clean_up s pi false false = unwatch_trigger s pi

  abbrev pub hand_over : Scheduler E → ℕ → PollInfo → PollStatus → Scheduler E
  hand_over s i pi status =
      let s' = set_info s i (record pi { processed = true; poll_status = status }) in
      record s' { handles_to_resume = s.handles_to_resume ++ pi.awaiting_coroutine ∷ [] }

  -- `process_event_execute`
  unfoldable pub process_event_execute : Scheduler E → ℕ → ℕ → PollStatus → Scheduler E
  process_event_execute s now i status =
      let pi = s.infos i in
      let s' = unwatch s pi in
      let s'' = if pi.timer_pos then remove_timer_token s' now i else s' in
      if pi.processed then s else hand_over s'' i pi status

  -- The body of its second loop.
  unfoldable pub time_out : Scheduler E → ℕ → Scheduler E
  time_out s i =
      let pi = s.infos i in
      if pi.processed then s else hand_over (unwatch s pi) i pi PollStatus.timeout

  unfoldable pub time_out_all : Scheduler E → List TimedEvent → Scheduler E
  time_out_all s [] = s
  time_out_all s (f ∷ fs) = time_out_all (time_out s f.info) fs

  -- `process_timeout_execute`, given the two readings of the clock
  unfoldable pub process_timeout_execute : Scheduler E → ℕ → ℕ → Scheduler E
  unfolding time_out_all update_timeout
  process_timeout_execute s now later =
      let (due, rest) = take_due now s.timed_events in
      update_timeout (time_out_all (record s { timed_events = rest }) due) later

  -- `poll` up to its `co_await`, with the poll_info `i` in the frame of coroutine `c`; the clock is
  -- read for the time point and, later, in `add_timer_token`.
  unfoldable pub poll :
      Scheduler E → (now later i c : ℕ) → Option ℕ → PollOp → (timeout : ℕ) → Option ℕ → Scheduler E
  unfolding add_timer_token
  poll s now later i c fd op timeout cancel_trigger =
      let timed = ltb 0 timeout in
      let s' = set_info s i (new_info c fd op timed cancel_trigger) in
      let s'' = if timed then add_timer_token s' later (now + timeout) i else s' in
      record s'' { epoll = IoNotifier.watch_info s''.epoll i fd cancel_trigger }

  -- What `yield_for_internal` and `yield_until` share past their tests: a poll_info without a
  -- descriptor.
  unfoldable pub yield_timed : Scheduler E → (later i c tp : ℕ) → Scheduler E
  unfolding add_timer_token
  yield_timed s later i c tp =
      add_timer_token (set_info s i (new_info c none PollOp.read false none)) later tp i

  -- `yield_for_internal`; `none` where it is `schedule()` instead.
  unfoldable pub yield_for : Scheduler E → (now later i c amount : ℕ) → Option (Scheduler E)
  unfolding yield_timed
  yield_for s now later i c amount =
      if amount == 0 then none else some (yield_timed s later i c (now + amount))

  -- `yield_until`, which casts the time that is left to milliseconds.
  unfoldable pub yield_until : Scheduler E → (now later i c time : ℕ) → Option (Scheduler E)
  unfolding yield_timed
  yield_until s now later i c time =
      if leb time now
      then none
      else some (yield_timed s later i c (now + (time - now) / 1_000_000 * 1_000_000))

  -- `io_notifier_epoll::next_events` at one event with the given user data: what it puts into
  -- `m_recent_events`, `none` where it throws.
  unfoldable pub next_event : Scheduler E → ℕ → EventBits → Option (ℕ × PollStatus) × Scheduler E
  unfolding IoNotifier.unwatch IoNotifier.event_to_poll_status IoNotifier.decode_udata
  next_event s udata bits =
      let (keep_registered, is_cancel_event, i) = IoNotifier.decode_udata udata in
      (
        if is_cancel_event
            then some (i, PollStatus.cancelled)
            else with_info i (IoNotifier.event_to_poll_status bits),
        clean_up s (s.infos i) keep_registered is_cancel_event,
      )

  -- The loop of `process_events_execute` over them.
  unfoldable pub process_event : Scheduler E → RecentEvent → Scheduler E
  unfolding process_timeout_execute process_event_execute
  process_event s (timer_event now later) = process_timeout_execute s now later
  process_event s (info_event now i status) = process_event_execute s now i status

  unfoldable pub process_all : Scheduler E → List RecentEvent → Scheduler E
  process_all s [] = s
  process_all s (ev ∷ evs) = process_all (process_event s ev) evs

  -- `process_events_execute`, given the recent events: the coroutines that are resumed.
  unfoldable pub process_events_execute : Scheduler E → List RecentEvent → List ℕ × Scheduler E
  process_events_execute s evs =
      let s' = process_all s evs in (s'.handles_to_resume, record s' { handles_to_resume = [] })
