-- ===== src/Scheduler/Expiry.antt =====
-- src/scheduler.cpp: what process_timeout_execute times out, and what it leaves.
use libcoro.Base.{
  ℕ, ◌≤◌, ◌<◌, ◌≡◌, refl, sym, ap, ◌∙◌, Bool, true, false, ◌||◌, List, [], ◌∷◌, ◌++◌, arith, ◌==◌,
  if◌then◌else◌, All,
}
use mathlib.Core.Path.{subst}
use libcoro.Poll.{PollStatus}
use libcoro.Scheduler.{
  Scheduler, PollInfo, TimedEvent, update_timeout, take_due, time_out, time_out_all,
  process_timeout_execute,
}
use libcoro.Scheduler.Timers.{IsSorted}
use libcoro.Scheduler.Arming.{time_out_all-events, IsSorted-due}
use libcoro.IoNotifier.{EpollCtl}

abbrev pub has : ℕ → List TimedEvent → Bool
has i [] = false
has i (f ∷ fs) = i == f.info || has i fs

-- What a timeout makes of a poll_info: nothing where an event has been processed first.
abbrev pub timed_out : PollInfo → PollInfo
timed_out pi =
    if pi.processed then pi else record pi { processed = true; poll_status = PollStatus.timeout }

timed_out-timed_out : (pi : PollInfo) → timed_out (timed_out pi) ≡ timed_out pi
timed_out-timed_out pi = ground arith

timed_out_once :
    (b c : Bool) (x y z : PollInfo)
    → y ≡ (if b then timed_out x else x)
    → z ≡ (if c then timed_out y else y)
    → z ≡ (if b || c then timed_out x else x)
timed_out_once true true x y z p q = q ∙ ap timed_out p ∙ timed_out-timed_out x
timed_out_once true false x y z p q = q ∙ p
timed_out_once false true x y z p q = q ∙ ap timed_out p
timed_out_once false false x y z p q = q ∙ p

module _ {E : Type 0} ⦃ctl : EpollCtl E⦄ where
  time_out-infos :
      (s : Scheduler E) (i j : ℕ)
      → (time_out s i).infos j ≡ (if j == i then timed_out (s.infos j) else s.infos j)
  unfolding time_out
  time_out-infos s i j = ground arith

  time_out_all-infos :
      (s : Scheduler E) (fs : List TimedEvent) (j : ℕ)
      → (time_out_all s fs).infos j ≡ (if has j fs then timed_out (s.infos j) else s.infos j)
  unfolding time_out_all
  time_out_all-infos s [] j = refl
  time_out_all-infos s (f ∷ fs) j =
      timed_out_once (j == f.info) (has j fs) (s.infos j) ((time_out s f.info).infos j) _
        (time_out-infos s f.info j) (time_out_all-infos (time_out s f.info) fs j)

  -- On timed events that are sorted, `process_timeout_execute` splits them at the time that it read
  -- first: it keeps the later ones; the poll_infos of the others are now processed, with the status
  -- timeout unless an event had been processed before; and no other poll_info changes.
  pub process_timeout-splits :
      (s : Scheduler E) (now later : ℕ)
      → IsSorted s.timed_events
      → let t = process_timeout_execute s now later in
        (due : List TimedEvent) × (due ++ t.timed_events ≡ s.timed_events)
        × All (λ f. f.time_point ≤ now) due
        × All (λ f. now < f.time_point) t.timed_events
        × ((i : ℕ) → t.infos i ≡ (if has i due then timed_out (s.infos i) else s.infos i))
  unfolding process_timeout_execute update_timeout
  process_timeout-splits s now later v =
      let due = (take_due now s.timed_events).0 in
      let rest = (take_due now s.timed_events).1 in
      let (e, d, r) = IsSorted-due now s.timed_events v in
      let k = time_out_all-events (record s { timed_events = rest }) due in
      (
        due,
        ap (λ l. due ++ l) k ∙ e,
        d,
        subst (λ l. All (λ f. now < f.time_point) l) (sym k) r,
        λ i. time_out_all-infos (record s { timed_events = rest }) due i,
      )
