-- ===== src/Scheduler/Arming.antt =====
-- src/scheduler.cpp: every operation keeps the timed events sorted and the timer set for the first.
use libcoro.Base.{
  ℕ, ◌≤◌, ◌<◌, ◌≡◌, refl, ap, ◌∙◌, inl, inr, List, [], ◌∷◌, ◌++◌, arith, leb, Bool-cases, All,
}
use mathlib.Core.Path.{subst}
use mathlib.Core.Path.{subst}
use libcoro.IoNotifier
use libcoro.IoNotifier.{EpollCtl}
use libcoro.Scheduler.{
  Scheduler, TimedEvent, emplace, is_begin, add_timer_token, take_due, time_out, time_out_all,
}
use libcoro.Scheduler.System.{System}
use libcoro.Scheduler.Timers.{IsSorted, IsTimed, IsSorted-emplace, update-IsTimed, IsArmed-emplace}

All-later :
    (now a : ℕ) (fs : List TimedEvent)
    → now < a
    → All (λ g. a ≤ g.time_point) fs
    → All (λ g. now < g.time_point) fs
All-later now a [] h v = tt
All-later now a (f ∷ fs) h v = (omega (arith, h, v.0), All-later now a fs h v.1)

pub IsSorted-due :
    (now : ℕ) (fs : List TimedEvent)
    → IsSorted fs
    → (let (due, rest) = take_due now fs in
        (due ++ rest ≡ fs) × All (λ g. g.time_point ≤ now) due × All (λ g. now < g.time_point) rest)
IsSorted-due now [] v = (refl, tt, tt)
IsSorted-due now (f ∷ fs) v = elim (Bool-cases (leb f.time_point now)) [
  | inl h ↦
      let (e, d, r) = IsSorted-due now fs v.1 in rw h (ap (λ l. f ∷ l) e, (ground (arith, h), d), r)
  | inr h ↦
      let after : now < f.time_point = ground (arith, h) in
      rw h (refl, tt, (after, All-later now f.time_point fs after v.0))
]

module _ {E : Type 0} ⦃ctl : EpollCtl E⦄ where
  pub add-IsTimed :
      (s : Scheduler E) (now tp i : ℕ) → IsTimed s → IsTimed (add_timer_token s now tp i)
  unfolding add_timer_token
  add-IsTimed s now tp i v =
      let ev : TimedEvent = record { time_point = tp; info = i } in
      let t = record s { timed_events = emplace ev s.timed_events } in
      let sorted : IsSorted t.timed_events = IsSorted-emplace ev s.timed_events v.sorted in
      elim (Bool-cases (is_begin i (emplace ev s.timed_events))) [
        | inl h ↦ simp h (update-IsTimed t now sorted)
        | inr h ↦ simp h (record {
          sorted = sorted;
          armed = IsArmed-emplace ev s.timed_events s.timer h v.armed;
        })
      ]

  time_out-events : (s : Scheduler E) (i : ℕ) → (time_out s i).timed_events ≡ s.timed_events
  unfolding time_out
  time_out-events s i = ground arith

  pub time_out_all-events :
      (s : Scheduler E) (fs : List TimedEvent) → (time_out_all s fs).timed_events ≡ s.timed_events
  unfolding time_out_all
  time_out_all-events s [] = refl
  time_out_all-events s (f ∷ fs) =
      time_out_all-events (time_out s f.info) fs ∙ time_out-events s f.info
