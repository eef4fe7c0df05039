-- ===== src/Scheduler/Timers.antt =====
-- src/scheduler.cpp: `m_timed_events` is sorted, and `m_timer` is set for its first entry.
use libcoro.Base.{
  ℕ, ◌≤◌, ◌≡◌, refl, inl, inr, false, Option, none, some, List, [], ◌∷◌, arith, ◌==◌, ltb,
  Bool-cases, All,
}
use libcoro.IoNotifier
use libcoro.IoNotifier.{EpollCtl}
use libcoro.Scheduler.{Scheduler, TimedEvent, emplace, erase, is_begin, update_timeout}

abbrev pub IsSorted : List TimedEvent → Type 0
IsSorted [] = Unit
IsSorted (f ∷ fs) = All (λ g. f.time_point ≤ g.time_point) fs × IsSorted fs

-- The timer expires at the first entry's time, or a nanosecond after it was set if that was past.
abbrev pub IsArmed : List TimedEvent → Option ℕ → Type 0
IsArmed [] t = t ≡ none
IsArmed (f ∷ fs) t = (now : ℕ) × (t ≡ some (IoNotifier.watch_timer now f.time_point))

pub All-trans :
    (a b : ℕ) (fs : List TimedEvent)
    → a ≤ b
    → All (λ g. b ≤ g.time_point) fs
    → All (λ g. a ≤ g.time_point) fs
All-trans a b [] h v = tt
All-trans a b (f ∷ fs) h v = (omega (arith, h, v.0), All-trans a b fs h v.1)

pub All-emplace :
    (a : ℕ) (ev : TimedEvent) (fs : List TimedEvent)
    → a ≤ ev.time_point
    → All (λ g. a ≤ g.time_point) fs
    → All (λ g. a ≤ g.time_point) (emplace ev fs)
All-emplace a ev [] h v = (h, tt)
All-emplace a ev (f ∷ fs) h v = elim (Bool-cases (ltb ev.time_point f.time_point)) [
  | inl e ↦ rw e (h, v)
  | inr e ↦ rw e (v.0, All-emplace a ev fs h v.1)
]

pub IsSorted-emplace :
    (ev : TimedEvent) (fs : List TimedEvent) → IsSorted fs → IsSorted (emplace ev fs)
IsSorted-emplace ev [] v = (tt, tt)
IsSorted-emplace ev (f ∷ fs) v = elim (Bool-cases (ltb ev.time_point f.time_point)) [
  | inl e ↦
      let h : ev.time_point ≤ f.time_point = ground (arith, e) in
      rw e ((h, All-trans ev.time_point f.time_point fs h v.0), v)
  | inr e ↦
      let h : f.time_point ≤ ev.time_point = ground (arith, e) in
      rw e (All-emplace f.time_point ev fs h v.0, IsSorted-emplace ev fs v.1)
]

pub All-erase :
    (a i : ℕ) (fs : List TimedEvent)
    → All (λ g. a ≤ g.time_point) fs
    → All (λ g. a ≤ g.time_point) (erase i fs)
All-erase a i [] v = tt
All-erase a i (f ∷ fs) v = elim (Bool-cases (f.info == i)) [
  | inl e ↦ rw e v.1
  | inr e ↦ rw e (v.0, All-erase a i fs v.1)
]

pub IsSorted-erase : (i : ℕ) (fs : List TimedEvent) → IsSorted fs → IsSorted (erase i fs)
IsSorted-erase i [] v = tt
IsSorted-erase i (f ∷ fs) v = elim (Bool-cases (f.info == i)) [
  | inl e ↦ rw e v.1
  | inr e ↦ rw e (All-erase f.time_point i fs v.0, IsSorted-erase i fs v.1)
]

update-IsArmed :
    (now : ℕ) (fs : List TimedEvent)
    → IsArmed fs (elim fs [ [] ↦ none | f ∷ gs ↦ some (IoNotifier.watch_timer now f.time_point) ])
update-IsArmed now [] = refl
update-IsArmed now (f ∷ fs) = (now, refl)

-- The first entry stays where the new one, or the one that goes, is not first.
pub IsArmed-emplace :
    (ev : TimedEvent) (fs : List TimedEvent) (t : Option ℕ)
    → is_begin ev.info (emplace ev fs) ≡ false
    → IsArmed fs t
    → IsArmed (emplace ev fs) t
IsArmed-emplace ev [] t h v = absurd (ground (arith, h))
IsArmed-emplace ev (f ∷ fs) t h v = elim (Bool-cases (ltb ev.time_point f.time_point)) [
  | inl e ↦ absurd (ground (arith, h, e))
  | inr e ↦ rw e v
]

pub IsArmed-erase :
    (i : ℕ) (fs : List TimedEvent) (t : Option ℕ)
    → is_begin i fs ≡ false
    → IsArmed fs t
    → IsArmed (erase i fs) t
IsArmed-erase i [] t h v = v
IsArmed-erase i (f ∷ fs) t h v = rw h v

module _ {E : Type 0} ⦃ctl : EpollCtl E⦄ where
  pub record IsTimed (s : Scheduler E) : Type 0 where
    pub sorted : IsSorted s.timed_events
    pub armed : IsArmed s.timed_events s.timer

  pub update-IsTimed :
      (s : Scheduler E) (now : ℕ) → IsSorted s.timed_events → IsTimed (update_timeout s now)
  unfolding update_timeout
  update-IsTimed s now v = record { sorted = v; armed = update-IsArmed now s.timed_events }
