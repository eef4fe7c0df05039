-- ===== src/Scheduler/Triggers.antt =====
-- src/scheduler.cpp with src/detail/io_notifier_epoll.cpp: which descriptors of a poll epoll still
-- watches when it has ended.
use libcoro.Base.{
  ℕ, ◌^◌, ◌<◌, ◌≡◌, refl, ap, ◌∙◌, inl, inr, true, false, none, some, arith, ◌==◌, if◌then◌else◌,
  Bool-cases,
}
use libcoro.Poll.{PollOp, PollStatus}
use libcoro.IoNotifier.{EventBits, EpollCtl, EpollLaws}
use libcoro.Scheduler.{Scheduler, unwatch_trigger, process_event_execute, poll, next_event}
use libcoro.Scheduler.Epoll.{
  own, trigger, poll-info, poll-epoll, event-epoll, unwatch-epoll, unwatch_trigger-epoll,
  next_event-own,
}

eq_of : (a b : ℕ) → (a == b) ≡ true → a ≡ b
eq_of a b h = ground (arith, h)

module _ {E : Type 0} ⦃ctl : EpollCtl E⦄ (l : EpollLaws ctl) where
  open l use {find, find_add, find_del}

  -- What a poll of `d` with cancel trigger `r` registers.
  during :
      (k : E) (i d r g : ℕ)
      → find k d ≡ none
      → find k r ≡ none
      → (d == r) ≡ false
      → find (ctl.ctl_add (ctl.ctl_add k d (own i)) r (trigger i)) g
        ≡ (if g == r then some (trigger i) else if g == d then some (own i) else find k g)
  during k i d r g hd hr ne =
      let k1 = ctl.ctl_add k d (own i) in
      let at_g = find_add k d (own i) g in
      let at_r = find_add k d (own i) r in
      let free : find k1 r ≡ none = ground (arith, at_r, hr, ne) in
      find_add k1 r (trigger i) g ∙ simp (free, at_g, hd) refl

  restored :
      (k : E) (i d r g : ℕ)
      → find k d ≡ none
      → find k r ≡ none
      → (d == r) ≡ false
      → find (ctl.ctl_del (ctl.ctl_del (ctl.ctl_add (ctl.ctl_add k d (own i)) r (trigger i)) r) d) g
        ≡ find k g
  restored k i d r g hd hr ne =
      let k1 = ctl.ctl_add (ctl.ctl_add k d (own i)) r (trigger i) in
      let p = during k i d r g hd hr ne in
      let q = find_del k1 r g in
      let t = find_del (ctl.ctl_del k1 r) d g in
      elim (Bool-cases (g == d)) [
        | inl e ↦ ground (arith, t, q, p, e, hd, ap (find k) (eq_of g d e))
        | inr e ↦ elim (Bool-cases (g == r)) [
          | inl f ↦ ground (arith, t, q, p, e, f, hr, ap (find k) (eq_of g r f))
          | inr f ↦ ground (arith, t, q, p, e, f)
        ]
      ]

  -- When a poll of `d` with cancel trigger `r`, neither of them registered before, ends by an event
  -- of `d`, then epoll has the registrations that it had before the poll.
  pub event_restores :
      (s : Scheduler E) (now later i c d : ℕ) (op : PollOp) (timeout r : ℕ) (bits : EventBits)
      (at : ℕ) (st : PollStatus)
      → i < 2 ^ 48
      → find s.epoll d ≡ none
      → find s.epoll r ≡ none
      → (d == r) ≡ false
      → let t = poll s now later i c (some d) op timeout (some r) in
        let u = process_event_execute (next_event t (own i) bits).1 at i st in
        (g : ℕ) → find u.epoll g ≡ find s.epoll g
  event_restores s now later i c d op timeout r bits at st small hd hr ne g =
      let t = poll s now later i c (some d) op timeout (some r) in
      let t1 = unwatch_trigger t (t.infos i) in
      let pi = poll-info s now later i c (some d) op timeout (some r) in
      let off = unwatch_trigger-epoll t (t.infos i) r (ap (λ x. x.cancel_trigger) pi) in
      let epoll =
        ap (λ x. (process_event_execute x at i st).epoll) (next_event-own t i bits small)
        ∙ event-epoll t1 at i st (ap (λ x. x.processed) pi)
        ∙ unwatch-epoll t1 (t1.infos i) d (ap (λ x. x.fd) pi)
        ∙ ap (λ k. ctl.ctl_del k d) off
        ∙ ap (λ k. ctl.ctl_del (ctl.ctl_del k r) d) (poll-epoll s now later i c d op timeout r) in
      ap (λ k. find k g) epoll ∙ restored s.epoll i d r g hd hr ne
