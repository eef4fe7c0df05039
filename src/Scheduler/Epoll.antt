-- ===== src/Scheduler/Epoll.antt =====
-- src/scheduler.cpp with src/detail/io_notifier_epoll.cpp: what each step of a poll asks of epoll.
use libcoro.Base.{
  ℕ, ◌+◌, ◌^◌, ◌<◌, ◌≡◌, refl, ap, ◌∙◌, Bool, true, false, Option, some, arith, ltb, if◌then◌else◌,
}
use libcoro.Poll.{PollOp, PollStatus}
use libcoro.IoNotifier
use libcoro.IoNotifier.{EventBits, EpollCtl, EpollLaws, encode_udata}
use libcoro.IoNotifier.UserData.{decode_udata-encode_udata}
use libcoro.Scheduler.{
  Scheduler, PollInfo, set_info, new_info, update_timeout, add_timer_token, remove_timer_token,
  unwatch, with_info, unwatch_trigger, clean_up, process_event_execute, time_out, poll, next_event,
}

-- The user data of poll_info `i` for its descriptor, and for its cancel trigger.
abbrev pub own : ℕ → ℕ
own i = encode_udata false false i

abbrev pub trigger : ℕ → ℕ
trigger i = encode_udata false true i

module _ {E : Type 0} ⦃ctl : EpollCtl E⦄ where
  pub add-infos : (s : Scheduler E) (now tp i : ℕ) → (add_timer_token s now tp i).infos ≡ s.infos
  unfolding add_timer_token update_timeout
  add-infos s now tp i = ground arith

  pub add-epoll : (s : Scheduler E) (now tp i : ℕ) → (add_timer_token s now tp i).epoll ≡ s.epoll
  unfolding add_timer_token update_timeout
  add-epoll s now tp i = ground arith

  pub remove-epoll : (s : Scheduler E) (now i : ℕ) → (remove_timer_token s now i).epoll ≡ s.epoll
  unfolding remove_timer_token update_timeout
  remove-epoll s now i = ground arith

  pub timed-infos :
      (s : Scheduler E) (now tp i : ℕ) (b : Bool)
      → (if b then add_timer_token s now tp i else s).infos ≡ s.infos
  timed-infos s now tp i true = add-infos s now tp i
  timed-infos s now tp i false = refl

  pub timed-epoll :
      (s : Scheduler E) (now tp i : ℕ) (b : Bool)
      → (if b then add_timer_token s now tp i else s).epoll ≡ s.epoll
  timed-epoll s now tp i true = add-epoll s now tp i
  timed-epoll s now tp i false = refl

  pub untimed-epoll :
      (s : Scheduler E) (now i : ℕ) (b : Bool)
      → (if b then remove_timer_token s now i else s).epoll ≡ s.epoll
  untimed-epoll s now i true = remove-epoll s now i
  untimed-epoll s now i false = refl

  pub poll-info :
      (s : Scheduler E) (now later i c : ℕ) (fd : Option ℕ) (op : PollOp) (timeout : ℕ)
      (cancel : Option ℕ)
      → (poll s now later i c fd op timeout cancel).infos i
        ≡ new_info c fd op (ltb 0 timeout) cancel
  unfolding poll
  poll-info s now later i c fd op timeout cancel =
      let pi = new_info c fd op (ltb 0 timeout) cancel in
      let e = timed-infos (set_info s i pi) later (now + timeout) i (ltb 0 timeout) in
      let self : (set_info s i pi).infos i ≡ pi = ground arith in ap (λ f. f i) e ∙ self

  pub poll-epoll :
      (s : Scheduler E) (now later i c d : ℕ) (op : PollOp) (timeout r : ℕ)
      → (poll s now later i c (some d) op timeout (some r)).epoll
        ≡ ctl.ctl_add (ctl.ctl_add s.epoll d (own i)) r (trigger i)
  unfolding poll IoNotifier.watch_info IoNotifier.watch
  poll-epoll s now later i c d op timeout r =
      let pi = new_info c (some d) op (ltb 0 timeout) (some r) in
      ap (λ k. ctl.ctl_add (ctl.ctl_add k d (own i)) r (trigger i))
        (timed-epoll (set_info s i pi) later (now + timeout) i (ltb 0 timeout))

  pub event-epoll :
      (s : Scheduler E) (now i : ℕ) (st : PollStatus)
      → (s.infos i).processed ≡ false
      → (process_event_execute s now i st).epoll ≡ (unwatch s (s.infos i)).epoll
  unfolding process_event_execute
  event-epoll s now i st h =
      simp h (untimed-epoll (unwatch s (s.infos i)) now i (s.infos i).timer_pos)

  pub time_out-epoll :
      (s : Scheduler E) (i : ℕ)
      → (s.infos i).processed ≡ false
      → (time_out s i).epoll ≡ (unwatch s (s.infos i)).epoll
  unfolding time_out
  time_out-epoll s i h = simp h refl

  pub unwatch-epoll :
      (s : Scheduler E) (pi : PollInfo) (d : ℕ)
      → pi.fd ≡ some d
      → (unwatch s pi).epoll ≡ ctl.ctl_del s.epoll d
  unfolding IoNotifier.unwatch
  unwatch-epoll s pi d h = simp h refl

  pub unwatch_trigger-epoll :
      (s : Scheduler E) (pi : PollInfo) (r : ℕ)
      → pi.cancel_trigger ≡ some r
      → (unwatch_trigger s pi).epoll ≡ ctl.ctl_del s.epoll r
  unfolding IoNotifier.unwatch
  unwatch_trigger-epoll s pi r h = simp h refl

  pub next_event-trigger :
      (s : Scheduler E) (i : ℕ) (bits : EventBits)
      → i < 2 ^ 48
      → next_event s (trigger i) bits ≡ (some (i, PollStatus.cancelled), unwatch s (s.infos i))
  unfolding next_event
  next_event-trigger s i bits h =
      ap
        (λ x.
          let (keep_registered, is_cancel_event, j) = x in
          (
            if is_cancel_event
                then some (j, PollStatus.cancelled)
                else with_info j (IoNotifier.event_to_poll_status bits),
            clean_up s (s.infos j) keep_registered is_cancel_event,
          ))
        (decode_udata-encode_udata false true i h).0

  pub next_event-own :
      (s : Scheduler E) (i : ℕ) (bits : EventBits)
      → i < 2 ^ 48
      → (next_event s (own i) bits).1 ≡ unwatch_trigger s (s.infos i)
  unfolding next_event
  next_event-own s i bits h =
      ap (λ x. let (keep, is_cancel_event, j) = x in clean_up s (s.infos j) keep is_cancel_event)
        (decode_udata-encode_udata false false i h).0
