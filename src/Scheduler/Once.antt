-- ===== src/Scheduler/Once.antt =====
-- src/scheduler.cpp: an event and a timeout of the same poll do not both resume its coroutine.
use libcoro.Base.{
  ℕ, ◌+◌, ◌≡◌, ◌⊎◌, refl, sym, ap, ◌∙◌, inl, inr, Bool, true, false, List, [], ◌∷◌, ◌++◌, arith,
  ◌==◌, if◌then◌else◌, Bool-cases,
}
use libcoro.Poll.{PollStatus}
use libcoro.IoNotifier.{bit}
use libcoro.Scheduler.{
  Scheduler, PollInfo, TimedEvent, update_timeout, add_timer_token, remove_timer_token, unwatch,
  hand_over, process_event_execute, take_due, time_out, time_out_all, process_timeout_execute,
}
use libcoro.IoNotifier.{EpollCtl}

-- How often coroutine `i` is among those that are resumed.
abbrev pub resumptions : ℕ → List ℕ → ℕ
resumptions i [] = 0
resumptions i (c ∷ cs) = bit (c == i) + resumptions i cs

pub resumptions-append :
    (i : ℕ) (before after : List ℕ)
    → resumptions i (before ++ after) ≡ resumptions i before + resumptions i after
resumptions-append i [] after = omega arith
resumptions-append i (c ∷ before) after =
    let shorter = resumptions-append i before after in omega (arith, shorter)

pub ne-cases : (j i : ℕ) → (j ≡ i) ⊎ ((j == i) ≡ false)
ne-cases j i = elim (Bool-cases (j == i)) [ inl h ↦ inl (ground (arith, h)) | inr h ↦ inr h ]

module _ {E : Type 0} ⦃ctl : EpollCtl E⦄ where
  -- With `gone` resumed before: coroutine `i` has been resumed or handed over as often as its
  -- poll_info is processed.
  pub record Inv (s : Scheduler E) (gone : List ℕ) (i : ℕ) : Type 0 where
    pub own : (s.infos i).awaiting_coroutine ≡ i
    pub once : resumptions i gone + resumptions i s.handles_to_resume ≡ bit (s.infos i).processed

  -- A step changes no poll_info that is processed.
  pub record Steps (s s' : Scheduler E) : Type 0 where
    pub keeps : (gone : List ℕ) → ((i : ℕ) → Inv s gone i) → (i : ℕ) → Inv s' gone i
    pub final : (i : ℕ) → (s.infos i).processed ≡ true → s'.infos i ≡ s.infos i

  pub Steps-trans : (s s' s'' : Scheduler E) → Steps s s' → Steps s' s'' → Steps s s''
  Steps-trans s s' s'' p q = record {
    keeps = λ gone v. q.keeps gone (p.keeps gone v);
    final = λ i h. q.final i (ap (λ x. x.processed) (p.final i h) ∙ h) ∙ p.final i h;
  }

  -- Steps that touch neither the poll_infos nor the handles.
  pub Steps-quiet :
      (s s' : Scheduler E)
      → s'.infos ≡ s.infos
      → s'.handles_to_resume ≡ s.handles_to_resume
      → Steps s s'
  Steps-quiet s s' e h = record {
    keeps = λ gone v i. record {
      own = ap (λ f. (f i).awaiting_coroutine) e ∙ (v i).own;
      once =
          ap (λ l. resumptions i gone + resumptions i l) h
          ∙ (v i).once
          ∙ ap (λ f. bit (f i).processed) (sym e);
    };
    final = λ i p. ap (λ f. f i) e;
  }

  remove_quiet : (s : Scheduler E) (now i : ℕ) → Steps s (remove_timer_token s now i)
  unfolding remove_timer_token update_timeout
  remove_quiet s now i = Steps-quiet s _ (ground arith) (ground arith)

  pub add_quiet : (s : Scheduler E) (now tp i : ℕ) → Steps s (add_timer_token s now tp i)
  unfolding add_timer_token update_timeout
  add_quiet s now tp i = Steps-quiet s _ (ground arith) (ground arith)

  Inv-hand_over :
      (s : Scheduler E) (i : ℕ) (pi : PollInfo) (st : PollStatus) (gone : List ℕ) (j : ℕ)
      → s.infos i ≡ pi
      → pi.processed ≡ false
      → Inv s gone i
      → Inv s gone j
      → Inv (hand_over s i pi st) gone j
  Inv-hand_over s i pi st gone j q h v w = elim (ne-cases j i) [
    | inl e ↦
        let own : pi.awaiting_coroutine ≡ i = ap (λ x. x.awaiting_coroutine) (sym q) ∙ v.own in
        let zero_yet : resumptions i gone + resumptions i s.handles_to_resume ≡ 0 =
          v.once ∙ ap (λ x. bit x.processed) q ∙ ap bit h in
        rw e (
          ground (
            arith,
            own,
            zero_yet,
            resumptions-append i s.handles_to_resume (pi.awaiting_coroutine ∷ []),
          ))
    | inr e ↦
        let own : pi.awaiting_coroutine ≡ i = ap (λ x. x.awaiting_coroutine) (sym q) ∙ v.own in
        ground (
          arith,
          e,
          own,
          w.own,
          w.once,
          resumptions-append j s.handles_to_resume (pi.awaiting_coroutine ∷ []),
        )
  ]

  Steps-hand_over :
      (s : Scheduler E) (i : ℕ) (pi : PollInfo) (st : PollStatus)
      → s.infos i ≡ pi
      → pi.processed ≡ false
      → Steps s (hand_over s i pi st)
  Steps-hand_over s i pi st q h = record {
    keeps = λ gone v j. Inv-hand_over s i pi st gone j q h (v i) (v j);
    final = λ j p. elim (ne-cases j i) [
      | inl e ↦ absurd (cc (p, h, q, ap s.infos e))
      | inr e ↦ rw e refl
    ];
  }

  unwatch_quiet : (s : Scheduler E) (pi : PollInfo) → Steps s (unwatch s pi)
  unwatch_quiet s pi = Steps-quiet s _ refl refl

  time_out-Steps : (s : Scheduler E) (i : ℕ) → Steps s (time_out s i)
  unfolding time_out
  time_out-Steps s i = elim (Bool-cases (s.infos i).processed) [
    | inl h ↦ simp h (Steps-quiet s s refl refl)
    | inr h ↦ simp h (
        Steps-trans s (unwatch s (s.infos i)) _ (unwatch_quiet s (s.infos i))
          (Steps-hand_over (unwatch s (s.infos i)) i (s.infos i) PollStatus.timeout refl h))
  ]

  time_out_all-Steps : (s : Scheduler E) (fs : List TimedEvent) → Steps s (time_out_all s fs)
  unfolding time_out_all
  time_out_all-Steps s [] = Steps-quiet s s refl refl
  time_out_all-Steps s (f ∷ fs) =
      Steps-trans s (time_out s f.info) _ (time_out-Steps s f.info)
        (time_out_all-Steps (time_out s f.info) fs)

  pub process_timeout-Steps :
      (s : Scheduler E) (now later : ℕ) → Steps s (process_timeout_execute s now later)
  unfolding process_timeout_execute update_timeout
  process_timeout-Steps s now later =
      let (due, rest) = take_due now s.timed_events in
      let t = record s { timed_events = rest } in
      Steps-trans s t _ (Steps-quiet s t refl refl) (
        Steps-trans t (time_out_all t due) _ (time_out_all-Steps t due)
          (Steps-quiet (time_out_all t due) _ refl refl))

  timer_removed :
      (s : Scheduler E) (now i : ℕ) (b : Bool)
      → Steps s (if b then remove_timer_token s now i else s)
  timer_removed s now i true = remove_quiet s now i
  timer_removed s now i false = Steps-quiet s s refl refl

  remove-infos :
      (s : Scheduler E) (now i : ℕ) (b : Bool)
      → (if b then remove_timer_token s now i else s).infos ≡ s.infos
  unfolding remove_timer_token update_timeout
  remove-infos s now i true = ground arith
  remove-infos s now i false = refl

  pub process_event-Steps :
      (s : Scheduler E) (now i : ℕ) (st : PollStatus) → Steps s (process_event_execute s now i st)
  unfolding process_event_execute
  process_event-Steps s now i st = elim (Bool-cases (s.infos i).processed) [
    | inl h ↦ simp h (Steps-quiet s s refl refl)
    | inr h ↦
        let t = unwatch s (s.infos i) in
        let u = if (s.infos i).timer_pos then remove_timer_token t now i else t in
        simp h (
          Steps-trans s t _ (unwatch_quiet s (s.infos i)) (
            Steps-trans t u _ (timer_removed t now i (s.infos i).timer_pos) (
              Steps-hand_over u i (s.infos i) st
                (ap (λ f. f i) (remove-infos t now i (s.infos i).timer_pos)) h)))
  ]
