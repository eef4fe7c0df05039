-- ===== src/Task/SyncWait.antt =====
-- include/coro/sync_wait.hpp: waiting for a task gives what its body would give.
use libcoro.Base.{
  ℕ, zero, suc, ◌≤◌, ◌≡◌, refl, sym, ap, ◌∙◌, ◌⊎◌, inl, inr, true, Option, none, some,
  if◌then◌else◌, arith, Bool-cases,
}
use libcoro.Task.{
  Result, returned, thrown, Body, co_return, throws, co_await_task, suspends, Point, before, awaits,
  done, destroyed, Final, continuation, sets_event, Control, running, suspended, idle, Machine,
  result, resume, resume_point, set_frame, final_suspend, step, run, co_return_result,
  sync_wait_start, sync_wait,
}
use libcoro.Task.Frames.{eval, lt-cases, result-storage_of}
use libcoro.Task.Evaluation.{run-Finishes}

eval-co_return_result : {A E : Type 0} (r : Result A E) → eval (co_return_result r) ≡ r
unfolding eval
eval-co_return_result (returned a) = refl
eval-co_return_result (thrown e) = refl

module _ {A E : Type 0} (never_set : E) where
  -- The event is set by the last step of all.
  abbrev IsQuiet : Machine A E → Type 0
  IsQuiet m = m.event_set ≡ true → m.control ≡ idle

  final-IsQuiet :
      (m : Machine A E) (fin : Final)
      → ¬ (m.event_set ≡ true)
      → IsQuiet (final_suspend never_set m fin)
  unfolding final_suspend
  final-IsQuiet m (continuation none) n h = refl
  final-IsQuiet m (continuation (some g)) n h = absurd (n h)
  final-IsQuiet m sets_event n h = refl

  resume_point-IsQuiet :
      (m : Machine A E) (f : ℕ) (p : Point A E)
      → ¬ (m.event_set ≡ true)
      → IsQuiet (resume_point never_set m f p)
  resume_point-IsQuiet m f (before (co_return a)) n h =
      final-IsQuiet (set_frame never_set m f _) (m.frames f).final n h
  resume_point-IsQuiet m f (before (throws e)) n h =
      final-IsQuiet (set_frame never_set m f _) (m.frames f).final n h
  resume_point-IsQuiet m f (before (co_await_task b k)) n h = absurd (n h)
  resume_point-IsQuiet m f (before (suspends b)) n h = absurd (n h)
  resume_point-IsQuiet m f (awaits g k) n h = absurd (n h)
  resume_point-IsQuiet m f done n h = absurd (n h)
  resume_point-IsQuiet m f destroyed n h = absurd (n h)

  resume-IsQuiet :
      (m : Machine A E) (c : Control)
      → (m.event_set ≡ true → c ≡ idle)
      → c ≡ m.control
      → IsQuiet (resume never_set m c)
  resume-IsQuiet m (running f) q e h =
      resume_point-IsQuiet m f (m.frames f).point (λ s. absurd (cc (q s))) h
  resume-IsQuiet m (suspended f) q e h = absurd (cc (q h))
  resume-IsQuiet m idle q e h = sym e

  run-IsQuiet : (n : ℕ) (m : Machine A E) → IsQuiet m → IsQuiet (run never_set n m)
  unfolding run step
  run-IsQuiet zero m q = q
  run-IsQuiet (suc n) m q = run-IsQuiet n (step never_set m) (resume-IsQuiet m m.control q refl)

  run-idle : (n : ℕ) (m : Machine A E) → m.control ≡ idle → run never_set n m ≡ m
  unfolding run step
  run-idle zero m h = refl
  run-idle (suc n) m h =
      let same : step never_set m ≡ m = ap (resume never_set m) h in
      ap (run never_set n) same ∙ run-idle n m h

  -- An idle machine stays as it is.
  run-stays :
      (n fuel : ℕ) (m : Machine A E)
      → n ≤ fuel
      → (run never_set n m).control ≡ idle
      → run never_set fuel m ≡ run never_set n m
  unfolding run
  run-stays zero fuel m l h = run-idle fuel m h
  run-stays (suc n) zero m l h = absurd (omega (arith, l))
  run-stays (suc n) (suc fuel) m l h = run-stays n fuel (step never_set m) (omega (arith, l)) h

  answer : Machine A E → Option (Result A E)
  answer m = if m.event_set then some (result never_set (m.frames 0).storage) else none

  answer-set :
      (m : Machine A E) (r : Result A E)
      → m.event_set ≡ true
      → result never_set (m.frames 0).storage ≡ r
      → answer m ≡ some r
  unfolding answer
  answer-set m r h e = simp (h, e) refl

  -- For any body of a task there is a number of steps after which `sync_wait` has returned, with the
  -- value or the exception that the body has as an ordinary program; and before that it has either
  -- not returned, or with the same result.
  pub sync_wait-eval :
      (b : Body A E)
      → (n : ℕ) × ((fuel : ℕ) → n ≤ fuel → sync_wait never_set fuel b ≡ some (eval b))
        × ((fuel : ℕ)
            → (sync_wait never_set fuel b ≡ none) ⊎ (sync_wait never_set fuel b ≡ some (eval b)))
  unfolding sync_wait answer final_suspend eval
  sync_wait-eval b =
      let st = sync_wait_start never_set b in
      let (t, v) =
        run-Finishes never_set st 0 (co_await_task b co_return_result) refl refl (omega arith) in
      let value : eval (co_await_task b co_return_result) ≡ eval b =
        eval-co_return_result (eval b) in
      let at_end : answer t ≡ some (eval b) =
        answer-set t (eval b) v.event
          (ap (λ x. result never_set x.storage) v.frame ∙ result-storage_of never_set _ ∙ value) in
      let late : (fuel : ℕ) → v.steps ≤ fuel → sync_wait never_set fuel b ≡ some (eval b) =
        λ fuel l.
          ap answer
            (run-stays v.steps fuel st l (ap (λ x. x.control) v.reaches ∙ v.control) ∙ v.reaches)
          ∙ at_end in
      (
        v.steps,
        late,
        λ fuel. elim (Bool-cases (run never_set fuel st).event_set) [
          | inl h ↦ elim (lt-cases fuel v.steps) [
            | inl l ↦ inr (
                ap answer (
                  sym (
                    run-stays fuel v.steps st (omega (arith, l))
                      (run-IsQuiet fuel st (λ z. absurd (cc z)) h))
                  ∙ v.reaches)
                ∙ at_end)
            | inr l ↦ inr (late fuel l)
          ]
          | inr h ↦ inl (simp h refl)
        ],
      )
