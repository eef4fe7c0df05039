-- ===== src/Task/Evaluation.antt =====
-- include/coro/task.hpp: a task that is awaited does what a call of its body would do.
use libcoro.Base.{ℕ, suc, ◌<◌, ◌≡◌, ◌≢◌, refl, ap, ◌∙◌, ◌⊎◌, inl, inr, some, arith}
use libcoro.Task.{
  Result, stored, exception, Body, co_return, throws, co_await_task, suspends, before, awaits,
  continuation, running, Machine, result, final_suspend, finish, set_point, await_task,
  await_resume, step, run,
}
use libcoro.Task.Frames.{
  eval, Finishes, Nears, run-run, step-resume, result-storage_of, finish-Finishes, Finishes-after,
  suspends-Nears, await_task-next, await_resume-next,
}

eq-cases : (g n : ℕ) → (g ≡ n) ⊎ (g ≢ n)
eq-cases g n = omega arith

module _ {A E : Type 0} (never_set : E) where
  -- Frame `f` before what is left of its body.
  record Ready (m : Machine A E) (f : ℕ) (b : Body A E) : Type 0 where
    pub control : m.control ≡ running f
    pub point : (m.frames f).point ≡ before b

  await-Nears :
      (m m' : Machine A E) (f : ℕ) (b : Body A E) (k : Result A E → Body A E)
      → f < m.next
      → Ready m f (co_await_task b k)
      → Finishes never_set (await_task never_set m f b k) m.next b m'
      → Nears never_set m f (await_resume never_set m' f m.next k)
        × Ready (await_resume never_set m' f m.next k) f (k (eval b))
  unfolding run final_suspend
  await-Nears m m' f b k lt r v =
      let n = m.next in
      let m1 = await_task never_set m f b k in
      let m3 = await_resume never_set m' f n k in
      let ne : f ≢ n = λ e. omega (arith, e, lt) in
      let (child, self, rest) = await_task-next never_set m f b k lt in
      let (self', child', rest') = await_resume-next never_set m' f n k ne in
      let fin : (m1.frames n).final ≡ continuation (some f) = ap (λ x. x.final) child in
      let back : m'.control ≡ running f =
        v.control ∙ ap (λ x. (final_suspend never_set m1 x).control) fin in
      let kept : m'.frames f ≡ m1.frames f = v.others f (omega (arith, lt)) ne in
      let woken = step-resume never_set m' f (awaits n k) back (ap (λ x. x.point) (kept ∙ self)) in
      let stored : result never_set (m'.frames n).storage ≡ eval b =
        ap (λ x. result never_set x.storage) v.frame ∙ result-storage_of never_set (eval b) in
      let (i, e) = run-run never_set v.steps 1 m1 in
      (
        record {
          steps = suc i;
          reaches =
              ap (run never_set i)
                (step-resume never_set m f (before (co_await_task b k)) r.control r.point)
              ∙ e
              ∙ ap (step never_set) v.reaches
              ∙ woken;
          final = ap (λ x. x.final) self' ∙ ap (λ x. x.final) (kept ∙ self);
          event = v.event ∙ ap (λ x. (final_suspend never_set m1 x).event_set) fin;
          grows = omega (arith, v.grows);
          freed = λ g h h'. elim (eq-cases g n) [
            | inl z ↦ ap (λ x. (m3.frames x).point) z ∙ child'
            | inr z ↦
                ap (λ x. x.point) (rest' g z λ y. omega (arith, y, lt, h))
                ∙ v.freed g (omega (arith, h, z)) h'
          ];
          others = λ g h z.
              let g_ne : g ≢ n = λ y. omega (arith, y, h) in
              rest' g g_ne z ∙ v.others g (omega (arith, h)) g_ne ∙ rest g h z;
        },
        record { control = back; point = ap (λ x. x.point) self' ∙ ap (λ x. before (k x)) stored },
      )

  -- From a state in which frame `f` runs, before `b`, the machine comes to the end of that frame:
  -- its promise holds the result that `b` has as an ordinary program, with `co_await` as a call; its
  -- continuation runs, or its event is set; the frames that were allocated on the way are destroyed;
  -- and no other frame has changed.
  pub run-Finishes :
      (m : Machine A E) (f : ℕ) (b : Body A E)
      → m.control ≡ running f
      → (m.frames f).point ≡ before b
      → f < m.next
      → (m' : Machine A E) × Finishes never_set m f b m'
  unfolding eval
  run-Finishes m f (co_return a) h p lt = (
    finish never_set m f (stored a),
    finish-Finishes never_set m f (co_return a) (step-resume never_set m f _ h p),
  )
  run-Finishes m f (throws e) h p lt = (
    finish never_set m f (exception e),
    finish-Finishes never_set m f (throws e) (step-resume never_set m f _ h p),
  )
  run-Finishes m f (suspends b) h p lt =
      let m1 = record (set_point never_set m f (before b)) { control = running f } in
      let at : (m1.frames f).point ≡ before b = ground arith in
      let (m2, v) = run-Finishes m1 f b refl at lt in
      (
        m2,
        Finishes-after never_set m m1 m2 f (suspends b) b lt refl
            (suspends-Nears never_set m f b h p) v,
      )
  run-Finishes m f (co_await_task b k) h p lt =
      let m1 = await_task never_set m f b k in
      let (child, self, rest) = await_task-next never_set m f b k lt in
      let (m2, v) = run-Finishes m1 m.next b refl (ap (λ x. x.point) child) (omega arith) in
      let (n, r) = await-Nears m m2 f b k lt (record { control = h; point = p }) v in
      let m3 = await_resume never_set m2 f m.next k in
      let (m4, w) = run-Finishes m3 f (k (eval b)) r.control r.point (omega (arith, n.grows, lt)) in
      (m4, Finishes-after never_set m m3 m4 f (co_await_task b k) (k (eval b)) lt refl n w)
