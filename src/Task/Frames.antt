-- ===== src/Task/Frames.antt =====
-- include/coro/task.hpp: what a step changes, and the runs of one frame that make up another's.
use libcoro.Base.{ℕ, zero, suc, ◌<◌, ◌≤◌, ◌≡◌, ◌≢◌, refl, ap, ◌∙◌, ◌⊎◌, inl, inr, none, some, arith}
use libcoro.Task.{
  Result, returned, thrown, Storage, unset_return_value, stored, exception, Body, co_return, throws,
  co_await_task, suspends, Point, before, awaits, done, destroyed, Final, continuation, sets_event,
  Frame, running, Machine, result, resume, resume_point, set_frame, final_suspend, finish,
  set_point, await_task, await_resume, step, run,
}

-- The body as an ordinary program, in which `co_await` is a call.
unfoldable pub eval : {A E : Type 0} → Body A E → Result A E
eval (co_return a) = returned a
eval (throws e) = thrown e
eval (co_await_task b k) = eval (k (eval b))
eval (suspends b) = eval b

-- What the promise stores of a result.
abbrev pub storage_of : {A E : Type 0} → Result A E → Storage A E
storage_of (returned a) = stored a
storage_of (thrown e) = exception e

pub lt-cases : (g n : ℕ) → (g < n) ⊎ (n ≤ g)
lt-cases g n = omega arith

module _ {A E : Type 0} (never_set : E) where
  -- Frame `f`, which runs `b` in `m`, is at its end in `m'`, by some number of steps: its promise has
  -- the result of `b`, and what the promise does at its end is done. The frames that have been
  -- allocated since are destroyed, and the others are as they were.
  pub record Finishes (m : Machine A E) (f : ℕ) (b : Body A E) (m' : Machine A E) : Type 0 where
    pub steps : ℕ
    pub reaches : run never_set steps m ≡ m'
    pub frame :
        m'.frames f
        ≡ record { point = done; final = (m.frames f).final; storage = storage_of (eval b) }
    pub control : m'.control ≡ (final_suspend never_set m (m.frames f).final).control
    pub event : m'.event_set ≡ (final_suspend never_set m (m.frames f).final).event_set
    pub grows : m.next ≤ m'.next
    pub freed : (g : ℕ) → m.next ≤ g → g < m'.next → (m'.frames g).point ≡ destroyed
    pub others : (g : ℕ) → g < m.next → g ≢ f → m'.frames g ≡ m.frames g

  -- Runs one after the other.
  pub run-run :
      (i j : ℕ) (m : Machine A E)
      → (n : ℕ) × (run never_set n m ≡ run never_set j (run never_set i m))
  unfolding run
  run-run zero j m = (j, refl)
  run-run (suc i) j m = let (n, e) = run-run i j (step never_set m) in (suc n, e)

  pub step-resume :
      (m : Machine A E) (f : ℕ) (p : Point A E)
      → m.control ≡ running f
      → (m.frames f).point ≡ p
      → step never_set m ≡ resume_point never_set m f p
  unfolding step
  step-resume m f p h e = ap (resume never_set m) h ∙ ap (resume_point never_set m f) e

  pub final-frames :
      (m : Machine A E) (fin : Final)
      → ((final_suspend never_set m fin).frames ≡ m.frames)
        × ((final_suspend never_set m fin).next ≡ m.next)
  unfolding final_suspend
  final-frames m (continuation none) = (refl, refl)
  final-frames m (continuation (some g)) = (refl, refl)
  final-frames m sets_event = (refl, refl)

  pub final-control :
      (m m' : Machine A E) (fin : Final)
      → m'.event_set ≡ m.event_set
      → ((final_suspend never_set m' fin).control ≡ (final_suspend never_set m fin).control)
        × ((final_suspend never_set m' fin).event_set ≡ (final_suspend never_set m fin).event_set)
  unfolding final_suspend
  final-control m m' (continuation none) e = (refl, e)
  final-control m m' (continuation (some g)) e = (refl, e)
  final-control m m' sets_event e = (refl, refl)

  pub result-storage_of : (r : Result A E) → result never_set (storage_of r) ≡ r
  unfolding result
  result-storage_of (returned a) = refl
  result-storage_of (thrown e) = refl

  set-same : (m : Machine A E) (f : ℕ) (fr : Frame A E) → (set_frame never_set m f fr).frames f ≡ fr
  set-same m f fr = ground arith

  set-other :
      (m : Machine A E) (f g : ℕ) (fr : Frame A E)
      → g ≢ f
      → (set_frame never_set m f fr).frames g ≡ m.frames g
  set-other m f g fr ne = ground (arith, ne)

  pub finish-Finishes :
      (m : Machine A E) (f : ℕ) (b : Body A E)
      → step never_set m ≡ finish never_set m f (storage_of (eval b))
      → Finishes m f b (finish never_set m f (storage_of (eval b)))
  unfolding run
  finish-Finishes m f b e =
      let fin = (m.frames f).final in
      let fr : Frame A E = record { point = done; final = fin; storage = storage_of (eval b) } in
      let t = set_frame never_set m f fr in
      let (p, q) = final-frames t fin in
      let (c, v) = final-control m t fin refl in
      record {
        steps = 1;
        reaches = e;
        frame = ap (λ x. x f) p ∙ set-same m f fr;
        control = c;
        event = v;
        grows = omega (arith, q);
        freed = λ g h h'. absurd (omega (arith, q, h, h'));
        others = λ g h ne. ap (λ x. x g) p ∙ set-other m f g fr ne;
      }

  -- From `m`, steps that only touch frame `f` and frames of their own, which they free.
  pub record Nears (m : Machine A E) (f : ℕ) (m' : Machine A E) : Type 0 where
    pub steps : ℕ
    pub reaches : run never_set steps m ≡ m'
    pub final : (m'.frames f).final ≡ (m.frames f).final
    pub event : m'.event_set ≡ m.event_set
    pub grows : m.next ≤ m'.next
    pub freed : (g : ℕ) → m.next ≤ g → g < m'.next → (m'.frames g).point ≡ destroyed
    pub others : (g : ℕ) → g < m.next → g ≢ f → m'.frames g ≡ m.frames g

  pub Finishes-after :
      (m m' m'' : Machine A E) (f : ℕ) (b b' : Body A E)
      → f < m.next
      → eval b' ≡ eval b
      → Nears m f m'
      → Finishes m' f b' m''
      → Finishes m f b m''
  Finishes-after m m' m'' f b b' lt same n v =
      let fin = (m.frames f).final in
      let (c, e) = final-control m m' fin n.event in
      let (k, r) = run-run n.steps v.steps m in
      record {
        steps = k;
        reaches = r ∙ ap (run never_set v.steps) n.reaches ∙ v.reaches;
        frame =
            v.frame
            ∙ ap (λ x. record { point = done; final = x; storage = storage_of (eval b') }) n.final
            ∙ ap (λ x. record { point = done; final = fin; storage = storage_of x }) same;
        control = v.control ∙ ap (λ x. (final_suspend never_set m' x).control) n.final ∙ c;
        event = v.event ∙ ap (λ x. (final_suspend never_set m' x).event_set) n.final ∙ e;
        grows = omega (arith, n.grows, v.grows);
        freed = λ g h h'. elim (lt-cases g m'.next) [
          | inl l ↦ ap (λ x. x.point) (v.others g l λ e. omega (arith, e, h, lt)) ∙ n.freed g h l
          | inr l ↦ v.freed g l h'
        ];
        others = λ g h ne. v.others g (omega (arith, h, n.grows)) ne ∙ n.others g h ne;
      }

  pub suspends-Nears :
      (m : Machine A E) (f : ℕ) (b : Body A E)
      → m.control ≡ running f
      → (m.frames f).point ≡ before (suspends b)
      → let m' = record (set_point never_set m f (before b)) { control = running f } in Nears m f m'
  unfolding run step
  suspends-Nears m f b h p =
      let fr : Frame A E = record {
        point = before b;
        final = (m.frames f).final;
        storage = (m.frames f).storage;
      } in
      record {
        steps = 2;
        reaches = ap (step never_set) (step-resume m f (before (suspends b)) h p);
        final = ap (λ x. x.final) (set-same m f fr);
        event = refl;
        grows = omega arith;
        freed = λ g l l'. absurd (omega (arith, l, l'));
        others = λ g l ne. set-other m f g fr ne;
      }

  pub await_task-next :
      (m : Machine A E) (f : ℕ) (b : Body A E) (k : Result A E → Body A E)
      → f < m.next
      → let m' = await_task never_set m f b k in
        (m'.frames m.next ≡ record {
          point = before b;
          final = continuation (some f);
          storage = unset_return_value;
        })
        × (m'.frames f ≡ record {
          point = awaits m.next k;
          final = (m.frames f).final;
          storage = (m.frames f).storage;
        })
        × ((g : ℕ) → g < m.next → g ≢ f → m'.frames g ≡ m.frames g)
  await_task-next m f b k lt = (ground arith, ground (arith, lt), λ g l ne. ground (arith, l, ne))

  pub await_resume-next :
      (m : Machine A E) (f n : ℕ) (k : Result A E → Body A E)
      → f ≢ n
      → let m' = await_resume never_set m f n k in
        (m'.frames f ≡ record {
          point = before (k (result never_set (m.frames n).storage));
          final = (m.frames f).final;
          storage = (m.frames f).storage;
        })
        × ((m'.frames n).point ≡ destroyed)
        × ((g : ℕ) → g ≢ n → g ≢ f → m'.frames g ≡ m.frames g)
  await_resume-next m f n k ne =
      (ground (arith, ne), ground (arith, ne), λ g l l'. ground (arith, l, l'))
