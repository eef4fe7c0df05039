-- ===== src/WhenAll/Tasks/Results.antt =====
-- include/coro/when_all.hpp: the results of the tasks when the awaiting coroutine goes on.
use libcoro.Base.{
  ℕ, zero, suc, ◌+◌, ◌<◌, ◌≡◌, ◌⊎◌, refl, sym, ap, ◌∙◌, inl, inr, Bool, true, false, not, ◌&&◌,
  none, some, List, [], ◌∷◌, map, length, arith, ◌==◌, Bool-cases, size_mod,
}
use libcoro.Task.{Result, returned, thrown}
use libcoro.WhenAll.{make_latch}
use libcoro.WhenAll.System
use libcoro.WhenAll.System.{System, Phase, starting, stored, suspended, went_on}
use libcoro.WhenAll.Once.{Inv, step-Inv, continued, once}
use libcoro.WhenAll.Tasks.{
  State, waiting, running, completed, WhenAllTask, make_when_all_task, store_result,
  return_value_of, when_all, is_waiting, is_running, start_next, runs_at, finish_at, Awaiting, Move,
  starts, stores, counts_down, completes, is_starting, start, step, run,
}

abbrev tally : Bool → ℕ
tally true = 1
tally false = 0

abbrev is_completed : State → Bool
is_completed completed = true
is_completed _ = false

one_state : (x : State) → tally (is_waiting x) + tally (is_running x) + tally (is_completed x) ≡ 1
one_state waiting = refl
one_state running = refl
one_state completed = refl

running-is_completed : (x : State) → is_running x ≡ true → is_completed x ≡ false
running-is_completed running b = refl
running-is_completed waiting b = cc
running-is_completed completed b = cc

waiting-is_completed : (x : State) → is_waiting x ≡ true → is_completed x ≡ false
waiting-is_completed waiting b = refl
waiting-is_completed running b = cc
waiting-is_completed completed b = cc

keeps :
    (c : ℕ) (s : System) (p : Phase)
    → ((System.step c s p System.stores).waiting ≡ s.waiting)
      × ((System.step c s p System.stores).running ≡ s.running)
      × ((System.step c s p System.counts_down).waiting ≡ s.waiting)
      × ((System.step c s p System.counts_down).running ≡ s.running)
unfolding System.step
keeps c s starting = ground arith
keeps c s stored = (refl, refl, refl, refl)
keeps c s suspended = (refl, refl, refl, refl)
keeps c s went_on = (refl, refl, refl, refl)

starts_one :
    (c : ℕ) (s : System) (p : Phase)
    → is_starting p && not (s.waiting == 0) ≡ true
    → (0 < s.waiting)
      × ((System.step c s p System.starts).waiting + 1 ≡ s.waiting)
      × ((System.step c s p System.starts).running ≡ s.running + 1)
unfolding System.step
starts_one c s starting b = ground (arith, b)
starts_one c s stored b = cc
starts_one c s suspended b = cc
starts_one c s went_on b = cc

ends_one :
    (s : System)
    → 0 < s.running
    → ((System.completes_one s).waiting ≡ s.waiting)
      × ((System.completes_one s).running + 1 ≡ s.running)
ends_one s b = ground (arith, b)

module _ {A E : Type 0} where
  abbrev in_state : (State → Bool) → List (WhenAllTask A E) → ℕ
  in_state p [] = 0
  in_state p (t ∷ ts) = tally (p t.state) + in_state p ts

  -- The tasks of `rs`, of which those that have completed hold their results.
  abbrev Holds : List (Result A E) → List (WhenAllTask A E) → Type 0
  Holds [] [] = Unit
  Holds [] (t ∷ ts) = ⊥
  Holds (a ∷ rs) [] = ⊥
  Holds (a ∷ rs) (t ∷ ts) =
      ((t.awaitable ≡ a)
        × ((is_completed t.state ≡ true) × (return_value_of t ≡ some a)
            ⊎ (is_completed t.state ≡ false) × (t.exception ≡ none) × (t.return_value ≡ none)))
      × Holds rs ts

  when_all-Holds : (rs : List (Result A E)) → Holds rs (when_all rs)
  unfolding when_all make_when_all_task
  when_all-Holds [] = tt
  when_all-Holds (a ∷ rs) = ((refl, inr (refl, refl, refl)), when_all-Holds rs)

  when_all-waiting :
      (rs : List (Result A E))
      → (in_state is_waiting (when_all rs) ≡ length rs)
        × (in_state is_running (when_all rs) ≡ 0)
        × (in_state is_completed (when_all rs) ≡ 0)
  unfolding when_all make_when_all_task
  when_all-waiting [] = (refl, refl, refl)
  when_all-waiting (a ∷ rs) =
      let v = when_all-waiting rs in (omega (arith, v), omega (arith, v), omega (arith, v))

  start_next-Holds :
      (rs : List (Result A E)) (ts : List (WhenAllTask A E))
      → Holds rs ts
      → Holds rs (start_next ts)
  unfolding start_next
  start_next-Holds [] [] v = v
  start_next-Holds [] (t ∷ ts) v = elim v [ ]
  start_next-Holds (a ∷ rs) [] v = elim v [ ]
  start_next-Holds (a ∷ rs) (t ∷ ts) v = elim (Bool-cases (is_waiting t.state)) [
    | inl e ↦ simp e (
        let ((w, o), u) = v in
        elim o [
          | inl (d, q) ↦ cc (waiting-is_completed t.state e)
          | inr o ↦ ((w, inr (refl, o.1, o.2)), u)
        ])
    | inr e ↦ simp e (v.0, start_next-Holds rs ts v.1)
  ]

  start_next_counts :
      (ts : List (WhenAllTask A E))
      → 0 < in_state is_waiting ts
      → (in_state is_waiting (start_next ts) + 1 ≡ in_state is_waiting ts)
        × (in_state is_running (start_next ts) ≡ in_state is_running ts + 1)
        × (in_state is_completed (start_next ts) ≡ in_state is_completed ts)
  unfolding start_next
  start_next_counts [] b = omega (arith, b)
  start_next_counts (t ∷ ts) b = ground (arith, one_state t.state, start_next_counts ts)

  store_result-Holds :
      (a r : Result A E) (t : WhenAllTask A E)
      → r ≡ a
      → t.awaitable ≡ a
      → t.exception ≡ none
      → t.return_value ≡ none
      → ((store_result r t).awaitable ≡ a)
        × (((is_completed (store_result r t).state ≡ true)
              × (return_value_of (store_result r t) ≡ some a))
            ⊎ ((is_completed (store_result r t).state ≡ false)
                × ((store_result r t).exception ≡ none)
                × ((store_result r t).return_value ≡ none)))
  store_result-Holds a (returned x) t e w p q = (w, inl (refl, simp p (ap some e)))
  store_result-Holds a (thrown x) t e w p q = (w, inl (refl, ap some e))

  finish_at-Holds :
      (rs : List (Result A E)) (i : ℕ) (ts : List (WhenAllTask A E))
      → runs_at i ts ≡ true
      → Holds rs ts
      → Holds rs (finish_at i ts)
  unfolding finish_at
  finish_at-Holds rs zero [] b v = v
  finish_at-Holds rs (suc i) [] b v = v
  finish_at-Holds [] zero (t ∷ ts) b v = elim v [ ]
  finish_at-Holds [] (suc i) (t ∷ ts) b v = elim v [ ]
  finish_at-Holds (a ∷ rs) (suc i) (t ∷ ts) b (h, v) = (h, finish_at-Holds rs i ts b v)
  finish_at-Holds (a ∷ rs) zero (t ∷ ts) b ((w, inl (c, q)), v) =
      cc (running-is_completed t.state b)
  finish_at-Holds (a ∷ rs) zero (t ∷ ts) b ((w, inr (c, p, q)), v) =
      (store_result-Holds a t.awaitable t w w p q, v)

  store_result-state : (r : Result A E) (t : WhenAllTask A E) → (store_result r t).state ≡ completed
  store_result-state (returned x) t = refl
  store_result-state (thrown x) t = refl

  finish_at_counts :
      (i : ℕ) (ts : List (WhenAllTask A E))
      → runs_at i ts ≡ true
      → (in_state is_waiting (finish_at i ts) ≡ in_state is_waiting ts)
        × (in_state is_running (finish_at i ts) + 1 ≡ in_state is_running ts)
        × (in_state is_completed (finish_at i ts) ≡ in_state is_completed ts + 1)
  unfolding finish_at
  finish_at_counts zero [] b = cc
  finish_at_counts (suc i) [] b = cc
  finish_at_counts zero (t ∷ ts) b =
      simp (store_result-state t.awaitable t) (ground (arith, one_state t.state, b))
  finish_at_counts (suc i) (t ∷ ts) b =
      let v = finish_at_counts i ts b in (omega (arith, v), omega (arith, v), omega (arith, v))

  all_completed :
      (rs : List (Result A E)) (ts : List (WhenAllTask A E))
      → Holds rs ts
      → in_state is_waiting ts + in_state is_running ts ≡ 0
      → map return_value_of ts ≡ map some rs
  all_completed [] [] v b = refl
  all_completed [] (t ∷ ts) v b = elim v [ ]
  all_completed (a ∷ rs) [] v b = elim v [ ]
  all_completed (a ∷ rs) (t ∷ ts) ((w, inl (d, q)), v) b =
      simp q (ap (some a ∷◌) (all_completed rs ts v (omega (arith, b))))
  all_completed (a ∷ rs) (t ∷ ts) ((w, inr (d, p, q)), v) b =
      ground (arith, one_state t.state, d, b)

  -- The tasks and the counts of the system agree.
  record Linked (c : ℕ) (rs : List (Result A E)) (s : Awaiting A E) : Type 0 where
    inv : Inv (length rs) c s.system
    holds : Holds rs s.tasks
    is_counted :
        (in_state is_waiting s.tasks ≡ s.system.waiting)
        × (in_state is_running s.tasks ≡ s.system.running)

  step-Linked :
      (c : ℕ) (rs : List (Result A E)) (s : Awaiting A E) (m : Move)
      → length rs + 1 < size_mod
      → Linked c rs s
      → Linked c rs (step c s m)
  unfolding step
  step-Linked c rs s starts b v =
      elim (Bool-cases (is_starting s.system.phase && not (s.system.waiting == 0))) [
        | inl e ↦
            let o = starts_one c s.system s.system.phase e in
            let k = start_next_counts s.tasks (omega (arith, o, v.is_counted)) in
            simp e (record {
              inv =
                  step-Inv (length rs) c s.system s.system.phase System.starts b refl v.inv
                    v.inv.fits;
              holds = start_next-Holds rs s.tasks v.holds;
              is_counted = (omega (arith, o, k, v.is_counted), omega (arith, o, k, v.is_counted));
            })
        | inr e ↦ simp e v
      ]
  step-Linked c rs s (completes i) b v = elim (Bool-cases (runs_at i s.tasks)) [
    | inl e ↦
        let k = finish_at_counts i s.tasks e in
        let o = ends_one s.system (omega (arith, k, v.is_counted)) in
        simp e (record {
          inv =
              step-Inv (length rs) c s.system s.system.phase System.completes b refl v.inv
                v.inv.fits;
          holds = finish_at-Holds rs i s.tasks e v.holds;
          is_counted = (omega (arith, o, k, v.is_counted), omega (arith, o, k, v.is_counted));
        })
    | inr e ↦ simp e v
  ]
  step-Linked c rs s stores b v =
      let k = keeps c s.system s.system.phase in
      record {
        inv = step-Inv (length rs) c s.system s.system.phase System.stores b refl v.inv v.inv.fits;
        holds = v.holds;
        is_counted = (v.is_counted.0 ∙ sym k.0, v.is_counted.1 ∙ sym k.1);
      }
  step-Linked c rs s counts_down b v =
      let k = keeps c s.system s.system.phase in
      record {
        inv =
            step-Inv (length rs) c s.system s.system.phase System.counts_down b refl v.inv
              v.inv.fits;
        holds = v.holds;
        is_counted = (v.is_counted.0 ∙ sym k.2, v.is_counted.1 ∙ sym k.3);
      }

  run-Linked :
      (c : ℕ) (rs : List (Result A E)) (s : Awaiting A E) (ms : List Move)
      → length rs + 1 < size_mod
      → Linked c rs s
      → Linked c rs (run c s ms)
  unfolding run
  run-Linked c rs s [] b v = v
  run-Linked c rs s (m ∷ ms) b v = run-Linked c rs (step c s m) ms b (step-Linked c rs s m b v)

  start-Linked :
      (c : ℕ) (rs : List (Result A E)) → length rs + 1 < size_mod → Linked c rs (start rs)
  unfolding start System.start make_latch
  start-Linked c rs b =
      let k = when_all-waiting rs in
      record {
        inv = record { all = omega arith; fits = (omega (arith, b), refl) };
        holds = when_all-Holds rs;
        is_counted = (k.0, k.1);
      }

  -- For fewer than 2 ^ 64 - 1 awaitables and any interleaving of their completions, in whatever order,
  -- with the start of the others and with the awaiting coroutine's own accesses: where that coroutine
  -- goes on, its tasks give the results of the awaitables, values and exceptions alike, in the order
  -- in which `when_all` was given these.
  pub gives_results :
      (c : ℕ) (rs : List (Result A E)) (ms : List Move)
      → length rs + 1 < size_mod
      → let s = run c (start rs) ms in
        (continued s.system.phase s.system.resumed ≡ 0)
        ⊎ (map return_value_of s.tasks ≡ map some rs)
  gives_results c rs ms b =
      let s = run c (start rs) ms in
      let v : Linked c rs s = run-Linked c rs (start rs) ms b (start-Linked c rs b) in
      let o = once (length rs) c s.system s.system.phase v.inv.all v.inv.fits in
      elim o.2 [
        | inl e ↦ inl e
        | inr e ↦ inr (all_completed rs s.tasks v.holds (omega (arith, e, v.inv.all, v.is_counted)))
      ]
