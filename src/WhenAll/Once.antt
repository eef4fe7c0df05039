-- ===== src/WhenAll/Once.antt =====
-- include/coro/when_all.hpp: the coroutine that awaits the tasks goes on once, after all of them.
use libcoro.Base.{
  length, ℕ, suc, ◌+◌, ◌≤◌, ◌<◌, ◌≡◌, ◌⊎◌, refl, Bool, true, false, some, List, [], ◌∷◌, arith,
  size_mod, append-nil,
}
use libcoro.WhenAll.{
  make_latch, store_awaiting, await_count_down, Resumption, coroutine, notify_awaitable_completed,
}
use libcoro.WhenAll.System.{
  System, Phase, starting, stored, suspended, went_on, Move, starts, completes, stores, counts_down,
  start, step, run,
}

-- What each phase says of the latch and of what has been resumed, with `n` tasks in all.
abbrev pub Fits : ℕ → System → Phase → Type 0
Fits c s starting = (s.latch.count ≡ s.waiting + s.running + 1) × (s.resumed ≡ [])
Fits c s stored =
    (s.latch.count ≡ s.running + 1)
    × (s.waiting ≡ 0)
    × (s.resumed ≡ [])
    × (s.latch.awaiting_coroutine ≡ some c)
Fits c s suspended =
    (s.latch.count ≡ s.running)
    × (s.waiting ≡ 0)
    × (((0 < s.running) × (s.resumed ≡ []) × (s.latch.awaiting_coroutine ≡ some c))
        ⊎ ((s.running ≡ 0) × (s.resumed ≡ coroutine c ∷ [])))
Fits c s went_on = (s.latch.count ≡ 0) × (s.waiting ≡ 0) × (s.running ≡ 0) × (s.resumed ≡ [])

pub record Inv (n c : ℕ) (s : System) : Type 0 where
  pub all : s.waiting + s.running + s.completed ≡ n
  pub fits : Fits c s s.phase

pub step-Inv :
    (n c : ℕ) (s : System) (p : Phase) (m : Move)
    → n + 1 < size_mod
    → s.phase ≡ p
    → Inv n c s
    → Fits c s p
    → Inv n c (step c s p m)
unfolding step store_awaiting await_count_down notify_awaitable_completed
step-Inv n c s starting starts b e v f = ground (arith, v.all, f)
step-Inv n c s starting completes b e v f = ground (arith, v.all, f, append-nil s.resumed)
step-Inv n c s starting stores b e v f = ground (arith, v.all, f)
step-Inv n c s starting counts_down b e v f = v
step-Inv n c s stored starts b e v f = v
step-Inv n c s stored completes b e v f = ground (arith, v.all, f, append-nil s.resumed)
step-Inv n c s stored stores b e v f = v
step-Inv n c s stored counts_down b e v f = ground (arith, v.all, f)
step-Inv n c s suspended starts b e v f = v
step-Inv n c s suspended completes b e v f = ground (arith, v.all, f, append-nil s.resumed)
step-Inv n c s suspended stores b e v f = v
step-Inv n c s suspended counts_down b e v f = v
step-Inv n c s went_on starts b e v f = v
step-Inv n c s went_on completes b e v f = ground (arith, v.all, f, append-nil s.resumed)
step-Inv n c s went_on stores b e v f = v
step-Inv n c s went_on counts_down b e v f = v

run-Inv :
    (n c : ℕ) (s : System) (ms : List Move) → n + 1 < size_mod → Inv n c s → Inv n c (run c s ms)
unfolding run
run-Inv n c s [] b v = v
run-Inv n c s (m ∷ ms) b v =
    run-Inv n c (step c s s.phase m) ms b (step-Inv n c s s.phase m b refl v v.fits)

-- How often the awaiting coroutine has gone on after its `co_await`.
abbrev pub continued : Phase → List Resumption → ℕ
continued went_on rs = suc (length rs)
continued p rs = length rs

-- Whether `await_suspend` has decided.
abbrev pub decided : Phase → Bool
decided suspended = true
decided went_on = true
decided _ = false

pub once :
    (n c : ℕ) (s : System) (p : Phase)
    → s.waiting + s.running + s.completed ≡ n
    → Fits c s p
    → (continued p s.resumed ≤ 1)
      × ((s.resumed ≡ []) ⊎ (s.resumed ≡ coroutine c ∷ []))
      × ((continued p s.resumed ≡ 0) ⊎ (s.completed ≡ n))
      × ((decided p ≡ false) ⊎ ((s.completed < n) ⊎ (continued p s.resumed ≡ 1)))
once n c s starting a f = ground (arith, a, f)
once n c s stored a f = ground (arith, a, f)
once n c s suspended a f = ground (arith, a, f)
once n c s went_on a f = ground (arith, a, f)

-- For any number of tasks below 2 ^ 64 - 1 and any interleaving of their completions with the start
-- of the others and with the awaiting coroutine's own accesses: that coroutine goes on at most once,
-- no completing task resumes anything else, it goes on only when all tasks have completed, and once
-- they have and `await_suspend` has decided, it has gone on.
pub run_continues_once :
    (n c : ℕ) (ms : List Move)
    → n + 1 < size_mod
    → let s = run c (start n) ms in
      (continued s.phase s.resumed ≤ 1)
      × ((s.resumed ≡ []) ⊎ (s.resumed ≡ coroutine c ∷ []))
      × ((continued s.phase s.resumed ≡ 0) ⊎ (s.completed ≡ n))
      × ((decided s.phase ≡ false) ⊎ ((s.completed < n) ⊎ (continued s.phase s.resumed ≡ 1)))
unfolding start make_latch
run_continues_once n c ms b =
    let v : Inv n c (run c (start n) ms) =
      run-Inv n c (start n) ms b (record { all = omega arith; fits = (omega (arith, b), refl) }) in
    once n c (run c (start n) ms) (run c (start n) ms).phase v.all v.fits
