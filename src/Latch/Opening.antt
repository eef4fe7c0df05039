-- ===== src/Latch/Opening.antt =====
-- include/coro/latch.hpp: when a latch opens.
use native.Mathlib.Nat.{add-zero, zero-add, add_assoc}
use libcoro.Base.{
  ℕ, ◌+◌, ◌-◌, ◌%◌, ◌≤◌, ◌<◌, ◌≡◌, refl, List, [], ◌∷◌, ◌++◌, arith, leb, sign_bit, size_mod,
}
use libcoro.Event
use libcoro.Event.{Event, set_state, awaiters}
use libcoro.Latch.{Latch, make_latch, is_ready, remaining, count_down, await_latch}

pub data Call : Type 0 where
  counts_down : ℕ → Call
  awaits : ℕ → Call

-- A latch with the coroutines that have been resumed.
pub record History : Type 0 where
  pub latch : Latch
  pub resumed : List ℕ

unfoldable pub step : History → Call → History
step h (counts_down n) =
    let (cs, l) = count_down h.latch n in record { latch = l; resumed = h.resumed ++ cs }
step h (awaits c) = let (b, l) = await_latch h.latch c in record h { latch = l }

unfoldable pub run : History → List Call → History
run h [] = h
run h (k ∷ ks) = run (step h k) ks

unfoldable pub start : ℕ → History
start n = record { latch = make_latch n; resumed = [] }

-- What the calls have counted down together.
abbrev pub total : List Call → ℕ
total [] = 0
total (counts_down n ∷ ks) = n + total ks
total (awaits c ∷ ks) = total ks

-- `done` has been counted down from `n`.
record Counted (n done : ℕ) (l : Latch) : Type 0 where
  count : l.count ≡ (n + size_mod - done) % size_mod
  opened : is_ready l ≡ leb n done

count_down-Counted :
    (n done k : ℕ) (h : History) (e : Event)
    → n < sign_bit
    → done + k < sign_bit
    → h.latch.event ≡ e
    → Counted n done h.latch
    → Counted n (done + k) (step h (counts_down k)).latch
unfolding step count_down is_ready Event.is_set Event.set
count_down-Counted n done k h set_state a b q v = ground arith
count_down-Counted n done k h (awaiters ws) a b q v = ground arith

await-Counted :
    (n done c : ℕ) (h : History) (e : Event)
    → h.latch.event ≡ e
    → Counted n done h.latch
    → Counted n done (step h (awaits c)).latch
unfolding step await_latch is_ready Event.is_set Event.await_suspend
await-Counted n done c h set_state q v = ground arith
await-Counted n done c h (awaiters ws) q v = ground arith

run-Counted :
    (n done : ℕ) (h : History) (ks : List Call)
    → n < sign_bit
    → done + total ks < sign_bit
    → Counted n done h.latch
    → Counted n (done + total ks) (run h ks).latch
unfolding run
run-Counted n done h [] a b v = rw (add-zero) v
run-Counted n done h (counts_down k ∷ ks) a b v = rw (← add_assoc) (
    run-Counted n (done + k) (step h (counts_down k)) ks a (omega arith)
      (count_down-Counted n done k h h.latch.event a (omega arith) refl v))
run-Counted n done h (awaits c ∷ ks) a b v =
    run-Counted n done (step h (awaits c)) ks a b (await-Counted n done c h h.latch.event refl v)

start-Counted : (n : ℕ) → n < sign_bit → Counted n 0 (start n).latch
unfolding start make_latch is_ready Event.make_event Event.is_set
start-Counted n h = ground arith

-- For a count and a sum of decrements from 0 to 2 ^ 63 - 1, whatever coroutines wait in between and
-- in whatever portions it is counted down: the latch is ready exactly if the decrements add up to
-- its count, and until they exceed it `remaining` is the difference.
pub latch_opens :
    (n : ℕ) (ks : List Call)
    → n < sign_bit
    → total ks < sign_bit
    → let l = (run (start n) ks).latch in
      (is_ready l ≡ leb n (total ks)) × (total ks ≤ n → remaining l ≡ n - total ks)
unfolding remaining
latch_opens n ks a b =
    let v : Counted n (total ks) (run (start n) ks).latch =
      rw (← zero-add (total ks))
        (run-Counted n 0 (start n) ks a (omega arith) (start-Counted n a)) in
    (v.opened, λ h. omega (arith, v.count))
