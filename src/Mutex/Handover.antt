-- ===== src/Mutex/Handover.antt =====
-- src/mutex.cpp: who gets the lock when its owner unlocks.
use mathlib.Core.Path.{subst}
use mathlib.Core.Logic.{inl}
use libcoro.Base.{ℕ, ◌≡◌, ◌≢◌, ap, ◌∙◌, false, some, List, [], ◌∷◌, arith}
use libcoro.Mutex.{
  operation, Phase, idle, owning, unlocking, popping, popping_next, Mutex, goto, Turn, step, run,
  advance, unlock_loop, pop_loop, pop_exchange,
}
use libcoro.Mutex.Chain.{Chain, update_self}
use libcoro.Mutex.Invariant.{Local, Inv}

-- The next access of operation `t`, with no spurious failure.
abbrev pub turn : ℕ → Turn
turn t = record { operation = t; tries = false; spurious = false }

step-at :
    (m : Mutex) (t : ℕ) (p : Phase) → m.phase t ≡ p → step m (turn t) ≡ advance m t false false p
unfolding step
step-at m t p e = rw e

popped :
    (m : Mutex) (t w : ℕ) (ws : List ℕ)
    → m.state ≡ operation w
    → Chain m.next (m.next w) ws
    → t ≢ w
    → let m' = pop_exchange m t false w (m.next w) in
      (m'.phase w ≡ owning) × (m'.phase t ≡ idle) × Chain m'.next m'.state ws
unfolding pop_exchange
popped m t w ws s c n = rw s (ground (arith, n, c))

-- The owner runs `unlock` while `w` is the first waiting operation and nobody else moves: `w`, the
-- latest to have queued, owns the lock, the former owner is done, and the others stay queued behind
-- it in their order.
pub unlock_lifo :
    (m : Mutex) (t w : ℕ) (ws : List ℕ)
    → Inv m (some t) (w ∷ ws)
    → m.phase t ≡ owning
    → let m' = run m (turn t ∷ turn t ∷ turn t ∷ turn t ∷ []) in
      (m'.phase w ≡ owning) × (m'.phase t ≡ idle) × Chain m'.next m'.state ws
unfolding run advance unlock_loop pop_loop
unlock_lifo m t w ws v e =
    let s : m.state ≡ operation w = v.shape.0 in
    let m1 : Mutex = goto m t (unlocking (operation w)) in
    let m2 : Mutex = goto m1 t (popping (operation w)) in
    let m3 : Mutex = goto m2 t (popping_next w (m.next w)) in
    let e1 : step m (turn t) ≡ m1 = step-at m t owning e ∙ ap (λ x. goto m t (unlocking x)) s in
    let e2 : step m1 (turn t) ≡ m2 =
      step-at m1 t _ (update_self m.phase t (unlocking (operation w)))
      ∙ ap (λ x. goto m1 t (popping x)) s in
    let e3 : step m2 (turn t) ≡ m3 =
      step-at m2 t _ (update_self m1.phase t (popping (operation w))) in
    let e4 : step m3 (turn t) ≡ pop_exchange m3 t false w (m.next w) =
      step-at m3 t _ (update_self m2.phase t (popping_next w (m.next w))) in
    rw (e1, e2, e3, e4) (popped m3 t w ws s v.shape.1 apart)
  where
    apart : t ≢ w
    apart q = (subst (Local m.next (some t) (w ∷ ws) t) e (v.each t)).1 (inl q)
