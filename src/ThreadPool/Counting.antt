-- ===== src/ThreadPool/Counting.antt =====
-- src/thread_pool.cpp: what `m_size` counts, and what the workers leave in the queue.
use libcoro.Base.{
  ℕ, zero, suc, ◌+◌, ◌≤◌, ◌<◌, ◌≡◌, ◌⊎◌, refl, sym, ap, ◌∙◌, inl, inr, Bool, true, false, List, [],
  ◌∷◌, ◌++◌, arith, ltb, if◌then◌else◌, length, get_or, set, size_mod, fetch_sub, append_assoc,
  Bool-cases,
}
use libcoro.ThreadPool.{
  Handle, ThreadPool, take_front, Worker, serving, waiting, executing, draining, polling, finishing,
  stopped, executor,
}
use libcoro.ThreadPool.System.{System, total, busy, at_end, takes}

-- The units of `m_size` by who holds them.
abbrev pub units : System → ℕ
units s =
    s.adding
    + s.admitted
    + s.refused
    + s.ranging
    + s.nulls
    + s.detached
    + length s.pool.queue
    + total busy s.workers

pub record Inv (s : System) : Type 0 where
  pub counted : s.pool.size ≡ units s
  pub drained : (total at_end s.workers ≡ 0) ⊎ (length s.pool.queue ≤ s.late)
  pub fifo : s.queued ≡ s.taken ++ s.pool.queue

-- A worker outside the list counts as one that has stopped and stays so.
pub total-set :
    (f : Worker → ℕ) (ws : List Worker) (i : ℕ) (w : Worker)
    → (at_end (get_or ws i stopped) ≡ 1 → w ≡ stopped)
    → total f (set ws i w) + f (get_or ws i stopped) ≡ total f ws + f w
total-set f [] i w h = omega (arith, ap f (h refl))
total-set f (x ∷ ws) zero w h = omega arith
total-set f (x ∷ ws) (suc i) w h = omega (arith, total-set f ws i w h)

pub total-get_or :
    (f : Worker → ℕ) (ws : List Worker) (i : ℕ)
    → f stopped ≡ 0
    → f (get_or ws i stopped) ≤ total f ws
total-get_or f [] i h = omega (arith, h)
total-get_or f (x ∷ ws) zero h = omega arith
total-get_or f (x ∷ ws) (suc i) h = omega (arith, total-get_or f ws i h)

-- What a worker's access does to the pool and to its own share.
pub record Works (s : System) (x w : Worker) (p : ThreadPool) : Type 0 where
  size : p.size + busy x + length s.pool.queue ≡ s.pool.size + busy w + length p.queue
  shrinks : length p.queue ≤ length s.pool.queue
  bound : busy w + length p.queue ≤ busy x + length s.pool.queue
  ends : (at_end w ≡ at_end x) ⊎ (length p.queue ≡ 0)
  front : s.pool.queue ≡ takes x w ++ p.queue
  stays : at_end x ≡ 1 → w ≡ stopped

Works-take :
    (s : System) (x idle : Worker) (next : Handle → Worker) (q : List Handle)
    → s.pool.queue ≡ q
    → busy x ≡ 0
    → at_end x ≡ 0
    → ((h : Handle) → (busy (next h) ≡ 1) × (at_end (next h) ≡ 0) × (takes x (next h) ≡ h ∷ []))
    → (busy idle ≡ 0) × (takes x idle ≡ [])
    → (let (w, p) = take_front s.pool q next idle in Works s x w p)
Works-take s x idle next [] e b a n k = record {
  size = omega (arith, b, k.0);
  bound = omega (arith, b, k.0);
  shrinks = omega arith;
  ends = inr (ap length e);
  front = rw (e, k.1) refl;
  stays = λ o. absurd (omega (arith, a, o));
}
Works-take s x idle next (h ∷ hs) e b a n k = record {
  size = omega (arith, b, (n h).0, ap length e);
  bound = omega (arith, b, (n h).0, ap length e);
  shrinks = omega (arith, ap length e);
  ends = inl ((n h).1 ∙ sym a);
  front = rw (e, (n h).2) refl;
  stays = λ o. absurd (omega (arith, a, o));
}

unmoved :
    (s : System) (x w : Worker)
    → busy x ≡ busy w
    → at_end w ≡ at_end x
    → takes x w ≡ []
    → (at_end x ≡ 1 → w ≡ stopped)
    → Works s x w s.pool
unmoved s x w b a t o = record {
  size = omega (arith, b);
  bound = omega (arith, b);
  shrinks = omega arith;
  ends = inl a;
  front = rw t refl;
  stays = o;
}

resumed :
    (s : System) (x w : Worker)
    → Inv s
    → units s < size_mod
    → busy x ≤ total busy s.workers
    → (busy x ≡ 1) × (busy w ≡ 0) × (at_end x ≡ 0) × (at_end w ≡ 0) × (takes x w ≡ [])
    → Works s x w (record s.pool { size = fetch_sub s.pool.size 1 })
resumed s x w v b h k = record {
  size = omega (arith, v.counted, b, h, k.0, k.1);
  bound = omega (arith, k.0, k.1);
  shrinks = omega arith;
  ends = inl (omega (arith, k.2, k.3));
  front = rw k.4 refl;
  stays = λ o. absurd (omega (arith, o, k.2));
}

begun : (s : System) (b : Bool) → Works s serving (if b then draining else waiting) s.pool
begun s true = unmoved s serving draining refl refl refl (λ o. absurd (omega (arith, o)))
begun s false = unmoved s serving waiting refl refl refl (λ o. absurd (omega (arith, o)))

idles : (b : Bool) → let w = if b then serving else waiting in (busy w ≡ 0) × (takes waiting w ≡ [])
idles true = (refl, refl)
idles false = (refl, refl)

pub Works-executor :
    (s : System)
    → Inv s
    → units s < size_mod
    → (x : Worker) → busy x ≤ total busy s.workers
    → (let (w, p) = executor s.pool x in Works s x w p)
unfolding executor
Works-executor s v b serving h = begun s s.pool.shutdown_requested
Works-executor s v b waiting h =
    Works-take s waiting _ executing s.pool.queue refl refl refl (λ h. (refl, refl, refl))
      (idles s.pool.shutdown_requested)
Works-executor s v b (executing c) h =
    resumed s (executing c) serving v b h (refl, refl, refl, refl, refl)
Works-executor s v b draining h = elim (Bool-cases (ltb 0 s.pool.size)) [
  | inl e ↦ rw e (unmoved s draining polling refl refl refl (λ o. absurd (omega (arith, o))))
  | inr e ↦
      let none_left : length s.pool.queue ≡ 0 = ground (arith, e, v.counted) in
      rw e (record {
        size = omega arith;
        bound = omega arith;
        shrinks = omega arith;
        ends = inr none_left;
        front = refl;
        stays = λ o. absurd (omega (arith, o));
      })
]
Works-executor s v b polling h =
    Works-take s polling stopped finishing s.pool.queue refl refl refl (λ h. (refl, refl, refl))
      (refl, refl)
Works-executor s v b (finishing c) h =
    resumed s (finishing c) draining v b h (refl, refl, refl, refl, refl)
Works-executor s v b stopped h = unmoved s stopped stopped refl refl refl (λ o. refl)

pub step-works :
    (s : System) (i : ℕ) (x w : Worker) (p : ThreadPool)
    → Inv s
    → get_or s.workers i stopped ≡ x
    → Works s x w p
    → Inv (record s { pool = p; workers = set s.workers i w; taken = s.taken ++ takes x w })
step-works s i x w p v e k =
    let stays : at_end (get_or s.workers i stopped) ≡ 1 → w ≡ stopped =
      λ o. k.stays (ap at_end (sym e) ∙ o) in
    let worked = total-set busy s.workers i w stays in
    let ended = total-set at_end s.workers i w stays in
    record {
      counted = omega (arith, v.counted, k.size, worked, ap busy e);
      drained = elim v.drained [
        | inl zero_ended ↦ elim k.ends [
          | inl same ↦ inl (omega (arith, ended, ap at_end e, same, zero_ended))
          | inr empty ↦ inr (omega (arith, empty))
        ]
        | inr few ↦ inr (omega (arith, few, k.shrinks))
      ];
      fifo =
          v.fifo ∙ ap (λ q. s.taken ++ q) k.front ∙ sym (append_assoc s.taken (takes x w) p.queue);
    }

pub units-works :
    (s : System) (i : ℕ) (x w : Worker) (p : ThreadPool)
    → get_or s.workers i stopped ≡ x
    → Works s x w p
    → units (record s { pool = p; workers = set s.workers i w; taken = s.taken ++ takes x w })
      ≤ units s
units-works s i x w p e k =
    let worked = total-set busy s.workers i w (λ o. k.stays (ap at_end (sym e) ∙ o)) in
    omega (arith, k.bound, worked, ap busy e)
