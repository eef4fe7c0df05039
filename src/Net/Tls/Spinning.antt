-- ===== src/Net/Tls/Spinning.antt =====
-- include/coro/net/tls/client.hpp: `recv` once SSL_read_ex asks to write.
use libcoro.Base.{
  ℕ, zero, suc, ◌+◌, ◌-◌, ◌/◌, ◌≤◌, ◌<◌, ◌≡◌, ◌⊎◌, refl, sym, ap, ◌∙◌, inl, inr, Option, none, some,
  List, arith, Bool, true, false, ◌==◌, leb, Bool-cases,
}
use libcoro.Poll.{PollOp, PollStatus}
use libcoro.Net.Tls.{
  SslResult, fails, want_write, Tls, Deadline, deadline, end_call, recv,  elapse, recv_verdict, value_or_zero, begin_turn, transfer_loop,
}
use libcoro.Net.Tls.Transfer.{Option-cases}

-- The clock does not go back, neither between two readings nor during a poll.
pub record Clock {K A : Type 0} (os : Tls K A) : Type 0 where
  pub time : K → ℕ
  pub now_reads : (k : K) → ((os.now k).0 ≡ time k) × (time k ≤ time (os.now k).1)
  pub poll_waits : (k : K) (op : PollOp) (t : ℕ) → time k ≤ time (os.poll k op t).1

late-elapse : (t : ℕ) (d : Deadline) → 0 < t → d.stop ≤ d.start → 0 < elapse t d
late-elapse t d p b = ground (arith, p, b)

nonzero : (n : ℕ) → 0 < n → (n == 0) ≡ false
nonzero n p = ground (arith, p)

positive : (n : ℕ) → (n == 0) ≡ false → 0 < n
positive n p = ground (arith, p)

module _ {K A : Type 0} (os : Tls K A) where
  -- The beginning of the first turn of `recv`.
  abbrev pub first_turn : K → Option ℕ → Deadline × K
  first_turn k t = elim t [
      | none ↦ (deadline none, k)
      | some t ↦
          let (x, k1) = os.now k in
          (record { timeout = some t; first = false; start = x; stop = 0 }, k1)
    ]

module _ {K A : Type 0} (os : Tls K A) (clock : Clock os) where
  open clock use {time}

  -- There is no timeout, or it is positive and the last call ended before the last turn began.
  abbrev Late : Deadline → K → Type 0
  Late d k =
      (d.timeout ≡ none)
      ⊎ ((t : ℕ)
        × (d.timeout ≡ some t)
        × (0 < t)
        × (d.first ≡ false)
        × (d.stop ≤ d.start)
        × (d.stop ≤ time k))

  abbrev Begins : Deadline → K → Type 0
  Begins d k = (d' : Deadline) × ((begin_turn os d k).0 ≡ some d') × Late d' (begin_turn os d k).1

  begins :
      (d : Deadline) (k : K) (t : ℕ)
      → d.timeout ≡ some t
      → d.first ≡ false
      → 0 < elapse t d
      → d.stop ≤ time k
      → Begins d k
  unfolding begin_turn
  begins d k t e f p c =
      let r = clock.now_reads k in
      rw (e, f, begin_turn)
        (rw (nonzero (elapse t d) p, begin_turn)
          (_, refl, inr (elapse t d, refl, p, refl, omega (arith, c, r), omega (arith, c, r))))

  begin_turn-Late : (d : Deadline) (k : K) → Late d k → Begins d k
  unfolding begin_turn
  begin_turn-Late d k (inl e) = rw (e, begin_turn) (d, refl, inl e)
  begin_turn-Late d k (inr (t, e, p, f, b, c)) = begins d k t e f (late-elapse t d p b) c

  Late-later : (d : Deadline) (k k' : K) → time k ≤ time k' → Late d k → Late d k'
  Late-later d k k' h (inl e) = inl e
  Late-later d k k' h (inr (t, e, p, f, b, c)) = inr (t, e, p, f, b, omega (arith, h, c))

  turn_spins :
      {R : Type 0} (call : K → SslResult R × K)
      → ((k : K) (t : ℕ) → (os.poll k PollOp.write t).0 ≡ PollStatus.write)
      → (fuel : ℕ) (d : Deadline) (k : K) (d' : Deadline)
      → (begin_turn os d k).0 ≡ some d'
      → Late d' (begin_turn os d k).1
      → transfer_loop os recv_verdict call fuel PollOp.write d k ≡ none
  unfolding transfer_loop
  turn_spins call w zero d k d' e l = refl
  turn_spins call w (suc fuel) d k d' e l =
      let k1 = (begin_turn os d k).1 in
      let t = value_or_zero d'.timeout in
      let k2 = (os.poll k1 PollOp.write t).1 in
      let (d'', e', l') = begin_turn-Late d' k2 (Late-later d' k1 k2 (clock.poll_waits k1 PollOp.write t) l) in
      rw (e, transfer_loop) (rw (w k1 t, transfer_loop) (turn_spins call w fuel d' k2 d'' e' l'))

  -- A turn that has time left, after one that has been begun.
  left_begins :
      (d : Deadline) (k : K)
      → (d.timeout ≡ none) ⊎ ((t : ℕ) × (d.timeout ≡ some t) × (d.first ≡ false))
      → d.stop ≤ time k
      → ((begin_turn os d k).0 ≡ none → ⊥)
      → Begins d k
  unfolding begin_turn
  left_begins d k (inl e) c h = begin_turn-Late d k (inl e)
  left_begins d k (inr (t, e, f)) c h = elim (Bool-cases (elapse t d == 0)) [
      | inl z ↦ elim (h (rw (e, f, begin_turn) (rw (z, begin_turn) refl))) [ ]
      | inr z ↦ begins d k t e f (positive (elapse t d) z) c
      ]

  call_ends :
      (t : Option ℕ) (k k3 : K)
      → let d1 = (first_turn os k t).0 in
        let (d2, k4) = end_call os d1 k3 in
        ((d2.timeout ≡ none) ⊎ ((t : ℕ) × (d2.timeout ≡ some t) × (d2.first ≡ false)))
        × (d2.stop ≤ time k4)
  unfolding end_call
  call_ends none k k3 = (inl refl, omega arith)
  call_ends (some t) k k3 =
      let r = clock.now_reads k3 in (inr (t, refl, refl), omega (arith, r))

  second_turn_spins :
      {R : Type 0}
      → ((k : K) (t : ℕ) → (os.poll k PollOp.write t).0 ≡ PollStatus.write)
      → (call : K → SslResult R × K) (t : Option ℕ) (k k3 : K)
      → let (d2, k4) = end_call os (first_turn os k t).0 k3 in
        ((begin_turn os d2 k4).0 ≡ none → ⊥)
      → (fuel : ℕ)
      → transfer_loop os recv_verdict call fuel PollOp.write d2 k4 ≡ none
  second_turn_spins w call t k k3 h fuel =
      let d2 = (end_call os (first_turn os k t).0 k3).0 in
      let k4 = (end_call os (first_turn os k t).0 k3).1 in
      let c = call_ends t k k3 in
      let (d', b, l) = left_begins d2 k4 c.0 c.1 h in
      turn_spins call w fuel d2 k4 d' b l

-- SSL_read_ex asks to write in the first turn of `recv`, there is time left for another turn, and the
-- socket is writable: `recv` never returns, with any timeout or without.
pub recv_spins :
    {K A : Type 0} (os : Tls K A)
    → Clock os
    → ((k : K) (t : ℕ) → (os.poll k PollOp.write t).0 ≡ PollStatus.write)
    → (n : ℕ) (k : K) (t : Option ℕ)
    → let (d1, k1) = first_turn os k t in
      let (p, k2) = os.poll k1 PollOp.read (value_or_zero d1.timeout) in
      let (r, k3) = os.ssl_read k2 (suc n) in
      let (d2, k4) = end_call os d1 k3 in
      p ≡ PollStatus.read
    → r ≡ fails want_write
    → ((begin_turn os d2 k4).0 ≡ none → ⊥)
    → (fuel : ℕ)
    → recv os fuel k (suc n) t ≡ none
unfolding recv transfer_loop begin_turn
recv_spins os clock w n k t e f h zero = refl
recv_spins os clock w n k none e f h (suc fuel) =
    let k3 = (os.ssl_read (os.poll k PollOp.read 0).1 (suc n)).1 in
    let s = second_turn_spins os clock w (λ k. os.ssl_read k (suc n)) none k k3 h fuel in
    rw (e, transfer_loop) (rw (f, transfer_loop) s)
recv_spins os clock w n k (some t) e f h (suc fuel) =
    let k3 = (os.ssl_read (os.poll (os.now k).1 PollOp.read t).1 (suc n)).1 in
    let s = second_turn_spins os clock w (λ k. os.ssl_read k (suc n)) (some t) k k3 h fuel in
    rw (e, transfer_loop) (rw (f, transfer_loop) s)
