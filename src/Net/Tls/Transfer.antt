-- ===== src/Net/Tls/Transfer.antt =====
-- include/coro/net/tls/client.hpp: when `recv` and `send` return, and what they have moved then.
use libcoro.Base.{
  ℕ, zero, suc, ◌+◌, ◌≤◌, ◌<◌, ◌≡◌, ◌≢◌, ◌⊎◌, refl, sym, ap, ◌∙◌, inl, inr, Option, none, some, List, [],
  ◌∷◌, ◌++◌, arith, length, true, false, take, drop, append_assoc, take-append-drop,
}
use libcoro.Poll.{PollOp, PollStatus}
use libcoro.Net.Tls.{
  SslError, error_none, SslResult, done, fails, Tls, Status, ok, Deadline, deadline, Verdict,
  proceeds, again, stops, recv_verdict, send_verdict, wanted, value_or_zero, Outcome, begin_turn,
  end_call, transfer_loop, recv, send, buffer_is_empty, timeout, send_span, recv_span,
}

-- A call that returns, with an outcome that has the property.
abbrev pub Returns : {B : Type 0} → (B → Type 0) → Option B → Type 0
Returns P none = ⊥
Returns P (some o) = P o

pub Returns-map :
    {B : Type 0} (P Q : B → Type 0) (o : Option B)
    → ((x : B) → P x → Q x)
    → Returns P o
    → Returns Q o
Returns-map P Q none f v = v
Returns-map P Q (some x) f v = f x v

pub Option-cases : {B : Type 0} (t : Option B) → (t ≡ none) ⊎ ((x : B) × (t ≡ some x))
Option-cases none = inl refl
Option-cases (some x) = inr (x, refl)

Verdict-cases : (v : Verdict) → (v ≡ proceeds) ⊎ ((v ≡ again) ⊎ ((s : Status) × (v ≡ stops s)))
Verdict-cases proceeds = inl refl
Verdict-cases again = inr (inl refl)
Verdict-cases (stops s) = inr (inr (s, refl))

pub SslResult-cases :
    {R : Type 0} (r : SslResult R) → ((x : R) × (r ≡ done x)) ⊎ ((e : SslError) × (r ≡ fails e))
SslResult-cases (done x) = inl (x, refl)
SslResult-cases (fails e) = inr (e, refl)

recv-never_ok : (p : PollStatus) → recv_verdict p ≢ stops ok
recv-never_ok PollStatus.read e = cc
recv-never_ok PollStatus.write e = cc
recv-never_ok PollStatus.timeout e = cc
recv-never_ok PollStatus.error e = cc
recv-never_ok PollStatus.closed e = cc
recv-never_ok PollStatus.cancelled e = cc

send-never_ok : (p : PollStatus) → send_verdict p ≢ stops ok
send-never_ok PollStatus.read e = cc
send-never_ok PollStatus.write e = cc
send-never_ok PollStatus.timeout e = cc
send-never_ok PollStatus.error e = cc
send-never_ok PollStatus.closed e = cc
send-never_ok PollStatus.cancelled e = cc

-- A loop that makes `call` after polls for `op`: the bytes it has moved, as `gives` says of a result of
-- at most `bound` bytes, and how often the call can still ask to be made again. It asks for `op` alone,
-- and a poll for `op` does not end with the other operation.
pub record Behaves {K A R : Type 0} (os : Tls K A) (verdict : PollStatus → Verdict) (op : PollOp)
    (call : K → SslResult R × K) (size : R → ℕ) (bound : ℕ) (gives : R → List A) : Type 0 where
  pub moved : K → List A
  pub rounds : K → ℕ
  pub poll_keeps :
      (k : K) (t : ℕ)
      → (moved (os.poll k op t).1 ≡ moved k) × (rounds (os.poll k op t).1 ≤ rounds k)
  pub poll_answers : (k : K) (t : ℕ) → verdict (os.poll k op t).0 ≢ again
  pub now_keeps : (k : K) → (moved (os.now k).1 ≡ moved k) × (rounds (os.now k).1 ≤ rounds k)
  pub call_gives :
      (k : K) (x : R)
      → (call k).0 ≡ done x
      → (moved (call k).1 ≡ moved k ++ gives x) × (size x ≤ bound)
  pub call_fails :
      (k : K) (e : SslError)
      → (call k).0 ≡ fails e
      → (moved (call k).1 ≡ moved k)
        × (e ≢ error_none)
        × ((wanted e ≡ none) ⊎ ((wanted e ≡ some op) × (rounds (call k).1 < rounds k)))

module _ {K A R : Type 0} (os : Tls K A) (verdict : PollStatus → Verdict) (op : PollOp)
    (call : K → SslResult R × K) (size : R → ℕ) (bound : ℕ) (gives : R → List A)
    (b : Behaves os verdict op call size bound gives)
    (never_ok : (p : PollStatus) → verdict p ≢ stops ok) where
  open b use {moved, rounds}

  -- The outcome of a loop that starts at `k`.
  abbrev pub Delivered : K → Outcome K R → Type 0
  Delivered k o =
      ((x : R) × (o.status ≡ ok)
        × (o.value ≡ some x)
        × (size x ≤ bound)
        × (moved o.kernel ≡ moved k ++ gives x))
      ⊎ ((o.status ≢ ok) × (o.value ≡ none) × (moved o.kernel ≡ moved k))

  Delivered-from : (k k' : K) → moved k' ≡ moved k → (o : Outcome K R) → Delivered k' o → Delivered k o
  Delivered-from k k' e o (inl (x, s, v, l, m)) = inl (x, s, v, l, m ∙ ap (λ l. l ++ gives x) e)
  Delivered-from k k' e o (inr (s, v, m)) = inr (s, v, m ∙ e)

  begin_keeps :
      (d : Deadline) (k : K)
      → (moved (begin_turn os d k).1 ≡ moved k) × (rounds (begin_turn os d k).1 ≤ rounds k)
  unfolding begin_turn
  begin_keeps d k = elim (Option-cases d.timeout) [
      | inl e ↦ rw (e, begin_turn) (refl, omega arith)
      | inr (t, e) ↦ rw (e, begin_turn) (ground (arith, b.now_keeps k))
      ]

  end_keeps :
      (d : Deadline) (k : K)
      → (moved (end_call os d k).1 ≡ moved k) × (rounds (end_call os d k).1 ≤ rounds k)
  unfolding end_call
  end_keeps d k = elim (Option-cases d.timeout) [
      | inl e ↦ rw (e, end_call) (refl, omega arith)
      | inr (t, e) ↦ rw (e, end_call) (b.now_keeps k)
      ]

  loop_delivers :
      (fuel : ℕ) (d : Deadline) (k : K)
      → rounds k < fuel
      → Returns (Delivered k) (transfer_loop os verdict call fuel op d k)
  unfolding transfer_loop
  loop_delivers zero d k h = omega (arith, h)
  loop_delivers (suc fuel) d k h =
      let w = begin_keeps d k in
      let k1 = (begin_turn os d k).1 in
      elim (Option-cases (begin_turn os d k).0) [
        | inl e ↦ rw (e, Returns) (inr (cc, refl, w.0))
        | inr (d1, e) ↦
            let t = value_or_zero d1.timeout in
            let k2 = (os.poll k1 op t).1 in
            let p = b.poll_keeps k1 t in
            rw (e, Returns) (elim (Verdict-cases (verdict (os.poll k1 op t).0)) [
              | inr (inl v) ↦ elim (b.poll_answers k1 t v) [ ]
              | inr (inr (s, v)) ↦
                  rw (v, Returns) (inr (λ z. never_ok (os.poll k1 op t).0 (v ∙ ap stops z), refl, p.0 ∙ w.0))
              | inl v ↦
                  let k4 = (end_call os d1 (call k2).1).1 in
                  let q = end_keeps d1 (call k2).1 in
                  rw (v, Returns) (elim (SslResult-cases (call k2).0) [
                    | inl (x, r) ↦
                        let c = b.call_gives k2 x r in
                        rw (r, Returns) (inl (x, refl, refl, c.1, q.0 ∙ c.0 ∙ ap (λ l. l ++ gives x) (p.0 ∙ w.0)))
                    | inr (z, r) ↦
                        let c = b.call_fails k2 z r in
                        rw (r, Returns) (elim c.2 [
                          | inl n ↦ rw (n, Returns) (inr (λ s. c.1 cc, refl, q.0 ∙ c.0 ∙ p.0 ∙ w.0))
                          | inr (n, l) ↦ rw (n, Returns)
                              (Returns-map (Delivered k4) (Delivered k)
                                (transfer_loop os verdict call fuel op (end_call os d1 (call k2).1).0 k4)
                                (Delivered-from k k4 (q.0 ∙ c.0 ∙ p.0 ∙ w.0))
                                (loop_delivers fuel (end_call os d1 (call k2).1).0 k4
                                  (omega (arith, h, q.1, l, p.1, w.1))))
                        ])
                  ])
            ])
      ]

-- With the calls of OpenSSL behaving as they are documented to, and SSL_read_ex never asking to write,
-- `recv` returns once it is given more fuel than SSL_read_ex asks to be made again: with `ok` and the
-- bytes that have been received in the one call that succeeds, at most as many as the buffer takes, or
-- with another status, and then no byte has been received.
pub recv_delivers :
    {K A : Type 0} (os : Tls K A) (n : ℕ)
    (b : Behaves os recv_verdict PollOp.read (λ k. os.ssl_read k (suc n)) length (suc n) (λ xs. xs))
    (fuel : ℕ) (k : K) (t : Option ℕ)
    → b.rounds k < fuel
    → Returns
        (λ o.
          ((o.status ≡ ok)
            × (length (recv_span o.value) ≤ suc n)
            × (b.moved o.kernel ≡ b.moved k ++ recv_span o.value))
          ⊎ ((o.status ≢ ok) × (b.moved o.kernel ≡ b.moved k)))
        (recv os fuel k (suc n) t)
unfolding recv
recv_delivers os n b fuel k t h =
    Returns-map _ _
      (transfer_loop os recv_verdict (λ k. os.ssl_read k (suc n)) fuel PollOp.read (deadline t) k)
      (λ o d. elim d [
        | inl (x, s, v, l, e) ↦ inl (s, rw (v, recv_span) l, rw (v, recv_span) e)
        | inr (s, v, e) ↦ inr (s, e)
      ])
      (loop_delivers os recv_verdict PollOp.read (λ k. os.ssl_read k (suc n)) length (suc n) (λ xs. xs) b
        recv-never_ok fuel (deadline t) k h)

-- Likewise for `send`, whose SSL_write_ex never asks to read: with `ok` the span that it returns is what
-- is left of the buffer after the bytes that have been sent, and with another status no byte has been.
pub send_delivers :
    {K A : Type 0} (os : Tls K A) (x : A) (xs : List A)
    (b : Behaves os send_verdict PollOp.write (λ k. os.ssl_write k (x ∷ xs)) (λ m. m) (length (x ∷ xs)) (λ m. take m (x ∷ xs)))
    (fuel : ℕ) (k : K) (t : Option ℕ)
    → b.rounds k < fuel
    → Returns
      (λ o.
        ((o.status ≡ ok) × (b.moved o.kernel ++ send_span (x ∷ xs) o.value ≡ b.moved k ++ x ∷ xs))
        ⊎ ((o.status ≢ ok) × (b.moved o.kernel ≡ b.moved k)))
      (send os fuel k (x ∷ xs) t)
unfolding send
send_delivers os x xs b fuel k t h =
    Returns-map _ _
      (transfer_loop os send_verdict (λ k. os.ssl_write k (x ∷ xs)) fuel PollOp.write (deadline t) k)
      (λ o d. elim d [
        | inl (m, s, v, l, e) ↦
            inl (s, rw (v, send_span) (ap (λ l. l ++ drop m (x ∷ xs)) e ∙ append_assoc (b.moved k) (take m (x ∷ xs)) (drop m (x ∷ xs)) ∙ ap (λ l. b.moved k ++ l) (take-append-drop m (x ∷ xs))))
        | inr (s, v, e) ↦ inr (s, e)
      ])
      (loop_delivers os send_verdict PollOp.write (λ k. os.ssl_write k (x ∷ xs)) (λ m. m)
        (length (x ∷ xs)) (λ m. take m (x ∷ xs)) b send-never_ok fuel (deadline t) k h)
