-- ===== src/Net/Tls/Handshake/Establishes.antt =====
-- src/net/tls/client.cpp: what `connect` and its handshake return.
use libcoro.Base.{
  ℕ, zero, suc, ◌≤◌, ◌<◌, ◌==◌, ◌||◌, ◌≡◌, ◌≢◌, ◌⊎◌, refl, sym, ap, ◌∙◌, inl, inr, Bool, true, false, Option, none,
  some, arith, Bool-cases,
}
use mathlib.Core.Option
use libcoro.Poll.{PollOp, PollStatus}
use libcoro.Net.TcpConnect.{Connecting, succeeds, result_of}
use libcoro.Net.TcpConnect
use libcoro.Net.Tls.{Tls, SslError, done, fails, wanted}
use libcoro.Net.Tls.Transfer.{Returns, Returns-map, Option-cases, SslResult-cases}
use libcoro.Net.Tls.Handshake.{
  ConnectionStatus, TlsClient, poll_ends, handshake_loop, set_up, handshake, polled, connecting, connect_new,
  return_value, connect,
}

poll_ends-connected : (p : PollStatus) → poll_ends p ≡ some ConnectionStatus.connected → ⊥
poll_ends-connected PollStatus.read e = cc
poll_ends-connected PollStatus.write e = cc
poll_ends-connected PollStatus.timeout e = cc
poll_ends-connected PollStatus.error e = cc
poll_ends-connected PollStatus.closed e = cc
poll_ends-connected PollStatus.cancelled e = cc

pub Returns-Option_map :
    {B C : Type 0} (P : C → Type 0) (f : B → C) (o : Option B)
    → Returns (λ x. P (f x)) o
    → Returns P (Option.map f o)
Returns-Option_map P f none v = v
Returns-Option_map P f (some x) v = v

-- A connection that OpenSSL has established, and how often SSL_connect can still ask to be called again.
pub record Handshakes {K A : Type 0} (os : Tls K A) : Type 0 where
  pub established : K → Bool
  pub rounds : K → ℕ
  pub connect_establishes :
      (k : K) (u : Unit) → (os.ssl_connect k).0 ≡ done u → established (os.ssl_connect k).1 ≡ true
  pub connect_asks :
      (k : K) (e : SslError)
      → (os.ssl_connect k).0 ≡ fails e
      → (wanted e ≡ none) ⊎ (rounds (os.ssl_connect k).1 < rounds k)
  pub poll_waits : (k : K) (op : PollOp) (t : ℕ) → rounds (os.poll k op t).1 ≤ rounds k
  pub new_keeps : (k : K) → rounds (os.ssl_new k).1 ≤ rounds k
  pub set_fd_keeps : (k : K) → rounds (os.ssl_set_fd k).1 ≤ rounds k
  pub set_state_keeps : (k : K) (b : Bool) → rounds (os.ssl_set_state k b) ≤ rounds k
  pub connect_keeps : (k : K) → rounds (os.connect k).1 ≤ rounds k
  pub socket_error_keeps : (k : K) → rounds (os.socket_error k).1 ≤ rounds k

module _ {K A : Type 0} (os : Tls K A) (laws : Handshakes os) where
  open laws use {established, rounds}

  abbrev pub Established : ConnectionStatus → K → Type 0
  Established s k = (established k ≡ true) ⊎ (s ≢ ConnectionStatus.connected)

  handshake_loop-Established :
      (fuel : ℕ) (k : K) (t : ℕ)
      → rounds k < fuel
      → Returns (λ o. Established o.0 o.1) (handshake_loop os fuel k t)
  unfolding handshake_loop
  handshake_loop-Established zero k t h = omega (arith, h)
  handshake_loop-Established (suc fuel) k t h = elim (SslResult-cases (os.ssl_connect k).0) [
      | inl (u, e) ↦ rw (e, Returns) (inl (laws.connect_establishes k u e))
      | inr (z, e) ↦
          let k1 = (os.ssl_connect k).1 in
          rw (e, Returns)
            (elim (Option-cases (wanted z)) [
              | inl n ↦ rw (n, Returns) (inr (λ s. cc))
              | inr (op, n) ↦ rw (n, Returns) (elim (Option-cases (poll_ends (os.poll k1 op t).0)) [
                | inl p ↦
                    rw (p, Returns)
                      (handshake_loop-Established fuel (os.poll k1 op t).1 t
                        (ground (arith, h, laws.poll_waits k1 op t, laws.connect_asks k z e, n)))
                | inr (s, p) ↦
                    rw (p, Returns)
                      (inr (λ c. elim (poll_ends-connected (os.poll k1 op t).0 (p ∙ ap some c)) [ ]))
              ])
            ])
      ]

  set_up-Established :
      (fuel : ℕ) (k : K) (a : Bool) (t : ℕ)
      → rounds k < fuel
      → Returns (λ o. Established o.0 o.1) (set_up os fuel k a t)
  unfolding set_up
  set_up-Established fuel k a t h = elim (Bool-cases (os.ssl_set_fd k).0) [
      | inl e ↦
          let k1 = (os.ssl_set_fd k).1 in
          rw (e, Returns)
            (handshake_loop-Established fuel (os.ssl_set_state k1 a) t
              (omega (arith, h, laws.set_fd_keeps k, laws.set_state_keeps k1 a)))
      | inr e ↦ rw (e, Returns) (inr (λ s. cc))
      ]

  -- What `connect_new` returns, of `c`: the status says that the connection is established only if it is.
  abbrev Answers : ConnectionStatus × TlsClient × K → Type 0
  Answers (s, c, k) = Established s k

  handshake-Answers :
      (fuel : ℕ) (c : TlsClient) (k : K) (t : ℕ)
      → rounds k < fuel
      → Returns Answers (handshake os fuel c k t)
  unfolding handshake
  handshake-Answers fuel c k t h = elim (Bool-cases (os.ssl_new k).0) [
      | inl e ↦
          let k1 = (os.ssl_new k).1 in
          rw (e, Returns)
            (Returns-Option_map Answers _ (set_up os fuel k1 c.accepts t)
              (set_up-Established fuel k1 c.accepts t (omega (arith, h, laws.new_keeps k))))
      | inr e ↦ rw (e, Returns) (inr (λ s. cc))
      ]

  polled-Answers :
      (fuel : ℕ) (c : TlsClient) (p : PollStatus) (k : K) (t : ℕ)
      → rounds k < fuel
      → Returns Answers (polled os fuel c p k t)
  polled-Answers fuel c PollStatus.write k t h =
      let k1 = (os.socket_error k).1 in
      elim (Bool-cases (result_of (os.socket_error k).0 == 0)) [
        | inl e ↦
            rw (e, Returns) (handshake-Answers fuel c k1 t (omega (arith, h, laws.socket_error_keeps k)))
        | inr e ↦ rw (e, Returns) (inr (λ s. cc))
      ]
  polled-Answers fuel c PollStatus.timeout k t h = inr (λ s. cc)
  polled-Answers fuel c PollStatus.read k t h = inr (λ s. cc)
  polled-Answers fuel c PollStatus.error k t h = inr (λ s. cc)
  polled-Answers fuel c PollStatus.closed k t h = inr (λ s. cc)
  polled-Answers fuel c PollStatus.cancelled k t h = inr (λ s. cc)

  connecting-Answers :
      (fuel : ℕ) (c : TlsClient) (r : Connecting) (k : K) (t : ℕ)
      → rounds k < fuel
      → Returns Answers (connecting os fuel c r k t)
  connecting-Answers fuel c succeeds k t h = handshake-Answers fuel c k t h
  connecting-Answers fuel c (TcpConnect.fails code) k t h =
      let o = os.poll k PollOp.write t in
      elim (Bool-cases (code == os.eagain || code == os.einprogress)) [
        | inl e ↦
            rw (e, Returns)
              (polled-Answers fuel c o.0 o.1 t (omega (arith, h, laws.poll_waits k PollOp.write t)))
        | inr e ↦ rw (e, Returns) (inr (λ s. cc))
      ]

-- With the calls of OpenSSL behaving as they are documented to, the first `connect` of a client with a
-- context returns once it is given more fuel than SSL_connect asks to be called again. It returns
-- `connected` only if OpenSSL has established the connection, and every later `connect` returns the
-- same status and calls nothing.
pub connect_returns :
    {K A : Type 0} (os : Tls K A) (laws : Handshakes os) (fuel : ℕ) (c : TlsClient) (k : K) (t : ℕ)
    → c.connect_status ≡ none
    → c.has_context ≡ true
    → laws.rounds k < fuel
    → Returns
        (λ o. Established os laws o.0 o.2
          × ((fuel' : ℕ) (k' : K) (t' : ℕ) → connect os fuel' o.1 k' t' ≡ some (o.0, o.1, k')))
        (connect os fuel c k t)
unfolding connect
connect_returns os laws fuel c k t s x h =
    let (r, k1) = os.connect k in
    rw (s, x, Returns)
      (Returns-Option_map _ return_value (connect_new os fuel c k t)
        (Returns-map (Answers os laws) _ (connect_new os fuel c k t) (λ o e. (e, λ fuel' k' t'. refl))
          (connecting-Answers os laws fuel c r k1 t (omega (arith, h, laws.connect_keeps k)))))
