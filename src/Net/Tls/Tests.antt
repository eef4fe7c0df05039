-- ===== src/Net/Tls/Tests.antt =====
-- include/coro/net/tls/client.hpp and src/net/tls/client.cpp: runs over a small channel.
use libcoro.Base.{
  ℕ, zero, suc, ◌+◌, ◌≤◌, ◌<◌, ◌≡◌, ◌≢◌, ◌⊎◌, refl, sym, inl, inr, Bool, true, false, Option, none, some, List, [],
  ◌∷◌, ◌++◌, arith, length, take,
}
use libcoro.Poll.{PollOp, PollStatus}
use libcoro.Net.TcpConnect.{succeeds}
use libcoro.Net.Tls.{
  SslError, error_none, wanted, SslResult, done, fails, want_read, want_write, complete, Tls, ok, recv_verdict, send_verdict, recv, send, recv_span,
  send_span, deadline, transfer_loop, begin_turn, end_call,
}
use libcoro.Net.Tls.Transfer.{Behaves, Returns, recv_delivers, send_delivers}
use libcoro.Net.Tls.Spinning.{Clock, recv_spins}
use libcoro.Net.Tls.Handshake.{shutdown, TlsClient, ConnectionStatus, connect, handshake, set_up, handshake_loop}
use libcoro.Net.Tls.Handshake.Closes.{Closes, shutdown_returns}
use libcoro.Net.Tls.Handshake.Establishes.{Handshakes, Established, connect_returns}

-- The bytes that have been moved, how often the next call asks to be made again, and whether the
-- connection is established.
record Channel : Type 0 where
  bytes : List ℕ
  asks : ℕ
  up : Bool

abbrev answer : PollOp → PollStatus
answer PollOp.write = PollStatus.write
answer _ = PollStatus.read

abbrev reads : List ℕ → ℕ → Bool → SslResult (List ℕ) × Channel
reads m zero u = (done (7 ∷ []), record { bytes = m ++ 7 ∷ []; asks = 0; up = u })
reads m (suc r) u = (fails want_read, record { bytes = m; asks = r; up = u })

abbrev writes : List ℕ → ℕ → Bool → List ℕ → SslResult ℕ × Channel
writes m zero u xs = (done 1, record { bytes = m ++ take 1 xs; asks = 0; up = u })
writes m (suc r) u xs = (fails want_write, record { bytes = m; asks = r; up = u })

abbrev connects : List ℕ → ℕ → Bool → SslResult Unit × Channel
connects m zero u = (done tt, record { bytes = m; asks = 0; up = true })
connects m (suc r) u = (fails want_read, record { bytes = m; asks = r; up = u })

abbrev channel : Tls Channel ℕ
channel = record {
  ssl_read = λ k n. reads k.bytes k.asks k.up;
  ssl_write = λ k xs. writes k.bytes k.asks k.up xs;
  ssl_connect = λ k. connects k.bytes k.asks k.up;
  ssl_shutdown = λ k. (complete, k);
  ssl_new = λ k. (true, k);
  ssl_set_fd = λ k. (true, k);
  ssl_set_state = λ k b. k;
  poll = λ k op t. (answer op, k);
  connect = λ k. (succeeds, k);
  socket_error = λ k. (some 0, k);
  eagain = 11;
  einprogress = 115;
  now = λ k. (5, k);
}

abbrev fresh : Channel
fresh = record { bytes = 3 ∷ []; asks = 2; up = false }

of_done : {R : Type 0} {x y : R} → done x ≡ done y → x ≡ y
of_done e = cc

of_fails : (R : Type 0) (x y : SslError) → Path (SslResult R) (fails x) (fails y) → x ≡ y
of_fails R x y e = cc

reads_give :
    (m : List ℕ) (r : ℕ) (u : Bool) (x : List ℕ)
    → (reads m r u).0 ≡ done x
    → ((reads m r u).1.bytes ≡ m ++ x) × (length x ≤ 4)
reads_give m zero u x e = rw (sym (of_done e)) (refl, omega arith)
reads_give m (suc r) u x e = cc

reads_fail :
    (m : List ℕ) (r : ℕ) (u : Bool) (z : SslError)
    → (reads m r u).0 ≡ fails z
    → ((reads m r u).1.bytes ≡ m)
      × (z ≢ error_none)
      × ((wanted z ≡ none) ⊎ ((wanted z ≡ some PollOp.read) × ((reads m r u).1.asks < r)))
reads_fail m zero u z e = cc
reads_fail m (suc r) u z e = rw (sym (of_fails _ _ _ e)) (refl, (λ e. cc), inr (refl, omega arith))

writes_give :
    (m : List ℕ) (r : ℕ) (u : Bool) (xs : List ℕ) (x : ℕ)
    → (writes m r u xs).0 ≡ done x
    → ((writes m r u xs).1.bytes ≡ m ++ take x xs) × (x ≤ 1)
writes_give m zero u xs x e = rw (sym (of_done e)) (refl, omega arith)
writes_give m (suc r) u xs x e = cc

writes_fail :
    (m : List ℕ) (r : ℕ) (u : Bool) (xs : List ℕ) (z : SslError)
    → (writes m r u xs).0 ≡ fails z
    → ((writes m r u xs).1.bytes ≡ m)
      × (z ≢ error_none)
      × ((wanted z ≡ none) ⊎ ((wanted z ≡ some PollOp.write) × ((writes m r u xs).1.asks < r)))
writes_fail m zero u xs z e = cc
writes_fail m (suc r) u xs z e = rw (sym (of_fails _ _ _ e)) (refl, (λ e. cc), inr (refl, omega arith))

abbrev reads_behaves : Behaves channel recv_verdict PollOp.read (λ k. channel.ssl_read k 4) length 4 (λ xs. xs)
reads_behaves = record {
  moved = λ k. k.bytes;
  rounds = λ k. k.asks;
  poll_keeps = λ k t. (refl, omega arith);
  poll_answers = λ k t e. cc;
  now_keeps = λ k. (refl, omega arith);
  call_gives = λ k x e. reads_give k.bytes k.asks k.up x e;
  call_fails = λ k z e. reads_fail k.bytes k.asks k.up z e;
}

abbrev bytes_to_send : List ℕ
bytes_to_send = 8 ∷ 9 ∷ []

abbrev writes_behaves :
    Behaves channel send_verdict PollOp.write (λ k. channel.ssl_write k bytes_to_send) (λ m. m) 2
      (λ m. take m bytes_to_send)
writes_behaves = record {
  moved = λ k. k.bytes;
  rounds = λ k. k.asks;
  poll_keeps = λ k t. (refl, omega arith);
  poll_answers = λ k t e. cc;
  now_keeps = λ k. (refl, omega arith);
  call_gives = λ k x e.
    let g = writes_give k.bytes k.asks k.up bytes_to_send x e in (g.0, omega (arith, g.1));
  call_fails = λ k z e. writes_fail k.bytes k.asks k.up bytes_to_send z e;
}

recv_delivers_example :
    Returns
      (λ o.
        ((o.status ≡ ok)
          × (length (recv_span o.value) ≤ 4)
          × (o.kernel.bytes ≡ 3 ∷ recv_span o.value))
        ⊎ ((o.status ≢ ok) × (o.kernel.bytes ≡ 3 ∷ [])))
      (recv channel 3 fresh 4 (some 100))
recv_delivers_example = recv_delivers channel 3 reads_behaves 3 fresh (some 100) (omega arith)

send_delivers_example :
    Returns
      (λ o.
        ((o.status ≡ ok) × (o.kernel.bytes ++ send_span bytes_to_send o.value ≡ 3 ∷ bytes_to_send))
        ⊎ ((o.status ≢ ok) × (o.kernel.bytes ≡ 3 ∷ [])))
      (send channel 3 fresh bytes_to_send none)
send_delivers_example = send_delivers channel 8 (9 ∷ []) writes_behaves 3 fresh none (omega arith)

-- SSL_read_ex asks to write for ever.
abbrev stubborn : Tls Channel ℕ
stubborn = record channel { ssl_read = λ k n. (fails want_write, k) }

abbrev stubborn_clock : Clock stubborn
stubborn_clock = record {
  time = λ k. 5;
  now_reads = λ k. (refl, omega arith);
  poll_waits = λ k op t. omega arith;
}

in_time :
    let d1 = record (deadline (some 100)) { first = false; start = 5 } in
    let (d2, k4) = end_call stubborn d1 fresh in
    (begin_turn stubborn d2 k4).0 ≢ none
unfolding begin_turn end_call
in_time e = cc

recv_spins_example : recv stubborn 1000 fresh 4 (some 100) ≡ none
recv_spins_example =
    recv_spins stubborn stubborn_clock (λ k t. refl) 3 fresh (some 100) refl refl in_time 1000

connects_up :
    (m : List ℕ) (r : ℕ) (u : Bool) (x : Unit) → (connects m r u).0 ≡ done x → (connects m r u).1.up ≡ true
connects_up m zero u x e = refl
connects_up m (suc r) u x e = cc

connects_fail :
    (m : List ℕ) (r : ℕ) (u : Bool) (z : SslError)
    → (connects m r u).0 ≡ fails z
    → (wanted z ≡ none) ⊎ ((connects m r u).1.asks < r)
connects_fail m zero u z e = cc
connects_fail m (suc r) u z e = inr (omega arith)

abbrev channel_handshakes : Handshakes channel
channel_handshakes = record {
  established = λ k. k.up;
  rounds = λ k. k.asks;
  connect_establishes = λ k u e. connects_up k.bytes k.asks k.up u e;
  connect_asks = λ k z e. connects_fail k.bytes k.asks k.up z e;
  poll_waits = λ k op t. omega arith;
  new_keeps = λ k. omega arith;
  set_fd_keeps = λ k. omega arith;
  set_state_keeps = λ k b. omega arith;
  connect_keeps = λ k. omega arith;
  socket_error_keeps = λ k. omega arith;
}

abbrev client : TlsClient
client = record {
  has_context = true;
  connect_status = none;
  accepts = false;
  has_tls = false;
  tls_error = false;
  is_shutdown = false;
}

connects-client :
    connect channel 3 client fresh 100
      ≡ some
        (ConnectionStatus.connected,
          record client { connect_status = some ConnectionStatus.connected; has_tls = true },
          record fresh { asks = 0; up = true })
unfolding connect handshake set_up handshake_loop
connects-client = refl

connect_returns_example :
    Returns
      (λ o. ((o.2.up ≡ true) ⊎ (o.0 ≢ ConnectionStatus.connected))
        × ((fuel : ℕ) (k : Channel) (t : ℕ) → connect channel fuel o.1 k t ≡ some (o.0, o.1, k)))
      (connect channel 3 client fresh 100)
connect_returns_example =
    connect_returns channel channel_handshakes 3 client fresh 100 refl refl (omega arith)

abbrev channel_closes : Closes channel
channel_closes = record {
  rounds = λ k. 0;
  shutdown_asks = λ k e c. cc;
  poll_waits = λ k op t. omega arith;
}

shutdown_returns_example :
    Returns
      (λ o. (fuel : ℕ) (k : Channel) (t : ℕ) → shutdown channel fuel o.0 k t ≡ some (o.0, k))
      (shutdown channel 1 (record client { has_tls = true }) fresh 30_000)
shutdown_returns_example =
    shutdown_returns channel channel_closes 1 (record client { has_tls = true }) fresh 30_000 (omega arith)
