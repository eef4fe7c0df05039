-- ===== src/Net/Tls.antt =====
-- include/coro/net/tls/client.hpp: `client::recv` and `client::send`. The calls of OpenSSL, of the kernel,
-- of the clock and of `scheduler::poll` are the fields of `Tls`; `K` is what they act on, and a timeout is not
-- negative.
pub mod Handshake
pub mod Transfer
pub mod Spinning
pub mod Tests
use libcoro.Base.{
  ℕ, zero, suc, ◌+◌, ◌-◌, ◌/◌, ◌==◌, leb, Bool, true, false, Option, none, some, List, [], ◌∷◌,
  if◌then◌else◌, length, drop,
}
use libcoro.Poll.{PollOp, PollStatus}
use libcoro.Net.TcpConnect.{Connecting}

-- What `SSL_get_error` returns.
pub data SslError : Type 0 where
  error_none error_ssl want_read want_write want_x509_lookup syscall zero_return : SslError
  want_connect want_accept : SslError
  other : ℕ → SslError

-- A call's result if it returns 1, and otherwise its error.
pub data SslResult (R : Type 0) : Type 0 where
  done : R → SslResult R
  fails : SslError → SslResult R

-- `SSL_shutdown`: 1, 0 with the error, or less.
pub data Shutdown : Type 0 where
  complete : Shutdown
  in_progress : SslError → Shutdown
  failed : Shutdown

-- Each call of OpenSSL with the `SSL_get_error` after it and the `ERR_clear_error` before it, of which
-- the handshake makes one in all.
pub record Tls (K A : Type 0) : Type 0 where
  pub ssl_read : K → ℕ → SslResult (List A) × K
  pub ssl_write : K → List A → SslResult ℕ × K
  pub ssl_connect : K → SslResult Unit × K
  pub ssl_shutdown : K → Shutdown × K
  -- `SSL_new` and `SSL_set_fd`: whether they succeed
  pub ssl_new : K → Bool × K
  pub ssl_set_fd : K → Bool × K
  -- `SSL_set_accept_state` where it is true, `SSL_set_connect_state` where it is false
  pub ssl_set_state : K → Bool → K
  pub poll : K → PollOp → ℕ → PollStatus × K
  pub connect : K → Connecting × K
  -- `getsockopt` of SO_ERROR; none if it fails
  pub socket_error : K → Option ℕ × K
  pub eagain : ℕ
  pub einprogress : ℕ
  -- `steady_clock::now()`, in nanoseconds
  pub now : K → ℕ × K

-- `recv_status` and `send_status`, whose other values are those of `SSL_get_error`.
pub data Status : Type 0 where
  buffer_is_empty timeout cancelled : Status
  of_ssl : SslError → Status

abbrev pub ok : Status
ok = of_ssl error_none

abbrev pub closed : Status
closed = of_ssl zero_return

abbrev pub error : Status
error = of_ssl error_ssl

-- The local variables `timeout`, `first`, `start` and `stop`.
pub record Deadline : Type 0 where
  pub timeout : Option ℕ
  pub first : Bool
  pub start : ℕ
  pub stop : ℕ

-- As they are before the loop.
abbrev pub deadline : Option ℕ → Deadline
deadline t = record { timeout = t; first = true; start = 0; stop = 0 }

-- `t -= duration`, where `stop - start` is rounded towards 0; 0 stands for all that is not positive.
abbrev pub elapse : ℕ → Deadline → ℕ
elapse t d =
    if leb d.start d.stop
    then t - (d.stop - d.start) / 1_000_000
    else t + (d.start - d.stop) / 1_000_000

-- What the loop does next after a poll.
pub data Verdict : Type 0 where
  proceeds again : Verdict
  stops : Status → Verdict

abbrev pub recv_verdict : PollStatus → Verdict
recv_verdict PollStatus.read = proceeds
recv_verdict PollStatus.write = again
recv_verdict PollStatus.timeout = stops timeout
recv_verdict PollStatus.error = stops error
recv_verdict PollStatus.closed = stops closed
recv_verdict PollStatus.cancelled = stops cancelled

abbrev pub send_verdict : PollStatus → Verdict
send_verdict PollStatus.write = proceeds
send_verdict PollStatus.read = again
send_verdict PollStatus.timeout = stops timeout
send_verdict PollStatus.error = stops error
send_verdict PollStatus.closed = stops closed
send_verdict PollStatus.cancelled = stops cancelled

-- What to poll for before the call is made again.
abbrev pub wanted : SslError → Option PollOp
wanted want_read = some PollOp.read
wanted want_write = some PollOp.write
wanted _ = none

-- `timeout.value_or(0)`
abbrev pub value_or_zero : Option ℕ → ℕ
value_or_zero none = 0
value_or_zero (some t) = t

-- A status with what the last call gave if it is `ok`.
pub record Outcome (K R : Type 0) : Type 0 where
  pub status : Status
  pub value : Option R
  pub kernel : K

module _ {K A : Type 0} (os : Tls K A) where
  -- The start of a turn of the loop; none once the time is up.
  unfoldable pub begin_turn : Deadline → K → Option Deadline × K
  begin_turn d k =
      let (x, k') = os.now k in
      elim d.timeout [
        | none ↦ (some d, k)
        | some t ↦
            if d.first
            then (some (record d { first = false; start = x }), k')
            else if elapse t d == 0
            then (none, k)
            else (some (record d { timeout = some (elapse t d); start = x }), k')
      ]

  -- `stop`, after the call
  unfoldable pub end_call : Deadline → K → Deadline × K
  end_call d k =
      let (x, k') = os.now k in
      elim d.timeout [
        | none ↦ (d, k)
        | some t ↦ (record d { stop = x }, k')
      ]

  -- The loop of `recv` and of `send`; `none` if the fuel runs out.
  module _ {R : Type 0} (verdict : PollStatus → Verdict) (call : K → SslResult R × K) where
    unfoldable pub transfer_loop : ℕ → PollOp → Deadline → K → Option (Outcome K R)
    unfolding begin_turn end_call
    transfer_loop zero op d k = none
    transfer_loop (suc fuel) op d k =
        let (turn, k1) = begin_turn d k in
        elim turn [
          | none ↦ some (record { status = timeout; value = none; kernel = k1 })
          | some d1 ↦
              let (p, k2) = os.poll k1 op (value_or_zero d1.timeout) in
              elim (verdict p) [
                | proceeds ↦
                    let (r, k3) = call k2 in
                    let (d2, k4) = end_call d1 k3 in
                    elim r [
                      | done x ↦ some (record { status = ok; value = some x; kernel = k4 })
                      | fails e ↦ elim (wanted e) [
                        | none ↦ some (record { status = of_ssl e; value = none; kernel = k4 })
                        | some op' ↦ transfer_loop fuel op' d2 k4
                      ]
                    ]
                | again ↦ transfer_loop fuel op d1 k2
                | stops s ↦ some (record { status = s; value = none; kernel = k2 })
              ]
        ]

  -- `client::recv` into a buffer of `n` elements
  unfoldable pub recv : ℕ → K → ℕ → Option ℕ → Option (Outcome K (List A))
  unfolding transfer_loop
  recv fuel k zero t = some (record { status = buffer_is_empty; value = none; kernel = k })
  recv fuel k (suc n) t =
      transfer_loop recv_verdict (λ k. os.ssl_read k (suc n)) fuel PollOp.read (deadline t) k

  -- `client::send` of a buffer that holds `xs`: the value is how much has been sent.
  unfoldable pub send : ℕ → K → List A → Option ℕ → Option (Outcome K ℕ)
  unfolding transfer_loop
  send fuel k [] t = some (record { status = buffer_is_empty; value = none; kernel = k })
  send fuel k (x ∷ xs) t =
      transfer_loop send_verdict (λ k. os.ssl_write k (x ∷ xs)) fuel PollOp.write (deadline t) k

-- The span that comes with a status.
abbrev pub recv_span : {A : Type 0} → Option (List A) → List A
recv_span none = []
recv_span (some xs) = xs

abbrev pub send_span : {A : Type 0} → List A → Option ℕ → List A
send_span xs none = []
send_span xs (some n) = drop n xs
