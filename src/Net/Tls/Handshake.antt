-- ===== src/Net/Tls/Handshake.antt =====
-- src/net/tls/client.cpp and include/coro/net/tls/client.hpp: `client::connect` with its handshake, and
-- `client::shutdown`.
pub mod Establishes
pub mod Closes
use libcoro.Base.{
  ℕ, zero, suc, ◌==◌, ◌||◌, ◌&&◌, not, Bool, true, false, Option, none, some, if◌then◌else◌,
}
use mathlib.Core.Option
use libcoro.Poll.{PollOp, PollStatus}
use libcoro.Net.TcpConnect.{Connecting, succeeds, fails, result_of}
use libcoro.Net.Tls
use libcoro.Net.Tls.{Tls, Shutdown, complete, in_progress, failed, wanted}

-- `connection_status`
pub data ConnectionStatus : Type 0 where
  connected not_connected context_required resource_allocation_failed : ConnectionStatus
  set_fd_failure handshake_failed timeout poll_error unexpected_close : ConnectionStatus
  invalid_ip_address error : ConnectionStatus

-- A client with its `tls_info`: of the two pointers, whether they are not null.
pub record TlsClient : Type 0 where
  pub has_context : Bool
  pub connect_status : Option ConnectionStatus
  pub accepts : Bool
  pub has_tls : Bool
  pub tls_error : Bool
  pub is_shutdown : Bool

-- With what a poll ends the handshake.
abbrev pub poll_ends : PollStatus → Option ConnectionStatus
poll_ends PollStatus.timeout = some ConnectionStatus.timeout
poll_ends PollStatus.error = some ConnectionStatus.poll_error
poll_ends PollStatus.closed = some ConnectionStatus.unexpected_close
poll_ends PollStatus.cancelled = some ConnectionStatus.unexpected_close
poll_ends _ = none

-- Whether the loop goes on after a poll.
abbrev pub goes_on : PollStatus → Bool
goes_on PollStatus.read = true
goes_on PollStatus.write = true
goes_on _ = false

-- `return_value` in `client::connect`
abbrev pub return_value :
    {K : Type 0} → ConnectionStatus × TlsClient × K → ConnectionStatus × TlsClient × K
return_value (s, c, k) = (s, record c { connect_status = some s }, k)

module _ {K A : Type 0} (os : Tls K A) where
  -- The loop of `client::handshake`; `none` if the fuel runs out, here and below.
  unfoldable pub handshake_loop : ℕ → K → ℕ → Option (ConnectionStatus × K)
  handshake_loop zero k t = none
  handshake_loop (suc fuel) k t =
      let (r, k1) = os.ssl_connect k in
      elim r [
        | Tls.done u ↦ some (ConnectionStatus.connected, k1)
        | Tls.fails e ↦ elim (wanted e) [
          | none ↦ some (ConnectionStatus.handshake_failed, k1)
          | some op ↦
              let (p, k2) = os.poll k1 op t in
              elim (poll_ends p) [
                | none ↦ handshake_loop fuel k2 t
                | some s ↦ some (s, k2)
              ]
        ]
      ]

  -- `client::handshake` from `SSL_set_fd` on
  unfoldable pub set_up : ℕ → K → Bool → ℕ → Option (ConnectionStatus × K)
  unfolding handshake_loop
  set_up fuel k accepts t =
      let (r, k1) = os.ssl_set_fd k in
      elim r [
        | true ↦ handshake_loop fuel (os.ssl_set_state k1 accepts) t
        | false ↦ some (ConnectionStatus.set_fd_failure, k1)
      ]

  -- `client::handshake`
  unfoldable pub handshake : ℕ → TlsClient → K → ℕ → Option (ConnectionStatus × TlsClient × K)
  unfolding set_up
  handshake fuel c k t =
      let (r, k1) = os.ssl_new k in
      let c1 = record c { has_tls = r } in
      elim r [
        | true ↦ Option.map (λ o. (o.0, c1, o.1)) (set_up fuel k1 c.accepts t)
        | false ↦ some (ConnectionStatus.resource_allocation_failed, c1, k1)
      ]

  -- `client::connect` past its poll
  abbrev pub polled : ℕ → TlsClient → PollStatus → K → ℕ → Option (ConnectionStatus × TlsClient × K)
  polled fuel c PollStatus.write k t =
      let (r, k1) = os.socket_error k in
      elim (result_of r == 0) [
        | true ↦ handshake fuel c k1 t
        | false ↦ some (ConnectionStatus.error, c, k1)
      ]
  polled fuel c PollStatus.timeout k t = some (ConnectionStatus.timeout, c, k)
  polled fuel c _ k t = some (ConnectionStatus.error, c, k)

  abbrev pub connecting : ℕ → TlsClient → Connecting → K → ℕ → Option (ConnectionStatus × TlsClient × K)
  connecting fuel c succeeds k t = handshake fuel c k t
  connecting fuel c (fails code) k t =
      let (p, k1) = os.poll k PollOp.write t in
      elim (code == os.eagain || code == os.einprogress) [
        | true ↦ polled fuel c p k1 t
        | false ↦ some (ConnectionStatus.error, c, k)
      ]

  -- `client::connect` from `::connect` on
  abbrev pub connect_new : ℕ → TlsClient → K → ℕ → Option (ConnectionStatus × TlsClient × K)
  connect_new fuel c k t = let (r, k1) = os.connect k in connecting fuel c r k1 t

  -- `client::connect`
  unfoldable pub connect : ℕ → TlsClient → K → ℕ → Option (ConnectionStatus × TlsClient × K)
  unfolding handshake
  connect fuel c k t = elim c.connect_status [
      | some s ↦ some (s, c, k)
      | none ↦ elim c.has_context [
        | true ↦ Option.map return_value (connect_new fuel c k t)
        | false ↦ some (ConnectionStatus.context_required, c, k)
      ]
    ]

  -- `client::tls_shutdown_and_free`
  unfoldable pub tls_shutdown_and_free : ℕ → K → ℕ → Option K
  tls_shutdown_and_free zero k t = none
  tls_shutdown_and_free (suc fuel) k t =
      let (r, k1) = os.ssl_shutdown k in
      elim r [
        | complete ↦ some k1
        | in_progress e ↦ elim (wanted e) [
          | none ↦ some k1
          | some op ↦
              let (p, k2) = os.poll k1 op t in
              elim (goes_on p) [
                | true ↦ tls_shutdown_and_free fuel k2 t
                | false ↦ some k2
              ]
        ]
        | failed ↦ some k1
      ]

  -- `client::shutdown`, by what `m_shutdown` was before the exchange
  abbrev pub shutting_down : Bool → ℕ → TlsClient → K → ℕ → Option (TlsClient × K)
  shutting_down true fuel c k t = some (c, k)
  shutting_down false fuel c k t =
      let c1 = record c { is_shutdown = true } in
      elim (c.has_tls && not c.tls_error) [
        | true ↦ Option.map (λ k1. (c1, k1)) (tls_shutdown_and_free fuel k t)
        | false ↦ some (c1, k)
      ]

  unfoldable pub shutdown : ℕ → TlsClient → K → ℕ → Option (TlsClient × K)
  unfolding tls_shutdown_and_free
  shutdown fuel c k t = shutting_down c.is_shutdown fuel c k t
