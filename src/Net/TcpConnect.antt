-- ===== src/Net/TcpConnect.antt =====
-- src/net/tcp/client.cpp and include/coro/net/tcp/server.hpp: `client::connect` and `server::accept`. The
-- calls of the kernel and of `scheduler::poll` are the fields of `ConnectKernel`; `K` is what they act
-- on.
pub mod Status
use libcoro.Base.{ℕ, ◌==◌, ◌||◌, Bool, true, false, Option, none, some, if◌then◌else◌}
use libcoro.Poll.{PollOp, PollStatus, is_read}
use libcoro.Net.IoStatus.{
  Kind, IoStatus, io_status, try_again, Errno, make_io_status_from_native,
  make_io_status_from_poll_status,
}

-- `connect_status`
pub data ConnectStatus : Type 0 where
  connected invalid_ip_address timeout error : ConnectStatus

-- `::connect` returns 0, or -1 with `errno`.
pub data Connecting : Type 0 where
  succeeds : Connecting
  fails : ℕ → Connecting

pub record ConnectKernel (K : Type 0) : Type 0 where
  pub connect : K → Connecting × K
  pub poll : K → PollOp → ℕ → PollStatus × K
  -- `getsockopt` of SO_ERROR; none if it fails
  pub socket_error : K → Option ℕ × K
  -- `::accept`: the new descriptor, or none and `errno`
  pub accept : K → Option ℕ × K
  pub errno : K → ℕ
  pub einprogress : ℕ

-- A client's `m_connect_status`.
pub record Client : Type 0 where
  pub connect_status : Option ConnectStatus

-- `result` as `connect` initialises it and `getsockopt` writes it
abbrev pub result_of : Option ℕ → ℕ
result_of none = 0
result_of (some code) = code

module _ {K : Type 0} (e : Errno) (os : ConnectKernel K) where
  -- `connect` past a poll
  abbrev pub polled : PollStatus → K → ConnectStatus × K
  polled PollStatus.write k =
      let (r, k') = os.socket_error k in
      (if result_of r == 0 then ConnectStatus.connected else ConnectStatus.error, k')
  polled PollStatus.timeout k = (ConnectStatus.timeout, k)
  polled _ k = (ConnectStatus.error, k)

  abbrev pub connecting : Connecting → K → ℕ → ConnectStatus × K
  connecting succeeds k t = (ConnectStatus.connected, k)
  connecting (fails code) k t =
      if code == e.eagain || code == os.einprogress
      then (let (p, k') = os.poll k PollOp.write t in polled p k')
      else (ConnectStatus.error, k)

  abbrev pub connect_new : K → ℕ → ConnectStatus × K
  connect_new k t = let (r, k') = os.connect k in connecting r k' t

  -- `client::connect`
  unfoldable pub connect : Client → K → ℕ → ConnectStatus × Client × K
  connect c k t = elim c.connect_status [
    | some s ↦ (s, c, k)
    | none ↦ let (s, k') = connect_new k t in (s, record { connect_status = some s }, k')
  ]

  -- A server's `m_is_read_ready`; a client is its socket's descriptor.
  pub data Accepted : Type 0 where
    accepted : ℕ → Accepted
    unexpected : IoStatus → Accepted

  abbrev pub accept_result : Option ℕ → ℕ → Accepted
  accept_result none code = unexpected (make_io_status_from_native e code)
  accept_result (some fd) code = accepted fd

  -- `server::accept_now`
  abbrev pub accept_now : K → Accepted × K
  accept_now k = let (r, k') = os.accept k in (accept_result r (os.errno k'), k')

  abbrev pub tries_again : Accepted → Bool
  tries_again (accepted fd) = false
  tries_again (unexpected s) = try_again s

  -- `server::accept` from `poll` on
  abbrev pub accept_polled : Bool → K → ℕ → Accepted × Bool × K
  accept_polled ready k t =
      let (p, k') = os.poll k PollOp.read t in
      let (a, k'') = accept_now k' in
      if is_read p
      then (a, true, k'')
      else (unexpected (make_io_status_from_poll_status p), ready, k')

  -- `server::accept`
  unfoldable pub accept : Bool → K → ℕ → Accepted × Bool × K
  accept ready k t =
      let (a, k') = accept_now k in
      if ready
      then (if tries_again a then accept_polled false k' t else (a, true, k'))
      else accept_polled false k t
