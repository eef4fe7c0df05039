-- ===== src/Net/UdpPeer.antt =====
-- include/coro/net/udp/peer.hpp: sending and receiving datagrams over a non-blocking socket. The calls
-- of the kernel and of `scheduler::poll` are fields of `UdpKernel`; `K` is what they act on, and `Addr`
-- is the type of the addresses.
pub mod Datagrams
pub mod Tests
use libcoro.Base.{ℕ, ◌==◌, Bool, true, false, Option, none, some, List, [], ◌∷◌, if◌then◌else◌}
use libcoro.Poll.{PollOp, PollStatus, is_read, is_write}
use libcoro.Net.IoStatus.{
  Kind, IoStatus, io_status, try_again, Errno, make_io_status_from_native,
  make_io_status_from_poll_status,
}

-- `::recvfrom`: a datagram with its sender, or `errno`.
pub data Datagram (A Addr : Type 0) : Type 0 where
  datagram : Addr → List A → Datagram A Addr
  recvfrom_failed : ℕ → Datagram A Addr

pub record UdpKernel (K A Addr : Type 0) : Type 0 where
  -- `::sendto`: none, or `errno`
  pub sendto : K → Addr → List A → Option ℕ × K
  pub recvfrom : K → ℕ → Datagram A Addr × K
  pub poll : K → PollOp → ℕ → PollStatus × K
  -- `socket_address::make_uninitialised`
  pub uninitialised : Addr

pub record UdpPeer : Type 0 where
  pub bound : Bool
  pub is_read_ready : Bool
  pub is_write_ready : Bool

-- The status of `write_to` and the states afterwards.
pub record WriteOutcome (K : Type 0) : Type 0 where
  pub status : IoStatus
  pub peer : UdpPeer
  pub kernel : K

-- What `read_from` returns, and the states afterwards.
pub record ReadOutcome (K A Addr : Type 0) : Type 0 where
  pub status : IoStatus
  pub address : Addr
  pub span : List A
  pub peer : UdpPeer
  pub kernel : K

abbrev pub sendto_status : Errno → Option ℕ → IoStatus
sendto_status e none = io_status Kind.ok
sendto_status e (some code) = make_io_status_from_native e code

module _ {K A Addr : Type 0} (e : Errno) (os : UdpKernel K A Addr) where
  -- `peer::sendto`
  unfoldable pub sendto : UdpPeer → K → Addr → List A → WriteOutcome K
  unfolding make_io_status_from_native
  sendto c k to xs =
      let (r, k') = os.sendto k to xs in
      record { status = sendto_status e r; peer = c; kernel = k' }

  -- `write_to_impl` from `poll` on
  unfoldable pub write_polled : UdpPeer → K → Addr → List A → ℕ → WriteOutcome K
  unfolding sendto make_io_status_from_poll_status
  write_polled c k to xs timeout =
      let (p, k') = os.poll k PollOp.write timeout in
      if is_write p
      then sendto (record c { is_write_ready = true }) k' to xs
      else record { status = make_io_status_from_poll_status p; peer = c; kernel = k' }

  -- `peer::write_to_impl`
  unfoldable pub write_to : UdpPeer → K → Addr → List A → ℕ → WriteOutcome K
  unfolding sendto write_polled
  write_to c k to [] timeout = record { status = io_status Kind.ok; peer = c; kernel = k }
  write_to c k to (x ∷ xs) timeout =
      let fast = sendto c k to (x ∷ xs) in
      if c.is_write_ready
      then (if try_again fast.status
          then write_polled (record c { is_write_ready = false }) fast.kernel to (x ∷ xs) timeout
          else fast)
      else write_polled c k to (x ∷ xs) timeout

  abbrev pub recvfrom_result : Datagram A Addr → IoStatus × Addr × List A
  recvfrom_result (datagram from xs) = (io_status Kind.ok, from, xs)
  recvfrom_result (recvfrom_failed code) = (make_io_status_from_native e code, os.uninitialised, [])

  -- `peer::recvfrom` into a span of `n` bytes
  unfoldable pub recvfrom : UdpPeer → K → ℕ → ReadOutcome K A Addr
  recvfrom c k n =
      let (r, k') = os.recvfrom k n in
      let (s, from, xs) = recvfrom_result r in
      record { status = s; address = from; span = xs; peer = c; kernel = k' }

  -- What `read_from_impl` returns without a datagram.
  abbrev pub no_datagram : IoStatus → UdpPeer → K → ReadOutcome K A Addr
  no_datagram s c k = record {
    status = s;
    address = os.uninitialised;
    span = [];
    peer = c;
    kernel = k;
  }

  -- `read_from_impl` from `poll` on
  unfoldable pub read_polled : UdpPeer → K → ℕ → ℕ → ReadOutcome K A Addr
  unfolding recvfrom make_io_status_from_poll_status
  read_polled c k n timeout =
      let (p, k') = os.poll k PollOp.read timeout in
      if is_read p
      then recvfrom (record c { is_read_ready = true }) k' n
      else no_datagram (make_io_status_from_poll_status p) c k'

  -- `read_from_impl` from its fast path on
  unfoldable pub read_some : UdpPeer → K → ℕ → ℕ → ReadOutcome K A Addr
  unfolding recvfrom read_polled
  read_some c k n timeout =
      let fast = recvfrom c k n in
      if c.is_read_ready
      then (if try_again fast.status
          then read_polled (record c { is_read_ready = false }) fast.kernel n timeout
          else fast)
      else read_polled c k n timeout

  -- `peer::read_from_impl` into a span of `n` bytes
  unfoldable pub read_from : UdpPeer → K → ℕ → ℕ → ReadOutcome K A Addr
  unfolding read_some
  read_from c k n timeout =
      if c.bound
      then (if n == 0 then no_datagram (io_status Kind.ok) c k else read_some c k n timeout)
      else no_datagram (io_status Kind.udp_not_bound) c k
