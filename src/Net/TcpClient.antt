-- ===== src/Net/TcpClient.antt =====
-- include/coro/net/tcp/client.hpp: reading and writing over a non-blocking socket. The calls of the
-- kernel, of `scheduler::poll` and of the clock are fields of `Kernel`; `K` is what they act on.
pub mod Wire
pub mod Reads
pub mod Writes
pub mod Loops
pub mod RoundTrip
pub mod Tests
use libcoro.Base.{
  ℕ, zero, suc, ◌+◌, ◌-◌, ◌/◌, ◌==◌, ltb, leb, Bool, true, false, Option, none, some, List, [], ◌∷◌,
  ◌++◌, if◌then◌else◌, length, drop,
}
use libcoro.Poll.{PollOp, PollStatus, is_read, is_write}
use libcoro.Net.IoStatus.{
  Kind, IoStatus, io_status, is_ok, try_again, Errno, make_io_status_from_native,
  make_io_status_from_poll_status,
}

-- `::recv`: the bytes, none if the peer has closed the connection; or `errno`.
pub data Received (A : Type 0) : Type 0 where
  received : List A → Received A
  recv_failed : ℕ → Received A

-- `::send`: the number of bytes that the kernel takes; or `errno`.
pub data Sent : Type 0 where
  sent : ℕ → Sent
  send_failed : ℕ → Sent

pub record Kernel (K A : Type 0) : Type 0 where
  pub recv : K → ℕ → Received A × K
  pub send : K → List A → Sent × K
  pub poll : K → PollOp → ℕ → PollStatus × K
  -- `steady_clock::now()`, in nanoseconds
  pub now : K → ℕ × K

pub record TcpClient : Type 0 where
  pub is_read_ready : Bool
  pub is_write_ready : Bool

-- A status, the span that comes with it by its contents, and the states afterwards.
pub record Outcome (K A : Type 0) : Type 0 where
  pub status : IoStatus
  pub span : List A
  pub client : TcpClient
  pub kernel : K

module _ {K A : Type 0} (e : Errno) (os : Kernel K A) where
  abbrev pub recv_result : Received A → IoStatus × List A
  recv_result (received []) = (io_status Kind.closed, [])
  recv_result (received (x ∷ xs)) = (io_status Kind.ok, x ∷ xs)
  recv_result (recv_failed code) = (make_io_status_from_native e code, [])

  -- `client::recv` into a span of `n` bytes
  unfoldable pub recv : TcpClient → K → ℕ → Outcome K A
  recv c k n =
      let (r, k') = os.recv k n in
      let (s, xs) = recv_result r in record { status = s; span = xs; client = c; kernel = k' }

  abbrev pub send_result : Sent → List A → IoStatus × List A
  send_result (sent n) xs = (io_status Kind.ok, drop n xs)
  send_result (send_failed code) xs = (make_io_status_from_native e code, xs)

  -- `client::send`: the span is what has not been sent.
  unfoldable pub send : TcpClient → K → List A → Outcome K A
  send c k xs =
      let (r, k') = os.send k xs in
      let (s, unsent) = send_result r xs in
      record { status = s; span = unsent; client = c; kernel = k' }

  -- `read_some_impl` from `poll` on
  unfoldable pub read_polled : TcpClient → K → ℕ → ℕ → Outcome K A
  unfolding recv make_io_status_from_poll_status
  read_polled c k n timeout =
      let (p, k') = os.poll k PollOp.read timeout in
      if is_read p
      then recv (record c { is_read_ready = true }) k' n
      else record { status = make_io_status_from_poll_status p; span = []; client = c; kernel = k' }

  -- `client::read_some_impl`
  unfoldable pub read_some_impl : TcpClient → K → ℕ → ℕ → Outcome K A
  unfolding recv read_polled
  read_some_impl c k n timeout =
      let fast = recv c k n in
      if c.is_read_ready
      then (if try_again fast.status
          then read_polled (record c { is_read_ready = false }) fast.kernel n timeout
          else fast)
      else read_polled c k n timeout

  -- `write_some_impl` from `poll` on
  unfoldable pub write_polled : TcpClient → K → List A → ℕ → Outcome K A
  unfolding send make_io_status_from_poll_status
  write_polled c k xs timeout =
      let (p, k') = os.poll k PollOp.write timeout in
      if is_write p
      then send (record c { is_write_ready = true }) k' xs
      else record { status = make_io_status_from_poll_status p; span = xs; client = c; kernel = k' }

  -- `client::write_some_impl`
  unfoldable pub write_some_impl : TcpClient → K → List A → ℕ → Outcome K A
  unfolding send write_polled
  write_some_impl c k xs timeout =
      let fast = send c k xs in
      if c.is_write_ready
      then (if try_again fast.status
          then write_polled (record c { is_write_ready = false }) fast.kernel xs timeout
          else fast)
      else write_polled c k xs timeout

  -- The deadline in the loops of `read_exact_impl` and `write_all_impl`: `none` once the time is
  -- up, and the time that remains otherwise, with 0 for no limit.
  unfoldable pub remaining_timeout : ℕ → ℕ → K → Option ℕ × K
  remaining_timeout start timeout k =
      let (t, k') = os.now k in
      let elapsed = (t - start) / 1_000_000 in
      if ltb 0 timeout
      then (if leb timeout elapsed then (none, k') else (some (timeout - elapsed), k'))
      else (some 0, k)

  -- The loop of `read_exact_impl` with `n` bytes left of the buffer and `acc` in it; `none` if the
  -- fuel runs out.
  unfoldable pub read_loop : ℕ → ℕ → ℕ → TcpClient → K → ℕ → List A → Option (Outcome K A)
  unfolding remaining_timeout read_some_impl
  read_loop zero start timeout c k n acc = none
  read_loop (suc fuel) start timeout c k n acc =
      let (left, k') = remaining_timeout start timeout k in
      elim n [
        | zero ↦ some (record { status = io_status Kind.ok; span = acc; client = c; kernel = k })
        | suc m ↦ elim left [
          | none ↦
              some (record { status = io_status Kind.timeout; span = acc; client = c; kernel = k' })
          | some t ↦
              let o = read_some_impl c k' (suc m) t in
              elim (is_ok o.status) [
                | true ↦
                    read_loop fuel start timeout o.client o.kernel (suc m - length o.span)
                      (acc ++ o.span)
                | false ↦ some (record o { span = acc ++ o.span })
              ]
        ]
      ]

  -- `client::read_exact` into a buffer of `n` bytes
  unfoldable pub read_exact : ℕ → ℕ → TcpClient → K → ℕ → Option (Outcome K A)
  unfolding read_loop
  read_exact fuel timeout c k zero =
      some (record { status = io_status Kind.ok; span = []; client = c; kernel = k })
  read_exact fuel timeout c k (suc m) =
      let (start, k') = os.now k in read_loop fuel start timeout c k' (suc m) []

  -- The loop of `write_all_impl`
  unfoldable pub write_loop : ℕ → ℕ → ℕ → TcpClient → K → List A → Option (Outcome K A)
  unfolding remaining_timeout write_some_impl
  write_loop zero start timeout c k xs = none
  write_loop (suc fuel) start timeout c k [] =
      some (record { status = io_status Kind.ok; span = []; client = c; kernel = k })
  write_loop (suc fuel) start timeout c k (x ∷ xs) =
      let (left, k') = remaining_timeout start timeout k in
      elim left [
        | none ↦
            some
              (record { status = io_status Kind.timeout; span = x ∷ xs; client = c; kernel = k' })
        | some t ↦
            let o = write_some_impl c k' (x ∷ xs) t in
            elim (is_ok o.status) [
              | true ↦ write_loop fuel start timeout o.client o.kernel o.span
              | false ↦ some o
            ]
      ]

  -- `client::write_all`
  unfoldable pub write_all : ℕ → ℕ → TcpClient → K → List A → Option (Outcome K A)
  unfolding write_loop
  write_all fuel timeout c k [] =
      some (record { status = io_status Kind.ok; span = []; client = c; kernel = k })
  write_all fuel timeout c k (x ∷ xs) =
      let (start, k') = os.now k in write_loop fuel start timeout c k' (x ∷ xs)
