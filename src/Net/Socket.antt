-- ===== src/Net/Socket.antt =====
-- include/coro/net/socket.hpp and src/net/socket.cpp: which descriptors the sockets of a program own.
-- The kernel's `dup`, `close` and `::shutdown` are parameters, and act on `K`.
pub mod Ownership
use libcoro.Base.{ℕ, ◌==◌, Bool, true, false, not, Option, none, some, if◌then◌else◌}
use libcoro.Poll.{PollOp}

pub record SocketKernel (K : Type 0) : Type 0 where
  -- none where `dup` returns -1
  pub dup : K → ℕ → Option ℕ × K
  pub close : K → ℕ → K

-- `socket` objects by address, each with its `m_fd`; none is -1.
abbrev pub Sockets : Type 0
Sockets = ℕ → Option ℕ

abbrev pub store : Sockets → ℕ → Option ℕ → Sockets
store s x fd = λ y. if y == x then fd else s y

module _ {K : Type 0} (os : SocketKernel K) where
  abbrev pub close_fd : K → Option ℕ → K
  close_fd k none = k
  close_fd k (some fd) = os.close k fd

  abbrev pub dup_fd : K → Option ℕ → Option ℕ × K
  dup_fd k none = (none, k)
  dup_fd k (some fd) = os.dup k fd

  -- `socket::close`, which the destructor calls
  unfoldable pub close : Sockets → K → ℕ → Sockets × K
  close s k x = (store s x none, close_fd k (s x))

  -- `socket(const socket&)` at `x`
  unfoldable pub copy : Sockets → K → ℕ → ℕ → Sockets × K
  copy s k x other = let (fd, k') = dup_fd k (s other) in (store s x fd, k')

  -- `socket(socket&&)` at `x`
  unfoldable pub move : Sockets → K → ℕ → ℕ → Sockets × K
  move s k x other = (store (store s x (s other)) other none, k)

  -- `operator=(const socket&)`
  unfoldable pub copy_assign : Sockets → K → ℕ → ℕ → Sockets × K
  unfolding close
  copy_assign s k x other =
      let (s', k') = close s k x in let (fd, k'') = dup_fd k' (s' other) in (store s' x fd, k'')

  -- `operator=(socket&&)`
  unfoldable pub move_assign : Sockets → K → ℕ → ℕ → Sockets × K
  move_assign s k x other =
      if x == other then (s, k) else (store (store s x (s other)) other none, k)
