-- ===== src/Net/Socket/Ownership.antt =====
-- src/net/socket.cpp: assignments that lose a descriptor.
use libcoro.Base.{ℕ, ◌≡◌, ◌≢◌, refl, none, some, true, false, arith, ◌==◌}
use libcoro.Net.Socket.{SocketKernel, Sockets, close, copy_assign, move_assign}

module _ {K : Type 0} (os : SocketKernel K) where
  -- Assigning a socket to itself by copy closes its descriptor and leaves the socket without one; and
  -- move assignment of one socket to another makes no call of the kernel, though nothing holds the
  -- descriptor that the assigned socket had.
  assignments_lose :
      (s : Sockets) (k : K) (x y fd gd : ℕ)
      → s x ≡ some fd
      → s y ≡ some gd
      → x ≢ y
      → ((copy_assign os s k x x).0 x ≡ none)
        × ((copy_assign os s k x x).1 ≡ os.close k fd)
        × ((move_assign os s k x y).1 ≡ k)
        × ((move_assign os s k x y).0 x ≡ some gd)
        × ((move_assign os s k x y).0 y ≡ none)
  unfolding copy_assign move_assign close
  assignments_lose s k x y fd gd hx hy ne =
      let same : (x == x) ≡ true = ground arith in
      let other : (x == y) ≡ false = ground (arith, ne) in
      (
        simp same refl,
        simp (same, hx) refl,
        simp other refl,
        ground (arith, other, hy),
        ground (arith, other, same),
      )
