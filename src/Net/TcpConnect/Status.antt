-- ===== src/Net/TcpConnect/Status.antt =====
-- src/net/tcp/client.cpp: a client connects once.
use libcoro.Base.{ℕ, ◌≡◌, refl, Option, none, some}
use libcoro.Net.IoStatus.{Errno}
use libcoro.Net.TcpConnect.{ConnectStatus, ConnectKernel, Client, connect}

module _ {K : Type 0} (e : Errno) (os : ConnectKernel K) where
  connect-connect_status :
      (o : Option ConnectStatus) (k : K) (t : ℕ) (k' : K) (t' : ℕ)
      → let (s, c, _) = connect e os (record { connect_status = o }) k t in
        connect e os c k' t' ≡ (s, c, k')
  unfolding connect
  connect-connect_status none k t k' t' = refl
  connect-connect_status (some s) k t k' t' = refl

  -- After a `connect`, whatever its status, another one returns the same status again, changes nothing
  -- of the client and makes no call of the kernel.
  connect-connect :
      (c : Client) (k : K) (t : ℕ) (k' : K) (t' : ℕ)
      → let (s, c', _) = connect e os c k t in connect e os c' k' t' ≡ (s, c', k')
  connect-connect c k t k' t' = connect-connect_status c.connect_status k t k' t'
