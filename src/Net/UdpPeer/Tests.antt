-- ===== src/Net/UdpPeer/Tests.antt =====
-- include/coro/net/udp/peer.hpp: runs at concrete inputs.
use libcoro.Base.{ℕ, ◌≡◌, refl, sym, true, false, none, List, [], ◌∷◌, ◌++◌, append-nil}
use libcoro.Poll.{PollOp, PollStatus}
use libcoro.Net.IoStatus.{Errno}
use libcoro.Net.UdpPeer.{
  Datagram, datagram, recvfrom_failed, UdpKernel, UdpPeer, write_to, recvfrom, read_some, read_from,
}
use libcoro.Net.UdpPeer.Datagrams.{sends_if, receives, received_no_errno, Network, transfers_once}

abbrev linux : Errno
linux = record { econnrefused = 111; econnreset = 104; eagain = 11; emsgsize = 90 }

-- A network that takes every datagram and gives those of a queue.
record Lan : Type 0 where
  pub sent : List (ℕ × List ℕ)
  pub queue : List (ℕ × List ℕ)
  pub got : List (ℕ × List ℕ)

abbrev take_datagram : Lan → List (ℕ × List ℕ) → Datagram ℕ ℕ × Lan
take_datagram k [] = (recvfrom_failed 11, k)
take_datagram k ((from, xs) ∷ ds) =
    (datagram from xs, record k { queue = ds; got = k.got ++ (from, xs) ∷ [] })

abbrev poll_lan : PollOp → PollStatus
poll_lan PollOp.write = PollStatus.write
poll_lan _ = PollStatus.read

abbrev kernel : UdpKernel Lan ℕ ℕ
kernel = record {
  sendto = λ k to xs. (none, record k { sent = k.sent ++ (to, xs) ∷ [] });
  recvfrom = λ k n. take_datagram k k.queue;
  poll = λ k op t. (poll_lan op, k);
  uninitialised = 0;
}

got-take_datagram :
    (k : Lan) (ds : List (ℕ × List ℕ))
    → (take_datagram k ds).1.got ≡ k.got ++ receives (take_datagram k ds).0
got-take_datagram k [] = sym (append-nil k.got)
got-take_datagram k (d ∷ ds) = refl

take_datagram-errno :
    (k : Lan) (ds : List (ℕ × List ℕ)) → received_no_errno (take_datagram k ds).0 ≡ false
take_datagram-errno k [] = refl
take_datagram-errno k (d ∷ ds) = refl

abbrev lan : Network kernel
lan = record {
  sent = λ k. k.sent;
  got = λ k. k.got;
  sendto_sent = λ k to xs. refl;
  sendto_errno = λ k to xs. refl;
  recvfrom_got = λ k n. got-take_datagram k k.queue;
  recvfrom_errno = λ k n. take_datagram-errno k k.queue;
  poll_sent = λ k op t. refl;
  poll_got = λ k op t. refl;
  poll_write = λ k t. refl;
  poll_read = λ k t. refl;
}

abbrev peer : UdpPeer
peer = record { bound = true; is_read_ready = true; is_write_ready = true }

abbrev waiting : Lan
waiting = record { sent = []; queue = (7, 1 ∷ 2 ∷ []) ∷ []; got = [] }

read_from-waiting : (read_from linux kernel peer waiting 8 0).span ≡ 1 ∷ 2 ∷ []
unfolding read_from read_some recvfrom
read_from-waiting = refl

transfers_once_example :
    let o = write_to linux kernel peer waiting 9 (5 ∷ []) 0 in
    let p = read_from linux kernel peer waiting 8 0 in
    (o.kernel.sent ≡ [] ++ sends_if o.status (9, 5 ∷ []))
    × (p.kernel.got ≡ [] ++ sends_if p.status (p.address, p.span))
transfers_once_example = transfers_once linux kernel lan peer waiting 9 5 [] 8 0 refl
