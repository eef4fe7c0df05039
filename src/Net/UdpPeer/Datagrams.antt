-- ===== src/Net/UdpPeer/Datagrams.antt =====
-- include/coro/net/udp/peer.hpp: which datagrams are sent and received.
use libcoro.Base.{
  ℕ, ◌≡◌, refl, sym, ap, ◌∙◌, inl, inr, Bool, true, false, Option, none, some, List, [], ◌∷◌, ◌++◌,
  arith, ◌==◌, if◌then◌else◌, Bool-cases, append-nil,
}
use libcoro.Poll.{PollOp, PollStatus, is_read, is_write}
use libcoro.Net.IoStatus.{
  Kind, IoStatus, io_status, is_ok, try_again, Errno, make_io_status_from_native,
  make_io_status_from_poll_status,
}
use libcoro.Net.UdpPeer.{
  Datagram, datagram, recvfrom_failed, UdpKernel, UdpPeer, WriteOutcome, ReadOutcome, sendto_status,
  sendto, write_polled, write_to, recvfrom_result, recvfrom, no_datagram, read_polled, read_some,
  read_from,
}

abbrev pub sends : {A : Type 0} → Option ℕ → A → List A
sends none x = x ∷ []
sends (some code) x = []

abbrev pub receives : {A Addr : Type 0} → Datagram A Addr → List (Addr × List A)
receives (datagram from xs) = (from, xs) ∷ []
receives (recvfrom_failed code) = []

-- An `errno` is not 0.
abbrev pub no_errno : Option ℕ → Bool
no_errno none = false
no_errno (some code) = code == 0

abbrev pub received_no_errno : {A Addr : Type 0} → Datagram A Addr → Bool
received_no_errno (datagram from xs) = false
received_no_errno (recvfrom_failed code) = code == 0

-- `sent` are the datagrams that `::sendto` has taken, `got` those that `::recvfrom` has given. A poll
-- ends with the status of its operation, or with that of a failure.
pub record Network {K A Addr : Type 0} (os : UdpKernel K A Addr) : Type 0 where
  pub sent : K → List (Addr × List A)
  pub got : K → List (Addr × List A)
  pub sendto_sent :
      (k : K) (to : Addr) (xs : List A)
      → sent (os.sendto k to xs).1 ≡ sent k ++ sends (os.sendto k to xs).0 (to, xs)
  pub sendto_errno : (k : K) (to : Addr) (xs : List A) → no_errno (os.sendto k to xs).0 ≡ false
  pub recvfrom_got :
      (k : K) (n : ℕ) → got (os.recvfrom k n).1 ≡ got k ++ receives (os.recvfrom k n).0
  pub recvfrom_errno : (k : K) (n : ℕ) → received_no_errno (os.recvfrom k n).0 ≡ false
  pub poll_sent : (k : K) (op : PollOp) (t : ℕ) → sent (os.poll k op t).1 ≡ sent k
  pub poll_got : (k : K) (op : PollOp) (t : ℕ) → got (os.poll k op t).1 ≡ got k
  pub poll_write : (k : K) (t : ℕ) → is_read (os.poll k PollOp.write t).0 ≡ false
  pub poll_read : (k : K) (t : ℕ) → is_write (os.poll k PollOp.read t).0 ≡ false

native_not_ok :
    (e : Errno) (code : ℕ) → (code == 0) ≡ false → is_ok (make_io_status_from_native e code) ≡ false
unfolding make_io_status_from_native
native_not_ok e code h = ground (arith, h)

poll_not_ok :
    (p : PollStatus)
    → is_read p ≡ false
    → is_write p ≡ false
    → is_ok (make_io_status_from_poll_status p) ≡ false
unfolding make_io_status_from_poll_status
poll_not_ok PollStatus.read h h' = h
poll_not_ok PollStatus.write h h' = h'
poll_not_ok PollStatus.timeout h h' = refl
poll_not_ok PollStatus.error h h' = refl
poll_not_ok PollStatus.closed h h' = refl
poll_not_ok PollStatus.cancelled h h' = refl

status-sends :
    {A : Type 0} (e : Errno) (r : Option ℕ) (x : A)
    → no_errno r ≡ false
    → sends r x ≡ (if is_ok (sendto_status e r) then x ∷ [] else [])
status-sends e none x h = refl
status-sends e (some code) x h = simp (native_not_ok e code h) refl

again-sends :
    {A : Type 0} (e : Errno) (r : Option ℕ) (x : A)
    → try_again (sendto_status e r) ≡ true
    → sends r x ≡ []
again-sends e none x h = absurd (cc h)
again-sends e (some code) x h = refl

abbrev pub sends_if : {A : Type 0} → IoStatus → A → List A
sends_if s x = if is_ok s then x ∷ [] else []

module _ {K A Addr : Type 0} (e : Errno) (os : UdpKernel K A Addr) (net : Network os) where
  -- From `k`, the datagram is sent once if the status is ok, and not at all otherwise.
  abbrev SentIfOk : K → Addr × List A → WriteOutcome K → Type 0
  SentIfOk k d o = net.sent o.kernel ≡ net.sent k ++ sends_if o.status d

  sendto-SentIfOk :
      (c : UdpPeer) (k : K) (to : Addr) (xs : List A) → SentIfOk k (to, xs) (sendto e os c k to xs)
  unfolding sendto
  sendto-SentIfOk c k to xs =
      net.sendto_sent k to xs
      ∙ ap (λ l. net.sent k ++ l)
          (status-sends e (os.sendto k to xs).0 (to, xs) (net.sendto_errno k to xs))

  write_polled-SentIfOk :
      (c : UdpPeer) (k : K) (to : Addr) (xs : List A) (timeout : ℕ)
      → SentIfOk k (to, xs) (write_polled e os c k to xs timeout)
  unfolding write_polled
  write_polled-SentIfOk c k to xs timeout =
      let (p, k') = os.poll k PollOp.write timeout in
      let kept = net.poll_sent k PollOp.write timeout in
      elim (Bool-cases (is_write p)) [
        | inl h ↦ simp h (
            sendto-SentIfOk (record c { is_write_ready = true }) k' to xs
            ∙ ap (λ l. l ++ sends_if (sendto e os c k' to xs).status (to, xs)) kept)
        | inr h ↦
            simp (h, poll_not_ok p (net.poll_write k timeout) h)
              (kept ∙ sym (append-nil (net.sent k)))
      ]

  write_to-SentIfOk :
      (c : UdpPeer) (k : K) (to : Addr) (x : A) (xs : List A) (timeout : ℕ)
      → SentIfOk k (to, x ∷ xs) (write_to e os c k to (x ∷ xs) timeout)
  unfolding write_to sendto
  write_to-SentIfOk c k to x xs timeout =
      let (r, k') = os.sendto k to (x ∷ xs) in
      elim (Bool-cases c.is_write_ready) [
        | inr h ↦ simp h (write_polled-SentIfOk c k to (x ∷ xs) timeout)
        | inl h ↦ elim (Bool-cases (try_again (sendto_status e r))) [
          | inr done ↦ simp (h, done) (sendto-SentIfOk c k to (x ∷ xs))
          | inl again ↦
              let kept : net.sent k' ≡ net.sent k =
                net.sendto_sent k to (x ∷ xs)
                ∙ ap (λ l. net.sent k ++ l) (again-sends e r (to, x ∷ xs) again)
                ∙ append-nil (net.sent k) in
              let o =
                write_polled e os (record c { is_write_ready = false }) k' to (x ∷ xs) timeout in
              simp (h, again)
                (write_polled-SentIfOk (record c { is_write_ready = false }) k' to (x ∷ xs) timeout
                  ∙ ap (λ l. l ++ sends_if o.status (to, x ∷ xs)) kept)
        ]
      ]

  -- From `k`, the datagram that is returned has been received if the status is ok, and none otherwise.
  abbrev ReceivedIfOk : K → ReadOutcome K A Addr → Type 0
  ReceivedIfOk k o = net.got o.kernel ≡ net.got k ++ sends_if o.status (o.address, o.span)

  result-receives :
      (r : Datagram A Addr)
      → received_no_errno r ≡ false
      → let (s, from, xs) = recvfrom_result e os r in receives r ≡ sends_if s (from, xs)
  result-receives (datagram from xs) h = refl
  result-receives (recvfrom_failed code) h = simp (native_not_ok e code h) refl

  again-receives :
      (r : Datagram A Addr) → try_again (recvfrom_result e os r).0 ≡ true → receives r ≡ []
  again-receives (datagram from xs) h = absurd (cc h)
  again-receives (recvfrom_failed code) h = refl

  recvfrom-ReceivedIfOk : (c : UdpPeer) (k : K) (n : ℕ) → ReceivedIfOk k (recvfrom e os c k n)
  unfolding recvfrom
  recvfrom-ReceivedIfOk c k n =
      net.recvfrom_got k n
      ∙ ap (λ l. net.got k ++ l) (result-receives (os.recvfrom k n).0 (net.recvfrom_errno k n))

  read_polled-ReceivedIfOk :
      (c : UdpPeer) (k : K) (n timeout : ℕ) → ReceivedIfOk k (read_polled e os c k n timeout)
  unfolding read_polled
  read_polled-ReceivedIfOk c k n timeout =
      let (p, k') = os.poll k PollOp.read timeout in
      let kept = net.poll_got k PollOp.read timeout in
      let o = recvfrom e os (record c { is_read_ready = true }) k' n in
      elim (Bool-cases (is_read p)) [
        | inl h ↦ simp h (
            recvfrom-ReceivedIfOk (record c { is_read_ready = true }) k' n
            ∙ ap (λ l. l ++ sends_if o.status (o.address, o.span)) kept)
        | inr h ↦
            simp (h, poll_not_ok p h (net.poll_read k timeout))
              (kept ∙ sym (append-nil (net.got k)))
      ]

  read_some-ReceivedIfOk :
      (c : UdpPeer) (k : K) (n timeout : ℕ) → ReceivedIfOk k (read_some e os c k n timeout)
  unfolding read_some recvfrom
  read_some-ReceivedIfOk c k n timeout =
      let (r, k') = os.recvfrom k n in
      let c' = record c { is_read_ready = false } in
      elim (Bool-cases c.is_read_ready) [
        | inr h ↦ simp h (read_polled-ReceivedIfOk c k n timeout)
        | inl h ↦ elim (Bool-cases (try_again (recvfrom_result e os r).0)) [
          | inr done ↦ simp (h, done) (recvfrom-ReceivedIfOk c k n)
          | inl again ↦
              let kept : net.got k' ≡ net.got k =
                net.recvfrom_got k n
                ∙ ap (λ l. net.got k ++ l) (again-receives r again)
                ∙ append-nil (net.got k) in
              let o = read_polled e os c' k' n timeout in
              simp (h, again)
                (read_polled-ReceivedIfOk c' k' n timeout
                  ∙ ap (λ l. l ++ sends_if o.status (o.address, o.span)) kept)
        ]
      ]

  guarded-ReceivedIfOk :
      (c : UdpPeer) (k : K) (bound none_asked : Bool) (o : ReadOutcome K A Addr)
      → none_asked ≡ false
      → ReceivedIfOk k o
      → ReceivedIfOk k (
          if bound
          then (if none_asked then no_datagram e os (io_status Kind.ok) c k else o)
          else no_datagram e os (io_status Kind.udp_not_bound) c k)
  guarded-ReceivedIfOk c k true true o h v = absurd (cc h)
  guarded-ReceivedIfOk c k true false o h v = v
  guarded-ReceivedIfOk c k false z o h v = sym (append-nil (net.got k))

  read_from-ReceivedIfOk :
      (c : UdpPeer) (k : K) (n timeout : ℕ)
      → (n == 0) ≡ false
      → ReceivedIfOk k (read_from e os c k n timeout)
  unfolding read_from
  read_from-ReceivedIfOk c k n timeout ne =
      guarded-ReceivedIfOk c k c.bound (n == 0) (read_some e os c k n timeout) ne
        (read_some-ReceivedIfOk c k n timeout)

  -- For calls of the kernel as `Network` says: `write_to` of a buffer that is not empty has sent the
  -- datagram exactly once if its status is ok, and not at all otherwise; and `read_from` into a
  -- buffer that is not empty has received exactly the datagram that it returns if its status is ok,
  -- and none otherwise. Sent and received datagrams before stay as they are.
  pub transfers_once :
      (c : UdpPeer) (k : K) (to : Addr) (x : A) (xs : List A) (n timeout : ℕ)
      → (n == 0) ≡ false
      → let o = write_to e os c k to (x ∷ xs) timeout in
        let p = read_from e os c k n timeout in
        (net.sent o.kernel ≡ net.sent k ++ sends_if o.status (to, x ∷ xs))
        × (net.got p.kernel ≡ net.got k ++ sends_if p.status (p.address, p.span))
  transfers_once c k to x xs n timeout ne =
      (write_to-SentIfOk c k to x xs timeout, read_from-ReceivedIfOk c k n timeout ne)
