-- ===== src/Net/TcpClient/Reads.antt =====
-- include/coro/net/tcp/client.hpp: one attempt to read.
use libcoro.Base.{
  ℕ, ◌≤◌, ◌<◌, ◌≡◌, refl, ap, ◌∙◌, inl, inr, true, false, [], ◌∷◌, ◌++◌, arith, length, Bool-cases,
  append-nil,
}
use libcoro.Poll.{PollOp, PollStatus, is_read, is_write}
use libcoro.Net.IoStatus.{is_ok, try_again, Errno, make_io_status_from_poll_status}
use libcoro.Net.TcpClient.{
  Received, received, recv_failed, Kernel, TcpClient, Outcome, recv, read_polled, read_some_impl,
}
use libcoro.Net.TcpClient.Wire.{Wire, given, native_not_ok}

module _ {K A : Type 0} (e : Errno) (os : Kernel K A) (wire : Wire os) where
  open wire use {
    got, put, far, recv_far, send_far, poll_far, recv_got, recv_length, recv_put, recv_errno,
    send_put, send_length, send_got, send_takes, poll_got, poll_put, poll_read, poll_write, now_got,
    now_put,
  }

  -- An attempt to read up to `n` bytes: they are those that the kernel has given, and there is one
  -- if the status is ok.
  pub record Reads (k : K) (n : ℕ) (o : Outcome K A) : Type 0 where
    pub gets : got o.kernel ≡ got k ++ o.span
    pub bound : length o.span ≤ n
    pub keeps : put o.kernel ≡ put k
    pub leaves : far o.kernel ≡ far k
    pub some_ok : is_ok o.status ≡ true → 0 < length o.span
    pub none_again : try_again o.status ≡ true → o.span ≡ []

  recv-Reads :
      (c : TcpClient) (k : K) (n : ℕ) (r : Received A)
      → (os.recv k n).0 ≡ r
      → Reads k n (recv e os c k n)
  unfolding recv
  recv-Reads c k n (received []) q =
      ground (arith, q, recv_got k n, recv_put k n, recv_far k n, append-nil (got k))
  recv-Reads c k n (received (x ∷ xs)) q =
      ground (
        arith,
        q,
        recv_got k n,
        recv_put k n,
        recv_far k n,
        ap length (ap given q),
        recv_length k n,
      )
  recv-Reads c k n (recv_failed code) q = ground (
    arith,
    q,
    recv_got k n,
    recv_put k n,
    recv_far k n,
    append-nil (got k),
    recv_errno k n,
    native_not_ok e code,
  )

  pub Reads-via :
      (k k' : K) (n : ℕ) (o : Outcome K A)
      → got k' ≡ got k
      → put k' ≡ put k
      → far k' ≡ far k
      → Reads k' n o
      → Reads k n o
  Reads-via k k' n o g p f r = record {
    gets = r.gets ∙ ap (λ l. l ++ o.span) g;
    bound = r.bound;
    keeps = r.keeps ∙ p;
    leaves = r.leaves ∙ f;
    some_ok = r.some_ok;
    none_again = r.none_again;
  }

  not_polled :
      (k : K) (n : ℕ) (c : TcpClient) (s : PollStatus)
      → is_read s ≡ false
      → is_write s ≡ false
      → Reads k n
          (record { status = make_io_status_from_poll_status s; span = []; client = c; kernel = k })
  unfolding make_io_status_from_poll_status
  not_polled k n c PollStatus.read h w = cc
  not_polled k n c PollStatus.write h w = cc
  not_polled k n c PollStatus.timeout h w = ground (arith, append-nil (got k))
  not_polled k n c PollStatus.error h w = ground (arith, append-nil (got k))
  not_polled k n c PollStatus.closed h w = ground (arith, append-nil (got k))
  not_polled k n c PollStatus.cancelled h w = ground (arith, append-nil (got k))

  read_polled-Reads : (c : TcpClient) (k : K) (n t : ℕ) → Reads k n (read_polled e os c k n t)
  unfolding read_polled
  read_polled-Reads c k n t =
      let k' = (os.poll k PollOp.read t).1 in
      elim (Bool-cases (is_read (os.poll k PollOp.read t).0)) [
        | inl h ↦ rw h (
            Reads-via k k' n _ (poll_got k PollOp.read t) (poll_put k PollOp.read t)
              (poll_far k PollOp.read t)
              (recv-Reads (record c { is_read_ready = true }) k' n (os.recv k' n).0 refl))
        | inr h ↦ rw h (
            Reads-via k k' n _ (poll_got k PollOp.read t) (poll_put k PollOp.read t)
              (poll_far k PollOp.read t)
              (not_polled k' n c (os.poll k PollOp.read t).0 h (poll_read k t)))
      ]

  pub read_some-Reads : (c : TcpClient) (k : K) (n t : ℕ) → Reads k n (read_some_impl e os c k n t)
  unfolding read_some_impl
  read_some-Reads c k n t =
      let fast = recv e os c k n in
      let r : Reads k n fast = recv-Reads c k n (os.recv k n).0 refl in
      elim (Bool-cases c.is_read_ready) [
        | inr h ↦ simp h (read_polled-Reads c k n t)
        | inl h ↦ elim (Bool-cases (try_again fast.status)) [
          | inr no_again ↦ simp (h, no_again) r
          | inl again ↦
              simp (h, again)
                (Reads-via k fast.kernel n _
                  (r.gets ∙ ap (λ l. got k ++ l) (r.none_again again) ∙ append-nil (got k)) r.keeps
                  r.leaves (read_polled-Reads (record c { is_read_ready = false }) fast.kernel n t))
        ]
      ]
