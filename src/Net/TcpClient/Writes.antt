-- ===== src/Net/TcpClient/Writes.antt =====
-- include/coro/net/tcp/client.hpp: one attempt to write.
use libcoro.Base.{
  ℕ, ◌≤◌, ◌<◌, ◌≡◌, refl, ap, ◌∙◌, inl, inr, true, false, List, ◌∷◌, ◌++◌, arith, length, take,
  drop, Bool-cases, append-nil, append_assoc, take-append-drop, length-drop,
}
use libcoro.Poll.{PollOp, PollStatus, is_read, is_write}
use libcoro.Net.IoStatus.{is_ok, try_again, Errno, make_io_status_from_poll_status}
use libcoro.Net.TcpClient.{
  Sent, sent, send_failed, Kernel, TcpClient, Outcome, send, write_polled, write_some_impl,
}
use libcoro.Net.TcpClient.Wire.{Wire, native_not_ok}

module _ {K A : Type 0} (e : Errno) (os : Kernel K A) (wire : Wire os) where
  open wire use {
    got, put, far, recv_far, send_far, poll_far, recv_got, recv_length, recv_put, recv_errno,
    send_put, send_length, send_got, send_takes, poll_got, poll_put, poll_read, poll_write, now_got,
    now_put,
  }

  -- An attempt to write `xs`: the bytes that it leaves out of the span are those that the kernel
  -- has taken, and there is one if the status is ok.
  pub record Writes (k : K) (xs : List A) (o : Outcome K A) : Type 0 where
    pub puts : put o.kernel ++ o.span ≡ put k ++ xs
    pub bound : length o.span ≤ length xs
    pub keeps : got o.kernel ≡ got k
    pub leaves : far o.kernel ≡ far k
    pub some_ok : is_ok o.status ≡ true → length o.span < length xs
    pub none_again : try_again o.status ≡ true → put o.kernel ≡ put k

  send-Writes :
      (c : TcpClient) (k : K) (x : A) (xs : List A) (r : Sent)
      → (os.send k (x ∷ xs)).0 ≡ r
      → Writes k (x ∷ xs) (send e os c k (x ∷ xs))
  unfolding send
  send-Writes c k x xs (sent n) q = ground (
    arith,
    q,
    send_put k (x ∷ xs),
    send_got k (x ∷ xs),
    send_far k (x ∷ xs),
    send_length k (x ∷ xs),
    send_takes k x xs,
    append_assoc (put k) (take n (x ∷ xs)) (drop n (x ∷ xs)),
    take-append-drop n (x ∷ xs),
    length-drop n (x ∷ xs),
  )
  send-Writes c k x xs (send_failed code) q = ground (
    arith,
    q,
    send_put k (x ∷ xs),
    send_got k (x ∷ xs),
    send_far k (x ∷ xs),
    send_takes k x xs,
    append-nil (put k),
    native_not_ok e code,
  )

  pub Writes-via :
      (k k' : K) (xs : List A) (o : Outcome K A)
      → put k' ≡ put k
      → got k' ≡ got k
      → far k' ≡ far k
      → Writes k' xs o
      → Writes k xs o
  Writes-via k k' xs o p g f w = record {
    puts = w.puts ∙ ap (λ l. l ++ xs) p;
    bound = w.bound;
    keeps = w.keeps ∙ g;
    leaves = w.leaves ∙ f;
    some_ok = w.some_ok;
    none_again = λ h. w.none_again h ∙ p;
  }

  not_polled :
      (k : K) (xs : List A) (c : TcpClient) (s : PollStatus)
      → is_write s ≡ false
      → is_read s ≡ false
      → Writes k xs
          (record { status = make_io_status_from_poll_status s; span = xs; client = c; kernel = k })
  unfolding make_io_status_from_poll_status
  not_polled k xs c PollStatus.read w h = cc
  not_polled k xs c PollStatus.write w h = cc
  not_polled k xs c PollStatus.timeout w h = ground arith
  not_polled k xs c PollStatus.error w h = ground arith
  not_polled k xs c PollStatus.closed w h = ground arith
  not_polled k xs c PollStatus.cancelled w h = ground arith

  write_polled-Writes :
      (c : TcpClient) (k : K) (x : A) (xs : List A) (t : ℕ)
      → Writes k (x ∷ xs) (write_polled e os c k (x ∷ xs) t)
  unfolding write_polled
  write_polled-Writes c k x xs t =
      let k' = (os.poll k PollOp.write t).1 in
      elim (Bool-cases (is_write (os.poll k PollOp.write t).0)) [
        | inl h ↦ rw h (
            Writes-via k k' (x ∷ xs) _ (poll_put k PollOp.write t) (poll_got k PollOp.write t)
              (poll_far k PollOp.write t)
              (send-Writes (record c { is_write_ready = true }) k' x xs (os.send k' (x ∷ xs)).0
                refl))
        | inr h ↦ rw h (
            Writes-via k k' (x ∷ xs) _ (poll_put k PollOp.write t) (poll_got k PollOp.write t)
              (poll_far k PollOp.write t)
              (not_polled k' (x ∷ xs) c (os.poll k PollOp.write t).0 h (poll_write k t)))
      ]

  pub write_some-Writes :
      (c : TcpClient) (k : K) (x : A) (xs : List A) (t : ℕ)
      → Writes k (x ∷ xs) (write_some_impl e os c k (x ∷ xs) t)
  unfolding write_some_impl
  write_some-Writes c k x xs t =
      let fast = send e os c k (x ∷ xs) in
      let w : Writes k (x ∷ xs) fast = send-Writes c k x xs (os.send k (x ∷ xs)).0 refl in
      elim (Bool-cases c.is_write_ready) [
        | inr h ↦ simp h (write_polled-Writes c k x xs t)
        | inl h ↦ elim (Bool-cases (try_again fast.status)) [
          | inr no_again ↦ simp (h, no_again) w
          | inl again ↦
              simp (h, again)
                (Writes-via k fast.kernel (x ∷ xs) _ (w.none_again again) w.keeps w.leaves
                  (write_polled-Writes (record c { is_write_ready = false }) fast.kernel x xs t))
        ]
      ]
