-- ===== src/Net/TcpClient/Wire.antt =====
-- include/coro/net/tcp/client.hpp: what the loops rely on of the calls that they make, and what one
-- turn of each does.
use libcoro.Base.{ℕ, ◌≤◌, ◌≡◌, Bool, false, List, [], ◌∷◌, ◌++◌, arith, ◌==◌, length, take}
use libcoro.Poll.{PollOp, is_read, is_write}
use libcoro.Net.IoStatus.{is_ok, Errno, make_io_status_from_native}
use libcoro.Net.TcpClient.{Received, received, recv_failed, Sent, sent, send_failed, Kernel}

abbrev pub given : {A : Type 0} → Received A → List A
given (received xs) = xs
given (recv_failed code) = []

abbrev pub taken : Sent → ℕ
taken (sent n) = n
taken (send_failed code) = 0

-- A failure has an `errno` other than 0, and a successful `::send` takes a byte at least.
abbrev pub recv_fails_ok : {A : Type 0} → Received A → Bool
recv_fails_ok (received xs) = false
recv_fails_ok (recv_failed code) = code == 0

abbrev pub takes_nothing : Sent → Bool
takes_nothing (sent n) = n == 0
takes_nothing (send_failed code) = code == 0

-- One end of a connection: `got` is what `::recv` has given so far, and `put` what `::send` has
-- taken; `far` is what this end's calls leave alone. A poll ends with the status of its operation,
-- or with that of a failure.
pub record Wire {K A : Type 0} (os : Kernel K A) : Type 0 where
  pub got : K → List A
  pub put : K → List A
  pub far : K → List A
  pub recv_got : (k : K) (n : ℕ) → got (os.recv k n).1 ≡ got k ++ given (os.recv k n).0
  pub recv_length : (k : K) (n : ℕ) → length (given (os.recv k n).0) ≤ n
  pub recv_put : (k : K) (n : ℕ) → put (os.recv k n).1 ≡ put k
  pub recv_far : (k : K) (n : ℕ) → far (os.recv k n).1 ≡ far k
  pub recv_errno : (k : K) (n : ℕ) → recv_fails_ok (os.recv k n).0 ≡ false
  pub send_put :
      (k : K) (xs : List A) → put (os.send k xs).1 ≡ put k ++ take (taken (os.send k xs).0) xs
  pub send_length : (k : K) (xs : List A) → taken (os.send k xs).0 ≤ length xs
  pub send_got : (k : K) (xs : List A) → got (os.send k xs).1 ≡ got k
  pub send_far : (k : K) (xs : List A) → far (os.send k xs).1 ≡ far k
  pub send_takes : (k : K) (x : A) (xs : List A) → takes_nothing (os.send k (x ∷ xs)).0 ≡ false
  pub poll_got : (k : K) (op : PollOp) (t : ℕ) → got (os.poll k op t).1 ≡ got k
  pub poll_put : (k : K) (op : PollOp) (t : ℕ) → put (os.poll k op t).1 ≡ put k
  pub poll_far : (k : K) (op : PollOp) (t : ℕ) → far (os.poll k op t).1 ≡ far k
  pub poll_read : (k : K) (t : ℕ) → is_write (os.poll k PollOp.read t).0 ≡ false
  pub poll_write : (k : K) (t : ℕ) → is_read (os.poll k PollOp.write t).0 ≡ false
  pub now_got : (k : K) → got (os.now k).1 ≡ got k
  pub now_put : (k : K) → put (os.now k).1 ≡ put k
  pub now_far : (k : K) → far (os.now k).1 ≡ far k

pub native_not_ok :
    (e : Errno) (code : ℕ) → (code == 0) ≡ false → is_ok (make_io_status_from_native e code) ≡ false
unfolding make_io_status_from_native
native_not_ok e code h = ground (arith, h)
