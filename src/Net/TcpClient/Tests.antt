-- ===== src/Net/TcpClient/Tests.antt =====
-- include/coro/net/tcp/client.hpp: runs over a small kernel.
use libcoro.Base.{
  ℕ, ap, ◌∙◌, ◌==◌, zero, suc, ◌+◌, ◌≤◌, ◌≡◌, refl, sym, true, false, some, List, [], ◌∷◌, ◌++◌,
  arith, length, take, drop, append-nil, append_assoc, take-append-drop,
}
use libcoro.Poll.{PollOp, PollStatus}
use libcoro.Net.IoStatus.{ok, Errno}
use libcoro.Net.TcpClient.{
  Received, received, recv_failed, sent, send_failed, Kernel, TcpClient, Outcome, read_exact,
  write_all, read_loop, write_loop, read_some_impl, write_some_impl, recv, send, remaining_timeout,
}
use libcoro.Net.TcpClient.Wire.{Wire, given, recv_fails_ok}
use libcoro.Net.TcpClient.Loops.{
  Returns, HasRead, HasWritten, read_exact-HasRead, write_all-HasWritten,
}
use libcoro.Net.TcpClient.RoundTrip.{Pipe, read_exact-write_all}

abbrev linux : Errno
linux = record { econnrefused = 111; econnreset = 104; eagain = 11; emsgsize = 90 }

record Link : Type 0 where
  flying : List ℕ
  got : List ℕ
  clock : ℕ

-- The kernel takes and gives at most two bytes at a time.
abbrev upto_two : List ℕ → ℕ
upto_two [] = 0
upto_two (x ∷ []) = 1
upto_two (x ∷ y ∷ xs) = 2

abbrev some_of : ℕ → List ℕ → List ℕ
some_of zero xs = []
some_of (suc zero) xs = take 1 xs
some_of (suc (suc n)) xs = take 2 xs

abbrev rest_of : ℕ → List ℕ → List ℕ
rest_of zero xs = xs
rest_of (suc zero) xs = drop 1 xs
rest_of (suc (suc n)) xs = drop 2 xs

abbrev status : PollOp → PollStatus
status PollOp.write = PollStatus.write
status op = PollStatus.read

abbrev put_more : Link → List ℕ → Link
put_more k xs = record k { flying = k.flying ++ xs }

abbrev writer : Kernel Link ℕ
writer = record {
  recv = λ k n. (recv_failed 11, k);
  send = λ k xs. (sent (upto_two xs), put_more k (take (upto_two xs) xs));
  poll = λ k op t. (status op, k);
  now = λ k. (k.clock, record k { clock = k.clock + 1 });
}

abbrev take_more : Link → ℕ → List ℕ → Received ℕ × Link
take_more k n [] = (recv_failed 11, k)
take_more k n (x ∷ xs) = (
  received (some_of n (x ∷ xs)),
  record k { got = k.got ++ some_of n (x ∷ xs); flying = rest_of n (x ∷ xs) },
)

abbrev reader : Kernel Link ℕ
reader = record {
  recv = λ k n. take_more k n k.flying;
  send = λ k xs. (send_failed 11, k);
  poll = λ k op t. (status op, k);
  now = λ k. (k.clock, record k { clock = k.clock + 1 });
}

abbrev client : TcpClient
client = record { is_read_ready = true; is_write_ready = true }

abbrev empty_link : Link
empty_link = record { flying = []; got = []; clock = 0 }

abbrev written : Link → List ℕ
written k = k.got ++ k.flying

some-rest : (n : ℕ) (xs : List ℕ) → some_of n xs ++ rest_of n xs ≡ xs
some-rest zero xs = refl
some-rest (suc zero) xs = take-append-drop 1 xs
some-rest (suc (suc n)) xs = take-append-drop 2 xs

length-take : (n : ℕ) (xs : List ℕ) → length (take n xs) ≤ n
length-take zero xs = omega arith
length-take (suc n) [] = omega arith
length-take (suc n) (x ∷ xs) = omega (arith, length-take n xs)

length-some_of : (n : ℕ) (xs : List ℕ) → length (some_of n xs) ≤ n
length-some_of zero xs = omega arith
length-some_of (suc zero) xs = length-take 1 xs
length-some_of (suc (suc n)) xs = omega (arith, length-take 2 xs)

upto_two-length : (xs : List ℕ) → upto_two xs ≤ length xs
upto_two-length [] = omega arith
upto_two-length (x ∷ []) = omega arith
upto_two-length (x ∷ y ∷ xs) = omega arith

upto_two-takes : (x : ℕ) (xs : List ℕ) → (upto_two (x ∷ xs) == 0) ≡ false
upto_two-takes x [] = refl
upto_two-takes x (y ∷ xs) = refl

abbrev near : Wire writer
near = record {
  got = λ k. [];
  put = written;
  far = λ k. k.got;
  recv_got = λ k n. refl;
  recv_length = λ k n. omega arith;
  recv_put = λ k n. refl;
  recv_far = λ k n. refl;
  recv_errno = λ k n. refl;
  send_put = λ k xs. sym (append_assoc k.got k.flying (take (upto_two xs) xs));
  send_length = λ k xs. upto_two-length xs;
  send_got = λ k xs. refl;
  send_far = λ k xs. refl;
  send_takes = λ k x xs. upto_two-takes x xs;
  poll_got = λ k op t. refl;
  poll_put = λ k op t. refl;
  poll_far = λ k op t. refl;
  poll_read = λ k t. refl;
  poll_write = λ k t. refl;
  now_got = λ k. refl;
  now_put = λ k. refl;
  now_far = λ k. refl;
}

take_more-got :
    (k : Link) (n : ℕ) (xs : List ℕ) → (let (r, k') = take_more k n xs in k'.got ≡ k.got ++ given r)
take_more-got k n [] = sym (append-nil k.got)
take_more-got k n (x ∷ xs) = refl

take_more-length : (k : Link) (n : ℕ) (xs : List ℕ) → length (given (take_more k n xs).0) ≤ n
take_more-length k n [] = omega arith
take_more-length k n (x ∷ xs) = length-some_of n (x ∷ xs)

take_more-written :
    (k : Link) (n : ℕ) (xs : List ℕ) → k.flying ≡ xs → written (take_more k n xs).1 ≡ written k
take_more-written k n [] e = refl
take_more-written k n (x ∷ xs) e =
    append_assoc k.got (some_of n (x ∷ xs)) (rest_of n (x ∷ xs))
    ∙ ap (λ l. k.got ++ l) (some-rest n (x ∷ xs) ∙ sym e)

take_more-errno : (k : Link) (n : ℕ) (xs : List ℕ) → recv_fails_ok (take_more k n xs).0 ≡ false
take_more-errno k n [] = refl
take_more-errno k n (x ∷ xs) = refl

abbrev peer : Wire reader
peer = record {
  got = λ k. k.got;
  put = λ k. [];
  far = written;
  recv_got = λ k n. take_more-got k n k.flying;
  recv_length = λ k n. take_more-length k n k.flying;
  recv_put = λ k n. refl;
  recv_far = λ k n. take_more-written k n k.flying refl;
  recv_errno = λ k n. take_more-errno k n k.flying;
  send_put = λ k xs. refl;
  send_length = λ k xs. omega arith;
  send_got = λ k xs. refl;
  send_far = λ k xs. refl;
  send_takes = λ k x xs. refl;
  poll_got = λ k op t. refl;
  poll_put = λ k op t. refl;
  poll_far = λ k op t. refl;
  poll_read = λ k t. refl;
  poll_write = λ k t. refl;
  now_got = λ k. refl;
  now_put = λ k. refl;
  now_far = λ k. refl;
}

abbrev pipe : Pipe near peer
pipe = record {
  in_flight = λ k. k.flying;
  carries = λ k. refl;
  near_far = λ k. refl;
  peer_far = λ k. refl;
}

abbrev message : List ℕ
message = 104 ∷ 101 ∷ 108 ∷ 108 ∷ 111 ∷ []

abbrev full_link : Link
full_link = record { flying = message; got = []; clock = 1 }

-- The first pieces are written and read on the fast path, two bytes at a time.
write_all-message :
    write_all linux writer 6 0 client empty_link message
    ≡ some (record {
      status = record { type = ok; native_code = 0 };
      span = [];
      client = client;
      kernel = full_link;
    })
unfolding write_all write_loop remaining_timeout write_some_impl send
write_all-message = refl

abbrev delivered : Outcome Link ℕ
delivered = record {
  status = record { type = ok; native_code = 0 };
  span = message;
  client = client;
  kernel = record { flying = []; got = message; clock = 2 };
}

read_exact-message : read_exact linux reader 6 0 client full_link 5 ≡ some delivered
unfolding read_exact read_loop remaining_timeout read_some_impl recv
read_exact-message = refl

write_all-HasWritten_example :
    Returns linux writer near
      (HasWritten linux writer near empty_link message)
      (write_all linux writer 6 0 client empty_link message)
write_all-HasWritten_example =
    write_all-HasWritten linux writer near 6 0 client empty_link message (omega arith)

read_exact-HasRead_example :
    Returns linux reader peer
      (HasRead linux reader peer full_link 9)
      (read_exact linux reader 10 50 client full_link 9)
read_exact-HasRead_example =
    read_exact-HasRead linux reader peer 10 50 client full_link 9 (omega arith)

read_exact-write_all_example : delivered.span ≡ message
read_exact-write_all_example =
    read_exact-write_all linux writer reader near peer pipe 6 6 0 0 client client empty_link message
      _ _ (omega arith) (omega arith) refl write_all-message refl read_exact-message refl
