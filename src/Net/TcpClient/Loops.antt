-- ===== src/Net/TcpClient/Loops.antt =====
-- include/coro/net/tcp/client.hpp: `read_exact` and `write_all` end, and neither loses nor repeats a
-- byte.
use libcoro.Base.{
  ◌⊎◌, ℕ, zero, suc, ◌-◌, ◌≤◌, ◌<◌, ◌≡◌, refl, sym, ap, ◌∙◌, inl, inr, true, Option, none, some,
  List, [], ◌∷◌, ◌++◌, arith, length, Bool-cases, append-nil, append_assoc, length-append,
}
use libcoro.Net.IoStatus.{is_ok, Errno}
use libcoro.Net.TcpClient.{
  Kernel, TcpClient, Outcome, remaining_timeout, read_some_impl, write_some_impl, read_loop,
  read_exact, write_loop, write_all,
}
use libcoro.Net.TcpClient.Wire.{Wire}
use libcoro.Net.TcpClient.Reads.{Reads, Reads-via, read_some-Reads}
use libcoro.Net.TcpClient.Writes.{Writes, Writes-via, write_some-Writes}

module _ {K A : Type 0} (e : Errno) (os : Kernel K A) (wire : Wire os) where
  open wire use {got, put, far, now_got, now_put, now_far}

  -- A call that returns, with an outcome that has the property.
  abbrev pub Returns : (Outcome K A → Type 0) → Option (Outcome K A) → Type 0
  Returns P none = ⊥
  Returns P (some o) = P o

  remaining_timeout_keeps :
      (start timeout : ℕ) (k : K)
      → let k' = (remaining_timeout e os start timeout k).1 in
        (got k' ≡ got k) × (put k' ≡ put k) × (far k' ≡ far k)
  unfolding remaining_timeout
  remaining_timeout_keeps start timeout k = ground (arith, now_got k, now_put k, now_far k)

  Option-cases : (t : Option ℕ) → (t ≡ none) ⊎ ((m : ℕ) × (t ≡ some m))
  Option-cases none = inl refl
  Option-cases (some m) = inr (m, refl)

  -- Begun in `k` with `n` bytes to read and `acc` read already.
  record LoopRead (k : K) (n : ℕ) (acc : List A) (o : Outcome K A) : Type 0 where
    rest : List A
    span : o.span ≡ acc ++ rest
    gets : got o.kernel ≡ got k ++ rest
    bound : length rest ≤ n
    keeps : put o.kernel ≡ put k
    leaves : far o.kernel ≡ far k
    full : is_ok o.status ≡ true → length rest ≡ n

  LoopRead-via :
      (k : K) (n : ℕ) (acc : List A) (o p : Outcome K A)
      → Reads e os wire k n o
      → LoopRead o.kernel (n - length o.span) (acc ++ o.span) p
      → LoopRead k n acc p
  LoopRead-via k n acc o p r l = record {
    rest = o.span ++ l.rest;
    span = l.span ∙ append_assoc acc o.span l.rest;
    gets = l.gets ∙ ap (λ x. x ++ l.rest) r.gets ∙ append_assoc (got k) o.span l.rest;
    bound = omega (arith, l.bound, r.bound, length-append o.span l.rest);
    keeps = l.keeps ∙ r.keeps;
    leaves = l.leaves ∙ r.leaves;
    full = λ h. omega (arith, l.full h, r.bound, length-append o.span l.rest);
  }

  Returns-map :
      {P Q : Outcome K A → Type 0} (r : Option (Outcome K A))
      → ((o : Outcome K A) → P o → Q o)
      → Returns P r
      → Returns Q r
  Returns-map none f h = h
  Returns-map (some o) f h = f o h

  read_loop-LoopRead :
      (fuel start timeout : ℕ) (c : TcpClient) (k : K) (n : ℕ) (acc : List A)
      → n < fuel
      → Returns (LoopRead k n acc) (read_loop e os fuel start timeout c k n acc)
  unfolding read_loop
  read_loop-LoopRead zero start timeout c k n acc h = absurd (omega (arith, h))
  read_loop-LoopRead (suc fuel) start timeout c k zero acc h = record {
    rest = [];
    span = sym (append-nil acc);
    gets = sym (append-nil (got k));
    bound = omega arith;
    keeps = refl;
    leaves = refl;
    full = λ o. refl;
  }
  read_loop-LoopRead (suc fuel) start timeout c k (suc m) acc h =
      let (g, p, f) = remaining_timeout_keeps start timeout k in
      let k' = (remaining_timeout e os start timeout k).1 in
      elim (Option-cases (remaining_timeout e os start timeout k).0) [
        | inl q ↦
            rw (q, Returns)
              (record {
                rest = [];
                span = sym (append-nil acc);
                gets = g ∙ sym (append-nil (got k));
                bound = omega arith;
                keeps = p;
                leaves = f;
                full = λ x. cc;
              })
        | inr (t, q) ↦
            let o = read_some_impl e os c k' (suc m) t in
            let r : Reads e os wire k (suc m) o =
              Reads-via e os wire k k' (suc m) o g p f (read_some-Reads e os wire c k' (suc m) t) in
            rw (q, Returns)
              (elim (Bool-cases (is_ok o.status)) [
                | inl good ↦
                    rw (good, Returns)
                      (Returns-map _ (λ o'. LoopRead-via k (suc m) acc o o' r)
                        (read_loop-LoopRead fuel start timeout o.client o.kernel
                          (suc m - length o.span) (acc ++ o.span)
                          (omega (arith, h, r.some_ok good))))
                | inr bad ↦
                    rw (bad, Returns)
                      (record {
                        rest = o.span;
                        span = refl;
                        gets = r.gets;
                        bound = r.bound;
                        keeps = r.keeps;
                        leaves = r.leaves;
                        full = λ x. absurd (cc (bad, x));
                      })
              ])
      ]

  -- Called in `k` to read `n` bytes.
  pub record HasRead (k : K) (n : ℕ) (o : Outcome K A) : Type 0 where
    pub gets : got o.kernel ≡ got k ++ o.span
    pub bound : length o.span ≤ n
    pub keeps : put o.kernel ≡ put k
    pub leaves : far o.kernel ≡ far k
    pub full : is_ok o.status ≡ true → length o.span ≡ n

  LoopRead-HasRead :
      (k k' : K) (n : ℕ) (o : Outcome K A)
      → got k' ≡ got k
      → put k' ≡ put k
      → far k' ≡ far k
      → LoopRead k' n [] o
      → HasRead k n o
  LoopRead-HasRead k k' n o g p f l = record {
    gets = l.gets ∙ ap (λ x. x ++ l.rest) g ∙ ap (λ x. got k ++ x) (sym l.span);
    bound = omega (arith, l.bound, ap length l.span);
    keeps = l.keeps ∙ p;
    leaves = l.leaves ∙ f;
    full = λ h. omega (arith, l.full h, ap length l.span);
  }

  -- For calls of the kernel as `Wire` says, and fuel above the size `n` of the buffer, `read_exact`
  -- returns, whatever results the calls have: what it has read is what `::recv` has given since it
  -- was called, in that order, and at most `n` bytes; and `n` bytes if the status is ok.
  pub read_exact-HasRead :
      (fuel timeout : ℕ) (c : TcpClient) (k : K) (n : ℕ)
      → n < fuel
      → Returns (HasRead k n) (read_exact e os fuel timeout c k n)
  unfolding read_exact
  read_exact-HasRead fuel timeout c k zero h = record {
    gets = sym (append-nil (got k));
    bound = omega arith;
    keeps = refl;
    leaves = refl;
    full = λ x. refl;
  }
  read_exact-HasRead fuel timeout c k (suc m) h =
      Returns-map _
        (λ o. LoopRead-HasRead k (os.now k).1 (suc m) o (now_got k) (now_put k) (now_far k))
        (read_loop-LoopRead fuel (os.now k).0 timeout c (os.now k).1 (suc m) [] h)

  -- Called in `k` to write `xs`.
  pub record HasWritten (k : K) (xs : List A) (o : Outcome K A) : Type 0 where
    pub puts : put o.kernel ++ o.span ≡ put k ++ xs
    pub keeps : got o.kernel ≡ got k
    pub leaves : far o.kernel ≡ far k
    pub all : is_ok o.status ≡ true → o.span ≡ []

  HasWritten-via :
      (k k' : K) (xs ys : List A) (o : Outcome K A)
      → put k' ++ ys ≡ put k ++ xs
      → got k' ≡ got k
      → far k' ≡ far k
      → HasWritten k' ys o
      → HasWritten k xs o
  HasWritten-via k k' xs ys o p g f l = record {
    puts = l.puts ∙ p;
    keeps = l.keeps ∙ g;
    leaves = l.leaves ∙ f;
    all = l.all;
  }

  write_loop-HasWritten :
      (fuel start timeout : ℕ) (c : TcpClient) (k : K) (xs : List A)
      → length xs < fuel
      → Returns (HasWritten k xs) (write_loop e os fuel start timeout c k xs)
  unfolding write_loop
  write_loop-HasWritten zero start timeout c k xs h = absurd (omega (arith, h))
  write_loop-HasWritten (suc fuel) start timeout c k [] h = record {
    puts = refl;
    keeps = refl;
    leaves = refl;
    all = λ x. refl;
  }
  write_loop-HasWritten (suc fuel) start timeout c k (x ∷ xs) h =
      let (g, p, f) = remaining_timeout_keeps start timeout k in
      let k' = (remaining_timeout e os start timeout k).1 in
      elim (Option-cases (remaining_timeout e os start timeout k).0) [
        | inl q ↦
            rw (q, Returns)
              (record { puts = ap (λ l. l ++ x ∷ xs) p; keeps = g; leaves = f; all = λ y. cc })
        | inr (t, q) ↦
            let o = write_some_impl e os c k' (x ∷ xs) t in
            let w : Writes e os wire k (x ∷ xs) o =
              Writes-via e os wire k k' (x ∷ xs) o p g f
                (write_some-Writes e os wire c k' x xs t) in
            rw (q, Returns)
              (elim (Bool-cases (is_ok o.status)) [
                | inl good ↦
                    rw (good, Returns)
                      (Returns-map _
                        (λ o'. HasWritten-via k o.kernel (x ∷ xs) o.span o' w.puts w.keeps w.leaves)
                        (write_loop-HasWritten fuel start timeout o.client o.kernel o.span
                          (omega (arith, h, w.some_ok good))))
                | inr bad ↦
                    rw (bad, Returns)
                      (record {
                        puts = w.puts;
                        keeps = w.keeps;
                        leaves = w.leaves;
                        all = λ y. absurd (cc (bad, y));
                      })
              ])
      ]

  -- For calls of the kernel as `Wire` says, and fuel above the size of the buffer, `write_all`
  -- returns, whatever results the calls have: what `::send` has taken since it was called, followed
  -- by the span that it returns, is the buffer; and that span is empty if the status is ok.
  pub write_all-HasWritten :
      (fuel timeout : ℕ) (c : TcpClient) (k : K) (xs : List A)
      → length xs < fuel
      → Returns (HasWritten k xs) (write_all e os fuel timeout c k xs)
  unfolding write_all
  write_all-HasWritten fuel timeout c k [] h = record {
    puts = refl;
    keeps = refl;
    leaves = refl;
    all = λ x. refl;
  }
  write_all-HasWritten fuel timeout c k (x ∷ xs) h =
      Returns-map _
        (λ o.
          HasWritten-via k (os.now k).1 (x ∷ xs) (x ∷ xs) o (ap (λ q. q ++ x ∷ xs) (now_put k))
            (now_got k) (now_far k))
        (write_loop-HasWritten fuel (os.now k).0 timeout c (os.now k).1 (x ∷ xs) h)
