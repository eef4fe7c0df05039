-- ===== src/Net/TcpClient/RoundTrip.antt =====
-- include/coro/net/tcp/client.hpp: what one end writes is what the other end reads.
use libcoro.Base.{
  ℕ, ◌<◌, ◌≡◌, refl, sym, ap, ◌∙◌, true, some, List, [], ◌∷◌, ◌++◌, arith, length, append-nil,
  append_assoc,
}
use mathlib.Core.Path.{subst}
use libcoro.Net.IoStatus.{is_ok, Errno}
use libcoro.Net.TcpClient.{Kernel, TcpClient, Outcome, read_exact, write_all}
use libcoro.Net.TcpClient.Wire.{Wire}
use libcoro.Net.TcpClient.Loops.{
  Returns, HasRead, HasWritten, read_exact-HasRead, write_all-HasWritten,
}

-- The connection from one end to the other: what the one has put and the other has not got is in
-- flight, and each end's calls leave the other end's account alone.
pub record Pipe {K A : Type 0} {a b : Kernel K A} (near : Wire a) (peer : Wire b) : Type 0 where
  pub in_flight : K → List A
  pub carries : (k : K) → near.put k ≡ peer.got k ++ in_flight k
  pub near_far : (k : K) → near.far k ≡ peer.got k
  pub peer_far : (k : K) → peer.far k ≡ near.put k

++-cancel : {A : Type 0} (xs ys zs : List A) → xs ++ ys ≡ xs ++ zs → ys ≡ zs
++-cancel [] ys zs e = e
++-cancel (x ∷ xs) ys zs e = ++-cancel xs ys zs (cc e)

++-split : {A : Type 0} (xs ys zs : List A) → xs ≡ ys ++ zs → length ys ≡ length xs → ys ≡ xs
++-split [] [] zs e h = refl
++-split [] (y ∷ ys) zs e h = absurd (omega (arith, h))
++-split (x ∷ xs) [] zs e h = absurd (omega (arith, h))
++-split (x ∷ xs) (y ∷ ys) zs e h = cc (e, ++-split xs ys zs (cc e) (omega (arith, h)))

-- With nothing in flight on a `Pipe`, if one end's `write_all` of `xs` and then the other end's
-- `read_exact` of as many bytes, both with fuel above that number, end with ok, what has been read is `xs`, whatever the sizes of the pieces and the
-- polls in between.
pub read_exact-write_all :
    {K A : Type 0} (e : Errno) (a b : Kernel K A) (near : Wire a) (peer : Wire b)
    → Pipe near peer
    → (fuel fuel' timeout timeout' : ℕ) (c c' : TcpClient) (k : K) (xs : List A) (o p : Outcome K A)
    → length xs < fuel
    → length xs < fuel'
    → near.put k ≡ peer.got k
    → write_all e a fuel timeout c k xs ≡ some o
    → is_ok o.status ≡ true
    → read_exact e b fuel' timeout' c' o.kernel (length xs) ≡ some p
    → is_ok p.status ≡ true
    → p.span ≡ xs
read_exact-write_all e a b near peer pipe fuel fuel' timeout timeout' c c' k xs o p h h' start wr
      wok rd rok =
    let w : HasWritten e a near k xs o =
      subst (Returns e a near (HasWritten e a near k xs)) wr
        (write_all-HasWritten e a near fuel timeout c k xs h) in
    let r : HasRead e b peer o.kernel (length xs) p =
      subst (Returns e b peer (HasRead e b peer o.kernel (length xs))) rd
        (read_exact-HasRead e b peer fuel' timeout' c' o.kernel (length xs) h') in
    let wrote : near.put o.kernel ≡ near.put k ++ xs =
      sym (append-nil (near.put o.kernel))
      ∙ ap (λ l. near.put o.kernel ++ l) (sym (w.all wok))
      ∙ w.puts in
    let same : peer.got o.kernel ≡ peer.got k =
      sym (pipe.near_far o.kernel) ∙ w.leaves ∙ pipe.near_far k in
    let kept : near.put p.kernel ≡ near.put o.kernel =
      sym (pipe.peer_far p.kernel) ∙ r.leaves ∙ pipe.peer_far o.kernel in
    let both : peer.got k ++ xs ≡ peer.got k ++ (p.span ++ pipe.in_flight p.kernel) =
      ap (λ l. l ++ xs) (sym start)
      ∙ sym wrote
      ∙ sym kept
      ∙ pipe.carries p.kernel
      ∙ ap (λ l. l ++ pipe.in_flight p.kernel) (r.gets ∙ ap (λ l. l ++ p.span) same)
      ∙ append_assoc (peer.got k) p.span (pipe.in_flight p.kernel) in
    ++-split xs p.span (pipe.in_flight p.kernel) (++-cancel (peer.got k) xs _ both) (r.full rok)
