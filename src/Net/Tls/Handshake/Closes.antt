-- ===== src/Net/Tls/Handshake/Closes.antt =====
-- src/net/tls/client.cpp and include/coro/net/tls/client.hpp: `shutdown` returns, and shuts down once.
use libcoro.Base.{
  ℕ, zero, suc, ◌≤◌, ◌<◌, ◌≡◌, ◌⊎◌, refl, ap, inl, inr, ◌&&◌, not, Bool, true, false, Option, none, some, arith,
  Bool-cases,
}
use libcoro.Poll.{PollOp}
use libcoro.Net.Tls.{Tls, SslError, Shutdown, complete, in_progress, failed, wanted}
use libcoro.Net.Tls.Transfer.{Returns, Returns-map, Option-cases}
use libcoro.Net.Tls.Handshake.{TlsClient, goes_on, tls_shutdown_and_free, shutting_down, shutdown}
use libcoro.Net.Tls.Handshake.Establishes.{Returns-Option_map}

-- How often SSL_shutdown can still ask to be called again.
pub record Closes {K A : Type 0} (os : Tls K A) : Type 0 where
  pub rounds : K → ℕ
  pub shutdown_asks :
      (k : K) (e : SslError)
      → (os.ssl_shutdown k).0 ≡ in_progress e
      → (wanted e ≡ none) ⊎ (rounds (os.ssl_shutdown k).1 < rounds k)
  pub poll_waits : (k : K) (op : PollOp) (t : ℕ) → rounds (os.poll k op t).1 ≤ rounds k

Shutdown-cases :
    (r : Shutdown) → (r ≡ complete) ⊎ (((e : SslError) × (r ≡ in_progress e)) ⊎ (r ≡ failed))
Shutdown-cases complete = inl refl
Shutdown-cases (in_progress e) = inr (inl (e, refl))
Shutdown-cases failed = inr (inr refl)

module _ {K A : Type 0} (os : Tls K A) (laws : Closes os) where
  open laws use {rounds}

  tls_shutdown_and_free-returns :
      (fuel : ℕ) (k : K) (t : ℕ)
      → rounds k < fuel
      → Returns (λ o. Unit) (tls_shutdown_and_free os fuel k t)
  unfolding tls_shutdown_and_free
  tls_shutdown_and_free-returns zero k t h = omega (arith, h)
  tls_shutdown_and_free-returns (suc fuel) k t h = elim (Shutdown-cases (os.ssl_shutdown k).0) [
      | inl e ↦ rw (e, Returns) tt
      | inr (inr e) ↦ rw (e, Returns) tt
      | inr (inl (z, e)) ↦
          let k1 = (os.ssl_shutdown k).1 in
          rw (e, Returns)
            (elim (Option-cases (wanted z)) [
              | inl n ↦ rw (n, Returns) tt
              | inr (op, n) ↦ rw (n, Returns) (elim (Bool-cases (goes_on (os.poll k1 op t).0)) [
                | inl p ↦
                    rw (p, Returns)
                      (tls_shutdown_and_free-returns fuel (os.poll k1 op t).1 t
                        (ground (arith, h, laws.poll_waits k1 op t, laws.shutdown_asks k z e, n)))
                | inr p ↦ rw (p, Returns) tt
              ])
            ])
      ]

  abbrev Stays : TlsClient × K → Type 0
  Stays (c, k) = (fuel : ℕ) (k' : K) (t : ℕ) → shutdown os fuel c k' t ≡ some (c, k')

  shutting_down-Stays :
      (b : Bool) (fuel : ℕ) (c : TlsClient) (k : K) (t : ℕ)
      → c.is_shutdown ≡ b
      → rounds k < fuel
      → Returns Stays (shutting_down os b fuel c k t)
  unfolding shutdown
  shutting_down-Stays true fuel c k t e h =
      λ fuel' k' t'. ap (λ b. shutting_down os b fuel' c k' t') e
  shutting_down-Stays false fuel c k t e h = elim (Bool-cases (c.has_tls && not c.tls_error)) [
      | inl b ↦
          rw (b, Returns)
            (Returns-Option_map _ _ (tls_shutdown_and_free os fuel k t)
              (Returns-map (λ o. Unit) _ (tls_shutdown_and_free os fuel k t) (λ o u fuel' k' t'. refl)
                (tls_shutdown_and_free-returns fuel k t h)))
      | inr b ↦ rw (b, Returns) (λ fuel' k' t'. refl)
      ]

-- Any client's `shutdown` returns once it is given more fuel than SSL_shutdown asks to be called
-- again, and every later `shutdown` of the client calls nothing.
pub shutdown_returns :
    {K A : Type 0} (os : Tls K A) (laws : Closes os) (fuel : ℕ) (c : TlsClient) (k : K) (t : ℕ)
    → laws.rounds k < fuel
    → Returns (λ o. (fuel' : ℕ) (k' : K) (t' : ℕ) → shutdown os fuel' o.0 k' t' ≡ some (o.0, k'))
        (shutdown os fuel c k t)
unfolding shutdown
shutdown_returns os laws fuel c k t h = shutting_down-Stays os laws c.is_shutdown fuel c k t refl h
