-- ===== src/Net/IpAddress.antt =====
-- include/coro/net/ip_address.hpp: the bytes of an address. Text is converted by inet_pton and inet_ntop,
-- which are not modelled.
use libcoro.Base.{
  ℕ, zero, suc, ◌-◌, ◌≤◌, ◌<◌, ◌≡◌, refl, ap, Bool, true, false, ◌&&◌, Option, none, some, List, [],
  ◌∷◌, ◌++◌, ltb, if◌then◌else◌, arith, length, take, replicate,
}

-- `domain_t`
pub data Domain : Type 0 where
  ipv4 ipv6 : Domain

abbrev pub is_ipv4 : Domain → Bool
is_ipv4 ipv4 = true
is_ipv4 ipv6 = false

-- `ipv4_len` and `ipv6_len`
abbrev pub domain_len : Domain → ℕ
domain_len ipv4 = 4
domain_len ipv6 = 16

pub record IpAddress : Type 0 where
  pub domain : Domain
  pub bytes : List ℕ

-- `std::copy` to the beginning of an array
abbrev pub overwrite : List ℕ → List ℕ → List ℕ
overwrite [] ys = ys
overwrite (x ∷ xs) [] = []
overwrite (x ∷ xs) (y ∷ ys) = x ∷ overwrite xs ys

-- The constructor from binary; none where it throws.
unfoldable pub make_ip_address : List ℕ → Domain → Option IpAddress
make_ip_address b d =
    if is_ipv4 d && ltb 4 (length b)
    then none
    else if ltb 16 (length b)
    then none
    else some (record { domain = d; bytes = overwrite b (replicate 16 0) })

-- `ip_address::data`
unfoldable pub ip_data : IpAddress → List ℕ
ip_data a = take (domain_len a.domain) a.bytes

take-zeros : (n k : ℕ) → n ≤ k → take n (replicate {A = ℕ} k 0) ≡ replicate n 0
take-zeros zero k h = refl
take-zeros (suc n) zero h = absurd (omega (arith, h))
take-zeros (suc n) (suc k) h = ap (λ l. 0 ∷ l) (take-zeros n k (omega (arith, h)))

take-overwrite :
    (n k : ℕ) (b : List ℕ)
    → n ≤ k
    → length b ≤ n
    → take n (overwrite b (replicate k 0)) ≡ b ++ replicate (n - length b) 0
take-overwrite n k [] h h' =
    let e : n - length {A = ℕ} [] ≡ n = omega arith in rw e (take-zeros n k h)
take-overwrite zero k (x ∷ b) h h' = absurd (omega (arith, h'))
take-overwrite (suc n) zero (x ∷ b) h h' = absurd (omega (arith, h))
take-overwrite (suc n) (suc k) (x ∷ b) h h' =
    let e : suc n - length (x ∷ b) ≡ n - length b = omega arith in
    rw e (ap (λ l. x ∷ l) (take-overwrite n k b (omega (arith, h)) (omega (arith, h'))))

-- An address that is made of no more bytes than its domain has gives back these bytes, with zeros up
-- to the domain's length.
ip_data-make_ip_address :
    (b : List ℕ) (d : Domain)
    → length b ≤ domain_len d
    → (a : IpAddress) × (make_ip_address b d ≡ some a)
      × (ip_data a ≡ b ++ replicate (domain_len d - length b) 0)
unfolding make_ip_address ip_data
ip_data-make_ip_address b ipv4 h =
    let e : ltb 4 (length b) ≡ false = ground (arith, h) in
    let e' : ltb 16 (length b) ≡ false = ground (arith, h) in
    (
      record { domain = ipv4; bytes = overwrite b (replicate 16 0) },
      simp (e, e') refl,
      take-overwrite 4 16 b (omega arith) h,
    )
ip_data-make_ip_address b ipv6 h =
    let e : ltb 16 (length b) ≡ false = ground (arith, h) in
    (
      record { domain = ipv6; bytes = overwrite b (replicate 16 0) },
      simp e refl,
      take-overwrite 16 16 b (omega arith) h,
    )

-- Of more bytes than its domain has no address is made.
make_ip_address-none :
    (b : List ℕ) (d : Domain) → domain_len d < length b → make_ip_address b d ≡ none
unfolding make_ip_address
make_ip_address-none b ipv4 h = let e : ltb 4 (length b) ≡ true = ground (arith, h) in simp e refl
make_ip_address-none b ipv6 h = let e : ltb 16 (length b) ≡ true = ground (arith, h) in simp e refl
