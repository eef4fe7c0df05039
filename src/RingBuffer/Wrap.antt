-- ===== src/RingBuffer/Wrap.antt =====
-- include/coro/ring_buffer.hpp: the counter `m_front` at its last value, 2 ^ 64 - 1.
use native.Mathlib.Nat.{mod-eq_of_lt}
use libcoro.Base.{
  ℕ, zero, suc, ◌+◌, ◌-◌, ◌%◌, ◌≤◌, ◌≡◌, refl, ap, Option, List, [], ◌∷◌, arith, fetch_add, set,
  size_mod,
}
use libcoro.RingBuffer.Contents.{IsValid}
use libcoro.RingBuffer.{RingBuffer, store}

set-set {ℓ} : {A : Type ℓ} (xs : List A) (i : ℕ) (a b : A) → set (set xs i a) i b ≡ set xs i b
set-set [] i a b = refl
set-set (x ∷ xs) zero a b = refl
set-set (x ∷ xs) (suc i) a b = ap (◌∷◌ x) (set-set xs i a b)

-- For a capacity that divides 2 ^ 64 - 1, in a valid buffer with room for two more whose `m_front`
-- is 2 ^ 64 - 1: the next two elements go to the same slot. The array ends up as if the first had
-- never been stored, while `m_used` counts both.
pub store-store_wrapped :
    {A : Type 0} (rb : RingBuffer A) (a b : Option A)
    → IsValid rb
    → rb.front ≡ size_mod - 1
    → rb.front % rb.num_elements ≡ 0
    → rb.used + 2 ≤ rb.num_elements
    → let rb' = store (store rb a) b in
      (rb'.elements ≡ set rb.elements 0 b) × (rb'.used ≡ rb.used + 2) × (rb'.front ≡ 1)
unfolding store
store-store_wrapped rb a b v last hit room =
    let wraps : fetch_add rb.front 1 ≡ 0 = omega arith in
    let zero_slot : 0 % rb.num_elements ≡ 0 = mod-eq_of_lt (omega (arith, v)) in
    (rw (wraps, hit, zero_slot) (set-set rb.elements 0 a b), omega (arith, v), omega (arith, wraps))
