-- ===== src/RingBuffer/Contents.antt =====
-- include/coro/ring_buffer.hpp: the representation invariant, and what the buffer holds.
use libcoro.Base.{
  ℕ, suc, ◌+◌, ◌-◌, ◌%◌, ◌≤◌, ◌<◌, ◌≡◌, sym, ap, ◌∙◌, Option, none, List, [], ◌∷◌, ◌++◌, arith,
  fetch_add, fetch_sub, length, length-set, length-replicate, size_mod,
}
use libcoro.RingBuffer.Slots.{slots, slots-set_next, slots-set_first, slots-suc}
use libcoro.RingBuffer.{RingBuffer, init, store, oldest, discard}

-- The counters `m_front` and `m_back` have not wrapped; the slots between them are in use.
pub record IsValid {A : Type 0} (rb : RingBuffer A) : Type 0 where
  pub positive : 0 < rb.num_elements
  pub small : rb.num_elements < size_mod
  pub array : length rb.elements ≡ rb.num_elements
  pub fits : rb.used ≤ rb.num_elements
  pub counters : rb.front ≡ rb.back + rb.used
  pub no_wrap : rb.front < size_mod

module _ {A : Type 0} where
  -- The elements of the buffer, oldest first.
  abbrev pub contents : RingBuffer A → List (Option A)
  contents rb = slots rb.elements rb.num_elements rb.back rb.used

  pub init-IsValid : (n : ℕ) → 0 < n → n < size_mod → IsValid (init {A = A} n)
  unfolding init
  init-IsValid n p q = omega (arith, length-replicate {0} {A = Option A} n none)

  module _ (rb : RingBuffer A) (v : IsValid rb) where
    pub store-IsValid :
        (e : Option A) → rb.used < rb.num_elements → rb.front + 1 < size_mod → IsValid (store rb e)
    unfolding store
    store-IsValid e h b =
        omega (arith, v, length-set {0} rb.elements (rb.front % rb.num_elements) e)

    pub contents-store :
        (e : Option A)
        → rb.used < rb.num_elements
        → rb.front + 1 < size_mod
        → contents (store rb e) ≡ contents rb ++ e ∷ []
    unfolding store
    contents-store e h b =
        let one_more : fetch_add rb.used 1 ≡ suc rb.used = omega (arith, v) in
        rw one_more (
          slots-set_next rb.elements rb.num_elements rb.back rb.used rb.front e v.array h
            v.counters)

    pub discard-IsValid : 0 < rb.used → IsValid (discard rb)
    unfolding discard
    discard-IsValid h =
        omega (arith, v, length-set {0} rb.elements (rb.back % rb.num_elements) none)

    pub contents-discard : 0 < rb.used → contents rb ≡ oldest rb ∷ contents (discard rb)
    unfolding discard oldest
    contents-discard h =
        let next : fetch_add rb.back 1 ≡ rb.back + 1 = omega (arith, v) in
        let one_less : fetch_sub rb.used 1 ≡ rb.used - 1 = omega (arith, v) in
        slots-suc rb.elements rb.num_elements rb.back rb.used h
        ∙ rw (next, one_less)
            (ap (◌∷◌ (oldest rb)) (
              sym (
                slots-set_first rb.elements rb.num_elements rb.back (rb.used - 1) none
                  (omega (arith, v)))))
