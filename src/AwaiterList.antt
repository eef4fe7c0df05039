-- ===== src/AwaiterList.antt =====
-- include/coro/detail/awaiter_list.hpp: lists of awaiters linked by `m_next`, on an explicit heap.
-- The exchange loops of `awaiter_list_push` and `awaiter_list_pop` are modelled access by access in
-- Mutex, whose `m_state` has the same layout; here they are the one change that each makes when its
-- exchange succeeds.
use libcoro.Base.{ℕ, zero, suc, Bool, true, false, Option, none, some, ◌==◌, ◌||◌, if◌then◌else◌}
pub mod Reverse
pub mod Stack
pub mod Tests

-- Awaiters by address, 0 for `nullptr`; the head of the list, and each awaiter's `m_next`.
pub record Heap : Type 0 where
  pub head : ℕ
  pub next : ℕ → ℕ

abbrev pub write : (ℕ → ℕ) → ℕ → ℕ → ℕ → ℕ
write next p v q = if q == p then v else next q

-- `awaiter_list_push`
unfoldable pub push : Heap → ℕ → Heap
push h to_enqueue = record { head = to_enqueue; next = write h.next to_enqueue h.head }

-- `awaiter_list_pop`, 0 on an empty list
unfoldable pub pop : Heap → ℕ × Heap
pop h = if h.head == 0 then (0, h) else (h.head, record h { head = h.next h.head })

-- `awaiter_list_pop_all`
unfoldable pub pop_all : Heap → ℕ × Heap
pop_all h = (h.head, record h { head = 0 })

-- The loop of `awaiter_list_reverse` over `m_next`, `curr` and `prev`; `none` if the fuel runs out.
unfoldable pub reverse_loop : ℕ → (ℕ → ℕ) → ℕ → ℕ → Option ((ℕ → ℕ) × ℕ)
reverse_loop zero next curr prev = none
reverse_loop (suc fuel) next curr prev =
    let rest = reverse_loop fuel (write next curr prev) (next curr) curr in
    if curr == 0 then some (next, prev) else rest

-- `awaiter_list_reverse`: the heap afterwards, and the new head.
unfoldable pub list_reverse : ℕ → (ℕ → ℕ) → ℕ → Option ((ℕ → ℕ) × ℕ)
list_reverse fuel next curr =
    if curr == 0
    then some (next, curr)
    else if next curr == 0
    then some (next, curr)
    else reverse_loop fuel next curr 0
