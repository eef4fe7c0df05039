-- ===== src/AwaiterList/Tests.antt =====
-- include/coro/detail/awaiter_list.hpp: runs at concrete inputs.
use libcoro.Base.{ℕ, zero, suc, ◌≡◌, refl, List, [], ◌∷◌, inl, inr, arith}
use libcoro.AwaiterList.{Heap, push, pop, pop_all, list_reverse}
use libcoro.AwaiterList.Stack.{Call, pushes, pops, pops_all, Refines, on_stack, run-Refines}
use libcoro.AwaiterList.Reverse.{Reversed, In, list_reverse-reverse}

abbrev empty : Heap
empty = record { head = 0; next = λ q. 0 }

-- 5, then 7, then 9 pushed
abbrev three : Heap
three = push (push (push empty 5) 7) 9

pop-three : (pop three).0 ≡ 9
unfolding push pop
pop-three = refl

pop_all-three : (pop_all three).1.head ≡ 0
unfolding push pop_all
pop_all-three = refl

abbrev chain : ℕ → ℕ
chain zero = 0
chain (suc zero) = 2
chain (suc (suc zero)) = 3
chain (suc (suc (suc p))) = 0

list_reverse-reverse_example :
    Reversed chain (1 ∷ 2 ∷ 3 ∷ []) (3 ∷ 2 ∷ 1 ∷ []) (list_reverse 4 chain 1)
list_reverse-reverse_example =
    list_reverse-reverse 4 chain 1 (1 ∷ 2 ∷ 3 ∷ []) (omega arith)
      (refl, (λ e. omega arith), (refl, (λ e. omega arith), (refl, (λ e. omega arith), refl)))
      (first, (second, (λ i. i, tt)))
  where
    first : ¬ In 1 (2 ∷ 3 ∷ [])
    first (inl e) = omega arith
    first (inr (inl e)) = omega arith
    first (inr (inr i)) = i

    second : ¬ In 2 (3 ∷ [])
    second (inl e) = omega arith
    second (inr i) = i

abbrev calls : List Call
calls = pushes 5 ∷ pushes 7 ∷ pops ∷ pushes 7 ∷ pops_all ∷ pushes 5 ∷ []

run-Refines_example : Refines empty [] calls
unfolding on_stack
run-Refines_example = run-Refines empty [] calls refl (
  (λ e. omega arith),
  (λ i. i),
  ((λ e. omega arith), other, ((λ e. omega arith), other, ((λ e. omega arith), (λ i. i), tt))),
)
  where
    other : ¬ In 7 (5 ∷ [])
    other (inl e) = omega arith
    other (inr i) = i
