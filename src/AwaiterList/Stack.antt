-- ===== src/AwaiterList/Stack.antt =====
-- include/coro/detail/awaiter_list.hpp: push, pop and pop_all on the heap implement a stack, a list of
-- the awaiters that are on it.
use libcoro.Base.{ℕ, ◌≡◌, ◌≢◌, refl, List, [], ◌∷◌, arith, ◌==◌, false}
use libcoro.AwaiterList.{Heap, push, pop, pop_all}
use libcoro.AwaiterList.Reverse.{Linked, In, Linked-push}

pub data Call : Type 0 where
  pushes : ℕ → Call
  pops pops_all : Call

-- The address that a call returns, 0 for push's none, and the heap afterwards.
unfoldable pub on_heap : Call → Heap → ℕ × Heap
unfolding push pop pop_all
on_heap (pushes t) h = (0, push h t)
on_heap pops h = pop h
on_heap pops_all h = pop_all h

-- The same calls of the stack: the awaiters that leave it, and the stack afterwards.
unfoldable pub on_stack : Call → List ℕ → List ℕ × List ℕ
on_stack (pushes t) xs = ([], t ∷ xs)
on_stack pops [] = ([], [])
on_stack pops (x ∷ xs) = (x ∷ [], xs)
on_stack pops_all xs = (xs, [])

-- Callers push awaiters that are not on the list.
abbrev pub Fresh : List Call → List ℕ → Type 0
Fresh [] xs = Unit
Fresh (pushes t ∷ cs) xs = (t ≢ 0) × (¬ In t xs) × Fresh cs (on_stack (pushes t) xs).1
Fresh (pops ∷ cs) xs = Fresh cs (on_stack pops xs).1
Fresh (pops_all ∷ cs) xs = Fresh cs (on_stack pops_all xs).1

abbrev pub first : List ℕ → ℕ
first [] = 0
first (x ∷ xs) = x

-- A call's answers agree: pop returns the awaiter that leaves the stack, or 0; the awaiters that
-- leave it at pop_all are linked from the address that it returns.
abbrev pub Agrees : Call → (ℕ × Heap) → List ℕ → Type 0
Agrees (pushes t) (p, h) xs = p ≡ 0
Agrees pops (p, h) xs = p ≡ first xs
Agrees pops_all (p, h) xs = Linked h.next p xs

-- Along the calls, every answer agrees, and the awaiters on the stack are linked from the head.
abbrev pub Refines : Heap → List ℕ → List Call → Type 0
Refines h xs [] = Linked h.next h.head xs
Refines h xs (c ∷ cs) =
    Linked h.next h.head xs
    × Agrees c (on_heap c h) (on_stack c xs).0
    × Refines (on_heap c h).1 (on_stack c xs).1 cs

pop-Linked :
    (h : Heap) (xs : List ℕ)
    → Linked h.next h.head xs
    → Agrees pops (pop h) (on_stack pops xs).0
      × Linked (pop h).1.next (pop h).1.head (on_stack pops xs).1
unfolding pop on_stack
pop-Linked h [] l = (ground (arith, l), ground (arith, l))
pop-Linked h (x ∷ xs) l =
    let not_null : (h.head == 0) ≡ false = ground (arith, l.0, l.1) in
    simp not_null (l.0, rw l.0 l.2)

-- From a heap on which the awaiters of a stack are linked, and for calls that push no awaiter while
-- it is on the list: the heap's calls answer as the stack's, and after each of them the awaiters on
-- the stack are linked, in its order, from the head.
pub run-Refines :
    (h : Heap) (xs : List ℕ) (cs : List Call)
    → Linked h.next h.head xs
    → Fresh cs xs
    → Refines h xs cs
unfolding on_heap on_stack
run-Refines h xs [] l v = l
run-Refines h xs (pushes t ∷ cs) l v =
    (l, refl, run-Refines (push h t) (t ∷ xs) cs (Linked-push h t xs v.0 v.1 l) v.2)
run-Refines h xs (pops ∷ cs) l v =
    let p = pop-Linked h xs l in (l, p.0, run-Refines (pop h).1 (on_stack pops xs).1 cs p.1 v)
run-Refines h xs (pops_all ∷ cs) l v = (l, l, run-Refines (pop_all h).1 [] cs refl v)
