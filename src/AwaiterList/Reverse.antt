-- ===== src/AwaiterList/Reverse.antt =====
-- include/coro/detail/awaiter_list.hpp: the list functions against lists of addresses.
use mathlib.Core.List.{reverse-cons}
use libcoro.Base.{
  ℕ, zero, suc, ◌<◌, ◌≡◌, ◌≢◌, refl, sym, ◌∙◌, ◌⊎◌, inl, inr, false, Option, some, List, [], ◌∷◌,
  ◌++◌, reverse, append_assoc, append-nil, arith, ◌==◌, length,
}
use libcoro.AwaiterList.{Heap, write, push, reverse_loop, list_reverse}

-- The awaiters `xs` are linked from address `p` on.
abbrev pub Linked : (ℕ → ℕ) → ℕ → List ℕ → Type 0
Linked next p [] = p ≡ 0
Linked next p (x ∷ xs) = (p ≡ x) × (x ≢ 0) × Linked next (next x) xs

abbrev pub In : ℕ → List ℕ → Type 0
In x [] = ⊥
In x (y ∷ ys) = (x ≡ y) ⊎ In x ys

abbrev pub Distinct : List ℕ → Type 0
Distinct [] = Unit {0}
Distinct (x ∷ xs) = (¬ In x xs) × Distinct xs

abbrev pub Apart : List ℕ → List ℕ → Type 0
Apart [] ys = Unit {0}
Apart (x ∷ xs) ys = (¬ In x ys) × Apart xs ys

write-ne : (next : ℕ → ℕ) (p v q : ℕ) → q ≢ p → write next p v q ≡ next q
write-ne next p v q h = ground (arith, h)

write_self : (next : ℕ → ℕ) (p v : ℕ) → write next p v p ≡ v
write_self next p v = ground arith

-- A write to an awaiter that is not on the list.
Linked-write :
    (next : ℕ → ℕ) (t v p : ℕ) (xs : List ℕ)
    → ¬ In t xs
    → Linked next p xs
    → Linked (write next t v) p xs
Linked-write next t v p [] n l = l
Linked-write next t v p (x ∷ xs) n l = (
  l.0,
  l.1,
  rw (write-ne next t v x (λ e. n (inl (sym e))))
      (Linked-write next t v (next x) xs (λ i. n (inr i)) l.2),
)

-- Pushing an awaiter that is not on the list puts it in front.
pub Linked-push :
    (h : Heap) (t : ℕ) (xs : List ℕ)
    → t ≢ 0
    → ¬ In t xs
    → Linked h.next h.head xs
    → let h' = push h t in Linked h'.next h'.head (t ∷ xs)
unfolding push
Linked-push h t xs z n l =
    (refl, z, rw (write_self h.next t h.head) (Linked-write h.next t h.head h.head xs n l))

Apart-cons : (x : ℕ) (xs ys : List ℕ) → ¬ In x xs → Apart xs ys → Apart xs (x ∷ ys)
Apart-cons x [] ys n a = tt
Apart-cons x (y ∷ xs) ys n a = (not_in, Apart-cons x xs ys (λ i. n (inr i)) a.1)
  where
    not_in : ¬ In y (x ∷ ys)
    not_in (inl e) = n (inl (sym e))
    not_in (inr i) = a.0 i

-- What the loop leaves: the list is linked from the new head, and other awaiters are as before.
abbrev pub Reversed : (ℕ → ℕ) → List ℕ → List ℕ → Option ((ℕ → ℕ) × ℕ) → Type 0
Reversed next touched xs r =
    (next' : ℕ → ℕ) × (p : ℕ) × (r ≡ some (next', p))
    × Linked next' p xs
    × ((q : ℕ) → ¬ In q touched → next' q ≡ next q)

loop-Reversed :
    (fuel : ℕ) (next : ℕ → ℕ) (curr prev : ℕ) (xs ys : List ℕ)
    → length xs < fuel
    → Linked next curr xs
    → Linked next prev ys
    → Distinct xs
    → Apart xs ys
    → Reversed next xs (reverse xs ++ ys) (reverse_loop fuel next curr prev)
unfolding reverse_loop
loop-Reversed zero next curr prev xs ys h l k d a = elim h [ ]
loop-Reversed (suc fuel) next curr prev [] ys h l k d a = (next, prev, rw l refl, k, λ q n. refl)
loop-Reversed (suc fuel) next curr prev (x ∷ xs) ys h l k d a =
    let rest =
      loop-Reversed fuel (write next x prev) (next x) x xs (x ∷ ys) (omega arith)
        (Linked-write next x prev (next x) xs d.0 l.2)
        (refl, l.1, rw (write_self next x prev) (Linked-write next x prev prev ys a.0 k)) d.1
        (Apart-cons x xs ys d.0 a.1) in
    (
      rest.0,
      rest.1,
      step ∙ rest.2,
      rw spelled rest.3,
      λ q n. rest.4 q (λ i. n (inr i)) ∙ write-ne next x prev q (λ e. n (inl e)),
    )
  where
    not_null : (x == 0) ≡ false
    not_null = ground (arith, l.1)

    step : reverse_loop (suc fuel) next curr prev ≡ reverse_loop fuel (write next x prev) (next x) x
    step = rw (l.0, not_null)

    spelled : reverse (x ∷ xs) ++ ys ≡ reverse xs ++ (x ∷ ys)
    spelled = rw (reverse-cons x xs) (append_assoc (reverse xs) (x ∷ []) ys)

-- For a list of distinct awaiters and fuel above its length, `awaiter_list_reverse` ends: from the
-- head that it returns the same awaiters are linked in the opposite order, and it changes no other
-- awaiter's `m_next`.
pub list_reverse-reverse :
    (fuel : ℕ) (next : ℕ → ℕ) (curr : ℕ) (xs : List ℕ)
    → length xs < fuel
    → Linked next curr xs
    → Distinct xs
    → Reversed next xs (reverse xs) (list_reverse fuel next curr)
unfolding list_reverse
list_reverse-reverse fuel next curr [] h l d = (next, curr, rw l refl, l, λ q n. refl)
list_reverse-reverse fuel next curr (x ∷ []) h l d = (next, curr, single, l, λ q n. refl)
  where
    not_null : (x == 0) ≡ false
    not_null = ground (arith, l.1)

    single : list_reverse fuel next curr ≡ some (next, curr)
    single = rw (l.0, not_null, l.2)
list_reverse-reverse fuel next curr (x ∷ y ∷ xs) h l d =
    let r = loop-Reversed fuel next curr 0 (x ∷ y ∷ xs) [] h l refl d (apart_nil (x ∷ y ∷ xs)) in
    (r.0, r.1, several ∙ r.2, rw (← append-nil (reverse (x ∷ y ∷ xs))) r.3, r.4)
  where
    apart_nil : (xs : List ℕ) → Apart xs []
    apart_nil [] = tt
    apart_nil (x ∷ xs) = (λ i. i, apart_nil xs)

    not_null : (x == 0) ≡ false
    not_null = ground (arith, l.1)

    not_last : (y == 0) ≡ false
    not_last = ground (arith, l.2.1)

    several : list_reverse fuel next curr ≡ reverse_loop fuel next curr 0
    several = rw (l.0, not_null, l.2.0, not_last)
