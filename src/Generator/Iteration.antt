-- ===== src/Generator/Iteration.antt =====
-- include/coro/generator.hpp: a range-for loop sees what the body yields.
use libcoro.Base.{
  ℕ, zero, suc, ◌<◌, ◌≡◌, refl, ap, Option, none, some, List, [], ◌∷◌, false, arith, length,
}
use libcoro.Generator.{
  Body, co_yield, co_return, throws, Coroutine, make_generator, increment, begin, iterate,
  range_for, visit_first,
}

-- The values that a body yields, and how it ends.
abbrev pub yielded : {T E : Type 0} → Body T E → List T
yielded (co_yield v b) = v ∷ yielded b
yielded co_return = []
yielded (throws e) = []

abbrev pub ending : {T E : Type 0} → Body T E → Option E
ending (co_yield v b) = ending b
ending co_return = none
ending (throws e) = some e

module _ {T E : Type 0} where
  -- A coroutine that has not ended, before what is left of its body.
  abbrev at : Body T E → Option T → Coroutine T E
  at b v = record { body = b; done = false; value = v; exception = none }

  iterate-yielded :
      (fuel : ℕ) (b : Body T E) (v : T)
      → length (yielded b) < fuel
      → iterate (suc fuel) (at b (some v)) ≡ some (v ∷ yielded b, ending b)
  unfolding iterate increment
  iterate-yielded zero b v h = absurd (omega (arith, h))
  iterate-yielded (suc fuel) co_return v h = refl
  iterate-yielded (suc fuel) (throws e) v h = refl
  iterate-yielded (suc fuel) (co_yield w b) v h =
      ap (visit_first (some v)) (iterate-yielded fuel b w (omega (arith, h)))

  -- With fuel above the number of values by more than one, a range-for loop over a new generator ends,
  -- has seen the values that its body yields, in that order, and throws the exception that the body
  -- ends with, if any, after the last of them.
  pub range_for-yielded :
      (fuel : ℕ) (b : Body T E)
      → length (yielded b) < fuel
      → range_for (suc fuel) (some (make_generator b)) ≡ some (yielded b, ending b)
  unfolding range_for iterate begin increment
  range_for-yielded fuel co_return h = refl
  range_for-yielded fuel (throws e) h = refl
  range_for-yielded fuel (co_yield w b) h = iterate-yielded fuel b w (omega (arith, h))
