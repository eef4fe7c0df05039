-- ===== src/Generator.antt =====
-- include/coro/generator.hpp: a generator and the iterator of a range-for loop over it. A body is what
-- the compiler makes of the user's code: it yields a value of `T`, returns, or throws an exception
-- of `E`.
pub mod Iteration
pub mod Tests
use libcoro.Base.{ℕ, zero, suc, Bool, true, false, ◌||◌, not, Option, none, some, List, [], ◌∷◌}

pub data Body (T E : Type 0) : Type 0 where
  co_yield : T → Body T E → Body T E
  co_return : Body T E
  throws : E → Body T E

-- A coroutine, with the fields of its `generator_promise`; `none` is a null pointer.
pub record Coroutine (T E : Type 0) : Type 0 where
  pub body : Body T E
  pub done : Bool
  pub value : Option T
  pub exception : Option E

-- What a call returns, or throws.
pub data Result (A E : Type 0) : Type 0 where
  returned : A → Result A E
  thrown : E → Result A E

abbrev pub visit : {T : Type 0} → Option T → List T → List T
visit none vs = vs
visit (some v) vs = v ∷ vs

module _ {T E : Type 0} where
  -- `get_return_object`: the coroutine is suspended at its start.
  abbrev pub make_generator : Body T E → Coroutine T E
  make_generator b = record { body = b; done = false; value = none; exception = none }

  -- The coroutine runs to its next `co_yield` or to its end: `yield_value`, `return_void`,
  -- `unhandled_exception`.
  abbrev pub resume_body : Body T E → Coroutine T E → Coroutine T E
  resume_body (co_yield v b) c = record c { body = b; value = some v }
  resume_body co_return c = record c { done = true }
  resume_body (throws e) c = record c { done = true; exception = some e }

  -- `rethrow_if_exception`
  abbrev pub rethrow_if_exception : Option E → Coroutine T E → Result (Coroutine T E) E
  rethrow_if_exception none c = returned c
  rethrow_if_exception (some e) c = thrown e

  abbrev pub rethrow_if_done : Bool → Coroutine T E → Result (Coroutine T E) E
  rethrow_if_done true c = rethrow_if_exception c.exception c
  rethrow_if_done false c = returned c

  -- `generator_iterator::operator++`
  unfoldable pub increment : Coroutine T E → Result (Coroutine T E) E
  increment c = let c' = resume_body c.body c in rethrow_if_done c'.done c'

  -- `generator::begin`; a generator that was moved from has no coroutine.
  unfoldable pub begin : Option (Coroutine T E) → Result (Option (Coroutine T E)) E
  unfolding increment
  begin none = returned none
  begin (some c) = elim (increment c) [ returned c' ↦ returned (some c') | thrown e ↦ thrown e ]

  -- `operator==` with the sentinel
  abbrev pub is_end : Option (Coroutine T E) → Bool
  is_end none = true
  is_end (some c) = c.done

  -- `operator*`; `none` if nothing was yielded.
  abbrev pub dereference : Coroutine T E → Option T
  dereference c = c.value

  abbrev pub visit_first : Option T → Option (List T × Option E) → Option (List T × Option E)
  visit_first v none = none
  visit_first v (some (vs, e)) = some (visit v vs, e)

  -- A range-for loop from an iterator on: the values that its body sees, and the exception that it
  -- ends with. `none` if the fuel runs out.
  unfoldable pub iterate : ℕ → Coroutine T E → Option (List T × Option E)
  unfolding increment
  iterate zero c = none
  iterate (suc fuel) c = elim c.done [
    | true ↦ some ([], none)
    | false ↦ elim (increment c) [
      | returned c' ↦ visit_first (dereference c) (iterate fuel c')
      | thrown e ↦ some (visit (dereference c) [], some e)
    ]
  ]

  abbrev pub iterate_from : ℕ → Result (Option (Coroutine T E)) E → Option (List T × Option E)
  iterate_from fuel (returned none) = some ([], none)
  iterate_from fuel (returned (some c)) = iterate fuel c
  iterate_from fuel (thrown e) = some ([], some e)

  unfoldable pub range_for : ℕ → Option (Coroutine T E) → Option (List T × Option E)
  unfolding begin iterate
  range_for fuel g = iterate_from fuel (begin g)
