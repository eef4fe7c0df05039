-- ===== src/Generator/Tests.antt =====
-- include/coro/generator.hpp: runs at concrete inputs.
use libcoro.Base.{ℕ, ◌≡◌, refl, some, [], ◌∷◌, arith}
use libcoro.Generator.{Body, co_yield, throws, make_generator, increment, begin, iterate, range_for}
use libcoro.Generator.Iteration.{yielded, ending, range_for-yielded}

abbrev body : Body ℕ ℕ
body = co_yield 4 (co_yield 5 (throws 7))

range_for-body : range_for 4 (some (make_generator body)) ≡ some (4 ∷ 5 ∷ [], some 7)
unfolding range_for iterate begin increment
range_for-body = refl

range_for-yielded_example :
    range_for 4 (some (make_generator body)) ≡ some (yielded body, ending body)
range_for-yielded_example = range_for-yielded 3 body (omega arith)
