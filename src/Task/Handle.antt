-- ===== src/Task/Handle.antt =====
-- include/coro/task.hpp: the calls of a task object, which owns a frame or none.
use libcoro.Base.{ℕ, ◌≡◌, refl, Bool, true, false, Option, none, some}
use libcoro.Task.{Point, done, destroyed, Machine, running, set_point}

abbrev is_done : {A E : Type 0} → Point A E → Bool
is_done done = true
is_done _ = false

module _ {A E : Type 0} (never_set : E) where
  -- `task::is_ready`
  unfoldable is_ready : Machine A E → Option ℕ → Bool
  is_ready m none = true
  is_ready m (some f) = is_done (m.frames f).point

  -- `task::resume` transfers to the frame unless it is at its end.
  unfoldable resume_task : Machine A E → ℕ → Machine A E
  resume_task m f = elim (is_done (m.frames f).point) [
    | true ↦ m
    | false ↦ record m { control = running f }
  ]

  -- `task::destroy`: its answer, the object and the frames afterwards
  unfoldable destroy : Machine A E → Option ℕ → Bool × Option ℕ × Machine A E
  destroy m none = (false, none, m)
  destroy m (some f) = (true, none, set_point never_set m f destroyed)

  -- `operator=(task&&)` from another object: the two objects and the frames afterwards
  unfoldable move_assign : Machine A E → Option ℕ → Option ℕ → Option ℕ × Option ℕ × Machine A E
  unfolding destroy
  move_assign m this other = (other, none, (destroy m this).2)

  -- A task that has been destroyed is ready, and destroying it again does nothing.
  destroy-destroy :
      (m : Machine A E) (t : Option ℕ)
      → let (_, t', m') = destroy m t in (is_ready m' t' ≡ true) × (destroy m' t' ≡ (false, t', m'))
  unfolding is_ready destroy
  destroy-destroy m none = (refl, refl)
  destroy-destroy m (some f) = (refl, refl)
