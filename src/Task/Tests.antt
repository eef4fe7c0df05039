-- ===== src/Task/Tests.antt =====
-- include/coro/task.hpp and include/coro/sync_wait.hpp: runs at concrete inputs.
use libcoro.Base.{ℕ, ◌≤◌, ◌≡◌, refl, ◌⊎◌, none, some, arith}
use libcoro.Task.{
  Result, returned, thrown, Body, co_return, throws, co_await_task, suspends, Machine, result,
  final_suspend, step, run, co_return_result, sync_wait_start, sync_wait,
}
use libcoro.Task.Frames.{eval, Finishes}
use libcoro.Task.Evaluation.{run-Finishes}
use libcoro.Task.SyncWait.{sync_wait-eval}

-- Exception 9 is that of a result that was never set. What is awaited first suspends and returns 3,
-- what is awaited then throws 7, which is caught.
abbrev caught : Result ℕ ℕ → Body ℕ ℕ
caught (returned a) = co_return a
caught (thrown e) = co_return e

abbrev body : Body ℕ ℕ
body = co_await_task (suspends (co_return 3)) λ r. co_await_task (throws 7) caught

sync_wait-body : sync_wait 9 20 body ≡ some (returned 7)
unfolding sync_wait run step result final_suspend
sync_wait-body = refl

sync_wait-early : sync_wait 9 5 body ≡ none
unfolding sync_wait run step result final_suspend
sync_wait-early = refl

run-Finishes_example :
    (m : Machine ℕ ℕ) × Finishes 9
      (sync_wait_start 9 body)
      0
      (co_await_task body co_return_result)
      m
run-Finishes_example =
    run-Finishes 9 (sync_wait_start 9 body) 0 (co_await_task body co_return_result) refl refl
      (omega arith)

sync_wait-eval_example :
    (n : ℕ) × ((fuel : ℕ) → n ≤ fuel → sync_wait 9 fuel body ≡ some (eval body))
    × ((fuel : ℕ) → (sync_wait 9 fuel body ≡ none) ⊎ (sync_wait 9 fuel body ≡ some (eval body)))
sync_wait-eval_example = sync_wait-eval 9 body
