-- ===== src/Mutex.antt =====
-- include/coro/mutex.hpp and src/mutex.cpp, with detail::awaiter_list_pop of
-- include/coro/detail/awaiter_list.hpp. Any number of lock operations run; each step is one access
-- to `m_state` or to an operation's `m_next`.
pub mod Chain
pub mod Invariant
pub mod Steps
pub mod Advance
pub mod Exclusion
pub mod Handover
pub mod ScopedLock
pub mod Tests
use libcoro.Base.{ℕ, Bool, true, false, List, [], ◌∷◌, ◌==◌, not, ◌&&◌, if◌then◌else◌}

-- A value of `m_state` or `m_next`: `unlocked_value()`, `nullptr`, or a `lock_operation_base*`.
pub data Word : Type 0 where
  unlocked_value nullptr : Word
  operation : ℕ → Word

abbrev pub same_word : Word → Word → Bool
same_word unlocked_value unlocked_value = true
same_word nullptr nullptr = true
same_word (operation a) (operation b) = a == b
same_word _ _ = false

-- Where an operation, and the task that made it, stands.
pub data Phase : Type 0 where
  -- not begun, or over
  idle : Phase
  -- after a failed `await_ready`, before the load in `await_suspend`
  suspending : Phase
  -- in the loop of `await_suspend`, with the value of `current`
  looping : Word → Phase
  -- there, after `m_next = current`
  linked : Word → Phase
  -- `await_suspend` has returned true
  waiting : Phase
  -- `co_await` has returned: the task owns the lock
  owning : Phase
  -- in the loop of `unlock`, with the value of `current`
  unlocking : Word → Phase
  -- in the loop of `awaiter_list_pop`, with the value of `waiter`
  popping : Word → Phase
  -- there, after the read of `waiter->m_next`
  popping_next : ℕ → Word → Phase
  -- `unlock` has thrown "coro::mutex is already unlocked"
  threw : Phase
  -- `awaiter_list_pop` gave no waiter, and `unlock` has dereferenced it
  crashed : Phase

pub record Mutex : Type 0 where
  pub state : Word
  pub next : ℕ → Word
  pub phase : ℕ → Phase

abbrev pub update {ℓ} : {B : Type ℓ} → (ℕ → B) → ℕ → B → ℕ → B
update f k v j = if j == k then v else f j

unfoldable pub init : Mutex
init = record { state = unlocked_value; next = λ t. nullptr; phase = λ t. idle }

abbrev pub goto : Mutex → ℕ → Phase → Mutex
goto m t p = record m { phase = update m.phase t p }

-- `mutex::try_lock`, on behalf of operation `t`; `failed` is where it goes if the lock is not free.
unfoldable pub try_lock : Mutex → ℕ → Phase → Mutex
try_lock m t failed =
    if same_word m.state unlocked_value
    then record m { state = nullptr; phase = update m.phase t owning }
    else goto m t failed

-- `compare_exchange_weak`, which may also fail for no reason (`spurious`).
abbrev pub exchanges : Bool → Word → Word → Bool
exchanges spurious state expected = not spurious && same_word state expected

-- One turn of the loop of `lock_operation_base::await_suspend`.
unfoldable pub suspend_loop : Mutex → ℕ → Bool → Word → Mutex
suspend_loop m t spurious unlocked_value =
    if exchanges spurious m.state unlocked_value
    then record m { state = nullptr; phase = update m.phase t owning }
    else goto m t (looping m.state)
suspend_loop m t spurious current = record m {
  next = update m.next t current;
  phase = update m.phase t (linked current);
}

-- The exchange at the end of that turn.
unfoldable pub suspend_link : Mutex → ℕ → Bool → Word → Mutex
suspend_link m t spurious current =
    if exchanges spurious m.state current
    then record m { state = operation t; phase = update m.phase t waiting }
    else goto m t (looping m.state)

-- One turn of the loop of `mutex::unlock`.
unfoldable pub unlock_loop : Mutex → ℕ → Bool → Word → Mutex
unlock_loop m t spurious unlocked_value = goto m t threw
unlock_loop m t spurious nullptr =
    if exchanges spurious m.state nullptr
    then record m { state = unlocked_value; phase = update m.phase t idle }
    else goto m t (unlocking m.state)
unlock_loop m t spurious (operation w) = goto m t (popping m.state)

-- `awaiter_list_pop`: the test for `nullptr` and the read of `waiter->m_next`.
unfoldable pub pop_loop : Mutex → ℕ → Word → Mutex
pop_loop m t (operation w) = goto m t (popping_next w (m.next w))
pop_loop m t _ = goto m t crashed

-- Its exchange; then `unlock` resumes the waiter, which owns the lock from here on.
unfoldable pub pop_exchange : Mutex → ℕ → Bool → ℕ → Word → Mutex
pop_exchange m t spurious w after =
    if exchanges spurious m.state (operation w)
    then record m { state = after; phase = update (update m.phase t idle) w owning }
    else goto m t (popping m.state)

-- What operation `t` does next; an idle one begins `lock` (`await_ready` first) or, if asked to
-- try, `try_lock`; the owner begins `unlock`.
pub record Turn : Type 0 where
  pub operation : ℕ
  pub tries : Bool
  pub spurious : Bool

unfoldable pub advance : Mutex → ℕ → Bool → Bool → Phase → Mutex
advance m t tries spurious idle = try_lock m t (if tries then idle else suspending)
advance m t tries spurious suspending = goto m t (looping m.state)
advance m t tries spurious (looping current) = suspend_loop m t spurious current
advance m t tries spurious (linked current) = suspend_link m t spurious current
advance m t tries spurious owning = goto m t (unlocking m.state)
advance m t tries spurious (unlocking current) = unlock_loop m t spurious current
advance m t tries spurious (popping waiter) = pop_loop m t waiter
advance m t tries spurious (popping_next w after) = pop_exchange m t spurious w after
advance m t tries spurious waiting = m
advance m t tries spurious threw = m
advance m t tries spurious crashed = m

unfoldable pub step : Mutex → Turn → Mutex
unfolding advance
step m u = advance m u.operation u.tries u.spurious (m.phase u.operation)

unfoldable pub run : Mutex → List Turn → Mutex
run m [] = m
run m (u ∷ us) = run (step m u) us
