-- ===== src/ConditionVariable.antt =====
-- include/coro/condition_variable.hpp and src/condition_variable.cpp. `S` is the state that the
-- lock protects and that predicates and stop tokens look at; it is given at the time when a
-- notification holds the lock.
use libcoro.Base.{
  ℕ, Bool, true, false, not, ◌&&◌, ◌||◌, Option, none, some, List, [], ◌∷◌, ◌++◌, if◌then◌else◌,
}
pub mod Notifying
pub mod Tests

-- `notify_status_t`
pub data NotifyStatus : Type 0 where
  ready not_ready awaiter_dead : NotifyStatus

-- `awaiter`, `awaiter_with_predicate`, `awaiter_with_predicate_stop_token` and
-- `awaiter_with_wait_hook`, whose predicate and stop token are optional.
pub data Kind (S : Type 0) : Type 0 where
  plain : Kind S
  with_predicate : (S → Bool) → Kind S
  with_stop_token : (S → Bool) → (S → Bool) → Kind S
  wait_hook : Option (S → Bool) → Option (S → Bool) → Kind S

-- `awaiter_base`; `m_next` is the order of the list that holds it. `completed` is a hook's
-- `m_awaiter_completed`.
pub record Awaiter (S : Type 0) : Type 0 where
  pub awaiting_coroutine : ℕ
  pub kind : Kind S
  pub completed : Bool

abbrev pub status_of : Bool → NotifyStatus
status_of true = ready
status_of false = not_ready

abbrev pub is_dead : NotifyStatus → Bool
is_dead awaiter_dead = true
is_dead st = false

module _ {S : Type 0} where
  -- `m_stop_token.has_value() && m_stop_token.value().stop_requested()`
  abbrev pub stop_requested : S → Option (S → Bool) → Bool
  stop_requested s none = false
  stop_requested s (some t) = t s

  abbrev pub hook_status : S → Option (S → Bool) → Option (S → Bool) → NotifyStatus
  hook_status s none stop = ready
  hook_status s (some p) stop = status_of (p s || stop_requested s stop)

  -- `on_notify` of each kind of awaiter
  unfoldable pub on_notify : S → Kind S → Bool → NotifyStatus
  on_notify s plain completed = ready
  on_notify s (with_predicate p) completed = status_of (p s)
  on_notify s (with_stop_token p stop) completed = status_of (p s || stop s)
  on_notify s (wait_hook p stop) completed =
      if completed then awaiter_dead else hook_status s p stop

  -- `await_ready` of each kind; the one with a wait asks the predicate as well.
  unfoldable pub await_ready : S → Kind S → Bool
  await_ready s plain = false
  await_ready s (with_predicate p) = p s
  await_ready s (with_stop_token p stop) = p s
  await_ready s (wait_hook none stop) = false
  await_ready s (wait_hook (some p) stop) = p s

  unfoldable pub await_suspend : List (Awaiter S) → Awaiter S → List (Awaiter S)
  await_suspend ws w = w ∷ ws

  -- What `notify_one` and `notify_all` do with a status: the awaiter that goes on, and the list.
  abbrev pub notified :
      NotifyStatus → Awaiter S → List (Awaiter S) → List (Awaiter S) × List (Awaiter S)
  notified ready w ws = (w ∷ [], ws)
  notified not_ready w ws = ([], w ∷ ws)
  notified awaiter_dead w ws = ([], ws)

  -- `notify_one`: the awaiters that go on, and `m_awaiters` afterwards.
  unfoldable pub notify_one : S → List (Awaiter S) → List (Awaiter S) × List (Awaiter S)
  unfolding on_notify
  notify_one s [] = ([], [])
  notify_one s (w ∷ ws) =
      let rest = notify_one s ws in
      let st = on_notify s w.kind w.completed in if is_dead st then rest else notified st w ws

  -- The loop of `notify_all` over the list that it has taken, with `m_awaiters`.
  unfoldable pub notify_loop :
      S → List (Awaiter S) → List (Awaiter S) → List (Awaiter S) × List (Awaiter S)
  unfolding on_notify
  notify_loop s [] awaiters = ([], awaiters)
  notify_loop s (w ∷ ws) awaiters =
      let (now, awaiters') = notified (on_notify s w.kind w.completed) w awaiters in
      let (later, awaiters'') = notify_loop s ws awaiters' in (now ++ later, awaiters'')

  -- `notify_all`
  unfoldable pub notify_all : S → List (Awaiter S) → List (Awaiter S) × List (Awaiter S)
  unfolding notify_loop
  notify_all s ws = notify_loop s ws []
