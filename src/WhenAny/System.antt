-- ===== src/WhenAny/System.antt =====
-- include/coro/when_any.hpp: the coroutine that calls `when_any`, and the tasks. A move is one access to
-- what they share, so a list of moves is an interleaving.
use libcoro.Base.{ℕ, Option, List, [], ◌∷◌, ◌++◌, if◌then◌else◌}
use libcoro.WhenAny.{WhenAny, make_when_any, exchange_first, store_result, notify_set, await_notify}

-- Where the task stands whose exchange has succeeded, with its result.
pub data Winner (A : Type 0) : Type 0 where
  nobody : Winner A
  exchanged stored notified : A → Winner A

pub data Caller : Type 0 where
  asking suspended went_on : Caller

pub record System (A : Type 0) : Type 0 where
  pub shared : WhenAny A
  pub winner : Winner A
  pub caller : Caller
  -- the results of the tasks that have completed, in the order of their exchanges
  pub completed : List A
  -- what `return_value` holds whenever the caller goes on
  pub returned : List (Option A)

pub data Move (A : Type 0) : Type 0 where
  completes : A → Move A
  stores notifies awaits : Move A

-- The caller is the only coroutine that awaits the event.
abbrev pub caller_id : ℕ
caller_id = 0

module _ {A : Type 0} where
  unfoldable pub start : System A
  start = record {
    shared = make_when_any;
    winner = nobody;
    caller = asking;
    completed = [];
    returned = [];
  }

  abbrev pub goes_on : List ℕ → System A → System A
  goes_on [] s = s
  goes_on (c ∷ cs) s =
      goes_on cs
        (record s { caller = went_on; returned = s.returned ++ s.shared.return_value ∷ [] })

  abbrev pub wins : System A → A → System A
  wins s x =
      let (won, w) = exchange_first s.shared in
      record s {
        shared = w;
        winner = if won then exchanged x else s.winner;
        completed = s.completed ++ x ∷ [];
      }

  abbrev pub stores_one : System A → Winner A → System A
  stores_one s (exchanged x) = record s { shared = store_result s.shared x; winner = stored x }
  stores_one s w = s

  abbrev pub notifies_one : System A → Winner A → System A
  notifies_one s (stored x) =
      let (cs, w) = notify_set s.shared in goes_on cs (record s { shared = w; winner = notified x })
  notifies_one s w = s

  abbrev pub awaits_one : System A → Caller → System A
  awaits_one s asking =
      let (b, w) = await_notify s.shared caller_id in
      if b
      then record s { shared = w; caller = suspended }
      else goes_on (caller_id ∷ []) (record s { shared = w })
  awaits_one s c = s

  unfoldable pub step : System A → Move A → System A
  step s (completes x) = wins s x
  step s stores = stores_one s s.winner
  step s notifies = notifies_one s s.winner
  step s awaits = awaits_one s s.caller

  unfoldable pub run : System A → List (Move A) → System A
  run s [] = s
  run s (m ∷ ms) = run (step s m) ms
