-- ===== src/Dispatch/State.antt =====
-- The state of the dispatcher, and of the world around it: the database, the clock and the ids.
use kickd.Prelude.{
  ℕ, Bool, true, String, Option, none, some, List, [], ◌∷◌, ◌-◌, if◌then◌else◌, nat_eq, string_eq,
  ◌==◌,
}
use kickd.Prelude.Int.{ℤ}
use kickd.Prelude.Map.{Map, lookup, insert, delete}
use kickd.Queue.Status.{Status}
use kickd.Queue.Row.{Run}
use kickd.Queue.Conn.{Conn, Result, M}
use kickd.Event.{Event, Outcome}
use kickd.Dispatch.Spec.{Spec}

pub record Follower : Type 0 where
  pub event : String
  pub statuses : List Status

pub record ActiveRun : Type 0 where
  pub run_id : ℕ
  pub request_id : String
  pub start : ℕ
  pub skipped : ℕ
  pub replacing : Bool

-- The causes with which a run's context is canceled.
pub data Cause : Type 0 where
  canceled_by_user replaced : Cause

-- A command that the runner was given, and that has not finished.
pub record Spawned : Type 0 where
  pub run : Run
  pub spec : Spec
  pub event : Event

-- `cancels` holds the context of each run, with the first cause it was canceled with. `waiters`
-- holds the runs with a caller that waits on a channel, and `replies` what was sent there.
-- `wake` is the channel of one place; `stopping` says that the runner's context has ended.
pub record Dispatcher : Type 0 where
  pub specs : Map String Spec
  pub follows : Map String (List Follower)
  pub running : Map String ℕ
  pub active : Map String ActiveRun
  pub cancels : Map ℕ (Option Cause)
  pub cancel_sent : Map ℕ Bool
  pub run_info : Map ℕ (String × String)
  pub waiters : Map ℕ Bool
  pub wake : Bool
  pub restart_delays : Map String ℤ
  pub next_due : Option ℕ
  pub stopping : Bool
  pub in_flight : List Spawned
  pub replies : List (ℕ × Outcome)
  pub dropped : ℕ
  pub skipped : ℕ

-- The clock does not move within one pass of the loop; `new_ids` are the ids that NewID will give.
pub record World : Type 0 where
  pub d : Dispatcher
  pub conn : Conn
  pub now : ℕ
  pub new_ids : List String

-- A database call from the dispatcher.
abbrev pub call : {A : Type 0} → M A → World → Result A × World
call m w = let (r, c) = m w.conn in (r, record w { conn = c })

abbrev pub poke : Dispatcher → Dispatcher
poke d = record d { wake = true }

abbrev pub or_zero : Option ℕ → ℕ
or_zero none = 0
or_zero (some n) = n

-- d.running[event]
unfoldable pub running_of : String → Dispatcher → ℕ
running_of event d = or_zero (lookup event d.running)

-- d.running[event]--, and the entry is deleted at zero.
unfoldable pub one_less : String → Map String ℕ → Map String ℕ
one_less event running =
    let n = or_zero (lookup event running) - 1 in
    if n == 0 then delete event running else insert event n running

unfoldable pub take_id : List String → World → String × World
take_id [] w = ("", w)
take_id (id ∷ rest) w = (id, record w { new_ids = rest })

-- event.NewID
unfoldable pub new_id : World → String × World
new_id w = take_id w.new_ids w

-- The send of a result to the caller that waits for the run, if there is one.
unfoldable pub reply : ℕ → Outcome → Dispatcher → Dispatcher
reply id res d = elim (lookup id d.waiters) [
  | none ↦ d
  | some _ ↦ record d { waiters = delete id d.waiters; replies = (id, res) ∷ d.replies }
]
