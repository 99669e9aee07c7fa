-- ===== src/Dispatch/Loop.antt =====
-- Configure, processCancels, step, heartbeat and prune of dispatcher.go.
use kickd.Prelude.{
  ℕ, ◌-◌, Bool, true, false, ◌||◌, String, Option, none, some, List, [], ◌∷◌, ◌++◌, if◌then◌else◌,
  nat_eq, string_eq, ◌==◌,
}
use kickd.Prelude.Map.{Map, lookup, insert}
use kickd.Queue.Status
use kickd.Queue.Conn.{Result, ok, err}
use kickd.Queue.Runs.{Finish, finish_run}
use kickd.Queue.Cancel.{cancel_requests}
use kickd.Queue.Agents
use kickd.Queue.Agents.{Agent}
use kickd.Queue.Reads
use kickd.Queue.Reads.{next_not_before}
use kickd.Event.{Codec}
use kickd.Dispatch.Spec.{Spec, AfterTrigger}
use kickd.Dispatch.State.{Cause, canceled_by_user, Follower, Dispatcher, World, call, poke}
use kickd.Dispatch.Finish.{set_d}
use kickd.Dispatch.Schedule.{cancel_with, schedule}
use kickd.Dispatch.Follow.{followers_of, follow}

-- Configure: the settings by name, the later ones over the earlier, and the followers of each event.
unfoldable pub add_followers :
    String → List AfterTrigger → Map String (List Follower) → Map String (List Follower)
add_followers name [] follows = follows
add_followers name (a ∷ rest) follows = add_followers name rest (
    insert a.event
      (followers_of (lookup a.event follows) ++ record { event = name; statuses = a.statuses } ∷ [])
      follows)

unfoldable pub configured :
    List Spec
    → Map String Spec
    → Map String (List Follower)
    → Map String Spec × Map String (List Follower)
configured [] specs follows = (specs, follows)
configured (s ∷ rest) specs follows =
    configured rest (insert s.name s specs) (add_followers s.name s.after follows)

unfoldable pub configure : List Spec → Dispatcher → Dispatcher
configure list d =
    let (specs, follows) = configured list [] [] in
    poke (record d { specs = specs; follows = follows })

abbrev pub was_sent : Option Bool → Bool
was_sent none = false
was_sent (some sent) = sent

abbrev pub by_user : Finish
by_user = record {
  status = Status.canceled;
  reason = "canceled_by_user";
  detail = "";
  exit_code = none;
  signal = "";
  output = "";
  output_truncated = false;
  at = none;
  duration = 0;
}

-- A run of this process is asked to stop, once. A running row that no command backs is recorded as
-- canceled.
unfoldable pub cancel_request : ℕ → World → Option (Option Cause) → World
cancel_request id w none = (call (finish_run w.now id by_user) w).1
cancel_request id w (some cause) =
    if was_sent (lookup id w.d.cancel_sent)
    then w
    else set_d w (record w.d {
      cancel_sent = insert id true w.d.cancel_sent;
      cancels = cancel_with canceled_by_user id w.d.cancels;
    })

unfoldable pub cancel_all : List ℕ → World → World
cancel_all [] w = w
cancel_all (id ∷ rest) w = cancel_all rest (cancel_request id w (lookup id w.d.cancels))

unfoldable pub cancels_read : Result (List ℕ) × World → World
cancels_read (ok ids, w) = cancel_all ids w
cancels_read (err e, w) = w

unfoldable pub process_cancels : World → World
process_cancels w = cancels_read (call cancel_requests w)

unfoldable pub set_due : Result (Option ℕ) × World → World
set_due (ok at, w) = set_d w (record w.d { next_due = at })
set_due (err e, w) = set_d w (record w.d { next_due = none })

-- One pass of the loop. `done` says that the loop's own context has ended.
unfoldable pub step : Codec → ℕ → Bool → World → World
step codec fuel done w =
    if done || w.d.stopping
    then w
    else (let w' = schedule codec (follow codec fuel (process_cancels w)) in
        set_due (call (next_not_before w'.now) w'))

unfoldable pub heartbeat : Agent → World → World
heartbeat info w = (call (Agents.heartbeat w.now info) w).1

-- prune, for a retention of that many milliseconds; 0 keeps everything.
unfoldable pub prune : ℕ → World → World
prune retention w = if retention == 0 then w else (call (Reads.prune (w.now - retention)) w).1
