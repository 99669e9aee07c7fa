-- ===== src/Queue/Calls.antt =====
-- The calls of store.go that write, as data, and a history of them: `kickd run` and the other
-- subcommands make them on one database, in any order, each at a time of its own.
use kickd.Prelude.{ℕ, String, Bool, true, false, ◌≡◌, List, [], ◌∷◌}
use kickd.Queue.Status.{Status, queued, running}
use kickd.Queue.Row.{Run}
use kickd.Queue.Conn.{Conn}
use kickd.Queue.Insert.{enqueue, follow}
use kickd.Queue.Runs.{Finish, start_run, finish_run, settle, add_skipped}
use kickd.Queue.Cancel.{request_cancel, request_cancel_event}
use kickd.Queue.Recovery.{retry, abandon}
use kickd.Queue.Reads.{prune}
use kickd.Queue.Agents.{Agent, heartbeat, agent_stopped, set_last_cron}

pub data Call : Type 0 where
  enqueues : ℕ → Run → ℕ → Call
  follows : ℕ → ℕ → List (Run × ℕ) → Call
  starts : ℕ → ℕ → Call
  finishes : ℕ → ℕ → Finish → Call
  settles : ℕ → ℕ → Status → String → String → Call
  adds_skipped : ℕ → Call
  cancels : ℕ → ℕ → Call
  cancels_event : ℕ → String → Call
  retries : ℕ → Run → String → String → Call
  abandons : ℕ → ℕ → String → Call
  prunes : ℕ → Call
  beats : ℕ → Agent → Call
  stops : ℕ → Call
  sets_cron : String → ℕ → Call

-- The connection after a call, whether it succeeds or fails.
unfoldable pub perform : Call → Conn → Conn
perform (enqueues now r max_queued) c = (enqueue now r max_queued c).1
perform (follows now id runs) c = (follow now id runs c).1
perform (starts id at) c = (start_run id at c).1
perform (finishes now id f) c = (finish_run now id f c).1
perform (settles now id s reason detail) c = (settle now id s reason detail c).1
perform (adds_skipped id) c = (add_skipped id c).1
perform (cancels now id) c = (request_cancel now id c).1
perform (cancels_event now event) c = (request_cancel_event now event c).1
perform (retries now r payload reason) c = (retry now r payload reason c).1
perform (abandons now id reason) c = (abandon now id reason c).1
perform (prunes before) c = (prune before c).1
perform (beats now a) c = (heartbeat now a c).1
perform (stops now) c = (agent_stopped now c).1
perform (sets_cron key at) c = (set_last_cron key at c).1

unfoldable pub perform_all : List Call → Conn → Conn
perform_all [] c = c
perform_all (call ∷ rest) c = perform_all rest (perform call c)

-- A status that FinishRun and Settle are given: one that ends the run, or cuts it off.
abbrev pub closes : Status → Bool
closes queued = false
closes running = false
closes _ = true

-- What the callers of FinishRun and Settle see to; every other call may come with any arguments.
abbrev pub IsProper : Call → Type 0
IsProper (finishes now id f) = closes f.status ≡ true
IsProper (settles now id s reason detail) = closes s ≡ true
IsProper _ = Unit
