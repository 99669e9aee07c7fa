-- ===== src/Queue/Recovery.antt =====
-- InterruptedRuns, Retry, Abandon and RetryOf of store.go: runs that a stop or a crash cut off.
use Prim.Native.String.{◌++◌}
use kickd.Prelude.{ℕ, ◌+◌, Bool, false, ◌||◌, String, Option, none, some, List, nat_eq, ◌==◌}
use kickd.Prelude.Text.{decimal}
use kickd.Queue.Status.{queued, running, interrupted, retried, abandoned, status_eq}
use kickd.Queue.Row.{Row, Run}
use kickd.Queue.Conn.{M, ◌>>=◌, ◌>>◌, pure, statement, transaction}
use kickd.Queue.Insert.{insert_row}
use kickd.Queue.Runs.{is_row, update, execute}
use kickd.Queue.Cancel.{select, head?}

abbrev pub was_cut_off : Row → Bool
was_cut_off r = r.status == running || r.status == interrupted

unfoldable pub interrupted_runs : M (List Run)
interrupted_runs = statement (select was_cut_off)

-- COALESCE(finished_at, now)
abbrev pub coalesce : Option ℕ → ℕ → Option ℕ
coalesce none now = some now
coalesce (some t) now = some t

-- The row of the next attempt, which the INSERT of Retry writes.
unfoldable pub retry_row : ℕ → Run → String → ℕ → Row
retry_row now r payload id = record {
  id = id;
  request_id = r.request_id;
  event = r.event;
  trigger_kind = r.trigger;
  trigger_id = r.trigger_id;
  source = r.source;
  payload = payload;
  status = queued;
  reason = "";
  detail = "";
  attempt = r.attempt + 1;
  retry_of = some r.id;
  exit_code = none;
  signal = "";
  output = "";
  output_truncated = 0;
  skipped = 0;
  cancel_requested = 0;
  created_at = now;
  started_at = none;
  finished_at = none;
  duration_ms = none;
  followed = 0;
  not_before = none;
}

abbrev pub as_retried : ℕ → String → String → Row → Row
as_retried now reason rerun r = record r {
  status = retried;
  reason = reason;
  detail = rerun;
  finished_at = coalesce r.finished_at now;
  cancel_requested = 0;
}

-- fmt.Sprintf("rerun as run %d", id)
unfoldable pub rerun_text : ℕ → String
rerun_text id = "rerun as run " ++ decimal id

unfoldable pub retry : ℕ → Run → String → String → M ℕ
retry now r payload reason = transaction (do
  id ← statement (insert_row (retry_row now r payload))
  statement (update (is_row r.id) (as_retried now reason (rerun_text id)))
  pure id)

abbrev pub as_abandoned : ℕ → String → Row → Row
as_abandoned now reason r = record r {
  status = abandoned;
  reason = reason;
  finished_at = coalesce r.finished_at now;
  cancel_requested = 0;
}

unfoldable pub abandon : ℕ → ℕ → String → M (Unit {0})
abandon now id reason = execute (is_row id) (as_abandoned now reason)

abbrev pub retries_run : ℕ → Row → Bool
retries_run id r = elim r.retry_of [ none ↦ false | some of ↦ of == id ]

-- ORDER BY id LIMIT 1: the first run that repeats run `id`.
unfoldable pub retry_of : ℕ → M (Option Run)
retry_of id = do runs ← statement (select (retries_run id)); pure (head? runs)
