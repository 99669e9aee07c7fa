-- ===== src/Queue/Runs.antt =====
-- The changes of one run in store.go: StartRun, FinishRun, Settle and AddSkipped.
use kickd.Prelude.{
  ℕ, ◌+◌, Bool, ◌&&◌, String, Option, none, some, if◌then◌else◌, nat_eq, ◌==◌, count,
}
use kickd.Prelude.Int.{ℤ}
use kickd.Queue.Status.{Status, queued, running, status_eq}
use kickd.Queue.Row.{Row, Db}
use kickd.Queue.Conn.{M, ◌>>=◌, ◌>>◌, pure, statement, update_where}

abbrev pub is_row : ℕ → Row → Bool
is_row id r = r.id == id

-- The guard of the guarded updates: WHERE id = ? AND status = 'queued'.
abbrev pub is_queued_row : ℕ → Row → Bool
is_queued_row id r = r.id == id && r.status == queued

-- UPDATE runs SET f WHERE p, with the number of rows that it changed.
unfoldable pub update : (Row → Bool) → (Row → Row) → Db → ℕ × Db
update p f db = (count p db.runs, record db { runs = update_where p f db.runs })

-- change: whether the update changed one row.
unfoldable pub change : (Row → Bool) → (Row → Row) → M Bool
change p f = do n ← statement (update p f); pure (n == 1)

abbrev pub execute : (Row → Bool) → (Row → Row) → M (Unit {0})
execute p f = do statement (update p f); pure tt

abbrev pub as_running : ℕ → Row → Row
as_running at r = record r { status = running; started_at = some at }

unfoldable pub start_run : ℕ → ℕ → M Bool
start_run id at = change (is_queued_row id) (as_running at)

-- The outcome that FinishRun writes. Durations are milliseconds.
pub record Finish : Type 0 where
  pub status : Status
  pub reason : String
  pub detail : String
  pub exit_code : Option ℤ
  pub signal : String
  pub output : String
  pub output_truncated : Bool
  pub at : Option ℕ
  pub duration : ℕ

abbrev pub finish_time : ℕ → Option ℕ → ℕ
finish_time now none = now
finish_time now (some t) = t

abbrev pub as_finished : ℕ → Finish → Row → Row
as_finished now f r = record r {
  status = f.status;
  reason = f.reason;
  detail = f.detail;
  exit_code = f.exit_code;
  signal = f.signal;
  output = f.output;
  output_truncated = if f.output_truncated then 1 else 0;
  finished_at = some (finish_time now f.at);
  duration_ms = some f.duration;
  cancel_requested = 0;
}

unfoldable pub finish_run : ℕ → ℕ → Finish → M (Unit {0})
finish_run now id f = execute (is_row id) (as_finished now f)

abbrev pub as_settled : ℕ → Status → String → String → Row → Row
as_settled now status reason detail r = record r {
  status = status;
  reason = reason;
  detail = detail;
  finished_at = some now;
}

unfoldable pub settle : ℕ → ℕ → Status → String → String → M Bool
settle now id status reason detail = change (is_queued_row id) (as_settled now status reason detail)

abbrev pub one_more_skipped : Row → Row
one_more_skipped r = record r { skipped = r.skipped + 1 }

unfoldable pub add_skipped : ℕ → M (Unit {0})
add_skipped id = execute (is_row id) one_more_skipped
