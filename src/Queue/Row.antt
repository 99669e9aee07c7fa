-- ===== src/Queue/Row.antt =====
-- A row of the table runs, the Go struct Run that is read from it, and the agent's row.
use kickd.Prelude.{ℕ, String, Bool, Option, none, some, List, nat_eq, ◌==◌, not}
use kickd.Prelude.Int.{ℤ}
use kickd.Prelude.Map.{Map}
use kickd.Queue.Status.{Status}

-- The columns of the table runs. Times are milliseconds since 1970, as `ms` stores them; `none` is
-- NULL.
pub record Row : Type 0 where
  pub id : ℕ
  pub request_id : String
  pub event : String
  pub trigger_kind : String
  pub trigger_id : String
  pub source : String
  pub payload : String
  pub status : Status
  pub reason : String
  pub detail : String
  pub attempt : ℕ
  pub retry_of : Option ℕ
  pub exit_code : Option ℤ
  pub signal : String
  pub output : String
  pub output_truncated : ℕ
  pub skipped : ℕ
  pub cancel_requested : ℕ
  pub created_at : ℕ
  pub started_at : Option ℕ
  pub finished_at : Option ℕ
  pub duration_ms : Option ℕ
  pub followed : ℕ
  pub not_before : Option ℕ

-- The struct Run. A zero time is `none`.
pub record Run : Type 0 where
  pub id : ℕ
  pub request_id : String
  pub event : String
  pub trigger : String
  pub trigger_id : String
  pub source : String
  pub payload : String
  pub status : Status
  pub reason : String
  pub detail : String
  pub attempt : ℕ
  pub retry_of : ℕ
  pub exit_code : Option ℤ
  pub signal : String
  pub output : String
  pub output_truncated : Bool
  pub skipped : ℕ
  pub cancel_requested : Bool
  pub created_at : Option ℕ
  pub started_at : Option ℕ
  pub finished_at : Option ℕ
  pub duration : ℕ
  pub not_before : Option ℕ

abbrev pub or_zero : Option ℕ → ℕ
or_zero none = 0
or_zero (some n) = n

-- scanRun: the struct that a row is read as.
unfoldable pub scan_run : Row → Run
scan_run r = record {
  id = r.id;
  request_id = r.request_id;
  event = r.event;
  trigger = r.trigger_kind;
  trigger_id = r.trigger_id;
  source = r.source;
  payload = r.payload;
  status = r.status;
  reason = r.reason;
  detail = r.detail;
  attempt = r.attempt;
  retry_of = or_zero r.retry_of;
  exit_code = r.exit_code;
  signal = r.signal;
  output = r.output;
  output_truncated = not (r.output_truncated == 0);
  skipped = r.skipped;
  cancel_requested = not (r.cancel_requested == 0);
  created_at = some r.created_at;
  started_at = r.started_at;
  finished_at = r.finished_at;
  duration = or_zero r.duration_ms;
  not_before = r.not_before;
}

-- The row of the table agent; `stopped_at` is NULL while the agent runs.
pub record AgentRow : Type 0 where
  pub pid : ℕ
  pub version : String
  pub host : String
  pub started_at : ℕ
  pub heartbeat_at : ℕ
  pub stopped_at : Option ℕ

-- The database. `runs` stands in the order of insertion; AUTOINCREMENT never gives an id twice, so
-- it keeps the next id beside the rows.
pub record Db : Type 0 where
  pub runs : List Row
  pub next_id : ℕ
  pub agent : Option AgentRow
  pub cron_state : Map String ℕ
