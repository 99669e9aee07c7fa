-- ===== src/Queue/Insert.antt =====
-- Enqueue, insertRun and Follow of store.go: how runs enter the database.
use kickd.Prelude.{
  ℕ, suc, Bool, false, ◌&&◌, String, Option, none, some, List, [], ◌∷◌, ◌++◌, leb, ltb,
  if◌then◌else◌, nat_eq, string_eq, ◌==◌, count,
}
use kickd.Queue.Status.{queued, dropped, status_eq}
use kickd.Queue.Row.{Row, Run, Db}
use kickd.Queue.Conn.{M, ◌>>=◌, ◌>>◌, pure, statement, transaction, update_where}

-- SELECT COUNT(*) FROM runs WHERE event = ? AND status = ?
abbrev pub is_queued_of : String → Row → Bool
is_queued_of event r = r.event == event && r.status == queued

unfoldable pub count_queued_rows : String → List Row → ℕ
count_queued_rows event rows = count (is_queued_of event) rows

-- INSERT INTO runs: the row gets the next id, and LastInsertId returns it.
unfoldable pub insert_row : (ℕ → Row) → Db → ℕ × Db
insert_row row db =
    (db.next_id, record db { runs = db.runs ++ row db.next_id ∷ []; next_id = suc db.next_id })

unfoldable pub null_id : ℕ → Option ℕ
null_id id = if id == 0 then none else some id

abbrev pub or_now : ℕ → Option ℕ → ℕ
or_now now none = now
or_now now (some t) = t

-- The row that insertRun writes for `r`: queued, or dropped when the queue is `full`.
unfoldable pub new_row : ℕ → Run → Bool → ℕ → Row
new_row now r full id = record {
  id = id;
  request_id = r.request_id;
  event = r.event;
  trigger_kind = r.trigger;
  trigger_id = r.trigger_id;
  source = r.source;
  payload = r.payload;
  status = if full then dropped else queued;
  reason = if full then "queue_full" else "";
  detail = "";
  attempt = if r.attempt == 0 then 1 else r.attempt;
  retry_of = null_id r.retry_of;
  exit_code = none;
  signal = "";
  output = "";
  output_truncated = 0;
  skipped = 0;
  cancel_requested = 0;
  created_at = or_now now r.created_at;
  started_at = none;
  finished_at = if full then some now else none;
  duration_ms = none;
  followed = 0;
  not_before = r.not_before;
}

-- Whether the event of `r` has `max_queued` queued runs; 0 is no limit, and asks nothing.
unfoldable pub queue_full : Run → ℕ → M Bool
queue_full r max_queued =
    if ltb 0 max_queued
    then (do n ← statement (λ db. (count_queued_rows r.event db.runs, db)); pure (leb max_queued n))
    else pure false

-- insertRun: the id of the new run, and whether it was dropped.
unfoldable pub insert_run : ℕ → Run → ℕ → M (ℕ × Bool)
insert_run now r max_queued = do
  full ← queue_full r max_queued
  id ← statement (insert_row (new_row now r full))
  pure (id, full)

unfoldable pub enqueue : ℕ → Run → ℕ → M (ℕ × Bool)
enqueue now r max_queued = transaction (insert_run now r max_queued)

-- The loop of Follow over the runs and their limits.
unfoldable pub insert_runs : ℕ → List (Run × ℕ) → M (List (ℕ × Bool))
insert_runs now [] = pure []
insert_runs now ((r, max_queued) ∷ rest) = do
  first ← insert_run now r max_queued
  others ← insert_runs now rest
  pure (first ∷ others)

abbrev pub mark_followed : Row → Row
mark_followed r = record r { followed = 1 }

-- UPDATE runs SET followed = 1 WHERE id = ?
unfoldable pub set_followed : ℕ → Db → Unit {0} × Db
set_followed id db = (tt, record db { runs = update_where (λ r. r.id == id) mark_followed db.runs })

unfoldable pub follow : ℕ → ℕ → List (Run × ℕ) → M (List (ℕ × Bool))
follow now id runs =
    transaction (do inserted ← insert_runs now runs; statement (set_followed id); pure inserted)
