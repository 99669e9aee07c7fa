-- ===== src/Queue/Scenarios.antt =====
-- Histories of a small database: two events, and statements that fail in between.
use kickd.Prelude.{
  ℕ, ◌≤◌, ◌<◌, ◌≡◌, refl, ◌≢◌, true, false, String, none, some, List, [], ◌∷◌, arith, leb, nat_eq,
  string_eq, ◌==◌, count, filter,
}
use kickd.Queue.Status.{queued, succeeded, interrupted, final}
use kickd.Queue.Row.{Row, Run, Db, scan_run}
use kickd.Queue.Conn.{Conn, ok, statement, transaction, update_where}
use kickd.Queue.Table.{find_row}
use kickd.Queue.Insert.{
  enqueue, insert_run, queue_full, insert_row, new_row, null_id, count_queued_rows, follow,
  insert_runs, set_followed,
}
use kickd.Queue.Runs.{Finish, update, change, start_run, finish_run}
use kickd.Queue.Cancel.{request_cancel, cancel_run, found}
use kickd.Queue.Reads.{unfollowed_runs, prune, delete_prunable, get_run, first_or_not_found}
use kickd.Queue.Calls.{Call, enqueues, starts, finishes, prunes, cancels, perform, perform_all}
use kickd.Queue.Sound.{IsSound, perform_all-IsSound}
use kickd.Queue.Lifecycle.{Evolves}
use kickd.Queue.History.{Careful, perform_all-Evolves, start_once, follow_once, is_in}
use kickd.Queue.Limits.{enqueue_limit}
use kickd.Queue.Effects.{followed_by}
use kickd.Queue.Atomic.{follow_all_or_nothing, follow_succeeds}
use kickd.Prelude.{◌⊎◌}
use kickd.Queue.Conn.{Error, err}
use kickd.Queue.Answers.{recorded, get-enqueue, after_cancel, request_cancel_lem, prune_exact}

abbrev pub backup : Run
backup = record {
  id = 0;
  request_id = "a1";
  event = "backup";
  trigger = "cron";
  trigger_id = "cron:0 3 * * *";
  source = "";
  payload = "{}";
  status = queued;
  reason = "";
  detail = "";
  attempt = 1;
  retry_of = 0;
  exit_code = none;
  signal = "";
  output = "";
  output_truncated = false;
  skipped = 0;
  cancel_requested = false;
  created_at = some 5;
  started_at = none;
  finished_at = none;
  duration = 0;
  not_before = none;
}

abbrev pub first_row : Row
first_row = record {
  id = 1;
  request_id = "a1";
  event = "backup";
  trigger_kind = "cron";
  trigger_id = "cron:0 3 * * *";
  source = "";
  payload = "{}";
  status = queued;
  reason = "";
  detail = "";
  attempt = 1;
  retry_of = none;
  exit_code = none;
  signal = "";
  output = "";
  output_truncated = 0;
  skipped = 0;
  cancel_requested = 0;
  created_at = 5;
  started_at = none;
  finished_at = none;
  duration_ms = none;
  followed = 0;
  not_before = none;
}

abbrev second_row : Row
second_row = record first_row {
  id = 2;
  event = "deploy";
  status = succeeded;
  started_at = some 6;
  finished_at = some 8;
}

abbrev pub sample : Db
sample = record { runs = first_row ∷ second_row ∷ []; next_id = 3; agent = none; cron_state = [] }

-- The statements to come: two succeed, one fails, and then all succeed.
abbrev pub flaky : Conn
flaky = record { db = sample; faults = false ∷ false ∷ true ∷ [] }

abbrev pub steady : Conn
steady = record { db = sample; faults = [] }

abbrev outcome : Finish
outcome = record {
  status = interrupted;
  reason = "shutdown";
  detail = "";
  exit_code = none;
  signal = "";
  output = "";
  output_truncated = false;
  at = some 12;
  duration = 2;
}

abbrev calls : List Call
calls = cancels 11 2 ∷ finishes 12 1 outcome ∷ prunes 9 ∷ enqueues 13 backup 1000 ∷ []

sample-IsSound : IsSound sample
sample-IsSound = record {
  ordered = omega arith;
  shaped = (((refl, refl), omega arith), ((refl, omega arith), tt));
}

perform_all-IsSound_example : IsSound (perform_all (starts 1 10 ∷ calls) flaky).db
perform_all-IsSound_example =
    perform_all-IsSound (starts 1 10 ∷ calls) flaky (tt, (tt, (refl, (tt, (tt, tt)))))
      sample-IsSound

careful : Careful calls (start_run 1 10 steady).1
unfolding perform start_run change update statement update_where request_cancel transaction
    cancel_run found filter finish_run find_row count scan_run
careful = (tt, ((λ r e. ground arith), (tt, (tt, tt))))

perform_all-Evolves_example :
    Evolves (start_run 1 10 steady).1.db (perform_all calls (start_run 1 10 steady).1).db
unfolding start_run change update statement update_where
perform_all-Evolves_example =
    perform_all-Evolves calls (start_run 1 10 steady).1 careful (omega arith)

start_once_example : (start_run 1 20 (perform_all calls (start_run 1 10 steady).1)).0 ≢ ok true
unfolding start_run change update statement update_where count
start_once_example = start_once 1 10 20 steady calls (omega arith) refl careful

abbrev fired : List (Run × ℕ)
fired = (backup, 1000) ∷ (backup, 0) ∷ []

abbrev handed_row : Row
handed_row = record second_row { followed = 1 }

abbrev followed_calls : List Call
followed_calls = starts 1 10 ∷ enqueues 13 backup 1000 ∷ []

follow_once_example : is_in 2 [] ≡ false
unfolding follow insert_runs insert_run queue_full insert_row new_row null_id count_queued_rows
    count set_followed transaction statement update_where find_row unfollowed_runs perform_all
    perform start_run change update enqueue filter
follow_once_example =
    follow_once 9 2 100 fired steady ((3, false) ∷ (4, false) ∷ []) followed_calls handed_row []
      (omega arith) refl refl (tt, (tt, tt)) refl

enqueue_limit_example :
    (false ≡ leb 2 1)
    × (count_queued_rows "backup" (enqueue 9 backup 2 steady).1.db.runs ≡ 2)
    × (count_queued_rows "backup" (enqueue 9 backup 2 steady).1.db.runs ≤ 2)
    × ((event : String)
        → (backup.event == event) ≡ false
        → count_queued_rows event (enqueue 9 backup 2 steady).1.db.runs
          ≡ count_queued_rows event steady.db.runs)
unfolding enqueue insert_run queue_full insert_row new_row null_id count_queued_rows count
    transaction statement
enqueue_limit_example = enqueue_limit 9 backup 2 steady 3 false (omega arith) refl

get-enqueue_example :
    (recorded 9 backup 3 false ≡ recorded 9 backup 3 false) × (find_row 3 sample.runs ≡ none)
unfolding enqueue insert_run queue_full insert_row new_row null_id count_queued_rows count
    transaction statement get_run first_or_not_found filter scan_run
get-enqueue_example =
    get-enqueue 9 backup 2 steady 3 false (recorded 9 backup 3 false) (omega arith) refl refl

request_cancel_lem_example :
    (x : Row) × (find_row 1 sample.runs ≡ some x)
    × (scan_run (after_cancel 9 first_row) ≡ scan_run (after_cancel 9 x))
    × (find_row 1 (request_cancel 9 1 steady).1.db.runs ≡ some (after_cancel 9 x))
    × ((j : ℕ)
        → (1 == j) ≡ false
        → find_row j (request_cancel 9 1 steady).1.db.runs ≡ find_row j sample.runs)
unfolding request_cancel cancel_run found transaction statement filter update update_where scan_run
request_cancel_lem_example =
    request_cancel_lem 9 1 steady (scan_run (after_cancel 9 first_row)) refl

prune_exact_example :
    let after = find_row 2 (prune 9 steady).1.db.runs in
    (final succeeded ≡ false → after ≡ some second_row)
    × ((t : ℕ) → second_row.finished_at ≡ some t → 9 ≤ t → after ≡ some second_row)
    × (second_row.finished_at ≡ none → after ≡ some second_row)
    × ((t : ℕ) → second_row.finished_at ≡ some t → t < 9 → final succeeded ≡ true → after ≡ none)
unfolding prune delete_prunable statement filter count find_row
prune_exact_example = prune_exact 9 steady 1 2 second_row (omega arith) refl refl

follow_all_or_nothing_example :
    (((follow 9 2 fired flaky).0 ≡ ok (followed_by 9 2 fired sample).0)
      × ((follow 9 2 fired flaky).1.db ≡ (followed_by 9 2 fired sample).1))
    ⊎ ((e : Error) × ((follow 9 2 fired flaky).0 ≡ err e)
        × ((follow 9 2 fired flaky).1.db ≡ sample))
follow_all_or_nothing_example = follow_all_or_nothing 9 2 fired flaky

follow_succeeds_example :
    ((follow 9 2 fired steady).0 ≡ ok (followed_by 9 2 fired sample).0)
    × ((follow 9 2 fired steady).1.db ≡ (followed_by 9 2 fired sample).1)
follow_succeeds_example = follow_succeeds 9 2 fired steady refl
