-- ===== src/Queue/Cancel.antt =====
-- RequestCancel, RequestCancelEvent and CancelRequests of store.go.
use kickd.Prelude.{
  ℕ, Bool, true, ◌&&◌, ◌||◌, String, Option, none, some, List, [], ◌∷◌, nat_eq, string_eq, ◌==◌,
  map, filter,
}
use kickd.Queue.Status.{Status, queued, running, canceled, status_eq}
use kickd.Queue.Row.{Row, Run, Db, scan_run}
use kickd.Queue.Conn.{not_found, M, ◌>>=◌, ◌>>◌, pure, raise, statement, transaction}
use kickd.Queue.Runs.{is_row, update}

abbrev pub head? : List Run → Option Run
head? [] = none
head? (r ∷ rs) = some r

-- SELECT … FROM runs WHERE p ORDER BY id: the ids grow along the table.
abbrev pub select : (Row → Bool) → Db → List Run × Db
select p db = (map scan_run (filter p db.runs), db)

abbrev pub as_canceled : ℕ → Row → Row
as_canceled now r = record r {
  status = canceled;
  reason = "canceled_by_user";
  finished_at = some now;
}

abbrev pub ask_to_stop : Row → Row
ask_to_stop r = record r { cancel_requested = 1 }

-- The switch on the status of the run `r` that was read, and the struct after it.
unfoldable pub cancel_run : ℕ → Run → Status → M Run
cancel_run now r queued = do
  statement (update (is_row r.id) (as_canceled now))
  pure (record r { status = canceled; reason = "canceled_by_user"; finished_at = some now })
cancel_run now r running = do
  statement (update (is_row r.id) ask_to_stop)
  pure (record r { cancel_requested = true })
cancel_run now r _ = pure r

unfoldable pub found : Option Run → M Run
found none = raise not_found
found (some r) = pure r

unfoldable pub request_cancel : ℕ → ℕ → M Run
request_cancel now id =
    transaction
      (do runs ← statement (select (is_row id)); r ← found (head? runs); cancel_run now r r.status)

-- The loop of RequestCancelEvent over the runs that it read.
unfoldable pub cancel_runs : ℕ → List Run → M (List Run)
cancel_runs now [] = pure []
cancel_runs now (r ∷ rest) = do
  first ← cancel_run now r r.status
  others ← cancel_runs now rest
  pure (first ∷ others)

-- WHERE event = ? AND status IN ('queued', 'running')
abbrev pub is_open_of : String → Row → Bool
is_open_of event r = r.event == event && (r.status == queued || r.status == running)

unfoldable pub request_cancel_event : ℕ → String → M (List Run)
request_cancel_event now event =
    transaction (do runs ← statement (select (is_open_of event)); cancel_runs now runs)

abbrev pub asked_to_stop : Row → Bool
asked_to_stop r = r.status == running && r.cancel_requested == 1

unfoldable pub cancel_requests : M (List ℕ)
cancel_requests = statement (λ db. (map (λ r. r.id) (filter asked_to_stop db.runs), db))
