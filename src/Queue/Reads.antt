-- ===== src/Queue/Reads.antt =====
-- The queries of store.go that change nothing, and Prune.
use kickd.Prelude.{
  ℕ, Bool, true, false, ◌&&◌, ◌||◌, not, String, Option, none, some, List, [], ◌∷◌, if◌then◌else◌,
  nat_eq, string_eq, ◌==◌, ltb, leb, filter, count, take, map, reverse, contains, min,
}
use kickd.Prelude.Int.{ℤ}
use kickd.Queue.Status.{Status, queued, running, interrupted, status_eq}
use kickd.Queue.Row.{Row, Run, Db, scan_run}
use kickd.Queue.Conn.{not_found, M, ◌>>=◌, pure, raise, statement}
use kickd.Queue.Insert.{count_queued_rows}
use kickd.Queue.Runs.{is_row}
use kickd.Queue.Cancel.{select}

-- status NOT IN ('queued', 'running', 'interrupted')
abbrev pub has_ended : Row → Bool
has_ended r = not (r.status == queued || r.status == running || r.status == interrupted)

pub record Ended : Type 0 where
  pub id : ℕ
  pub event : String
  pub status : Status
  pub exit_code : Option ℤ

abbrev pub as_ended : Row → Ended
as_ended r = record { id = r.id; event = r.event; status = r.status; exit_code = r.exit_code }

abbrev pub is_unfollowed : Row → Bool
is_unfollowed r = r.followed == 0 && has_ended r

unfoldable pub unfollowed_runs : ℕ → M (List Ended)
unfollowed_runs limit =
    statement (λ db. (map as_ended (take limit (filter is_unfollowed db.runs)), db))

abbrev pub is_due : ℕ → Row → Bool
is_due now r = elim r.not_before [ none ↦ true | some t ↦ leb t now ]

-- The condition of QueuedRuns at the time `now`.
abbrev pub is_startable : ℕ → List String → Row → Bool
is_startable now except r = r.status == queued && is_due now r && not (contains except r.event)

unfoldable pub queued_runs : ℕ → ℕ → List String → M (List Run)
queued_runs now limit except =
    statement (λ db. (map scan_run (take limit (filter (is_startable now except) db.runs)), db))

-- MIN over the values that are not NULL; NULL when there is none.
abbrev pub earlier : Option ℕ → Option ℕ → Option ℕ
earlier none b = b
earlier a none = a
earlier (some a) (some b) = some (min a b)

abbrev pub waits : ℕ → Row → Bool
waits now r = r.status == queued && elim r.not_before [ none ↦ false | some t ↦ ltb now t ]

unfoldable pub earliest : List Row → Option ℕ
earliest [] = none
earliest (r ∷ rs) = earlier r.not_before (earliest rs)

unfoldable pub next_not_before : ℕ → M (Option ℕ)
next_not_before now = statement (λ db. (earliest (filter (waits now) db.runs), db))

unfoldable pub count_queued : String → M ℕ
count_queued event = statement (λ db. (count_queued_rows event db.runs, db))

pub record Filter : Type 0 where
  pub event : String
  pub statuses : List Status
  pub limit : ℕ

abbrev pub selects : Filter → Row → Bool
selects f r =
    (f.event == "" || r.event == f.event)
    && (elim f.statuses [ [] ↦ true | s ∷ rest ↦ contains (s ∷ rest) r.status ])

-- Newest first; a limit that is not positive is none.
unfoldable pub list_runs : Filter → M (List Run)
list_runs f = statement (λ db.
    let rows = reverse (filter (selects f) db.runs) in
    (map scan_run (if ltb 0 f.limit then take f.limit rows else rows), db))

unfoldable pub first_or_not_found : List Run → M Run
first_or_not_found [] = raise not_found
first_or_not_found (r ∷ rs) = pure r

unfoldable pub get_run : ℕ → M Run
get_run id = do runs ← statement (select (is_row id)); first_or_not_found runs

unfoldable pub runs_for_request : String → M (List Run)
runs_for_request request_id = statement (select (λ r. r.request_id == request_id))

-- The numbers of queued and of running runs.
unfoldable pub counts : M (ℕ × ℕ)
counts = statement (λ db.
    ((count (λ r. r.status == queued) db.runs, count (λ r. r.status == running) db.runs), db))

-- The condition of Prune's DELETE.
abbrev pub is_prunable : ℕ → Row → Bool
is_prunable before r = (elim r.finished_at [ none ↦ false | some t ↦ ltb t before ]) && has_ended r

unfoldable pub delete_prunable : ℕ → Db → ℕ × Db
delete_prunable before db = (
  count (is_prunable before) db.runs,
  record db { runs = filter (λ r. not (is_prunable before r)) db.runs },
)

unfoldable pub prune : ℕ → M ℕ
prune before = statement (delete_prunable before)
