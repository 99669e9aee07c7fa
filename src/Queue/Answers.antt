-- ===== src/Queue/Answers.antt =====
-- What the answers of store.go say about the database: a run reads back as it was enqueued, a cancel
-- request acts by the status of the run, and Prune deletes exactly the old ended runs.
use mathlib.Core.Option
use kickd.Prelude.{
  ℕ, ◌≤◌, ◌<◌, ◌≡◌, refl, sym, ◌≢◌, Bool, true, false, not, if◌then◌else◌, Option, none, some, List,
  [], ◌∷◌, arith, filter, map, nat_eq, string_eq, ◌==◌, ◌∙◌, ap, subst,
}
use kickd.Queue.Status.{Status, queued, running, dropped, canceled, status_eq, final}
use kickd.Queue.Row.{Row, Run, Db, scan_run}
use kickd.Queue.Conn.{Conn, ok, ◌>>=◌}
use kickd.Queue.Conn.Does.{Does, Does-statement, Does-pure, Does-raise, Does-bind, Does-transaction}
use kickd.Queue.Table.{
  Ascending, find_row, find_row-id, find_row_above, find_row-append, find_row-filter,
  find_row-update,
}
use kickd.Queue.Insert.{insert_row, new_row, null_id, or_now, enqueue}
use kickd.Queue.Runs.{update, is_row}
use kickd.Queue.Cancel.{head?, select, as_canceled, ask_to_stop, cancel_run, found, request_cancel}
use kickd.Queue.Reads.{has_ended, is_prunable, delete_prunable, prune, first_or_not_found, get_run}
use kickd.Queue.Effects.{is_full, enqueue-Does}

-- The first row that a SELECT by id reads.
head-select :
    (id : ℕ) (rs : List Row)
    → head? (map scan_run (filter (is_row id) rs)) ≡ Option.map scan_run (find_row id rs)
unfolding filter find_row
head-select id [] = refl
head-select id (r ∷ rs) = ground (arith, head-select id rs)

abbrev blank : Run
blank = record {
  id = 0;
  request_id = "";
  event = "";
  trigger = "";
  trigger_id = "";
  source = "";
  payload = "";
  status = queued;
  reason = "";
  detail = "";
  attempt = 0;
  retry_of = 0;
  exit_code = none;
  signal = "";
  output = "";
  output_truncated = false;
  skipped = 0;
  cancel_requested = false;
  created_at = none;
  started_at = none;
  finished_at = none;
  duration = 0;
  not_before = none;
}

abbrev first : List Run → Run
first [] = blank
first (r ∷ rs) = r

get_run-Does :
    (id : ℕ) → Does (get_run id) (λ db. (first (map scan_run (filter (is_row id) db.runs)), db))
unfolding get_run
get_run-Does id = Does-bind _ _ _ _ (Does-statement (select (is_row id))) one
  where
    one : (runs : List Run) → Does (first_or_not_found runs) (λ db. (first runs, db))
    one [] = unfold first_or_not_found in Does-raise _ _
    one (r ∷ rs) = unfold first_or_not_found in Does-pure r

first-head : (runs : List Run) (r : Run) → head? runs ≡ some r → first runs ≡ r
first-head [] r h = cc
first-head (x ∷ xs) r h = ground arith

-- The run that Enqueue records for `r` at the time `now`, under the id that it returns.
abbrev pub recorded : ℕ → Run → ℕ → Bool → Run
recorded now r id is_dropped = record r {
  id = id;
  status = if is_dropped then dropped else queued;
  reason = if is_dropped then "queue_full" else "";
  detail = "";
  attempt = if r.attempt == 0 then 1 else r.attempt;
  exit_code = none;
  signal = "";
  output = "";
  output_truncated = false;
  skipped = 0;
  cancel_requested = false;
  created_at = some (or_now now r.created_at);
  started_at = none;
  finished_at = if is_dropped then some now else none;
  duration = 0;
}

scan-new_row :
    (now : ℕ) (r : Run) (full : Bool) (id : ℕ)
    → scan_run (new_row now r full id) ≡ recorded now r id full
unfolding scan_run new_row null_id
scan-new_row now r full id = ground arith

pub insert_row-id : (row : ℕ → Row) (db : Db) → (insert_row row db).0 ≡ db.next_id
unfolding insert_row
insert_row-id row db = refl

pub find_row-inserted :
    (row : ℕ → Row)
    → ((id : ℕ) → (row id).id ≡ id)
    → (db : Db) (id : ℕ) → Ascending 1 db.runs db.next_id
    → id ≡ db.next_id
    → find_row id (insert_row row db).1.runs ≡ some (row id)
unfolding insert_row
find_row-inserted row same db id a e =
    rw
      (
        find_row-append id db.runs (row db.next_id),
        find_row_above id 1 db.runs db.next_id a (omega arith),
      )
      (ground (arith, same db.next_id))

-- What Enqueue records is what GetRun reads back under the id that it returned, and no row had that
-- id before. So the trigger, the source, the payload, the link to a retried run and the time before
-- which the run does not start survive the database.
pub get-enqueue :
    (now : ℕ) (r : Run) (max_queued : ℕ) (c : Conn) (id : ℕ) (is_dropped : Bool) (x : Run)
    → Ascending 1 c.db.runs c.db.next_id
    → (enqueue now r max_queued c).0 ≡ ok (id, is_dropped)
    → (get_run id (enqueue now r max_queued c).1).0 ≡ ok x
    → (x ≡ recorded now r id is_dropped) × (find_row id c.db.runs ≡ none)
get-enqueue now r max_queued c id is_dropped x a h g =
    let (p, q) = (enqueue-Does now r max_queued).at c (id, is_dropped) h in
    let full = is_full r max_queued c.db in
    let at_next = ap (λ y. y.0) p ∙ insert_row-id (new_row now r full) c.db in
    let stored =
      ap (λ db. find_row id db.runs) q
      ∙ find_row-inserted (new_row now r full) (λ i. unfold new_row in refl) c.db id a at_next in
    let read = ((get_run-Does id).at (enqueue now r max_queued c).1 x g).0 in
    let seen =
      first-head _ _
        (head-select id (enqueue now r max_queued c).1.db.runs ∙ ap (Option.map scan_run) stored) in
    (
      read ∙ seen ∙ scan-new_row now r full id ∙ ap (recorded now r id) (sym (ap (λ y. y.1) p)),
      find_row_above id 1 c.db.runs c.db.next_id a (omega (arith, at_next)),
    )

-- What RequestCancel makes of a row, by its status.
abbrev pub after_cancel : ℕ → Row → Row
after_cancel now r =
    if r.status == queued
    then as_canceled now r
    else if r.status == running
    then ask_to_stop r
    else r

-- The effect of the switch of RequestCancel on the database, and the struct that it returns.
abbrev canceled_as : ℕ → Run → Status → Db → Run × Db
canceled_as now r queued db = (
  record r { status = canceled; reason = "canceled_by_user"; finished_at = some now },
  (update (is_row r.id) (as_canceled now) db).1,
)
canceled_as now r running db =
    (record r { cancel_requested = true }, (update (is_row r.id) ask_to_stop db).1)
canceled_as now r _ db = (r, db)

cancel_run-Does : (now : ℕ) (r : Run) (s : Status) → Does (cancel_run now r s) (canceled_as now r s)
unfolding cancel_run
cancel_run-Does now r queued =
    Does-bind _ _ _ _ (Does-statement (update (is_row r.id) (as_canceled now))) (λ n. Does-pure _)
cancel_run-Does now r running =
    Does-bind _ _ _ _ (Does-statement (update (is_row r.id) ask_to_stop)) (λ n. Does-pure _)
cancel_run-Does now r _ = Does-pure r

-- `other` stands for the answer where no row was read: then the call does not succeed, so any will do.
cancel_first : ℕ → Run → List Run → Db → Run × Db
cancel_first now other [] db = (other, db)
cancel_first now other (r ∷ rs) db = canceled_as now r r.status db

request_cancel-Does :
    (now id : ℕ) (other : Run)
    → Does
        (request_cancel now id)
        (λ db. cancel_first now other (map scan_run (filter (is_row id) db.runs)) db)
unfolding request_cancel
request_cancel-Does now id other =
    Does-transaction _ _ (Does-bind _ _ _ _ (Does-statement (select (is_row id))) one)
  where
    one :
        (runs : List Run)
        → Does (do r ← found (head? runs); cancel_run now r r.status) (cancel_first now other runs)
    one [] = unfold found cancel_first in Does-raise _ _
    one (r ∷ rs) =
        unfold found cancel_first in
        Does-bind _ _ _ _ (Does-pure r) (λ x. cancel_run-Does now x x.status)

-- An update of the row of one id, seen by id.
update-row :
    (id : ℕ) (f : Row → Row) (x : Row) (db : Db)
    → ((r : Row) → (f r).id ≡ r.id)
    → find_row id db.runs ≡ some x
    → (find_row id (update (is_row id) f db).1.runs ≡ some (f x))
      × ((j : ℕ)
          → (id == j) ≡ false
          → find_row j (update (is_row id) f db).1.runs ≡ find_row j db.runs)
unfolding update
update-row id f x db same e = (
  rw (find_row-update (is_row id) f same id db.runs, e)
      (ground (arith, find_row-id id db.runs x e)),
  λ j ne. find_row-update (is_row id) f same j db.runs ∙ other j ne (find_row j db.runs) refl,
)
  where
    other :
        (j : ℕ)
        → (id == j) ≡ false
        → (o : Option Row) → find_row j db.runs ≡ o
        → Option.map (λ r. if is_row id r then f r else r) o ≡ o
    other j ne none h = refl
    other j ne (some r) h = ground (arith, find_row-id j db.runs r h)

abbrev CancelsRow : ℕ → ℕ → Row → Db → Run × Db → Type 0
CancelsRow now id x db (r, after) =
    (r ≡ scan_run (after_cancel now x))
    × (find_row id after.runs ≡ some (after_cancel now x))
    × ((j : ℕ) → (id == j) ≡ false → find_row j after.runs ≡ find_row j db.runs)

-- The effect of the switch, seen by id, for the run that was read from the row `x`.
canceled_as-row :
    (now : ℕ) (x : Row) (db : Db) (s : Status)
    → find_row x.id db.runs ≡ some x
    → x.status ≡ s
    → CancelsRow now x.id x db (canceled_as now (scan_run x) s db)
unfolding scan_run
canceled_as-row now x db queued e h =
    let (own, others) = update-row x.id (as_canceled now) x db (λ r. refl) e in
    let is : after_cancel now x ≡ as_canceled now x = ground arith in
    (rw is refl, own ∙ ap some (sym is), others)
canceled_as-row now x db running e h =
    let (own, others) = update-row x.id ask_to_stop x db (λ r. refl) e in
    let is : after_cancel now x ≡ ask_to_stop x = ground arith in
    (rw is refl, own ∙ ap some (sym is), others)
canceled_as-row now x db s e h =
    let is : after_cancel now x ≡ x = ground arith in
    (rw is refl, e ∙ ap some (sym is), λ j ne. refl)

cancel_first-head :
    (now : ℕ) (other : Run) (runs : List Run) (r : Run) (db : Db)
    → head? runs ≡ some r
    → cancel_first now other runs db ≡ canceled_as now r r.status db
unfolding cancel_first
cancel_first-head now other [] r db h = cc
cancel_first-head now other (x ∷ xs) r db h = let e : x ≡ r = ground arith in rw e

cancel_first-none :
    (now : ℕ) (other : Run) (runs : List Run) (db : Db)
    → head? runs ≡ none
    → cancel_first now other runs db ≡ (other, db)
unfolding cancel_first
cancel_first-none now other [] db h = refl
cancel_first-none now other (x ∷ xs) db h = cc

-- A request for a run that is not there does not succeed: whichever struct is put for the missing
-- one, it would be the answer.
not_missing :
    (now id : ℕ) (c : Conn) (r : Run)
    → (request_cancel now id c).0 ≡ ok r
    → find_row id c.db.runs ≢ none
not_missing now id c r h n =
    absurd
      (omega (arith, ap (λ x. x.id) (sym (would_be blank) ∙ would_be (record blank { id = 1 }))))
  where
    would_be : (other : Run) → r ≡ other
    would_be other =
        ((request_cancel-Does now id other).at c r h).0
        ∙ ap (λ x. x.0)
            (cancel_first-none now other _ c.db
              (head-select id c.db.runs ∙ ap (Option.map scan_run) n))

-- RequestCancel succeeds only for a run that the database has: a queued run becomes canceled, a
-- running one is asked to stop and keeps running, and any other stays as it is. No other row
-- changes, and the answer is the row as it is afterwards.
pub request_cancel_lem :
    (now id : ℕ) (c : Conn) (r : Run)
    → (request_cancel now id c).0 ≡ ok r
    → (x : Row) × (find_row id c.db.runs ≡ some x)
      × (r ≡ scan_run (after_cancel now x))
      × (find_row id (request_cancel now id c).1.db.runs ≡ some (after_cancel now x))
      × ((j : ℕ)
          → (id == j) ≡ false
          → find_row j (request_cancel now id c).1.db.runs ≡ find_row j c.db.runs)
request_cancel_lem now id c r h = go (find_row id c.db.runs) refl
  where
    done :
        (x : Row)
        → find_row id c.db.runs ≡ some x
        → CancelsRow now id x c.db (r, (request_cancel now id c).1.db)
    done x e =
        let (p, q) = (request_cancel-Does now id blank).at c r h in
        let chosen =
          cancel_first-head now blank _ (scan_run x) c.db
            (head-select id c.db.runs ∙ ap (Option.map scan_run) e) in
        let own = find_row-id id c.db.runs x e in
        let cancels =
          subst
            (λ k. CancelsRow now k x c.db (canceled_as now (scan_run x) (scan_run x).status c.db))
            own
            (unfold scan_run in
              canceled_as-row now x c.db x.status (ap (λ k. find_row k c.db.runs) own ∙ e) refl) in
        subst (λ y. CancelsRow now id x c.db y)
          (sym (λ i. ((p ∙ ap (λ y. y.0) chosen) i, (q ∙ ap (λ y. y.1) chosen) i))) cancels

    go :
        (o : Option Row)
        → find_row id c.db.runs ≡ o
        → (x : Row) × (find_row id c.db.runs ≡ some x)
          × (r ≡ scan_run (after_cancel now x))
          × (find_row id (request_cancel now id c).1.db.runs ≡ some (after_cancel now x))
          × ((j : ℕ)
              → (id == j) ≡ false
              → find_row j (request_cancel now id c).1.db.runs ≡ find_row j c.db.runs)
    go none e = absurd (not_missing now id c r h e)
    go (some x) e = let (a, b, d) = done x e in (x, e, a, b, d)

has_ended-final : (r : Row) → has_ended r ≡ final r.status
has_ended-final r = ground arith

abbrev survivor : ℕ → Option Row → Option Row
survivor before none = none
survivor before (some x) = if not (is_prunable before x) then some x else none

-- When Prune succeeds, a row is gone exactly when its status is final and it ended before the given
-- time; every other row is as it was, and so is every run that is queued, running or interrupted.
pub prune_exact :
    (before : ℕ) (c : Conn) (n : ℕ) (id : ℕ) (r : Row)
    → Ascending 1 c.db.runs c.db.next_id
    → (prune before c).0 ≡ ok n
    → find_row id c.db.runs ≡ some r
    → let after = find_row id (prune before c).1.db.runs in
      (final r.status ≡ false → after ≡ some r)
      × ((t : ℕ) → r.finished_at ≡ some t → before ≤ t → after ≡ some r)
      × (r.finished_at ≡ none → after ≡ some r)
      × ((t : ℕ) → r.finished_at ≡ some t → t < before → final r.status ≡ true → after ≡ none)
unfolding prune delete_prunable
prune_exact before c n id r a h e =
    let kept =
      ap (λ db. find_row id db.runs) ((Does-statement (delete_prunable before)).at c n h).1
      ∙ find_row-filter (λ x. not (is_prunable before x)) id 1 c.db.runs c.db.next_id a in
    let seen = kept ∙ ap (survivor before) e in
    (
      λ f. seen ∙ ground (arith, has_ended-final r),
      λ t f le. seen ∙ ground arith,
      λ f. seen ∙ ground arith,
      λ t f lt d. seen ∙ ground (arith, has_ended-final r),
    )
