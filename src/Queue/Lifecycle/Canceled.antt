-- ===== src/Queue/Lifecycle/Canceled.antt =====
-- RequestCancel and RequestCancelEvent read the status in the transaction that writes: so they
-- cancel only runs that were queued, and the runs that they ask to stop keep their status.
use kickd.Prelude.{
  ℕ, ◌≡◌, refl, Bool, true, some, String, List, [], ◌∷◌, arith, filter, map, nat_eq, All, All-map,
  All-filter,
}
use kickd.Queue.Status.{Status, queued, running, canceled}
use kickd.Queue.Row.{Row, Run, Db, scan_run}
use kickd.Queue.Conn.{◌>>=◌, statement}
use kickd.Queue.Conn.Keeps.{
  Keeps, Keeps-statement, Keeps-bind, Keeps-pure, Keeps-raise, Keeps-transaction, Keeps-read,
}
use kickd.Queue.Table.{found_at, find_row}
use kickd.Queue.Runs.{update, is_row}
use kickd.Queue.Cancel.{
  head?, as_canceled, ask_to_stop, cancel_run, found, request_cancel, cancel_runs, is_open_of,
  request_cancel_event,
}
use kickd.Queue.Lifecycle.{reaches, reaches_refl, Evolves, Evolves-trans}
use kickd.Queue.Lifecycle.Steps.{update-Evolves}
use kickd.Queue.Lifecycle.Kept.{May, May-Evolves}
use kickd.Queue.Lifecycle.Unguarded.{May-update}

-- The run `r`, if it was read as queued, can still be canceled.
abbrev Cancelable : Db → Run → Type 0
Cancelable db r = r.status ≡ queued → May r.id canceled db

abbrev Read : Db → List Run → Db → Type 0
Read old runs db = Evolves old db × All (Cancelable db) runs

-- So what a SELECT reads in a transaction fits the rows that the updates after it meet.
read-Cancelable :
    (db : Db) (rows : List Row)
    → All (λ r. find_row r.id db.runs ≡ some r) rows
    → All (Cancelable db) (map scan_run rows)
unfolding scan_run
read-Cancelable db [] h = tt
read-Cancelable db (r ∷ rs) h = (here, read-Cancelable db rs h.1)
  where
    here : Cancelable db (scan_run r)
    here q x e = let same : x ≡ r = ground (arith, h.0) in rw (same, q) refl

module _ (old : Db) (p : Row → Bool) where
  abbrev read : Db → List Run
  read db = map scan_run (filter p db.runs)

  selected : (db : Db) → Evolves old db → Read old (read db) db
  selected db e = (
    e,
    read-Cancelable db (filter p db.runs) (
        All-filter (λ r. find_row r.id db.runs ≡ some r) p db.runs
          (found_at 1 db.runs db.next_id e.ordered_new)),
  )

module _ (old : Db) where
  -- An update that cancels or keeps the status leaves the runs that were read cancelable.
  update-Cancelable :
      (p : Row → Bool) (f : Row → Row)
      → ((r : Row) → (f r).id ≡ r.id)
      → ((r : Row) → reaches r.status canceled ≡ true → reaches (f r).status canceled ≡ true)
      → (db : Db) (runs : List Run) → All (Cancelable db) runs
      → All (Cancelable (update p f db).1) runs
  update-Cancelable p f same keep db =
      All-map (Cancelable db) (Cancelable (update p f db).1)
        (λ r h q. May-update r.id canceled p f same keep db (h q))

  cancel_run-Read :
      (now : ℕ) (r : Run) (s : Status) (runs : List Run)
      → ((db : Db) → Read old runs db → s ≡ queued → May r.id canceled db)
      → Keeps (Read old runs) (cancel_run now r s)
  unfolding cancel_run
  cancel_run-Read now r queued runs may = Keeps-bind _ _ canceling (λ n. Keeps-pure _)
    where
      canceling : Keeps (Read old runs) (statement (update (is_row r.id) (as_canceled now)))
      canceling = Keeps-statement _ λ db h. (
        May-Evolves old r.id canceled (as_canceled now) (λ x. refl) (λ x. refl) (λ x. refl)
            (λ x. refl) db (may db h refl) h.0,
        update-Cancelable (is_row r.id) (as_canceled now) (λ x. refl) (λ x _. refl) db runs h.1,
      )
  cancel_run-Read now r running runs may = Keeps-bind _ _ asking (λ n. Keeps-pure _)
    where
      asking : Keeps (Read old runs) (statement (update (is_row r.id) ask_to_stop))
      asking = Keeps-statement _ λ db h. (
        Evolves-trans h.0 (
            update-Evolves (is_row r.id) ask_to_stop (λ x. refl) db
              (λ i x _ _. record {
                status = reaches_refl x.status;
                same_firing = refl;
                handed = λ h. h;
              })
              h.0.ordered_new),
        update-Cancelable (is_row r.id) ask_to_stop (λ x. refl) (λ x k. k) db runs h.1,
      )
  cancel_run-Read now r _ runs may = Keeps-pure r

  cancel_first-Read :
      (now : ℕ) (runs : List Run)
      → Keeps (Read old runs) (do r ← found (head? runs); cancel_run now r r.status)
  unfolding found
  cancel_first-Read now [] = Keeps-bind _ _ (Keeps-raise _) (λ r. Keeps-pure r)
  cancel_first-Read now (r ∷ rs) = cancel_run-Read now r r.status (r ∷ rs) (λ db h q. h.1.0 q)

  cancel_runs-Read :
      (now : ℕ) (runs rest : List Run)
      → ((db : Db) → Read old runs db → All (Cancelable db) rest)
      → Keeps (Read old runs) (cancel_runs now rest)
  unfolding cancel_runs
  cancel_runs-Read now runs [] may = Keeps-pure []
  cancel_runs-Read now runs (r ∷ rest) may =
      Keeps-bind _ _ (cancel_run-Read now r r.status runs (λ db h q. (may db h).0 q)) λ first.
        Keeps-bind _ _ (cancel_runs-Read now runs rest (λ db h. (may db h).1))
          (λ others. Keeps-pure (first ∷ others))

  pub request_cancel-Keeps : (now id : ℕ) → Keeps (Evolves old) (request_cancel now id)
  unfolding request_cancel
  request_cancel-Keeps now id = Keeps-transaction _ (
      Keeps-read (λ at. Read old (read old (is_row id) at)) (read old (is_row id)) _
        (selected old (is_row id)) (λ at db h. h.0)
        (λ db e. cancel_first-Read now (read old (is_row id) db)))

  pub request_cancel_event-Keeps :
      (now : ℕ) (event : String) → Keeps (Evolves old) (request_cancel_event now event)
  unfolding request_cancel_event
  request_cancel_event-Keeps now event = Keeps-transaction _ (
      Keeps-read (λ at. Read old (read old (is_open_of event) at)) (read old (is_open_of event)) _
        (selected old (is_open_of event)) (λ at db h. h.0)
        (λ db e. cancel_runs-Read now _ (read old (is_open_of event) db) (λ d h. h.1)))
