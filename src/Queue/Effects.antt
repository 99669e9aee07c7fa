-- ===== src/Queue/Effects.antt =====
-- What the calls of store.go do to the database when they succeed, as functions of it.
use kickd.Prelude.{
  ℕ, suc, ◌≡◌, refl, Bool, true, false, ◌&&◌, if◌then◌else◌, Option, none, some, String, List, [],
  ◌∷◌, arith, ltb, leb, count, inl, inr, Bool-cases, nat_eq, string_eq, ◌==◌,
}
use kickd.Queue.Status.{queued, status_eq}
use kickd.Queue.Row.{Row, Run, Db}
use kickd.Queue.Conn.Does.{Does, Does-statement, Does-pure, Does-bind, Does-transaction}
use kickd.Queue.Table.{Ascending, find_row, find_row_below}
use kickd.Queue.Insert.{
  count_queued_rows, insert_row, new_row, queue_full, insert_run, enqueue, insert_runs,
  set_followed, follow,
}
use kickd.Queue.Runs.{update, change, is_queued_row}
use kickd.Queue.Recovery.{retry_row, as_retried, rerun_text, retry}
use kickd.Queue.Runs.{is_row}

-- Whether a new run of the event of `r` finds the queue full.
abbrev pub is_full : Run → ℕ → Db → Bool
is_full r max_queued db = ltb 0 max_queued && leb max_queued (count_queued_rows r.event db.runs)

abbrev pub enqueued : ℕ → Run → ℕ → Db → (ℕ × Bool) × Db
enqueued now r max_queued db =
    let full = is_full r max_queued db in
    let (id, db') = insert_row (new_row now r full) db in ((id, full), db')

queue_full-Does :
    (r : Run) (max_queued : ℕ)
    → Does (queue_full r max_queued) (λ db. (is_full r max_queued db, db))
unfolding queue_full
queue_full-Does r max_queued = elim (Bool-cases (ltb 0 max_queued)) [
  | inl e ↦ rw e (
      Does-bind _ _ _ _ (Does-statement (λ db. (count_queued_rows r.event db.runs, db)))
        (λ n. Does-pure (leb max_queued n)))
  | inr e ↦ rw e (Does-pure false)
]

pub insert_run-Does :
    (now : ℕ) (r : Run) (max_queued : ℕ)
    → Does (insert_run now r max_queued) (enqueued now r max_queued)
unfolding insert_run
insert_run-Does now r max_queued = Does-bind _ _ _ _ (queue_full-Does r max_queued) λ full.
    Does-bind _ _ _ _ (Does-statement (insert_row (new_row now r full)))
      (λ id. Does-pure (id, full))

pub enqueue-Does :
    (now : ℕ) (r : Run) (max_queued : ℕ)
    → Does (enqueue now r max_queued) (enqueued now r max_queued)
unfolding enqueue
enqueue-Does now r max_queued = Does-transaction _ _ (insert_run-Does now r max_queued)

-- The runs of Follow are inserted one after the other: each counts those before it.
unfoldable pub inserted : ℕ → List (Run × ℕ) → Db → List (ℕ × Bool) × Db
inserted now [] db = ([], db)
inserted now ((r, max_queued) ∷ rest) db =
    let (first, db1) = enqueued now r max_queued db in
    let (others, db2) = inserted now rest db1 in (first ∷ others, db2)

insert_runs-Does :
    (now : ℕ) (runs : List (Run × ℕ)) → Does (insert_runs now runs) (inserted now runs)
unfolding insert_runs inserted
insert_runs-Does now [] = Does-pure []
insert_runs-Does now ((r, max_queued) ∷ rest) =
    Does-bind _ _ _ _ (insert_run-Does now r max_queued)
      λ first. Does-bind _ _ _ _ (insert_runs-Does now rest) (λ others. Does-pure (first ∷ others))

abbrev pub followed_by : ℕ → ℕ → List (Run × ℕ) → Db → List (ℕ × Bool) × Db
followed_by now id runs db = let (ids, db') = inserted now runs db in (ids, (set_followed id db').1)

pub follow-Does :
    (now id : ℕ) (runs : List (Run × ℕ)) → Does (follow now id runs) (followed_by now id runs)
unfolding follow
follow-Does now id runs = Does-transaction _ _ (
    Does-bind _ _ _ _ (insert_runs-Does now runs)
      λ ids. Does-bind _ _ _ _ (Does-statement (set_followed id)) (λ _. Does-pure ids))

pub change-Does :
    (p : Row → Bool) (f : Row → Row)
    → Does (change p f) (λ db. ((update p f db).0 == 1, (update p f db).1))
unfolding change
change-Does p f = Does-bind _ _ _ _ (Does-statement (update p f)) (λ n. Does-pure (n == 1))

pub retry-Does :
    (now : ℕ) (r : Run) (payload reason : String)
    → Does (retry now r payload reason) (λ db.
      let (id, db1) = insert_row (retry_row now r payload) db in
      (id, (update (is_row r.id) (as_retried now reason (rerun_text id)) db1).1))
unfolding retry
retry-Does now r payload reason = Does-transaction _ _ (
    Does-bind _ _ _ _ (Does-statement (insert_row (retry_row now r payload))) λ id.
      Does-bind _ _ _ _
        (Does-statement (update (is_row r.id) (as_retried now reason (rerun_text id))))
        (λ _. Does-pure id))

-- The guarded update changes one row exactly when the run of the id is queued.
unfoldable pub is_queued_at : ℕ → List Row → Bool
is_queued_at id rs = elim (find_row id rs) [ none ↦ false | some r ↦ r.status == queued ]

pub count-queued_row :
    (id lo : ℕ) (rs : List Row) (hi : ℕ)
    → Ascending lo rs hi
    → count (is_queued_row id) rs ≡ (if is_queued_at id rs then 1 else 0)
unfolding count is_queued_at find_row
count-queued_row id lo [] hi a = refl
count-queued_row id lo (r ∷ rs) hi a =
    ground (arith, count-queued_row id (suc r.id) rs hi a.1, find_row_below id (suc r.id) rs hi a.1)

pub is_queued_at-row :
    (id : ℕ) (rs : List Row)
    → is_queued_at id rs ≡ true
    → (r : Row) × (find_row id rs ≡ some r) × (r.status ≡ queued)
unfolding is_queued_at
is_queued_at-row id rs h = go (find_row id rs) refl
  where
    go :
        (o : Option Row)
        → find_row id rs ≡ o
        → (r : Row) × (find_row id rs ≡ some r) × (r.status ≡ queued)
    go none n = absurd (ground arith)
    go (some r) n = (r, n, ground arith)
