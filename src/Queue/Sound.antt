-- ===== src/Queue/Sound.antt =====
-- The invariant of the database, and that every call keeps it.
use kickd.Prelude.{
  ℕ, ◌≤◌, ◌≡◌, refl, Bool, true, false, Option, none, some, String, List, [], ◌∷◌, arith, ltb, leb,
  All, All-append, All-filter, nat_eq, ◌==◌,
}
use kickd.Queue.Status.{Status, queued, running}
use kickd.Queue.Row.{Row, Run, Db}
use kickd.Queue.Conn.{Conn}
use kickd.Queue.Conn.Keeps.{
  Keeps, Keeps-statement, Keeps-bind, Keeps-pure, Keeps-raise, Keeps-if, Keeps-transaction,
}
use kickd.Queue.Table.{Ascending, Ascending-append, Ascending-update, Ascending-filter, All-update}
use kickd.Queue.Insert.{
  insert_row, new_row, queue_full, insert_run, enqueue, insert_runs, follow, set_followed,
  mark_followed,
}
use kickd.Queue.Runs.{
  Finish, update, change, execute, is_row, is_queued_row, as_running, as_finished, as_settled,
  one_more_skipped, start_run, finish_run, settle, add_skipped,
}
use kickd.Queue.Cancel.{
  head?, as_canceled, ask_to_stop, cancel_run, found, request_cancel, cancel_runs,
  request_cancel_event,
}
use kickd.Queue.Recovery.{retry_row, as_retried, rerun_text, as_abandoned, coalesce, retry, abandon}
use kickd.Queue.Reads.{delete_prunable, prune}
use kickd.Queue.Agents.{Agent, upsert_agent, heartbeat, agent_stopped, set_last_cron}
use kickd.Queue.Calls.{
  Call, enqueues, follows, starts, finishes, settles, adds_skipped, cancels, cancels_event, retries,
  abandons, prunes, beats, stops, sets_cron, perform, perform_all, closes, IsProper,
}

abbrev pub is_some : Option ℕ → Bool
is_some none = false
is_some (some _) = true

-- A queued run has neither started nor finished, a running one has started and has not finished,
-- and every other run has a time at which it ended.
abbrev pub Shape : Status → Option ℕ → Option ℕ → Type 0
Shape queued started_at finished_at = (started_at ≡ none) × (finished_at ≡ none)
Shape running started_at finished_at = (is_some started_at ≡ true) × (finished_at ≡ none)
Shape _ started_at finished_at = is_some finished_at ≡ true

abbrev pub RowIsSound : Row → Type 0
RowIsSound r = Shape r.status r.started_at r.finished_at × (1 ≤ r.attempt)

-- Ids are distinct, grow in the order of insertion and stay below the next one.
pub record IsSound (db : Db) : Type 0 where
  pub ordered : Ascending 1 db.runs db.next_id
  pub shaped : All RowIsSound db.runs

update-IsSound :
    (p : Row → Bool) (f : Row → Row)
    → ((r : Row) → (f r).id ≡ r.id)
    → ((r : Row) → p r ≡ true → RowIsSound r → RowIsSound (f r))
    → (db : Db) → IsSound db
    → IsSound (update p f db).1
unfolding update
update-IsSound p f same keep db s = record {
  ordered = Ascending-update p f same 1 db.runs db.next_id s.ordered;
  shaped = All-update RowIsSound p f db.runs keep s.shaped;
}

insert_row-IsSound :
    (row : ℕ → Row)
    → ((id : ℕ) → (row id).id ≡ id)
    → ((id : ℕ) → RowIsSound (row id))
    → (db : Db) → IsSound db
    → IsSound (insert_row row db).1
unfolding insert_row
insert_row-IsSound row same sound db s = record {
  ordered = Ascending-append 1 db.runs db.next_id (row db.next_id) (same db.next_id) s.ordered;
  shaped = All-append RowIsSound db.runs (row db.next_id ∷ []) s.shaped (sound db.next_id, tt);
}

new_row-RowIsSound : (now : ℕ) (r : Run) (full : Bool) (id : ℕ) → RowIsSound (new_row now r full id)
unfolding new_row
new_row-RowIsSound now r full id = ground arith

new_row-id : (now : ℕ) (r : Run) (full : Bool) (id : ℕ) → (new_row now r full id).id ≡ id
unfolding new_row
new_row-id now r full id = refl

queue_full-Keeps : (P : Db → Type 0) (r : Run) (max_queued : ℕ) → Keeps P (queue_full r max_queued)
unfolding queue_full
queue_full-Keeps P r max_queued =
    Keeps-if (ltb 0 max_queued) _ _
      (Keeps-bind _ _ (Keeps-statement _ (λ db h. h)) (λ n. Keeps-pure (leb max_queued n)))
      (Keeps-pure false)

insert_run-IsSound :
    (now : ℕ) (r : Run) (max_queued : ℕ) → Keeps IsSound (insert_run now r max_queued)
unfolding insert_run
insert_run-IsSound now r max_queued = Keeps-bind _ _ (queue_full-Keeps IsSound r max_queued) λ full.
    Keeps-bind _ _
      (Keeps-statement _ (
        insert_row-IsSound (new_row now r full) (new_row-id now r full)
          (new_row-RowIsSound now r full)))
      (λ id. Keeps-pure (id, full))

enqueue-IsSound : (now : ℕ) (r : Run) (max_queued : ℕ) → Keeps IsSound (enqueue now r max_queued)
unfolding enqueue
enqueue-IsSound now r max_queued = Keeps-transaction _ (insert_run-IsSound now r max_queued)

insert_runs-IsSound : (now : ℕ) (runs : List (Run × ℕ)) → Keeps IsSound (insert_runs now runs)
unfolding insert_runs
insert_runs-IsSound now [] = Keeps-pure []
insert_runs-IsSound now ((r, max_queued) ∷ rest) =
    Keeps-bind _ _ (insert_run-IsSound now r max_queued)
      λ first. Keeps-bind _ _ (insert_runs-IsSound now rest) (λ others. Keeps-pure (first ∷ others))

set_followed-IsSound : (id : ℕ) (db : Db) → IsSound db → IsSound (set_followed id db).1
unfolding set_followed
set_followed-IsSound id db s =
    unfold update in update-IsSound (λ r. r.id == id) mark_followed (λ r. refl) (λ r hit h. h) db s

follow-IsSound : (now id : ℕ) (runs : List (Run × ℕ)) → Keeps IsSound (follow now id runs)
unfolding follow
follow-IsSound now id runs = Keeps-transaction _ (
    Keeps-bind _ _ (insert_runs-IsSound now runs) λ inserted.
      Keeps-bind _ _ (Keeps-statement _ (set_followed-IsSound id)) (λ _. Keeps-pure inserted))

-- The guarded and the unguarded updates.
change-IsSound :
    (p : Row → Bool) (f : Row → Row)
    → ((r : Row) → (f r).id ≡ r.id)
    → ((r : Row) → p r ≡ true → RowIsSound r → RowIsSound (f r))
    → Keeps IsSound (change p f)
unfolding change
change-IsSound p f same keep =
    Keeps-bind _ _ (Keeps-statement _ (update-IsSound p f same keep)) (λ n. Keeps-pure (n == 1))

execute-IsSound :
    (p : Row → Bool) (f : Row → Row)
    → ((r : Row) → (f r).id ≡ r.id)
    → ((r : Row) → p r ≡ true → RowIsSound r → RowIsSound (f r))
    → Keeps IsSound (execute p f)
execute-IsSound p f same keep =
    Keeps-bind _ _ (Keeps-statement _ (update-IsSound p f same keep)) (λ n. Keeps-pure tt)

start_run-IsSound : (id at : ℕ) → Keeps IsSound (start_run id at)
unfolding start_run
start_run-IsSound id at =
    change-IsSound (is_queued_row id) (as_running at) (λ r. refl) (λ r hit h. started r hit h)
  where
    started : (r : Row) → is_queued_row id r ≡ true → RowIsSound r → RowIsSound (as_running at r)
    started r hit h = ground arith

finish_run-IsSound :
    (now id : ℕ) (f : Finish) → closes f.status ≡ true → Keeps IsSound (finish_run now id f)
unfolding finish_run
finish_run-IsSound now id f c =
    execute-IsSound (is_row id) (as_finished now f) (λ r. refl) (λ r hit h. finished r h)
  where
    finished : (r : Row) → RowIsSound r → RowIsSound (as_finished now f r)
    finished r h = ground arith

settle-IsSound :
    (now id : ℕ) (s : Status) (reason detail : String)
    → closes s ≡ true
    → Keeps IsSound (settle now id s reason detail)
unfolding settle
settle-IsSound now id s reason detail c =
    change-IsSound (is_queued_row id) (as_settled now s reason detail) (λ r. refl)
      (λ r hit h. settled r h)
  where
    settled : (r : Row) → RowIsSound r → RowIsSound (as_settled now s reason detail r)
    settled r h = ground arith

add_skipped-IsSound : (id : ℕ) → Keeps IsSound (add_skipped id)
unfolding add_skipped
add_skipped-IsSound id = execute-IsSound (is_row id) one_more_skipped (λ r. refl) (λ r hit h. h)

cancel_run-IsSound : (now : ℕ) (r : Run) (s : Status) → Keeps IsSound (cancel_run now r s)
unfolding cancel_run
cancel_run-IsSound now r queued =
    Keeps-bind _ _
      (Keeps-statement _
        (update-IsSound (is_row r.id) (as_canceled now) (λ r. refl) (λ r hit h. (refl, h.1))))
      (λ n. Keeps-pure _)
cancel_run-IsSound now r running =
    Keeps-bind _ _
      (Keeps-statement _ (update-IsSound (is_row r.id) ask_to_stop (λ r. refl) (λ r hit h. h)))
      (λ n. Keeps-pure _)
cancel_run-IsSound now r _ = Keeps-pure r

found-IsSound : (o : Option Run) → Keeps IsSound (found o)
unfolding found
found-IsSound none = Keeps-raise _
found-IsSound (some r) = Keeps-pure r

request_cancel-IsSound : (now id : ℕ) → Keeps IsSound (request_cancel now id)
unfolding request_cancel
request_cancel-IsSound now id = Keeps-transaction _ (
    Keeps-bind _ _ (Keeps-statement _ (λ db h. h))
      λ runs. Keeps-bind _ _ (found-IsSound (head? runs)) (λ r. cancel_run-IsSound now r r.status))

cancel_runs-IsSound : (now : ℕ) (runs : List Run) → Keeps IsSound (cancel_runs now runs)
unfolding cancel_runs
cancel_runs-IsSound now [] = Keeps-pure []
cancel_runs-IsSound now (r ∷ rest) =
    Keeps-bind _ _ (cancel_run-IsSound now r r.status)
      λ first. Keeps-bind _ _ (cancel_runs-IsSound now rest) (λ others. Keeps-pure (first ∷ others))

request_cancel_event-IsSound :
    (now : ℕ) (event : String) → Keeps IsSound (request_cancel_event now event)
unfolding request_cancel_event
request_cancel_event-IsSound now event =
    Keeps-transaction _
      (Keeps-bind _ _ (Keeps-statement _ (λ db h. h)) (λ runs. cancel_runs-IsSound now runs))

retry_row-RowIsSound :
    (now : ℕ) (r : Run) (payload : String) (id : ℕ) → RowIsSound (retry_row now r payload id)
unfolding retry_row
retry_row-RowIsSound now r payload id = ((refl, refl), omega arith)

retry_row-id :
    (now : ℕ) (r : Run) (payload : String) (id : ℕ) → (retry_row now r payload id).id ≡ id
unfolding retry_row
retry_row-id now r payload id = refl

is_some-coalesce : (o : Option ℕ) (now : ℕ) → is_some (coalesce o now) ≡ true
is_some-coalesce none now = refl
is_some-coalesce (some t) now = refl

retry-IsSound :
    (now : ℕ) (r : Run) (payload reason : String) → Keeps IsSound (retry now r payload reason)
unfolding retry
retry-IsSound now r payload reason = Keeps-transaction _ (
    Keeps-bind _ _
      (Keeps-statement _ (
        insert_row-IsSound (retry_row now r payload) (retry_row-id now r payload)
          (retry_row-RowIsSound now r payload)))
      λ id.
        Keeps-bind _ _
          (Keeps-statement _ (
            update-IsSound (is_row r.id) (as_retried now reason (rerun_text id)) (λ x. refl)
              (λ x hit h. (is_some-coalesce x.finished_at now, h.1))))
          (λ _. Keeps-pure id))

abandon-IsSound : (now id : ℕ) (reason : String) → Keeps IsSound (abandon now id reason)
unfolding abandon
abandon-IsSound now id reason =
    execute-IsSound (is_row id) (as_abandoned now reason) (λ r. refl)
      (λ r hit h. (is_some-coalesce r.finished_at now, h.1))

prune-IsSound : (before : ℕ) → Keeps IsSound (prune before)
unfolding prune
prune-IsSound before = Keeps-statement _ λ db s.
    unfold delete_prunable in
    record {
      ordered = Ascending-filter _ 1 db.runs db.next_id s.ordered;
      shaped = All-filter RowIsSound _ db.runs s.shaped;
    }

-- The tables agent and cron_state are no part of the invariant.
same_runs-IsSound :
    (db db' : Db) → db'.runs ≡ db.runs → db'.next_id ≡ db.next_id → IsSound db → IsSound db'
same_runs-IsSound db db' e f s = record { ordered = rw (e, f) s.ordered; shaped = rw e s.shaped }

heartbeat-IsSound : (now : ℕ) (a : Agent) → Keeps IsSound (heartbeat now a)
unfolding heartbeat upsert_agent
heartbeat-IsSound now a = Keeps-statement _ (λ db s. same_runs-IsSound db _ refl refl s)

agent_stopped-IsSound : (now : ℕ) → Keeps IsSound (agent_stopped now)
unfolding agent_stopped
agent_stopped-IsSound now = Keeps-statement _ (λ db s. same_runs-IsSound db _ refl refl s)

set_last_cron-IsSound : (key : String) (at : ℕ) → Keeps IsSound (set_last_cron key at)
unfolding set_last_cron
set_last_cron-IsSound key at = Keeps-statement _ (λ db s. same_runs-IsSound db _ refl refl s)

perform-IsSound :
    (call : Call) (c : Conn) → IsProper call → IsSound c.db → IsSound (perform call c).db
unfolding perform
perform-IsSound (enqueues now r max_queued) c h s = (enqueue-IsSound now r max_queued).at c s
perform-IsSound (follows now id runs) c h s = (follow-IsSound now id runs).at c s
perform-IsSound (starts id at) c h s = (start_run-IsSound id at).at c s
perform-IsSound (finishes now id f) c h s = (finish_run-IsSound now id f h).at c s
perform-IsSound (settles now id st reason detail) c h s =
    (settle-IsSound now id st reason detail h).at c s
perform-IsSound (adds_skipped id) c h s = (add_skipped-IsSound id).at c s
perform-IsSound (cancels now id) c h s = (request_cancel-IsSound now id).at c s
perform-IsSound (cancels_event now event) c h s = (request_cancel_event-IsSound now event).at c s
perform-IsSound (retries now r payload reason) c h s = (retry-IsSound now r payload reason).at c s
perform-IsSound (abandons now id reason) c h s = (abandon-IsSound now id reason).at c s
perform-IsSound (prunes before) c h s = (prune-IsSound before).at c s
perform-IsSound (beats now a) c h s = (heartbeat-IsSound now a).at c s
perform-IsSound (stops now) c h s = (agent_stopped-IsSound now).at c s
perform-IsSound (sets_cron key at) c h s = (set_last_cron-IsSound key at).at c s

-- Every history of calls, whichever of their statements fail, keeps the database sound: the ids are
-- distinct and grow in the order of insertion, and the times of a row fit its status. The calls to
-- FinishRun and Settle must give a status that ends the run or cuts it off.
pub perform_all-IsSound :
    (calls : List Call) (c : Conn)
    → All IsProper calls
    → IsSound c.db
    → IsSound (perform_all calls c).db
unfolding perform_all
perform_all-IsSound [] c h s = s
perform_all-IsSound (call ∷ rest) c h s =
    perform_all-IsSound rest (perform call c) h.1 (perform-IsSound call c h.0 s)
