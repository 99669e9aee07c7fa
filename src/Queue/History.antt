-- ===== src/Queue/History.antt =====
-- What holds over every history of calls on the database of store.go.
use mathlib.Core.Option
use kickd.Prelude.{
  zero, ◌||◌, map, take, filter, ℕ, suc, ◌≡◌, refl, sym, ◌≢◌, Bool, true, false, if◌then◌else◌,
  Option, none, some, List, [], ◌∷◌, arith, nat_eq, ◌==◌, ◌∙◌, ap, subst, inl, inr, Bool-cases, All,
  All-map,
}
use kickd.Queue.Status.{Status, queued, running, retried, abandoned, status_eq}
use kickd.Queue.Row.{Row, Run, Db}
use kickd.Queue.Conn.{Conn, ok}
use kickd.Queue.Conn.Does.{Does-statement}
use kickd.Queue.Table.{Ascending, find_row, find_row-id, find_row-update, found_at}
use kickd.Queue.Runs.{update, is_queued_row, as_running, start_run}
use kickd.Queue.Insert.{mark_followed, set_followed, follow}
use kickd.Queue.Agents.{heartbeat, upsert_agent, agent_stopped, set_last_cron}
use kickd.Queue.Reads.{Ended, as_ended, is_unfollowed, unfollowed_runs}
use kickd.Queue.Calls.{
  Call, enqueues, follows, starts, finishes, settles, adds_skipped, cancels, cancels_event, retries,
  abandons, prunes, beats, stops, sets_cron, perform, perform_all,
}
use kickd.Queue.Effects.{
  inserted, follow-Does, change-Does, is_queued_at, is_queued_at-row, count-queued_row,
}
use kickd.Queue.Lifecycle.{reaches, Follows, Evolves, Evolves-refl, Evolves-trans}
use kickd.Queue.Lifecycle.Kept.{
  May, enqueue-Keeps, follow-Keeps, start_run-Keeps, settle-Keeps, add_skipped-Keeps, prune-Keeps,
  same_runs-Keeps,
}
use kickd.Queue.Lifecycle.Unguarded.{finish_run-Ready, abandon-Ready, retry-Ready}
use kickd.Queue.Lifecycle.Canceled.{request_cancel-Keeps, request_cancel_event-Keeps}

-- FinishRun, Retry and Abandon write whatever the status is: their callers call them for a run that
-- can still get the status. Any other call may come at any time.
abbrev pub Allowed : Call → Db → Type 0
Allowed (finishes now id f) db = May id f.status db
Allowed (retries now r payload reason) db = May r.id retried db
Allowed (abandons now id reason) db = May id abandoned db
Allowed _ db = Unit

perform-Evolves :
    (call : Call) (c : Conn)
    → Allowed call c.db
    → Ascending 1 c.db.runs c.db.next_id
    → Evolves c.db (perform call c).db
unfolding perform
perform-Evolves (enqueues now r max_queued) c h a =
    (enqueue-Keeps c.db now r max_queued).at c (Evolves-refl c.db a)
perform-Evolves (follows now id runs) c h a =
    (follow-Keeps c.db now id runs).at c (Evolves-refl c.db a)
perform-Evolves (starts id at) c h a = (start_run-Keeps c.db id at).at c (Evolves-refl c.db a)
perform-Evolves (finishes now id f) c h a =
    ((finish_run-Ready c.db now id f).at c (Evolves-refl c.db a, h)).0
perform-Evolves (settles now id s reason detail) c h a =
    (settle-Keeps c.db now id s reason detail).at c (Evolves-refl c.db a)
perform-Evolves (adds_skipped id) c h a = (add_skipped-Keeps c.db id).at c (Evolves-refl c.db a)
perform-Evolves (cancels now id) c h a =
    (request_cancel-Keeps c.db now id).at c (Evolves-refl c.db a)
perform-Evolves (cancels_event now event) c h a =
    (request_cancel_event-Keeps c.db now event).at c (Evolves-refl c.db a)
perform-Evolves (retries now r payload reason) c h a =
    ((retry-Ready c.db now r payload reason).at c (Evolves-refl c.db a, h)).0
perform-Evolves (abandons now id reason) c h a =
    ((abandon-Ready c.db now id reason).at c (Evolves-refl c.db a, h)).0
perform-Evolves (prunes before) c h a = (prune-Keeps c.db before).at c (Evolves-refl c.db a)
perform-Evolves (beats now g) c h a = heartbeat_keeps
  where
    heartbeat_keeps : Evolves c.db (heartbeat now g c).1.db
    heartbeat_keeps =
        unfold heartbeat upsert_agent in
        (same_runs-Keeps c.db _ (λ db. (refl, refl))).at c (Evolves-refl c.db a)
perform-Evolves (stops now) c h a = stop_keeps
  where
    stop_keeps : Evolves c.db (agent_stopped now c).1.db
    stop_keeps =
        unfold agent_stopped in
        (same_runs-Keeps c.db _ (λ db. (refl, refl))).at c (Evolves-refl c.db a)
perform-Evolves (sets_cron key at) c h a = cron_keeps
  where
    cron_keeps : Evolves c.db (set_last_cron key at c).1.db
    cron_keeps =
        unfold set_last_cron in
        (same_runs-Keeps c.db _ (λ db. (refl, refl))).at c (Evolves-refl c.db a)

-- A history whose calls are allowed when they come.
abbrev pub Careful : List Call → Conn → Type 0
Careful [] c = Unit
Careful (call ∷ rest) c = Allowed call c.db × Careful rest (perform call c)

-- Over any careful history of calls, with any of their statements failing, each row keeps its
-- firing and moves only along the lifecycle of the statuses, a final status stays, and no id is
-- ever given twice, also after its row was pruned.
pub perform_all-Evolves :
    (calls : List Call) (c : Conn)
    → Careful calls c
    → Ascending 1 c.db.runs c.db.next_id
    → Evolves c.db (perform_all calls c).db
unfolding perform_all
perform_all-Evolves [] c h a = Evolves-refl c.db a
perform_all-Evolves (call ∷ rest) c h a =
    let first = perform-Evolves call c h.0 a in
    Evolves-trans first (perform_all-Evolves rest (perform call c) h.1 first.ordered_new)

leaves_queue : (s t : Status) → reaches s t ≡ true → (s == queued) ≡ false → (t == queued) ≡ false
leaves_queue s t h k = ground arith

-- A run that has left the queue is not queued later, nor is another one under its id.
not_queued_later :
    (old new : Db) (id : ℕ) (r : Row)
    → Evolves old new
    → find_row id old.runs ≡ some r
    → (r.status == queued) ≡ false
    → is_queued_at id new.runs ≡ false
unfolding is_queued_at
not_queued_later old new id r e h q = go (find_row id new.runs) refl
  where
    go : (o : Option Row) → find_row id new.runs ≡ o → is_queued_at id new.runs ≡ false
    go none n = rw (n, is_queued_at)
    go (some x) n =
        let d : Follows old.next_id id (some r) (some x) =
          subst (λ o. Follows old.next_id id o (some x)) h
            (subst (λ o. Follows old.next_id id (find_row id old.runs) o) n (e.rows id)) in
        rw (n, is_queued_at) (leaves_queue r.status x.status d.status q)

start_run-queued :
    (id at : ℕ) (c : Conn)
    → Ascending 1 c.db.runs c.db.next_id
    → (start_run id at c).0 ≡ ok true
    → is_queued_at id c.db.runs ≡ true
unfolding start_run update
start_run-queued id at c a h =
    let (p, q) = (change-Does (is_queued_row id) (as_running at)).at c true h in
    ground (arith, count-queued_row id 1 c.db.runs c.db.next_id a)

-- Where a start succeeds, the row is running afterwards.
start_run-running :
    (id at : ℕ) (c : Conn)
    → Ascending 1 c.db.runs c.db.next_id
    → (start_run id at c).0 ≡ ok true
    → (r : Row) × (find_row id (start_run id at c).1.db.runs ≡ some r) × (r.status ≡ running)
start_run-running id at c a h =
    let (x, found, q) = is_queued_at-row id c.db.runs (start_run-queued id at c a h) in
    (as_running at x, ap (λ db. find_row id db.runs) done ∙ changed x found q, refl)
  where
    done : (start_run id at c).1.db ≡ (update (is_queued_row id) (as_running at) c.db).1
    done = unfold start_run in ((change-Does (is_queued_row id) (as_running at)).at c true h).1

    changed :
        (x : Row)
        → find_row id c.db.runs ≡ some x
        → x.status ≡ queued
        → find_row id (update (is_queued_row id) (as_running at) c.db).1.runs
          ≡ some (as_running at x)
    changed x found q =
        unfold update in
        rw (find_row-update (is_queued_row id) (as_running at) (λ r. refl) id c.db.runs, found)
          (ground (arith, find_row-id id c.db.runs x found))

-- However many calls come between, and whichever of their statements fail, a run that StartRun
-- started is never started again: a careful history after a successful start ends in a database
-- where StartRun of the same run does not return true.
pub start_once :
    (id at later : ℕ) (c : Conn) (calls : List Call)
    → Ascending 1 c.db.runs c.db.next_id
    → (start_run id at c).0 ≡ ok true
    → Careful calls (start_run id at c).1
    → (start_run id later (perform_all calls (start_run id at c).1)).0 ≢ ok true
start_once id at later c calls a h careful again =
    let e = perform_all-Evolves calls (start_run id at c).1 careful ordered in
    let (r, found, runs) = start_run-running id at c a h in
    let left = not_queued_later (start_run id at c).1.db _ id r e found (rw runs refl) in
    cc (left, start_run-queued id later _ e.ordered_new again)
  where
    ordered : Ascending 1 (start_run id at c).1.db.runs (start_run id at c).1.db.next_id
    ordered = ((start_run-Keeps c.db id at).at c (Evolves-refl c.db a)).ordered_new

-- A row that has left the queue is not started again.
pub left_queue_not_started :
    (id later : ℕ) (c : Conn) (calls : List Call) (r : Row)
    → Ascending 1 c.db.runs c.db.next_id
    → find_row id c.db.runs ≡ some r
    → (r.status == queued) ≡ false
    → Careful calls c
    → (start_run id later (perform_all calls c)).0 ≢ ok true
left_queue_not_started id later c calls r a found left careful again =
    let e = perform_all-Evolves calls c careful a in
    cc (not_queued_later c.db _ id r e found left, start_run-queued id later _ e.ordered_new again)

pub is_in : ℕ → List Ended → Bool
is_in id [] = false
is_in id (x ∷ xs) = x.id == id || is_in id xs

is_in-take :
    (id limit : ℕ) (rs : List Row)
    → is_in id (map as_ended rs) ≡ false
    → is_in id (map as_ended (take limit rs)) ≡ false
unfolding is_in
is_in-take id zero rs h = refl
is_in-take id (suc limit) [] h = refl
is_in-take id (suc limit) (r ∷ rs) h = ground (arith, is_in-take id limit rs)

-- What UnfollowedRuns selects are rows that were not handed yet.
not_unfollowed :
    (id : ℕ) (rs : List Row)
    → All (λ r. r.id ≡ id → (r.followed == 0) ≡ false) rs
    → is_in id (map as_ended (filter is_unfollowed rs)) ≡ false
unfolding is_in filter
not_unfollowed id [] h = refl
not_unfollowed id (r ∷ rs) h = elim (Bool-cases (is_unfollowed r)) [
  | inl e ↦ rw e (ground (arith, not_unfollowed id rs h.1, h.0))
  | inr e ↦ rw e (not_unfollowed id rs h.1)
]

handed_rows :
    (id : ℕ) (db : Db)
    → Ascending 1 db.runs db.next_id
    → ((r : Row) → find_row id db.runs ≡ some r → (r.followed == 0) ≡ false)
    → All (λ r. r.id ≡ id → (r.followed == 0) ≡ false) db.runs
handed_rows id db a h =
    All-map (λ r. find_row r.id db.runs ≡ some r) (λ r. r.id ≡ id → (r.followed == 0) ≡ false)
      (λ r f e. h r (subst (λ k. find_row k db.runs ≡ some r) e f)) db.runs
      (found_at 1 db.runs db.next_id a)

-- The row `id` of a database, if there is one, was handed to the after triggers.
abbrev pub Handed : ℕ → Db → Type 0
Handed id db = (r : Row) → find_row id db.runs ≡ some r → (r.followed == 0) ≡ false

set_followed-Handed : (id : ℕ) (db : Db) → Handed id (set_followed id db).1
unfolding set_followed
set_followed-Handed id db r found =
    go (find_row id db.runs) refl
      (sym (find_row-update (λ x. x.id == id) mark_followed (λ x. refl) id db.runs) ∙ found)
  where
    go :
        (o : Option Row)
        → find_row id db.runs ≡ o
        → Option.map (λ x. if x.id == id then mark_followed x else x) o ≡ some r
        → (r.followed == 0) ≡ false
    go none e h = cc
    go (some x) e h =
        let same : mark_followed x ≡ r = ground (arith, find_row-id id db.runs x e) in
        rw (← same) refl

-- A successful Follow hands the run, whatever it inserts.
follow-Handed :
    (now id : ℕ) (runs : List (Run × ℕ)) (c : Conn) (ids : List (ℕ × Bool))
    → (follow now id runs c).0 ≡ ok ids
    → Handed id (follow now id runs c).1.db
follow-Handed now id runs c ids h =
    let done = ((follow-Does now id runs).at c ids h).1 in
    subst (Handed id) (sym done) (set_followed-Handed id (inserted now runs c.db).1)

Evolves-Handed :
    (old new : Db) (id : ℕ) (r : Row)
    → Evolves old new
    → find_row id old.runs ≡ some r
    → Handed id old
    → Handed id new
Evolves-Handed old new id r e found h x found' =
    let d : Follows old.next_id id (some r) (some x) =
      subst (λ o. Follows old.next_id id o (some x)) found
        (subst (λ o. Follows old.next_id id (find_row id old.runs) o) found' (e.rows id)) in
    d.handed (h r found)

-- Once Follow of a run has succeeded, no careful history of calls makes UnfollowedRuns return that
-- run again, whatever its limit: the after triggers that follow a run fire once for it.
pub follow_once :
    (now id limit : ℕ) (runs : List (Run × ℕ)) (c : Conn) (ids : List (ℕ × Bool))
    (calls : List Call) (r : Row) (ended : List Ended)
    → Ascending 1 c.db.runs c.db.next_id
    → (follow now id runs c).0 ≡ ok ids
    → find_row id (follow now id runs c).1.db.runs ≡ some r
    → Careful calls (follow now id runs c).1
    → (unfollowed_runs limit (perform_all calls (follow now id runs c).1)).0 ≡ ok ended
    → is_in id ended ≡ false
unfolding unfollowed_runs
follow_once now id limit runs c ids calls r ended a h found careful again =
    let first = (follow-Keeps c.db now id runs).at c (Evolves-refl c.db a) in
    let e = perform_all-Evolves calls (follow now id runs c).1 careful first.ordered_new in
    let handed = Evolves-Handed _ _ id r e found (follow-Handed now id runs c ids h) in
    let last = perform_all calls (follow now id runs c).1 in
    let read =
      (Does-statement (λ db. (map as_ended (take limit (filter is_unfollowed db.runs)), db))).at
        last ended again in
    rw read.0 (taken last.db (handed_rows id last.db e.ordered_new handed))
  where
    taken :
        (db : Db)
        → All (λ x. x.id ≡ id → (x.followed == 0) ≡ false) db.runs
        → is_in id (map as_ended (take limit (filter is_unfollowed db.runs))) ≡ false
    taken db h = is_in-take id limit (filter is_unfollowed db.runs) (not_unfollowed id db.runs h)
