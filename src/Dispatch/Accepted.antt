-- ===== src/Dispatch/Accepted.antt =====
-- What submit promises a caller whose firing it reports as queued.
use kickd.Prelude.{
  ℕ, ◌≡◌, refl, Bool, true, false, String, Option, none, some, List, [], ◌∷◌, ap, ◌∙◌, sym, arith,
  nat_eq, string_eq, ◌==◌, if◌then◌else◌, Bool-cases, inl, inr,
}
use kickd.Prelude.Map.{lookup, insert, lookup-insert}
use kickd.Queue.Status.{queued}
use kickd.Queue.Row.{Row, Run, Db}
use kickd.Queue.Conn.{Result, ok, err, Conn}
use kickd.Queue.Table.{Ascending, find_row, find_row_above}
use kickd.Queue.Insert.{enqueue, new_row}
use kickd.Queue.Effects.{is_full, enqueued, enqueue-Does}
use kickd.Queue.Answers.{find_row-inserted, insert_row-id}
use kickd.Event.{Event, Codec, DispatchStatus}
use kickd.Event
use kickd.Dispatch.Spec.{Spec}
use kickd.Dispatch.State.{Dispatcher, World, take_id, new_id}
use kickd.Dispatch.Finish.{run_for, queue_limit}
use kickd.Dispatch.Submit.{
  Submitted, fill_id, complete, queued_answer, submit_payload, submit_known, submit,
}

-- A queued row of the event that the database did not have, an awake loop, and a waiter where one
-- was asked for.
pub record IsQueued (name : String) (wait : Bool) (old : Db) (id : ℕ) (w : World) : Type 0 where
  pub row : Row
  pub is_found : find_row id w.conn.db.runs ≡ some row
  pub is_queued : row.status ≡ queued
  pub is_named : row.event ≡ name
  pub is_new : find_row id old.runs ≡ none
  pub is_awake : w.d.wake ≡ true
  pub is_waiting : wait ≡ true → lookup id w.d.waiters ≡ some true

record Answers (name : String) (wait : Bool) (old : Db) (x : Submitted × World) : Type 0 where
  at : x.0.status ≡ Event.queued → IsQueued name wait old x.0.id x.1

not_queued : {A : Type 0} → Event.dropped ≡ Event.queued → A
not_queued h = absurd (cc)

-- The row that an Enqueue which drops nothing has added.
found_queued :
    (now : ℕ) (r : Run) (max_queued : ℕ) (db : Db)
    → Ascending 1 db.runs db.next_id
    → (enqueued now r max_queued db).0.1 ≡ false
    → find_row db.next_id (enqueued now r max_queued db).1.runs
      ≡ some (new_row now r false db.next_id)
found_queued now r max_queued db a h =
    find_row-inserted (new_row now r (is_full r max_queued db)) (λ i. unfold new_row in refl) db
      db.next_id a refl
    ∙ ap (λ full. some (new_row now r full db.next_id)) h

waiting :
    (wait : Bool) (id : ℕ) (d : Dispatcher)
    → wait ≡ true
    → lookup id (if wait then record d { waiters = insert id true d.waiters } else d).waiters
      ≡ some true
waiting true id d h = lookup-insert id id true d.waiters ∙ ground (arith, nat_eq.decides id id)
waiting false id d h = absurd (cc)

module _ (name : String) (wait : Bool) (old : Db)
    (ascending : Ascending 1 old.runs old.next_id) where
  queued_answer-Answers :
      (now : ℕ) (r : Run) (max_queued : ℕ) (w : World)
      → r.event ≡ name
      → w.conn.db ≡ old
      → Answers name wait old (
          queued_answer wait (
            (enqueue now r max_queued w.conn).0,
            record w { conn = (enqueue now r max_queued w.conn).1 },
          ))
  queued_answer-Answers now r max_queued w named same =
      go (enqueue now r max_queued w.conn) ((enqueue-Does now r max_queued).at w.conn)
    where
      go :
          (x : Result (ℕ × Bool) × Conn)
          → ((a : ℕ × Bool)
              → x.0 ≡ ok a
              → (a ≡ (enqueued now r max_queued w.conn.db).0)
                × (x.1.db ≡ (enqueued now r max_queued w.conn.db).1))
          → Answers name wait old (queued_answer wait (x.0, record w { conn = x.1 }))
      go (err e, c) does = unfold queued_answer in record { at = not_queued }
      go (ok (id, true), c) does = unfold queued_answer in record { at = not_queued }
      go (ok (id, false), c) does =
          unfold queued_answer in
          record {
            at = λ _.
                let (p, q) = does (id, false) refl in
                let at_next = ap (λ y. y.0) p ∙ unfold_id ∙ ap (λ (db : Db). db.next_id) same in
                record {
                  row = new_row now r false old.next_id;
                  is_found =
                      ap (λ (db : Db). find_row id db.runs) q
                      ∙ ap (λ (db : Db). find_row id (enqueued now r max_queued db).1.runs) same
                      ∙ ap (λ i. find_row i (enqueued now r max_queued old).1.runs) at_next
                      ∙ found_queued now r max_queued old ascending (
                          ap (λ (db : Db). (enqueued now r max_queued db).0.1) (sym same)
                          ∙ sym (ap (λ y. y.1) p));
                  is_queued = unfold new_row in refl;
                  is_named = unfold new_row in named;
                  is_new =
                      find_row_above id 1 old.runs old.next_id ascending (omega (arith, at_next));
                  is_awake = refl;
                  is_waiting = waiting wait id w.d;
                };
          }
        where
          unfold_id : (enqueued now r max_queued w.conn.db).0.0 ≡ w.conn.db.next_id
          unfold_id = insert_row-id _ w.conn.db

  submit_known-Answers :
      (codec : Codec) (ev : Event) (w : World) (spec : Option Spec)
      → w.conn.db ≡ old
      → Answers name wait old (submit_known codec name ev wait w spec)
  unfolding submit_known
  submit_known-Answers codec ev w none same = record { at = not_queued }
  submit_known-Answers codec ev w (some spec) same =
      go (codec.marshal (complete name spec w.now ev))
    where
      go :
          (payload : Option String)
          → Answers name wait old (submit_payload spec (complete name spec w.now ev) wait w payload)
      go none = unfold submit_payload in record { at = not_queued }
      go (some payload) =
          unfold submit_payload in
          queued_answer-Answers w.now (run_for (complete name spec w.now ev) payload none)
            (queue_limit spec.concurrency) w refl same

db-take_id : (ids : List String) (w : World) → (take_id ids w).1.conn.db ≡ w.conn.db
unfolding take_id
db-take_id [] w = refl
db-take_id (id ∷ rest) w = refl

db-fill_id : (ev : Event) (w : World) → (fill_id ev w).1.conn.db ≡ w.conn.db
unfolding fill_id new_id
db-fill_id ev w = elim (Bool-cases (ev.request_id == "")) [
  | inl e ↦ rw e (db-take_id w.new_ids w)
  | inr e ↦ rw e refl
]

-- When submit reports that a firing is queued, the database has a queued row of the named event
-- under the id that submit returned, which it did not have before; the loop is woken; and a caller
-- that asked to wait is registered for that id.
pub submit_queued :
    (codec : Codec) (name : String) (ev : Event) (wait : Bool) (w : World)
    → Ascending 1 w.conn.db.runs w.conn.db.next_id
    → (submit codec name ev wait w).0.status ≡ Event.queued
    → IsQueued name wait w.conn.db
        (submit codec name ev wait w).0.id
        (submit codec name ev wait w).1
unfolding submit
submit_queued codec name ev wait w a h =
    (submit_known-Answers name wait w.conn.db a codec (fill_id ev w).0 (fill_id ev w).1
        (lookup name (fill_id ev w).1.d.specs) (db-fill_id ev w)).at
      h
