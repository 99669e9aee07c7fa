-- ===== src/Queue/Limits.antt =====
-- The limit on the queued runs of an event, what a new run reads back as, and what Prune deletes.

use kickd.Prelude.{
  ℕ, ◌+◌, ◌≤◌, ◌<◌, ◌≡◌, refl, Bool, true, false, not, ◌&&◌, if◌then◌else◌, String, [], ◌∷◌, arith,
  leb, count, nat_eq, string_eq, ◌==◌, ◌∙◌, ap, count-append, max,
}
use kickd.Queue.Status.{status_eq}
use kickd.Queue.Row.{Run, Db}
use kickd.Queue.Conn.{Conn, ok}
use kickd.Queue.Insert.{is_queued_of, count_queued_rows, insert_row, new_row, enqueue}
use kickd.Queue.Effects.{is_full, enqueued, enqueue-Does}

count-new_row :
    (now : ℕ) (r : Run) (full : Bool) (id : ℕ) (event : String)
    → count (is_queued_of event) (new_row now r full id ∷ [])
      ≡ (if r.event == event && not full then 1 else 0)
unfolding new_row count
count-new_row now r true id event = ground arith
count-new_row now r false id event = ground arith

-- The queued runs of `event` after a new row of the event of `r`.
count-enqueued :
    (now : ℕ) (r : Run) (max_queued : ℕ) (event : String) (db : Db)
    → count_queued_rows event (enqueued now r max_queued db).1.runs
      ≡ count_queued_rows event db.runs
        + (if r.event == event && not (is_full r max_queued db) then 1 else 0)
unfolding count_queued_rows insert_row
count-enqueued now r max_queued event db =
    count-append (is_queued_of event) db.runs
      (new_row now r (is_full r max_queued db) db.next_id ∷ [])
    ∙ ap (λ n. count (is_queued_of event) db.runs + n)
        (count-new_row now r (is_full r max_queued db) db.next_id event)

-- When Enqueue succeeds with a positive limit, the queued runs of the event do not pass the limit,
-- or stay as many as they were; the firing is dropped exactly when they had reached it, and adds
-- one queued run otherwise. The queued runs of every other event stay as many as they were.
pub enqueue_limit :
    (now : ℕ) (r : Run) (max_queued : ℕ) (c : Conn) (id : ℕ) (is_dropped : Bool)
    → 0 < max_queued
    → (enqueue now r max_queued c).0 ≡ ok (id, is_dropped)
    → let before = count_queued_rows r.event c.db.runs in
      let after = (enqueue now r max_queued c).1.db in
      (is_dropped ≡ leb max_queued before)
      × (count_queued_rows r.event after.runs ≡ (if is_dropped then before else before + 1))
      × (count_queued_rows r.event after.runs ≤ max before max_queued)
      × ((event : String)
          → (r.event == event) ≡ false
          → count_queued_rows event after.runs ≡ count_queued_rows event c.db.runs)
enqueue_limit now r max_queued c id is_dropped pos h =
    let (p, q) = (enqueue-Does now r max_queued).at c (id, is_dropped) h in
    let counted = λ (event : String).
      ap (λ (db : Db). count_queued_rows event db.runs) q
      ∙ count-enqueued now r max_queued event c.db in
    let full : is_dropped ≡ is_full r max_queued c.db = ap (λ x. x.1) p in
    let own : (r.event == r.event) ≡ true = (string_eq.decides r.event r.event).1 refl in
    (
      ground (arith, full),
      ground (arith, full, own, counted r.event),
      ground (arith, full, own, counted r.event),
      λ event ne. ground (arith, counted event, ne),
    )
