-- ===== src/Queue/Lifecycle/Kept.antt =====
-- Each call of store.go evolves the database from any earlier one. `May id s` is what a caller has
-- to see to before an update without a guard on the status.

use kickd.Prelude.{
  ℕ, ◌≡◌, refl, Bool, true, false, some, String, List, [], ◌∷◌, arith, ltb, leb, nat_eq,
  nat_beq-decides, ◌==◌, ◌∙◌, sym,
}
use kickd.Queue.Status.{Status, running}
use kickd.Queue.Row.{Row, Run, Db}
use kickd.Queue.Conn.{statement}
use kickd.Queue.Conn.Keeps.{
  Keeps, Keeps-statement, Keeps-bind, Keeps-pure, Keeps-if, Keeps-transaction,
}
use kickd.Queue.Table.{find_row, find_row-id}
use kickd.Queue.Insert.{
  insert_row, new_row, queue_full, insert_run, enqueue, insert_runs, follow, set_followed,
  mark_followed,
}
use kickd.Queue.Runs.{
  update, change, is_row, is_queued_row, as_running, as_settled, one_more_skipped, start_run,
  settle, add_skipped,
}
use kickd.Queue.Reads.{delete_prunable, prune}
use kickd.Queue.Lifecycle.{reaches, reaches_refl, firing, Descends, Evolves, Evolves-trans}
use kickd.Queue.Lifecycle.Steps.{update-Evolves, insert_row-Evolves, filter-Evolves, Keeps-update}

-- The row of the id, if there is one, can still get the status `s`.
abbrev pub May : ℕ → Status → Db → Type 0
May id s db = (r : Row) → find_row id db.runs ≡ some r → reaches r.status s ≡ true

queued_reaches :
    (r : Row) (id : ℕ) (s : Status) → is_queued_row id r ≡ true → reaches r.status s ≡ true
queued_reaches r id s hit = ground arith

module _ (old : Db) where
  pub insert_row-Keeps :
      (row : ℕ → Row)
      → ((id : ℕ) → (row id).id ≡ id)
      → Keeps (Evolves old) (statement (insert_row row))
  insert_row-Keeps row same =
      Keeps-statement _ (λ db e. Evolves-trans e (insert_row-Evolves row same db e.ordered_new))

  queue_full-Keeps : (r : Run) (max_queued : ℕ) → Keeps (Evolves old) (queue_full r max_queued)
  unfolding queue_full
  queue_full-Keeps r max_queued =
      Keeps-if (ltb 0 max_queued) _ _
        (Keeps-bind _ _ (Keeps-statement _ (λ db h. h)) (λ n. Keeps-pure (leb max_queued n)))
        (Keeps-pure false)

  insert_run-Keeps :
      (now : ℕ) (r : Run) (max_queued : ℕ) → Keeps (Evolves old) (insert_run now r max_queued)
  unfolding insert_run new_row
  insert_run-Keeps now r max_queued = Keeps-bind _ _ (queue_full-Keeps r max_queued) λ full.
      Keeps-bind _ _ (insert_row-Keeps (new_row now r full) (λ id. refl))
        (λ id. Keeps-pure (id, full))

  pub enqueue-Keeps :
      (now : ℕ) (r : Run) (max_queued : ℕ) → Keeps (Evolves old) (enqueue now r max_queued)
  unfolding enqueue
  enqueue-Keeps now r max_queued = Keeps-transaction _ (insert_run-Keeps now r max_queued)

  insert_runs-Keeps : (now : ℕ) (runs : List (Run × ℕ)) → Keeps (Evolves old) (insert_runs now runs)
  unfolding insert_runs
  insert_runs-Keeps now [] = Keeps-pure []
  insert_runs-Keeps now ((r, max_queued) ∷ rest) =
      Keeps-bind _ _ (insert_run-Keeps now r max_queued)
        λ first. Keeps-bind _ _ (insert_runs-Keeps now rest) (λ others. Keeps-pure (first ∷ others))

  set_followed-Keeps : (id : ℕ) → Keeps (Evolves old) (statement (set_followed id))
  unfolding set_followed
  set_followed-Keeps id = Keeps-statement _ λ db e.
      unfold update in
      Evolves-trans e (
        update-Evolves (λ r. r.id == id) mark_followed (λ r. refl) db
          (λ i r _ hit. record {
            status = reaches_refl r.status;
            same_firing = refl;
            handed = λ h. refl;
          })
          e.ordered_new)

  pub follow-Keeps : (now id : ℕ) (runs : List (Run × ℕ)) → Keeps (Evolves old) (follow now id runs)
  unfolding follow
  follow-Keeps now id runs = Keeps-transaction _ (
      Keeps-bind _ _ (insert_runs-Keeps now runs)
        λ inserted. Keeps-bind _ _ (set_followed-Keeps id) (λ _. Keeps-pure inserted))

  change-Keeps :
      (p : Row → Bool) (f : Row → Row)
      → ((r : Row) → (f r).id ≡ r.id)
      → ((r : Row) → p r ≡ true → Descends r (f r))
      → Keeps (Evolves old) (change p f)
  unfolding change
  change-Keeps p f same step =
      Keeps-bind _ _ (Keeps-update old p f same step) (λ n. Keeps-pure (n == 1))

  pub start_run-Keeps : (id at : ℕ) → Keeps (Evolves old) (start_run id at)
  unfolding start_run
  start_run-Keeps id at =
      change-Keeps (is_queued_row id) (as_running at) (λ r. refl)
        (λ r hit. record {
          status = queued_reaches r id running hit;
          same_firing = refl;
          handed = λ h. h;
        })

  pub settle-Keeps :
      (now id : ℕ) (s : Status) (reason detail : String)
      → Keeps (Evolves old) (settle now id s reason detail)
  unfolding settle
  settle-Keeps now id s reason detail =
      change-Keeps (is_queued_row id) (as_settled now s reason detail) (λ r. refl)
        (λ r hit. record {
          status = queued_reaches r id s hit;
          same_firing = refl;
          handed = λ h. h;
        })

  pub add_skipped-Keeps : (id : ℕ) → Keeps (Evolves old) (add_skipped id)
  unfolding add_skipped
  add_skipped-Keeps id =
      Keeps-bind _ _
        (Keeps-update old (is_row id) one_more_skipped (λ r. refl)
          (λ r hit. record { status = reaches_refl r.status; same_firing = refl; handed = λ h. h }))
        (λ n. Keeps-pure tt)

  pub prune-Keeps : (before : ℕ) → Keeps (Evolves old) (prune before)
  unfolding prune
  prune-Keeps before =
      Keeps-statement _
        λ db e. unfold delete_prunable in Evolves-trans e (filter-Evolves _ db e.ordered_new)

  -- Evolving does not look at the tables agent and cron_state.
  pub same_runs-Keeps :
      {A : Type 0} (f : Db → A × Db)
      → ((db : Db) → ((f db).1.runs ≡ db.runs) × ((f db).1.next_id ≡ db.next_id))
      → Keeps (Evolves old) (statement f)
  same_runs-Keeps f same = Keeps-statement f λ db e.
      let (r, n) = same db in
      record {
        rows = λ id. rw r (e.rows id);
        ordered_old = e.ordered_old;
        ordered_new = rw (r, n) e.ordered_new;
        grows = omega (arith, e.grows);
      }

  -- An update of one row by id, whose status may be `s` afterwards.
  pub May-Evolves :
      (id : ℕ) (s : Status) (f : Row → Row)
      → ((r : Row) → (f r).id ≡ r.id)
      → ((r : Row) → (f r).status ≡ s)
      → ((r : Row) → firing (f r) ≡ firing r)
      → ((r : Row) → (f r).followed ≡ r.followed)
      → (db : Db) → May id s db
      → Evolves old db
      → Evolves old (update (is_row id) f db).1
  May-Evolves id s f same becomes keeps hands db may e =
      Evolves-trans e (update-Evolves (is_row id) f same db step e.ordered_new)
    where
      step : (i : ℕ) (r : Row) → find_row i db.runs ≡ some r → is_row id r ≡ true → Descends r (f r)
      step i r found hit =
          let e : i ≡ id = sym (find_row-id i db.runs r found) ∙ (nat_beq-decides r.id id).0 hit in
          record {
            status = rw (becomes r) (may r (rw (← e) found));
            same_firing = keeps r;
            handed = λ h. rw (hands r) h;
          }
