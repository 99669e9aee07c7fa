-- ===== src/Queue/Lifecycle/Unguarded.antt =====
-- The calls of store.go whose updates carry no guard on the status: they evolve the database where
-- the status that they write can still be reached, which RequestCancel reads first.
use mathlib.Core.Option
use kickd.Prelude.{
  ℕ, ◌≡◌, refl, Bool, true, if◌then◌else◌, Option, none, some, String, arith, inl, inr, Bool-cases,
  nat_eq, ◌==◌, ◌∙◌, sym,
}
use kickd.Queue.Status.{Status, retried, abandoned}
use kickd.Queue.Row.{Row, Run, Db}
use kickd.Queue.Conn.{statement}
use kickd.Queue.Conn.Keeps.{Keeps, Keeps-statement, Keeps-bind, Keeps-pure, Keeps-transaction}
use kickd.Queue.Table.{find_row, find_row-update, find_row-append}
use kickd.Queue.Insert.{insert_row}
use kickd.Queue.Runs.{Finish, update, is_row, as_finished, finish_run}
use kickd.Queue.Recovery.{retry_row, as_retried, rerun_text, as_abandoned, retry, abandon}
use kickd.Queue.Lifecycle.{reaches, reaches_refl, firing, Evolves, Evolves-trans}
use kickd.Queue.Lifecycle.Steps.{insert_row-Evolves}
use kickd.Queue.Lifecycle.Kept.{May, May-Evolves}

-- What an update leaves of `May`, if the rows it changes can still get the status afterwards.
pub May-update :
    (id : ℕ) (s : Status) (p : Row → Bool) (f : Row → Row)
    → ((r : Row) → (f r).id ≡ r.id)
    → ((r : Row) → reaches r.status s ≡ true → reaches (f r).status s ≡ true)
    → (db : Db) → May id s db
    → May id s (update p f db).1
unfolding update
May-update id s p f same keep db may r e =
    go (find_row id db.runs) may (sym (find_row-update p f same id db.runs) ∙ e)
  where
    one : (x : Row) → reaches x.status s ≡ true → reaches (if p x then f x else x).status s ≡ true
    one x h = elim (Bool-cases (p x)) [ inl t ↦ rw t (keep x h) | inr t ↦ rw t h ]

    go :
        (o : Option Row)
        → ((x : Row) → o ≡ some x → reaches x.status s ≡ true)
        → Option.map (λ x. if p x then f x else x) o ≡ some r
        → reaches r.status s ≡ true
    go none m h = cc
    go (some x) m h =
        let e : (if p x then f x else x) ≡ r = ground arith in rw (← e) (one x (m x refl))

-- A database that has evolved from `old`, and where the row `id` can still get the status `s`.
abbrev pub Ready : Db → ℕ → Status → Db → Type 0
Ready old id s db = Evolves old db × May id s db

module _ (old : Db) where
  update-Ready :
      (id : ℕ) (s : Status) (f : Row → Row)
      → ((r : Row) → (f r).id ≡ r.id)
      → ((r : Row) → (f r).status ≡ s)
      → ((r : Row) → firing (f r) ≡ firing r)
      → ((r : Row) → (f r).followed ≡ r.followed)
      → Keeps (Ready old id s) (statement (update (is_row id) f))
  update-Ready id s f same becomes keeps hands = Keeps-statement _ λ db h. (
    May-Evolves old id s f same becomes keeps hands db h.1 h.0,
    May-update id s (is_row id) f same (λ r _. rw (becomes r) (reaches_refl s)) db h.1,
  )

  -- FinishRun evolves the database if the run can still get the status that it writes.
  pub finish_run-Ready :
      (now id : ℕ) (f : Finish) → Keeps (Ready old id f.status) (finish_run now id f)
  unfolding finish_run
  finish_run-Ready now id f =
      Keeps-bind _ _
        (update-Ready id f.status (as_finished now f) (λ r. refl) (λ r. refl) (λ r. refl)
          (λ r. refl))
        (λ n. Keeps-pure tt)

  pub abandon-Ready :
      (now id : ℕ) (reason : String) → Keeps (Ready old id abandoned) (abandon now id reason)
  unfolding abandon
  abandon-Ready now id reason =
      Keeps-bind _ _
        (update-Ready id abandoned (as_abandoned now reason) (λ r. refl) (λ r. refl) (λ r. refl)
          (λ r. refl))
        (λ n. Keeps-pure tt)

  -- The new row of Retry is queued, so it hides no row that cannot be retried.
  insert-May :
      (s : Status) (id now : ℕ) (r : Run) (payload : String) (db : Db)
      → May id s db
      → May id s (insert_row (retry_row now r payload) db).1
  unfolding insert_row retry_row
  insert-May s id now r payload db may x e =
      go (find_row id db.runs) may (sym (find_row-append id db.runs _) ∙ e)
    where
      go :
          (o : Option Row)
          → ((y : Row) → o ≡ some y → reaches y.status s ≡ true)
          → (elim o [
            | some y ↦ some y
            | none ↦ if db.next_id == id then some (retry_row now r payload db.next_id) else none
          ])
            ≡ some x
          → reaches x.status s ≡ true
      go none m h = elim (Bool-cases (db.next_id == id)) [
        | inl t ↦ let e : retry_row now r payload db.next_id ≡ x = ground arith in rw (← e) refl
        | inr t ↦ absurd (ground arith)
      ]
      go (some y) m h = let e : y ≡ x = ground arith in rw (← e) (m y refl)

  pub retry-Ready :
      (now : ℕ) (r : Run) (payload reason : String)
      → Keeps (Ready old r.id retried) (retry now r payload reason)
  unfolding retry
  retry-Ready now r payload reason = Keeps-transaction _ (
      Keeps-bind _ _ inserted λ id.
        Keeps-bind _ _
          (update-Ready r.id retried (as_retried now reason (rerun_text id)) (λ x. refl) (λ x. refl)
            (λ x. refl) (λ x. refl))
          (λ _. Keeps-pure id))
    where
      inserted : Keeps (Ready old r.id retried) (statement (insert_row (retry_row now r payload)))
      inserted = Keeps-statement _ λ db h. (
        Evolves-trans h.0 (
            insert_row-Evolves (retry_row now r payload) (λ id. unfold retry_row in refl) db
              h.0.ordered_new),
        insert-May retried r.id now r payload db h.1,
      )
