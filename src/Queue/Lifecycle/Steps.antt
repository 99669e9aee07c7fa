-- ===== src/Queue/Lifecycle/Steps.antt =====
-- Each call of store.go evolves the database, statement by statement.
use mathlib.Core.Option
use kickd.Prelude.{
  ℕ, ◌≡◌, refl, Bool, true, if◌then◌else◌, Option, none, some, arith, filter, inl, inr, Bool-cases,
  nat_eq, ◌==◌,
}
use kickd.Queue.Row.{Row, Db}
use kickd.Queue.Conn.{statement}
use kickd.Queue.Conn.Keeps.{Keeps, Keeps-statement}
use kickd.Queue.Table.{
  Ascending, Ascending-append, Ascending-update, Ascending-filter, find_row, find_row-update,
  find_row-append, find_row-filter,
}
use kickd.Queue.Insert.{insert_row}
use kickd.Queue.Runs.{update}
use kickd.Queue.Lifecycle.{Descends, Descends-refl, Follows, Evolves, Evolves-trans}

-- An update that keeps the ids and lets each row it selects descend.
pub update-Evolves :
    (p : Row → Bool) (f : Row → Row)
    → ((r : Row) → (f r).id ≡ r.id)
    → (db : Db)
    → ((id : ℕ) (r : Row) → find_row id db.runs ≡ some r → p r ≡ true → Descends r (f r))
    → Ascending 1 db.runs db.next_id
    → Evolves db (update p f db).1
unfolding update
update-Evolves p f same db step a = record {
  rows = λ id. rw (find_row-update p f same id db.runs) (go id (find_row id db.runs) (step id));
  ordered_old = a;
  ordered_new = Ascending-update p f same 1 db.runs db.next_id a;
  grows = omega arith;
}
  where
    one : (r : Row) → (p r ≡ true → Descends r (f r)) → Descends r (if p r then f r else r)
    one r h = elim (Bool-cases (p r)) [ inl e ↦ rw e (h e) | inr e ↦ rw e (Descends-refl r) ]

    go :
        (id : ℕ) (o : Option Row)
        → ((r : Row) → o ≡ some r → p r ≡ true → Descends r (f r))
        → Follows db.next_id id o (Option.map (λ r. if p r then f r else r) o)
    go id none h = tt
    go id (some r) h = one r (h r refl)

pub insert_row-Evolves :
    (row : ℕ → Row)
    → ((id : ℕ) → (row id).id ≡ id)
    → (db : Db) → Ascending 1 db.runs db.next_id
    → Evolves db (insert_row row db).1
unfolding insert_row
insert_row-Evolves row same db a = record {
  rows = λ id. rw (find_row-append id db.runs (row db.next_id)) (go id (find_row id db.runs));
  ordered_old = a;
  ordered_new = Ascending-append 1 db.runs db.next_id (row db.next_id) (same db.next_id) a;
  grows = omega arith;
}
  where
    new :
        (id : ℕ)
        → Follows db.next_id id none
            (if (row db.next_id).id == id then some (row db.next_id) else none)
    new id = elim (Bool-cases ((row db.next_id).id == id)) [
      | inl e ↦ rw e (ground (arith, same db.next_id))
      | inr e ↦ rw e tt
    ]

    go :
        (id : ℕ) (o : Option Row)
        → Follows db.next_id id o (elim o [
          | some x ↦ some x
          | none ↦ if (row db.next_id).id == id then some (row db.next_id) else none
        ])
    go id none = new id
    go id (some r) = Descends-refl r

pub filter-Evolves :
    (p : Row → Bool) (db : Db)
    → Ascending 1 db.runs db.next_id
    → Evolves db (record db { runs = filter p db.runs })
filter-Evolves p db a = record {
  rows = λ id. rw (find_row-filter p id 1 db.runs db.next_id a) (go id (find_row id db.runs));
  ordered_old = a;
  ordered_new = Ascending-filter p 1 db.runs db.next_id a;
  grows = omega arith;
}
  where
    kept : (id : ℕ) (r : Row) → Follows db.next_id id (some r) (if p r then some r else none)
    kept id r = elim (Bool-cases (p r)) [ inl e ↦ rw e (Descends-refl r) | inr e ↦ rw e tt ]

    go :
        (id : ℕ) (o : Option Row)
        → Follows db.next_id id o (elim o [ some r ↦ if p r then some r else none | none ↦ none ])
    go id none = tt
    go id (some r) = kept id r

-- What a call makes of a database that has evolved from `old`.
module _ (old : Db) where
  pub Keeps-update :
      (p : Row → Bool) (f : Row → Row)
      → ((r : Row) → (f r).id ≡ r.id)
      → ((r : Row) → p r ≡ true → Descends r (f r))
      → Keeps (Evolves old) (statement (update p f))
  Keeps-update p f same step =
      Keeps-statement _ λ db e.
        Evolves-trans e (update-Evolves p f same db (λ id r _ hit. step r hit) e.ordered_new)
