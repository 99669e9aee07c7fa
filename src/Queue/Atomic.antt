-- ===== src/Queue/Atomic.antt =====
-- Enqueue and Follow write everything or nothing.
use kickd.Prelude.{ℕ, ◌≡◌, refl, Bool, ltb, List, [], ◌∷◌, ◌⊎◌, inl, inr, ◌∙◌, ap}
use kickd.Queue.Row.{Run}
use kickd.Queue.Conn.{Result, ok, err, Error, Conn}
use kickd.Queue.Conn.Keeps.{transaction_atomic}
use kickd.Queue.Conn.Steady.{
  Steady, Steady-statement, Steady-pure, Steady-if, Steady-bind, Steady-transaction,
}
use kickd.Queue.Insert.{queue_full, insert_run, insert_runs, follow}
use kickd.Queue.Effects.{followed_by, follow-Does}

insert_run-Steady : (now : ℕ) (r : Run) (max_queued : ℕ) → Steady (insert_run now r max_queued)
unfolding insert_run queue_full
insert_run-Steady now r max_queued =
    Steady-bind _ _
      (Steady-if (ltb 0 max_queued) _ _ (Steady-bind _ _ (Steady-statement _) (λ n. Steady-pure _))
        (Steady-pure _))
      λ full. Steady-bind _ _ (Steady-statement _) (λ id. Steady-pure (id, full))

insert_runs-Steady : (now : ℕ) (runs : List (Run × ℕ)) → Steady (insert_runs now runs)
unfolding insert_runs
insert_runs-Steady now [] = Steady-pure []
insert_runs-Steady now ((r, max_queued) ∷ rest) =
    Steady-bind _ _ (insert_run-Steady now r max_queued) λ first.
      Steady-bind _ _ (insert_runs-Steady now rest) (λ others. Steady-pure (first ∷ others))

follow-Steady : (now id : ℕ) (runs : List (Run × ℕ)) → Steady (follow now id runs)
unfolding follow
follow-Steady now id runs = Steady-transaction _ (
    Steady-bind _ _ (insert_runs-Steady now runs)
      λ ids. Steady-bind _ _ (Steady-statement _) (λ _. Steady-pure ids))

follow-unchanged :
    (now id : ℕ) (runs : List (Run × ℕ)) (c : Conn) {e : Error}
    → (follow now id runs c).0 ≡ err e
    → (follow now id runs c).1.db ≡ c.db
unfolding follow
follow-unchanged now id runs c h = transaction_atomic _ c h

-- Follow either fails and leaves the database as it was, whichever of its statements failed, or adds
-- every run that it is given, one after the other, each with its own limit, and marks the run that
-- they follow.
pub follow_all_or_nothing :
    (now id : ℕ) (runs : List (Run × ℕ)) (c : Conn)
    → (((follow now id runs c).0 ≡ ok (followed_by now id runs c.db).0)
        × ((follow now id runs c).1.db ≡ (followed_by now id runs c.db).1))
      ⊎ ((e : Error) × ((follow now id runs c).0 ≡ err e) × ((follow now id runs c).1.db ≡ c.db))
follow_all_or_nothing now id runs c = go (follow now id runs c).0 refl
  where
    go :
        (r : Result (List (ℕ × Bool)))
        → (follow now id runs c).0 ≡ r
        → (((follow now id runs c).0 ≡ ok (followed_by now id runs c.db).0)
            × ((follow now id runs c).1.db ≡ (followed_by now id runs c.db).1))
          ⊎ ((e : Error) × ((follow now id runs c).0 ≡ err e)
              × ((follow now id runs c).1.db ≡ c.db))
    go (ok ids) h = let (p, q) = (follow-Does now id runs).at c ids h in inl (h ∙ ap ok p, q)
    go (err e) h = inr (e, h, follow-unchanged now id runs c h)

-- Where no statement fails, Follow adds every run that it is given and marks the run that they
-- follow.
pub follow_succeeds :
    (now id : ℕ) (runs : List (Run × ℕ)) (c : Conn)
    → c.faults ≡ []
    → ((follow now id runs c).0 ≡ ok (followed_by now id runs c.db).0)
      × ((follow now id runs c).1.db ≡ (followed_by now id runs c.db).1)
follow_succeeds now id runs c steady =
    let s = (follow-Steady now id runs).at c steady in
    let (p, q) = (follow-Does now id runs).at c s.value s.is_ok in (s.is_ok ∙ ap ok p, q)
