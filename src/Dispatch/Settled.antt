-- ===== src/Dispatch/Settled.antt =====
-- Recover settles every run that was cut off, and repeats a firing only as its settings allow.
use kickd.Prelude.{
  ℕ, ◌≡◌, refl, Bool, true, false, not, String, Option, none, some, List, [], ◌∷◌, ◌++◌, arith,
  nat_eq, string_eq, ◌==◌, any, All, All-append, All-map, filter, map, leb, Bool-cases, inl, inr,
  subst, sym, ap, if◌then◌else◌,
}
use kickd.Prelude.Map.{lookup}
use kickd.Queue.Status.{status_eq}
use kickd.Queue.Row.{Row, Run, Db, scan_run}
use kickd.Queue.Conn.{Result, ok, err, M, Conn, update_where}
use kickd.Queue.Conn.Does.{Does, Does-statement, Does-pure, Does-bind}
use kickd.Queue.Insert.{insert_row}
use kickd.Queue.Runs.{is_row, update}
use kickd.Queue.Recovery.{
  was_cut_off, interrupted_runs, retry, retry_row, as_retried, as_abandoned, abandon, rerun_text,
}
use kickd.Queue.Effects.{retry-Does}
use kickd.Event.{Event, Codec}
use kickd.Dispatch.Repaired.{
  Becomes, Later, Later-refl, Later-trans, Later-append, Later-update, IsRepaired, Later-IsRepaired,
}
use kickd.Dispatch.Spec.{Spec}
use kickd.Dispatch.State.{World, call}
use kickd.Dispatch.Recover.{
  Halt, is_rerun, cut_off_by, halted_by, abandon_as, requeue, rerun_run, recover_with, recover_run,
  unless_halted, recover_all, recover_read, recover,
}

abbrev pub has_run : ℕ → List Run → Bool
has_run id runs = any (λ x. x.id == id) runs

-- Only the runs of the list are cut off.
abbrev Left : List Run → List Row → Type 0
Left runs rows = All (λ r. was_cut_off r ≡ true → has_run r.id runs ≡ true) rows

-- The runs of the list are still cut off, and the others are settled or as they were.
abbrev Repairs : List Run → List Row → List Row → Type 0
Repairs rest rows rows' = Left rest rows' × Later Becomes rows rows'

-- A call that settles the run.
record Closes {A : Type 0} (run : Run) (m : M A) : Type 0 where
  at :
      (c : Conn) (a : A)
      → (m c).0 ≡ ok a
      → (rest : List Run) → Left (run ∷ rest) c.db.runs
      → Repairs rest c.db.runs (m c).1.db.runs

module _ (run : Run) (rest : List Run) where
  -- The update of the one row, to a status that is not cut off.
  Left-update_where :
      (f : Row → Row) (rows : List Row)
      → ((r : Row) → was_cut_off (f r) ≡ false)
      → Left (run ∷ rest) rows
      → Left rest (update_where (is_row run.id) f rows)
  unfolding update_where any
  Left-update_where f [] settled h = tt
  Left-update_where f (r ∷ rows) settled h =
      let others = Left-update_where f rows settled h.1 in
      let this = h.0 in
      elim (Bool-cases (r.id == run.id)) [
        | inl e ↦ rw e ((λ cut. absurd (ground (arith, cut, settled r))), others)
        | inr e ↦ rw e ((λ cut. ground (arith, this cut, e)), others)
      ]

  Left-update :
      (f : Row → Row) (db : Db)
      → ((r : Row) → was_cut_off (f r) ≡ false)
      → Left (run ∷ rest) db.runs
      → Left rest (update (is_row run.id) f db).1.runs
  unfolding update
  Left-update f db settled h = Left-update_where f db.runs settled h

abandon-Does :
    (now id : ℕ) (reason : String)
    → Does (abandon now id reason) (λ db. (tt, (update (is_row id) (as_abandoned now reason) db).1))
unfolding abandon
abandon-Does now id reason =
    Does-bind _ _ _ _ (Does-statement (update (is_row id) (as_abandoned now reason)))
      (λ _. Does-pure tt)

abandon-Closes : (now : ℕ) (run : Run) (reason : String) → Closes run (abandon now run.id reason)
abandon-Closes now run reason = record {
  at = λ c a h rest left.
      let q = ((abandon-Does now run.id reason).at c a h).1 in
      subst (λ (db : Db). Repairs rest c.db.runs db.runs) (sym q)
        (
          Left-update run rest (as_abandoned now reason) c.db (λ r. refl) left,
          Later-update run.id (as_abandoned now reason) c.db (λ r. refl) (λ r. refl),
        );
}

retry-Closes :
    (now : ℕ) (run : Run) (payload reason : String) → Closes run (retry now run payload reason)
unfolding insert_row
retry-Closes now run payload reason = record {
  at = λ c a h rest left.
      let q = ((retry-Does now run payload reason).at c a h).1 in
      let row = retry_row now run payload c.db.next_id in
      let added : Left (run ∷ rest) (c.db.runs ++ row ∷ []) =
        All-append _ c.db.runs (row ∷ []) left
          ((λ cut. absurd (unfold retry_row in ground (arith, cut))), tt) in
      let grown = (insert_row (retry_row now run payload) c.db).1 in
      let f = as_retried now reason (rerun_text c.db.next_id) in
      subst (λ (db : Db). Repairs rest c.db.runs db.runs) (sym q)
        (
          Left-update run rest f grown (λ r. refl) (unfold insert_row in added),
          Later-trans c.db.runs grown.runs (update (is_row run.id) f grown).1.runs
              (Later-append c.db.runs (row ∷ []))
              (Later-update run.id f grown (λ r. refl) (λ r. refl)),
        );
}

-- What the branches of Recover do to the run, if they do not end it with an error.
record Settles (run : Run) (w : World) (x : Option Halt × World) : Type 0 where
  at :
      x.0 ≡ none
      → (rest : List Run) → Left (run ∷ rest) w.conn.db.runs
      → Repairs rest w.conn.db.runs x.1.conn.db.runs

Settles-halted_by :
    {A : Type 0} (run : Run) (m : M A) (w : World)
    → Closes run m
    → Settles run w (halted_by (call m w))
Settles-halted_by {A = A} run m w closes = go (call m w) (λ a h. closes.at w.conn a h)
  where
    go :
        (r : Result A × World)
        → ((a : A)
            → r.0 ≡ ok a
            → (rest : List Run) → Left (run ∷ rest) w.conn.db.runs
            → Repairs rest w.conn.db.runs r.1.conn.db.runs)
        → Settles run w (halted_by r)
    go (ok a, w') h = record { at = λ e. h a refl }
    go (err e, w') h = record { at = λ e. absurd (cc) }

Settles-abandon_as :
    (reason : String) (run : Run) (w : World) → Settles run w (abandon_as reason run w)
Settles-abandon_as reason run w = Settles-halted_by run _ w (abandon-Closes w.now run reason)

Settles-rerun_run :
    (codec : Codec) (run : Run) (how : String) (w : World) (ev : Option Event)
    → Settles run w (rerun_run codec run how w ev)
unfolding rerun_run
Settles-rerun_run codec run how w none = Settles-abandon_as "payload_invalid" run w
Settles-rerun_run codec run how w (some ev) = go (codec.marshal _)
  where
    go : (payload : Option String) → Settles run w (requeue run how w payload)
    go none = unfold requeue in record { at = λ e. absurd (cc) }
    go (some payload) =
        unfold requeue in Settles-halted_by run _ w (retry-Closes w.now run payload how)

Settles-recover_with :
    (codec : Codec) (run : Run) (w : World) (spec : Option Spec)
    → Settles run w (recover_with codec run w spec)
unfolding recover_with
Settles-recover_with codec run w none = Settles-abandon_as "event_removed" run w
Settles-recover_with codec run w (some spec) =
    elim (Bool-cases (not (is_rerun spec.on_interrupt))) [
      | inl e ↦ rw e (Settles-abandon_as (cut_off_by run) run w)
      | inr e ↦ rw e (elim (Bool-cases (leb spec.max_attempts run.attempt)) [
        | inl f ↦ rw f (Settles-abandon_as "max_attempts_reached" run w)
        | inr f ↦
            rw f (Settles-rerun_run codec run (cut_off_by run) w (codec.unmarshal run.payload))
      ])
    ]

record Settled (rows : List Row) (x : Option Halt × World) : Type 0 where
  at : x.0 ≡ none → Repairs [] rows x.1.conn.db.runs

recover_all-Settled :
    (codec : Codec) (runs : List Run) (w : World)
    → Left runs w.conn.db.runs
    → Settled w.conn.db.runs (recover_all codec runs w)
unfolding recover_all
recover_all-Settled codec [] w left = record { at = λ e. (left, Later-refl w.conn.db.runs) }
recover_all-Settled codec (run ∷ rest) w left =
    go (recover_run codec run w) settles (λ w' left'. recover_all-Settled codec rest w' left')
  where
    settles : Settles run w (recover_run codec run w)
    settles = unfold recover_run in Settles-recover_with codec run w (lookup run.event w.d.specs)

    go :
        (x : Option Halt × World)
        → Settles run w x
        → ((w' : World)
            → Left rest w'.conn.db.runs
            → Settled w'.conn.db.runs (recover_all codec rest w'))
        → Settled w.conn.db.runs (unless_halted x (recover_all codec rest))
    go (none, w') s others = record {
      at = λ e.
          let (left', first) = s.at refl rest left in
          let (none_left, later) = (others w' left').at e in
          (
            none_left,
            Later-trans w.conn.db.runs w'.conn.db.runs (recover_all codec rest w').1.conn.db.runs
                first later,
          );
    }
    go (some h, w') s others = record { at = λ e. absurd (cc) }

-- The runs that were read are those that are cut off.
Left-select : (rows : List Row) → Left (map scan_run (filter was_cut_off rows)) rows
unfolding filter any scan_run
Left-select [] = tt
Left-select (r ∷ rows) = go (was_cut_off r) refl (Left-select rows)
  where
    go :
        (b : Bool)
        → was_cut_off r ≡ b
        → Left (map scan_run (filter was_cut_off rows)) rows
        → Left
            (map scan_run (if b then r ∷ filter was_cut_off rows else filter was_cut_off rows))
            (r ∷ rows)
    go true e tail = (
      (λ cut. ground (arith, nat_eq.decides r.id r.id)),
      All-map _ _ (λ x h cut. ground (arith, h cut)) rows tail,
    )
    go false e tail = ((λ cut. absurd (ground (arith, cut, e))), tail)

abbrev read_cut_off : Db → List Run × Db
read_cut_off db = (map scan_run (filter was_cut_off db.runs), db)

interrupted_runs-Does : Does interrupted_runs read_cut_off
unfolding interrupted_runs
interrupted_runs-Does = Does-statement read_cut_off

none_left : (r : Row) → (was_cut_off r ≡ true → has_run r.id [] ≡ true) → was_cut_off r ≡ false
unfolding any
none_left r left = go (was_cut_off r) left
  where
    go : (b : Bool) → (b ≡ true → false ≡ true) → b ≡ false
    go true h = absurd (let x : false ≡ true = h refl in cc)
    go false h = refl

pub recover_settles :
    (codec : Codec) (w : World)
    → (recover codec w).0 ≡ none
    → let rows = (recover codec w).1.conn.db.runs in
      All (λ r. was_cut_off r ≡ false) rows × Later IsRepaired w.conn.db.runs rows
recover_settles codec w h =
    let (left, later) = settled.at h in
    let over = All-map _ _ none_left _ left in (over, Later-IsRepaired _ _ over later)
  where
    first :
        (a : List Run)
        → (call interrupted_runs w).0 ≡ ok a
        → Left a w.conn.db.runs × ((call interrupted_runs w).1.conn.db.runs ≡ w.conn.db.runs)
    first a e =
        let (p, q) = interrupted_runs-Does.at w.conn a e in
        (
          subst (λ x. Left x w.conn.db.runs) (sym p) (Left-select w.conn.db.runs),
          ap (λ (db : Db). db.runs) q,
        )

    go :
        (r : Result (List Run) × World)
        → ((a : List Run)
            → r.0 ≡ ok a
            → Left a w.conn.db.runs × (r.1.conn.db.runs ≡ w.conn.db.runs))
        → Settled w.conn.db.runs (recover_read codec r)
    go (ok runs, w') left =
        let (l, same) = left runs refl in
        unfold recover_read in
        subst (λ rows. Settled rows (recover_all codec runs w')) same
          (recover_all-Settled codec runs w' (subst (Left runs) (sym same) l))
    go (err e, w') left = unfold recover_read in record { at = λ e. absurd (cc) }

    settled : Settled w.conn.db.runs (recover codec w)
    settled = unfold recover in go (call interrupted_runs w) first
