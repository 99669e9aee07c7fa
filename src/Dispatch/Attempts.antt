-- ===== src/Dispatch/Attempts.antt =====
-- Recover repeats a firing only for an event that asks for it, and only up to max_attempts.
use kickd.Prelude.{
  ℕ, suc, ◌+◌, ◌≤◌, ◌<◌, ◌≡◌, refl, not, String, Option, none, some, List, [], ◌∷◌, leb, Bool-cases,
  inl, inr, sym, ap, arith, string_eq, All, All-append, All-map, false,
}
use kickd.Prelude.Map.{Map, lookup}
use kickd.Queue.Row.{Row, Run, Db}
use kickd.Queue.Conn.{Result, ok, err, M, Conn}
use kickd.Queue.Conn.Keeps.{Keeps, Keeps-statement, Keeps-pure, Keeps-bind, Keeps-transaction}
use kickd.Queue.Table.{All-update, Ascending}
use kickd.Queue.Insert.{insert_row}
use kickd.Queue.Runs.{is_row, update}
use kickd.Queue.Recovery.{
  interrupted_runs, retry, abandon, retry_row, as_retried, as_abandoned, rerun_text,
}
use kickd.Event.{Event, Codec}
use kickd.Dispatch.Spec.{Spec, OnInterrupt, rerun, abandon as abandons}
use kickd.Dispatch.State.{World, call}
use kickd.Dispatch.Recover.{
  Halt, is_rerun, cut_off_by, halted_by, abandon_as, requeue, rerun_run, recover_with, recover_run,
  unless_halted, recover_all, recover_read, recover,
}

-- A row from the id `n` on belongs to an event that asks for reruns, and stays within its attempts.
record IsRerun (specs : Map String Spec) (n : ℕ) (r : Row) : Type 0 where
  at :
      n ≤ r.id
      → (s : Spec) × (lookup r.event specs ≡ some s)
        × (s.on_interrupt ≡ rerun)
        × (r.attempt ≤ s.max_attempts)

old_IsRerun :
    (specs : Map String Spec) (lo : ℕ) (rows : List Row) (n : ℕ)
    → Ascending lo rows n
    → All (λ r. r.id < n) rows
old_IsRerun specs lo [] n a = tt
old_IsRerun specs lo (r ∷ rows) n a =
    (below (suc r.id) rows a.1, old_IsRerun specs (suc r.id) rows n a.1)
  where
    below : (lo : ℕ) (rows : List Row) → Ascending lo rows n → lo ≤ n
    below lo [] a = a
    below lo (x ∷ rows) a = let b = below (suc x.id) rows a.1 in omega arith

module _ (specs : Map String Spec) (n : ℕ) where
  abbrev Within : Db → Type 0
  Within db = All (IsRerun specs n) db.runs

  update-Within :
      (id : ℕ) (f : Row → Row) (db : Db)
      → ((r : Row) → IsRerun specs n r → IsRerun specs n (f r))
      → Within db
      → Within (update (is_row id) f db).1
  unfolding update
  update-Within id f db same h =
      All-update (IsRerun specs n) (is_row id) f db.runs (λ r e. same r) h

  abandon-Within : (now id : ℕ) (reason : String) → Keeps Within (abandon now id reason)
  unfolding abandon
  abandon-Within now id reason =
      Keeps-bind _ _
        (Keeps-statement (update (is_row id) (as_abandoned now reason))
          (λ db h. update-Within id (as_abandoned now reason) db (λ r k. record { at = k.at }) h))
        (λ _. Keeps-pure tt)

  retry-Within :
      (now : ℕ) (run : Run) (payload reason : String) (s : Spec)
      → lookup run.event specs ≡ some s
      → s.on_interrupt ≡ rerun
      → run.attempt + 1 ≤ s.max_attempts
      → Keeps Within (retry now run payload reason)
  unfolding retry
  retry-Within now run payload reason s known reruns room = Keeps-transaction _ (
      Keeps-bind _ _ (Keeps-statement (insert_row (retry_row now run payload)) added) λ id.
        Keeps-bind _ _
          (Keeps-statement (update (is_row run.id) (as_retried now reason (rerun_text id))) (λ db h.
            update-Within run.id (as_retried now reason (rerun_text id)) db
              (λ r k. record { at = k.at }) h))
          (λ _. Keeps-pure id))
    where
      added : (db : Db) → Within db → Within (insert_row (retry_row now run payload) db).1
      added db h =
          unfold insert_row retry_row in
          All-append (IsRerun specs n) db.runs _ h
            (record { at = λ _. (s, known, reruns, room) }, tt)

  record Bounded (x : Option Halt × World) : Type 0 where
    within : Within x.1.conn.db
    same : x.1.d.specs ≡ specs

  Bounded-halted_by :
      {A : Type 0} (m : M A) (w : World)
      → Keeps Within m
      → Within w.conn.db
      → w.d.specs ≡ specs
      → Bounded (halted_by (call m w))
  Bounded-halted_by {A = A} m w keeps h same = go (m w.conn) (keeps.at w.conn h)
    where
      go :
          (r : Result A × Conn) → Within r.1.db → Bounded (halted_by (r.0, record w { conn = r.1 }))
      go (ok a, c) k = record { within = k; same = same }
      go (err e, c) k = record { within = k; same = same }

  module _ (codec : Codec) where
    abandon_as-Bounded :
        (reason : String) (run : Run) (w : World)
        → Within w.conn.db
        → w.d.specs ≡ specs
        → Bounded (abandon_as reason run w)
    abandon_as-Bounded reason run w h same =
        Bounded-halted_by _ w (abandon-Within w.now run.id reason) h same

    rerun_run-Bounded :
        (run : Run) (how : String) (w : World) (ev : Option Event) (s : Spec)
        → lookup run.event specs ≡ some s
        → s.on_interrupt ≡ rerun
        → run.attempt + 1 ≤ s.max_attempts
        → Within w.conn.db
        → w.d.specs ≡ specs
        → Bounded (rerun_run codec run how w ev)
    unfolding rerun_run
    rerun_run-Bounded run how w none s known reruns room h same =
        abandon_as-Bounded "payload_invalid" run w h same
    rerun_run-Bounded run how w (some ev) s known reruns room h same = go (codec.marshal _)
      where
        go : (payload : Option String) → Bounded (requeue run how w payload)
        go none = unfold requeue in record { within = h; same = same }
        go (some payload) =
            unfold requeue in
            Bounded-halted_by _ w (retry-Within w.now run payload how s known reruns room) h same

    asks_rerun : (o : OnInterrupt) → not (is_rerun o) ≡ false → o ≡ rerun
    asks_rerun rerun h = refl
    asks_rerun abandons h = absurd (cc)

    recover_with-Bounded :
        (run : Run) (w : World) (spec : Option Spec)
        → lookup run.event specs ≡ spec
        → Within w.conn.db
        → w.d.specs ≡ specs
        → Bounded (recover_with codec run w spec)
    unfolding recover_with
    recover_with-Bounded run w none known h same = abandon_as-Bounded "event_removed" run w h same
    recover_with-Bounded run w (some s) known h same =
        elim (Bool-cases (not (is_rerun s.on_interrupt))) [
          | inl e ↦ rw e (abandon_as-Bounded (cut_off_by run) run w h same)
          | inr e ↦ rw e (elim (Bool-cases (leb s.max_attempts run.attempt)) [
            | inl f ↦ rw f (abandon_as-Bounded "max_attempts_reached" run w h same)
            | inr f ↦ rw f (
                rerun_run-Bounded run (cut_off_by run) w (codec.unmarshal run.payload) s known
                  (asks_rerun s.on_interrupt e) (ground (arith, f)) h same)
          ])
        ]

    recover_all-Bounded :
        (runs : List Run) (w : World)
        → Within w.conn.db
        → w.d.specs ≡ specs
        → Bounded (recover_all codec runs w)
    unfolding recover_all
    recover_all-Bounded [] w h same = record { within = h; same = same }
    recover_all-Bounded (run ∷ rest) w h same =
        go (recover_run codec run w) first (λ w' h' same'. recover_all-Bounded rest w' h' same')
      where
        first : Bounded (recover_run codec run w)
        first =
            unfold recover_run in
            recover_with-Bounded run w (lookup run.event w.d.specs)
              (ap (lookup run.event) (sym same)) h same

        go :
            (x : Option Halt × World)
            → Bounded x
            → ((w' : World)
                → Within w'.conn.db
                → w'.d.specs ≡ specs
                → Bounded (recover_all codec rest w'))
            → Bounded (unless_halted x (recover_all codec rest))
        go (none, w') b others = others w' b.within b.same
        go (some halt, w') b others = record { within = b.within; same = b.same }

    recover-Bounded : (w : World) → Within w.conn.db → w.d.specs ≡ specs → Bounded (recover codec w)
    unfolding recover
    recover-Bounded w h same = go (interrupted_runs w.conn) (reads.at w.conn h)
      where
        reads : Keeps Within interrupted_runs
        reads = unfold interrupted_runs in Keeps-statement _ (λ db k. k)

        go :
            (r : Result (List Run) × Conn)
            → Within r.1.db
            → Bounded (recover_read codec (r.0, record w { conn = r.1 }))
        go (ok runs, c) k = unfold recover_read in recover_all-Bounded runs _ k same
        go (err e, c) k = unfold recover_read in record { within = k; same = same }

-- Whichever statements fail, each run that Recover adds belongs to an event that the configuration
-- has, whose on_interrupt is rerun, and its attempt is at most the event's max_attempts.
pub recover_attempts :
    (codec : Codec) (w : World)
    → Ascending 1 w.conn.db.runs w.conn.db.next_id
    → All
        (λ r.
          w.conn.db.next_id ≤ r.id
          → (s : Spec) × (lookup r.event w.d.specs ≡ some s)
            × (s.on_interrupt ≡ rerun)
            × (r.attempt ≤ s.max_attempts))
        (recover codec w).1.conn.db.runs
recover_attempts codec w a =
    let n = w.conn.db.next_id in
    let old =
      All-map _ (IsRerun w.d.specs n)
        (λ r below. record { at = λ above. absurd (omega (arith, below, above)) }) w.conn.db.runs
        (old_IsRerun w.d.specs 1 w.conn.db.runs n a) in
    All-map _ _ (λ r k. k.at) _ (recover-Bounded w.d.specs n codec w old refl).within
