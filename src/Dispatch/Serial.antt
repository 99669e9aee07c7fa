-- ===== src/Dispatch/Serial.antt =====
-- The counts of running commands: they are the commands in flight, and schedule never starts a second
-- command of an event that does not run in parallel.
use kickd.Prelude.{
  ℕ, ◌+◌, ◌-◌, ◌≤◌, ◌≡◌, refl, Bool, true, false, ◌&&◌, ◌||◌, String, Option, none, some, List, [],
  ◌∷◌, if◌then◌else◌, arith, string_eq, nat_eq, ◌==◌, ◌∙◌, inl, inr, sym, Bool-cases, if_cases,
  count, ltb, max, subst,
}
use kickd.Prelude.Map.{Map, lookup, insert, delete, lookup-insert, lookup-delete}
use kickd.Queue.Status.{Status}
use kickd.Queue.Row.{Run}
use kickd.Queue.Runs.{start_run}
use kickd.Queue.Conn.{Result, ok, err}
use kickd.Event.{Event, Codec}
use kickd.Dispatch.Spec.{Spec, is_parallel, is_skip, is_queue, is_replace, is_never, Policy}
use kickd.Dispatch.State.{World, Spawned, call, running_of, one_less, or_zero}
use kickd.Dispatch.Finish.{set_d}
use kickd.Dispatch.Schedule.{
  settle, skip, run_text, note_start, unreadable, spawn, launch_with, launch, after_start, start,
  consume_known, known_or_gone, consume_newest, newest_or_replaced, consume, stops, consume_all,
  schedule_batch_of, newest_firings, after_read, schedule,
}
use kickd.Dispatch.Load.{Load, load, load-settle, load-skip, load-replace_active, load-finish}

-- The commands of an event in flight.
unfoldable pub in_flight_of : String → List Spawned → ℕ
in_flight_of event spawned = count (λ s. s.run.event == event) spawned

abbrev pub count_in : String → Map String ℕ → ℕ
count_in event running = or_zero (lookup event running)

count_in-insert :
    (event e : String) (n : ℕ) (m : Map String ℕ)
    → count_in e (insert event n m) ≡ (if event == e then n else count_in e m)
count_in-insert event e n m = rw (lookup-insert event e n m) (ground arith)

count_in-delete :
    (event e : String) (m : Map String ℕ)
    → count_in e (delete event m) ≡ (if event == e then 0 else count_in e m)
count_in-delete event e m = rw (lookup-delete event e m) (ground arith)

count_in-one_less :
    (event e : String) (m : Map String ℕ)
    → count_in e (one_less event m) ≡ (if event == e then count_in e m - 1 else count_in e m)
unfolding one_less
count_in-one_less event e m =
    if_cases
      (λ (x : Map String ℕ). count_in e x ≡ (if event == e then count_in e m - 1 else count_in e m))
      (count_in event m - 1 == 0) _ _
      (λ gone. count_in-delete event e m ∙ ground (arith, string_eq.decides event e))
      (λ more. count_in-insert event e _ m ∙ ground (arith, string_eq.decides event e))

-- Every count is the number of the commands of the event in flight.
abbrev pub Tally : Load → Type 0
Tally l = (event : String) → count_in event l.running ≡ in_flight_of event l.in_flight

-- The load of the event `e`, whose settings are `spec`: at most one command in flight, or as many
-- as the `n` that were there before.
record IsSerial (e : String) (spec : Spec) (n : ℕ) (l : Load) : Type 0 where
  tally : Tally l
  bounded : in_flight_of e l.in_flight ≤ max 1 n
  known : lookup e l.specs ≡ some spec

-- A finish of a run whose command is not in flight any more, right after it was counted.
Tally-unreadable :
    (event : String) (l : Load)
    → Tally l
    → Tally (record l {
      running = one_less event (insert event (count_in event l.running + 1) l.running);
    })
Tally-unreadable event l t e =
    count_in-one_less event e _
    ∙ ground (
      arith,
      count_in-insert event e (count_in event l.running + 1) l.running,
      string_eq.decides event e,
      t e,
    )

Tally-spawn :
    (s : Spawned) (l : Load)
    → Tally l
    → Tally (record l {
      running = insert s.run.event (count_in s.run.event l.running + 1) l.running;
      in_flight = s ∷ l.in_flight;
    })
unfolding in_flight_of count
Tally-spawn s l t e =
    count_in-insert s.run.event e _ l.running ∙ ground (arith, string_eq.decides s.run.event e, t e)

module _ (e : String) (spec : Spec) (n : ℕ) (codec : Codec) where
  launch_with-IsSerial :
      (run : Run) (s : Spec) (ev : Option Event) (w : World)
      → IsSerial e spec n (load w.d)
      → ((run.event == e) ≡ true → running_of run.event w.d ≡ 0)
      → IsSerial e spec n
          (load (launch_with codec run s ev (set_d w (note_start w.now run s w.d))).d)
  unfolding launch_with note_start running_of
  launch_with-IsSerial run s none w h free =
      subst (IsSerial e spec n) (sym (load-finish codec run s unreadable _)) (record {
        tally = Tally-unreadable run.event (load w.d) h.tally;
        bounded = h.bounded;
        known = h.known;
      })
  launch_with-IsSerial run s (some ev) w h free =
      unfold spawn in
      record {
        tally = Tally-spawn _ (load w.d) h.tally;
        bounded =
            unfold in_flight_of count in
            ground
              (arith, h.bounded, free, h.tally run.event, string_eq.decides run.event e, h.tally e);
        known = h.known;
      }

  start-IsSerial :
      (run : Run) (s : Spec) (w : World)
      → IsSerial e spec n (load w.d)
      → ((run.event == e) ≡ true → running_of run.event w.d ≡ 0)
      → IsSerial e spec n (load (start codec run s w).1.d)
  unfolding start
  start-IsSerial run s w h free = go (call (start_run run.id w.now) w) h free
    where
      go :
          (r : Result Bool × World)
          → IsSerial e spec n (load r.1.d)
          → ((run.event == e) ≡ true → running_of run.event r.1.d ≡ 0)
          → IsSerial e spec n (load (after_start codec run s r).1.d)
      go (ok true, w') h' free' =
          unfold after_start launch in launch_with-IsSerial run s _ w' h' free'
      go (ok false, w') h' free' = unfold after_start in h'
      go (err x, w') h' free' = unfold after_start in h'

-- A policy that is none of the first three of the switch is the parallel one.
no_other_policy :
    (p : Policy) (busy : Bool)
    → is_parallel p ≡ false
    → (is_skip p && busy) ≡ false
    → (is_queue p && busy) ≡ false
    → (is_replace p && busy) ≡ false
    → busy ≡ false
no_other_policy p busy h a b c = ground arith

-- The load after a step that also says whether it consumed the row.
record Serial (e : String) (spec : Spec) (n : ℕ) (x : Bool × World) : Type 0 where
  kept : IsSerial e spec n (load x.1.d)

record SerialWorld (e : String) (spec : Spec) (n : ℕ) (w : World) : Type 0 where
  kept : IsSerial e spec n (load w.d)

module _ (e : String) (spec : Spec) (serial : is_parallel spec.concurrency ≡ false) (n : ℕ)
    (codec : Codec) where
  same_load :
      (more : Bool) (w w' : World)
      → load w'.d ≡ load w.d
      → IsSerial e spec n (load w.d)
      → Serial e spec n (more, w')
  same_load more w w' same h = record { kept = subst (IsSerial e spec n) (sym same) h }

  settle-Serial :
      (run : Run) (status : Status) (reason detail : String) (w : World)
      → IsSerial e spec n (load w.d)
      → Serial e spec n (true, (settle run status reason detail w).1)
  settle-Serial run status reason detail w h =
      same_load true w (settle run status reason detail w).1
        (load-settle run status reason detail w) h

  consume_known-Serial :
      (run : Run) (s : Spec) (w : World)
      → IsSerial e spec n (load w.d)
      → ((run.event == e) ≡ true → s ≡ spec)
      → Serial e spec n (consume_known codec run s w)
  unfolding consume_known
  consume_known-Serial run s w h is =
      elim (Bool-cases (run.trigger == "restart" && is_never s.restart)) [
        | inl x ↦ rw x (settle-Serial run Status.dropped "restart_disabled" "" w h)
        | inr x ↦ rw x (elim (Bool-cases (is_skip s.concurrency && busy)) [
          | inl y ↦ rw y (same_load true w (skip run w) (load-skip run w) h)
          | inr a ↦ rw a (elim (Bool-cases (is_queue s.concurrency && busy)) [
            | inl y ↦ rw y (same_load false w w refl h)
            | inr b ↦ rw b (elim (Bool-cases (is_replace s.concurrency && busy)) [
              | inl y ↦ rw y (
                  same_load false w _ (load-replace_active run (lookup run.event w.d.active) w.d) h)
              | inr c ↦ rw c (record {
                kept = start-IsSerial e spec n codec run s w h (λ own. idle own a b c);
              })
            ])
          ])
        ])
      ]
    where
      busy : Bool
      busy = ltb 0 (running_of run.event w.d)

      idle :
          (run.event == e) ≡ true
          → (is_skip s.concurrency && busy) ≡ false
          → (is_queue s.concurrency && busy) ≡ false
          → (is_replace s.concurrency && busy) ≡ false
          → running_of run.event w.d ≡ 0
      idle own a b c =
          let p : is_parallel s.concurrency ≡ false = rw (is own) serial in
          let free = no_other_policy s.concurrency busy p a b c in ground (arith, free)

  consume_newest-Serial :
      (run : Run) (w : World)
      → IsSerial e spec n (load w.d)
      → Serial e spec n (consume_newest codec run w)
  unfolding consume_newest
  consume_newest-Serial run w h =
      if_cases (Serial e spec n) _ _ _ (λ _. same_load false w w refl h)
        (λ _. go (lookup run.event w.d.specs) refl)
    where
      go :
          (o : Option Spec)
          → lookup run.event w.d.specs ≡ o
          → Serial e spec n (known_or_gone codec run w o)
      go none f = unfold known_or_gone in settle-Serial run Status.dropped "event_removed" "" w h
      go (some s) f = unfold known_or_gone in consume_known-Serial run s w h same_spec
        where
          same_spec : (run.event == e) ≡ true → s ≡ spec
          same_spec own = ground (arith, string_eq.decides run.event e, h.known, f)

  consume-Serial :
      (newest : Map String ℕ) (run : Run) (w : World)
      → IsSerial e spec n (load w.d)
      → Serial e spec n (consume codec newest run w)
  unfolding consume
  consume-Serial newest run w h = go (lookup run.event newest)
    where
      go : (o : Option ℕ) → Serial e spec n (newest_or_replaced codec run w o)
      go none = unfold newest_or_replaced in consume_newest-Serial run w h
      go (some id) =
          unfold newest_or_replaced in
          if_cases (Serial e spec n) _ _ _ (λ _. consume_newest-Serial run w h)
            (λ _. settle-Serial run Status.skipped "replaced" (run_text id) w h)

  consume_all-Serial :
      (newest : Map String ℕ) (runs : List Run) (progressed : Bool) (w : World)
      → IsSerial e spec n (load w.d)
      → Serial e spec n (consume_all codec newest runs progressed w)
  unfolding consume_all
  consume_all-Serial newest [] progressed w h = same_load progressed w w refl h
  consume_all-Serial newest (run ∷ rest) progressed w h =
      let first = consume-Serial newest run w h in
      let after =
        consume_all-Serial newest rest (progressed || (consume codec newest run w).0)
          (consume codec newest run w).1 first.kept in
      if_cases (Serial e spec n) (stops newest run w) _ _ (λ _. same_load progressed w w refl h)
        (λ _. after)

  schedule-IsSerial :
      (w : World) → IsSerial e spec n (load w.d) → SerialWorld e spec n (schedule codec w)
  unfolding schedule
  schedule-IsSerial w h = go _ h
    where
      go :
          (r : Result (List Run) × World)
          → IsSerial e spec n (load r.1.d)
          → SerialWorld e spec n (after_read codec r)
      go (err x, w') h' = unfold after_read in record { kept = h' }
      go (ok runs, w') h' =
          unfold after_read schedule_batch_of in
          let all = consume_all-Serial (newest_firings w'.d.specs runs []) runs false w' h' in
          if_cases (SerialWorld e spec n) _ _ _ (λ _. record { kept = all.kept })
            (λ _. record { kept = all.kept })

-- One pass of schedule keeps every count equal to the number of commands of the event in flight,
-- and never starts a command of an event whose policy is skip, queue or replace beside another: at
-- most one is in flight afterwards, unless more were before, whatever is queued and whichever
-- database calls fail.
pub schedule_serial :
    (codec : Codec) (w : World) (event : String) (spec : Spec)
    → Tally (load w.d)
    → lookup event w.d.specs ≡ some spec
    → is_parallel spec.concurrency ≡ false
    → Tally (load (schedule codec w).d)
      × (in_flight_of event (schedule codec w).d.in_flight
          ≤ max 1 (in_flight_of event w.d.in_flight))
schedule_serial codec w event spec t known serial =
    let after =
      schedule-IsSerial event spec serial (in_flight_of event w.d.in_flight) codec w
        (record { tally = t; bounded = omega arith; known = known }) in
    (after.kept.tally, after.kept.bounded)
