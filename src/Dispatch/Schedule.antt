-- ===== src/Dispatch/Schedule.antt =====
-- schedule, skip and settle of dispatcher.go: how queued rows are consumed.
use Prim.Native.String.{◌++◌ as text_append}
use kickd.Prelude.{
  ℕ, ◌+◌, Bool, true, false, ◌&&◌, ◌||◌, String, Option, none, some, List, [], ◌∷◌, if◌then◌else◌,
  ltb, length, nat_eq, string_eq, ◌==◌,
}
use kickd.Prelude.Int.{negsuc}
use kickd.Prelude.Text.{decimal}
use kickd.Prelude.Map.{Map, lookup, insert}
use kickd.Queue.Status
use kickd.Queue.Status.{Status}
use kickd.Queue.Row.{Run}
use kickd.Queue.Conn.{Result, ok, err}
use kickd.Queue.Runs.{start_run, add_skipped}
use kickd.Queue.Runs
use kickd.Queue.Reads.{queued_runs}
use kickd.Event.{Event, Outcome, Codec}
use kickd.Dispatch.Spec.{Spec, is_skip, is_queue, is_replace, is_parallel, is_never, with_defaults}
use kickd.Dispatch.State.{
  ActiveRun, Cause, replaced, Dispatcher, World, Spawned, call, poke, running_of, reply,
}
use kickd.Dispatch.Finish.{set_d, finish}

-- scheduleBatch
abbrev pub schedule_batch : ℕ
schedule_batch = 500

abbrev pub has_policy : (Spec → Bool) → Option Spec → Bool
has_policy p none = false
has_policy p (some spec) = p spec

-- The events that run under the queue policy.
unfoldable pub waiting_events : Map String Spec → Map String ℕ → List String
waiting_events specs [] = []
waiting_events specs ((name, n) ∷ rest) =
    let names = waiting_events specs rest in
    if ltb 0 n && has_policy (λ s. is_queue s.concurrency) (lookup name specs)
    then name ∷ names
    else names

-- The newest firing in the batch of each event under the replace policy.
unfoldable pub newest_firings : Map String Spec → List Run → Map String ℕ → Map String ℕ
newest_firings specs [] newest = newest
newest_firings specs (run ∷ rest) newest = newest_firings specs rest (
    if has_policy (λ s. is_replace s.concurrency) (lookup run.event specs)
    then insert run.event run.id newest
    else newest)

abbrev pub run_text : ℕ → String
run_text id = text_append "run " (decimal id)

abbrev pub settled_result : Status → String → Outcome
settled_result status reason = record {
  exit_code = negsuc 0;
  duration = 0;
  output = "";
  truncated = false;
  error = Status.text status;
  reason = reason;
  signal = "";
}

unfoldable pub after_settle : Run → Status → String → Result Bool × World → Bool × World
after_settle run status reason (ok true, w) =
    (true, set_d w (reply run.id (settled_result status reason) w.d))
after_settle run status reason (ok false, w) = (false, w)
after_settle run status reason (err e, w) = (false, w)

-- settle, and the `done` that each caller runs after it: whether the row was still queued.
unfoldable pub settle : Run → Status → String → String → World → Bool × World
settle run status reason detail w =
    after_settle run status reason (call (Runs.settle w.now run.id status reason detail) w)

-- a.skipped++, in the record that the map `active` points to.
abbrev pub count_skip : ActiveRun → ActiveRun
count_skip a = record a { skipped = a.skipped + 1 }

unfoldable pub skip_over : Run → Option ActiveRun → Bool × World → World
skip_over run a (false, w) = w
skip_over run none (true, w) = set_d w (record w.d { skipped = w.d.skipped + 1 })
skip_over run (some a) (true, w) =
    (call (add_skipped a.run_id) (
      set_d w (record w.d {
        skipped = w.d.skipped + 1;
        active = insert run.event (count_skip a) w.d.active;
      }))).1

abbrev pub active_detail : Option ActiveRun → String
active_detail none = ""
active_detail (some a) = run_text a.run_id

unfoldable pub skip : Run → World → World
skip run w =
    let a = lookup run.event w.d.active in
    skip_over run a (settle run Status.skipped "already_running" (active_detail a) w)

-- cancel(cause) of a run's context: the first cause stays.
unfoldable pub cancel_with : Cause → ℕ → Map ℕ (Option Cause) → Map ℕ (Option Cause)
cancel_with cause id cancels = elim (lookup id cancels) [
  | some none ↦ insert id (some cause) cancels
  | _ ↦ cancels
]

abbrev pub mark_replacing : ActiveRun → ActiveRun
mark_replacing a = record a { replacing = true }

-- The run in progress is asked to stop, once.
unfoldable pub replace_active : Run → Option ActiveRun → Dispatcher → Dispatcher
replace_active run none d = d
replace_active run (some a) d = if a.replacing then d else record d {
  active = insert run.event (mark_replacing a) d.active;
  cancels = cancel_with replaced a.run_id d.cancels;
}

-- What schedule records for a run that it has started.
unfoldable pub note_start : ℕ → Run → Spec → Dispatcher → Dispatcher
note_start now run spec d = record d {
  running = insert run.event (running_of run.event d + 1) d.running;
  active =
      if is_parallel spec.concurrency
      then d.active
      else insert run.event
          (record {
            run_id = run.id;
            request_id = run.request_id;
            start = now;
            skipped = 0;
            replacing = false;
          })
          d.active;
  cancels = insert run.id none d.cancels;
  run_info = insert run.id (run.request_id, run.event) d.run_info;
}

abbrev pub unreadable : Outcome
unreadable = record {
  exit_code = negsuc 0;
  duration = 0;
  output = "";
  truncated = false;
  error = "start_failed";
  reason = "payload_invalid";
  signal = "";
}

-- The payload as the command gets it, and the run is handed to the runner.
unfoldable pub spawn : Run → Spec → Event → World → World
spawn run spec payload w = set_d w (record w.d { in_flight = started ∷ w.d.in_flight })
  where
    ev : Event
    ev = record payload {
      request_id = run.request_id;
      run_id = run.id;
      attempt = run.attempt;
      data_map = with_defaults payload.data_map spec.defaults;
    }

    started : Spawned
    started = record { run = run; spec = spec; event = ev }

unfoldable pub launch_with : Codec → Run → Spec → Option Event → World → World
launch_with codec run spec none w = finish codec run spec unreadable w
launch_with codec run spec (some ev) w = spawn run spec ev w

unfoldable pub launch : Codec → Run → Spec → World → World
launch codec run spec w =
    launch_with codec run spec (codec.unmarshal run.payload)
      (set_d w (note_start w.now run spec w.d))

unfoldable pub after_start : Codec → Run → Spec → Result Bool × World → Bool × World
after_start codec run spec (ok true, w) = (true, launch codec run spec w)
after_start codec run spec (ok false, w) = (false, w)
after_start codec run spec (err e, w) = (false, w)

-- StartRun, whose answer says whether the row was still queued; the Bool is `progressed`.
unfoldable pub start : Codec → Run → Spec → World → Bool × World
start codec run spec w = after_start codec run spec (call (start_run run.id w.now) w)

-- The switch of the loop of schedule, for an event that has settings.
unfoldable pub consume_known : Codec → Run → Spec → World → Bool × World
consume_known codec run spec w =
    let busy = ltb 0 (running_of run.event w.d) in
    if run.trigger == "restart" && is_never spec.restart
    then (true, (settle run Status.dropped "restart_disabled" "" w).1)
    else if is_skip spec.concurrency && busy
    then (true, skip run w)
    else if is_queue spec.concurrency && busy
    then (false, w)
    else if is_replace spec.concurrency && busy
    then (false, set_d w (replace_active run (lookup run.event w.d.active) w.d))
    else start codec run spec w

-- A run whose event the configuration does not have any more is dropped.
unfoldable pub known_or_gone : Codec → Run → World → Option Spec → Bool × World
known_or_gone codec run w none = (true, (settle run Status.dropped "event_removed" "" w).1)
known_or_gone codec run w (some spec) = consume_known codec run spec w

unfoldable pub consume_newest : Codec → Run → World → Bool × World
consume_newest codec run w =
    if w.d.stopping then (false, w) else known_or_gone codec run w (lookup run.event w.d.specs)

-- A firing before the newest one of its event is replaced before it starts.
unfoldable pub newest_or_replaced : Codec → Run → World → Option ℕ → Bool × World
newest_or_replaced codec run w none = consume_newest codec run w
newest_or_replaced codec run w (some id) =
    if id == run.id
    then consume_newest codec run w
    else (true, (settle run Status.skipped "replaced" (run_text id) w).1)

-- One round of the loop of schedule.
unfoldable pub consume : Codec → Map String ℕ → Run → World → Bool × World
consume codec newest run w = newest_or_replaced codec run w (lookup run.event newest)

-- The loop over the batch. Once the runner stops, consume changes nothing but the rows that were
-- replaced before, where the source returns: `stops` ends the loop there.
unfoldable pub stops : Map String ℕ → Run → World → Bool
stops newest run w =
    w.d.stopping && (elim (lookup run.event newest) [ none ↦ true | some id ↦ id == run.id ])

unfoldable pub consume_all : Codec → Map String ℕ → List Run → Bool → World → Bool × World
consume_all codec newest [] progressed w = (progressed, w)
consume_all codec newest (run ∷ rest) progressed w =
    let (more, w') = consume codec newest run w in
    let after = consume_all codec newest rest (progressed || more) w' in
    if stops newest run w then (progressed, w) else after

unfoldable pub schedule_batch_of : Codec → List Run → World → World
schedule_batch_of codec runs w0 =
    let (progressed, w) = consume_all codec (newest_firings w0.d.specs runs []) runs false w0 in
    if progressed && length runs == schedule_batch then set_d w (poke w.d) else w

unfoldable pub after_read : Codec → Result (List Run) × World → World
after_read codec (ok runs, w) = schedule_batch_of codec runs w
after_read codec (err e, w) = w

unfoldable pub schedule : Codec → World → World
schedule codec w =
    after_read codec
      (call (queued_runs w.now schedule_batch (waiting_events w.d.specs w.d.running)) w)
