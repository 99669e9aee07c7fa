-- ===== src/Dispatch/Finish.antt =====
-- finish and restart of dispatcher.go: what happens when a command has ended.
use kickd.Prelude.{
  ℕ, ◌+◌, ◌-◌, ◌*◌, ◌/◌, Bool, true, false, ◌||◌, not, String, Option, none, some, [],
  if◌then◌else◌, leb, nat_eq, string_eq, ◌==◌,
}
use kickd.Prelude.Int.{ℤ, pos, negsuc, is_zero, smaller, double}
use kickd.Prelude.Map.{Map, lookup, insert, delete}
use kickd.Queue.Status.{Status}
use kickd.Queue.Row.{Run}
use kickd.Queue.Conn.{Result, ok, err}
use kickd.Queue.Insert.{enqueue}
use kickd.Queue.Runs.{Finish, finish_run}
use kickd.Event.{Event, Outcome, Codec}
use kickd.Dispatch.Spec.{Policy, Spec, is_queue, with_defaults, restarts_after}
use kickd.Dispatch.State.{ActiveRun, Dispatcher, World, call, poke, one_less, new_id, reply}

-- MaxQueuedPerEvent
abbrev pub max_queued_per_event : ℕ
max_queued_per_event = 1000

-- The limit that the dispatcher gives Enqueue and Follow.
abbrev pub queue_limit : Policy → ℕ
queue_limit p = if is_queue p then max_queued_per_event else 0

-- The status that finish records for a result.
unfoldable pub status_after : Outcome → Status
status_after res =
    if res.reason == "shutdown"
    then Status.interrupted
    else if res.error == "canceled"
    then Status.canceled
    else if not (res.error == "") || not (is_zero res.exit_code)
    then Status.failed
    else Status.succeeded

-- A time.Duration, in nanoseconds, of a number of milliseconds; and `now` after one, where a time
-- before 1970 counts as 0.
abbrev pub duration_of : ℕ → ℤ
duration_of ms = pos (1000000 * ms)

abbrev pub later_by : ℕ → ℤ → ℕ
later_by now (pos d) = now + d / 1000000
later_by now (negsuc d) = now - (d + 1000000) / 1000000

-- The delay of the next restart: the first delay, or twice the delay before, up to the maximum.
unfoldable pub next_delay : Spec → Option ℤ → ℕ → ℤ
next_delay spec none ran = duration_of spec.restart_delay
next_delay spec (some delay) ran =
    if leb spec.restart_max_delay ran
    then duration_of spec.restart_delay
    else smaller (double delay) (duration_of spec.restart_max_delay)

-- The firing that a trigger of the dispatcher itself queues.
abbrev pub own_event : String → String → String → String → ℕ → Spec → Event
own_event request_id name trigger trigger_id now spec = record {
  request_id = request_id;
  run_id = 0;
  attempt = 0;
  name = name;
  trigger = trigger;
  trigger_id = trigger_id;
  time = some now;
  data_map = with_defaults [] spec.defaults;
  source = "";
  files = [];
  cron = none;
  webhook = none;
  after = none;
  wake = none;
}

-- The struct Run that the dispatcher hands to the store for a firing.
abbrev pub run_for : Event → String → Option ℕ → Run
run_for ev payload not_before = record {
  id = 0;
  request_id = ev.request_id;
  event = ev.name;
  trigger = ev.trigger;
  trigger_id = ev.trigger_id;
  source = ev.source;
  payload = payload;
  status = Status.queued;
  reason = "";
  detail = "";
  attempt = 1;
  retry_of = 0;
  exit_code = none;
  signal = "";
  output = "";
  output_truncated = false;
  skipped = 0;
  cancel_requested = false;
  created_at = ev.time;
  started_at = none;
  finished_at = none;
  duration = 0;
  not_before = not_before;
}

abbrev pub set_d : World → Dispatcher → World
set_d w d = record w { d = d }

-- What restart makes of the answer of Enqueue.
unfoldable pub count_dropped : Result (ℕ × Bool) × World → World
count_dropped (ok (id, true), w) = set_d w (record w.d { dropped = w.d.dropped + 1 })
count_dropped (ok (id, false), w) = w
count_dropped (err e, w) = w

unfoldable pub enqueue_restart : Event → Option String → ℤ → ℕ → World → World
enqueue_restart ev none delay limit w = w
enqueue_restart ev (some payload) delay limit w =
    count_dropped (call (enqueue w.now (run_for ev payload (some (later_by w.now delay))) limit) w)

unfoldable pub queue_restart : Codec → Run → Spec → ℤ → World → World
queue_restart codec run spec delay w0 =
    let (request_id, w) = new_id w0 in
    let ev = own_event request_id run.event "restart" "restart" w.now spec in
    enqueue_restart ev (codec.marshal ev) delay (queue_limit spec.concurrency) w

-- restart, for the settings that the event has when the run ends.
unfoldable pub restart_with : Codec → Run → Status → ℕ → Option Spec → World → World
restart_with codec run status ran none w = w
restart_with codec run status ran (some spec) w =
    if restarts_after spec.restart status
    then (let delay = next_delay spec (lookup run.event w.d.restart_delays) ran in
        queue_restart codec run spec delay
          (set_d w (record w.d { restart_delays = insert run.event delay w.d.restart_delays })))
    else w

unfoldable pub restart : Codec → Run → Status → ℕ → World → World
restart codec run status ran w =
    if w.d.stopping then w else restart_with codec run status ran (lookup run.event w.d.specs) w

-- delete(d.active, event), if the run in progress is this one.
unfoldable pub end_active : String → ℕ → Map String ActiveRun → Map String ActiveRun
end_active event id active = elim (lookup event active) [
  | none ↦ active
  | some a ↦ if a.run_id == id then delete event active else active
]

abbrev pub finish_of : Spec → Outcome → Finish
finish_of spec res = record {
  status = status_after res;
  reason = res.reason;
  detail = "";
  exit_code = some res.exit_code;
  signal = res.signal;
  output = if spec.log_output then res.output else "";
  output_truncated = res.truncated;
  at = none;
  duration = res.duration;
}

-- What finish changes under the lock, before the reply.
unfoldable pub forget_run : Run → Dispatcher → Dispatcher
forget_run run d = record d {
  running = one_less run.event d.running;
  active = end_active run.event run.id d.active;
  cancels = delete run.id d.cancels;
  cancel_sent = delete run.id d.cancel_sent;
  run_info = delete run.id d.run_info;
}

unfoldable pub finish : Codec → Run → Spec → Outcome → World → World
finish codec run spec res w0 =
    let (_, w) = call (finish_run w0.now run.id (finish_of spec res)) w0 in
    let w1 = set_d w (reply run.id res (forget_run run w.d)) in
    let w2 = restart codec run (status_after res) res.duration w1 in set_d w2 (poke w2.d)
