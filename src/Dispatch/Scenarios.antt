-- ===== src/Dispatch/Scenarios.antt =====
-- A dispatcher with one event, whose command runs while a second firing of it waits.
use kickd.Prelude.{
  ℕ, suc, ◌≤◌, ◌^◌, ◌*◌, min, ◌≡◌, refl, true, false, none, some, [], ◌∷◌, arith, max, string_eq,
  nat_eq, ◌==◌, count, filter, Bool-cases, inl, inr, if◌then◌else◌, All,
}
use kickd.Prelude.Int.{negsuc, is_negative, double, int64}
use kickd.Prelude.Map.{lookup}
use kickd.Queue.Status.{running}
use kickd.Queue.Row.{Row, Db, scan_run}
use kickd.Queue.Conn.{statement, transaction}
use kickd.Queue.Insert.{enqueue, insert_run, queue_full, insert_row}
use kickd.Queue.Runs.{finish_run}
use kickd.Queue.Recovery.{was_cut_off, interrupted_runs, retry, abandon}
use kickd.Queue.Scenarios.{backup, first_row}
use kickd.Event.{Event, Outcome, Codec}
use kickd.Dispatch.Spec.{Spec}
use kickd.Dispatch.Spec
use kickd.Dispatch.State.{Dispatcher, World, Spawned}
use kickd.Dispatch.Finish.{own_event, status_after, duration_of, next_delay, finish_of, finish}
use kickd.Dispatch.Schedule.{schedule}
use kickd.Dispatch.Submit.{submit, fill_id, submit_known, submit_payload, queued_answer}
use kickd.Dispatch.Recover.{
  recover, recover_read, recover_all, recover_run, recover_with, rerun_run, requeue,
}
use kickd.Dispatch.Load.{load}
use kickd.Dispatch.Serial.{Tally, in_flight_of, schedule_serial}
use kickd.Dispatch.Repaired.{Later, IsRepaired}
use kickd.Dispatch.Settled.{recover_settles}
use kickd.Dispatch.Completes.{recover_completes}
use kickd.Dispatch.Attempts.{recover_attempts}
use kickd.Dispatch.Restarts.{finish_canceled, backoff, backoff_doubles}
use kickd.Dispatch.Accepted.{IsQueued, submit_queued}

-- A codec that knows one payload.
abbrev pub one_payload : Event → Codec
one_payload ev = record {
  marshal = λ _. some "{}";
  unmarshal = λ text. if text == "{}" then some ev else none;
}

abbrev pub skipping : Spec
skipping = record {
  name = "backup";
  concurrency = Spec.skip;
  restart = Spec.on_failure;
  restart_delay = 1000;
  restart_max_delay = 60000;
  on_interrupt = Spec.rerun;
  max_attempts = 2;
  log_output = true;
  defaults = [];
  after = [];
}

abbrev pub firing : Event
firing = own_event "a1" "backup" "cron" "cron:0 3 * * *" 5 skipping

abbrev pub under_way : Spawned
under_way = record {
  run = record backup { id = 7; status = running };
  spec = skipping;
  event = firing;
}

abbrev pub busy : Dispatcher
busy = record {
  specs = ("backup", skipping) ∷ [];
  follows = [];
  running = ("backup", 1) ∷ [];
  active =
      (
        "backup",
        record { run_id = 7; request_id = "a0"; start = 3; skipped = 0; replacing = false },
      )
      ∷ [];
  cancels = (7, none) ∷ [];
  cancel_sent = [];
  run_info = (7, ("a0", "backup")) ∷ [];
  waiters = [];
  wake = false;
  restart_delays = [];
  next_due = none;
  stopping = false;
  in_flight = under_way ∷ [];
  replies = [];
  dropped = 0;
  skipped = 0;
}

abbrev pub waiting_db : Db
waiting_db = record {
  runs = first_row ∷ record first_row { id = 2 } ∷ [];
  next_id = 8;
  agent = none;
  cron_state = [];
}

abbrev pub world : World
world = record {
  d = busy;
  conn = record { db = waiting_db; faults = [] };
  now = 20;
  new_ids = "r1" ∷ "r2" ∷ [];
}

busy-Tally : Tally (load busy)
unfolding in_flight_of count lookup
busy-Tally event = elim (Bool-cases ("backup" == event)) [ inl e ↦ rw e refl | inr e ↦ rw e refl ]

schedule_serial_example :
    Tally (load (schedule (one_payload firing) world).d)
    × (in_flight_of "backup" (schedule (one_payload firing) world).d.in_flight
        ≤ max 1 (in_flight_of "backup" world.d.in_flight))
schedule_serial_example =
    schedule_serial (one_payload firing) world "backup" skipping busy-Tally (unfold lookup in refl)
      refl

-- A run that a crash cut off, on its first attempt.
abbrev crashed_row : Row
crashed_row = record first_row { id = 3; status = running; started_at = some 6 }

abbrev crashed : World
crashed = record world {
  conn = record {
    db = record { runs = crashed_row ∷ []; next_id = 8; agent = none; cron_state = [] };
    faults = [];
  };
}

recover_completes_example : (recover (one_payload firing) crashed).0 ≡ none
recover_completes_example = recover_completes (one_payload firing) crashed (λ ev. ("{}", refl)) refl

recover_settles_example :
    let rows = (recover (one_payload firing) crashed).1.conn.db.runs in
    All (λ r. was_cut_off r ≡ false) rows × Later IsRepaired (crashed_row ∷ []) rows
unfolding recover interrupted_runs recover_read recover_all recover_run recover_with rerun_run
    requeue retry abandon transaction statement insert_row filter lookup scan_run
recover_settles_example = recover_settles (one_payload firing) crashed refl

recover_attempts_example :
    All
      (λ r.
        8 ≤ r.id
        → (s : Spec) × (lookup r.event busy.specs ≡ some s)
          × (s.on_interrupt ≡ Spec.rerun)
          × (r.attempt ≤ s.max_attempts))
      (recover (one_payload firing) crashed).1.conn.db.runs
recover_attempts_example = recover_attempts (one_payload firing) crashed (omega arith, omega arith)

abbrev stopped : Outcome
stopped = record {
  exit_code = negsuc 0;
  duration = 4;
  output = "";
  truncated = false;
  error = "canceled";
  reason = "canceled_by_user";
  signal = "terminated";
}

finish_canceled_example :
    (finish (one_payload firing) under_way.run skipping stopped world).conn
    ≡ (finish_run 20 7 (finish_of skipping stopped) world.conn).1
unfolding status_after
finish_canceled_example =
    finish_canceled (one_payload firing) under_way.run skipping stopped world (inl refl)

backoff_doubles_example :
    (backoff skipping (λ _. 5) 0 ≡ duration_of 1000)
    × ((k : ℕ) → backoff skipping (λ _. 5) (suc k) ≡ duration_of (min (2 ^ suc k * 1000) 60000))
backoff_doubles_example =
    backoff_doubles skipping (λ _. 5) (λ k. omega arith) (omega arith) (omega arith)

-- Delays of 1300000 and 2500000 hours: twice the first one does not fit a time.Duration.
abbrev slow : Spec
slow = record skipping { restart_delay = 1300000 * 3600000; restart_max_delay = 2500000 * 3600000 }

wrapped_delay_test : is_negative (backoff slow (λ _. 5) 1) ≡ true
unfolding backoff next_delay double int64
wrapped_delay_test = refl

submit_queued_example :
    IsQueued "backup" true waiting_db
      (submit (one_payload firing) "backup" firing true world).0.id
      (submit (one_payload firing) "backup" firing true world).1
unfolding submit fill_id submit_known submit_payload queued_answer enqueue insert_run queue_full
    insert_row transaction statement lookup
submit_queued_example =
    submit_queued (one_payload firing) "backup" firing true world
      (omega arith, (omega arith, omega arith)) refl
