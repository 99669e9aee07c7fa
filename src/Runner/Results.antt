-- ===== src/Runner/Results.antt =====
-- How execute reports a run, from how the process and its context ended.
use kickd.Prelude.{ℕ, ◌+◌, Bool, false, ◌&&◌, not, String, Option, none, some, if◌then◌else◌}
use kickd.Prelude.Int.{ℤ, negsuc, is_zero}
use kickd.Event.{Outcome}
use kickd.Dispatch.State.{Cause, canceled_by_user, replaced}

-- The state of a context: it goes on, its deadline has passed, or it was canceled, with a cause of
-- this program or without one, as when kickd stops.
pub data Context : Type 0 where
  live deadline_exceeded : Context
  canceled : Option Cause → Context

pub record Stats : Type 0 where
  pub processed : ℕ
  pub succeeded : ℕ
  pub failed : ℕ
  pub canceled : ℕ
  pub interrupted : ℕ

-- stopReason
unfoldable pub stop_reason : Context → String
stop_reason deadline_exceeded = "timeout"
stop_reason (canceled (some canceled_by_user)) = "canceled"
stop_reason (canceled (some replaced)) = "replaced"
stop_reason (canceled none) = "shutdown"
stop_reason live = "shutdown"

-- What is known of a process that has ended: its exit code, whether Wait failed, its signal, how long
-- it ran, and its captured output.
pub record Ended : Type 0 where
  pub exit_code : ℤ
  pub wait_failed : Bool
  pub signal : String
  pub duration : ℕ
  pub output : String
  pub truncated : Bool

abbrev pub outcome : Ended → String → String → Outcome
outcome p error reason = record {
  exit_code = p.exit_code;
  duration = p.duration;
  output = p.output;
  truncated = p.truncated;
  error = error;
  reason = reason;
  signal = p.signal;
}

abbrev pub count_failed : Stats → Stats
count_failed s = record s { processed = s.processed + 1; failed = s.failed + 1 }

abbrev pub count_canceled : Stats → Stats
count_canceled s = record s { processed = s.processed + 1; canceled = s.canceled + 1 }

abbrev pub count_interrupted : Stats → Stats
count_interrupted s = record s { processed = s.processed + 1; interrupted = s.interrupted + 1 }

abbrev pub count_succeeded : Stats → Stats
count_succeeded s = record s { processed = s.processed + 1; succeeded = s.succeeded + 1 }

-- The switch of execute after Wait, with the counters that it moves.
unfoldable pub report : Ended → Context → Stats → Outcome × Stats
report p deadline_exceeded s = (outcome p "timeout" "timeout", count_failed s)
report p (canceled (some canceled_by_user)) s =
    (outcome p "canceled" "canceled_by_user", count_canceled s)
report p (canceled (some replaced)) s = (outcome p "canceled" "replaced", count_canceled s)
report p (canceled none) s = (outcome p "canceled" "shutdown", count_interrupted s)
report p live s =
    if p.wait_failed && is_zero p.exit_code
    then (outcome p "wait_failed" "wait_failed", count_failed s)
    else if not (is_zero p.exit_code)
    then (outcome p "" "exit_code", count_failed s)
    else (outcome p "" "", count_succeeded s)

abbrev pub not_started : ℕ → String → String → String → Outcome
not_started duration error reason output = record {
  exit_code = negsuc 0;
  duration = duration;
  output = output;
  truncated = false;
  error = error;
  reason = reason;
  signal = "";
}

-- canceledBeforeStart, by the cause of the context.
unfoldable pub canceled_before_start : ℕ → Option Cause → Stats → Outcome × Stats
canceled_before_start d (some canceled_by_user) s =
    (not_started d "canceled" "canceled_by_user" "", count_canceled s)
canceled_before_start d (some replaced) s =
    (not_started d "canceled" "replaced" "", count_canceled s)
canceled_before_start d none s = (not_started d "canceled" "shutdown" "", count_interrupted s)

-- startFailure, with the text of the error.
unfoldable pub start_failure : ℕ → String → Stats → Outcome × Stats
start_failure d text s = (not_started d "start_failed" "start_failed" text, count_failed s)

-- The branch of execute on an error of Start.
unfoldable pub report_unstarted : ℕ → String → Context → Stats → Outcome × Stats
report_unstarted d text (canceled cause) s = canceled_before_start d cause s
report_unstarted d text _ s = start_failure d text s
