-- ===== src/Dispatch/Recover.antt =====
-- Recover of dispatcher.go: what becomes of the runs that a stop or a crash cut off.
use kickd.Prelude.{
  ◌+◌, Bool, true, false, not, String, Option, none, some, List, [], ◌∷◌, if◌then◌else◌, leb,
  string_eq, ◌==◌,
}
use kickd.Prelude.Map.{lookup}
use kickd.Queue.Status.{interrupted, status_eq}
use kickd.Queue.Row.{Run}
use kickd.Queue.Conn.{Error, Result, ok, err}
use kickd.Queue.Recovery.{interrupted_runs, abandon}
use kickd.Queue.Recovery
use kickd.Event.{Event, Codec}
use kickd.Dispatch.Spec.{OnInterrupt, rerun, abandon as abandons, Spec}
use kickd.Dispatch.State.{World, call}

-- The error with which Recover ends, if it does.
pub data Halt : Type 0 where
  store : Error → Halt
  unwritable : Halt

abbrev pub is_rerun : OnInterrupt → Bool
is_rerun rerun = true
is_rerun abandons = false

abbrev pub cut_off_by : Run → String
cut_off_by run = if run.status == interrupted then "agent_stopped" else "agent_crashed"

abbrev pub halted_by : {A : Type 0} → Result A × World → Option Halt × World
halted_by (ok a, w) = (none, w)
halted_by (err e, w) = (some (store e), w)

abbrev pub abandon_as : String → Run → World → Option Halt × World
abandon_as reason run w = halted_by (call (abandon w.now run.id reason) w)

unfoldable pub requeue : Run → String → World → Option String → Option Halt × World
requeue run how w none = (some unwritable, w)
requeue run how w (some payload) = halted_by (call (Recovery.retry w.now run payload how) w)

unfoldable pub rerun_run : Codec → Run → String → World → Option Event → Option Halt × World
rerun_run codec run how w none = abandon_as "payload_invalid" run w
rerun_run codec run how w (some ev) =
    requeue run how w (codec.marshal (record ev { attempt = run.attempt + 1; run_id = 0 }))

-- The switch of Recover, for the settings that the event has now.
unfoldable pub recover_with : Codec → Run → World → Option Spec → Option Halt × World
recover_with codec run w none = abandon_as "event_removed" run w
recover_with codec run w (some spec) =
    if not (is_rerun spec.on_interrupt)
    then abandon_as (cut_off_by run) run w
    else if leb spec.max_attempts run.attempt
    then abandon_as "max_attempts_reached" run w
    else rerun_run codec run (cut_off_by run) w (codec.unmarshal run.payload)

unfoldable pub recover_run : Codec → Run → World → Option Halt × World
recover_run codec run w = recover_with codec run w (lookup run.event w.d.specs)

-- The loop of Recover, which the first error ends.
abbrev pub unless_halted : Option Halt × World → (World → Option Halt × World) → Option Halt × World
unless_halted (none, w) rest = rest w
unless_halted (some h, w) rest = (some h, w)

unfoldable pub recover_all : Codec → List Run → World → Option Halt × World
recover_all codec [] w = (none, w)
recover_all codec (run ∷ rest) w = unless_halted (recover_run codec run w) (recover_all codec rest)

unfoldable pub recover_read : Codec → Result (List Run) × World → Option Halt × World
recover_read codec (ok runs, w) = recover_all codec runs w
recover_read codec (err e, w) = (some (store e), w)

unfoldable pub recover : Codec → World → Option Halt × World
recover codec w = recover_read codec (call interrupted_runs w)
