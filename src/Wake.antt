-- ===== src/Wake.antt =====
-- internal/trigger/wake.go: events fire when the machine wakes from sleep.
pub mod Total
mod Scenarios
use kickd.Prelude.{
  ℕ, ◌+◌, ◌-◌, ◌/◌, Bool, String, Option, none, some, List, [], ◌∷◌, ◌++◌, if◌then◌else◌, leb,
}
use kickd.Event.{Event, Codec}
use kickd.Dispatch.State.{World, new_id}
use kickd.Dispatch.Submit.{dispatch}

-- MinSleep, in milliseconds.
abbrev pub min_sleep : ℕ
min_sleep = 1000

-- One tick: the time, and how long the machine has slept since it booted, if the clocks could be
-- read.
abbrev pub Reading : Type 0
Reading = ℕ × Option ℕ

-- The last reading that succeeded.
pub record Watch : Type 0 where
  pub prev : ℕ
  pub prev_at : ℕ

-- A sleep that fires the events: when the machine was last seen awake, and how long it slept.
pub record Wakeup : Type 0 where
  pub awake : ℕ
  pub duration : ℕ

abbrev pub wake_event : String → Wakeup → String → ℕ → Event
wake_event name s request_id now = record {
  request_id = request_id;
  run_id = 0;
  attempt = 0;
  name = name;
  trigger = "wake";
  trigger_id = "wake";
  time = some now;
  data_map = [];
  source = "";
  files = [];
  cron = none;
  webhook = none;
  after = none;
  wake = some (record { slept_at = s.awake; slept_seconds = (s.duration + 500) / 1000 });
}

-- fire, for the events in the order in which Go ranges over the map.
unfoldable pub fire : Codec → List String → Wakeup → World → World
fire codec [] s w = w
fire codec (name ∷ rest) s w0 =
    let (request_id, w) = new_id w0 in
    fire codec rest s (dispatch codec name (wake_event name s request_id w.now) w).1

unfoldable pub tick_slept : Codec → List String → ℕ → Watch → World → List Wakeup × World
tick_slept codec events cur st w =
    let s : Wakeup = record { awake = st.prev_at; duration = cur - st.prev } in
    if leb min_sleep (cur - st.prev) then (s ∷ [], fire codec events s w) else ([], w)

-- The body of the loop of Run: the sleep that it fired for, if any.
unfoldable pub tick :
    Codec → List String → ℕ → Option ℕ → Watch → World → List Wakeup × Watch × World
tick codec events now none st w = ([], st, w)
tick codec events now (some cur) st w =
    let (fired, w') = tick_slept codec events cur st (record w { now = now }) in
    (fired, record { prev = cur; prev_at = now }, w')

unfoldable pub watch :
    Codec → List String → List Reading → Watch → World → List Wakeup × Watch × World
watch codec events [] st w = ([], st, w)
watch codec events ((now, slept) ∷ rest) st w =
    let (fired, st', w') = tick codec events now slept st w in
    let (others, st'', w'') = watch codec events rest st' w' in (fired ++ others, st'', w'')
