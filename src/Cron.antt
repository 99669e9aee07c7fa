-- ===== src/Cron.antt =====
-- internal/trigger/cron.go: the cron triggers of one configuration.
pub mod Latest
mod Scenarios
use Prim.Native.String.{◌++◌ as text_append}
use kickd.Prelude.{
  ℕ, zero, suc, ◌+◌, ◌-◌, ◌*◌, min, max, Bool, true, false, not, String, Option, none, some, List,
  [], ◌∷◌, if◌then◌else◌, ltb, leb,
}
use kickd.Queue.Conn.{Result, ok, err}
use kickd.Queue.Agents.{last_cron, set_last_cron}
use kickd.Event.{Event, Codec}
use kickd.Dispatch.State.{World, call, new_id}
use kickd.Dispatch.Submit.{dispatch}

-- Times are milliseconds.
abbrev pub missed_after : ℕ
missed_after = 60000

abbrev pub max_cron_wait : ℕ
max_cron_wait = 1000

abbrev pub max_catch_up_steps : ℕ
max_catch_up_steps = 1000000

pub data Missed : Type 0 where
  run skip : Missed

-- `next` is gocron's Schedule.Next: the first scheduled time after the given one, if there is any.
pub record CronEntry : Type 0 where
  pub event : String
  pub schedule : String
  pub missed : Missed
  pub key : String
  pub next : ℕ → Option ℕ
  pub last : ℕ

-- save; `has_state` says that the scheduler has a CronState, which is the store.
unfoldable pub save : Bool → CronEntry → ℕ → World → World
save has_state e at w = if has_state then (call (set_last_cron e.key at) w).1 else w

unfoldable pub load_state : CronEntry → Result (Option ℕ) × World → CronEntry × World
load_state e (err x, w) = (record e { last = w.now }, w)
load_state e (ok none, w) = (record e { last = w.now }, save true e w.now w)
load_state e (ok (some last), w) =
    if ltb last w.now
    then (record e { last = last }, w)
    else (record e { last = w.now }, save true e w.now w)

unfoldable pub load : Bool → CronEntry → World → CronEntry × World
load has_state e w =
    if has_state then load_state e (call (last_cron e.key) w) else (record e { last = w.now }, w)

-- The time from `now` to the next scheduled time of the entry; 0 where it has passed.
abbrev pub sooner : ℕ → Option ℕ → ℕ → ℕ
sooner now none d = d
sooner now (some next) d = min (next - now) d

unfoldable pub wait_from : ℕ → List CronEntry → ℕ → ℕ
wait_from now [] d = d
wait_from now (e ∷ rest) d = wait_from now rest (sooner now (e.next e.last) d)

unfoldable pub wait : ℕ → List CronEntry → ℕ
wait now entries = max (wait_from now entries max_cron_wait) 1

-- What the loop of check has found: the latest scheduled time, and how many were missed.
pub record Scan : Type 0 where
  pub latest : ℕ
  pub missed : ℕ

abbrev pub note : ℕ → ℕ → Scan → Scan
note now t s = record {
  latest = t;
  missed = if ltb missed_after (now - t) then s.missed + 1 else s.missed;
}

-- The loop of check over the scheduled times up to `now`, for at most `fuel` of them.
unfoldable pub scan : (ℕ → Option ℕ) → ℕ → ℕ → Option ℕ → Scan → Scan
scan next now zero t s = s
scan next now (suc fuel) none s = s
scan next now (suc fuel) (some t) s =
    let s' = note now t s in
    let rest = scan next now fuel (next t) s' in
    if ltb now t then s else if leb max_catch_up_steps s'.missed then s' else rest

-- The scheduled times that are due, from `first` on. They grow, so `now` + 2 rounds are enough.
unfoldable pub due : CronEntry → ℕ → ℕ → Scan
due e now first =
    scan e.next now (suc (suc now)) (some first) (record { latest = first; missed = 0 })

abbrev pub cron_event : CronEntry → ℕ → Bool → String → ℕ → Event
cron_event e scheduled missed request_id now = record {
  request_id = request_id;
  run_id = 0;
  attempt = 0;
  name = e.event;
  trigger = "cron";
  trigger_id = text_append "cron:" e.schedule;
  time = some now;
  data_map = [];
  source = "";
  files = [];
  cron = some (record { schedule = e.schedule; scheduled_at = scheduled; missed = missed });
  webhook = none;
  after = none;
  wake = none;
}

unfoldable pub fire : Codec → CronEntry → ℕ → Bool → World → World
fire codec e scheduled missed w0 =
    let (request_id, w) = new_id w0 in
    (dispatch codec e.event (cron_event e scheduled missed request_id w.now) w).1

abbrev pub is_skip : Missed → Bool
is_skip skip = true
is_skip run = false

unfoldable pub fire_due : Codec → CronEntry → Scan → World → World
fire_due codec e s w =
    if leb (w.now - s.latest) missed_after
    then fire codec e s.latest false w
    else if not (is_skip e.missed)
    then fire codec e s.latest true w
    else w

unfoldable pub check_next : Codec → Bool → CronEntry → World → Option ℕ → CronEntry × World
check_next codec has_state e w none = (e, w)
check_next codec has_state e w (some first) = if ltb w.now first then (e, w) else (
  record e { last = w.now },
  fire_due codec e (due e w.now first) (save has_state e w.now w),
)

unfoldable pub check : Codec → Bool → List CronEntry → World → List CronEntry × World
check codec has_state [] w = ([], w)
check codec has_state (e ∷ rest) w =
    let (e', w1) = check_next codec has_state e w (e.next e.last) in
    let (rest', w2) = check codec has_state rest w1 in (e' ∷ rest', w2)
