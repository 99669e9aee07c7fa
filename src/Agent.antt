-- ===== src/Agent.antt =====
-- internal/agent/agent.go: how the agent makes the dispatcher's settings, the routes of the webhooks
-- and the triggers out of a configuration.
pub mod Routes
pub mod Hooks
mod Served
pub mod Accepted
mod Scenarios
use kickd.Prelude.{
  ℕ, ◌*◌, ◌+◌, Bool, true, false, ◌&&◌, not, String, Option, none, some, List, [], ◌∷◌, ◌++◌, map,
  any, filter, if◌then◌else◌, string_eq, ◌==◌, length,
}
use kickd.Prelude.Int.{ℤ, amount}
use kickd.Prelude.Map.{Map, insert}
use kickd.Queue.Status.{Status, succeeded, failed, canceled, skipped, dropped, abandoned}
use kickd.Event
use kickd.Event.{Codec}
use kickd.Config.Model.{
  Param, Trigger, Event, Output, Config, logs_output, Kind, kind_of, after, startup,
}
use kickd.Dispatch.Spec.{Spec, AfterTrigger, Policy, Restart, OnInterrupt}
use kickd.Dispatch.Spec
use kickd.Dispatch.State.{World, new_id}
use kickd.Dispatch.Submit.{dispatch}

-- The words of the configuration, which the dispatcher compares its settings with.
unfoldable pub policy_of : String → Option Policy
policy_of s =
    if s == "skip"
    then some Spec.skip
    else if s == "queue"
    then some Spec.queue
    else if s == "parallel"
    then some Spec.parallel
    else if s == "replace"
    then some Spec.replace
    else none

unfoldable pub restart_of : String → Option Restart
restart_of s =
    if s == "never"
    then some Spec.never
    else if s == "on-failure"
    then some Spec.on_failure
    else if s == "always"
    then some Spec.always
    else none

unfoldable pub on_interrupt_of : String → Option OnInterrupt
on_interrupt_of s =
    if s == "abandon" then some Spec.abandon else if s == "rerun" then some Spec.rerun else none

unfoldable pub status_of : String → Option Status
status_of s =
    if s == "succeeded"
    then some succeeded
    else if s == "failed"
    then some failed
    else if s == "canceled"
    then some canceled
    else if s == "skipped"
    then some skipped
    else if s == "dropped"
    then some dropped
    else if s == "abandoned"
    then some abandoned
    else none

-- Every declared parameter has a default, empty where none is given.
unfoldable pub defaults_of : List Param → Map String String → Map String String
defaults_of [] m = m
defaults_of (p ∷ ps) m = defaults_of ps (insert p.name p.default m)

abbrev pub and_then {ℓ} : {A B : Type ℓ} → Option A → (A → Option B) → Option B
and_then none f = none
and_then (some a) f = f a

unfoldable pub statuses_of : List String → Option (List Status)
statuses_of [] = some []
statuses_of (s ∷ rest) =
    let later = statuses_of rest in
    and_then (status_of s) (λ st. and_then later (λ sts. some (st ∷ sts)))

unfoldable pub after_of_kind :
    Trigger → Option (List AfterTrigger) → Kind → Option (List AfterTrigger)
after_of_kind t later after =
    and_then (statuses_of t.status)
      (λ sts. and_then later (λ ts. some (record { event = t.event; statuses = sts } ∷ ts)))
after_of_kind t later _ = later

unfoldable pub after_of : List Trigger → Option (List AfterTrigger)
after_of [] = some []
after_of (t ∷ ts) = after_of_kind t (after_of ts) (kind_of t.type)

abbrev pub spec_with : Event → Policy → Restart → OnInterrupt → List AfterTrigger → Spec
spec_with e concurrency restart on_interrupt after_triggers = record {
  name = e.name;
  concurrency = concurrency;
  restart = restart;
  restart_delay = amount e.restart_delay;
  restart_max_delay = amount e.restart_max_delay;
  on_interrupt = on_interrupt;
  max_attempts = amount e.max_attempts;
  log_output = logs_output e;
  defaults = defaults_of e.params [];
  after = after_triggers;
}

-- specs, for one event: `none` where a word is none of those that the dispatcher knows. The code
-- hands the words on as they are.
unfoldable pub spec_of : Event → Option Spec
spec_of e = and_then (policy_of e.concurrency) (λ concurrency.
    and_then (restart_of e.restart) (λ restart.
      and_then (on_interrupt_of e.on_interrupt) (λ on_interrupt.
        and_then (after_of e.triggers)
          (λ triggers. some (spec_with e concurrency restart on_interrupt triggers)))))

-- specs
unfoldable pub specs : List Event → Option (List Spec)
specs [] = some []
specs (e ∷ es) =
    let later = specs es in and_then (spec_of e) (λ s. and_then later (λ ss. some (s ∷ ss)))

-- countTriggers
unfoldable pub count_triggers : List Event → ℕ
count_triggers [] = 0
count_triggers (e ∷ es) = length e.triggers + count_triggers es

abbrev pub is_startup : Kind → Bool
is_startup startup = true
is_startup _ = false

-- The payload of a startup trigger.
abbrev pub startup_event : String → ℕ → Event.Event
startup_event id now = record {
  request_id = id;
  run_id = 0;
  attempt = 0;
  name = "";
  trigger = "startup";
  trigger_id = "startup";
  time = some now;
  data_map = [];
  source = "";
  files = [];
  cron = none;
  webhook = none;
  after = none;
  wake = none;
}

module _ (codec : Codec) (now : ℕ) where
  unfoldable pub fire_triggers : String → List Trigger → World → World
  fire_triggers name [] w = w
  fire_triggers name (t ∷ ts) w = fire_triggers name ts (
      if is_startup (kind_of t.type)
      then (let (id, w') = new_id w in (dispatch codec name (startup_event id now) w').1)
      else w)

  -- fireStartup
  unfoldable pub fire_startup : List Event → World → World
  fire_startup [] w = w
  fire_startup (e ∷ es) w = fire_startup es (fire_triggers e.name e.triggers w)
