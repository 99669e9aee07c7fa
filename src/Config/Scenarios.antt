-- ===== src/Config/Scenarios.antt =====
-- Two events, of which one follows the other, and a config that has them.
use kickd.Prelude.{
  ◌≡◌, refl, Bool, true, false, ◌⊎◌, String, none, List, [], ◌∷◌, contains, string_eq,
}
use kickd.Prelude.Int.{pos}
use kickd.Prelude.Ascii.{has_prefix}
use kickd.Prelude.Map.{lookup, insert}
use kickd.Config.Model.{Command, Param, Trigger, Event, Config, kind_of}
use kickd.Config.Defaults.{System, apply_defaults}
use kickd.Config.Cycle.{
  no_cycle, cycle_of, next, add_triggers, add_events, from, is_open, each, drop_last, leave,
  visit_marked, visit, targets, names_of, after_cycle,
}
use kickd.Config.Cycle.Chains.{IsCycle, IsGrounded}
use kickd.Config.Cycle.Acyclic.{follows_in, after_cycle_lem}
use kickd.Config.Load.{Yaml, decoded, empty, blank}
use kickd.Config.Use.{fill, unknown_names, apply_declared, apply}
use kickd.Config.Applied.{IsApplied, apply-IsApplied}

abbrev no_trigger : Trigger
no_trigger = record {
  type = "manual";
  path = "";
  schedule = "";
  timezone = "";
  missed = "";
  methods = [];
  token = "";
  secret = "";
  wait = false;
  recursive = false;
  include = [];
  exclude = [];
  changes = [];
  debounce = pos 0;
  event = "";
  status = [];
}

abbrev after_event : String → Trigger
after_event name = record no_trigger {
  type = "after";
  event = name;
  status = "Failed" ∷ "succeeded" ∷ [];
}

abbrev web_trigger : Trigger
web_trigger = record no_trigger { type = "webhook"; path = "/backup"; methods = "post" ∷ [] }

abbrev no_command : Command
no_command = record { shell = ""; args = none }

abbrev event_of : String → List Trigger → Event
event_of name triggers = record {
  name = name;
  description = "";
  run = record { shell = "true"; args = none };
  workdir = "";
  env = [];
  timeout = pos 0;
  stop_run = no_command;
  stop_timeout = pos 0;
  concurrency = "";
  restart = "";
  restart_delay = pos 0;
  restart_max_delay = pos 0;
  on_interrupt = "";
  max_attempts = pos 0;
  stdin = "";
  log_output = none;
  output = none;
  params = [];
  triggers = triggers;
  command = [];
  shell = "";
  stop_command = [];
  stop_shell = "";
  file = "/etc/kickd/config.yaml";
  index = 0;
}

abbrev who : Param
who = record { name = "who"; description = ""; required = true; default = "" }

abbrev how : Param
how = record { name = "how"; description = ""; required = false; default = "fast" }

abbrev with_params : Event
with_params = record (event_of "deploy" (no_trigger ∷ [])) { params = who ∷ how ∷ [] }

abbrev pub two_events : List Event
two_events =
    event_of "backup" (no_trigger ∷ web_trigger ∷ [])
    ∷ record (event_of "report" (after_event "backup" ∷ [])) { index = 1 }
    ∷ []

abbrev pub plain : System
plain = record {
  log_level = "";
  log_format = "";
  home = none;
  expand_env = λ p. p;
  is_abs = λ p. has_prefix p "/";
  join = λ a b. b;
  clean = λ p. p;
  base = λ p. p;
  is_dir = λ p. true;
}

abbrev pub config : Config
config = record blank { events = two_events; path = "/etc/kickd/config.yaml"; dir = "/etc/kickd" }

abbrev pub yaml : Yaml
yaml = record { config = λ _. decoded config; keys = λ _. none; events = λ _. empty }

abbrev pub any_schedule : String → String → Bool
any_schedule schedule zone = true

abbrev pub ready : Config
ready = apply_defaults plain config

apply-IsApplied_example :
    IsApplied with_params (("who", "ann") ∷ []) (("who", "ann") ∷ ("how", "fast") ∷ [])
unfolding apply apply_declared fill unknown_names lookup insert
apply-IsApplied_example =
    apply-IsApplied with_params (("who", "ann") ∷ []) (("who", "ann") ∷ ("how", "fast") ∷ [])
      (refl, (refl, tt)) refl

abbrev around : List Event
around =
    event_of "a" (after_event "b" ∷ [])
    ∷ event_of "b" (no_trigger ∷ after_event "c" ∷ [])
    ∷ event_of "c" (after_event "b" ∷ [])
    ∷ []

after_cycle_lem_example :
    ((a b : String) → contains (next (add_events around []) a) b ≡ follows_in around a b)
    × (((c : List String) × ((after_cycle around ≡ cycle_of c) × IsCycle (add_events around []) c))
        ⊎ ((after_cycle around ≡ no_cycle)
            × ((m : String)
                → contains (names_of around) m ≡ true
                → IsGrounded (add_events around []) m)))
after_cycle_lem_example = after_cycle_lem around

cycle_test : after_cycle around ≡ cycle_of ("b" ∷ "c" ∷ "b" ∷ [])
unfolding after_cycle add_triggers add_events kind_of each is_open visit visit_marked leave
    drop_last from targets lookup insert
cycle_test = refl
