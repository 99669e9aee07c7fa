-- ===== src/Agent/Scenarios.antt =====
-- The agent with a config of two events.
use kickd.Webhook.Request.{Route}
use kickd.Webhook.Serve.{paths, register_on, register}
use kickd.Agent.Routes.{routes_of, add_routes, add_all_routes}
use kickd.Agent.Hooks.{hook_paths, all_hook_paths}
use kickd.Agent.Served.{all_hooks, routes_serve}
use kickd.Prelude.{
  String, Bool, List, not, none, contains, string_eq, ◌≡◌, ◌∷◌, All, some, false, filter, refl, [],
  any,
}
use kickd.Prelude.Ascii.{to_upper, to_lower, trim_left, trim_right, has_prefix, all_chars}
use kickd.Prelude.Map.{Map, lookup, insert}
use kickd.Config.Model.{kind_of}
use kickd.Config.Problem.{faults_of, together}
use kickd.Config.Defaults.{
  resolve, expand_home, log_defaults, output_defaults, trigger_defaults, event_defaults,
  apply_defaults,
}
use kickd.Config.Check.{
  check_settings, is_event_name, check_name, check_command, check_policies, check_output,
  check_stop, check_params,
}
use kickd.Config.Triggers.{
  set_keys, stray_keys, check_keys, check_single, check_path, check_methods, check_followed,
  check_statuses, check_after, check_kind, check_trigger, check_triggers,
}
use kickd.Config.Cycle.{
  add_triggers, add_events, from, is_open, each, drop_last, leave, visit_marked, visit, targets,
  after_cycle,
}
use kickd.Config.Load.{
  event_faults, check_events, cycle_problem, validate, number_events, add_files, accept,
  finish_load, parse_decoded, parse, loaded,
}
use kickd.Config.Scenarios.{yaml, plain, any_schedule, ready}
use kickd.Agent.Accepted.{IsReady, parse-IsReady}

is_loaded :
    parse yaml plain any_schedule "/etc/kickd/config.yaml" "/etc/kickd" "events:" [] ≡ loaded ready
unfolding parse parse_decoded add_files finish_load accept validate number_events check_events
    event_faults cycle_problem after_cycle visit visit_marked leave drop_last each is_open from
    add_events add_triggers targets check_triggers check_trigger check_kind check_after
    check_statuses check_followed check_single check_path check_methods check_keys stray_keys
    set_keys check_params check_stop check_output check_policies check_command check_name
    is_event_name check_settings apply_defaults event_defaults trigger_defaults output_defaults
    log_defaults expand_home resolve faults_of together kind_of lookup insert to_lower to_upper
    trim_left trim_right has_prefix all_chars any
is_loaded = refl

parse-IsReady_example : IsReady ready
parse-IsReady_example =
    parse-IsReady yaml plain any_schedule "/etc/kickd/config.yaml" "/etc/kickd" "events:" [] ready
      is_loaded

-- A mux that takes every pattern that it does not have.
abbrev any_new : List String → String → Bool
any_new ps p = not (contains ps p)

routes_serve_example :
    (m : Map String Route) × ((routes_of any_new ready ≡ some m)
      × All (λ (r : Route). lookup r.path m ≡ some r) (all_hooks ready.events))
unfolding apply_defaults event_defaults trigger_defaults resolve kind_of to_lower to_upper trim_left
    trim_right has_prefix all_chars hook_paths all_hook_paths
routes_serve_example =
    routes_serve any_new (λ ps p plains plain fresh. rw fresh refl) yaml plain any_schedule
      "/etc/kickd/config.yaml" "/etc/kickd" "events:" [] ready is_loaded refl (refl, tt)

abbrev backup_route : Route
backup_route = record {
  event = "backup";
  path = "/backup";
  methods = "POST" ∷ [];
  token = "";
  secret = "";
  wait = false;
  params = [];
  required = [];
}

routes_test : routes_of any_new ready ≡ some (("/backup", backup_route) ∷ [])
unfolding routes_of add_all_routes add_routes register register_on paths apply_defaults
    event_defaults trigger_defaults resolve kind_of lookup insert to_lower to_upper trim_left
    trim_right filter
routes_test = refl

-- A mux that does not take the path: the agent ends.
panic_test : routes_of (λ ps p. false) ready ≡ none
unfolding routes_of add_all_routes add_routes register register_on paths apply_defaults
    event_defaults trigger_defaults resolve kind_of lookup insert to_lower to_upper trim_left
    trim_right filter
panic_test = refl
