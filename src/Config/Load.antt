-- ===== src/Config/Load.antt =====
-- validate and parse of config.go: the events of several files, with their defaults, checked together.
use kickd.Prelude.{
  ℕ, suc, Bool, true, false, ◌&&◌, not, String, Option, none, some, List, [], ◌∷◌, ◌++◌, filter,
  if◌then◌else◌, string_eq, ◌==◌,
}
use kickd.Prelude.Int.{pos}
use kickd.Prelude.Map.{Map}
use kickd.Config.Model.{Event, Trigger, Config}
use kickd.Config.Problem.{
  Place, settings, at_index, at_name, Fault, together, Problem, when, no_triggers, cycle,
}
use kickd.Config.Defaults.{System, apply_defaults}
use kickd.Config.Check.{
  check_settings, name_is_fine, check_name, with_name, check_command, check_policies, check_output,
  check_stop, check_workdir, check_params, has_required,
}
use kickd.Config.Triggers.{Setting, check_triggers, problems_at}
use kickd.Config.Cycle.{Finding, no_cycle, out_of_fuel, cycle_of, names_of, after_cycle}

abbrev pub no_trigger_of : List Trigger → Bool
no_trigger_of ts = elim ts [ [] ↦ true | _ ↦ false ]

-- The file of an event is named where it is not the config file.
abbrev pub file_of : System → String → Event → String
file_of sys path e = if not (e.file == "") && not (e.file == path) then sys.base e.file else ""

abbrev pub place_of : System → String → Event → Place
place_of sys path e =
    if name_is_fine e
    then at_name (file_of sys path e) e.name
    else at_index (file_of sys path e) e.index

unfoldable pub event_faults : System → Map String String → Event → List Fault
event_faults sys names e = together (
    check_name names e
    ∷ check_command e
    ∷ check_policies e
    ∷ check_output e.output
    ∷ check_stop e
    ∷ check_workdir sys.is_dir e
    ∷ check_params [] e.params
    ∷ when (no_trigger_of e.triggers) no_triggers
    ∷ [])

module _ (sys : System) (parses : String → String → Bool) (path : String)
    (defined : List String) where
  abbrev pub setting_of : Event → Setting
  setting_of e = record {
    is_dir = sys.is_dir;
    parses = parses;
    defined = defined;
    name = e.name;
    needs = has_required e.params;
  }

  -- The events in their order, with the names and the webhook paths of those before.
  unfoldable pub check_events : Map String String → List String → List Event → List Problem
  check_events names hooks [] = []
  check_events names hooks (e ∷ es) =
      let place = place_of sys path e in
      let (problems, taken) =
        check_triggers (setting_of e) place 0 (record { types = []; follows = []; hooks = hooks })
          e.triggers in
      problems_at place (event_faults sys names e)
      ++ (problems ++ check_events (with_name e names) taken.hooks es)

unfoldable pub cycle_problem : Finding → List Fault
cycle_problem no_cycle = []
cycle_problem out_of_fuel = []
cycle_problem (cycle_of c) = cycle c ∷ []

-- validate: all problems of a config. `parses` says whether ParseSchedule reads a schedule in a time
-- zone, which gocron decides.
unfoldable pub validate : System → (String → String → Bool) → Config → List Problem
validate sys parses c =
    problems_at settings (check_settings c)
    ++ (check_events sys parses c.path (names_of c.events) [] [] c.events
        ++ problems_at settings (cycle_problem (after_cycle c.events)))

-- What the YAML decoder makes of a text: an error, nothing in an empty text, or a value.
pub data Decoded {ℓ} (A : Type ℓ) : Type ℓ where
  broken empty : Decoded A
  decoded : A → Decoded A

-- The YAML decoder: the config, the keys of the top level with their lines, and the events.
pub record Yaml : Type 0 where
  pub config : String → Decoded Config
  pub keys : String → Option (List (ℕ × String))
  pub events : String → Decoded (List Event)

pub data LoadError : Type 0 where
  unreadable empty_config : LoadError
  unreadable_events : String → LoadError
  misplaced : String → List (ℕ × String) → LoadError
  invalid : List Problem → LoadError

pub data Loaded {ℓ} (A : Type ℓ) : Type ℓ where
  loaded : A → Loaded A
  refused : LoadError → Loaded A

abbrev is_misplaced : ℕ × String → Bool
is_misplaced k = not (k.1 == "events")

abbrev events_read : String → Decoded (List Event) → Loaded (List Event)
events_read file broken = refused (unreadable_events file)
events_read file empty = loaded []
events_read file (decoded events) = loaded events

unfoldable pub events_if : Yaml → String → String → List (ℕ × String) → Loaded (List Event)
events_if yaml file data_text [] = events_read file (yaml.events data_text)
events_if yaml file data_text (k ∷ ks) = refused (misplaced file (k ∷ ks))

-- decodeEvents
unfoldable pub decode_events : Yaml → String → String → Loaded (List Event)
decode_events yaml file data_text = elim (yaml.keys data_text) [
  | none ↦ refused (unreadable_events file)
  | some keys ↦ events_if yaml file data_text (filter is_misplaced keys)
]

-- Each event is given its file and its position in it.
unfoldable pub number_events : String → ℕ → List Event → List Event
number_events file k [] = []
number_events file k (e ∷ es) = record e { file = file; index = k } ∷ number_events file (suc k) es

abbrev with_events : String → Config → List Event → Config
with_events file c events = record c {
  events = c.events ++ number_events file 0 events;
  event_files = c.event_files ++ (file ∷ []);
}

-- The events of the other files are added in their order, up to the first file that is refused.
unfoldable pub add_files : Yaml → System → List (String × String) → Config → Loaded Config
add_files yaml sys [] c = loaded c
add_files yaml sys ((file, text) ∷ rest) c = elim (decode_events yaml (sys.base file) text) [
  | refused e ↦ refused e
  | loaded events ↦ add_files yaml sys rest (with_events file c events)
]

unfoldable pub accept : Config → List Problem → Loaded Config
accept c [] = loaded c
accept c (p ∷ ps) = refused (invalid (p ∷ ps))

unfoldable pub finish_load : System → (String → String → Bool) → Loaded Config → Loaded Config
finish_load sys parses (refused e) = refused e
finish_load sys parses (loaded c) =
    let c' = apply_defaults sys c in accept c' (validate sys parses c')

abbrev located : String → String → Config → Config
located path dir c = record c { path = path; dir = dir; events = number_events path 0 c.events }

abbrev pub blank : Config
blank = record {
  log = record {
    level = "";
    format = "";
    path = "";
    max_size_mb = pos 0;
    max_backups = pos 0;
    level_from = "";
    format_from = "";
  };
  webhook = record { enabled = none; listen = ""; max_body_bytes = pos 0 };
  database = record { path = ""; retention = pos 0 };
  env = [];
  events = [];
  path = "";
  dir = "";
  event_files = [];
  skipped = [];
}

module _ (yaml : Yaml) (sys : System) (parses : String → String → Bool) (path dir : String) where
  abbrev add_and_check : List (String × String) → Config → Loaded Config
  add_and_check others c = finish_load sys parses (add_files yaml sys others (located path dir c))

  -- An empty config file is accepted where other files have events.
  unfoldable pub parse_decoded : List (String × String) → Decoded Config → Loaded Config
  parse_decoded others broken = refused unreadable
  parse_decoded [] empty = refused empty_config
  parse_decoded (f ∷ fs) empty = add_and_check (f ∷ fs) blank
  parse_decoded others (decoded c) = add_and_check others c

  -- parse: `others` are the files next to the config file that have events.
  unfoldable pub parse : String → List (String × String) → Loaded Config
  parse text others = parse_decoded others (yaml.config text)
