-- ===== src/Config/Problem.antt =====
-- The problems that validate of config.go finds, one constructor for each message, with what it names.
use kickd.Prelude.{ℕ, Bool, String, List, [], ◌∷◌, ◌++◌, if◌then◌else◌}

-- Where a problem is: in the settings, in the event of a position or of a name, with the file that it
-- is said to be in, or in a trigger of the event.
pub data Place : Type 0 where
  settings : Place
  at_index : String → ℕ → Place
  at_name : String → String → Place
  in_trigger : Place → ℕ → Place

pub data Fault : Type 0 where
  -- the settings
  wrong_level wrong_format : String → String → Fault
  negative : String → Fault
  no_events : Fault
  -- an event
  no_name : Fault
  duplicate_name : Fault
  wrong_name duplicate_name_in : String → Fault
  no_command no_program : Fault
  wrong_setting : String → String → Fault
  short_max_delay no_attempts : Fault
  no_output_path no_stop_program : Fault
  no_workdir : String → Fault
  -- the parameters of an event
  wrong_param duplicate_param required_default : String → Fault
  -- the triggers of an event
  no_triggers : Fault
  not_allowed : String → String → Fault
  second_trigger : String → Fault
  cannot_supply : String → Fault
  no_schedule : Fault
  wrong_schedule wrong_missed : String → Fault
  no_path relative_path reserved_path used_path : Fault
  empty_method : Fault
  no_directory : String → Fault
  unknown_change : String → Fault
  no_followed follows_itself : Fault
  unknown_event follows_twice : String → Fault
  no_statuses : Fault
  unknown_status duplicate_status : String → Fault
  no_type_given : Fault
  unknown_type : String → Fault
  -- the events together
  cycle : List String → Fault

-- A problem where the test holds.
abbrev pub when : Bool → Fault → List Fault
when b f = if b then f ∷ [] else []

-- The faults whose tests hold.
unfoldable pub faults_of : List (Bool × Fault) → List Fault
faults_of [] = []
faults_of ((b, f) ∷ rest) = when b f ++ faults_of rest

unfoldable pub together : List (List Fault) → List Fault
together [] = []
together (fs ∷ rest) = fs ++ together rest

pub record Problem : Type 0 where
  pub place : Place
  pub fault : Fault
