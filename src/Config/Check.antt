-- ===== src/Config/Check.antt =====
-- validate of config.go, for the settings, the events and their parameters.
use Prim.Native.Char.{Char}
use Prim.Native.String.{len, String}
use kickd.Prelude.{
  Bool, true, false, ◌&&◌, ◌||◌, not, Option, none, some, List, [], ◌∷◌, ◌++◌, contains, any,
  if◌then◌else◌, string_eq, nat_eq, ◌==◌, leb,
}
use kickd.Prelude.Int.{pos, is_negative, less}
use kickd.Prelude.Map.{Map, lookup, insert}
use kickd.Prelude.Ascii.{is_letter, is_digit, is_char, all_chars}
use kickd.Config.Model.{
  Command, Output, Param, Event, Config, concurrencies, restarts, on_interrupts, stdins, log_levels,
  log_formats,
}
use kickd.Config.Problem.{
  Fault, when, faults_of, wrong_level, wrong_format, negative, no_events, no_name, wrong_name,
  duplicate_name, duplicate_name_in, no_command, no_program, wrong_setting, short_max_delay,
  no_attempts, no_output_path, no_stop_program, no_workdir, wrong_param, duplicate_param,
  required_default,
}

unfoldable pub check_settings : Config → List Fault
check_settings c =
    when (not (contains log_levels c.log.level)) (wrong_level c.log.level_from c.log.level)
    ++ when (not (contains log_formats c.log.format)) (wrong_format c.log.format_from c.log.format)
    ++ when (is_negative c.log.max_size_mb) (negative "log.max_size_mb")
    ++ when (is_negative c.log.max_backups) (negative "log.max_backups")
    ++ when (is_negative c.database.retention) (negative "database.retention")
    ++ (elim c.events [ [] ↦ no_events ∷ [] | _ ↦ [] ])

abbrev is_name_char : Char → Bool
is_name_char c =
    is_letter c
    || is_digit c
    || is_char b'.' c
    || is_char b'_' c
    || is_char b':' c
    || is_char b'-' c

-- eventNameRe
unfoldable pub is_event_name : String → Bool
is_event_name String.[] = false
is_event_name (String.◌∷◌ c s) =
    (is_letter c || is_digit c) && leb (len s) 63 && all_chars is_name_char s

-- paramNameRe
unfoldable pub is_param_name : String → Bool
is_param_name String.[] = false
is_param_name (String.◌∷◌ c s) =
    (is_letter c || is_char b'_' c)
    && leb (len s) 63
    && all_chars (λ d. is_letter d || is_digit d || is_char b'_' d) s

-- The name is taken already, in this file or in another, which the message names by its base name.
abbrev pub duplicate : String → Option String → List Fault
duplicate file none = []
duplicate file (some other) =
    (if other == file then duplicate_name else duplicate_name_in other) ∷ []

abbrev pub name_is_fine : Event → Bool
name_is_fine e = not (e.name == "") && is_event_name e.name

-- `names` is the file of each name so far.
unfoldable pub check_name : Map String String → Event → List Fault
check_name names e =
    if e.name == ""
    then no_name ∷ []
    else if not (is_event_name e.name)
    then wrong_name e.name ∷ []
    else duplicate e.file (lookup e.name names)

abbrev pub with_name : Event → Map String String → Map String String
with_name e names = if name_is_fine e then insert e.name e.file names else names

abbrev pub head_is_empty : List String → Bool
head_is_empty args = elim args [ [] ↦ false | a ∷ _ ↦ a == "" ]

abbrev pub is_empty : List String → Bool
is_empty args = elim args [ [] ↦ true | _ ↦ false ]

unfoldable pub check_command : Event → List Fault
check_command e =
    if is_empty e.command && e.shell == ""
    then no_command ∷ []
    else when (head_is_empty e.command) no_program

abbrev pub one_of : String → String → List String → Bool × Fault
one_of key word words = (not (contains words word), wrong_setting key word)

unfoldable pub check_policies : Event → List Fault
check_policies e = faults_of (
    one_of "concurrency" e.concurrency concurrencies
    ∷ one_of "restart" e.restart restarts
    ∷ (is_negative e.restart_delay, negative "restart_delay")
    ∷ (less e.restart_max_delay e.restart_delay, short_max_delay)
    ∷ one_of "on_interrupt" e.on_interrupt on_interrupts
    ∷ (less e.max_attempts (pos 1), no_attempts)
    ∷ one_of "stdin" e.stdin stdins
    ∷ (is_negative e.timeout, negative "timeout")
    ∷ [])

unfoldable pub check_output : Option Output → List Fault
check_output none = []
check_output (some o) =
    if o.path == ""
    then no_output_path ∷ []
    else if is_negative o.max_size_mb
    then negative "output.max_size_mb" ∷ []
    else when (is_negative o.max_backups) (negative "output.max_backups")

abbrev pub has_args : Command → Bool
has_args c = elim c.args [ none ↦ false | some _ ↦ true ]

unfoldable pub check_stop : Event → List Fault
check_stop e =
    when (is_negative e.stop_timeout) (negative "stop_timeout")
    ++ when (has_args e.stop_run && (is_empty e.stop_command || head_is_empty e.stop_command))
        no_stop_program

-- `is_dir` says whether os.Stat finds a directory.
abbrev pub check_workdir : (String → Bool) → Event → List Fault
check_workdir is_dir e =
    when (not (e.workdir == "") && not (is_dir e.workdir)) (no_workdir e.workdir)

-- `seen` are the names of the parameters before.
unfoldable pub check_params : List String → List Param → List Fault
check_params seen [] = []
check_params seen (p ∷ rest) =
    (if not (is_param_name p.name)
      then wrong_param p.name ∷ []
      else if contains seen p.name
      then duplicate_param p.name ∷ []
      else when (p.required && not (p.default == "")) (required_default p.name))
    ++ check_params (p.name ∷ seen) rest

abbrev pub has_required : List Param → Bool
has_required params = any (λ (p : Param). p.required) params
