-- ===== src/Config/Model.antt =====
-- The types and the default values of config.go.
use kickd.Prelude.{
  ℕ, Bool, true, String, Option, none, some, List, [], ◌∷◌, if◌then◌else◌, string_eq, ◌==◌,
}
use kickd.Prelude.Int.{ℤ}
use kickd.Prelude.Map.{Map}

pub record Log : Type 0 where
  pub level : String
  pub format : String
  pub path : String
  pub max_size_mb : ℤ
  pub max_backups : ℤ
  pub level_from : String
  pub format_from : String

pub record Webhook : Type 0 where
  pub enabled : Option Bool
  pub listen : String
  pub max_body_bytes : ℤ

-- IsEnabled
abbrev pub is_enabled : Webhook → Bool
is_enabled w = elim w.enabled [ none ↦ true | some b ↦ b ]

pub record Database : Type 0 where
  pub path : String
  pub retention : ℤ

-- A string that the shell runs, or a program with its arguments; `none` is a nil slice.
pub record Command : Type 0 where
  pub shell : String
  pub args : Option (List String)

pub record Output : Type 0 where
  pub path : String
  pub max_size_mb : ℤ
  pub max_backups : ℤ

pub record Param : Type 0 where
  pub name : String
  pub description : String
  pub required : Bool
  pub default : String

pub record Trigger : Type 0 where
  pub type : String
  pub path : String
  pub schedule : String
  pub timezone : String
  pub missed : String
  pub methods : List String
  pub token : String
  pub secret : String
  pub wait : Bool
  pub recursive : Bool
  pub include : List String
  pub exclude : List String
  pub changes : List String
  pub debounce : ℤ
  pub event : String
  pub status : List String

-- Durations are in milliseconds, as those of the dispatcher.
pub record Event : Type 0 where
  pub name : String
  pub description : String
  pub run : Command
  pub workdir : String
  pub env : Map String String
  pub timeout : ℤ
  pub stop_run : Command
  pub stop_timeout : ℤ
  pub concurrency : String
  pub restart : String
  pub restart_delay : ℤ
  pub restart_max_delay : ℤ
  pub on_interrupt : String
  pub max_attempts : ℤ
  pub stdin : String
  pub log_output : Option Bool
  pub output : Option Output
  pub params : List Param
  pub triggers : List Trigger
  pub command : List String
  pub shell : String
  pub stop_command : List String
  pub stop_shell : String
  pub file : String
  pub index : ℕ

pub record Config : Type 0 where
  pub log : Log
  pub webhook : Webhook
  pub database : Database
  pub env : Map String String
  pub events : List Event
  pub path : String
  pub dir : String
  pub event_files : List String
  pub skipped : List String

-- LogsOutput
abbrev pub logs_output : Event → Bool
logs_output e = elim e.log_output [ none ↦ true | some b ↦ b ]

abbrev pub second : ℕ
second = 1000

abbrev pub concurrencies : List String
concurrencies = "skip" ∷ "queue" ∷ "parallel" ∷ "replace" ∷ []

abbrev pub restarts : List String
restarts = "never" ∷ "on-failure" ∷ "always" ∷ []

abbrev pub on_interrupts : List String
on_interrupts = "abandon" ∷ "rerun" ∷ []

abbrev pub stdins : List String
stdins = "none" ∷ "payload" ∷ []

abbrev pub log_levels : List String
log_levels = "trace" ∷ "debug" ∷ "info" ∷ "warn" ∷ "error" ∷ "fatal" ∷ []

abbrev pub log_formats : List String
log_formats = "auto" ∷ "json" ∷ "text" ∷ []

abbrev pub after_statuses : List String
after_statuses = "succeeded" ∷ "failed" ∷ "canceled" ∷ "skipped" ∷ "dropped" ∷ "abandoned" ∷ []

-- trigger.ValidFileOps and trigger.DefaultFileOps
abbrev pub valid_file_ops : List String
valid_file_ops = "create" ∷ "write" ∷ "remove" ∷ "rename" ∷ "chmod" ∷ []

abbrev pub default_file_ops : List String
default_file_ops = "create" ∷ "write" ∷ "remove" ∷ "rename" ∷ []

-- The types of trigger; `no_type` is the empty word.
pub data Kind : Type 0 where
  manual cron webhook file after startup wake no_type unknown : Kind

unfoldable pub kind_of : String → Kind
kind_of t =
    if t == "manual"
    then manual
    else if t == "cron"
    then cron
    else if t == "webhook"
    then webhook
    else if t == "file"
    then file
    else if t == "after"
    then after
    else if t == "startup"
    then startup
    else if t == "wake"
    then wake
    else if t == ""
    then no_type
    else unknown

-- triggerKeys: `none` for a type that there is not.
abbrev pub trigger_keys : Kind → Option (List String)
trigger_keys manual = some []
trigger_keys cron = some ("schedule" ∷ "timezone" ∷ "missed" ∷ [])
trigger_keys webhook = some ("path" ∷ "methods" ∷ "token" ∷ "secret" ∷ "wait" ∷ [])
trigger_keys file =
    some ("path" ∷ "recursive" ∷ "include" ∷ "exclude" ∷ "changes" ∷ "debounce" ∷ [])
trigger_keys after = some ("event" ∷ "status" ∷ [])
trigger_keys startup = some []
trigger_keys wake = some []
trigger_keys no_type = none
trigger_keys unknown = none
