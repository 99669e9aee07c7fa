-- ===== src/Config/Defaults.antt =====
-- applyDefaults and resolve of config.go.
use kickd.Prelude.{
  ◌*◌, Bool, true, false, ◌||◌, not, String, Option, none, some, List, [], map, if◌then◌else◌,
  string_eq, ◌==◌,
}
use kickd.Prelude.Int.{ℤ, pos, is_zero, larger}
use kickd.Prelude.Ascii.{to_lower, to_upper, trim_space, has_prefix, drop_chars}
use kickd.Config.Model.{
  Log, Command, Output, Trigger, Event, Config, second, default_file_ops, Kind, kind_of, cron,
  webhook, file, after,
}

-- What the operating system and the packages os and path/filepath tell: the variables LOG_LEVEL and
-- LOG_FORMAT, the home directory where there is one, and the functions on paths.
pub record System : Type 0 where
  pub log_level : String
  pub log_format : String
  pub home : Option String
  pub expand_env : String → String
  pub is_abs : String → Bool
  pub join : String → String → String
  pub clean : String → String
  pub base : String → String
  pub is_dir : String → Bool

abbrev pub or_text : String → String → String
or_text s default = if s == "" then default else s

abbrev pub or_number : ℤ → ℤ → ℤ
or_number n default = if is_zero n then default else n

abbrev pub lower : String → String
lower s = to_lower (trim_space s)

unfoldable pub expand_home : System → String → String
expand_home sys p =
    if p == "~" || has_prefix p "~/" || has_prefix p "~\\"
    then elim sys.home [ none ↦ p | some home ↦ sys.join home (drop_chars p "~") ]
    else p

-- resolve
unfoldable pub resolve : System → String → String → String
resolve sys dir p =
    if p == ""
    then ""
    else (let q = expand_home sys (sys.expand_env p) in
        sys.clean (if sys.is_abs q then q else sys.join dir q))

unfoldable pub log_defaults : System → String → Log → Log
log_defaults sys dir l = record {
  level = or_text (lower (if sys.log_level == "" then l.level else sys.log_level)) "info";
  format = or_text (lower (if sys.log_format == "" then l.format else sys.log_format)) "auto";
  path = resolve sys dir l.path;
  max_size_mb = or_number l.max_size_mb (pos 10);
  max_backups = or_number l.max_backups (pos 5);
  level_from = if sys.log_level == "" then "log.level" else "LOG_LEVEL";
  format_from = if sys.log_format == "" then "log.format" else "LOG_FORMAT";
}

abbrev pub is_given : Command → Bool
is_given c = not (c.shell == "") || (elim c.args [ none ↦ false | some _ ↦ true ])

abbrev pub args_of : Command → List String
args_of c = elim c.args [ none ↦ [] | some args ↦ args ]

unfoldable pub output_defaults : System → String → Option Output → Option Output
output_defaults sys dir none = none
output_defaults sys dir (some o) = some (record {
  path = resolve sys dir o.path;
  max_size_mb = or_number o.max_size_mb (pos 10);
  max_backups = or_number o.max_backups (pos 5);
})

unfoldable pub trigger_defaults : System → String → Kind → Trigger → Trigger
trigger_defaults sys dir file t = record t {
  path = resolve sys dir t.path;
  debounce = or_number t.debounce (pos second);
  changes = elim t.changes [ [] ↦ default_file_ops | _ ↦ t.changes ];
}
trigger_defaults sys dir cron t = record t { missed = or_text (lower t.missed) "run" }
trigger_defaults sys dir webhook t = record t {
  methods = map (λ m. to_upper (trim_space m)) t.methods;
}
trigger_defaults sys dir after t = record t {
  event = trim_space t.event;
  status = map lower t.status;
}
trigger_defaults sys dir _ t = t

abbrev pub with_type : Trigger → Trigger
with_type t = record t { type = lower t.type }

unfoldable pub event_defaults : System → String → Event → Event
event_defaults sys dir e = record e {
  command = if is_given e.run then args_of e.run else e.command;
  shell = if is_given e.run then e.run.shell else e.shell;
  stop_command = if is_given e.stop_run then args_of e.stop_run else e.stop_command;
  stop_shell = if is_given e.stop_run then e.stop_run.shell else e.stop_shell;
  stop_timeout = or_number e.stop_timeout (pos (10 * second));
  restart = or_text (lower e.restart) "never";
  restart_delay = or_number e.restart_delay (pos second);
  restart_max_delay =
      or_number e.restart_max_delay
        (larger (pos (60 * second)) (or_number e.restart_delay (pos second)));
  concurrency = or_text e.concurrency "skip";
  on_interrupt = or_text e.on_interrupt "abandon";
  max_attempts = or_number e.max_attempts (pos 3);
  stdin = or_text e.stdin "none";
  workdir = resolve sys dir (or_text e.workdir dir);
  output = output_defaults sys dir e.output;
  triggers =
      map (λ t. let u = with_type t in trigger_defaults sys dir (kind_of u.type) u) e.triggers;
}

-- applyDefaults
unfoldable pub apply_defaults : System → Config → Config
apply_defaults sys c = record c {
  log = log_defaults sys c.dir c.log;
  webhook = record c.webhook {
    listen = or_text c.webhook.listen "127.0.0.1:9787";
    max_body_bytes = or_number c.webhook.max_body_bytes (pos 1048576);
  };
  database = record {
    path = resolve sys c.dir (or_text c.database.path "kickd.db");
    retention = or_number c.database.retention (pos (604800 * second));
  };
  events = map (event_defaults sys c.dir) c.events;
}
