-- ===== src/Runner/Env.antt =====
-- Env of event.go, and buildEnv and envKey of runner.go: the environment of a command. A variable is
-- a name with its value; the code writes them as NAME=value.
use Prim.Native.Nat.{Ordering}
use Prim.Native.String.{String, compare, ◌++◌ as text_append}
use kickd.Prelude.{
  ℕ, ◌+◌, Bool, Option, none, some, List, [], ◌∷◌, ◌++◌, map, length, if◌then◌else◌, nat_eq,
  string_eq, ◌==◌,
}
use kickd.Prelude.Int.{ℤ, pos, negsuc}
use kickd.Prelude.Text.{decimal}
use kickd.Prelude.Map.{Map, lookup, insert}
use kickd.Prelude.Ascii.{to_upper}
use kickd.Queue.Status.{text}
use kickd.Event.{FileChange, CronInfo, WebhookInfo, AfterInfo, WakeInfo, Event}

abbrev pub Variable : Type 0
Variable = String × String

-- sort.Strings
unfoldable pub place_text : String → List String → List String
place_text k [] = k ∷ []
place_text k (j ∷ rest) =
    let later = place_text k rest in
    elim (compare k j) [ Ordering.gt ↦ j ∷ later | _ ↦ k ∷ j ∷ rest ]

unfoldable pub sort_texts : List String → List String
sort_texts [] = []
sort_texts (k ∷ ks) = place_text k (sort_texts ks)

abbrev pub keys_of : Map String String → List String
keys_of m = map (λ (kv : String × String). kv.0) m

abbrev pub or_empty : Option String → String
or_empty none = ""
or_empty (some v) = v

-- strconv.Itoa
abbrev pub signed : ℤ → String
signed (pos n) = decimal n
signed (negsuc n) = text_append "-" (decimal (n + 1))

-- What Env uses of the packages time, encoding/json and os: the text of a time, of the parameters, and
-- the character that separates paths.
pub record Formats : Type 0 where
  pub stamp : ℕ → String
  pub json : Map String String → String
  pub separator : String

abbrev pub data_name : String → String
data_name k = text_append "KICKD_DATA_" (to_upper k)

abbrev pub data_variables : Map String String → List Variable
data_variables m = map (λ k. (data_name k, or_empty (lookup k m))) (sort_texts (keys_of m))

unfoldable pub join_paths : String → List FileChange → String
join_paths sep [] = ""
join_paths sep (f ∷ []) = f.path
join_paths sep (f ∷ g ∷ rest) = text_append f.path (text_append sep (join_paths sep (g ∷ rest)))

unfoldable pub last_change : FileChange → List FileChange → FileChange
last_change f [] = f
last_change f (g ∷ rest) = last_change g rest

abbrev pub cron_variables : Formats → Option CronInfo → List Variable
cron_variables fm none =
    ("KICKD_CRON_SCHEDULE", "") ∷ ("KICKD_CRON_SCHEDULED_AT", "") ∷ ("KICKD_CRON_MISSED", "") ∷ []
cron_variables fm (some c) =
    ("KICKD_CRON_SCHEDULE", c.schedule)
    ∷ ("KICKD_CRON_SCHEDULED_AT", fm.stamp c.scheduled_at)
    ∷ ("KICKD_CRON_MISSED", if c.missed then "1" else "0")
    ∷ []

abbrev pub webhook_variables : Option WebhookInfo → List Variable
webhook_variables none =
    ("KICKD_WEBHOOK_METHOD", "")
    ∷ ("KICKD_WEBHOOK_PATH", "")
    ∷ ("KICKD_WEBHOOK_REMOTE_ADDR", "")
    ∷ []
webhook_variables (some w) =
    ("KICKD_WEBHOOK_METHOD", w.method)
    ∷ ("KICKD_WEBHOOK_PATH", w.path)
    ∷ ("KICKD_WEBHOOK_REMOTE_ADDR", w.remote_addr)
    ∷ []

abbrev pub file_variables : Formats → List FileChange → List Variable
file_variables fm [] =
    ("KICKD_FILE_PATH", "")
    ∷ ("KICKD_FILE_OP", "")
    ∷ ("KICKD_FILE_COUNT", "")
    ∷ ("KICKD_FILE_PATHS", "")
    ∷ []
file_variables fm (f ∷ fs) =
    ("KICKD_FILE_PATH", (last_change f fs).path)
    ∷ ("KICKD_FILE_OP", (last_change f fs).op)
    ∷ ("KICKD_FILE_COUNT", decimal (length (f ∷ fs)))
    ∷ ("KICKD_FILE_PATHS", join_paths fm.separator (f ∷ fs))
    ∷ []

abbrev pub after_variables : Option AfterInfo → List Variable
after_variables none =
    ("KICKD_AFTER_EVENT", "")
    ∷ ("KICKD_AFTER_RUN_ID", "")
    ∷ ("KICKD_AFTER_STATUS", "")
    ∷ ("KICKD_AFTER_EXIT_CODE", "")
    ∷ []
after_variables (some a) =
    ("KICKD_AFTER_EVENT", a.event)
    ∷ ("KICKD_AFTER_RUN_ID", decimal a.run_id)
    ∷ ("KICKD_AFTER_STATUS", text a.status)
    ∷ ("KICKD_AFTER_EXIT_CODE", elim a.exit_code [ none ↦ "" | some n ↦ signed n ])
    ∷ []

abbrev pub wake_variables : Formats → Option WakeInfo → List Variable
wake_variables fm none = ("KICKD_WAKE_SLEPT_AT", "") ∷ ("KICKD_WAKE_SLEPT_SECONDS", "") ∷ []
wake_variables fm (some k) =
    ("KICKD_WAKE_SLEPT_AT", fm.stamp k.slept_at)
    ∷ ("KICKD_WAKE_SLEPT_SECONDS", decimal k.slept_seconds)
    ∷ []

abbrev pub zero_time : Formats → Option ℕ → String
zero_time fm none = "0001-01-01T00:00:00Z"
zero_time fm (some t) = fm.stamp t

abbrev pub firing_variables : Formats → Event → List Variable
firing_variables fm e =
    ("KICKD_EVENT", e.name)
    ∷ ("KICKD_RUN_ID", if e.run_id == 0 then "" else decimal e.run_id)
    ∷ ("KICKD_REQUEST_ID", e.request_id)
    ∷ ("KICKD_ATTEMPT", if e.attempt == 0 then "1" else decimal e.attempt)
    ∷ ("KICKD_TIME", zero_time fm e.time)
    ∷ ("KICKD_TRIGGER", e.trigger)
    ∷ ("KICKD_TRIGGER_ID", e.trigger_id)
    ∷ ("KICKD_DATA", fm.json e.data_map)
    ∷ []

-- Env
unfoldable pub event_env : Formats → Event → List Variable
event_env fm e =
    firing_variables fm e
    ++ (data_variables e.data_map
        ++ (("KICKD_MANUAL_SOURCE", e.source)
            ∷ (cron_variables fm e.cron
                ++ (webhook_variables e.webhook
                    ++ (file_variables fm e.files
                        ++ (after_variables e.after ++ wake_variables fm e.wake))))))

-- The operating system: its variables, whether their names ignore case, and os.Expand, which replaces
-- ${VAR} in a text.
pub record Os : Type 0 where
  pub environ : List Variable
  pub ignores_case : Bool
  pub expand : (String → String) → String → String

-- envKey
abbrev pub env_key : Os → String → String
env_key os k = if os.ignores_case then to_upper k else k

-- The value of a variable: of the entries of one name, the last one counts.
unfoldable pub value_of : Os → String → List Variable → Option String
value_of os k [] = none
value_of os k ((j, v) ∷ rest) =
    let later = value_of os k rest in
    elim later [ some w ↦ some w | none ↦ if env_key os j == env_key os k then some v else none ]

-- What `set` and, below it, the agent's own environment give.
unfoldable pub see : Os → Map String String → String → String
see os set k = elim (lookup (env_key os k) set) [
  | some v ↦ v
  | none ↦ elim (value_of os k os.environ) [ none ↦ "" | some v ↦ v ]
]

abbrev pub layer_values : Os → Map String String → Map String String → List Variable
layer_values os set layer =
    map (λ k. (k, os.expand (see os set) (or_empty (lookup k layer)))) (sort_texts (keys_of layer))

unfoldable pub set_values : Os → List Variable → Map String String → Map String String
set_values os [] set = set
set_values os ((k, v) ∷ rest) set = set_values os rest (insert (env_key os k) v set)

unfoldable pub add_layers : Os → List (Map String String) → Map String String → List Variable
add_layers os [] set = []
add_layers os (layer ∷ layers) set =
    let values = layer_values os set layer in
    values ++ add_layers os layers (set_values os values set)

-- buildEnv
unfoldable pub build_env :
    Os → Formats → Map String String → Map String String → Event → String → List Variable
build_env os fm base_env env e event_file =
    os.environ
    ++ (add_layers os (base_env ∷ env ∷ []) []
        ++ (event_env fm e ++ (("KICKD_PAYLOAD_FILE", event_file) ∷ [])))
