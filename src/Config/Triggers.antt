-- ===== src/Config/Triggers.antt =====
-- validate of config.go, for the triggers of an event.
use kickd.Prelude.{
  ℕ, suc, Bool, true, false, ◌&&◌, not, String, Option, none, some, List, [], ◌∷◌, ◌++◌, map,
  contains, if◌then◌else◌, string_eq, ◌==◌,
}
use kickd.Prelude.Int.{is_negative, is_zero}
use kickd.Prelude.Ascii.{has_prefix}
use kickd.Config.Model.{
  Trigger, Kind, kind_of, cron, webhook, file, after, no_type, unknown, trigger_keys,
  valid_file_ops, after_statuses,
}
use kickd.Config.Problem.{
  Place, in_trigger, Fault, Problem, when, together, negative, not_allowed, second_trigger,
  cannot_supply, no_schedule, wrong_schedule, wrong_missed, no_path, relative_path, reserved_path,
  used_path, empty_method, no_directory, unknown_change, no_followed, follows_itself, unknown_event,
  follows_twice, no_statuses, unknown_status, duplicate_status, no_type_given, unknown_type,
}

abbrev pub key_if : Bool → String → List String → List String
key_if set name keys = if set then name ∷ keys else keys

abbrev pub is_some_text : String → Bool
is_some_text s = not (s == "")

abbrev pub is_some_list : List String → Bool
is_some_list xs = elim xs [ [] ↦ false | _ ↦ true ]

-- setKeys
unfoldable pub set_keys : Trigger → List String
set_keys t = key_if (is_some_text t.path) "path" (
    key_if (is_some_text t.schedule) "schedule" (
      key_if (is_some_text t.timezone) "timezone" (
        key_if (is_some_text t.missed) "missed" (
          key_if (is_some_list t.methods) "methods" (
            key_if (is_some_text t.token) "token" (
              key_if (is_some_text t.secret) "secret" (
                key_if t.wait "wait" (
                  key_if t.recursive "recursive" (
                    key_if (is_some_list t.include) "include" (
                      key_if (is_some_list t.exclude) "exclude" (
                        key_if (is_some_list t.changes) "changes" (
                          key_if (not (is_zero t.debounce)) "debounce" (
                            key_if (is_some_text t.event) "event"
                              (key_if (is_some_list t.status) "status" []))))))))))))))

-- The keys that the type of trigger does not take.
unfoldable pub stray_keys : String → List String → List String → List Fault
stray_keys type allowed [] = []
stray_keys type allowed (k ∷ ks) =
    when (not (contains allowed k)) (not_allowed k type) ++ stray_keys type allowed ks

unfoldable pub check_keys : Option (List String) → Trigger → List Fault
check_keys none t = []
check_keys (some allowed) t = stray_keys t.type allowed (set_keys t)

-- What the triggers so far took: the types of which an event has one, the events that it follows, and
-- the paths of the webhooks of all events.
pub record Taken : Type 0 where
  pub types : List String
  pub follows : List String
  pub hooks : List String

unfoldable pub check_single : Bool → Taken → Trigger → List Fault
check_single needs taken t =
    when (contains taken.types t.type) (second_trigger t.type)
    ++ when (not (t.type == "manual") && needs) (cannot_supply t.type)

-- `parses` says whether ParseSchedule reads a schedule in a time zone.
unfoldable pub check_cron : (String → String → Bool) → Bool → Trigger → List Fault
check_cron parses needs t =
    (if t.schedule == ""
      then no_schedule ∷ []
      else when (not (parses t.schedule t.timezone)) (wrong_schedule t.schedule))
    ++ when (not (t.missed == "run") && not (t.missed == "skip")) (wrong_missed t.missed)
    ++ when needs (cannot_supply "cron")

unfoldable pub check_path : Taken → Trigger → List Fault
check_path taken t =
    if t.path == ""
    then no_path ∷ []
    else if not (has_prefix t.path "/")
    then relative_path ∷ []
    else if t.path == "/healthz"
    then reserved_path ∷ []
    else when (contains taken.hooks t.path) used_path

unfoldable pub check_methods : List String → List Fault
check_methods [] = []
check_methods (m ∷ ms) = when (m == "") empty_method ++ check_methods ms

abbrev pub with_hook : Taken → Trigger → Taken
with_hook taken t = elim (check_path taken t) [
  | [] ↦ record taken { hooks = t.path ∷ taken.hooks }
  | _ ↦ taken
]

unfoldable pub check_changes : List String → List Fault
check_changes [] = []
check_changes (c ∷ cs) =
    when (not (contains valid_file_ops c)) (unknown_change c) ++ check_changes cs

unfoldable pub check_file : (String → Bool) → Bool → Trigger → List Fault
check_file is_dir needs t =
    (if t.path == "" then no_path ∷ [] else when (not (is_dir t.path)) (no_directory t.path))
    ++ check_changes t.changes
    ++ when (is_negative t.debounce) (negative "debounce")
    ++ when needs (cannot_supply "file")

-- `defined` are the names of the events.
unfoldable pub check_followed : List String → String → Taken → Trigger → List Fault
check_followed defined name taken t =
    if t.event == ""
    then no_followed ∷ []
    else if t.event == name
    then follows_itself ∷ []
    else if not (contains defined t.event)
    then unknown_event t.event ∷ []
    else when (contains taken.follows t.event) (follows_twice t.event)

unfoldable pub check_statuses : List String → List String → List Fault
check_statuses seen [] = []
check_statuses seen (s ∷ rest) =
    (if not (contains after_statuses s)
      then unknown_status s ∷ []
      else when (contains seen s) (duplicate_status s))
    ++ check_statuses (s ∷ seen) rest

unfoldable pub check_after : List String → String → Bool → Taken → Trigger → List Fault
check_after defined name needs taken t = together (
    check_followed defined name taken t
    ∷ when (not (is_some_list t.status)) no_statuses
    ∷ check_statuses [] t.status
    ∷ when needs (cannot_supply "after")
    ∷ [])

-- What the checks need: the operating system and ParseSchedule, the names of all events, the name of
-- the event, and whether a parameter of it is required.
pub record Setting : Type 0 where
  pub is_dir : String → Bool
  pub parses : String → String → Bool
  pub defined : List String
  pub name : String
  pub needs : Bool

unfoldable pub check_kind : Setting → Taken → Trigger → Kind → List Fault × Taken
check_kind s taken t cron = (check_cron s.parses s.needs t, taken)
check_kind s taken t webhook = (check_path taken t ++ check_methods t.methods, with_hook taken t)
check_kind s taken t file = (check_file s.is_dir s.needs t, taken)
check_kind s taken t after = (
  check_after s.defined s.name s.needs taken t,
  record taken { follows = t.event ∷ taken.follows },
)
check_kind s taken t no_type = (no_type_given ∷ [], taken)
check_kind s taken t unknown = (unknown_type t.type ∷ [], taken)
check_kind s taken t _ =
    (check_single s.needs taken t, record taken { types = t.type ∷ taken.types })

unfoldable pub check_trigger : Setting → Taken → Trigger → List Fault × Taken
check_trigger s taken t =
    let k = kind_of t.type in
    let (faults, taken') = check_kind s taken t k in
    (check_keys (trigger_keys k) t ++ faults, taken')

abbrev pub problems_at : Place → List Fault → List Problem
problems_at place faults = map (λ f. record { place = place; fault = f }) faults

-- The triggers from position k on.
unfoldable pub check_triggers : Setting → Place → ℕ → Taken → List Trigger → List Problem × Taken
check_triggers s place k taken [] = ([], taken)
check_triggers s place k taken (t ∷ ts) =
    let (faults, taken') = check_trigger s taken t in
    let (rest, taken'') = check_triggers s place (suc k) taken' ts in
    (problems_at (in_trigger place k) faults ++ rest, taken'')
