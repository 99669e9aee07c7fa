-- ===== src/Runner/Names.antt =====
-- Which variables a command gets.
use kickd.Prelude.{
  ◌≡◌, refl, ap, ◌∙◌, sym, String, Option, none, some, List, [], ◌∷◌, ◌++◌, map, string_eq,
}
use kickd.Event.{Event, CronInfo, WebhookInfo, AfterInfo, WakeInfo, FileChange}
use kickd.Prelude.Map.{Map}
use kickd.Runner.Env.{
  Variable, Formats, Os, value_of, data_variables, event_env, build_env, add_layers, cron_variables,
  webhook_variables, file_variables, after_variables, wake_variables, firing_variables,
}

abbrev pub names : List Variable → List String
names vs = map (λ (v : Variable). v.0) vs

-- An event that no trigger fired, with given parameters.
abbrev pub plain_event : Map String String → Event
plain_event given = record {
  request_id = "";
  run_id = 0;
  attempt = 0;
  name = "";
  trigger = "";
  trigger_id = "";
  time = none;
  data_map = given;
  source = "";
  files = [];
  cron = none;
  webhook = none;
  after = none;
  wake = none;
}

record SameNames (xs ys : List Variable) : Type 0 where
  same : names xs ≡ names ys

names-append : (xs ys : List Variable) → names (xs ++ ys) ≡ names xs ++ names ys
names-append [] ys = refl
names-append (x ∷ xs) ys = ap (λ zs. x.0 ∷ zs) (names-append xs ys)

cron_names :
    (fm : Formats) (c : Option CronInfo) → SameNames (cron_variables fm c) (cron_variables fm none)
cron_names fm none = record { same = refl }
cron_names fm (some c) = record { same = refl }

webhook_names : (w : Option WebhookInfo) → SameNames (webhook_variables w) (webhook_variables none)
webhook_names none = record { same = refl }
webhook_names (some w) = record { same = refl }

file_names :
    (fm : Formats) (fs : List FileChange) → SameNames (file_variables fm fs) (file_variables fm [])
file_names fm [] = record { same = refl }
file_names fm (f ∷ fs) = record { same = refl }

after_names : (a : Option AfterInfo) → SameNames (after_variables a) (after_variables none)
after_names none = record { same = refl }
after_names (some a) = record { same = refl }

wake_names :
    (fm : Formats) (k : Option WakeInfo) → SameNames (wake_variables fm k) (wake_variables fm none)
wake_names fm none = record { same = refl }
wake_names fm (some k) = record { same = refl }

both :
    (xs ys us vs : List Variable)
    → SameNames xs ys
    → SameNames us vs
    → SameNames (xs ++ us) (ys ++ vs)
both xs ys us vs e f = record {
  same =
      names-append xs us
      ∙ ap (λ zs. zs ++ names us) e.same
      ∙ ap (λ zs. names ys ++ zs) f.same
      ∙ sym (names-append ys vs);
}

value_of-last :
    (os : Os) (k : String) (xs ys : List Variable) (v : String)
    → value_of os k ys ≡ some v
    → value_of os k (xs ++ ys) ≡ some v
unfolding value_of
value_of-last os k [] ys v h = h
value_of-last os k ((j, w) ∷ rest) ys v h = rw (value_of-last os k rest ys v h) refl

-- Every firing gets the variables of the same names in the same order, whatever fired it, so long as
-- it has the same parameters: the names are those of an event without any trigger. And where the
-- event's variables give a value, no entry of the config, of the event's env or of the agent's own
-- environment changes it, unless it is the file of the payload.
pub event_env-names :
    (fm : Formats) (os : Os) (base_env env : Map String String) (e : Event) (event_file : String)
    → (names (event_env fm e) ≡ names (event_env fm (plain_event e.data_map)))
      × ((k v : String)
          → value_of os k (event_env fm e ++ (("KICKD_PAYLOAD_FILE", event_file) ∷ [])) ≡ some v
          → value_of os k (build_env os fm base_env env e event_file) ≡ some v)
unfolding event_env build_env
event_env-names fm os base_env env e event_file =
    let ended = both _ _ _ _ (after_names e.after) (wake_names fm e.wake) in
    let from_files = both _ _ _ _ (file_names fm e.files) ended in
    let from_webhook = both _ _ _ _ (webhook_names e.webhook) from_files in
    let from_cron = both _ _ _ _ (cron_names fm e.cron) from_webhook in
    let data_part = data_variables e.data_map in
    (
      ap (λ ns. names (firing_variables fm (plain_event [])) ++ ns)
          (names-append data_part _
            ∙ ap (λ ns. names data_part ++ "KICKD_MANUAL_SOURCE" ∷ ns) from_cron.same
            ∙ sym (names-append data_part _)),
      λ k v h.
          value_of-last os k os.environ _ v
            (value_of-last os k (add_layers os (base_env ∷ env ∷ []) []) _ v h),
    )
