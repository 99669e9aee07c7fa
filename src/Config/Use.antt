-- ===== src/Config/Use.antt =====
-- What the other parts ask a loaded configuration: Apply, Manual, WebhookServer, HasWebhook,
-- EventByName, EventNames and Warnings of config.go.
use kickd.Prelude.{
  Bool, true, false, ◌&&◌, ◌||◌, not, String, Option, none, some, List, [], ◌∷◌, ◌++◌, map, any,
  contains, if◌then◌else◌, string_eq, ◌==◌,
}
use kickd.Prelude.Map.{Map, lookup, insert}
use kickd.Config.Model.{Param, Trigger, Event, Config, is_enabled, Kind, kind_of, webhook, manual}
use kickd.Config.Check.{is_param_name}

pub data ArgFault : Type 0 where
  invalid_name missing_value unknown_name : String → ArgFault

pub data Applied : Type 0 where
  applied : Map String String → Applied
  refused : List ArgFault → Applied

-- Any key that can be the name of a parameter is accepted; the first other one is refused.
unfoldable pub check_free : Map String String → List ArgFault
check_free [] = []
check_free ((k, v) ∷ rest) =
    let later = check_free rest in if is_param_name k then later else invalid_name k ∷ []

-- The declared parameters that are left out get their defaults.
-- `with_default` and `as_given` are what the other parameters make of the arguments with the default
-- of this one and without it.
abbrev pub fill_choice :
    Param
    → Option String
    → Bool
    → List ArgFault × Map String String
    → List ArgFault × Map String String
    → List ArgFault × Map String String
fill_choice p (some v) b as_given with_default = as_given
fill_choice p none true as_given with_default = (missing_value p.name ∷ as_given.0, as_given.1)
fill_choice p none false as_given with_default = with_default

unfoldable pub fill : List Param → Map String String → List ArgFault × Map String String
fill [] out = ([], out)
fill (p ∷ ps) out =
    fill_choice p (lookup p.name out) p.required (fill ps out)
      (fill ps (insert p.name p.default out))

abbrev pub param_names : List Param → List String
param_names ps = map (λ (p : Param). p.name) ps

unfoldable pub unknown_names : List String → Map String String → List ArgFault
unknown_names known [] = []
unknown_names known ((k, v) ∷ rest) =
    let later = unknown_names known rest in
    if contains known k then later else unknown_name k ∷ later

abbrev pub answer : List ArgFault → Map String String → Applied
answer [] out = applied out
answer (f ∷ fs) out = refused (f ∷ fs)

unfoldable pub apply_declared : List Param → Map String String → Applied
apply_declared params given =
    let (faults, out) = fill params given in
    answer (faults ++ unknown_names (param_names params) out) out

-- Apply
unfoldable pub apply : Event → Map String String → Applied
apply e given = elim e.params [
  | [] ↦ answer (check_free given) given
  | _ ↦ apply_declared e.params given
]

abbrev pub is_kind_manual : Kind → Bool
is_kind_manual manual = true
is_kind_manual _ = false

abbrev pub is_kind_webhook : Kind → Bool
is_kind_webhook webhook = true
is_kind_webhook _ = false

-- Manual
unfoldable pub is_manual : Event → Bool
is_manual e = any (λ (t : Trigger). is_kind_manual (kind_of t.type)) e.triggers

-- HasWebhook and WebhookServer
unfoldable pub has_webhook : Config → Bool
has_webhook c =
    any (λ (e : Event). any (λ (t : Trigger). is_kind_webhook (kind_of t.type)) e.triggers) c.events

abbrev pub webhook_server : Config → Bool
webhook_server c = has_webhook c && is_enabled c.webhook

-- EventByName: the first event of the name.
unfoldable pub event_by_name : List Event → String → Option Event
event_by_name [] name = none
event_by_name (e ∷ es) name =
    let later = event_by_name es name in if e.name == name then some e else later

-- The webhooks of an event that anyone may call, by their paths.
unfoldable pub open_hooks : String → List Trigger → List (String × String)
open_hooks name [] = []
open_hooks name (t ∷ ts) =
    let later = open_hooks name ts in
    if is_kind_webhook (kind_of t.type) && t.token == "" && t.secret == ""
    then (name, t.path) ∷ later
    else later

unfoldable pub all_open_hooks : List Event → List (String × String)
all_open_hooks [] = []
all_open_hooks (e ∷ es) = open_hooks e.name e.triggers ++ all_open_hooks es

abbrev pub is_local : String → Bool
is_local host = host == "127.0.0.1" || host == "localhost" || host == "::1"

-- Warnings. `host_of` is the host that net.SplitHostPort finds in an address.
unfoldable pub warnings : (String → Option String) → Config → List (String × String)
warnings host_of c =
    if not (webhook_server c)
    then []
    else if is_local (elim (host_of c.webhook.listen) [ none ↦ c.webhook.listen | some h ↦ h ])
    then []
    else all_open_hooks c.events
