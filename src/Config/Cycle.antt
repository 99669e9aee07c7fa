-- ===== src/Config/Cycle.antt =====
-- afterCycle of config.go: a depth-first search for a cycle of after triggers.
pub mod Chains
pub mod Acyclic
pub mod Visits
use kickd.Prelude.{
  ℕ, zero, suc, ◌+◌, Bool, true, false, ◌&&◌, not, String, Option, none, some, List, [], ◌∷◌, ◌++◌,
  map, if◌then◌else◌, string_eq, ◌==◌, length,
}
use kickd.Prelude.Map.{Map, lookup, insert}
use kickd.Config.Model.{Trigger, Event, Kind, kind_of, after}

pub data Mark : Type 0 where
  visiting done : Mark

-- What the search has found: nothing yet, or a cycle. `out_of_fuel` is no answer of the code.
pub data Finding : Type 0 where
  no_cycle out_of_fuel : Finding
  cycle_of : List String → Finding

pub record Search : Type 0 where
  pub marks : Map String Mark
  pub path : List String
  pub finding : Finding

abbrev pub is_after : Kind → Bool
is_after after = true
is_after _ = false

abbrev pub or_nil : Option (List String) → List String
or_nil none = []
or_nil (some ms) = ms

abbrev pub next : Map String (List String) → String → List String
next follows n = or_nil (lookup n follows)

unfoldable pub add_triggers :
    String → List Trigger → Map String (List String) → Map String (List String)
add_triggers name [] follows = follows
add_triggers name (t ∷ ts) follows = add_triggers name ts (
    if is_after (kind_of t.type) && not (t.event == "") && not (t.event == name)
    then insert name (next follows name ++ (t.event ∷ [])) follows
    else follows)

unfoldable pub add_events : List Event → Map String (List String) → Map String (List String)
add_events [] follows = follows
add_events (e ∷ es) follows = add_events es (add_triggers e.name e.triggers follows)

-- path[slices.Index(path, n):]
unfoldable pub from : String → List String → List String
from n [] = []
from n (a ∷ rest) = let later = from n rest in if a == n then a ∷ rest else later

unfoldable pub is_open : Finding → Bool
is_open no_cycle = true
is_open out_of_fuel = false
is_open (cycle_of c) = false

unfoldable pub each : (String → Search → Search) → List String → Search → Search
each f [] s = s
each f (m ∷ ms) s = let t = f m s in let rest = each f ms t in if is_open t.finding then rest else t

abbrev pub enter : String → Search → Search
enter n s = record s { marks = insert n visiting s.marks; path = s.path ++ (n ∷ []) }

-- path[:len(path)-1]
unfoldable pub drop_last : List String → List String
drop_last [] = []
drop_last (a ∷ []) = []
drop_last (a ∷ b ∷ rest) = a ∷ drop_last (b ∷ rest)

unfoldable pub leave : String → Search → Search
leave n s =
    if is_open s.finding
    then record s { marks = insert n done s.marks; path = drop_last s.path }
    else s

unfoldable pub visit_marked : (Search → Search) → String → Search → Option Mark → Search
visit_marked go n s (some visiting) = record s { finding = cycle_of (from n s.path ++ (n ∷ [])) }
visit_marked go n s (some done) = s
visit_marked go n s none = leave n (go (enter n s))

-- visit. Each call in a call enters one more name, so that more fuel than there are names is enough.
unfoldable pub visit : Map String (List String) → ℕ → String → Search → Search
visit follows zero n s = record s { finding = out_of_fuel }
visit follows (suc fuel) n s =
    visit_marked (each (visit follows fuel) (next follows n)) n s (lookup n s.marks)

abbrev pub fresh : Search
fresh = record { marks = []; path = []; finding = no_cycle }

unfoldable pub targets : Map String (List String) → List String
targets [] = []
targets ((n, ms) ∷ rest) = ms ++ targets rest

abbrev pub names_of : List Event → List String
names_of events = map (λ (e : Event). e.name) events

-- afterCycle
unfoldable pub after_cycle : List Event → Finding
after_cycle events =
    let follows = add_events events [] in
    let nodes = names_of events ++ targets follows in
    (each (visit follows (suc (length nodes))) (names_of events) fresh).finding
