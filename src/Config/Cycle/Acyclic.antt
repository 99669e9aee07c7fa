-- ===== src/Config/Cycle/Acyclic.antt =====
-- What afterCycle finds in the after triggers of the events.
use kickd.Prelude.{
  suc, ◌≤◌, ◌≡◌, refl, ap, ◌∙◌, sym, Bool, true, false, ◌&&◌, ◌||◌, not, ◌⊎◌, inl, inr, String,
  List, [], ◌∷◌, ◌++◌, arith, contains, any, length, if◌then◌else◌, string_eq, ◌==◌, Bool-cases,
}
use kickd.Prelude.Map.{Map, lookup, insert, lookup-insert}
use kickd.Config.Model.{Trigger, Event, kind_of}
use kickd.Config.Cycle.{
  Mark, no_cycle, cycle_of, next, is_after, add_triggers, add_events, targets, names_of,
  after_cycle,
}
use kickd.Config.Cycle.Chains.{contains-append, IsCycle, IsGrounded, unmarked}
use kickd.Config.Cycle.Visits.{search-After}

unmarked-length : (nodes : List String) (m : Map String Mark) → unmarked nodes m ≤ length nodes
unfolding unmarked
unmarked-length [] m = omega arith
unmarked-length (n ∷ rest) m = ground (arith, unmarked-length rest m)

contains-targets :
    (follows : Map String (List String)) (n m : String)
    → contains (next follows n) m ≡ true
    → contains (targets follows) m ≡ true
unfolding lookup targets
contains-targets [] n m h = absurd cc
contains-targets ((k, ms) ∷ rest) n m h =
    contains-append ms (targets rest) m ∙ elim (Bool-cases (k == n)) [
      | inl e ↦ ground (arith, (rw e at h))
      | inr e ↦ ground (arith, contains-targets rest n m (rw e at h))
    ]

-- Event `a` has an after trigger that follows event `b`, other than `a`.
abbrev pub fires_after : String → String → Trigger → Bool
fires_after a b t =
    is_after (kind_of t.type) && not (t.event == "") && not (t.event == a) && t.event == b

unfoldable pub follows_in : List Event → String → String → Bool
follows_in events a b = any (λ (e : Event). e.name == a && any (fires_after a b) e.triggers) events

next-insert :
    (follows : Map String (List String)) (a n : String) (ms : List String)
    → next (insert n ms follows) a ≡ (if n == a then ms else next follows a)
next-insert follows a n ms = elim (Bool-cases (n == a)) [
  | inl e ↦ rw (lookup-insert n a ms follows, e) refl
  | inr e ↦ rw (lookup-insert n a ms follows, e) refl
]

next-added :
    (name x : String) (follows : Map String (List String)) (a b : String) (g : Bool)
    → contains
        (next (if g then insert name (next follows name ++ (x ∷ [])) follows else follows) a)
        b
      ≡ (contains (next follows a) b || (name == a && g && x == b))
next-added name x follows a b false = ground arith
next-added name x follows a b true =
    ap (λ ms. contains ms b) (next-insert follows a name (next follows name ++ (x ∷ [])))
    ∙ elim (Bool-cases (name == a)) [
      | inl e ↦
          rw (e, sym ((string_eq.decides name a).0 e))
            (contains-append (next follows name) (x ∷ []) b ∙ ground arith)
      | inr e ↦ rw e (ground arith)
    ]

same_guard :
    (name : String) (t : Trigger) (a b : String)
    → (name == a
        && (is_after (kind_of t.type) && not (t.event == "") && not (t.event == name))
        && t.event == b)
      ≡ (name == a && fires_after a b t)
same_guard name t a b = elim (Bool-cases (name == a)) [
  | inl e ↦ rw (e, sym ((string_eq.decides name a).0 e)) (ground arith)
  | inr e ↦ rw e refl
]

next-add_triggers :
    (name : String) (ts : List Trigger) (follows : Map String (List String)) (a b : String)
    → contains (next (add_triggers name ts follows) a) b
      ≡ (contains (next follows a) b || (name == a && any (fires_after a b) ts))
unfolding add_triggers any
next-add_triggers name [] follows a b = ground arith
next-add_triggers name (t ∷ ts) follows a b =
    let g = is_after (kind_of t.type) && not (t.event == "") && not (t.event == name) in
    next-add_triggers name ts
      (if g then insert name (next follows name ++ (t.event ∷ [])) follows else follows) a b
    ∙ ap (λ c. c || (name == a && any (fires_after a b) ts))
        (next-added name t.event follows a b g
          ∙ ap (λ c. contains (next follows a) b || c) (same_guard name t a b))
    ∙ spread (contains (next follows a) b) (name == a) (fires_after a b t)
        (any (fires_after a b) ts)
  where
    spread : (c n f r : Bool) → ((c || (n && f)) || (n && r)) ≡ (c || (n && (f || r)))
    spread c n f r = ground arith

next-add_events :
    (events : List Event) (follows : Map String (List String)) (a b : String)
    → contains (next (add_events events follows) a) b
      ≡ (contains (next follows a) b || follows_in events a b)
unfolding add_events follows_in any
next-add_events [] follows a b = ground arith
next-add_events (e ∷ es) follows a b =
    next-add_events es (add_triggers e.name e.triggers follows) a b
    ∙ ap (λ c. c || follows_in es a b) (next-add_triggers e.name e.triggers follows a b)
    ∙ assoc (contains (next follows a) b) (e.name == a && any (fires_after a b) e.triggers)
        (follows_in es a b)
  where
    assoc : (c d r : Bool) → ((c || d) || r) ≡ (c || (d || r))
    assoc c d r = ground arith

-- afterCycle ends. The events that it looks at for an event are those that its after triggers follow,
-- other than the event itself. Either it finds a cycle, whose events each follow the next one and whose
-- last event is the first; or it finds none, and then every chain of events that starts at an event of
-- the configuration, each of which follows the next one, comes to an end.
pub after_cycle_lem :
    (events : List Event)
    → ((a b : String) → contains (next (add_events events []) a) b ≡ follows_in events a b)
      × (((c : List String) × ((after_cycle events ≡ cycle_of c)
              × IsCycle (add_events events []) c))
          ⊎ ((after_cycle events ≡ no_cycle)
              × ((m : String)
                  → contains (names_of events) m ≡ true
                  → IsGrounded (add_events events []) m)))
unfolding after_cycle lookup
after_cycle_lem events =
    let follows = add_events events [] in
    let nodes = names_of events ++ targets follows in
    (
      λ a b. next-add_events events [] a b,
      search-After follows nodes
          (λ n m h.
            contains-append (names_of events) (targets follows) m
            ∙ ground (arith, contains-targets follows n m h))
          (names_of events)
          (λ m h. contains-append (names_of events) (targets follows) m ∙ ground (arith, h))
          (suc (length nodes)) (omega (arith, unmarked-length nodes [])),
    )
