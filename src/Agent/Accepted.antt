-- ===== src/Agent/Accepted.antt =====
-- What the dispatcher gets of a configuration that was loaded.
use kickd.Prelude.{
  ◌≤◌, ◌≡◌, refl, subst, Bool, true, false, inl, inr, String, some, List, [], ◌∷◌, ◌++◌, map, arith,
  contains, All, string_eq, ◌==◌, Bool-cases,
}
use kickd.Prelude.Int.{ℤ, pos, negsuc, less, amount}
use kickd.Queue.Status.{Status, succeeded, failed, canceled, skipped, dropped, abandoned}
use kickd.Config.Model.{
  Event, Trigger, Config, Kind, kind_of, manual, cron, webhook, file, after, startup, wake, no_type,
  unknown, concurrencies, restarts, on_interrupts, after_statuses,
}
use kickd.Config.Problem.{Problem}
use kickd.Config.Problem
use kickd.Config.Defaults.{System, apply_defaults}
use kickd.Config.Cycle.{names_of, after_cycle, add_events}
use kickd.Config.Cycle.Chains.{IsGrounded}
use kickd.Config.Cycle.Acyclic.{after_cycle_lem}
use kickd.Config.Load.{
  Yaml, Decoded, Loaded, broken, empty, decoded, loaded, refused, accept, finish_load,
  parse_decoded, parse, validate, check_events, cycle_problem,
}
use kickd.Config.Triggers.{problems_at}
use kickd.Config.Valid.{
  append-nil_split, problems_at-nil, IsOther, IsFineTrigger, IsFine, AllDistinct,
  check_events-AreFine,
}
use kickd.Dispatch.Spec.{Spec, AfterTrigger, Policy, Restart, OnInterrupt}
use kickd.Dispatch.Spec
use kickd.Agent.{
  policy_of, restart_of, on_interrupt_of, status_of, statuses_of, after_of_kind, after_of,
  spec_with, spec_of, specs,
}

All-contains :
    (P : String → Type 0) (xs : List String) → All P xs → (c : String) → contains xs c ≡ true → P c
All-contains P [] h c e = absurd cc
All-contains P (x ∷ xs) (p, ps) c e = elim (Bool-cases (x == c)) [
  | inl f ↦ subst P ((string_eq.decides x c).0 f) p
  | inr f ↦ All-contains P xs ps c (rw f at e)
]

policy_of-some :
    (c : String) → contains concurrencies c ≡ true → (p : Policy) × (policy_of c ≡ some p)
unfolding policy_of
policy_of-some =
    All-contains (λ c. (p : Policy) × (policy_of c ≡ some p)) concurrencies
      ((Spec.skip, refl), ((Spec.queue, refl), ((Spec.parallel, refl), ((Spec.replace, refl), tt))))

restart_of-some :
    (c : String) → contains restarts c ≡ true → (p : Restart) × (restart_of c ≡ some p)
unfolding restart_of
restart_of-some =
    All-contains (λ c. (p : Restart) × (restart_of c ≡ some p)) restarts
      ((Spec.never, refl), ((Spec.on_failure, refl), ((Spec.always, refl), tt)))

on_interrupt_of-some :
    (c : String)
    → contains on_interrupts c ≡ true
    → (p : OnInterrupt) × (on_interrupt_of c ≡ some p)
unfolding on_interrupt_of
on_interrupt_of-some =
    All-contains (λ c. (p : OnInterrupt) × (on_interrupt_of c ≡ some p)) on_interrupts
      ((Spec.abandon, refl), ((Spec.rerun, refl), tt))

status_of-some :
    (c : String) → contains after_statuses c ≡ true → (p : Status) × (status_of c ≡ some p)
unfolding status_of
status_of-some =
    All-contains (λ c. (p : Status) × (status_of c ≡ some p)) after_statuses
      (
        (succeeded, refl),
        (
          (failed, refl),
          ((canceled, refl), ((skipped, refl), ((dropped, refl), ((abandoned, refl), tt)))),
        ),
      )

statuses_of-some :
    (sts : List String)
    → All (λ st. contains after_statuses st ≡ true) sts
    → (ss : List Status) × (statuses_of sts ≡ some ss)
unfolding statuses_of
statuses_of-some [] h = ([], refl)
statuses_of-some (st ∷ rest) (a, b) =
    let (s, e) = status_of-some st a in
    let (ss, f) = statuses_of-some rest b in (s ∷ ss, rw (e, f) refl)

abbrev FollowsOther : List String → String → AfterTrigger → Type 0
FollowsOther defined name a = IsOther defined name a.event

after_of_kind-some :
    (defined : List String) (name : String) (t : Trigger) (k : Kind) (later : List AfterTrigger)
    → kind_of t.type ≡ k
    → IsFineTrigger defined name t
    → All (FollowsOther defined name) later
    → (afters : List AfterTrigger) × ((after_of_kind t (some later) k ≡ some afters)
        × All (FollowsOther defined name) afters)
unfolding after_of_kind
after_of_kind-some defined name t after later e h l =
    let (sts, f) = statuses_of-some t.status (h.statuses e) in
    (record { event = t.event; statuses = sts } ∷ later, (rw f refl, (h.follows e, l)))
after_of_kind-some defined name t manual later e h l = (later, (refl, l))
after_of_kind-some defined name t cron later e h l = (later, (refl, l))
after_of_kind-some defined name t webhook later e h l = (later, (refl, l))
after_of_kind-some defined name t file later e h l = (later, (refl, l))
after_of_kind-some defined name t startup later e h l = (later, (refl, l))
after_of_kind-some defined name t wake later e h l = (later, (refl, l))
after_of_kind-some defined name t no_type later e h l = (later, (refl, l))
after_of_kind-some defined name t unknown later e h l = (later, (refl, l))

after_of-some :
    (defined : List String) (name : String) (ts : List Trigger)
    → All (IsFineTrigger defined name) ts
    → (afters : List AfterTrigger) × ((after_of ts ≡ some afters)
        × All (FollowsOther defined name) afters)
unfolding after_of
after_of-some defined name [] h = ([], (refl, tt))
after_of-some defined name (t ∷ ts) (a, b) =
    let (later, (e, l)) = after_of-some defined name ts b in
    rw e (after_of_kind-some defined name t (kind_of t.type) later refl a l)

-- Settings that the dispatcher can run an event by: at least one attempt, delays in their order, and
-- after triggers on other events that there are.
pub record IsFit (defined : List String) (s : Spec) : Type 0 where
  pub attempts : 1 ≤ s.max_attempts
  pub delays : s.restart_delay ≤ s.restart_max_delay
  pub follows : All (λ (a : AfterTrigger). IsOther defined s.name a.event) s.after

amount-attempts : (n : ℤ) → less n (pos 1) ≡ false → 1 ≤ amount n
amount-attempts (pos n) h = ground arith
amount-attempts (negsuc n) h = absurd cc

amount-delays : (d m : ℤ) → less m d ≡ false → amount d ≤ amount m
amount-delays (pos d) (pos m) h = ground arith
amount-delays (pos d) (negsuc m) h = absurd cc
amount-delays (negsuc d) (pos m) h = omega arith
amount-delays (negsuc d) (negsuc m) h = omega arith

spec_of-some :
    (defined : List String) (e : Event)
    → IsFine defined e
    → (s : Spec) × ((spec_of e ≡ some s) × ((s.name ≡ e.name) × IsFit defined s))
unfolding spec_of
spec_of-some defined e h =
    let (p, a) = policy_of-some e.concurrency h.policies.concurrency in
    let (r, b) = restart_of-some e.restart h.policies.restart in
    let (i, c) = on_interrupt_of-some e.on_interrupt h.policies.on_interrupt in
    let (afters, (d, f)) = after_of-some defined e.name e.triggers h.triggers in
    (
      spec_with e p r i afters,
      (
        rw (a, b, c, d) refl,
        (
          refl,
          record {
            attempts = amount-attempts e.max_attempts h.policies.attempts;
            delays = amount-delays e.restart_delay e.restart_max_delay h.policies.max_delay;
            follows = f;
          },
        ),
      ),
    )

abbrev pub spec_names : List Spec → List String
spec_names ss = map (λ (s : Spec). s.name) ss

specs-some :
    (defined : List String) (es : List Event)
    → All (IsFine defined) es
    → (ss : List Spec) × ((specs es ≡ some ss)
        × ((spec_names ss ≡ names_of es) × All (IsFit defined) ss))
unfolding specs
specs-some defined [] h = ([], (refl, (refl, tt)))
specs-some defined (e ∷ es) (a, b) =
    let (s, (f, (n, g))) = spec_of-some defined e a in
    let (ss, (k, (m, l))) = specs-some defined es b in
    (s ∷ ss, (rw (f, k) refl, (rw (n, m) refl, (g, l))))

accept-loaded : (c d : Config) (ps : List Problem) → accept c ps ≡ loaded d → (ps ≡ []) × (c ≡ d)
unfolding accept
accept-loaded c d [] h = (refl, loaded_eq h)
  where
    loaded_eq : {x y : Config} → ◌≡◌ {A = Loaded Config} (loaded x) (loaded y) → x ≡ y
    loaded_eq h = cc
accept-loaded c d (p ∷ ps) h = absurd cc

cycle_problem-no_cycle :
    (events : List Event)
    → cycle_problem (after_cycle events) ≡ []
    → (m : String) → contains (names_of events) m ≡ true
    → IsGrounded (add_events events []) m
unfolding cycle_problem
cycle_problem-no_cycle events h = elim ((after_cycle_lem events).1) [
  | inl (c, (e, _)) ↦ absurd (let x = rw e at h in cc)
  | inr (e, grounded) ↦ grounded
]

-- What the agent can rely on in a configuration.
pub record IsReady (c : Config) : Type 0 where
  pub settings : List Spec
  pub are_specs : specs c.events ≡ some settings
  pub are_named : spec_names settings ≡ names_of c.events
  pub are_distinct : AllDistinct (names_of c.events)
  pub are_fit : All (IsFit (names_of c.events)) settings
  pub is_acyclic :
      (m : String) → contains (names_of c.events) m ≡ true → IsGrounded (add_events c.events []) m

module _ (yaml : Yaml) (sys : System) (parses : String → String → Bool) where
  record IsChecked (x : Loaded Config) : Type 0 where
    at : (c : Config) → x ≡ loaded c → validate sys parses c ≡ []

  finish_load-IsChecked : (x : Loaded Config) → IsChecked (finish_load sys parses x)
  unfolding finish_load
  finish_load-IsChecked (refused e) = record { at = λ c h. absurd cc }
  finish_load-IsChecked (loaded c) = record {
    at = λ d h.
        let (e, f) =
          accept-loaded (apply_defaults sys c) d (validate sys parses (apply_defaults sys c)) h in
        subst (λ x. validate sys parses x ≡ []) f e;
  }

  parse_decoded-IsChecked :
      (path dir : String) (others : List (String × String)) (d : Decoded Config)
      → IsChecked (parse_decoded yaml sys parses path dir others d)
  unfolding parse_decoded
  parse_decoded-IsChecked path dir others broken = record { at = λ c h. absurd cc }
  parse_decoded-IsChecked path dir [] empty = record { at = λ c h. absurd cc }
  parse_decoded-IsChecked path dir (f ∷ fs) empty = finish_load-IsChecked _
  parse_decoded-IsChecked path dir others (decoded c) = finish_load-IsChecked _

  pub parse-checked :
      (path dir text : String) (others : List (String × String)) (c : Config)
      → parse yaml sys parses path dir text others ≡ loaded c
      → check_events sys parses c.path (names_of c.events) [] [] c.events ≡ []
  unfolding validate parse
  parse-checked path dir text others c h =
      let checked = (parse_decoded-IsChecked path dir others (yaml.config text)).at c h in
      let events = check_events sys parses c.path (names_of c.events) [] [] c.events in
      let cycles = problems_at Problem.settings (cycle_problem (after_cycle c.events)) in
      let (_, r) = append-nil_split _ (events ++ cycles) checked in
      let (a, _) = append-nil_split events cycles r in a

  -- A configuration that parse returns gives the dispatcher settings for each of its events, under
  -- the names of the events, which are distinct. Every event has at least one attempt, a first restart
  -- delay that is no longer than the longest one, and after triggers that follow other
  -- events of the configuration, never the event itself; and the after triggers between the events
  -- form no cycle.
  pub parse-IsReady :
      (path dir text : String) (others : List (String × String)) (c : Config)
      → parse yaml sys parses path dir text others ≡ loaded c
      → IsReady c
  unfolding validate parse
  parse-IsReady path dir text others c h =
      let checked = (parse_decoded-IsChecked path dir others (yaml.config text)).at c h in
      let (_, r) =
        append-nil_split _
          (check_events sys parses c.path (names_of c.events) [] [] c.events
            ++ problems_at Problem.settings (cycle_problem (after_cycle c.events)))
          checked in
      let (a, b) =
        append-nil_split (check_events sys parses c.path (names_of c.events) [] [] c.events) _ r in
      let fine = check_events-AreFine sys parses c.path (names_of c.events) [] [] c.events a in
      let (ss, (e, (n, f))) = specs-some (names_of c.events) c.events fine.each_fine in
      record {
        settings = ss;
        are_specs = e;
        are_named = n;
        are_distinct = fine.distinct;
        are_fit = f;
        is_acyclic = cycle_problem-no_cycle c.events (problems_at-nil _ _ b);
      }
